-- ===== src/Scheduler/Running.antt =====
-- What the scheduler of writes executes until it is to finish.
use graduation_research_prog.Base.{
  ℕ, ◌≡◌, ◌≢◌, refl, ◌==◌, false, Option, none, some, List, [], ◌∷◌, ◌++◌, arith,
}
use graduation_research_prog.Words.{short_of_int, int_inc}
use graduation_research_prog.Outcome.{Outcome, done, abort}
use graduation_research_prog.Batch.{Batch}
use graduation_research_prog.Scheduler.{Node, bind, execute_batch, execute_batches}
use graduation_research_prog.Scheduler.Threads.{write_scheduler_startup}

-- the batches that the queue gave
abbrev pub given : List (Option Batch) → List Batch
given [] = []
given (none ∷ looks) = given looks
given (some b ∷ looks) = b ∷ given looks

-- looks at a system that is running
abbrev pub running : List (Option Batch) → List (ℕ × Option Batch)
running [] = []
running (b ∷ looks) = (0, b) ∷ running looks

abbrev pub to_outcome : {A : Type 0} → Option A → Outcome A
to_outcome none = abort
to_outcome (some a) = done a

-- what is done with a result is done with its outcome
each :
    {A B : Type 0} (x : Option A) (k : A → Outcome B) (l : A → Option B)
    → ((a : A) → k a ≡ to_outcome (l a))
    → elim x [ none ↦ abort | some a ↦ k a ] ≡ to_outcome (bind x l)
each none k l h = refl
each (some a) k l h = h a

-- While the system is running the thread executes the batches that the queue gives it, in their order
-- and under consecutive numbers, however often the queue is empty in between, and no other; it ends at
-- the first look at which the system is not running, and executes nothing of what the queue then has.
pub write_scheduler_startup-executes :
    (me epoch request : ℕ) (looks : List (Option Batch)) (last : Option Batch)
    (more : List (ℕ × Option Batch)) (n : Node)
    → request ≢ 0
    → write_scheduler_startup me epoch (running looks ++ ((request, last) ∷ more)) n
      ≡ to_outcome (execute_batches me epoch (given looks) n)
unfolding write_scheduler_startup execute_batches
write_scheduler_startup-executes me epoch request [] none more n h =
    let over : (request == 0) ≡ false = ground (arith, h) in rw over refl
write_scheduler_startup-executes me epoch request [] (some b) more n h =
    let over : (request == 0) ≡ false = ground (arith, h) in rw over refl
write_scheduler_startup-executes me epoch request (none ∷ looks) last more n h =
    write_scheduler_startup-executes me epoch request looks last more n h
write_scheduler_startup-executes me epoch request (some b ∷ looks) last more n h =
    each (execute_batch me b (short_of_int epoch) n)
      (λ m.
        write_scheduler_startup me (int_inc epoch) (running looks ++ ((request, last) ∷ more)) m)
      (execute_batches me (int_inc epoch) (given looks))
      (λ m. write_scheduler_startup-executes me (int_inc epoch) request looks last more m h)
