-- ===== src/Startup/Idle.antt =====
-- The schedulers of the master are started before the system is.
use graduation_research_prog.Base.{ℕ, ◌≡◌, refl, Option, none, some, List, [], ◌∷◌}
use graduation_research_prog.Words.{int_minus_one}
use graduation_research_prog.Outcome.{done}
use graduation_research_prog.Tx.{Tx}
use graduation_research_prog.Batch.{Batch}
use graduation_research_prog.Config.{Method}
use graduation_research_prog.Log.{File}
use graduation_research_prog.Storage.{Storage}
use graduation_research_prog.Scheduler.{Node}
use graduation_research_prog.Scheduler.Threads.{write_scheduler_startup, read_scheduler_startup}
use graduation_research_prog.Startup.{master_config}

idle_write :
    (me epoch : ℕ) (b : Option Batch) (looks : List (ℕ × Option Batch)) (n : Node)
    → write_scheduler_startup me epoch ((int_minus_one, b) ∷ looks) n ≡ done (n, epoch)
unfolding write_scheduler_startup
idle_write me epoch none looks n = refl
idle_write me epoch (some b) looks n = refl

idle_read :
    (storage : Storage) (tx : Option Tx) (looks : List (ℕ × Option Tx))
    → read_scheduler_startup storage ((int_minus_one, tx) ∷ looks) ≡ done []
unfolding read_scheduler_startup
idle_read storage none looks = refl
idle_read storage (some tx) looks = refl

-- The master's `main` leaves a finish request with which its schedulers do not run: if their first look
-- is at the record as `main` has set it up, before a client's start has come, then both threads end at
-- once. They execute nothing, whatever their queues have or get later, and leave the node as it was.
pub master_schedulers_idle :
    (exp : Method) (raw : List (Option Tx)) (file : Option File) (b : Option Batch) (tx : Option Tx)
    (looks : List (ℕ × Option Batch)) (read_looks : List (ℕ × Option Tx)) (n : Node)
    → let config = master_config exp raw file in
      let request = config.system_finish_request in
      (write_scheduler_startup config.my_replica_id 0 ((request, b) ∷ looks) n ≡ done (n, 0))
      × (read_scheduler_startup config.storage ((request, tx) ∷ read_looks) ≡ done [])
unfolding master_config
master_schedulers_idle exp raw file b tx looks read_looks n = (
  idle_write (master_config exp raw file).my_replica_id 0 b looks n,
  idle_read (master_config exp raw file).storage tx read_looks,
)
