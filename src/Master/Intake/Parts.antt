-- ===== src/Master/Intake/Parts.antt =====
-- Lists of transactions by their threads, and what a thread has taken.
use graduation_research_prog.Base.{
  ℕ, suc, ◌≤◌, ◌≡◌, refl, sym, ◌∙◌, ap, inl, inr, Bool-cases, ◌==◌, true, false, List, [], ◌∷◌,
  ◌++◌, arith,
}
use mathlib.Core.List.{append_assoc}
use graduation_research_prog.Tx.{Tx}
use graduation_research_prog.Batch.{Batch, contents}
use graduation_research_prog.Master.Dedup.{Increasing}
use graduation_research_prog.Master.Intake.{Log, by_thread, of_thread, all_contents}

-- strictly increasing, from `lo` on and below `hi`
abbrev pub Rising : ℕ → ℕ → List ℕ → Type 0
Rising lo hi [] = lo ≤ hi
Rising lo hi (i ∷ is) = (lo ≤ i) × Rising (suc i) hi is

pub Rising-Increasing : (lo hi : ℕ) (is : List ℕ) → Rising lo hi is → Increasing lo is
Rising-Increasing lo hi [] v = tt
Rising-Increasing lo hi (i ∷ is) v = (v.0, Rising-Increasing (suc i) hi is v.1)

pub Rising-mono : (lo hi more : ℕ) (is : List ℕ) → hi ≤ more → Rising lo hi is → Rising lo more is
Rising-mono lo hi more [] h v = omega (arith, v)
Rising-mono lo hi more (i ∷ is) h v = (v.0, Rising-mono (suc i) hi more is h v.1)

pub Rising-snoc :
    (lo hi i : ℕ) (is : List ℕ) → hi ≤ i → Rising lo hi is → Rising lo (suc i) (is ++ (i ∷ []))
Rising-snoc lo hi i [] h v = (omega (arith, v), omega arith)
Rising-snoc lo hi i (j ∷ is) h v = (v.0, Rising-snoc (suc j) hi i is h v.1)

pub of_thread-append :
    (t : ℕ) (xs ys : Log) → of_thread t (xs ++ ys) ≡ of_thread t xs ++ of_thread t ys
of_thread-append t [] ys = refl
of_thread-append t ((q, tx) ∷ xs) ys = elim (Bool-cases (t == q)) [
  | inl hit ↦ rw hit (ap (λ l. tx ∷ l) (of_thread-append t xs ys))
  | inr miss ↦ rw miss (of_thread-append t xs ys)
]

pub of_thread_self : (t : ℕ) (xs : List Tx) → of_thread t (by_thread t xs) ≡ xs
of_thread_self t [] = refl
of_thread_self t (x ∷ xs) =
    let hit : (t == t) ≡ true = ground arith in rw hit (ap (λ l. x ∷ l) (of_thread_self t xs))

pub of_thread_other :
    (t q : ℕ) (xs : List Tx) → (t == q) ≡ false → of_thread t (by_thread q xs) ≡ []
of_thread_other t q [] h = refl
of_thread_other t q (x ∷ xs) h = rw h (of_thread_other t q xs h)

pub all_contents-append :
    (xs ys : List Batch) → all_contents (xs ++ ys) ≡ all_contents xs ++ all_contents ys
all_contents-append [] ys = refl
all_contents-append (b ∷ bs) ys =
    ap (λ l. contents b ++ l) (all_contents-append bs ys)
    ∙ sym (append_assoc (contents b) (all_contents bs) (all_contents ys))
