-- ===== src/Scheduler/Queue.antt =====
-- The storage after a queue of batches.
use graduation_research_prog.Base.{
  ℕ, ◌+◌, ◌<◌, ◌%◌, ◌^◌, ◌≡◌, refl, sym, ◌∙◌, ap, some, List, [], ◌∷◌, map, get_elem?, arith,
}
use graduation_research_prog.Words.{short_of_int, int_inc}
use graduation_research_prog.Tx.{Tx}
use graduation_research_prog.Batch.{Batch, contents}
use graduation_research_prog.Slave.Delivery.{queued}
use graduation_research_prog.Scheduler.{Node, execute_batch, execute_batches}
use graduation_research_prog.Scheduler.Agreement.{execute_batch-eq}
use graduation_research_prog.Scheduler.Convergence.{writes, AllReady, execute_txs-all}

-- how many of the transactions of the batches write to `key`
abbrev pub writes_in : ℕ → List (ℕ × List Tx) → ℕ
writes_in key [] = 0
writes_in key (b ∷ bs) = writes key b.1 + writes_in key bs

-- each batch can be executed
abbrev pub BatchesReady : ℕ → Node → List Batch → Type 0
BatchesReady me n [] = Unit
BatchesReady me n (b ∷ bs) = AllReady me n (contents b) × BatchesReady me n bs

BatchesReady-kept :
    (me : ℕ) (n n' : Node) (bs : List Batch)
    → ((others : List Tx) → AllReady me n others → AllReady me n' others)
    → BatchesReady me n bs
    → BatchesReady me n' bs
BatchesReady-kept me n n' [] kept v = tt
BatchesReady-kept me n n' (b ∷ bs) kept v =
    (kept (contents b) v.0, BatchesReady-kept me n n' bs kept v.1)

-- A node executes its queue to the end, and each record has counted the writes of its key.
pub execute_batches-all :
    (me epoch : ℕ) (bs : List Batch) (n : Node)
    → BatchesReady me n bs
    → (n' : Node) × (next : ℕ) × (execute_batches me epoch bs n ≡ some (n', next))
      × ((key v : ℕ)
          → v < 2 ^ 16
          → get_elem? n.storage.records key ≡ some v
          → get_elem? n'.storage.records key ≡ some ((v + writes_in key (map queued bs)) % 2 ^ 16))
unfolding execute_batches
execute_batches-all me epoch [] n v = (n, epoch, refl, λ key x small h. h ∙ ap some (omega arith))
execute_batches-all me epoch (b ∷ bs) n v =
    let (m, runs, counts, kept) = execute_txs-all me (short_of_int epoch) (contents b) n v.0 in
    let (n', next, rest, more) =
      execute_batches-all me (int_inc epoch) bs m (BatchesReady-kept me n m bs kept v.1) in
    let first : execute_batch me b (short_of_int epoch) n ≡ some m =
      execute_batch-eq me b (short_of_int epoch) n ∙ runs in
    (
      n',
      next,
      rw first rest,
      λ key w small h.
          more key ((w + writes key (contents b)) % 2 ^ 16) (omega arith) (counts key w small h)
          ∙ ap some (omega arith),
    )

-- Two nodes that have queued the same batches, as the epochs and the transactions, and have the same
-- record at a key, the keys of the batches being in the storage of both and the clients of both
-- waiting: both execute their queues to the end, from any number of the first batch on, and the records
-- at that key are the same again.
pub execute_batches-agree :
    (me you epoch other : ℕ) (bs bs' : List Batch) (m n : Node) (key v : ℕ)
    → map queued bs ≡ map queued bs'
    → BatchesReady me m bs
    → BatchesReady you n bs'
    → v < 2 ^ 16
    → get_elem? m.storage.records key ≡ some v
    → get_elem? n.storage.records key ≡ some v
    → (m' : Node) × (n' : Node) × (i : ℕ) × (j : ℕ) × (execute_batches me epoch bs m ≡ some (m', i))
      × (execute_batches you other bs' n ≡ some (n', j))
      × (get_elem? m'.storage.records key ≡ get_elem? n'.storage.records key)
execute_batches-agree me you epoch other bs bs' m n key v same ready ready' small at at' =
    let (m', i, runs, counts) = execute_batches-all me epoch bs m ready in
    let (n', j, runs', counts') = execute_batches-all you other bs' n ready' in
    (
      m',
      n',
      i,
      j,
      runs,
      runs',
      counts key v small at
          ∙ ap (λ q. some ((v + writes_in key q) % 2 ^ 16)) same
          ∙ sym (counts' key v small at'),
    )
