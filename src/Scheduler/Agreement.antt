-- ===== src/Scheduler/Agreement.antt =====
-- Two nodes that execute the same batch agree on what they store.
use graduation_research_prog.Base.{
  ℕ, ◌+◌, ◌<◌, ◌%◌, ◌^◌, ◌≡◌, refl, sym, ◌∙◌, ap, ◌==◌, if◌then◌else◌, some, List, [], ◌∷◌, map,
  get_elem?,
}
use graduation_research_prog.Tx.{Tx}
use graduation_research_prog.Batch.{Batch, contents}
use graduation_research_prog.Message.BatchBlocks.{arrived}
use graduation_research_prog.Slave.Delivery.{queued, expected}
use graduation_research_prog.Scheduler.{Node, execute_txs, execute_batch}
use graduation_research_prog.Scheduler.Convergence.{writes, AllReady, execute_txs-writes}

-- The way over the network does not change what a transaction writes to.
writes-map-arrived : (key : ℕ) (txs : List Tx) → writes key (map arrived txs) ≡ writes key txs
unfolding writes
writes-map-arrived key [] = refl
writes-map-arrived key (tx ∷ txs) =
    ap (λ n. (if tx.key == key then 1 else 0) + n) (writes-map-arrived key txs)

pub execute_batch-eq :
    (me : ℕ) (b : Batch) (epoch : ℕ) (n : Node)
    → execute_batch me b epoch n ≡ execute_txs me epoch (contents b) n
unfolding execute_batch
execute_batch-eq me b epoch n = refl

-- A batch at the master, and what a slave has queued of it: if two nodes have the same record at a key,
-- the keys of the batch are in the storage of both and the clients of both wait, then both execute the
-- batch to its end, and the records at that key are the same again.
pub execute_batch-agree :
    (me you epoch : ℕ) (b b' : Batch) (m n : Node) (key v : ℕ)
    → queued b' ≡ expected b
    → AllReady me m (contents b)
    → AllReady you n (contents b')
    → v < 2 ^ 16
    → get_elem? m.storage.records key ≡ some v
    → get_elem? n.storage.records key ≡ some v
    → (m' : Node) × (n' : Node) × (execute_batch me b epoch m ≡ some m')
      × (execute_batch you b' epoch n ≡ some n')
      × (get_elem? m'.storage.records key ≡ get_elem? n'.storage.records key)
execute_batch-agree me you epoch b b' m n key v same ready ready' small at at' =
    let (m', runs, counts) = execute_txs-writes me epoch (contents b) m key v ready small at in
    let (n', runs', counts') =
      execute_txs-writes you epoch (contents b') n key v ready' small at' in
    let equal : writes key (contents b') ≡ writes key (contents b) =
      ap (writes key) (ap (λ (p : ℕ × List Tx). p.1) same) ∙ writes-map-arrived key (contents b) in
    (
      m',
      n',
      execute_batch-eq me b epoch m ∙ runs,
      execute_batch-eq you b' epoch n ∙ runs',
      counts ∙ ap (λ w. some ((v + w) % 2 ^ 16)) (sym equal) ∙ sym counts',
    )
