-- ===== src/Cluster/Replicas.antt =====
-- Slaves that have come equally far store the same.
mod Tests
use mathlib.Core.List.{append-nil}
use graduation_research_prog.Base.{
  ℕ, ◌<◌, ◌≤◌, ◌^◌, ◌≡◌, ◌≢◌, refl, sym, ◌∙◌, ap, some, List, [], ◌∷◌, ◌++◌, map, length,
  length-map, length-append, get_elem?, arith,
}
use graduation_research_prog.Bytes.{Buf}
use graduation_research_prog.Tx.{Tx}
use graduation_research_prog.Config.{Method, tcp_method}
use graduation_research_prog.Slave.Delivery.{queued}
use graduation_research_prog.Scheduler.{Node, execute_batches}
use graduation_research_prog.Scheduler.Queue.{BatchesReady, execute_batches-agree}
use graduation_research_prog.Cluster.{Cluster, ClusterReach, cluster_startup}
use graduation_research_prog.Cluster.Agreement.{all_agree}

no_rest : {A : Type 0} (xs ys rest : List A) → ys ≡ xs ++ rest → length ys ≡ length xs → ys ≡ xs
no_rest xs ys [] e h = e ∙ append-nil xs
no_rest xs ys (r ∷ rest) e h = absurd (omega (arith, h, ap length e, length-append xs (r ∷ rest)))

-- A master and its slaves, of either UDP method, from their start through any steps, of epochs below
-- 2 ^ 15 and with files that can be read and written, whatever the network does: if two slaves have come
-- to the same epoch, and the schedulers of both execute all that was queued, each on a storage that has
-- the keys and with its clients waiting, then both come to the end, and a record that was the same
-- before is the same again.
pub replicas_agree :
    (method : Method) (raw_set : ℕ → Tx) (buf : Buf) (c : Cluster) (r s epoch other : ℕ)
    (m n : Node) (key v : ℕ)
    → method ≢ tcp_method
    → ClusterReach method (cluster_startup raw_set buf) c
    → (c.slaves s).next_batch_epoch_id ≡ (c.slaves r).next_batch_epoch_id
    → BatchesReady r m (c.slaves r).write_tx_buffer
    → BatchesReady s n (c.slaves s).write_tx_buffer
    → v < 2 ^ 16
    → get_elem? m.storage.records key ≡ some v
    → get_elem? n.storage.records key ≡ some v
    → (m' : Node) × (n' : Node) × (i : ℕ) × (j : ℕ) × (execute_batches r epoch
          (c.slaves r).write_tx_buffer
          m
        ≡ some (m', i))
      × (execute_batches s other (c.slaves s).write_tx_buffer n ≡ some (n', j))
      × (get_elem? m'.storage.records key ≡ get_elem? n'.storage.records key)
replicas_agree method raw_set buf c r s epoch other m n key v udp reach same ready ready' small at
      at' =
    let q = (c.slaves r).write_tx_buffer in
    let p = (c.slaves s).write_tx_buffer in
    let (_, counted, _, _, (rest, e)) =
      all_agree method udp raw_set buf c r s reach (omega (arith, same)) in
    let (_, counted', _, _, _) =
      all_agree method udp raw_set buf c s r reach (omega (arith, same)) in
    let equal : map queued p ≡ map queued q =
      no_rest (map queued q) (map queued p) rest e
        (omega (arith, length-map queued q, length-map queued p, counted, counted', same)) in
    execute_batches-agree r s epoch other q p m n key v (sym equal) ready ready' small at at'
