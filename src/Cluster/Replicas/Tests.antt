-- ===== src/Cluster/Replicas/Tests.antt =====
-- Two slaves that have both taken the first batch, and execute it.
use graduation_research_prog.Base.{
  ℕ, ◌≡◌, ◌≢◌, refl, none, none, some-injective, sym, subst, some, List, [], ap, ◌∙◌, ◌∷◌, map,
  get_elem?, arith,
}
use graduation_research_prog.Tx.{Tx}
use graduation_research_prog.Config.{proposed_method, tcp_method, get_port_slave_sequencer}
use graduation_research_prog.Samples.{zeros, tx_of, raw_set, in_two, in_two-Serves}
use graduation_research_prog.Master.Epochs.{Reach-IsMaster}
use graduation_research_prog.Master.Sender.{sender_startup}
use graduation_research_prog.Master.Serving.{begin_step-Carries}
use graduation_research_prog.Slave.Delivery.{queued, expected}
use graduation_research_prog.Slave.{startup}
use graduation_research_prog.System.Run.{
  slave_env, slave_env-CanLog, added, added_step, swapped_step, determined,
}
use graduation_research_prog.Log.{batch_log_size}
use graduation_research_prog.Batch.{Batch}
use graduation_research_prog.Slave.Delivery.{step-fresh}
use graduation_research_prog.Cluster.{
  Cluster, cluster_startup, master_step, begin, transmit, deliver, ClusterReach, here, more,
}
use graduation_research_prog.Batch.{contents}
use graduation_research_prog.Message.BatchBlocks.{arrived}
use graduation_research_prog.System.Run.{contents-added}
use graduation_research_prog.Samples.{tx_of}
use graduation_research_prog.Scheduler.{Node, wait_for_exe, execute_batches}
use graduation_research_prog.Scheduler.Convergence.{AllReady}
use graduation_research_prog.Scheduler.Queue.{BatchesReady}
use graduation_research_prog.Cluster.Replicas.{replicas_agree}

abbrev start : Cluster
start = cluster_startup raw_set zeros

-- the clients of replica 1: client 2 waits
abbrev node : Node
node = record {
  storage = record { storage_size = 6; records = 0 ∷ 0 ∷ 0 ∷ 0 ∷ 5 ∷ 0 ∷ [] };
  waiting = none ∷ none ∷ some (tx_of 3) ∷ [];
}

abbrev other_node : Node
other_node = record node { waiting = [] }

client-waits : wait_for_exe node 2 ≡ some (tx_of 3)
unfolding wait_for_exe
client-waits = refl

-- both slaves have queued the batch
abbrev Both : Cluster → Type 0
Both c =
    ClusterReach proposed_method start c
    × ((c.slaves 2).next_batch_epoch_id ≡ (c.slaves 1).next_batch_epoch_id)
    × (map queued (c.slaves 1).write_tx_buffer ≡ expected added.batch ∷ [])
    × (map queued (c.slaves 2).write_tx_buffer ≡ expected added.batch ∷ [])

not_tcp : proposed_method ≢ tcp_method
not_tcp h = cc

both : (c : Cluster) × Both c
unfolding sender_startup get_port_slave_sequencer startup
both =
    let (m, st, reach, queue) = determined in
    let v = Reach-IsMaster raw_set zeros reach in
    let (b, out, at, epoch, sound, begins, sends, carries) =
      begin_step-Carries m 1 2 in_two zeros (sender_startup zeros zeros) v (omega arith) refl
        (omega arith) in_two-Serves in
    let (b', out', at', epoch', sound', begins', sends', carries') =
      begin_step-Carries m 1 1 in_two zeros (sender_startup zeros zeros) v (omega arith) refl
        (omega arith) in_two-Serves in
    let (t, _, runs, moved, taken, _, _, _) =
      step-fresh proposed_method not_tcp 2 slave_env (start.slaves 2)
        (record { bytes = out; len = batch_log_size }) b carries sound epoch (omega arith)
        slave_env-CanLog in
    let (t', _, runs', moved', taken', _, _, _) =
      step-fresh proposed_method not_tcp 1 slave_env (start.slaves 1)
        (record { bytes = out'; len = batch_log_size }) b' carries' sound' epoch' (omega arith)
        slave_env-CanLog in
    let is : b ≡ added.batch = some-injective (sym at ∙ ap (λ q. get_elem? q 0) queue) in
    let is' : b' ≡ added.batch = some-injective (sym at' ∙ ap (λ q. get_elem? q 0) queue) in
    (
      _,
      (
        more
            (more
              (more
                (more
                  (more
                    (more
                      (more (more (more here (master_step added_step)) (master_step swapped_step))
                        (master_step st))
                      (begin 2 in_two zeros in_two-Serves begins))
                    (begin 1 in_two zeros in_two-Serves begins'))
                  (transmit 2 sends))
                (transmit 1 sends'))
              (deliver 2 slave_env 0 slave_env-CanLog refl refl refl runs))
            (deliver 1 slave_env 1 slave_env-CanLog refl refl refl runs'),
        moved ∙ sym moved',
        taken' ∙ ap (λ x. expected x ∷ []) is',
        taken ∙ ap (λ x. expected x ∷ []) is,
      ),
    )

-- what is queued can be executed
ready_of :
    (me : ℕ) (n : Node) (bs : List Batch) (txs : List Tx) (epoch : ℕ)
    → map queued bs ≡ (epoch, txs) ∷ []
    → AllReady me n txs
    → BatchesReady me n bs
ready_of me n [] txs epoch e v = tt
ready_of me n (b ∷ []) txs epoch e v =
    let same : contents b ≡ txs = cc in (subst (AllReady me n) (sym same) v, tt)
ready_of me n (b ∷ c ∷ bs) txs epoch e v = absurd (longer e)
  where
    longer : {A : Type 0} {x y z : A} {xs : List A} → x ∷ y ∷ xs ≡ z ∷ [] → ⊥
    longer h = cc

arrived-AllReady : AllReady 1 node (map arrived (contents added.batch))
arrived-AllReady =
    rw contents-added
      (record { key = (omega arith, omega arith); client = λ e. (tx_of 3, client-waits) }, tt)

other-AllReady : AllReady 2 other_node (map arrived (contents added.batch))
other-AllReady =
    rw contents-added
      (record { key = (omega arith, omega arith); client = λ e. absurd (omega (arith, e)) }, tt)

replicas_agree_example :
    (m : Node) × (n : Node) × (i : ℕ) × (j : ℕ) × (execute_batches 1 0
        (both.0.slaves 1).write_tx_buffer
        node
      ≡ some (m, i))
    × (execute_batches 2 0 (both.0.slaves 2).write_tx_buffer other_node ≡ some (n, j))
    × (get_elem? m.storage.records 4 ≡ get_elem? n.storage.records 4)
replicas_agree_example =
    replicas_agree proposed_method raw_set zeros both.0 1 2 0 0 node other_node 4 5 not_tcp both.1.0
      both.1.1 (ready_of 1 node (both.0.slaves 1).write_tx_buffer _ _ both.1.2 arrived-AllReady)
      (ready_of 2 other_node (both.0.slaves 2).write_tx_buffer _ _ both.1.3 other-AllReady)
      (omega arith) refl refl
