-- ===== src/Cluster/Convergence.antt =====
-- The master can bring all slaves up to date, from any state of the cluster.
use mathlib.Core.List.{append-nil}
use graduation_research_prog.Base.{
  ℕ, zero, suc, ◌≡◌, ◌≢◌, refl, sym, ◌∙◌, ap, ap₂, subst, some-injective, some, List, [], ◌∷◌, ◌++◌,
  map, length, length-map, length-append, get_elem?, arith,
}
use graduation_research_prog.Bytes.{Buf}
use graduation_research_prog.Tx.{Tx}
use graduation_research_prog.Config.{
  Method, tcp_method, get_port_slave_sequencer, get_port_master_sequencer_from_slave_sequencer,
}
use graduation_research_prog.Master.{Master}
use graduation_research_prog.Master.Epochs.{length-queue}
use graduation_research_prog.Slave.State.{Env}
use graduation_research_prog.Slave.Delivery.{queued, expected, CanLog}
use graduation_research_prog.System.{System}
use graduation_research_prog.System.Invariant.{IsSystem, within-IsSystem}
use graduation_research_prog.Cluster.{Cluster, ClusterReach, cluster_startup, here, more}
use graduation_research_prog.Cluster.Invariant.{view, IsCluster}
use graduation_research_prog.Cluster.Agreement.{ClusterReach-IsCluster, reached-IsCluster}
use graduation_research_prog.Cluster.Progress.{From, brought_up}

-- the ids of the slaves
abbrev pub slave_ids : List ℕ
slave_ids = 1 ∷ 2 ∷ 3 ∷ 4 ∷ 5 ∷ 6 ∷ []

-- each has its two ports
record Placed (r : ℕ) : Type 0 where
  slave_port : (p : ℕ) × (get_port_slave_sequencer r ≡ some p)
  ack_port : (k : ℕ) × (get_port_master_sequencer_from_slave_sequencer r ≡ some k)

Placed-at :
    (q p k : ℕ) {r : ℕ}
    → get_port_slave_sequencer q ≡ some p
    → get_port_master_sequencer_from_slave_sequencer q ≡ some k
    → some q ≡ some r
    → Placed r
Placed-at q p k ports acks h =
    subst Placed (some-injective h) (record { slave_port = (p, ports); ack_port = (k, acks) })

slave_ids-Placed : (i r : ℕ) → get_elem? slave_ids i ≡ some r → Placed r
unfolding get_port_slave_sequencer get_port_master_sequencer_from_slave_sequencer
slave_ids-Placed zero r h = Placed-at 1 7771 6661 refl refl h
slave_ids-Placed (suc zero) r h = Placed-at 2 7772 6662 refl refl h
slave_ids-Placed (suc (suc zero)) r h = Placed-at 3 7773 6663 refl refl h
slave_ids-Placed (suc (suc (suc zero))) r h = Placed-at 4 7774 6664 refl refl h
slave_ids-Placed (suc (suc (suc (suc zero)))) r h = Placed-at 5 7775 6665 refl refl h
slave_ids-Placed (suc (suc (suc (suc (suc zero))))) r h = Placed-at 6 7776 6666 refl refl h
slave_ids-Placed (suc (suc (suc (suc (suc (suc i)))))) r h = absurd (cc)

reach_trans :
    {method : Method} {a b c : Cluster}
    → ClusterReach method a b
    → ClusterReach method b c
    → ClusterReach method a c
reach_trans r here = r
reach_trans r (more s st) = more (reach_trans r s) st

From-trans :
    {method : Method} {a b c : Cluster} → From method a b → From method b c → From method a c
From-trans v w = record {
  reach = reach_trans v.reach w.reach;
  same_master = w.same_master ∙ v.same_master;
  same_determined = w.same_determined ∙ v.same_determined;
  ahead = λ q. omega (arith, v.ahead q, w.ahead q);
}

module _ (method : Method) (udp : method ≢ tcp_method) (env : Env) (can : CanLog env) where
  -- One thread after the other has all ACKs, and none goes back.
  all_up :
      (rs : List ℕ)
      → ((i r : ℕ) → get_elem? rs i ≡ some r → Placed r)
      → (c : Cluster) → IsCluster c
      → (t : Cluster) × From method c t
        × ((i r : ℕ) → get_elem? rs i ≡ some r → (t.senders r).next_epoch_id ≡ c.determined)
  all_up [] placed c v = (
    c,
    record { reach = here; same_master = refl; same_determined = refl; ahead = λ q. omega arith },
    λ i r h. cc,
  )
  all_up (r ∷ rs) placed c v =
      let at = placed 0 r refl in
      let (a, wa, first) =
        brought_up method udp c v r at.slave_port.0 at.ack_port.0 at.slave_port.1 at.ack_port.1 env
          can in
      let (t, wt, others) =
        all_up rs (λ i q h. placed (suc i) q h) a (ClusterReach-IsCluster method udp wa.reach v) in
      let w = From-trans wa wt in
      let u = (ClusterReach-IsCluster method udp w.reach v).part r in
      let stays : (t.senders r).next_epoch_id ≡ c.determined =
        omega
          (arith, first, wt.ahead r, u.behind, within-IsSystem (view t r) u, w.same_determined) in
      (t, w, of_either a t wa.same_determined stays others)
    where
      of_either :
          (a t : Cluster)
          → a.determined ≡ c.determined
          → (t.senders r).next_epoch_id ≡ c.determined
          → ((i q : ℕ) → get_elem? rs i ≡ some q → (t.senders q).next_epoch_id ≡ a.determined)
          → (i q : ℕ) → get_elem? (r ∷ rs) i ≡ some q
          → (t.senders q).next_epoch_id ≡ c.determined
      of_either a t same stays others zero q h =
          ap (λ k. (t.senders k).next_epoch_id) (sym (some-injective h)) ∙ stays
      of_either a t same stays others (suc i) q h = others i q h ∙ same

whole : {A : Type 0} (xs ys rest : List A) → xs ≡ ys ++ rest → length xs ≡ length ys → ys ≡ xs
whole xs ys [] e h = sym (e ∙ append-nil ys)
whole xs ys (x ∷ rest) e h = absurd (omega (arith, h, ap length e, length-append ys (x ∷ rest)))

-- A slave that has reached the determined epochs has the whole queue.
complete :
    {me : ℕ} (c : System)
    → IsSystem me c
    → c.slave.next_batch_epoch_id ≡ c.determined
    → map queued c.slave.write_tx_buffer ≡ map expected c.master.write_tx_buffer
complete c v now =
    let (rest, agreed) = v.agreement in
    whole (map expected c.master.write_tx_buffer) (map queued c.slave.write_tx_buffer) rest agreed (
      omega (
        arith,
        now,
        v.counted,
        length-queue c.master c.determined v.master,
        length-map expected c.master.write_tx_buffer,
        length-map queued c.slave.write_tx_buffer,
      ))

map-pointwise :
    {A B : Type 0} (f g : A → B) (xs : List A)
    → ((i : ℕ) (x : A) → get_elem? xs i ≡ some x → f x ≡ g x)
    → map f xs ≡ map g xs
map-pointwise f g [] h = refl
map-pointwise f g (x ∷ xs) h =
    ap₂ (λ a b. a ∷ b) (h 0 x refl) (map-pointwise f g xs (λ i y at. h (suc i) y at))

-- All that was sent may be lost.
silent-IsCluster : (c : Cluster) → IsCluster c → IsCluster (record c { net = [] })
silent-IsCluster c v = record { part = v.part; logs = v.logs; routed = λ i x h. cc }

-- A master and its slaves, of either UDP method, from their start through any steps, of epochs below
-- 2 ^ 15, whatever the network has lost, doubled or reordered: even if from then on all that was sent so
-- far is lost, there are steps, in which files can be read and written, that bring every slave up to
-- date with new messages alone. The next epoch of each sending thread and of
-- each slave is then the number of the determined epochs, the slave's queue, decoded batches with their epochs, is the whole queue of the master, and the
-- master's batches, log and epochs are as they were before these steps.
pub progress :
    (method : Method) (raw_set : ℕ → Tx) (buf : Buf) (c : Cluster) (env : Env)
    → method ≢ tcp_method
    → ClusterReach method (cluster_startup raw_set buf) c
    → CanLog env
    → (t : Cluster) × ClusterReach method (record c { net = [] }) t
      × (t.master ≡ c.master)
      × (map (λ r. (t.senders r).next_epoch_id) slave_ids ≡ map (λ _. c.determined) slave_ids)
      × (map (λ r. (t.slaves r).next_batch_epoch_id) slave_ids ≡ map (λ _. c.determined) slave_ids)
      × (map (λ r. map queued (t.slaves r).write_tx_buffer) slave_ids
          ≡ map (λ _. map expected c.master.write_tx_buffer) slave_ids)
progress method raw_set buf c env udp reach can =
    let v = silent-IsCluster c (reached-IsCluster method udp raw_set buf reach) in
    let (t, w, all) =
      all_up method udp env can slave_ids slave_ids-Placed (record c { net = [] }) v in
    let u = ClusterReach-IsCluster method udp w.reach v in
    let now : (i r : ℕ)
        → get_elem? slave_ids i ≡ some r
        → (t.slaves r).next_batch_epoch_id ≡ c.determined =
      λ i r at. omega (
        arith,
        all i r at,
        (u.part r).behind,
        within-IsSystem (view t r) (u.part r),
        w.same_determined,
      ) in
    (
      t,
      w.reach,
      w.same_master,
      map-pointwise _ _ slave_ids all,
      map-pointwise _ _ slave_ids now,
      map-pointwise _ _ slave_ids (λ i r at.
          complete (view t r) (u.part r) (now i r at ∙ sym w.same_determined)
          ∙ ap (λ (m : Master). map expected m.write_tx_buffer) w.same_master),
    )
