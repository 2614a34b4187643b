-- ===== src/System/Agreement.antt =====
-- Whatever the network loses, doubles or reorders, the slave's queue is a prefix of the master's.
use graduation_research_prog.Base.{
  ℕ, ◌<◌, ◌≤◌, ◌^◌, ◌≡◌, ◌≢◌, refl, sym, ◌∙◌, ap, subst, some, List, [], ◌∷◌, ◌++◌, map, length,
  get_elem?, arith,
}
use graduation_research_prog.Outcome.{done, done-injective}
use graduation_research_prog.Bytes.{Buf}
use graduation_research_prog.Tx.{Tx}
use graduation_research_prog.Network.{Datagram, Sent}
use graduation_research_prog.Config.{Method, tcp_method}
use graduation_research_prog.Master.{master_startup}
use graduation_research_prog.Master.Epochs.{master_startup-IsMaster}
use graduation_research_prog.Master.Sender.{sender_startup}
use graduation_research_prog.Slave.State.{Slave, Env}
use graduation_research_prog.Slave.Delivery.{queued, expected, CanLog}
use graduation_research_prog.Slave.{slave_step, startup}
use graduation_research_prog.System.{
  System, datagram_of_sent, system_startup, SystemStep, master_step, begin, transmit, deliver,
  acknowledged, SystemReach, here, more,
}
use graduation_research_prog.System.Invariant.{Acked, IsSystem, within-IsSystem}
use graduation_research_prog.System.Parts.{begin_step-Begun}
use graduation_research_prog.System.Steps.{
  master_step-IsSystem, begin-IsSystem, transmit-IsSystem, Delivered-IsSystem,
  acknowledged-IsSystem,
}
use graduation_research_prog.System.Rounds.{Delivered, deliver-Delivered}

-- the start
pub startup-IsSystem :
    (raw_set : ℕ → Tx) (buf : Buf) (me : ℕ) → IsSystem me (system_startup raw_set buf)
unfolding master_startup sender_startup startup
startup-IsSystem raw_set buf me = record {
  master = master_startup-IsMaster raw_set buf;
  bounded = omega arith;
  current = λ busy. cc;
  loaded = λ busy. cc;
  behind = omega arith;
  batches = λ i d h. cc;
  acks = λ i d h. cc;
  counted = refl;
  agreement = ([], refl);
}

head_eq : {a b : Sent} {xs ys : List Sent} → a ∷ xs ≡ b ∷ ys → a ≡ b
head_eq h = cc

-- the round that has ended is the one that was foreseen
Delivered-eq :
    {method : Method} {me : ℕ} {env : Env} {d : Datagram} {t : Slave} {ack : Sent}
    {rest : List Sent} {e : ℕ} (c : System)
    → slave_step method me env (some d) c.slave ≡ done (t, ack ∷ rest)
    → (w : Delivered method me env d e c.master c.slave) → (w.final ≡ t) × (w.ack ≡ ack)
Delivered-eq c runs w =
    let same = done-injective (sym w.runs ∙ runs) in
    (ap (λ (r : Slave × List Sent). r.0) same, head_eq (ap (λ (r : Slave × List Sent). r.1) same))

module _ (method : Method) (me : ℕ) (udp : method ≢ tcp_method) (small : me < 2 ^ 15) where
  SystemStep-IsSystem : {c c' : System} → SystemStep method me c c' → IsSystem me c → IsSystem me c'
  SystemStep-IsSystem {c} (master_step st) v = master_step-IsSystem c v st
  SystemStep-IsSystem {c} (begin answers stack {t} serves runs) v =
      let within = within-IsSystem c v in
      begin-IsSystem c v (
        begin_step-Begun c.master c.determined answers stack c.sender t v.master v.bounded
          (omega (arith, v.behind, v.bounded)) serves runs)
  SystemStep-IsSystem {c} (transmit h) v = transmit-IsSystem c v h
  SystemStep-IsSystem {c} (deliver env i {d} {t} {ack} {rest} can at runs) v =
      let w = deliver-Delivered method me udp c v env d can (v.batches i d at) in
      let (final, sent) = Delivered-eq c runs w in
      subst
        (λ s. IsSystem me (record c { slave = s; acks = c.acks ++ (datagram_of_sent ack ∷ []) }))
        final
        (subst
          (λ a.
            IsSystem me (record c { slave = w.final; acks = c.acks ++ (datagram_of_sent a ∷ []) }))
          sent (Delivered-IsSystem c v w))
  SystemStep-IsSystem {c} (acknowledged i {d} at) v =
      acknowledged-IsSystem method c d small v (v.acks i d at)

  SystemReach-IsSystem :
      {c c' : System} → SystemReach method me c c' → IsSystem me c → IsSystem me c'
  SystemReach-IsSystem here v = v
  SystemReach-IsSystem (more r st) v = SystemStep-IsSystem st (SystemReach-IsSystem r v)

  -- A master and one slave, of either UDP method and an id below 2 ^ 15, from their start through any
  -- steps, of epochs below 2 ^ 15 and with files that can be read and written, whatever the network
  -- loses, doubles or reorders: the slave's queue, decoded batches with their epochs, is a prefix
  -- of the master's, as long as the slave's next epoch says, the slave is not ahead of the determined
  -- epochs, and the master's sending thread is not ahead of the slave.
  pub agreement :
      (raw_set : ℕ → Tx) (buf : Buf) (c : System)
      → SystemReach method me (system_startup raw_set buf) c
      → (rest : List (ℕ × List Tx)) × (map expected c.master.write_tx_buffer
          ≡ map queued c.slave.write_tx_buffer ++ rest)
        × (length c.slave.write_tx_buffer ≡ c.slave.next_batch_epoch_id)
        × (c.slave.next_batch_epoch_id ≤ c.determined)
        × (c.sender.next_epoch_id ≤ c.slave.next_batch_epoch_id)
  agreement raw_set buf c r =
      let v = SystemReach-IsSystem r (startup-IsSystem raw_set buf me) in
      let (rest, agreed) = v.agreement in (rest, agreed, v.counted, within-IsSystem c v, v.behind)

  -- A master and one slave, of either UDP method and an id below 2 ^ 15, from their start through any
  -- steps, of epochs below 2 ^ 15 and with files that can be read and written, and any datagram that was
  -- ever sent to the slave: if it arrives and the log can be written, the slave's round ends, with an ACK first among what it sends, and never fails the assertion that no
  -- batch is ahead of the next, and the slave does not go back.
  pub arrival-done :
      (raw_set : ℕ → Tx) (buf : Buf) (c : System) (env : Env) (i : ℕ) (d : Datagram)
      → SystemReach method me (system_startup raw_set buf) c
      → CanLog env
      → get_elem? c.batches i ≡ some d
      → (t : Slave) × (ack : Sent) × (others : List Sent) × (slave_step method me env
            (some d)
            c.slave
          ≡ done (t, ack ∷ others))
        × (c.slave.next_batch_epoch_id ≤ t.next_batch_epoch_id)
        × Acked me t.next_batch_epoch_id (datagram_of_sent ack)
  arrival-done raw_set buf c env i d r can at =
      let v = SystemReach-IsSystem r (startup-IsSystem raw_set buf me) in
      let w = deliver-Delivered method me udp c v env d can (v.batches i d at) in
      (w.final, w.ack, w.others, w.runs, w.later, w.acked.0)
