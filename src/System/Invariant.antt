-- ===== src/System/Invariant.antt =====
-- What holds of the master, the slave and the datagrams in flight between them.
use graduation_research_prog.Base.{
  ℕ, ◌<◌, ◌≤◌, ◌^◌, ◌≡◌, ap, subst, inl, inr, some, List, [], ◌∷◌, ◌++◌, map, length, length-map,
  length-append, get_elem?, get_elem?-append, get_elem?-snoc, arith, true,
}
use graduation_research_prog.Bytes.{Buf}
use graduation_research_prog.Tx.{Tx}
use graduation_research_prog.Batch.{Batch}
use graduation_research_prog.Batch.Laws.{IsSound}
use graduation_research_prog.Network.{Datagram}
use graduation_research_prog.Message.{create_ack_batch_msg}
use graduation_research_prog.Message.InFlight.{Carries}
use graduation_research_prog.Master.{Master}
use graduation_research_prog.Master.Epochs.{IsMaster, length-queue}
use graduation_research_prog.Master.Sender.{Sender}
use graduation_research_prog.Slave.State.{Slave}
use graduation_research_prog.Slave.Delivery.{queued, expected}
use graduation_research_prog.System.{System}

-- A datagram to the slave carries a determined batch that the slave has, or that is its next one.
pub record Owed (queue : List Batch) (due : ℕ) (d : Datagram) : Type 0 where
  pub epoch : ℕ
  pub batch : Batch
  pub at : get_elem? queue epoch ≡ some batch
  pub named : batch.epoch_id ≡ epoch
  pub sound : IsSound batch
  pub carries : Carries d batch
  pub reached : epoch ≤ due

-- A datagram to the master acknowledges an epoch that the slave has.
pub record Acked (me due : ℕ) (d : Datagram) : Type 0 where
  pub epoch : ℕ
  pub buffer : Buf
  pub made : d ≡ record {
    bytes = (create_ack_batch_msg me epoch buffer).0;
    len = (create_ack_batch_msg me epoch buffer).1;
  }
  pub past : epoch < due

-- each datagram of the list is one of these
abbrev pub Each : (Datagram → Type 0) → List Datagram → Type 0
Each P net = (i : ℕ) (d : Datagram) → get_elem? net i ≡ some d → P d

pub Each-snoc :
    {P : Datagram → Type 0} (net : List Datagram) (new : Datagram)
    → Each P net
    → P new
    → Each P (net ++ (new ∷ []))
Each-snoc {P} net new all p i d h = elim (get_elem?-snoc net new d i h) [
  | inl old ↦ all i d old
  | inr (_, same) ↦ subst P same p
]

-- the batch that is being sent
abbrev pub loaded_datagram : Sender → Datagram
loaded_datagram s = record { bytes = s.send_msg; len = s.send_msg_len }

-- the batch that is being sent is owed, and is the one of the epoch that the thread says
abbrev pub Loaded : List Batch → ℕ → Sender → Type 0
Loaded queue due s = (o : Owed queue due (loaded_datagram s)) × (o.epoch ≡ s.send_epoch_id)

-- what the slave has queued is what the master has determined, as far as it has come
abbrev pub Agrees : Master → Slave → Type 0
Agrees m s =
    (rest : List (ℕ × List Tx)) × (map expected m.write_tx_buffer
      ≡ map queued s.write_tx_buffer ++ rest)

pub record IsSystem (me : ℕ) (c : System) : Type 0 where
  pub master : IsMaster c.master c.determined
  pub bounded : c.determined ≤ 2 ^ 15
  pub current : c.sender.sending ≡ true → c.sender.send_epoch_id ≡ c.sender.next_epoch_id
  pub loaded :
      c.sender.sending ≡ true → Loaded c.master.write_tx_buffer c.slave.next_batch_epoch_id c.sender
  pub behind : c.sender.next_epoch_id ≤ c.slave.next_batch_epoch_id
  pub batches : Each (Owed c.master.write_tx_buffer c.slave.next_batch_epoch_id) c.batches
  pub acks : Each (Acked me c.slave.next_batch_epoch_id) c.acks
  pub counted : length c.slave.write_tx_buffer ≡ c.slave.next_batch_epoch_id
  pub agreement : Agrees c.master c.slave

pub Owed-mono :
    {queue : List Batch} {due later : ℕ} {d : Datagram} (more : List Batch)
    → due ≤ later
    → Owed queue due d
    → Owed (queue ++ more) later d
Owed-mono {queue} more h o = record {
  epoch = o.epoch;
  batch = o.batch;
  at = get_elem?-append queue more o.epoch o.at;
  named = o.named;
  sound = o.sound;
  carries = o.carries;
  reached = omega (arith, o.reached);
}

pub Loaded-mono :
    {queue : List Batch} {due later : ℕ} (s : Sender) (more : List Batch)
    → due ≤ later
    → Loaded queue due s
    → Loaded (queue ++ more) later s
unfolding Owed-mono
Loaded-mono s more h (o, same) = (Owed-mono more h o, same)

pub Acked-mono : {me due later : ℕ} {d : Datagram} → due ≤ later → Acked me due d → Acked me later d
Acked-mono h a = record {
  epoch = a.epoch;
  buffer = a.buffer;
  made = a.made;
  past = omega (arith, a.past);
}

-- The slave is not ahead of the master.
pub within-IsSystem :
    {me : ℕ} (c : System) → IsSystem me c → c.slave.next_batch_epoch_id ≤ c.determined
within-IsSystem c v =
    let (rest, e) = v.agreement in
    omega (
      arith,
      v.counted,
      length-queue c.master c.determined v.master,
      length-map expected c.master.write_tx_buffer,
      length-map queued c.slave.write_tx_buffer,
      length-append (map queued c.slave.write_tx_buffer) rest,
      ap length e,
    )
