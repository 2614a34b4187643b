-- ===== src/Master/Serving.antt =====
-- What the master's sending thread sends: the batches that are determined.
use graduation_research_prog.Base.{
  ℕ, ◌<◌, ◌≤◌, ◌^◌, ◌≡◌, refl, sym, ◌∙◌, ap, true, false, not, ◌&&◌, Option, some, upto, get_elem?,
  get_elem?-below, get_elem?-map, get_elem?-upto, arith,
}
use graduation_research_prog.Words.{int_le}
use graduation_research_prog.Outcome.{done}
use graduation_research_prog.Bytes.{Buf}
use graduation_research_prog.Batch.{Batch}
use graduation_research_prog.Batch.Laws.{IsSound}
use graduation_research_prog.Config.{get_port_slave_sequencer, get_sequencer_ipaddr}
use graduation_research_prog.Log.{File, Answers, batch_log_size, read_log}
use graduation_research_prog.Log.Loops.{Serves}
use graduation_research_prog.Message.BatchCodec.{create_batch_msg}
use graduation_research_prog.Message.BatchExtent.{create_batch_msg_size}
use graduation_research_prog.Message.InFlight.{Carries, Recorded, read_log-Carries}
use graduation_research_prog.Master.{Master}
use graduation_research_prog.Master.Epochs.{IsMaster, Logged, length-queue}
use graduation_research_prog.Master.Sender.{Sender, begin_step, transmit_step}

-- the batch of a determined epoch
pub queued-IsMaster :
    (m : Master) (d e : ℕ)
    → IsMaster m d
    → e < d
    → (b : Batch) × (get_elem? m.write_tx_buffer e ≡ some b)
      × (b.epoch_id ≡ e)
      × IsSound b
      × Logged m e b
queued-IsMaster m d e v h =
    let (b, at) = get_elem?-below m.write_tx_buffer e (omega (arith, length-queue m d v)) in
    let (sound, logged) = v.logged e b at in
    let epoch : get_elem? (upto d) e ≡ some b.epoch_id =
      ap (λ xs. get_elem? xs e) (sym v.queued)
      ∙ get_elem?-map (λ (c : Batch). c.epoch_id) m.write_tx_buffer e at in
    (b, at, get_elem?-upto d e epoch, sound, logged)

Logged-Recorded :
    (m : Master) (e : ℕ) (b : Batch) → IsSound b → Logged m e b → Recorded m.batch_log e b
Logged-Recorded m e b v (msg, held) =
    let (size, bound, behind) = create_batch_msg_size b msg v.size in
    record {
      buffer = msg;
      len = (create_batch_msg b msg).1;
      message = (create_batch_msg b msg).0;
      len_fits = omega (arith, bound);
      held = held;
      whole = omega arith;
      same = λ i lo hi. refl;
    }

-- the thread with a batch to send
abbrev pub loaded : Sender → Buf → Sender
loaded s msg = record s {
  send_epoch_id = s.next_epoch_id;
  send_msg = msg;
  send_msg_len = batch_log_size;
  sending = true;
}

begin_step-loaded :
    (answers : Answers) (stack : Buf) (determined_epoch_id : ℕ) (log : Option File) (s : Sender)
    (out : Buf) (over : ℕ)
    → (not s.sending && int_le s.next_epoch_id determined_epoch_id) ≡ true
    → read_log true answers stack log s.send_msg s.next_epoch_id ≡ done (out, batch_log_size, over)
    → begin_step true answers stack determined_epoch_id log s ≡ done (loaded s out)
unfolding begin_step
begin_step-loaded answers stack determined_epoch_id log s out over test runs = rw (test, runs)

-- A valid master with `d` epochs determined, at most 2 ^ 15, and a sending thread that is idle and
-- whose next epoch is determined: if `open` succeeds and the calls of `read` serve, the thread reads the
-- log and goes on to send, to the address and the port of its slave, one datagram, which carries the
-- very batch of that epoch that is in the scheduler's queue.
pub begin_step-Carries :
    (m : Master) (d r : ℕ) (answers : Answers) (stack : Buf) (s : Sender)
    → IsMaster m d
    → d ≤ 2 ^ 15
    → s.sending ≡ false
    → s.next_epoch_id < d
    → Serves batch_log_size 0 answers
    → (b : Batch) × (out : Buf) × (get_elem? m.write_tx_buffer s.next_epoch_id ≡ some b)
      × (b.epoch_id ≡ s.next_epoch_id)
      × IsSound b
      × (begin_step true answers stack m.determined_epoch_id m.batch_log s ≡ done (loaded s out))
      × (transmit_step r (loaded s out)
          ≡ some (record {
            ipaddr = get_sequencer_ipaddr r;
            port = get_port_slave_sequencer r;
            msg = out;
            len = batch_log_size;
          }))
      × Carries (record { bytes = out; len = batch_log_size }) b
unfolding transmit_step
begin_step-Carries m d r answers stack s v small idle due serves =
    let (b, at, epoch, sound, logged) = queued-IsMaster m d s.next_epoch_id v due in
    let (out, over, runs, carries) =
      read_log-Carries answers stack m.batch_log s.send_msg s.next_epoch_id b (omega arith) serves
        sound.size (Logged-Recorded m s.next_epoch_id b sound logged) in
    let test : (not s.sending && int_le s.next_epoch_id m.determined_epoch_id) ≡ true =
      ground (arith, v.determined) in
    (
      b,
      out,
      at,
      epoch,
      sound,
      begin_step-loaded answers stack m.determined_epoch_id m.batch_log s out over test runs,
      refl,
      carries,
    )
