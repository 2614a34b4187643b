-- ===== src/System/Parts.antt =====
-- What a step of one part of the system does, in the terms of the whole.
use mathlib.Core.List.{append-nil}
use graduation_research_prog.Base.{
  ℕ, ◌<◌, ◌≤◌, ◌^◌, ◌≡◌, sym, ◌∙◌, ap, subst, inl, inr, Bool-cases, true, false, not, ◌&&◌, Option,
  some, List, [], ◌∷◌, ◌++◌, get_elem?, arith,
}
use graduation_research_prog.Words.{int_le}
use graduation_research_prog.Outcome.{done, done-injective}
use graduation_research_prog.Bytes.{Buf}
use graduation_research_prog.Batch.{Batch}
use graduation_research_prog.Batch.Laws.{IsSound}
use graduation_research_prog.Network.{Datagram, Sent}
use graduation_research_prog.Config.{Method}
use graduation_research_prog.Log.{File, Answers, batch_log_size}
use graduation_research_prog.Log.Loops.{Serves}
use graduation_research_prog.Message.InFlight.{Carries}
use graduation_research_prog.Master.{Master, sequencer_add_write_tx_to_batch, swap_batch}
use graduation_research_prog.Master.Epochs.{IsMaster, Step, add, swap, confirm, confirm_batch_lem}
use graduation_research_prog.Master.Sender.{Sender, begin_step, transmit_step, ack_step}
use graduation_research_prog.Master.Serving.{loaded, begin_step-Carries}

-- The queue of the master grows at its end alone.
pub record Grown (m m' : Master) (d d' : ℕ) : Type 0 where
  pub more : List Batch
  pub queue : m'.write_tx_buffer ≡ m.write_tx_buffer ++ more
  pub bounded : d ≤ 2 ^ 15 → d' ≤ 2 ^ 15
  pub later : d ≤ d'

queue-add :
    (m : Master) (tx : _)
    → (sequencer_add_write_tx_to_batch m tx).0.write_tx_buffer ≡ m.write_tx_buffer
unfolding sequencer_add_write_tx_to_batch
queue-add m tx = ground arith

pub Step-Grown : {m m' : Master} {d d' : ℕ} → Step m d m' d' → IsMaster m d → Grown m m' d d'
unfolding swap_batch
Step-Grown {m} {d} (add tx t) v = record {
  more = [];
  queue = queue-add m tx ∙ sym (append-nil m.write_tx_buffer);
  bounded = λ h. h;
  later = omega arith;
}
Step-Grown {m} {d} (swap env r small) v = record {
  more = [];
  queue = sym (append-nil m.write_tx_buffer);
  bounded = λ h. h;
  later = omega arith;
}
Step-Grown {m} {d} (confirm env b m' r small o s runs) v =
    let (f, done_f, w) = confirm_batch_lem m d env b v r small o s in
    record {
      more = b ∷ [];
      queue = ap (λ (x : Master). x.write_tx_buffer) (done-injective (sym runs ∙ done_f));
      bounded = λ h. omega arith;
      later = omega arith;
    }

begin_step-idle :
    (answers : Answers) (stack : Buf) (determined_epoch_id : ℕ) (log : Option File) (s : Sender)
    → (not s.sending && int_le s.next_epoch_id determined_epoch_id) ≡ false
    → begin_step true answers stack determined_epoch_id log s ≡ done s
unfolding begin_step
begin_step-idle answers stack determined_epoch_id log s test = rw test

-- A round of the outer loop does nothing, or loads the batch of the next epoch.
pub data Begun (m : Master) (s : Sender) : Sender → Type 0 where
  idle : Begun m s s
  loads :
      (b : Batch) (out : Buf)
      → get_elem? m.write_tx_buffer s.next_epoch_id ≡ some b
      → b.epoch_id ≡ s.next_epoch_id
      → IsSound b
      → Carries (record { bytes = out; len = batch_log_size }) b
      → Begun m s (loaded s out)

pub begin_step-Begun :
    (m : Master) (d : ℕ) (answers : Answers) (stack : Buf) (s t : Sender)
    → IsMaster m d
    → d ≤ 2 ^ 15
    → s.next_epoch_id ≤ 2 ^ 15
    → Serves batch_log_size 0 answers
    → begin_step true answers stack m.determined_epoch_id m.batch_log s ≡ done t
    → Begun m s t
begin_step-Begun m d answers stack s t v small next_small serves runs =
    elim (Bool-cases (not s.sending && int_le s.next_epoch_id m.determined_epoch_id)) [
      | inr test ↦
          subst (Begun m s)
            (done-injective
              (sym (begin_step-idle answers stack m.determined_epoch_id m.batch_log s test) ∙ runs))
            idle
      | inl test ↦
          let (b, out, at, epoch, sound, steps, _, carries) =
            begin_step-Carries m d 0 answers stack s v small (quiet test) (due test) serves in
          subst (Begun m s) (done-injective (sym steps ∙ runs)) (loads b out at epoch sound carries)
    ]
  where
    quiet :
        (not s.sending && int_le s.next_epoch_id m.determined_epoch_id) ≡ true → s.sending ≡ false
    quiet test = ground arith

    due :
        (not s.sending && int_le s.next_epoch_id m.determined_epoch_id) ≡ true → s.next_epoch_id < d
    due test = ground (arith, v.determined)

-- What is transmitted is what was loaded.
pub transmit_step-sending :
    (r : ℕ) (s : Sender) (sent : Sent)
    → transmit_step r s ≡ some sent
    → (s.sending ≡ true) × (sent.msg ≡ s.send_msg) × (sent.len ≡ s.send_msg_len)
unfolding transmit_step
transmit_step-sending r s sent h = ground arith

-- A receive touches neither what is being sent nor, without a batch to send, anything.
pub ack_step-keeps :
    (method : Method) (d : Datagram) (s : Sender)
    → let t = ack_step method (some d) s in
      (t.send_epoch_id ≡ s.send_epoch_id)
      × (t.send_msg ≡ s.send_msg)
      × (t.send_msg_len ≡ s.send_msg_len)
unfolding ack_step
ack_step-keeps method d s = ground arith

pub ack_step-idle :
    (method : Method) (d : Datagram) (s : Sender)
    → s.sending ≡ false
    → ack_step method (some d) s ≡ s
unfolding ack_step
ack_step-idle method d s h = simp h
