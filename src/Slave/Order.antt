-- ===== src/Slave/Order.antt =====
-- A slave queues the batches of epochs 0, 1, 2, … in order, each once, whatever arrives.
use mathlib.Core.List.{map-append}
use graduation_research_prog.Base.{
  ℕ, suc, ◌<◌, ◌≤◌, ◌^◌, ◌≡◌, refl, ap₂, inl, inr, ◌∙◌, ◌==◌, ==→eq, Bool-cases, Option, List, [],
  ◌∷◌, ◌++◌, map, upto, arith,
}
use graduation_research_prog.Words.{int_inc, int_lt, int_of_short, short_of_int}
use graduation_research_prog.Outcome.{
  abort, Ensures, Ensures-and_then, Ensures-if, Ensures-bind, Ensures-mono,
}
use graduation_research_prog.Bytes.{Buf, get_short_int_from_bytes}
use graduation_research_prog.Bytes.Access.{IsBytes, get_short_bound}
use graduation_research_prog.Batch.{Batch, batch_create}
use graduation_research_prog.Network.{Datagram, Sent, udp_sv_receive_msg}
use graduation_research_prog.Network.Laws.{IsDatagram, receive-IsBytes}
use graduation_research_prog.Config.{Method, proposed_method, conventional_method, tcp_method}
use graduation_research_prog.Log.{File, append_log, read_log, batch_log_size}
use graduation_research_prog.Message.{
  check_msg, batch_message, ack_batch_message, request_batch_message, get_info_from_ack_batch_msg,
  get_info_from_request_batch_message,
}
use graduation_research_prog.Message.BatchCodec.{
  get_epoch_id_from_batch_meg, get_info_from_batch_msg,
}
use graduation_research_prog.Message.BatchBlocks.{epoch_id-get_info}
use graduation_research_prog.Slave.State.{Slave, Env}
use graduation_research_prog.Slave.Actions.{
  Round, accepted, accept_batch, acknowledge, on_batch, on_ack_batch, on_request_batch,
}
use graduation_research_prog.Slave.{proposed_step, conventional_step, slave_step, run, startup}

-- The queue so far, by its epochs: from 0 to the one before the next, none skipped or repeated.
pub record InOrder (s : Slave) : Type 0 where
  pub queued : map (λ (b : Batch). b.epoch_id) s.write_tx_buffer ≡ upto s.next_batch_epoch_id
  pub bounded : s.next_batch_epoch_id ≤ 2 ^ 15
  pub bytes : IsBytes s.recv_msg

-- the epoch of a message that fits the next one is not negative
epoch-fits :
    (w next : ℕ) → w < 2 ^ 16 → next ≤ 2 ^ 15 → int_of_short w ≡ next → (w ≡ next) × (next < 2 ^ 15)
epoch-fits w next h b e = ground arith

-- what a round leaves, if it ends
abbrev Keeps : Round → Type 0
Keeps r = Ensures (λ (t, _). InOrder t) r

-- The accepted batch is the next in order.
accepted-InOrder :
    (me : ℕ) (env : Env) (s : Slave) (f : File)
    → InOrder s
    → get_epoch_id_from_batch_meg s.recv_msg ≡ s.next_batch_epoch_id
    → InOrder (accepted me env s (get_epoch_id_from_batch_meg s.recv_msg) f)
unfolding accepted get_epoch_id_from_batch_meg
accepted-InOrder me env s f v e =
    let w = get_short_int_from_bytes s.recv_msg 1 in
    let epoch = int_of_short w in
    let b =
      get_info_from_batch_msg env.raw_tx s.recv_msg
        (batch_create env.raw_set (short_of_int epoch)) in
    let (same, small) =
      epoch-fits w s.next_batch_epoch_id (get_short_bound s.recv_msg 1 v.bytes) v.bounded e in
    let inc : int_inc s.next_batch_epoch_id ≡ suc s.next_batch_epoch_id = omega arith in
    record {
      queued = rw inc (
          map-append (λ (c : Batch). c.epoch_id) s.write_tx_buffer (b ∷ [])
          ∙ ap₂ (λ (xs : List ℕ) (i : ℕ). xs ++ (i ∷ [])) v.queued
              (epoch_id-get_info env.raw_tx s.recv_msg
                  (batch_create env.raw_set (short_of_int epoch))
                ∙ same));
      bounded = omega arith;
      bytes = v.bytes;
    }

-- Filling the buffer for sending changes nothing that counts.
sending : {s : Slave} (msg : Buf) → InOrder s → InOrder (record s { send_msg = msg })
sending msg v = record { queued = v.queued; bounded = v.bounded; bytes = v.bytes }

module _ (peers : Buf → ℕ → List Sent) (me : ℕ) (env : Env) where
  accept_batch-InOrder :
      (s : Slave) (len : ℕ)
      → InOrder s
      → get_epoch_id_from_batch_meg s.recv_msg ≡ s.next_batch_epoch_id
      → Keeps (accept_batch peers me env s len (get_epoch_id_from_batch_meg s.recv_msg))
  unfolding accept_batch
  accept_batch-InOrder s len v e =
      Ensures-and_then (λ (t, _). InOrder t)
        (append_log env.opened env.answers env.stack s.batch_log s.recv_msg len
          (get_epoch_id_from_batch_meg s.recv_msg))
        _ λ (f, over). accepted-InOrder me env s f v e

  on_batch-InOrder : (s : Slave) (len : ℕ) → InOrder s → Keeps (on_batch peers me env s len)
  unfolding on_batch acknowledge
  on_batch-InOrder s len v =
      let epoch = get_epoch_id_from_batch_meg s.recv_msg in
      let next = s.next_batch_epoch_id in
      Ensures-if (λ (t, _). InOrder t) (epoch == next) _ _
        (λ e. accept_batch-InOrder s len v (==→eq epoch next e))
        (λ ne.
          Ensures-if (λ (t, _). InOrder t) (int_lt epoch next) _ _ (λ lt. sending _ v)
            (λ ge.
              Ensures-if (λ (t, _). InOrder t) (int_lt next epoch) abort _ (λ gt. tt) (λ le. v)))

-- reading a peer's ACK or request leaves the queue alone
on_ack_batch-InOrder : (me : ℕ) (s : Slave) → InOrder s → Keeps (on_ack_batch me s)
unfolding on_ack_batch
on_ack_batch-InOrder me s v =
    elim (Bool-cases (int_lt (get_info_from_ack_batch_msg s.recv_msg).1 s.next_batch_epoch_id)) [
      | inl e ↦ rw e v
      | inr e ↦ rw e (sending _ v)
    ]

on_request_batch-InOrder : (env : Env) (s : Slave) → InOrder s → Keeps (on_request_batch env s)
unfolding on_request_batch
on_request_batch-InOrder env s v =
    Ensures-and_then (λ (t, _). InOrder t)
      (read_log env.opened env.answers env.stack s.batch_log s.send_msg
        (get_info_from_request_batch_message s.recv_msg).1)
      _ λ r. sending r.0 v

receiving :
    {s : Slave} (event : Option Datagram)
    → InOrder s
    → IsDatagram event
    → InOrder (record s { recv_msg = (udp_sv_receive_msg s.recv_msg batch_log_size event).0 })
receiving {s} event v w = record {
  queued = v.queued;
  bounded = v.bounded;
  bytes = receive-IsBytes s.recv_msg batch_log_size event v.bytes w;
}

module _ (me : ℕ) (env : Env) (event : Option Datagram) (s : Slave) (v : InOrder s)
    (w : IsDatagram event) where
  abbrev got : Buf
  got = (udp_sv_receive_msg s.recv_msg batch_log_size event).0

  abbrev got_len : ℕ
  got_len = (udp_sv_receive_msg s.recv_msg batch_log_size event).1

  proposed_step-InOrder : Keeps (proposed_step me env event s)
  unfolding proposed_step
  proposed_step-InOrder = elim (Bool-cases (check_msg got batch_message)) [
    | inl b ↦ rw b (on_batch-InOrder _ me env _ got_len (receiving event v w))
    | inr b ↦ rw b (elim (Bool-cases (check_msg got ack_batch_message)) [
      | inl a ↦ rw a (on_ack_batch-InOrder me _ (receiving event v w))
      | inr a ↦ rw a (elim (Bool-cases (check_msg got request_batch_message)) [
        | inl r ↦ rw r (on_request_batch-InOrder env _ (receiving event v w))
        | inr r ↦ rw r (receiving event v w)
      ])
    ])
  ]

  conventional_step-InOrder : Keeps (conventional_step me env event s)
  unfolding conventional_step
  conventional_step-InOrder = elim (Bool-cases (check_msg got batch_message)) [
    | inl b ↦ rw b (on_batch-InOrder _ me env _ got_len (receiving event v w))
    | inr b ↦ rw b (receiving event v w)
  ]

-- One round of either method keeps the queue in order, whatever datagram arrives.
pub slave_step-InOrder :
    (method : Method) (me : ℕ) (env : Env) (event : Option Datagram) (s : Slave)
    → InOrder s
    → IsDatagram event
    → Keeps (slave_step method me env event s)
unfolding slave_step
slave_step-InOrder proposed_method me env event s v w = proposed_step-InOrder me env event s v w
slave_step-InOrder conventional_method me env event s v w =
    conventional_step-InOrder me env event s v w
slave_step-InOrder tcp_method me env event s v w = v

-- every datagram of a row of rounds is one of bytes
abbrev pub AllDatagrams : List (Env × Option Datagram) → Type 0
AllDatagrams [] = Unit
AllDatagrams ((_, event) ∷ events) = IsDatagram event × AllDatagrams events

run-InOrder :
    (method : Method) (me : ℕ) (events : List (Env × Option Datagram)) (s : Slave)
    → InOrder s
    → AllDatagrams events
    → Ensures InOrder (run method me events s)
unfolding run
run-InOrder method me [] s v w = v
run-InOrder method me ((env, event) ∷ events) s v w =
    Ensures-bind (λ (t, _). InOrder t) InOrder (slave_step method me env event s) _
      (slave_step-InOrder method me env event s v w.0)
      λ (t, _) u. run-InOrder method me events t u w.1

-- From its start, through any rounds with any datagrams, a slave has queued exactly the batches of
-- epochs 0, 1, 2, … up to the one before `next_batch_epoch_id`, in that order and each once, and
-- that number is at most 2 ^ 15, unless the process has ended.
pub startup-run-InOrder :
    (method : Method) (me : ℕ) (events : List (Env × Option Datagram)) (recv_msg send_msg : Buf)
    → IsBytes recv_msg
    → AllDatagrams events
    → Ensures
        (λ s.
          (map (λ (b : Batch). b.epoch_id) s.write_tx_buffer ≡ upto s.next_batch_epoch_id)
          × (s.next_batch_epoch_id ≤ 2 ^ 15))
        (run method me events (startup recv_msg send_msg))
unfolding startup
startup-run-InOrder method me events recv_msg send_msg h w =
    Ensures-mono (run method me events (startup recv_msg send_msg))
      (run-InOrder method me events (startup recv_msg send_msg)
        (record { queued = refl; bounded = omega arith; bytes = h }) w)
      λ s v. (v.queued, v.bounded)
