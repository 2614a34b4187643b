-- ===== src/Slave/Exchange.antt =====
-- The whole round of a slave with a message of another slave of its region.
use graduation_research_prog.Base.{
  ℕ, Option, ◌<◌, ◌≤◌, ◌^◌, ◌≡◌, refl, ◌∙◌, true, false, ltb, some, [], ◌∷◌, arith,
}
use graduation_research_prog.Outcome.{done}
use graduation_research_prog.Bytes.{Buf, get_char_from_bytes}
use graduation_research_prog.Batch.{Batch}
use graduation_research_prog.Batch.Laws.{IsBatch}
use graduation_research_prog.Network.{Datagram}
use graduation_research_prog.Network.Laws.{receive-same}
use graduation_research_prog.Config.{proposed_method}
use graduation_research_prog.Log.{batch_log_size}
use graduation_research_prog.Message.{
  check_msg, batch_message, ack_batch_message, request_batch_message, create_ack_batch_msg,
  create_request_batch_msg,
}
use graduation_research_prog.Message.BatchExtent.{SameIn}
use graduation_research_prog.Message.InFlight.{Carries, Recorded}
use graduation_research_prog.Message.Laws.{ack_and_request_roundtrip}
use graduation_research_prog.Slave.State.{Slave, Env}
use graduation_research_prog.Slave.Actions.{to_slave, on_ack_batch, on_request_batch}
use graduation_research_prog.Slave.Delivery.{CanLog, holding}
use graduation_research_prog.Slave.Peers.{on_ack_batch_lem, on_request_batch_lem}
use graduation_research_prog.Slave.{slave_step, proposed_step}

-- The type of a message is its first byte.
check_msg-same : (b c : Buf) (type : ℕ) → SameIn 0 5 b c → check_msg b type ≡ check_msg c type
unfolding check_msg get_char_from_bytes
check_msg-same b c type h = rw (h 0 (omega arith) (omega arith)) refl

-- The ACK and the request of a batch, as datagrams.
abbrev pub ack_datagram : ℕ → ℕ → Buf → Datagram
ack_datagram q epoch buffer = record {
  bytes = (create_ack_batch_msg q epoch buffer).0;
  len = (create_ack_batch_msg q epoch buffer).1;
}

abbrev pub request_datagram : ℕ → ℕ → Buf → Datagram
request_datagram q epoch buffer = record {
  bytes = (create_request_batch_msg q epoch buffer).0;
  len = (create_request_batch_msg q epoch buffer).1;
}

pub ack_whole :
    (s : Slave) (q epoch : ℕ) (buffer : Buf)
    → SameIn 0 5
        (holding s (some (ack_datagram q epoch buffer))).recv_msg
        (create_ack_batch_msg q epoch buffer).0
unfolding create_ack_batch_msg
ack_whole s q epoch buffer i lo hi =
    receive-same s.recv_msg batch_log_size (ack_datagram q epoch buffer) i (omega arith)
      (omega arith)

pub request_whole :
    (s : Slave) (q epoch : ℕ) (buffer : Buf)
    → SameIn 0 5
        (holding s (some (request_datagram q epoch buffer))).recv_msg
        (create_request_batch_msg q epoch buffer).0
unfolding create_request_batch_msg
request_whole s q epoch buffer i lo hi =
    receive-same s.recv_msg batch_log_size (request_datagram q epoch buffer) i (omega arith)
      (omega arith)

-- What a round changes that neither queues nor logs: the buffers, and what is sent.
pub record Unmoved (s t : Slave) : Type 0 where
  pub same_next : t.next_batch_epoch_id ≡ s.next_batch_epoch_id
  pub same_queue : t.write_tx_buffer ≡ s.write_tx_buffer
  pub same_log : t.batch_log ≡ s.batch_log

-- the proposed method looks at both kinds of message
pub proposed-ack :
    (me : ℕ) (env : Env) (event : Option Datagram) (s : Slave)
    → check_msg (holding s event).recv_msg ack_batch_message ≡ true
    → check_msg (holding s event).recv_msg batch_message ≡ false
    → slave_step proposed_method me env event s ≡ on_ack_batch me (holding s event)
unfolding slave_step proposed_step
proposed-ack me env event s typed other = rw (other, typed) refl

pub proposed-request :
    (me : ℕ) (env : Env) (event : Option Datagram) (s : Slave)
    → check_msg (holding s event).recv_msg request_batch_message ≡ true
    → check_msg (holding s event).recv_msg ack_batch_message ≡ false
    → check_msg (holding s event).recv_msg batch_message ≡ false
    → slave_step proposed_method me env event s ≡ on_request_batch env (holding s event)
unfolding slave_step proposed_step
proposed-request me env event s typed ack other = rw (other, ack, typed) refl

module _ (me : ℕ) (env : Env) (s : Slave) (q epoch : ℕ) (buffer : Buf) (hq : q < 2 ^ 15)
    (he : epoch < 2 ^ 15) where
  abbrev pub ack_held : Slave
  ack_held = holding s (some (ack_datagram q epoch buffer))

  abbrev pub request_held : Slave
  request_held = holding s (some (request_datagram q epoch buffer))

  pub ack_typed :
      (check_msg ack_held.recv_msg ack_batch_message ≡ true)
      × (check_msg ack_held.recv_msg batch_message ≡ false)
  ack_typed =
      let (_, _, typed, _, _, other, _, _) = ack_and_request_roundtrip q epoch buffer hq he in
      let same : (t : ℕ)
          → check_msg ack_held.recv_msg t ≡ check_msg (create_ack_batch_msg q epoch buffer).0 t =
        λ t.
          check_msg-same ack_held.recv_msg (create_ack_batch_msg q epoch buffer).0 t
            (ack_whole s q epoch buffer) in
      (same ack_batch_message ∙ typed, same batch_message ∙ other)

  pub request_typed :
      (check_msg request_held.recv_msg request_batch_message ≡ true)
      × (check_msg request_held.recv_msg ack_batch_message ≡ false)
      × (check_msg request_held.recv_msg batch_message ≡ false)
  request_typed =
      let (_, _, _, ack, typed, _, other, _) = ack_and_request_roundtrip q epoch buffer hq he in
      let same : (t : ℕ)
          → check_msg request_held.recv_msg t
            ≡ check_msg (create_request_batch_msg q epoch buffer).0 t =
        λ t.
          check_msg-same request_held.recv_msg (create_request_batch_msg q epoch buffer).0 t
            (request_whole s q epoch buffer) in
      (same request_batch_message ∙ typed, same ack_batch_message ∙ ack, same batch_message ∙ other)

  -- In the proposed method, a slave that is not ahead of the ACK asks for its next batch.
  pub step-asks :
      s.next_batch_epoch_id ≤ epoch
      → (t : Slave) × (slave_step proposed_method me env (some (ack_datagram q epoch buffer)) s
          ≡ done (
            t,
            to_slave q
                  (create_request_batch_msg me s.next_batch_epoch_id s.send_msg).0
                  (create_request_batch_msg me s.next_batch_epoch_id s.send_msg).1
                ∷ [],
          ))
        × Unmoved s t
  step-asks reached =
      let (typed, other) = ack_typed in
      let ahead : ltb epoch s.next_batch_epoch_id ≡ false = ground arith in
      (
        record ack_held {
          send_msg = (create_request_batch_msg me s.next_batch_epoch_id s.send_msg).0;
        },
        proposed-ack me env (some (ack_datagram q epoch buffer)) s typed other
            ∙ on_ack_batch_lem me q epoch buffer ack_held hq he (omega arith)
                (ack_whole s q epoch buffer)
            ∙ rw ahead refl,
        record { same_next = refl; same_queue = refl; same_log = refl },
      )

  -- And a slave that is asked for a batch of its log sends it.
  pub step-serves :
      (b : Batch)
      → CanLog env
      → IsBatch b
      → Recorded s.batch_log epoch b
      → (t : Slave) × (out : Buf) × (slave_step proposed_method me env
            (some (request_datagram q epoch buffer))
            s
          ≡ done (t, to_slave q out batch_log_size ∷ []))
        × Unmoved s t
        × Carries (record { bytes = out; len = batch_log_size }) b
  step-serves b can size logged =
      let (typed, ack, other) = request_typed in
      let (out, runs, carries) =
        on_request_batch_lem me q epoch buffer env request_held b hq he
          (request_whole s q epoch buffer) can.opened can.serves size logged in
      (
        record request_held { send_msg = out },
        out,
        proposed-request me env (some (request_datagram q epoch buffer)) s typed ack other ∙ runs,
        record { same_next = refl; same_queue = refl; same_log = refl },
        carries,
      )
