-- ===== src/Slave/Peers.antt =====
-- How a slave gets a batch that it misses from another slave of its region.
use graduation_research_prog.Base.{
  ℕ, ◌<◌, ◌≤◌, ◌^◌, ◌≡◌, refl, ◌∙◌, true, ltb, if◌then◌else◌, [], ◌∷◌, arith,
}
use graduation_research_prog.Words.{int_lt}
use graduation_research_prog.Outcome.{done}
use graduation_research_prog.Bytes.{Buf, get_short_int_from_bytes}
use graduation_research_prog.Batch.{Batch}
use graduation_research_prog.Batch.Laws.{IsBatch}
use graduation_research_prog.Log.{batch_log_size}
use graduation_research_prog.Log.Loops.{Serves}
use graduation_research_prog.Message.{
  create_ack_batch_msg, get_info_from_ack_batch_msg, create_request_batch_msg,
  get_info_from_request_batch_message,
}
use graduation_research_prog.Message.BatchExtent.{SameIn}
use graduation_research_prog.Message.InFlight.{Carries, Recorded, read_log-Carries}
use graduation_research_prog.Message.Laws.{ack_and_request_roundtrip}
use graduation_research_prog.Slave.State.{Slave, Env}
use graduation_research_prog.Slave.Actions.{to_slave, on_ack_batch, on_request_batch}

-- An ACK and a request are read from their five bytes alone.
ack-same :
    (b c : Buf) → SameIn 0 5 b c → get_info_from_ack_batch_msg b ≡ get_info_from_ack_batch_msg c
unfolding get_info_from_ack_batch_msg get_short_int_from_bytes
ack-same b c h = ground (arith, h 1, h 2, h 3, h 4)

request-same :
    (b c : Buf)
    → SameIn 0 5 b c
    → get_info_from_request_batch_message b ≡ get_info_from_request_batch_message c
unfolding get_info_from_request_batch_message get_short_int_from_bytes
request-same b c h = ground (arith, h 1, h 2, h 3, h 4)

-- The ACK of slave `q` for an epoch, both below 2 ^ 15, received by a slave whose next epoch is at most 2 ^ 15: if `q` is
-- ahead, or at the same epoch, it is asked for the next batch, at its port in the region, and otherwise
-- nothing happens.
pub on_ack_batch_lem :
    (me q epoch : ℕ) (buf : Buf) (s : Slave)
    → q < 2 ^ 15
    → epoch < 2 ^ 15
    → s.next_batch_epoch_id ≤ 2 ^ 15
    → SameIn 0 5 s.recv_msg (create_ack_batch_msg q epoch buf).0
    → let request = create_request_batch_msg me s.next_batch_epoch_id s.send_msg in
      on_ack_batch me s ≡ (
        if ltb epoch s.next_batch_epoch_id
        then done (s, [])
        else done (record s { send_msg = request.0 }, to_slave q request.0 request.1 ∷ []))
unfolding on_ack_batch
on_ack_batch_lem me q epoch buf s hq he small same =
    let ack = (ack_and_request_roundtrip q epoch buf hq he).0 in
    let test : int_lt epoch s.next_batch_epoch_id ≡ ltb epoch s.next_batch_epoch_id =
      ground arith in
    rw (ack-same s.recv_msg (create_ack_batch_msg q epoch buf).0 same ∙ ack, test) refl

-- The request of slave `q` for an epoch, both below 2 ^ 15, received by a slave whose log has the record
-- of the epoch's batch: if `open` succeeds and the calls of `read` serve, the round ends, its queue and log are as
-- before, and it sends `q`, at its port in the region, one datagram, which carries the batch.
pub on_request_batch_lem :
    (me q epoch : ℕ) (buf : Buf) (env : Env) (s : Slave) (b : Batch)
    → q < 2 ^ 15
    → epoch < 2 ^ 15
    → SameIn 0 5 s.recv_msg (create_request_batch_msg q epoch buf).0
    → env.opened ≡ true
    → Serves batch_log_size 0 env.answers
    → IsBatch b
    → Recorded s.batch_log epoch b
    → (out : Buf) × (on_request_batch env s
        ≡ done (record s { send_msg = out }, to_slave q out batch_log_size ∷ []))
      × Carries (record { bytes = out; len = batch_log_size }) b
unfolding on_request_batch
on_request_batch_lem me q epoch buf env s b hq he same o v size r =
    let request = (ack_and_request_roundtrip q epoch buf hq he).1 in
    let (out, over, runs, carries) =
      read_log-Carries env.answers env.stack s.batch_log s.send_msg epoch b (omega arith) v size
        r in
    (
      out,
      rw (request-same s.recv_msg (create_request_batch_msg q epoch buf).0 same ∙ request, o, runs)
          refl,
      carries,
    )
