-- ===== src/Slave/Tests.antt =====
-- Examples of slave/slave_sequencer.c.
use graduation_research_prog.Base.{
  ℕ, ◌≤◌, ◌^◌, ◌≡◌, refl, true, Option, none, some, List, [], ◌∷◌, map, upto, arith,
}
use graduation_research_prog.Outcome.{done, abort, Ensures}
use graduation_research_prog.Batch.{Batch}
use graduation_research_prog.Network.{Datagram}
use graduation_research_prog.Config.{proposed_method, conventional_method}
use graduation_research_prog.Log.{File, open_create}
use graduation_research_prog.Log.Append.{Holds, append_log-Holds}
use graduation_research_prog.Message.BatchCodec.{create_batch_msg}
use graduation_research_prog.Message.BatchExtent.{create_batch_msg_size}
use graduation_research_prog.Bytes.{Buf}
use graduation_research_prog.Message.{create_ack_batch_msg, create_request_batch_msg}
use graduation_research_prog.Message.InFlight.{Carries, Recorded}
use graduation_research_prog.Samples.{
  zeros, zeros-IsBytes, tx_of, raw_set, batch_of, batch_of-IsSound, epoch_id-batch_of, in_two,
  in_two-Serves, datagram_of,
}
use graduation_research_prog.Slave.State.{Slave, Env}
use graduation_research_prog.Slave.Actions.{on_request_batch, to_slave}
use graduation_research_prog.Slave.Peers.{on_request_batch_lem}
use graduation_research_prog.Slave.Delivery.{
  CanLog, Delivers, end, fresh, again, queued, expected, run-Delivers, step-ahead,
}
use graduation_research_prog.Slave.Order.{startup-run-InOrder}
use graduation_research_prog.Slave.{startup, run, slave_step}

abbrev env : Env
env = record { opened = true; answers = in_two; stack = zeros; raw_tx = tx_of 0; raw_set = raw_set }

env-CanLog : CanLog env
env-CanLog = record { opened = refl; serves = in_two-Serves }

datagram_of-Carries : (e : ℕ) → Carries (datagram_of (batch_of e)) (batch_of e)
datagram_of-Carries e =
    let (size, bound, behind) =
      create_batch_msg_size (batch_of e) zeros (batch_of-IsSound e).size in
    record { buffer = zeros; fits = omega arith; whole = omega arith; same = λ i lo hi. refl }

-- epoch 0, a copy of it, and epoch 1
abbrev events : List (Env × Option Datagram)
events =
    (env, some (datagram_of (batch_of 0)))
    ∷ (env, some (datagram_of (batch_of 0)))
    ∷ (env, some (datagram_of (batch_of 1)))
    ∷ []

events-Delivers : Delivers 0 events (batch_of 0 ∷ batch_of 1 ∷ [])
events-Delivers =
    fresh env (datagram_of (batch_of 0)) (batch_of 0) env-CanLog (datagram_of-Carries 0)
      (batch_of-IsSound 0) (epoch_id-batch_of 0) (omega arith)
      (again env (datagram_of (batch_of 0)) (batch_of 0) (datagram_of-Carries 0)
        (batch_of-IsSound 0) (omega (arith, epoch_id-batch_of 0))
        (fresh env (datagram_of (batch_of 1)) (batch_of 1) env-CanLog (datagram_of-Carries 1)
          (batch_of-IsSound 1) (epoch_id-batch_of 1) (omega arith) end))

run-Delivers_example :
    (t : Slave) × (run proposed_method 1 events (startup zeros zeros) ≡ done t)
    × (t.next_batch_epoch_id ≡ 2)
    × (map queued t.write_tx_buffer ≡ map expected (batch_of 0 ∷ batch_of 1 ∷ []))
unfolding startup
run-Delivers_example =
    run-Delivers proposed_method 1 (startup zeros zeros) (λ h. cc) (omega arith) events-Delivers

startup-run-InOrder_example :
    Ensures
      (λ s.
        (map (λ (b : Batch). b.epoch_id) s.write_tx_buffer ≡ upto s.next_batch_epoch_id)
        × (s.next_batch_epoch_id ≤ 2 ^ 15))
      (run proposed_method 1
        ((env, none) ∷ (env, some (record { bytes = zeros; len = 5 })) ∷ [])
        (startup zeros zeros))
startup-run-InOrder_example =
    startup-run-InOrder proposed_method 1
      ((env, none) ∷ (env, some (record { bytes = zeros; len = 5 })) ∷ []) zeros zeros zeros-IsBytes
      (tt, (zeros-IsBytes, tt))

-- a slave that has epoch 0 in its log, and waits for epoch 1
abbrev log : File
log = record { size = 1024; byte = zeros }

abbrev waiting_for : ℕ → Batch → Slave
waiting_for next b = record {
  next_batch_epoch_id = next;
  recv_msg = (create_batch_msg b zeros).0;
  send_msg = zeros;
  batch_log = some log;
  write_tx_buffer = [];
}

-- slave 2 has acknowledged epoch 4 to a slave that waits for epoch 1
abbrev behind : Slave
behind = record (waiting_for 1 (batch_of 1)) { recv_msg = (create_ack_batch_msg 2 4 zeros).0 }

-- epoch 3 is ahead of epoch 1
step-ahead_example :
    slave_step conventional_method 1 env
      (some (datagram_of (batch_of 3)))
      (waiting_for 1 (batch_of 0))
    ≡ abort
step-ahead_example =
    step-ahead conventional_method (λ h. cc) 1 env (waiting_for 1 (batch_of 0))
      (datagram_of (batch_of 3)) (batch_of 3) (datagram_of-Carries 3) (batch_of-IsSound 3)
      (omega (arith, epoch_id-batch_of 3)) (omega (arith, epoch_id-batch_of 3))

log_of : (f : File) × Holds f 1 1024 (create_batch_msg (batch_of 1) zeros).0
log_of =
    let (f, runs, held, others) =
      append_log-Holds in_two zeros none (create_batch_msg (batch_of 1) zeros).0 1024 1
        (omega arith) (omega arith) in_two-Serves in
    (f, held)

-- slave 2 asks for epoch 1
abbrev asked : Slave
asked = record behind {
  recv_msg = (create_request_batch_msg 2 1 zeros).0;
  batch_log = some log_of.0;
}

log_of-Recorded : Recorded (some log_of.0) 1 (batch_of 1)
unfolding open_create
log_of-Recorded =
    let (size, bound, behind) =
      create_batch_msg_size (batch_of 1) zeros (batch_of-IsSound 1).size in
    record {
      buffer = zeros;
      len = 1024;
      message = (create_batch_msg (batch_of 1) zeros).0;
      len_fits = omega arith;
      held = log_of.1;
      whole = omega (arith, bound);
      same = λ i lo hi. refl;
    }

on_request_batch_example :
    (out : Buf) × (on_request_batch env asked
      ≡ done (record asked { send_msg = out }, to_slave 2 out 1024 ∷ []))
    × Carries (record { bytes = out; len = 1024 }) (batch_of 1)
on_request_batch_example =
    on_request_batch_lem 1 2 1 zeros env asked (batch_of 1) (omega arith) (omega arith)
      (λ i lo hi. refl) refl in_two-Serves (batch_of-IsSound 1).size log_of-Recorded
