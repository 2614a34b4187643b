-- ===== src/Master/Intake/Tests.antt =====
-- Examples of the receiving threads.
use graduation_research_prog.Base.{◌≡◌, refl, some, [], ◌∷◌, ◌++◌, arith}
use graduation_research_prog.Bytes.{copy}
use graduation_research_prog.Bytes.Access.{IsBytes}
use graduation_research_prog.Tx.{Tx, create_tx}
use graduation_research_prog.Network.{Datagram, udp_sv_receive_msg}
use graduation_research_prog.Message.{
  create_add_to_batch_msg, check_msg, get_info_from_add_to_batch_msg,
}
use graduation_research_prog.Samples.{zeros, zeros-IsBytes, tx_of, raw_set}
use graduation_research_prog.System.Run.{master_env}
use graduation_research_prog.Master.{master_startup}
use graduation_research_prog.Master.Dedup.{Increasing}
use graduation_research_prog.Master.Receiver.{
  Receiver, adding, receiver_startup, receive_step, phase_of,
}
use graduation_research_prog.Master.Intake.{
  Intake, IntakeReach, intake_startup, receive, add, swap_step, here, more, Log, of_thread,
  waiting_in, batches_of, all_contents,
}
use graduation_research_prog.Master.Intake.Threads.{ids_of}
use graduation_research_prog.Master.Intake.Order.{txs_of, intake_in_order}

-- transaction 3 of a client
abbrev request : Datagram
request = record {
  bytes = (create_add_to_batch_msg (tx_of 3) zeros).0;
  len = (create_add_to_batch_msg (tx_of 3) zeros).1;
}

abbrev start : Intake
start = intake_startup raw_set zeros

abbrev asked : Receiver
asked = (receive_step (tx_of 0) (some request) (start.receivers 7)).0

phase_asked : (tx : Tx) × (asked.phase ≡ adding tx) × (tx.id ≡ 3)
unfolding receive_step receiver_startup phase_of udp_sv_receive_msg check_msg
    get_info_from_add_to_batch_msg create_add_to_batch_msg create_tx copy
phase_asked = (_, refl, refl)

request-IsBytes : IsBytes request.bytes
unfolding create_add_to_batch_msg
request-IsBytes i = ground arith

-- The request comes, the epoch ends, and the thread adds the transaction to the new batch.
intake_run :
    (c : Intake) × (taken : Log) × (added : Log) × IntakeReach start c taken added
    × (ids_of (of_thread 7 taken) ≡ 3 ∷ [])
unfolding receive_step receiver_startup phase_of udp_sv_receive_msg check_msg
    get_info_from_add_to_batch_msg create_add_to_batch_msg create_tx copy master_startup
intake_run = (
  _,
  _,
  _,
  more
      (more (more here (receive 7 (tx_of 0) (some request) request-IsBytes refl))
        (swap_step master_env refl (omega arith)))
      (add 7 phase_asked.0 phase_asked.1),
  refl,
)

intake_in_order_example :
    (all_contents (batches_of intake_run.0.master) ≡ txs_of intake_run.2)
    × (of_thread 7 intake_run.1
        ≡ of_thread 7 intake_run.2 ++ waiting_in (intake_run.0.receivers 7).phase)
    × Increasing 0 (ids_of (of_thread 7 intake_run.1))
intake_in_order_example =
    intake_in_order raw_set zeros intake_run.0 intake_run.1 intake_run.2 7 zeros-IsBytes
      intake_run.3
