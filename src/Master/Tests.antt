-- ===== src/Master/Tests.antt =====
-- Examples of master/master_sequencer.c.
use graduation_research_prog.Base.{◌≡◌, refl, true, false, some, [], ◌∷◌, arith}
use graduation_research_prog.Outcome.{done}
use graduation_research_prog.Bytes.Access.{IsBytes}
use graduation_research_prog.Network.{Datagram}
use graduation_research_prog.Config.{proposed_method}
use graduation_research_prog.Log.{File}
use graduation_research_prog.Message.{create_ack_batch_msg, create_add_to_batch_msg}
use graduation_research_prog.Samples.{
  zeros, zeros-IsBytes, tx_of, three-IsTx, raw_set, in_two, in_two-Serves,
}
use graduation_research_prog.Master.{
  Master, Env, master_startup, sequencer_add_write_tx_to_batch, swap_batch, confirm_batch,
}
use graduation_research_prog.Master.Epochs.{
  IsMaster, Reach, here, next, add, swap, confirm, confirmed, confirm_batch_lem, Reach-IsMaster,
  rev_batch-add,
}
use graduation_research_prog.Master.Receiver.{Receiver, receiving, taken}
use graduation_research_prog.Master.Dedup.{taken-wrapped}
use graduation_research_prog.Master.Sender.{Sender, ack_step}
use graduation_research_prog.Master.Sending.{here, ack_step-create_ack}

abbrev env : Env
env = record { opened = true; answers = in_two; stack = zeros; raw_set = raw_set }

abbrev start : Master
start = master_startup raw_set zeros

abbrev added : Master
added = (sequencer_add_write_tx_to_batch start (tx_of 3)).0

abbrev swapped : Master
swapped = swap_batch env added

rev_batch-swapped : swapped.rev_batch ≡ some added.batch
unfolding swap_batch
rev_batch-swapped = refl

reach_added : Reach start added 0
reach_added = next here (add (tx_of 3) three-IsTx)

reach_swapped : Reach start swapped 0
unfolding master_startup
reach_swapped = next reach_added (swap env (rev_batch-add start (tx_of 3)) (omega arith))

confirm_batch_example :
    (f : File) × (confirm_batch env swapped ≡ done (confirmed swapped added.batch f))
    × IsMaster (confirmed swapped added.batch f) 1
confirm_batch_example =
    confirm_batch_lem swapped 0 env added.batch (Reach-IsMaster raw_set zeros reach_swapped)
      rev_batch-swapped (omega arith) refl in_two-Serves

-- one epoch, with one transaction, is determined
determined : (m : Master) × Reach start m 1
determined =
    let (f, runs, valid) =
      confirm_batch_lem swapped 0 env added.batch (Reach-IsMaster raw_set zeros reach_swapped)
        rev_batch-swapped (omega arith) refl in_two-Serves in
    (
      confirmed swapped added.batch f,
      next reach_swapped (
          confirm env added.batch (confirmed swapped added.batch f) rev_batch-swapped (omega arith)
            refl in_two-Serves runs),
    )

Reach-IsMaster_example : IsMaster determined.0 1
Reach-IsMaster_example = Reach-IsMaster raw_set zeros determined.1

abbrev junk : Datagram
junk = record { bytes = zeros; len = 12 }

-- the thread that has taken 65535, and the request of the transaction 0
abbrev last : Receiver
last = record { recieved_tx_id = 0xffff; recv_msg = zeros; send_msg = zeros; phase = receiving }

abbrev request : Datagram
request = record { bytes = (create_add_to_batch_msg (tx_of 0) zeros).0; len = 12 }

request-IsBytes : IsBytes (create_add_to_batch_msg (tx_of 0) zeros).0
unfolding create_add_to_batch_msg
request-IsBytes i = ground arith

taken-wrapped_example : taken ((tx_of 0, some request) ∷ []) last ≡ []
taken-wrapped_example =
    taken-wrapped ((tx_of 0, some request) ∷ []) last zeros-IsBytes (request-IsBytes, tt) refl refl

-- epoch 2 is being sent
abbrev sending : Sender
sending = record {
  next_epoch_id = 2;
  send_epoch_id = 2;
  send_msg = zeros;
  send_msg_len = 1024;
  recv_msg = zeros;
  sending = true;
}

-- A later ACK ends the sending with the proposed method, and the epoch behind it is next.
ack_step-create_ack_example :
    let t =
      ack_step proposed_method
        (some (record {
          bytes = (create_ack_batch_msg 1 5 zeros).0;
          len = (create_ack_batch_msg 1 5 zeros).1;
        }))
        sending in
    (t.sending ≡ false) × (t.next_epoch_id ≡ 6)
ack_step-create_ack_example =
    ack_step-create_ack proposed_method 1 5 zeros sending (omega arith) (omega arith) refl refl
      (omega arith)
