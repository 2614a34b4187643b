-- ===== src/Message/Laws.antt =====
-- Encoding and decoding of the messages of fixed length.
use graduation_research_prog.Base.{ℕ, ◌<◌, ◌^◌, ◌≡◌, true, false, arith}
use graduation_research_prog.Bytes.{Buf}
use graduation_research_prog.Tx.{Tx}
use graduation_research_prog.Tx.Laws.{IsTx}
use graduation_research_prog.Message.{
  check_msg, batch_message, add_to_batch_message, request_tx_message, response_tx_message,
  ack_batch_message, request_batch_message, create_add_to_batch_msg, get_info_from_add_to_batch_msg,
  create_request_tx_msg, get_info_from_request_tx_msg, create_response_tx_msg,
  get_info_from_response_tx_msg, create_ack_batch_msg, get_info_from_ack_batch_msg,
  create_request_batch_msg, get_info_from_request_batch_message,
}

-- what the messages of the client interface carry of `tx`, laid over `old`
abbrev pub carried : Tx → Tx → Tx
carried tx old = record old {
  replica_id = tx.replica_id;
  client_id = tx.client_id;
  id = tx.id;
  type = tx.type;
  key = tx.key;
  value = tx.value;
}

-- A transaction whose members fit their types, sent by the client interface to the master and
-- decoded: the type of the message is told, its length is 12, and the receiver's transaction has the
-- ids, the type, the key and the value of the sender's, and is otherwise as it was.
pub add_to_batch_roundtrip :
    (tx old : Tx) (msg : Buf)
    → IsTx tx
    → let (m, len) = create_add_to_batch_msg tx msg in
      (check_msg m add_to_batch_message ≡ true)
      × (get_info_from_add_to_batch_msg m old ≡ carried tx old)
      × (len ≡ 12)
unfolding check_msg create_add_to_batch_msg get_info_from_add_to_batch_msg
add_to_batch_roundtrip tx old msg v = ground arith

-- A transaction whose members fit their types, sent by a client to its client interface and decoded:
-- the type of the message is told, its length is 12, and the receiver's transaction has the ids, the
-- type, the key and the value of the sender's, although the type is written as a `short` that the key
-- overlaps.
pub request_tx_roundtrip :
    (tx old : Tx) (msg : Buf)
    → IsTx tx
    → let (m, len) = create_request_tx_msg tx msg in
      (check_msg m request_tx_message ≡ true)
      × (get_info_from_request_tx_msg m old ≡ carried tx old)
      × (len ≡ 12)
unfolding check_msg create_request_tx_msg get_info_from_request_tx_msg
request_tx_roundtrip tx old msg v = ground arith

-- A transaction whose members fit their types, sent back to the client and decoded: the type of the
-- message is told, its length is 14, and the client's transaction has the ids, the type, the key, the
-- value and the assigned epoch of the sender's.
pub response_tx_roundtrip :
    (tx old : Tx) (msg : Buf)
    → IsTx tx
    → tx.assigned_epoch_id < 2 ^ 16
    → let (m, len) = create_response_tx_msg tx msg in
      (check_msg m response_tx_message ≡ true)
      × (get_info_from_response_tx_msg m old
          ≡ record (carried tx old) { assigned_epoch_id = tx.assigned_epoch_id })
      × (len ≡ 14)
unfolding check_msg create_response_tx_msg get_info_from_response_tx_msg
response_tx_roundtrip tx old msg v e = ground arith

-- An ACK and a request of a batch, of a replica and an epoch that a `short` can tell, are read as
-- they were made, and neither is taken for the other or for a batch.
pub ack_and_request_roundtrip :
    (me epoch : ℕ) (msg : Buf)
    → me < 2 ^ 15
    → epoch < 2 ^ 15
    → let ack = (create_ack_batch_msg me epoch msg).0 in
      let request = (create_request_batch_msg me epoch msg).0 in
      (get_info_from_ack_batch_msg ack ≡ (me, epoch))
      × (get_info_from_request_batch_message request ≡ (me, epoch))
      × (check_msg ack ack_batch_message ≡ true)
      × (check_msg request ack_batch_message ≡ false)
      × (check_msg request request_batch_message ≡ true)
      × (check_msg ack batch_message ≡ false)
      × (check_msg request batch_message ≡ false)
      × (check_msg ack request_batch_message ≡ false)
unfolding check_msg create_ack_batch_msg get_info_from_ack_batch_msg create_request_batch_msg
    get_info_from_request_batch_message
ack_and_request_roundtrip me epoch msg h e = ground arith
