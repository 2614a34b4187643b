-- ===== src/Message/Tests.antt =====
-- Examples of utils/message.c.
use graduation_research_prog.Base.{◌+◌, ◌*◌, ◌≤◌, ◌≡◌, refl, true, false, arith}
use graduation_research_prog.Samples.{
  zeros, tx_of, three-IsTx, raw_set, batch_of, batch_of-IsSound, epoch_id-batch_of,
}
use graduation_research_prog.Message.{
  check_msg, batch_message, add_to_batch_message, request_tx_message, response_tx_message,
  ack_batch_message, request_batch_message, create_add_to_batch_msg, get_info_from_add_to_batch_msg,
  create_request_tx_msg, get_info_from_request_tx_msg, create_response_tx_msg,
  get_info_from_response_tx_msg, create_ack_batch_msg, get_info_from_ack_batch_msg,
  create_request_batch_msg, get_info_from_request_batch_message,
}
use graduation_research_prog.Message.BatchCodec.{create_batch_msg}
use graduation_research_prog.Message.BatchExtent.{create_batch_msg_extent, create_batch_msg_size}
use graduation_research_prog.Message.BatchRoundtrip.{Received, create_batch_msg-Received}
use graduation_research_prog.Message.Laws.{
  carried, add_to_batch_roundtrip, request_tx_roundtrip, response_tx_roundtrip,
  ack_and_request_roundtrip,
}

create_batch_msg-Received_example :
    Received (tx_of 0) raw_set 5 (create_batch_msg (batch_of 5) zeros).0 (batch_of 5)
create_batch_msg-Received_example =
    create_batch_msg-Received (tx_of 0) raw_set 5 (batch_of 5) zeros
      (create_batch_msg (batch_of 5) zeros).0 (batch_of-IsSound 5).size (batch_of-IsSound 5).txs
      (omega (arith, epoch_id-batch_of 5)) (λ i lo hi. refl)

create_batch_msg_extent_example :
    let (m, len) = create_batch_msg (batch_of 5) zeros in
    (len ≡ 5 + 11 * (batch_of 5).tx_num) × (len ≤ 995) × (m 995 ≡ zeros 995)
create_batch_msg_extent_example =
    create_batch_msg_extent (batch_of 5) zeros 995 (batch_of-IsSound 5).size
      (create_batch_msg_size (batch_of 5) zeros (batch_of-IsSound 5).size).1

add_to_batch_roundtrip_example :
    let (m, len) = create_add_to_batch_msg (tx_of 3) zeros in
    (check_msg m add_to_batch_message ≡ true)
    × (get_info_from_add_to_batch_msg m (tx_of 0) ≡ carried (tx_of 3) (tx_of 0))
    × (len ≡ 12)
add_to_batch_roundtrip_example = add_to_batch_roundtrip (tx_of 3) (tx_of 0) zeros three-IsTx

request_tx_roundtrip_example :
    let (m, len) = create_request_tx_msg (tx_of 3) zeros in
    (check_msg m request_tx_message ≡ true)
    × (get_info_from_request_tx_msg m (tx_of 0) ≡ carried (tx_of 3) (tx_of 0))
    × (len ≡ 12)
request_tx_roundtrip_example = request_tx_roundtrip (tx_of 3) (tx_of 0) zeros three-IsTx

response_tx_roundtrip_example :
    let (m, len) = create_response_tx_msg (tx_of 3) zeros in
    (check_msg m response_tx_message ≡ true)
    × (get_info_from_response_tx_msg m (tx_of 0)
        ≡ record (carried (tx_of 3) (tx_of 0)) { assigned_epoch_id = 0xffff })
    × (len ≡ 14)
response_tx_roundtrip_example =
    response_tx_roundtrip (tx_of 3) (tx_of 0) zeros three-IsTx (omega arith)

ack_and_request_roundtrip_example :
    let ack = (create_ack_batch_msg 2 7 zeros).0 in
    let request = (create_request_batch_msg 2 7 zeros).0 in
    (get_info_from_ack_batch_msg ack ≡ (2, 7))
    × (get_info_from_request_batch_message request ≡ (2, 7))
    × (check_msg ack ack_batch_message ≡ true)
    × (check_msg request ack_batch_message ≡ false)
    × (check_msg request request_batch_message ≡ true)
    × (check_msg ack batch_message ≡ false)
    × (check_msg request batch_message ≡ false)
    × (check_msg ack request_batch_message ≡ false)
ack_and_request_roundtrip_example = ack_and_request_roundtrip 2 7 zeros (omega arith) (omega arith)
