-- ===== src/Message.antt =====
-- utils/message.h and utils/message.c: the messages of fixed length. A `create_` function returns
-- the buffer that it has written to beside the length of the message. A `get_info_` function
-- returns what it stores through its pointers.
-- The batch message, of variable length, is in the child `BatchCodec`.
pub mod BatchBlocks
pub mod BatchCodec
pub mod BatchExtent
pub mod BatchRoundtrip
pub mod InFlight
pub mod Layout
mod Tests
pub mod Laws
use graduation_research_prog.Base.{ℕ, ◌+◌, ◌==◌, Bool}
use graduation_research_prog.Words.{int_of_short, int_of_char, short_of_int}
use graduation_research_prog.Bytes.{
  Buf, set_short_int_to_bytes, get_short_int_from_bytes, set_char_to_bytes, get_char_from_bytes,
}
use graduation_research_prog.Tx.{Tx}
use graduation_research_prog.Message.Layout.{
  msg_type_offset, request_terminate_flag_offset, request_terminate_message_size,
  response_terminate_message_size, request_tx_replica_id_offset, request_tx_client_id_offset,
  request_tx_id_offset, request_tx_type_offset, request_tx_key_offset, request_tx_value_offset,
  request_tx_message_size, response_tx_replica_id_offset, response_tx_client_id_offset,
  response_tx_id_offset, response_tx_type_offset, response_tx_key_offset, response_tx_value_offset,
  response_tx_assigned_epoch_id_offset, response_tx_message_size, add_to_batch_tx_replica_id_offset,
  add_to_batch_tx_client_id_offset, add_to_batch_tx_id_offset, add_to_batch_tx_type_offset,
  add_to_batch_tx_key_offset, add_to_batch_tx_value_offset, add_to_batch_message_size,
  ack_batch_my_replica_id_offset, ack_batch_epoch_id_offset, ack_batch_message_size,
  request_batch_my_replica_id_offset, request_batch_epoch_id_offset, request_batch_message_size,
  ack_add_tx_replica_id_offset, ack_add_tx_client_id_offset, ack_add_tx_id_offset,
  ack_add_message_size,
}

-- `enum message_type`
abbrev pub error_message : ℕ
error_message = 0

abbrev pub request_terminate_message : ℕ
request_terminate_message = 1

abbrev pub response_terminate_message : ℕ
response_terminate_message = 2

abbrev pub request_tx_message : ℕ
request_tx_message = 3

abbrev pub response_tx_message : ℕ
response_tx_message = 4

abbrev pub add_to_batch_message : ℕ
add_to_batch_message = 5

abbrev pub ack_add_message : ℕ
ack_add_message = 6

abbrev pub batch_message : ℕ
batch_message = 7

abbrev pub ack_batch_message : ℕ
ack_batch_message = 8

abbrev pub request_batch_message : ℕ
request_batch_message = 9

-- 1 is `true`. The type byte is a signed `char`, and so never equal to a type if it is negative.
unfoldable pub check_msg : Buf → ℕ → Bool
unfolding get_char_from_bytes
check_msg msg expected_type = expected_type == int_of_char (get_char_from_bytes msg msg_type_offset)

unfoldable pub get_info_from_request_terminate_msg : Buf → ℕ
unfolding get_char_from_bytes
get_info_from_request_terminate_msg msg = get_char_from_bytes msg request_terminate_flag_offset

unfoldable pub create_request_terminate_msg : ℕ → Buf → Buf × ℕ
unfolding set_char_to_bytes
create_request_terminate_msg terminate_flag msg =
    let m = set_char_to_bytes msg msg_type_offset request_terminate_message in
    (
      set_char_to_bytes m request_terminate_flag_offset terminate_flag,
      request_terminate_message_size,
    )

unfoldable pub create_response_terminate_msg : Buf → Buf × ℕ
unfolding set_char_to_bytes
create_response_terminate_msg msg = (
  set_char_to_bytes msg msg_type_offset response_terminate_message,
  response_terminate_message_size,
)

unfoldable pub get_info_from_request_tx_msg : Buf → Tx → Tx
unfolding get_short_int_from_bytes get_char_from_bytes
get_info_from_request_tx_msg msg tx = record tx {
  replica_id = get_short_int_from_bytes msg request_tx_replica_id_offset;
  client_id = get_short_int_from_bytes msg request_tx_client_id_offset;
  id = get_short_int_from_bytes msg request_tx_id_offset;
  type = int_of_char (get_char_from_bytes msg request_tx_type_offset);
  key = get_short_int_from_bytes msg request_tx_key_offset;
  value = get_short_int_from_bytes msg request_tx_value_offset;
}

-- The type is written as a `short`, whose high byte the key then overwrites.
unfoldable pub create_request_tx_msg : Tx → Buf → Buf × ℕ
unfolding set_short_int_to_bytes set_char_to_bytes
create_request_tx_msg tx msg =
    let m0 = set_char_to_bytes msg msg_type_offset request_tx_message in
    let m1 = set_short_int_to_bytes m0 request_tx_replica_id_offset tx.replica_id in
    let m2 = set_short_int_to_bytes m1 request_tx_client_id_offset tx.client_id in
    let m3 = set_short_int_to_bytes m2 request_tx_id_offset tx.id in
    let m4 = set_short_int_to_bytes m3 request_tx_type_offset tx.type in
    let m5 = set_short_int_to_bytes m4 request_tx_key_offset tx.key in
    let m6 = set_short_int_to_bytes m5 request_tx_value_offset tx.value in
    (m6, request_tx_message_size)

unfoldable pub get_info_from_response_tx_msg : Buf → Tx → Tx
unfolding get_short_int_from_bytes get_char_from_bytes
get_info_from_response_tx_msg msg tx = record tx {
  replica_id = get_short_int_from_bytes msg response_tx_replica_id_offset;
  client_id = get_short_int_from_bytes msg response_tx_client_id_offset;
  id = get_short_int_from_bytes msg response_tx_id_offset;
  type = int_of_char (get_char_from_bytes msg response_tx_type_offset);
  key = get_short_int_from_bytes msg response_tx_key_offset;
  value = get_short_int_from_bytes msg response_tx_value_offset;
  assigned_epoch_id = get_short_int_from_bytes msg response_tx_assigned_epoch_id_offset;
}

unfoldable pub create_response_tx_msg : Tx → Buf → Buf × ℕ
unfolding set_short_int_to_bytes set_char_to_bytes
create_response_tx_msg tx msg =
    let m0 = set_char_to_bytes msg msg_type_offset response_tx_message in
    let m1 = set_short_int_to_bytes m0 response_tx_replica_id_offset tx.replica_id in
    let m2 = set_short_int_to_bytes m1 response_tx_client_id_offset tx.client_id in
    let m3 = set_short_int_to_bytes m2 response_tx_id_offset tx.id in
    let m4 = set_char_to_bytes m3 response_tx_type_offset tx.type in
    let m5 = set_short_int_to_bytes m4 response_tx_key_offset tx.key in
    let m6 = set_short_int_to_bytes m5 response_tx_value_offset tx.value in
    let m7 = set_short_int_to_bytes m6 response_tx_assigned_epoch_id_offset tx.assigned_epoch_id in
    (m7, response_tx_message_size)

unfoldable pub get_info_from_add_to_batch_msg : Buf → Tx → Tx
unfolding get_short_int_from_bytes get_char_from_bytes
get_info_from_add_to_batch_msg msg tx = record tx {
  replica_id = get_short_int_from_bytes msg add_to_batch_tx_replica_id_offset;
  client_id = get_short_int_from_bytes msg add_to_batch_tx_client_id_offset;
  id = get_short_int_from_bytes msg add_to_batch_tx_id_offset;
  type = int_of_char (get_char_from_bytes msg add_to_batch_tx_type_offset);
  key = get_short_int_from_bytes msg add_to_batch_tx_key_offset;
  value = get_short_int_from_bytes msg add_to_batch_tx_value_offset;
}

unfoldable pub create_add_to_batch_msg : Tx → Buf → Buf × ℕ
unfolding set_short_int_to_bytes set_char_to_bytes
create_add_to_batch_msg tx msg =
    let m0 = set_char_to_bytes msg msg_type_offset add_to_batch_message in
    let m1 = set_short_int_to_bytes m0 add_to_batch_tx_replica_id_offset tx.replica_id in
    let m2 = set_short_int_to_bytes m1 add_to_batch_tx_client_id_offset tx.client_id in
    let m3 = set_short_int_to_bytes m2 add_to_batch_tx_id_offset tx.id in
    let m4 = set_char_to_bytes m3 add_to_batch_tx_type_offset tx.type in
    let m5 = set_short_int_to_bytes m4 add_to_batch_tx_key_offset tx.key in
    let m6 = set_short_int_to_bytes m5 add_to_batch_tx_value_offset tx.value in
    (m6, add_to_batch_message_size)

unfoldable pub get_info_from_ack_batch_msg : Buf → ℕ × ℕ
unfolding get_short_int_from_bytes
get_info_from_ack_batch_msg msg = (
  int_of_short (get_short_int_from_bytes msg ack_batch_my_replica_id_offset),
  int_of_short (get_short_int_from_bytes msg ack_batch_epoch_id_offset),
)

unfoldable pub create_ack_batch_msg : ℕ → ℕ → Buf → Buf × ℕ
unfolding set_short_int_to_bytes set_char_to_bytes
create_ack_batch_msg my_replica_id epoch_id msg =
    let m0 = set_char_to_bytes msg msg_type_offset ack_batch_message in
    let m1 =
      set_short_int_to_bytes m0 ack_batch_my_replica_id_offset (short_of_int my_replica_id) in
    let m2 = set_short_int_to_bytes m1 ack_batch_epoch_id_offset (short_of_int epoch_id) in
    (m2, ack_batch_message_size)

unfoldable pub get_info_from_request_batch_message : Buf → ℕ × ℕ
unfolding get_short_int_from_bytes
get_info_from_request_batch_message msg = (
  int_of_short (get_short_int_from_bytes msg request_batch_my_replica_id_offset),
  int_of_short (get_short_int_from_bytes msg request_batch_epoch_id_offset),
)

unfoldable pub create_request_batch_msg : ℕ → ℕ → Buf → Buf × ℕ
unfolding set_short_int_to_bytes set_char_to_bytes
create_request_batch_msg my_replica_id epoch_id msg =
    let m0 = set_char_to_bytes msg msg_type_offset request_batch_message in
    let m1 =
      set_short_int_to_bytes m0 request_batch_my_replica_id_offset (short_of_int my_replica_id) in
    let m2 = set_short_int_to_bytes m1 request_batch_epoch_id_offset (short_of_int epoch_id) in
    (m2, request_batch_message_size)

unfoldable pub get_info_from_ack_add_msg : Buf → ℕ × ℕ × ℕ
unfolding get_short_int_from_bytes
get_info_from_ack_add_msg msg = (
  int_of_short (get_short_int_from_bytes msg ack_add_tx_replica_id_offset),
  int_of_short (get_short_int_from_bytes msg ack_add_tx_client_id_offset),
  int_of_short (get_short_int_from_bytes msg ack_add_tx_id_offset),
)

unfoldable pub create_ack_add_msg : ℕ → ℕ → ℕ → Buf → Buf × ℕ
unfolding set_short_int_to_bytes set_char_to_bytes
create_ack_add_msg replica_id client_id tx_id msg =
    let m0 = set_char_to_bytes msg msg_type_offset ack_add_message in
    let m1 = set_short_int_to_bytes m0 ack_add_tx_replica_id_offset (short_of_int replica_id) in
    let m2 = set_short_int_to_bytes m1 ack_add_tx_client_id_offset (short_of_int client_id) in
    let m3 = set_short_int_to_bytes m2 ack_add_tx_id_offset (short_of_int tx_id) in
    (m3, ack_add_message_size)
