-- ===== src/Message/Layout.antt =====
-- utils/message.h: the macros of the message layouts. Each message begins with its type byte, and
-- a field stands behind the one before it; `sizeof(char)` is 1 and `sizeof(short)` is 2.
use graduation_research_prog.Base.{ℕ, ◌+◌}

abbrev pub msg_type_offset : ℕ
msg_type_offset = 0

abbrev pub request_terminate_flag_offset : ℕ
request_terminate_flag_offset = msg_type_offset + 1

abbrev pub request_terminate_message_size : ℕ
request_terminate_message_size = request_terminate_flag_offset + 1

abbrev pub response_terminate_message_size : ℕ
response_terminate_message_size = msg_type_offset + 1

abbrev pub request_tx_replica_id_offset : ℕ
request_tx_replica_id_offset = msg_type_offset + 1

abbrev pub request_tx_client_id_offset : ℕ
request_tx_client_id_offset = request_tx_replica_id_offset + 2

abbrev pub request_tx_id_offset : ℕ
request_tx_id_offset = request_tx_client_id_offset + 2

abbrev pub request_tx_type_offset : ℕ
request_tx_type_offset = request_tx_id_offset + 2

abbrev pub request_tx_key_offset : ℕ
request_tx_key_offset = request_tx_type_offset + 1

abbrev pub request_tx_value_offset : ℕ
request_tx_value_offset = request_tx_key_offset + 2

abbrev pub request_tx_message_size : ℕ
request_tx_message_size = request_tx_value_offset + 2

abbrev pub response_tx_replica_id_offset : ℕ
response_tx_replica_id_offset = msg_type_offset + 1

abbrev pub response_tx_client_id_offset : ℕ
response_tx_client_id_offset = response_tx_replica_id_offset + 2

abbrev pub response_tx_id_offset : ℕ
response_tx_id_offset = response_tx_client_id_offset + 2

abbrev pub response_tx_type_offset : ℕ
response_tx_type_offset = response_tx_id_offset + 2

abbrev pub response_tx_key_offset : ℕ
response_tx_key_offset = response_tx_type_offset + 1

abbrev pub response_tx_value_offset : ℕ
response_tx_value_offset = response_tx_key_offset + 2

abbrev pub response_tx_assigned_epoch_id_offset : ℕ
response_tx_assigned_epoch_id_offset = response_tx_value_offset + 2

abbrev pub response_tx_message_size : ℕ
response_tx_message_size = response_tx_assigned_epoch_id_offset + 2

abbrev pub add_to_batch_tx_replica_id_offset : ℕ
add_to_batch_tx_replica_id_offset = msg_type_offset + 1

abbrev pub add_to_batch_tx_client_id_offset : ℕ
add_to_batch_tx_client_id_offset = add_to_batch_tx_replica_id_offset + 2

abbrev pub add_to_batch_tx_id_offset : ℕ
add_to_batch_tx_id_offset = add_to_batch_tx_client_id_offset + 2

abbrev pub add_to_batch_tx_type_offset : ℕ
add_to_batch_tx_type_offset = add_to_batch_tx_id_offset + 2

abbrev pub add_to_batch_tx_key_offset : ℕ
add_to_batch_tx_key_offset = add_to_batch_tx_type_offset + 1

abbrev pub add_to_batch_tx_value_offset : ℕ
add_to_batch_tx_value_offset = add_to_batch_tx_key_offset + 2

abbrev pub add_to_batch_message_size : ℕ
add_to_batch_message_size = add_to_batch_tx_value_offset + 2

abbrev pub batch_epoch_id_offset : ℕ
batch_epoch_id_offset = msg_type_offset + 1

abbrev pub batch_tx_num_offset : ℕ
batch_tx_num_offset = batch_epoch_id_offset + 2

abbrev pub batch_tx_info_offset : ℕ
batch_tx_info_offset = batch_tx_num_offset + 2

abbrev pub batch_tx_info_replica_id_offset : ℕ
batch_tx_info_replica_id_offset = 0

abbrev pub batch_tx_info_client_id_offset : ℕ
batch_tx_info_client_id_offset = batch_tx_info_replica_id_offset + 2

abbrev pub batch_tx_info_tx_id_offset : ℕ
batch_tx_info_tx_id_offset = batch_tx_info_client_id_offset + 2

abbrev pub batch_tx_info_tx_type_offset : ℕ
batch_tx_info_tx_type_offset = batch_tx_info_tx_id_offset + 2

abbrev pub batch_tx_info_tx_key_offset : ℕ
batch_tx_info_tx_key_offset = batch_tx_info_tx_type_offset + 1

abbrev pub batch_tx_info_tx_value_offset : ℕ
batch_tx_info_tx_value_offset = batch_tx_info_tx_key_offset + 2

abbrev pub batch_tx_info_message_size : ℕ
batch_tx_info_message_size = batch_tx_info_tx_value_offset + 2

abbrev pub ack_batch_my_replica_id_offset : ℕ
ack_batch_my_replica_id_offset = msg_type_offset + 1

abbrev pub ack_batch_epoch_id_offset : ℕ
ack_batch_epoch_id_offset = ack_batch_my_replica_id_offset + 2

abbrev pub ack_batch_message_size : ℕ
ack_batch_message_size = ack_batch_epoch_id_offset + 2

abbrev pub request_batch_my_replica_id_offset : ℕ
request_batch_my_replica_id_offset = msg_type_offset + 1

abbrev pub request_batch_epoch_id_offset : ℕ
request_batch_epoch_id_offset = request_batch_my_replica_id_offset + 2

abbrev pub request_batch_message_size : ℕ
request_batch_message_size = request_batch_epoch_id_offset + 2

abbrev pub ack_add_tx_replica_id_offset : ℕ
ack_add_tx_replica_id_offset = msg_type_offset + 1

abbrev pub ack_add_tx_client_id_offset : ℕ
ack_add_tx_client_id_offset = ack_add_tx_replica_id_offset + 2

abbrev pub ack_add_tx_id_offset : ℕ
ack_add_tx_id_offset = ack_add_tx_client_id_offset + 2

abbrev pub ack_add_message_size : ℕ
ack_add_message_size = ack_add_tx_id_offset + 2
