-- ===== src/Message/BatchCodec.antt =====
-- utils/message.c: the batch message, a header and one block for each transaction.
-- `raw` stands for what `malloc` left in the memory of a new transaction.
use graduation_research_prog.Base.{ℕ, zero, suc, ◌+◌}
use graduation_research_prog.Words.{int_of_short, int_of_char, rounds}
use graduation_research_prog.Bytes.{
  Buf, set_short_int_to_bytes, get_short_int_from_bytes, set_char_to_bytes, get_char_from_bytes,
}
use graduation_research_prog.Tx.{Tx, create_tx}
use graduation_research_prog.Batch.{Batch, batch_add_tx}
use graduation_research_prog.Message.{batch_message}
use graduation_research_prog.Message.Layout.{
  msg_type_offset, batch_epoch_id_offset, batch_tx_num_offset, batch_tx_info_offset,
  batch_tx_info_replica_id_offset, batch_tx_info_client_id_offset, batch_tx_info_tx_id_offset,
  batch_tx_info_tx_type_offset, batch_tx_info_tx_key_offset, batch_tx_info_tx_value_offset,
  batch_tx_info_message_size,
}

-- one round of the loop that writes
unfoldable pub put_tx_info : Buf → ℕ → Tx → Buf
put_tx_info msg offset tx =
    let m1 = set_short_int_to_bytes msg (offset + batch_tx_info_replica_id_offset) tx.replica_id in
    let m2 = set_short_int_to_bytes m1 (offset + batch_tx_info_client_id_offset) tx.client_id in
    let m3 = set_short_int_to_bytes m2 (offset + batch_tx_info_tx_id_offset) tx.id in
    let m4 = set_char_to_bytes m3 (offset + batch_tx_info_tx_type_offset) tx.type in
    let m5 = set_short_int_to_bytes m4 (offset + batch_tx_info_tx_key_offset) tx.key in
    set_short_int_to_bytes m5 (offset + batch_tx_info_tx_value_offset) tx.value

-- one round of the loop that reads
unfoldable pub get_tx_info : Tx → Buf → ℕ → Tx
unfolding create_tx
get_tx_info raw msg offset = record (create_tx raw) {
  replica_id = get_short_int_from_bytes msg (offset + batch_tx_info_replica_id_offset);
  client_id = get_short_int_from_bytes msg (offset + batch_tx_info_client_id_offset);
  id = get_short_int_from_bytes msg (offset + batch_tx_info_tx_id_offset);
  type = int_of_char (get_char_from_bytes msg (offset + batch_tx_info_tx_type_offset));
  key = get_short_int_from_bytes msg (offset + batch_tx_info_tx_key_offset);
  value = get_short_int_from_bytes msg (offset + batch_tx_info_tx_value_offset);
}

-- `n` rounds from index `i` on, and the offset behind the last block
unfoldable pub put_tx_infos : ℕ → (ℕ → Tx) → ℕ → Buf → ℕ → Buf × ℕ
put_tx_infos zero txs i msg offset = (msg, offset)
put_tx_infos (suc n) txs i msg offset =
    put_tx_infos n txs (suc i) (put_tx_info msg offset (txs i))
      (offset + batch_tx_info_message_size)

-- The result of `batch_add_tx` is dropped.
unfoldable pub get_tx_infos : Tx → ℕ → Buf → ℕ → Batch → Batch
get_tx_infos raw zero msg offset b = b
get_tx_infos raw (suc n) msg offset b =
    get_tx_infos raw n msg (offset + batch_tx_info_message_size)
      (batch_add_tx b (get_tx_info raw msg offset)).0

-- the header: type, epoch and number of transactions
unfoldable pub put_header : Batch → Buf → Buf
put_header b msg =
    let m0 = set_char_to_bytes msg msg_type_offset batch_message in
    let m1 = set_short_int_to_bytes m0 batch_epoch_id_offset b.epoch_id in
    set_short_int_to_bytes m1 batch_tx_num_offset b.tx_num

unfoldable pub create_batch_msg : Batch → Buf → Buf × ℕ
create_batch_msg b msg =
    put_tx_infos (rounds b.tx_num) b.tx_set 0 (put_header b msg) batch_tx_info_offset

unfoldable pub get_info_from_batch_msg : Tx → Buf → Batch → Batch
get_info_from_batch_msg raw msg b =
    get_tx_infos raw (rounds (get_short_int_from_bytes msg batch_tx_num_offset)) msg
      batch_tx_info_offset
      (record b { epoch_id = get_short_int_from_bytes msg batch_epoch_id_offset })

unfoldable pub get_epoch_id_from_batch_meg : Buf → ℕ
get_epoch_id_from_batch_meg msg = int_of_short (get_short_int_from_bytes msg batch_epoch_id_offset)
