-- ===== src/Message/BatchRoundtrip.antt =====
-- What a receiver gets of a batch that was encoded.
use graduation_research_prog.Base.{
  ℕ, ◌+◌, ◌*◌, ◌<◌, ◌≤◌, ◌^◌, ◌≡◌, refl, ◌∙◌, ap, true, [], ◌++◌, map, arith,
}
use graduation_research_prog.Words.{int_of_short}
use graduation_research_prog.Bytes.{
  Buf, set_short_int_to_bytes, get_short_int_from_bytes, set_char_to_bytes,
}
use graduation_research_prog.Tx.{Tx}
use graduation_research_prog.Batch.{Batch, max_batch_size, batch_create, slice, contents}
use graduation_research_prog.Batch.Laws.{AllTx, IsBatch}
use graduation_research_prog.Message.{check_msg, batch_message}
use graduation_research_prog.Message.BatchCodec.{
  put_tx_infos, get_tx_infos, put_header, create_batch_msg, get_info_from_batch_msg,
  get_epoch_id_from_batch_meg,
}
use graduation_research_prog.Message.BatchExtent.{
  SameIn, put_tx_infos_before, put_tx_infos_offset, rounds-eq,
}
use graduation_research_prog.Message.BatchBlocks.{
  arrived, contents-get_tx_infos, epoch_id-get_tx_infos, get_tx_infos_same,
}

-- A buffer that begins with the header of `b` is read as such.
module _ (b : Batch) (msg m : Buf) (same : SameIn 0 5 m (put_header b msg)) where
  type-header : check_msg m batch_message ≡ true
  unfolding check_msg put_header set_short_int_to_bytes set_char_to_bytes
  type-header = ground (arith, same 0)

  epoch-header : b.epoch_id < 2 ^ 16 → get_short_int_from_bytes m 1 ≡ b.epoch_id
  unfolding get_short_int_from_bytes put_header set_short_int_to_bytes set_char_to_bytes
  epoch-header h = ground (arith, same 1, same 2)

  tx_num-header : b.tx_num < 2 ^ 16 → get_short_int_from_bytes m 3 ≡ b.tx_num
  unfolding get_short_int_from_bytes put_header set_short_int_to_bytes set_char_to_bytes
  tx_num-header h = ground (arith, same 3, same 4)

-- what a receiver has made of the buffer `m` after the batch `b` was sent
pub record Received (raw : Tx) (empty : ℕ → Tx) (fresh : ℕ) (m : Buf) (b : Batch) : Type 0 where
  pub typed : check_msg m batch_message ≡ true
  pub epoch : get_epoch_id_from_batch_meg m ≡ int_of_short b.epoch_id
  pub epoch_id : (get_info_from_batch_msg raw m (batch_create empty fresh)).epoch_id ≡ b.epoch_id
  pub txs :
      contents (get_info_from_batch_msg raw m (batch_create empty fresh)) ≡ map arrived (contents b)

empty-IsBatch :
    (empty : ℕ → Tx) (fresh e : ℕ) → IsBatch (record (batch_create empty fresh) { epoch_id = e })
unfolding batch_create
empty-IsBatch empty fresh e = omega arith

contents-fresh :
    (empty : ℕ → Tx) (fresh e : ℕ)
    → contents (record (batch_create empty fresh) { epoch_id = e }) ≡ []
unfolding contents batch_create
contents-fresh empty fresh e = refl

-- the empty batch that the receiver fills
abbrev empty_batch : (ℕ → Tx) → ℕ → ℕ → Batch
empty_batch empty fresh e = record (batch_create empty fresh) { epoch_id = e }

decoded-eq :
    (raw : Tx) (empty : ℕ → Tx) (fresh n e : ℕ) (m : Buf)
    → get_short_int_from_bytes m 3 ≡ n
    → get_short_int_from_bytes m 1 ≡ e
    → n ≤ max_batch_size
    → get_info_from_batch_msg raw m (batch_create empty fresh)
      ≡ get_tx_infos raw n m 5 (empty_batch empty fresh e)
unfolding get_info_from_batch_msg
decoded-eq raw empty fresh n e m hn he fits = rw (hn, he, rounds-eq n fits)

contents-eq : (b : Batch) → IsBatch b → contents b ≡ slice b.tx_set 0 b.tx_num
unfolding contents
contents-eq b v = rw (rounds-eq b.tx_num v.fits)

-- The blocks of `b` behind its header.
abbrev wire : Batch → Buf → Buf × ℕ
wire b msg = put_tx_infos b.tx_num b.tx_set 0 (put_header b msg) 5

create_batch_msg-eq-wire : (b : Batch) (msg : Buf) → IsBatch b → create_batch_msg b msg ≡ wire b msg
unfolding create_batch_msg
create_batch_msg-eq-wire b msg v = rw (rounds-eq b.tx_num v.fits)

module _ (raw : Tx) (empty : ℕ → Tx) (fresh : ℕ) (b : Batch) (msg m : Buf) (v : IsBatch b)
    (same : SameIn 0 (5 + 11 * b.tx_num) m (wire b msg).0) where
  header_same : SameIn 0 5 m (put_header b msg)
  header_same i lo hi =
      same i lo (omega arith) ∙ put_tx_infos_before b.tx_num b.tx_set 0 (put_header b msg) 5 i hi

  blocks_same :
      get_tx_infos raw b.tx_num m 5 (empty_batch empty fresh b.epoch_id)
      ≡ get_tx_infos raw b.tx_num (wire b msg).0 5 (empty_batch empty fresh b.epoch_id)
  blocks_same =
      get_tx_infos_same raw b.tx_num m (wire b msg).0 5 (empty_batch empty fresh b.epoch_id)
        (λ i lo hi. same i (omega arith) hi)

  wire-Received : AllTx b.tx_set 0 b.tx_num → b.epoch_id < 2 ^ 16 → Received raw empty fresh m b
  unfolding get_epoch_id_from_batch_meg
  wire-Received all small =
      let e : get_short_int_from_bytes m 1 ≡ b.epoch_id = epoch-header b msg m header_same small in
      let n : get_short_int_from_bytes m 3 ≡ b.tx_num =
        tx_num-header b msg m header_same (omega (arith, v.fits)) in
      let decoded = decoded-eq raw empty fresh b.tx_num b.epoch_id m n e v.fits in
      record {
        typed = type-header b msg m header_same;
        epoch = rw e;
        epoch_id =
            rw decoded
              (epoch_id-get_tx_infos raw b.tx_num m 5 (empty_batch empty fresh b.epoch_id));
        txs =
            rw (decoded, blocks_same, contents-eq b v)
              (contents-get_tx_infos raw b.tx_num b.tx_set 0 (put_header b msg) 5
                  (empty_batch empty fresh b.epoch_id) all (empty-IsBatch empty fresh b.epoch_id)
                  (rw (contents-fresh empty fresh b.epoch_id) (omega (arith, v.fits)))
                ∙ ap (λ xs. xs ++ map arrived (slice b.tx_set 0 b.tx_num))
                    (contents-fresh empty fresh b.epoch_id));
      }

-- A batch that is within its array, its transactions within their types, is received as it was
-- sent: from any buffer that begins with the bytes of its message a receiver reads the batch's type,
-- its epoch, as an `int` and as a `short`, and exactly its transactions, in order, each with its
-- ids, its type, its key and its value.
pub create_batch_msg-Received :
    (raw : Tx) (empty : ℕ → Tx) (fresh : ℕ) (b : Batch) (msg m : Buf)
    → IsBatch b
    → AllTx b.tx_set 0 b.tx_num
    → b.epoch_id < 2 ^ 16
    → SameIn 0 (create_batch_msg b msg).1 m (create_batch_msg b msg).0
    → Received raw empty fresh m b
create_batch_msg-Received raw empty fresh b msg m v all small same =
    wire-Received raw empty fresh b msg m v
      (λ i lo hi.
        same i lo (
          rw
            (
              create_batch_msg-eq-wire b msg v,
              put_tx_infos_offset b.tx_num b.tx_set 0 (put_header b msg) 5,
            )
            hi)
        ∙ ap (λ (w : Buf × ℕ). w.0 i) (create_batch_msg-eq-wire b msg v))
      all small
