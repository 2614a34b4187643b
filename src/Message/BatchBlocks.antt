-- ===== src/Message/BatchBlocks.antt =====
-- Blocks of the batch message: each is read back as it was written, and reading is safe.
use mathlib.Core.List.{append-nil, append_assoc}
use graduation_research_prog.Base.{
  ℕ, zero, suc, ◌+◌, ◌*◌, ◌≤◌, ◌≡◌, refl, ◌∙◌, sym, ap, [], ◌∷◌, ◌++◌, map, arith, length,
  length-append,
}
use graduation_research_prog.Words.{rounds, short_minus_one}
use graduation_research_prog.Bytes.{
  Buf, set_short_int_to_bytes, get_short_int_from_bytes, set_char_to_bytes, get_char_from_bytes,
}
use graduation_research_prog.Tx.{Tx}
use graduation_research_prog.Tx.Laws.{IsTx}
use graduation_research_prog.Batch.{
  Batch, max_batch_size, batch_create, batch_add_tx, slice, contents,
}
use graduation_research_prog.Batch.Laws.{
  AllTx, IsBatch, batch_add_tx-IsBatch, contents-batch_add_tx,
}
use graduation_research_prog.Message.BatchCodec.{
  put_tx_info, get_tx_info, put_tx_infos, get_tx_infos, get_info_from_batch_msg,
}
use graduation_research_prog.Message.BatchExtent.{SameIn, put_tx_infos_before, get_tx_info_same}

-- a transaction as it arrives: the epoch and the flag are those of a new one
abbrev pub arrived : Tx → Tx
arrived tx = record tx { assigned_epoch_id = short_minus_one; complete_flag = 0 }

-- The six members of a block, each read where it was written.
module _ (raw tx : Tx) (msg : Buf) (off : ℕ) (v : IsTx tx) where
  abbrev got : Tx
  got = get_tx_info raw (put_tx_info msg off tx) off

  replica_id-got : got.replica_id ≡ tx.replica_id
  unfolding get_tx_info put_tx_info set_short_int_to_bytes set_char_to_bytes
      get_short_int_from_bytes
  replica_id-got = ground arith

  client_id-got : got.client_id ≡ tx.client_id
  unfolding get_tx_info put_tx_info set_short_int_to_bytes set_char_to_bytes
      get_short_int_from_bytes
  client_id-got = ground arith

  id-got : got.id ≡ tx.id
  unfolding get_tx_info put_tx_info set_short_int_to_bytes set_char_to_bytes
      get_short_int_from_bytes
  id-got = ground arith

  type-got : got.type ≡ tx.type
  unfolding get_tx_info put_tx_info set_short_int_to_bytes set_char_to_bytes get_char_from_bytes
  type-got = ground arith

  key-got : got.key ≡ tx.key
  unfolding get_tx_info put_tx_info set_short_int_to_bytes set_char_to_bytes
      get_short_int_from_bytes
  key-got = ground arith

  value-got : got.value ≡ tx.value
  unfolding get_tx_info put_tx_info set_short_int_to_bytes set_char_to_bytes
      get_short_int_from_bytes
  value-got = ground arith

  pub get_tx_info-put_tx_info : got ≡ arrived tx
  unfolding get_tx_info
  get_tx_info-put_tx_info = λ i. record {
    replica_id = replica_id-got i;
    client_id = client_id-got i;
    id = id-got i;
    type = type-got i;
    key = key-got i;
    value = value-got i;
    assigned_epoch_id = short_minus_one;
    complete_flag = 0;
  }

-- the blocks of `n` transactions, decoded onto a batch with room for them
pub contents-get_tx_infos :
    (raw : Tx) (n : ℕ) (txs : ℕ → Tx) (i : ℕ) (msg : Buf) (off : ℕ) (b : Batch)
    → AllTx txs i n
    → IsBatch b
    → length (contents b) + n ≤ max_batch_size
    → contents (get_tx_infos raw n (put_tx_infos n txs i msg off).0 off b)
      ≡ contents b ++ map arrived (slice txs i n)
unfolding get_tx_infos put_tx_infos slice
contents-get_tx_infos raw zero txs i msg off b all v room = sym (append-nil (contents b))
contents-get_tx_infos raw (suc n) txs i msg off b all v room = rw first (
    contents-get_tx_infos raw n txs (suc i) block (off + 11) (batch_add_tx b (arrived (txs i))).0
      all.1 (batch_add_tx-IsBatch (arrived (txs i)) v)
      (rw grown (omega (arith, length-append (contents b) (arrived (txs i) ∷ []))))
    ∙ ap (λ xs. xs ++ map arrived (slice txs (suc i) n)) grown
    ∙ append_assoc (contents b) (arrived (txs i) ∷ []) (map arrived (slice txs (suc i) n)))
  where
    block : Buf
    block = put_tx_info msg off (txs i)

    first : get_tx_info raw (put_tx_infos n txs (suc i) block (off + 11)).0 off ≡ arrived (txs i)
    first =
        get_tx_info_same raw (put_tx_infos n txs (suc i) block (off + 11)).0 block off
          (λ j lo hi. put_tx_infos_before n txs (suc i) block (off + 11) j hi)
        ∙ get_tx_info-put_tx_info raw (txs i) msg off all.0

    grown : contents (batch_add_tx b (arrived (txs i))).0 ≡ contents b ++ (arrived (txs i) ∷ [])
    grown = ground (arith, contents-batch_add_tx b (arrived (txs i)) v)

-- Reading blocks keeps the counter within the array, whatever the bytes.
pub get_tx_infos-IsBatch :
    (raw : Tx) (n : ℕ) (msg : Buf) (off : ℕ) (b : Batch)
    → IsBatch b
    → IsBatch (get_tx_infos raw n msg off b)
unfolding get_tx_infos
get_tx_infos-IsBatch raw zero msg off b v = v
get_tx_infos-IsBatch raw (suc n) msg off b v =
    get_tx_infos-IsBatch raw n msg (off + 11) (batch_add_tx b (get_tx_info raw msg off)).0
      (batch_add_tx-IsBatch (get_tx_info raw msg off) v)

pub epoch_id-batch_add_tx : (b : Batch) (tx : Tx) → (batch_add_tx b tx).0.epoch_id ≡ b.epoch_id
unfolding batch_add_tx
epoch_id-batch_add_tx b tx = ground arith

pub epoch_id-get_tx_infos :
    (raw : Tx) (n : ℕ) (msg : Buf) (off : ℕ) (b : Batch)
    → (get_tx_infos raw n msg off b).epoch_id ≡ b.epoch_id
unfolding get_tx_infos
epoch_id-get_tx_infos raw zero msg off b = refl
epoch_id-get_tx_infos raw (suc n) msg off b =
    epoch_id-get_tx_infos raw n msg (off + 11) (batch_add_tx b (get_tx_info raw msg off)).0
    ∙ epoch_id-batch_add_tx b (get_tx_info raw msg off)

-- Blocks are read from their own bytes alone.
pub get_tx_infos_same :
    (raw : Tx) (n : ℕ) (m c : Buf) (off : ℕ) (b : Batch)
    → SameIn off (off + 11 * n) m c
    → get_tx_infos raw n m off b ≡ get_tx_infos raw n c off b
unfolding get_tx_infos
get_tx_infos_same raw zero m c off b h = refl
get_tx_infos_same raw (suc n) m c off b h =
    rw (get_tx_info_same raw m c off (λ i lo hi. h i lo (omega arith))) (
      get_tx_infos_same raw n m c (off + 11) (batch_add_tx b (get_tx_info raw c off)).0
        (λ i lo hi. h i (omega arith) (omega arith)))

-- The epoch of a decoded batch is the one of the header.
pub epoch_id-get_info :
    (raw : Tx) (m : Buf) (b : Batch)
    → (get_info_from_batch_msg raw m b).epoch_id ≡ get_short_int_from_bytes m 1
unfolding get_info_from_batch_msg
epoch_id-get_info raw m b =
    epoch_id-get_tx_infos raw (rounds (get_short_int_from_bytes m 3)) m 5
      (record b { epoch_id = get_short_int_from_bytes m 1 })

-- Whatever the bytes, what is decoded into a new batch stays within its array of 90 transactions.
pub get_info-IsBatch :
    (raw : Tx) (empty : ℕ → Tx) (fresh : ℕ) (m : Buf)
    → IsBatch (get_info_from_batch_msg raw m (batch_create empty fresh))
unfolding get_info_from_batch_msg batch_create
get_info-IsBatch raw empty fresh m =
    get_tx_infos-IsBatch raw (rounds (get_short_int_from_bytes m 3)) m 5
      (record (batch_create empty fresh) { epoch_id = get_short_int_from_bytes m 1 }) (omega arith)
