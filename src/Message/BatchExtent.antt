-- ===== src/Message/BatchExtent.antt =====
-- Which bytes of its buffer the batch message writes and reads.
use graduation_research_prog.Base.{ℕ, zero, suc, ◌+◌, ◌*◌, ◌<◌, ◌≤◌, ◌≡◌, refl, ◌∙◌, arith}
use graduation_research_prog.Words.{rounds}
use graduation_research_prog.Bytes.{
  Buf, set_short_int_to_bytes, get_short_int_from_bytes, set_char_to_bytes, get_char_from_bytes,
}
use graduation_research_prog.Tx.{Tx}
use graduation_research_prog.Batch.{Batch, max_batch_size}
use graduation_research_prog.Batch.Laws.{IsBatch}
use graduation_research_prog.Message.BatchCodec.{
  put_tx_info, get_tx_info, put_tx_infos, put_header, create_batch_msg,
}

-- the two arrays hold the same bytes from `lo` up to `hi`
abbrev pub SameIn : ℕ → ℕ → Buf → Buf → Type 0
SameIn lo hi b c = (i : ℕ) → lo ≤ i → i < hi → b i ≡ c i

-- One block leaves what stands before it and behind its 11 bytes.
pub put_tx_info_before :
    (msg : Buf) (off : ℕ) (tx : Tx) (i : ℕ) → i < off → put_tx_info msg off tx i ≡ msg i
unfolding put_tx_info set_short_int_to_bytes set_char_to_bytes
put_tx_info_before msg off tx i h = ground arith

pub put_tx_info_behind :
    (msg : Buf) (off : ℕ) (tx : Tx) (i : ℕ) → off + 11 ≤ i → put_tx_info msg off tx i ≡ msg i
unfolding put_tx_info set_short_int_to_bytes set_char_to_bytes
put_tx_info_behind msg off tx i h = ground arith

pub put_tx_infos_before :
    (n : ℕ) (txs : ℕ → Tx) (k : ℕ) (msg : Buf) (off i : ℕ)
    → i < off
    → (put_tx_infos n txs k msg off).0 i ≡ msg i
unfolding put_tx_infos
put_tx_infos_before zero txs k msg off i h = refl
put_tx_infos_before (suc n) txs k msg off i h =
    put_tx_infos_before n txs (suc k) (put_tx_info msg off (txs k)) (off + 11) i (omega arith)
    ∙ put_tx_info_before msg off (txs k) i h

pub put_tx_infos_behind :
    (n : ℕ) (txs : ℕ → Tx) (k : ℕ) (msg : Buf) (off i : ℕ)
    → off + 11 * n ≤ i
    → (put_tx_infos n txs k msg off).0 i ≡ msg i
unfolding put_tx_infos
put_tx_infos_behind zero txs k msg off i h = refl
put_tx_infos_behind (suc n) txs k msg off i h =
    put_tx_infos_behind n txs (suc k) (put_tx_info msg off (txs k)) (off + 11) i (omega arith)
    ∙ put_tx_info_behind msg off (txs k) i (omega arith)

pub put_tx_infos_offset :
    (n : ℕ) (txs : ℕ → Tx) (k : ℕ) (msg : Buf) (off : ℕ)
    → (put_tx_infos n txs k msg off).1 ≡ off + 11 * n
unfolding put_tx_infos
put_tx_infos_offset zero txs k msg off = omega arith
put_tx_infos_offset (suc n) txs k msg off =
    omega (arith, put_tx_infos_offset n txs (suc k) (put_tx_info msg off (txs k)) (off + 11))

-- A block is read from its 11 bytes alone.
pub get_tx_info_same :
    (raw : Tx) (b c : Buf) (off : ℕ)
    → SameIn off (off + 11) b c
    → get_tx_info raw b off ≡ get_tx_info raw c off
unfolding get_tx_info get_short_int_from_bytes get_char_from_bytes
get_tx_info_same raw b c off h = ground (
  arith,
  h (off + 0),
  h (off + 0 + 1),
  h (off + 2),
  h (off + 2 + 1),
  h (off + 4),
  h (off + 4 + 1),
  h (off + 6),
  h (off + 7),
  h (off + 7 + 1),
  h (off + 9),
  h (off + 9 + 1),
)

pub put_header_behind : (b : Batch) (msg : Buf) (i : ℕ) → 5 ≤ i → put_header b msg i ≡ msg i
unfolding put_header set_short_int_to_bytes set_char_to_bytes
put_header_behind b msg i h = ground arith

pub rounds-eq : (n : ℕ) → n ≤ max_batch_size → rounds n ≡ n
rounds-eq n h = ground arith

-- what `create_batch_msg_extent` says, for all bytes at once
pub create_batch_msg_size :
    (b : Batch) (msg : Buf)
    → IsBatch b
    → let (m, len) = create_batch_msg b msg in
      (len ≡ 5 + 11 * b.tx_num) × (len ≤ 995) × ((i : ℕ) → len ≤ i → m i ≡ msg i)
unfolding create_batch_msg
create_batch_msg_size b msg v = rw (rounds-eq b.tx_num v.fits) (
  omega (arith, size),
  omega (arith, size),
  λ i h.
      put_tx_infos_behind b.tx_num b.tx_set 0 (put_header b msg) 5 i (omega (arith, size))
      ∙ put_header_behind b msg i (omega (arith, size)),
)
  where
    size : (put_tx_infos b.tx_num b.tx_set 0 (put_header b msg) 5).1 ≡ 5 + 11 * b.tx_num
    size = put_tx_infos_offset b.tx_num b.tx_set 0 (put_header b msg) 5

-- The message of a batch that is within its array takes `5 + 11 * tx_num` bytes, at most 995, and no byte behind them is written.
pub create_batch_msg_extent :
    (b : Batch) (msg : Buf) (i : ℕ)
    → IsBatch b
    → (create_batch_msg b msg).1 ≤ i
    → let (m, len) = create_batch_msg b msg in
      (len ≡ 5 + 11 * b.tx_num) × (len ≤ 995) × (m i ≡ msg i)
create_batch_msg_extent b msg i v h =
    let (size, bound, behind) = create_batch_msg_size b msg v in (size, bound, behind i h)
