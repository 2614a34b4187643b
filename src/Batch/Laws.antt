-- ===== src/Batch/Laws.antt =====
-- A batch is a bounded list that grows at its end.
use graduation_research_prog.Base.{
  ℕ, zero, suc, ◌+◌, ◌≤◌, ◌<◌, ◌≡◌, ◌==◌, refl, ap, ap₂, true, false, [], ◌∷◌, ◌++◌, length, arith,
  if◌then◌else◌, ltb,
}
use graduation_research_prog.Tx.{Tx}
use graduation_research_prog.Tx.Laws.{IsTx}
use native.Mathlib.Decide.{dec_lt}
use graduation_research_prog.Batch.{
  Batch, max_batch_size, batch_create, batch_add_tx, put_tx, slice, contents,
}

-- The counter is within the array.
pub record IsBatch (b : Batch) : Type 0 where
  pub fits : b.tx_num ≤ max_batch_size

pub batch_create-IsBatch : (raw : ℕ → Tx) (epoch_id : ℕ) → IsBatch (batch_create raw epoch_id)
unfolding batch_create
batch_create-IsBatch raw epoch_id = omega arith

-- A slice that ends before an index is not changed by a write there.
pub slice-put_tx_behind :
    (n : ℕ) (txs : ℕ → Tx) (i at : ℕ) (tx : Tx)
    → i + n ≤ at
    → slice (put_tx txs at tx) i n ≡ slice txs i n
unfolding slice put_tx
slice-put_tx_behind zero txs i at tx h = refl
slice-put_tx_behind (suc n) txs i at tx h =
    ap₂ ◌∷◌ (ground arith) (slice-put_tx_behind n txs (suc i) at tx (omega arith))

-- A write just behind a slice extends it.
pub slice-put_tx :
    (n : ℕ) (txs : ℕ → Tx) (i at : ℕ) (tx : Tx)
    → at ≡ i + n
    → slice (put_tx txs at tx) i (suc n) ≡ slice txs i n ++ (tx ∷ [])
unfolding slice put_tx
slice-put_tx zero txs i at tx h = ground arith
slice-put_tx (suc n) txs i at tx h =
    ap₂ ◌∷◌ (ground arith) (slice-put_tx n txs (suc i) at tx (omega arith))

pub length-slice : (n : ℕ) (txs : ℕ → Tx) (i : ℕ) → length (slice txs i n) ≡ n
unfolding slice
length-slice zero txs i = refl
length-slice (suc n) txs i = ap suc (length-slice n txs (suc i))

-- `batch_add_tx` keeps the counter within the array, on both branches.
pub batch_add_tx-IsBatch : {b : Batch} (tx : Tx) → IsBatch b → IsBatch (batch_add_tx b tx).0
unfolding batch_add_tx
batch_add_tx-IsBatch tx v = ground arith

-- Adding to a valid batch appends exactly the transaction and keeps the epoch if there is room for
-- it, and otherwise reports failure and changes nothing.
pub contents-batch_add_tx :
    (b : Batch) (tx : Tx)
    → IsBatch b
    → let (b', done) = batch_add_tx b tx in
      (done ≡ ltb (length (contents b)) max_batch_size)
      × (contents b' ≡ (if done then contents b ++ (tx ∷ []) else contents b))
      × (b'.epoch_id ≡ b.epoch_id)
unfolding batch_add_tx contents
contents-batch_add_tx b tx v =
    ground (arith, slice-put_tx b.tx_num b.tx_set 0 b.tx_num tx, length-slice b.tx_num b.tx_set 0)

-- each of the `n` transactions from index `i` on fits its members
abbrev pub AllTx : (ℕ → Tx) → ℕ → ℕ → Type 0
AllTx txs i zero = Unit
AllTx txs i (suc n) = IsTx (txs i) × AllTx txs (suc i) n

pub AllTx-put_tx :
    (n : ℕ) (txs : ℕ → Tx) (i at : ℕ) (tx : Tx)
    → at ≡ i + n
    → IsTx tx
    → AllTx txs i n
    → AllTx (put_tx txs at tx) i (suc n)
unfolding put_tx
AllTx-put_tx zero txs i at tx e t all =
    let same : (at == i) ≡ true = ground arith in (rw same t, tt)
AllTx-put_tx (suc n) txs i at tx e t all =
    let apart : (at == i) ≡ false = ground arith in
    (rw apart all.0, AllTx-put_tx n txs (suc i) at tx (omega arith) t all.1)

-- A batch that can be encoded: it is within its array, and so are its transactions within theirs.
pub record IsSound (b : Batch) : Type 0 where
  pub size : IsBatch b
  pub txs : AllTx b.tx_set 0 b.tx_num

pub batch_create-IsSound : (raw : ℕ → Tx) (epoch_id : ℕ) → IsSound (batch_create raw epoch_id)
unfolding batch_create
batch_create-IsSound raw epoch_id = record { size = omega arith; txs = tt }

-- what a batch with room becomes
pub batch_add_tx-room :
    (b : Batch) (tx : Tx)
    → b.tx_num < max_batch_size
    → batch_add_tx b tx
      ≡ (record b { tx_set = put_tx b.tx_set b.tx_num tx; tx_num = suc b.tx_num }, true)
unfolding batch_add_tx
batch_add_tx-room b tx h = ground arith

pub batch_add_tx-full :
    (b : Batch) (tx : Tx) → b.tx_num ≡ max_batch_size → batch_add_tx b tx ≡ (b, false)
unfolding batch_add_tx
batch_add_tx-full b tx h = ground arith

pub batch_add_tx-IsSound :
    {b : Batch} (tx : Tx) → IsTx tx → IsSound b → IsSound (batch_add_tx b tx).0
batch_add_tx-IsSound {b} tx t v = elim (dec_lt b.tx_num max_batch_size) [
  | yes h ↦ rw (batch_add_tx-room b tx h) (record {
    size = omega (arith, v.size.fits);
    txs = AllTx-put_tx b.tx_num b.tx_set 0 b.tx_num tx (omega arith) t v.txs;
  })
  | no h ↦ rw (batch_add_tx-full b tx (omega (arith, v.size.fits))) v
]
