-- ===== src/Batch.antt =====
-- batch/batch.h and batch/batch.c: a batch of the transactions of one epoch.
-- `tx_set` is an array of pointers, each to a transaction that only this batch holds, so the model
-- keeps the transactions in the array. What stands in the array behind `tx_num` is never read.
pub mod Laws
mod Tests
use graduation_research_prog.Base.{
  ℕ, zero, suc, ◌+◌, ◌==◌, Bool, true, false, List, [], ◌∷◌, if◌then◌else◌,
}
use graduation_research_prog.Words.{int_of_short, int_lt, short_inc, rounds}
use graduation_research_prog.Tx.{Tx}

abbrev pub max_batch_size : ℕ
max_batch_size = 90

pub record Batch : Type 0 where
  pub epoch_id : ℕ
  pub tx_num : ℕ
  pub tx_set : ℕ → Tx

-- `raw` is what `malloc` left in the array
unfoldable pub batch_create : (ℕ → Tx) → ℕ → Batch
batch_create raw epoch_id = record { epoch_id = epoch_id; tx_num = 0; tx_set = raw }

unfoldable pub put_tx : (ℕ → Tx) → ℕ → Tx → ℕ → Tx
put_tx txs i tx j = if i == j then tx else txs j

-- The flag is the result: 1 is `true`.
unfoldable pub batch_add_tx : Batch → Tx → Batch × Bool
unfolding put_tx
batch_add_tx b tx =
    if int_lt (int_of_short b.tx_num) max_batch_size
    then (record b { tx_set = put_tx b.tx_set b.tx_num tx; tx_num = short_inc b.tx_num }, true)
    else (b, false)

-- `n` transactions from index `i` on
unfoldable pub slice : (ℕ → Tx) → ℕ → ℕ → List Tx
slice txs i zero = []
slice txs i (suc n) = txs i ∷ slice txs (suc i) n

-- the transactions that a batch stands for, in order
unfoldable pub contents : Batch → List Tx
unfolding slice
contents b = slice b.tx_set 0 (rounds b.tx_num)
