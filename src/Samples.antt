-- ===== src/Samples.antt =====
-- Values that the tests and examples of the components share.
use graduation_research_prog.Base.{ℕ, ◌≡◌, refl, some, [], ◌∷◌, arith}
use graduation_research_prog.Words.{short_minus_one}
use graduation_research_prog.Bytes.{Buf}
use graduation_research_prog.Bytes.Access.{IsBytes}
use graduation_research_prog.Tx.{Tx, write_only}
use graduation_research_prog.Tx.Laws.{IsTx}
use graduation_research_prog.Batch.{Batch, batch_create, batch_add_tx}
use graduation_research_prog.Batch.Laws.{IsSound, batch_create-IsSound, batch_add_tx-IsSound}
use graduation_research_prog.Network.{Datagram}
use graduation_research_prog.Message.BatchCodec.{create_batch_msg}
use graduation_research_prog.Message.BatchBlocks.{epoch_id-batch_add_tx}
use graduation_research_prog.Log.{Answers, batch_log_size}
use graduation_research_prog.Log.Loops.{Serves}

abbrev pub zeros : Buf
zeros i = 0

pub zeros-IsBytes : IsBytes zeros
zeros-IsBytes i = omega arith

-- client 2 of replica 1 writes 7 at the key 4
abbrev pub tx_of : ℕ → Tx
tx_of id = record {
  replica_id = 1;
  client_id = 2;
  id = id;
  type = write_only;
  key = 4;
  value = 7;
  assigned_epoch_id = short_minus_one;
  complete_flag = 0;
}

pub three-IsTx : IsTx (tx_of 3)
three-IsTx = omega arith

pub nine-IsTx : IsTx (tx_of 9)
nine-IsTx = omega arith

abbrev pub raw_set : ℕ → Tx
raw_set i = tx_of 0

-- a batch of one transaction
abbrev pub batch_of : ℕ → Batch
batch_of epoch_id = (batch_add_tx (batch_create raw_set epoch_id) (tx_of 3)).0

pub batch_of-IsSound : (epoch_id : ℕ) → IsSound (batch_of epoch_id)
batch_of-IsSound epoch_id =
    batch_add_tx-IsSound (tx_of 3) three-IsTx (batch_create-IsSound raw_set epoch_id)

pub epoch_id-batch_of : (epoch_id : ℕ) → (batch_of epoch_id).epoch_id ≡ epoch_id
unfolding batch_create
epoch_id-batch_of epoch_id = epoch_id-batch_add_tx (batch_create raw_set epoch_id) (tx_of 3)

-- the calls move 1000 bytes, then the 24 that are left
abbrev pub in_two : Answers
in_two = some 1000 ∷ some 24 ∷ []

pub in_two-Serves : Serves batch_log_size 0 in_two
in_two-Serves = (omega arith, (omega arith, refl))

-- as much as the master sends of a batch
abbrev pub datagram_of : Batch → Datagram
datagram_of b = record { bytes = (create_batch_msg b zeros).0; len = 1024 }
