-- ===== src/Batch/Tests.antt =====
-- Examples of batch/batch.c.
use graduation_research_prog.Base.{◌≡◌, [], ◌∷◌, ◌++◌, length, if◌then◌else◌, ltb}
use graduation_research_prog.Samples.{tx_of, batch_of, batch_of-IsSound}
use graduation_research_prog.Batch.{max_batch_size, batch_add_tx, contents}
use graduation_research_prog.Batch.Laws.{contents-batch_add_tx}

contents-batch_add_tx_example :
    let (b, done) = batch_add_tx (batch_of 5) (tx_of 4) in
    (done ≡ ltb (length (contents (batch_of 5))) max_batch_size)
    × (contents b
        ≡ (if done then contents (batch_of 5) ++ (tx_of 4 ∷ []) else contents (batch_of 5)))
    × (b.epoch_id ≡ (batch_of 5).epoch_id)
contents-batch_add_tx_example =
    contents-batch_add_tx (batch_of 5) (tx_of 4) (batch_of-IsSound 5).size
