-- ===== src/System/Run.antt =====
-- A run of the master that examples share: one transaction is added, and its epoch is determined.
use graduation_research_prog.Base.{◌≡◌, refl, true, none, some, [], ◌∷◌, arith}
use graduation_research_prog.Samples.{zeros, tx_of, three-IsTx, raw_set, in_two, in_two-Serves}
use graduation_research_prog.Batch.{contents, slice, batch_add_tx, batch_create, put_tx}
use graduation_research_prog.Master.{
  Master, Env as MasterEnv, master_startup, sequencer_add_write_tx_to_batch, swap_batch,
}
use graduation_research_prog.Master.Epochs.{
  Reach, Step, here, next, add, swap, confirm, confirmed, confirm_batch_lem, Reach-IsMaster,
  rev_batch-add,
}
use graduation_research_prog.Slave.Delivery.{CanLog}
use graduation_research_prog.Slave.State.{Env}
use graduation_research_prog.System.{here}

abbrev pub master_env : MasterEnv
master_env = record { opened = true; answers = in_two; stack = zeros; raw_set = raw_set }

abbrev pub slave_env : Env
slave_env = record {
  opened = true;
  answers = in_two;
  stack = zeros;
  raw_tx = tx_of 0;
  raw_set = raw_set;
}

pub slave_env-CanLog : CanLog slave_env
slave_env-CanLog = record { opened = refl; serves = in_two-Serves }

abbrev pub start : Master
start = master_startup raw_set zeros

abbrev pub added : Master
added = (sequencer_add_write_tx_to_batch start (tx_of 3)).0

abbrev pub swapped : Master
swapped = swap_batch master_env added

rev_batch-swapped : swapped.rev_batch ≡ some added.batch
unfolding swap_batch
rev_batch-swapped = refl

rev_batch-added : added.rev_batch ≡ none
unfolding master_startup
rev_batch-added = rev_batch-add start (tx_of 3)

pub added_step : Step start 0 added 0
added_step = add (tx_of 3) three-IsTx

pub swapped_step : Step added 0 swapped 0
swapped_step = swap master_env rev_batch-added (omega arith)

reach_swapped : Reach start swapped 0
reach_swapped = next (next here added_step) swapped_step

pub determined :
    (m : Master) × Step swapped 0 m 1 × Reach start m 1 × (m.write_tx_buffer ≡ added.batch ∷ [])
unfolding swap_batch master_startup sequencer_add_write_tx_to_batch batch_create
determined =
    let (f, runs, valid) =
      confirm_batch_lem swapped 0 master_env added.batch
        (Reach-IsMaster raw_set zeros reach_swapped) rev_batch-swapped (omega arith) refl
        in_two-Serves in
    let st : Step swapped 0 (confirmed swapped added.batch f) 1 =
      confirm master_env added.batch (confirmed swapped added.batch f) rev_batch-swapped
        (omega arith) refl in_two-Serves runs in
    (confirmed swapped added.batch f, st, next reach_swapped st, refl)

-- the one transaction
pub contents-added : contents added.batch ≡ tx_of 3 ∷ []
unfolding contents slice sequencer_add_write_tx_to_batch master_startup batch_add_tx batch_create
    put_tx
contents-added = refl
