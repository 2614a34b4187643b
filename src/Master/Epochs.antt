-- ===== src/Master/Epochs.antt =====
-- The master's epochs: each determined batch is in the log, and the scheduler gets them in order.
use mathlib.Core.List.{map-append}
use graduation_research_prog.Base.{
  ℕ, suc, ◌<◌, ◌^◌, ◌≡◌, ◌≢◌, refl, sym, ap, ap₂, subst, ◌∙◌, inl, inr, Bool, true, Option, none,
  some, List, [], ◌∷◌, ◌++◌, map, upto, length, length-upto, length-map, get_elem?, get_elem?-snoc,
  get_elem?-bound, arith,
}
use graduation_research_prog.Words.{int_inc, int_of_short}
use graduation_research_prog.Outcome.{Outcome, done, and_then, done-injective}
use graduation_research_prog.Bytes.{Buf}
use graduation_research_prog.Tx.{Tx}
use graduation_research_prog.Batch.{Batch, batch_create, batch_add_tx}
use graduation_research_prog.Batch.Laws.{IsBatch, IsSound, batch_add_tx-IsSound}
use graduation_research_prog.Tx.Laws.{IsTx}
use graduation_research_prog.Log.{File, batch_log_size, open_create, overrun, append_log}
use graduation_research_prog.Log.Loops.{Serves}
use graduation_research_prog.Log.Append.{Holds, append_log-Holds}
use graduation_research_prog.Message.BatchCodec.{create_batch_msg}
use graduation_research_prog.Message.BatchExtent.{create_batch_msg_size}
use graduation_research_prog.Message.BatchBlocks.{epoch_id-batch_add_tx}
use graduation_research_prog.Master.{
  Master, Env, master_startup, sequencer_add_write_tx_to_batch, swap_batch, log_batch,
  determine_epoch, queue_batch, confirm_batch,
}

-- the batch that is being replaced, if any, and the current one have the next epochs
abbrev pub Pending : Master → ℕ → Option Batch → Type 0
Pending m d none = m.batch.epoch_id ≡ d
Pending m d (some b) = IsSound b × (b.epoch_id ≡ d) × (m.batch.epoch_id ≡ suc d)

-- the record of epoch `e` is the encoding of `b`
abbrev pub Logged : Master → ℕ → Batch → Type 0
Logged m e b =
    (msg : Buf) × Holds (open_create m.batch_log) e (create_batch_msg b msg).1
      (create_batch_msg b msg).0

-- `d` epochs are determined
pub record IsMaster (m : Master) (d : ℕ) : Type 0 where
  pub determined : int_inc m.determined_epoch_id ≡ d
  pub queued : map (λ (b : Batch). b.epoch_id) m.write_tx_buffer ≡ upto d
  pub current : IsSound m.batch
  pub pending : Pending m d m.rev_batch
  pub logged :
      (e : ℕ) (b : Batch) → get_elem? m.write_tx_buffer e ≡ some b → IsSound b × Logged m e b

pub master_startup-IsMaster :
    (raw_set : ℕ → Tx) (msg : Buf) → IsMaster (master_startup raw_set msg) 0
unfolding master_startup batch_create
master_startup-IsMaster raw_set msg = record {
  determined = refl;
  queued = refl;
  current = record { size = omega arith; txs = tt };
  pending = refl;
  logged = λ e b h. cc;
}

-- A step of one of the master's threads, with `d` epochs determined before and `e` after. The
-- epochs of the run are `short`s that are not negative, and the log can be opened and written.
pub data Step (m : Master) (d : ℕ) : Master → ℕ → Type 0 where
  add : (tx : Tx) → IsTx tx → Step m d (sequencer_add_write_tx_to_batch m tx).0 d
  swap : (env : Env) → m.rev_batch ≡ none → suc d < 2 ^ 15 → Step m d (swap_batch env m) d
  confirm :
      (env : Env) (b : Batch) (m' : Master)
      → m.rev_batch ≡ some b
      → suc d < 2 ^ 15
      → env.opened ≡ true
      → Serves batch_log_size 0 env.answers
      → confirm_batch env m ≡ done m'
      → Step m d m' (suc d)

pub data Reach (m : Master) : Master → ℕ → Type 0 where
  here : Reach m m 0
  next : {t u : Master} {d e : ℕ} → Reach m t d → Step t d u e → Reach m u e

-- what `sequencer_add_write_tx_to_batch` does to the shared batch, and that it does nothing else
pub batch-sequencer_add :
    (m : Master) (tx : Tx)
    → IsBatch m.batch
    → sequencer_add_write_tx_to_batch m tx
      ≡ (record m { batch = (batch_add_tx m.batch tx).0 }, (batch_add_tx m.batch tx).1)
unfolding sequencer_add_write_tx_to_batch batch_add_tx
batch-sequencer_add m tx v = ground arith

pub rev_batch-add :
    (m : Master) (tx : Tx) → (sequencer_add_write_tx_to_batch m tx).0.rev_batch ≡ m.rev_batch
unfolding sequencer_add_write_tx_to_batch
rev_batch-add m tx = ground arith

add-IsMaster :
    (m : Master) (d : ℕ) (tx : Tx)
    → IsTx tx
    → IsMaster m d
    → IsMaster (sequencer_add_write_tx_to_batch m tx).0 d
add-IsMaster m d tx t v = rw (batch-sequencer_add m tx v.current.size) (record {
  determined = v.determined;
  queued = v.queued;
  current = batch_add_tx-IsSound tx t v.current;
  pending = pending m.rev_batch v.pending;
  logged = v.logged;
})
  where
    pending :
        (r : Option Batch)
        → Pending m d r
        → Pending (record m { batch = (batch_add_tx m.batch tx).0 }) d r
    pending none p = epoch_id-batch_add_tx m.batch tx ∙ p
    pending (some b) p = (p.0, p.1, epoch_id-batch_add_tx m.batch tx ∙ p.2)

swap-IsMaster :
    (m : Master) (d : ℕ) (env : Env)
    → IsMaster m d
    → m.rev_batch ≡ none
    → suc d < 2 ^ 15
    → IsMaster (swap_batch env m) d
unfolding swap_batch batch_create
swap-IsMaster m d env v e small = record {
  determined = v.determined;
  queued = v.queued;
  current = record { size = omega arith; txs = tt };
  pending = (v.current, rw e at v.pending, omega (arith, v.determined));
  logged = v.logged;
}

-- the master once the batch `b` is in the log `f`
abbrev pub confirmed : Master → Batch → File → Master
confirmed m b f = record m {
  batch_log = some f;
  determined_epoch_id = int_inc m.determined_epoch_id;
  write_tx_buffer = m.write_tx_buffer ++ (b ∷ []);
  batch_msg = (create_batch_msg b m.batch_msg).0;
  rev_batch = none;
}

pub length-queue : (m : Master) (d : ℕ) → IsMaster m d → length m.write_tx_buffer ≡ d
length-queue m d v =
    sym (length-map (λ (b : Batch). b.epoch_id) m.write_tx_buffer)
    ∙ ap length v.queued
    ∙ length-upto d

-- the master once the batch `b` is in the log `f`, and its epoch not yet determined
abbrev pub logged_in : Master → Batch → File → Master
logged_in m b f = record m { batch_log = some f; batch_msg = (create_batch_msg b m.batch_msg).0 }

log_batch-done :
    (m : Master) (env : Env) (b : Batch) (d : ℕ) (f : File) (over : ℕ)
    → env.opened ≡ true
    → int_of_short b.epoch_id ≡ d
    → append_log true env.answers env.stack m.batch_log
        (create_batch_msg b m.batch_msg).0
        (create_batch_msg b m.batch_msg).1
        d
      ≡ done (f, over)
    → log_batch env b m ≡ done (logged_in m b f)
unfolding log_batch
log_batch-done m env b d f over o e runs =
    ap₂ append o e ∙ ap (λ (w : Outcome (File × ℕ)). and_then w finish) runs
  where
    finish : File × ℕ → Outcome Master
    finish (g, _) = done (logged_in m b g)

    append : Bool → ℕ → Outcome Master
    append opened epoch =
        and_then
          (append_log opened env.answers env.stack m.batch_log (create_batch_msg b m.batch_msg).0
            (create_batch_msg b m.batch_msg).1 epoch)
          finish

confirm_batch-done :
    (m : Master) (env : Env) (b : Batch) (f : File)
    → m.rev_batch ≡ some b
    → log_batch env b m ≡ done (logged_in m b f)
    → confirm_batch env m ≡ done (confirmed m b f)
unfolding confirm_batch determine_epoch queue_batch
confirm_batch-done m env b f r logs =
    ap step r ∙ ap (λ w. and_then w (λ l. done (queue_batch b (determine_epoch l)))) logs
  where
    step : Option Batch → Outcome Master
    step p = elim p [
      | none ↦ done m
      | some c ↦
          and_then (log_batch env c m) (λ logged. done (queue_batch c (determine_epoch logged)))
    ]

-- Between the log record and the determination of its epoch the master is valid with as many determined
-- epochs as before: it has every record that it had, and that of the replaced batch too.
pub log_batch_lem :
    (m : Master) (d : ℕ) (env : Env) (b : Batch)
    → IsMaster m d
    → m.rev_batch ≡ some b
    → suc d < 2 ^ 15
    → env.opened ≡ true
    → Serves batch_log_size 0 env.answers
    → (f : File) × (log_batch env b m ≡ done (logged_in m b f)) × IsMaster (logged_in m b f) d
unfolding open_create
log_batch_lem m d env b v r small o s =
    let p : Pending m d (some b) = rw r at v.pending in
    let (size, bound, outside) = create_batch_msg_size b m.batch_msg p.0.size in
    let epoch : int_of_short b.epoch_id ≡ d = rw p.1 (ground arith) in
    let (f, runs, held, others) =
      append_log-Holds env.answers env.stack m.batch_log (create_batch_msg b m.batch_msg).0
        (create_batch_msg b m.batch_msg).1 d (omega arith) (omega arith) s in
    (
      f,
      log_batch-done m env b d f (overrun (create_batch_msg b m.batch_msg).1) o epoch runs,
      record {
        determined = v.determined;
        queued = v.queued;
        current = v.current;
        pending = v.pending;
        logged = λ e c h.
            let (sound, (msg, kept)) = v.logged e c h in
            let ne : e ≢ d =
              omega (arith, get_elem?-bound m.write_tx_buffer e h, length-queue m d v) in
            (sound, (msg, others e _ _ ne kept));
      },
    )

-- Of a master that is valid with `d` epochs determined, `d + 1` below 2 ^ 15, and has a replaced batch: if `open` succeeds
-- and the calls of `write` serve, `confirm_batch` returns, `d + 1` epochs are then determined, and
-- the master is valid again: the batch is queued, and in the log beside every batch from before.
pub confirm_batch_lem :
    (m : Master) (d : ℕ) (env : Env) (b : Batch)
    → IsMaster m d
    → m.rev_batch ≡ some b
    → suc d < 2 ^ 15
    → env.opened ≡ true
    → Serves batch_log_size 0 env.answers
    → (f : File) × (confirm_batch env m ≡ done (confirmed m b f))
      × IsMaster (confirmed m b f) (suc d)
unfolding open_create
confirm_batch_lem m d env b v r small o s =
    let p : Pending m d (some b) = rw r at v.pending in
    let (size, bound, outside) = create_batch_msg_size b m.batch_msg p.0.size in
    let epoch : int_of_short b.epoch_id ≡ d = rw p.1 (ground arith) in
    let (f, runs, held, others) =
      append_log-Holds env.answers env.stack m.batch_log (create_batch_msg b m.batch_msg).0
        (create_batch_msg b m.batch_msg).1 d (omega arith) (omega arith) s in
    (
      f,
      confirm_batch-done m env b f r
          (log_batch-done m env b d f (overrun (create_batch_msg b m.batch_msg).1) o epoch runs),
      record {
        determined = omega (arith, v.determined);
        queued =
            map-append (λ (c : Batch). c.epoch_id) m.write_tx_buffer (b ∷ [])
            ∙ ap₂ (λ (xs : List ℕ) (i : ℕ). xs ++ (i ∷ [])) v.queued p.1;
        current = v.current;
        pending = p.2;
        logged = λ e c h. elim (get_elem?-snoc m.write_tx_buffer b c e h) [
          | inl old ↦
              let (sound, (msg, kept)) = v.logged e c old in
              let ne : e ≢ d =
                omega (arith, get_elem?-bound m.write_tx_buffer e old, length-queue m d v) in
              (sound, (msg, others e _ _ ne kept))
          | inr (at, same) ↦ rw (at ∙ length-queue m d v, ← same) (p.0, (m.batch_msg, held))
        ];
      },
    )

pub Step-IsMaster : {m m' : Master} {d e : ℕ} → Step m d m' e → IsMaster m d → IsMaster m' e
Step-IsMaster {m} {d} (add tx t) v = add-IsMaster m d tx t v
Step-IsMaster {m} {d} (swap env r small) v = swap-IsMaster m d env v r small
Step-IsMaster {m} {d} (confirm env b m' r small o s runs) v =
    let (f, done_f, w) = confirm_batch_lem m d env b v r small o s in
    subst (λ x. IsMaster x (suc d)) (done-injective (sym done_f ∙ runs)) w

-- From the start, through any steps of the master's threads that reach `d` determined epochs, the
-- scheduler's queue holds exactly the batches of the epochs 0 to `d - 1`, in order, each of them is
-- in the log as the record of its epoch, at most 90 transactions long, and the batch that is being
-- replaced, if any, and the current one have the epochs that follow.
pub Reach-IsMaster :
    (raw_set : ℕ → Tx) (msg : Buf) {m : Master} {d : ℕ}
    → Reach (master_startup raw_set msg) m d
    → IsMaster m d
Reach-IsMaster raw_set msg here = master_startup-IsMaster raw_set msg
Reach-IsMaster raw_set msg (next r st) = Step-IsMaster st (Reach-IsMaster raw_set msg r)
