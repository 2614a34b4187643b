-- ===== src/Master/Intake/Order.antt =====
-- What the clients send reaches the batches, each transaction once and in the client's order.
use graduation_research_prog.Base.{
  ℕ, suc, ◌≡◌, refl, sym, ◌∙◌, ap, subst, if◌then◌else◌, List, [], ◌∷◌, ◌++◌, map, update, arith,
}
use mathlib.Core.List.{append-nil, map-append}
use graduation_research_prog.Outcome.{done-injective}
use graduation_research_prog.Bytes.{Buf}
use graduation_research_prog.Bytes.Access.{IsBytes}
use graduation_research_prog.Tx.{Tx}
use graduation_research_prog.Batch.{contents, slice, batch_create}
use graduation_research_prog.Master.{
  Master, master_startup, sequencer_add_write_tx_to_batch, swap_batch,
}
use graduation_research_prog.Master.Epochs.{
  IsMaster, Step-IsMaster, add, swap, confirm, confirm_batch_lem, master_startup-IsMaster,
}
use graduation_research_prog.Master.Receiver.{
  receiving, adding, receiver_startup, receive_step, add_step,
}
use graduation_research_prog.Master.Dedup.{floor, Increasing}
use graduation_research_prog.Master.Intake.{
  Intake, IntakeStep, add as add_tx, IntakeReach, intake_startup, swap_step, confirm_step, receive,
  here, more, Log, waiting_in, by_thread, of_thread, batches_of, all_contents,
}
use graduation_research_prog.Master.Intake.Threads.{
  IsThread, ids_of, receiving-adding, receive-IsThread, add-IsThread, threads-changed,
}
use graduation_research_prog.Master.Intake.Batches.{
  batches_of-add, batches_of-swap, batches_of-confirmed,
}
use graduation_research_prog.Master.Intake.Parts.{Rising-Increasing}

record IsIntake (c : Intake) (taken added : Log) : Type 0 where
  valid : IsMaster c.master c.determined
  batches : all_contents (batches_of c.master) ≡ map (λ (p : ℕ × Tx). p.1) added
  threads : (t : ℕ) → IsThread (c.receivers t) (of_thread t taken) (of_thread t added)

-- the transactions without their threads
abbrev pub txs_of : Log → List Tx
txs_of = map (λ (p : ℕ × Tx). p.1)

txs_of-append :
    (added : Log) (t : ℕ) (xs : List Tx) → txs_of (added ++ by_thread t xs) ≡ txs_of added ++ xs
txs_of-append added t xs =
    map-append (λ (p : ℕ × Tx). p.1) added (by_thread t xs) ∙ ap (λ l. txs_of added ++ l) (back xs)
  where
    back : (xs : List Tx) → txs_of (by_thread t xs) ≡ xs
    back [] = refl
    back (x ∷ xs) = ap (λ l. x ∷ l) (back xs)

-- the epoch thread takes and adds nothing
epoch-IsIntake :
    (c : Intake) (m : Master) (d : ℕ) (taken added : Log)
    → IsIntake c taken added
    → IsMaster m d
    → all_contents (batches_of m) ≡ all_contents (batches_of c.master)
    → IsIntake (record c { master = m; determined = d }) (taken ++ []) (added ++ [])
epoch-IsIntake c m d taken added v w same =
    rw (append-nil taken, append-nil added)
      (record { valid = w; batches = same ∙ v.batches; threads = v.threads })

-- A thread adds what it has taken, or finds the batch full.
add-IsIntake :
    (c : Intake) (t : ℕ) (tx : Tx) (taken added : Log)
    → (c.receivers t).phase ≡ adding tx
    → IsIntake c taken added
    → IsIntake
        (record c {
          master = (add_step tx (c.receivers t) c.master).1;
          receivers = update t (add_step tx (c.receivers t) c.master).0 c.receivers;
        })
        (taken ++ [])
        (added
          ++ by_thread t (if (sequencer_add_write_tx_to_batch c.master tx).1 then tx ∷ [] else []))
unfolding add_step
add-IsIntake c t tx taken added busy v =
    let ret = (sequencer_add_write_tx_to_batch c.master tx).1 in
    let put = if ret then tx ∷ [] else [] in
    let r = if ret then record (c.receivers t) { phase = receiving } else c.receivers t in
    record {
      valid = Step-IsMaster (add tx ((v.threads t).ready tx busy)) v.valid;
      batches =
          batches_of-add c.master c.determined tx v.valid
          ∙ ap (λ l. l ++ put) v.batches
          ∙ sym (txs_of-append added t put);
      threads =
          threads-changed c.receivers taken added t r [] put
            (subst (λ l. IsThread r l (of_thread t added ++ put))
              (sym (append-nil (of_thread t taken)))
              (add-IsThread tx (c.receivers t) (of_thread t taken) (of_thread t added) ret busy
                (v.threads t)))
            v.threads;
    }

IntakeStep-IsIntake :
    {c c' : Intake} {new put : Log} (taken added : Log)
    → IntakeStep c c' new put
    → IsIntake c taken added
    → IsIntake c' (taken ++ new) (added ++ put)
IntakeStep-IsIntake {c} taken added (swap_step env r small) v =
    epoch-IsIntake c (swap_batch env c.master) c.determined taken added v
      (Step-IsMaster (swap env r small) v.valid) (batches_of-swap env c.master r)
IntakeStep-IsIntake {c} taken added (confirm_step env b m r small o s runs) v =
    let (f, done_f, _) = confirm_batch_lem c.master c.determined env b v.valid r small o s in
    epoch-IsIntake c m (suc c.determined) taken added v
      (Step-IsMaster (confirm env b m r small o s runs) v.valid)
      (ap (λ x. all_contents (batches_of x)) (done-injective (sym runs ∙ done_f))
        ∙ ap all_contents (batches_of-confirmed c.master b f r))
IntakeStep-IsIntake {c} taken added (receive t raw event w idle) v =
    let r = (receive_step raw event (c.receivers t)).0 in
    record {
      valid = v.valid;
      batches = v.batches ∙ ap txs_of (sym (append-nil added));
      threads =
          threads-changed c.receivers taken added t r (waiting_in r.phase) []
            (subst (IsThread r (of_thread t taken ++ waiting_in r.phase))
              (sym (append-nil (of_thread t added)))
              (receive-IsThread raw event (c.receivers t) (of_thread t taken) (of_thread t added) w
                idle (v.threads t)))
            v.threads;
    }
IntakeStep-IsIntake {c} taken added (add_tx t tx busy) v = add-IsIntake c t tx taken added busy v

IntakeReach-IsIntake :
    {c c' : Intake} {taken added : Log}
    → IntakeReach c c' taken added
    → IsIntake c [] []
    → IsIntake c' taken added
IntakeReach-IsIntake here v = v
IntakeReach-IsIntake (more {xs} {ys} r st) v =
    IntakeStep-IsIntake xs ys st (IntakeReach-IsIntake r v)

startup-IsIntake :
    (raw_set : ℕ → Tx) (buf : Buf) → IsBytes buf → IsIntake (intake_startup raw_set buf) [] []
unfolding receiver_startup master_startup batch_create contents slice
startup-IsIntake raw_set buf h = record {
  valid = master_startup-IsMaster raw_set buf;
  batches = refl;
  threads = λ t. record {
    bytes = h;
    fits = omega arith;
    bound = omega arith;
    rising = omega arith;
    kept = refl;
    ready = λ tx e. absurd (receiving-adding tx e);
  };
}

-- The epoch thread of the master and its receiving threads, one for each client, from their start through
-- any interleaving of their steps and whatever datagrams of bytes arrive, of epochs below 2 ^ 15 and
-- with a log that can be written: the batches, from the first determined one to the current one, hold
-- exactly the transactions that the threads have added, each once and in the order of the additions; of
-- each thread these are, in order, all the transactions that it has taken from the network, but for the
-- one that it may be trying to add; and the ids of those that it has taken are strictly increasing. So
-- the change of the batch at the end of an epoch loses and doubles none.
pub intake_in_order :
    (raw_set : ℕ → Tx) (buf : Buf) (c : Intake) (taken added : Log) (t : ℕ)
    → IsBytes buf
    → IntakeReach (intake_startup raw_set buf) c taken added
    → (all_contents (batches_of c.master) ≡ txs_of added)
      × (of_thread t taken ≡ of_thread t added ++ waiting_in (c.receivers t).phase)
      × Increasing 0 (ids_of (of_thread t taken))
intake_in_order raw_set buf c taken added t h r =
    let v = IntakeReach-IsIntake r (startup-IsIntake raw_set buf h) in
    let w = v.threads t in
    (
      v.batches,
      w.kept,
      Rising-Increasing 0 (floor (c.receivers t)) (ids_of (of_thread t taken)) w.rising,
    )
