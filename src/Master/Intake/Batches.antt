-- ===== src/Master/Intake/Batches.antt =====
-- What each step makes of the transactions in the master's batches.
use graduation_research_prog.Base.{
  ℕ, ◌≡◌, refl, sym, ◌∙◌, ap, true, false, Bool, if◌then◌else◌, none, some, List, [], ◌∷◌, ◌++◌,
}
use mathlib.Core.List.{append-nil, append_assoc}
use graduation_research_prog.Tx.{Tx}
use graduation_research_prog.Batch.{Batch, contents, slice, batch_create, batch_add_tx}
use graduation_research_prog.Batch.Laws.{contents-batch_add_tx}
use graduation_research_prog.Log.{File}
use graduation_research_prog.Master.{Master, Env, sequencer_add_write_tx_to_batch, swap_batch}
use graduation_research_prog.Master.Epochs.{IsMaster, confirmed, batch-sequencer_add}
use graduation_research_prog.Master.Intake.{one_of, batches_of, all_contents}
use graduation_research_prog.Master.Intake.Parts.{all_contents-append}

all_contents-batches_of :
    (m : Master)
    → all_contents (batches_of m)
      ≡ all_contents (m.write_tx_buffer ++ one_of m.rev_batch) ++ contents m.batch
all_contents-batches_of m =
    ap all_contents (sym (append_assoc m.write_tx_buffer (one_of m.rev_batch) (m.batch ∷ [])))
    ∙ all_contents-append (m.write_tx_buffer ++ one_of m.rev_batch) (m.batch ∷ [])
    ∙ ap (λ l. all_contents (m.write_tx_buffer ++ one_of m.rev_batch) ++ l)
        (append-nil (contents m.batch))

pub batches_of-add :
    (m : Master) (d : ℕ) (tx : Tx)
    → IsMaster m d
    → all_contents (batches_of (sequencer_add_write_tx_to_batch m tx).0)
      ≡ all_contents (batches_of m)
        ++ (if (sequencer_add_write_tx_to_batch m tx).1 then tx ∷ [] else [])
batches_of-add m d tx v =
    let before = all_contents (m.write_tx_buffer ++ one_of m.rev_batch) in
    let (_, grown, _) = contents-batch_add_tx m.batch tx v.current.size in
    rw (batch-sequencer_add m tx v.current.size) (
      all_contents-batches_of (record m { batch = (batch_add_tx m.batch tx).0 })
      ∙ ap (λ l. before ++ l) (grown ∙ grows (contents m.batch) tx (batch_add_tx m.batch tx).1)
      ∙ sym (
          append_assoc before (contents m.batch)
            (if (batch_add_tx m.batch tx).1 then tx ∷ [] else []))
      ∙ ap (λ l. l ++ (if (batch_add_tx m.batch tx).1 then tx ∷ [] else []))
          (sym (all_contents-batches_of m)))
  where
    grows :
        (xs : List Tx) (x : Tx) (b : Bool)
        → (if b then xs ++ (x ∷ []) else xs) ≡ xs ++ (if b then x ∷ [] else [])
    grows xs x true = refl
    grows xs x false = sym (append-nil xs)

pub batches_of-swap :
    (env : Env) (m : Master)
    → m.rev_batch ≡ none
    → all_contents (batches_of (swap_batch env m)) ≡ all_contents (batches_of m)
unfolding swap_batch batch_create contents slice
batches_of-swap env m h =
    all_contents-batches_of (swap_batch env m)
    ∙ append-nil (all_contents (m.write_tx_buffer ++ (m.batch ∷ [])))
    ∙ ap (λ r. all_contents (m.write_tx_buffer ++ (one_of r ++ (m.batch ∷ [])))) (sym h)

pub batches_of-confirmed :
    (m : Master) (b : Batch) (f : File)
    → m.rev_batch ≡ some b
    → batches_of (confirmed m b f) ≡ batches_of m
batches_of-confirmed m b f h =
    append_assoc m.write_tx_buffer (b ∷ []) (m.batch ∷ [])
    ∙ ap (λ r. m.write_tx_buffer ++ (one_of r ++ (m.batch ∷ []))) (sym h)
