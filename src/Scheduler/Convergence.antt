-- ===== src/Scheduler/Convergence.antt =====
-- The storage after a batch: each record has counted the writes of its key.
use graduation_research_prog.Base.{
  ℕ, ◌+◌, ◌<◌, ◌^◌, ◌%◌, ◌≡◌, refl, ◌∙◌, ap, inl, inr, true, false, Bool-cases, ==→eq, ◌==◌, ltb,
  if◌then◌else◌, some, List, [], ◌∷◌, get_elem?, get_elem?-set_self, get_elem?-set_ne, arith, set,
}
use graduation_research_prog.Words.{short_inc, int_of_short}
use graduation_research_prog.Tx.{Tx, set_assigned_epoch_id_to_tx, raise_tx_complete_flag}
use graduation_research_prog.Storage.{Storage, write_to_storage}
use graduation_research_prog.Storage.Laws.{IsKey, Counted, write_to_storage-Counted}
use graduation_research_prog.Scheduler.{Node, wait_for_exe, notify, execute_tx, execute_txs}

-- how many of the transactions write to `key`
unfoldable pub writes : ℕ → List Tx → ℕ
writes key [] = 0
writes key (tx ∷ txs) = (if tx.key == key then 1 else 0) + writes key txs

-- The key is one of the storage, and if the client is one of this node, it waits.
pub record IsReady (me : ℕ) (n : Node) (tx : Tx) : Type 0 where
  pub key : IsKey n.storage tx.key
  pub client : int_of_short tx.replica_id ≡ me → (w : Tx) × (wait_for_exe n tx.client_id ≡ some w)

abbrev pub AllReady : ℕ → Node → List Tx → Type 0
AllReady me n [] = Unit
AllReady me n (tx ∷ txs) = IsReady me n tx × AllReady me n txs

-- no client that waits is forgotten
abbrev StillWait : Node → Node → Type 0
StillWait n n' =
    (c : ℕ) (w : Tx) → wait_for_exe n c ≡ some w → (w' : Tx) × (wait_for_exe n' c ≡ some w')

wait_for_exe-found :
    (n : Node) (c : ℕ) (w : Tx)
    → wait_for_exe n c ≡ some w
    → (ltb c 0x8000 ≡ true) × (get_elem? n.waiting c ≡ some (some w))
unfolding wait_for_exe
wait_for_exe-found n c w h = ground arith

wait_for_exe-intro :
    (n : Node) (c : ℕ) (w : Tx)
    → ltb c 0x8000 ≡ true
    → get_elem? n.waiting c ≡ some (some w)
    → wait_for_exe n c ≡ some w
unfolding wait_for_exe
wait_for_exe-intro n c w h g = rw (h, g)

-- what the client sees
abbrev told : Tx → ℕ → Tx
told w e = raise_tx_complete_flag (set_assigned_epoch_id_to_tx w e)

abbrev notified : Node → ℕ → ℕ → Tx → Node
notified n c e w = record n { waiting = set n.waiting c (some (told w e)) }

notify-eq :
    (n : Node) (c e : ℕ) (w : Tx)
    → wait_for_exe n c ≡ some w
    → notify n c e ≡ some (notified n c e w)
unfolding notify
notify-eq n c e w h = rw (h, notify)

notify-StillWait :
    (n : Node) (c e : ℕ) (w : Tx) → wait_for_exe n c ≡ some w → StillWait n (notified n c e w)
notify-StillWait n c e w h d u g =
    let (small, at) = wait_for_exe-found n c w h in
    let (other, there) = wait_for_exe-found n d u g in
    elim (Bool-cases (c == d)) [
      | inl same ↦ (
        told w e,
        wait_for_exe-intro (notified n c e w) d (told w e) other
            (rw (← ==→eq c d same) (get_elem?-set_self n.waiting c (some (told w e)) at)),
      )
      | inr apart ↦ (
        u,
        wait_for_exe-intro (notified n c e w) d u other
            (get_elem?-set_ne n.waiting c d (some (told w e)) (ground arith) ∙ there),
      )
    ]

-- `n'` is `n` with one more at `key`, and with the same clients waiting
record Executed (n n' : Node) (key : ℕ) : Type 0 where
  stored : Counted n.storage n'.storage key
  still : StillWait n n'

wait_for_exe-storage :
    (n : Node) (s : Storage) (c : ℕ) → wait_for_exe (record n { storage = s }) c ≡ wait_for_exe n c
unfolding wait_for_exe
wait_for_exe-storage n s c = refl

module _ (me epoch : ℕ) (tx : Tx) (n : Node) (s : Storage)
    (runs : write_to_storage n.storage tx.key tx.value ≡ some s) where
  abbrev written : Node
  written = record n { storage = s }

  execute_tx-other :
      (int_of_short tx.replica_id == me) ≡ false → execute_tx me epoch tx n ≡ some written
  unfolding execute_tx
  execute_tx-other e = rw (runs, e)

  execute_tx-mine :
      (w : Tx)
      → (int_of_short tx.replica_id == me) ≡ true
      → wait_for_exe n tx.client_id ≡ some w
      → execute_tx me epoch tx n ≡ some (notified written tx.client_id epoch w)
  unfolding execute_tx
  execute_tx-mine w e h =
      rw (runs, e)
        (notify-eq written tx.client_id epoch w (wait_for_exe-storage n s tx.client_id ∙ h))

execute_tx-Executed :
    (me epoch : ℕ) (tx : Tx) (n : Node)
    → IsReady me n tx
    → (n' : Node) × (execute_tx me epoch tx n ≡ some n') × Executed n n' tx.key
execute_tx-Executed me epoch tx n v =
    let (s, runs, counted) = write_to_storage-Counted n.storage tx.key tx.value v.key in
    let new : Node = record n { storage = s } in
    let kept : StillWait n new = λ c w h. (w, wait_for_exe-storage n s c ∙ h) in
    elim (Bool-cases (int_of_short tx.replica_id == me)) [
      | inl mine ↦
          let (w, waits) = v.client (==→eq (int_of_short tx.replica_id) me mine) in
          (
            notified new tx.client_id epoch w,
            execute_tx-mine me epoch tx n s runs w mine waits,
            record {
              stored = counted;
              still = λ c u h.
                  notify-StillWait new tx.client_id epoch w
                    (wait_for_exe-storage n s tx.client_id ∙ waits) c u
                    (wait_for_exe-storage n s c ∙ h);
            },
          )
      | inr other ↦ (
        new,
        execute_tx-other me epoch tx n s runs other,
        record { stored = counted; still = kept },
      )
    ]

AllReady-Executed :
    (me key : ℕ) {n n' : Node} (txs : List Tx)
    → Executed n n' key
    → AllReady me n txs
    → AllReady me n' txs
AllReady-Executed me key [] x v = tt
AllReady-Executed me key (tx ∷ txs) x v = (
  record {
    key = (v.0.key.0, rw x.stored.size_kept v.0.key.1);
    client = λ e. let (w, h) = v.0.client e in x.still tx.client_id w h;
  },
  AllReady-Executed me key txs x v.1,
)

-- what `execute_txs-writes` says, for all records at once, and that whoever was ready still is
pub execute_txs-all :
    (me epoch : ℕ) (txs : List Tx) (n : Node)
    → AllReady me n txs
    → (n' : Node) × (execute_txs me epoch txs n ≡ some n')
      × ((key v : ℕ)
          → v < 2 ^ 16
          → get_elem? n.storage.records key ≡ some v
          → get_elem? n'.storage.records key ≡ some ((v + writes key txs) % 2 ^ 16))
      × ((others : List Tx) → AllReady me n others → AllReady me n' others)
unfolding execute_txs writes
execute_txs-all me epoch [] n v =
    (n, refl, λ key x small h. h ∙ ap some (omega arith), λ others r. r)
execute_txs-all me epoch (tx ∷ txs) n v =
    let (m, runs, x) = execute_tx-Executed me epoch tx n v.0 in
    let (n', rest, counts, kept) =
      execute_txs-all me epoch txs m (AllReady-Executed me tx.key txs x v.1) in
    (
      n',
      rw runs rest,
      λ key w small h. elim (Bool-cases (tx.key == key)) [
        | inl e ↦
            counts key (short_inc w) (omega arith) (x.stored.counts key w h ∙ ap some (rw e))
            ∙ ap some (rw e (omega arith))
        | inr e ↦
            counts key w small (x.stored.counts key w h ∙ ap some (rw e))
            ∙ ap some (rw e (omega arith))
      ],
      λ others r. kept others (AllReady-Executed me tx.key others x r),
    )

-- A batch whose keys are in the storage, each client of this node waiting for its transaction, is
-- executed to its end, and a record has then counted the batch's writes of its key, modulo 2 ^ 16. The
-- values that the transactions carry play no part: `write_to_storage` increments the record, where the
-- comment above it and test/storage_test.c have the record hold the value.
pub execute_txs-writes :
    (me epoch : ℕ) (txs : List Tx) (n : Node) (key v : ℕ)
    → AllReady me n txs
    → v < 2 ^ 16
    → get_elem? n.storage.records key ≡ some v
    → (n' : Node) × (execute_txs me epoch txs n ≡ some n')
      × (get_elem? n'.storage.records key ≡ some ((v + writes key txs) % 2 ^ 16))
execute_txs-writes me epoch txs n key v ready small at =
    let (n', runs, counts, _) = execute_txs-all me epoch txs n ready in
    (n', runs, counts key v small at)
