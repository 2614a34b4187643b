-- ===== src/Storage/Laws.antt =====
-- A write counts one at its own record, and succeeds at every key of the storage.
use graduation_research_prog.Base.{
  ℕ, zero, suc, ◌<◌, ◌≡◌, refl, sym, ◌∙◌, ap, inl, inr, Bool-cases, ==→eq, ◌==◌, if◌then◌else◌,
  some, List, get_elem?, get_elem?-below, get_elem?-set_self, get_elem?-set_ne, length, length-set,
  arith, set, replicate,
}
use graduation_research_prog.Words.{short_inc}
use graduation_research_prog.Storage.{
  Storage, new_storage, read_from_storage, write_to_storage, record_at,
}

-- a key that a `short` can name
abbrev pub IsKey : Storage → ℕ → Type 0
IsKey s key = (key < 0x8000) × (key < length s.records)

-- `s'` is `s` with one more at `key`
pub record Counted (s s' : Storage) (key : ℕ) : Type 0 where
  pub size_kept : length s'.records ≡ length s.records
  pub counts :
      (k v : ℕ)
      → get_elem? s.records k ≡ some v
      → get_elem? s'.records k ≡ some (if key == k then short_inc v else v)

some-eq : {a b : ℕ} → some a ≡ some b → a ≡ b
some-eq h = cc

counts-set :
    (xs : List ℕ) (key old k v : ℕ)
    → get_elem? xs key ≡ some old
    → get_elem? xs k ≡ some v
    → get_elem? (set xs key (short_inc old)) k ≡ some (if key == k then short_inc v else v)
counts-set xs key old k v at h = elim (Bool-cases (key == k)) [
  | inl e ↦
      let same = ==→eq key k e in
      let one : old ≡ v = some-eq (sym at ∙ ap (get_elem? xs) same ∙ h) in
      rw (e, ← same, get_elem?-set_self xs key (short_inc old) at)
        (ap (λ n. some (short_inc n)) one)
  | inr e ↦ rw (e, get_elem?-set_ne xs key k (short_inc old) (ground arith)) h
]

-- A write to a key of the storage that a `short` can name succeeds: the record of the key is one more,
-- modulo 2 ^ 16, whatever value was passed, and every other record and the size stay.
pub write_to_storage-Counted :
    (s : Storage) (key value : ℕ)
    → IsKey s key
    → (s' : Storage) × (write_to_storage s key value ≡ some s') × Counted s s' key
unfolding write_to_storage
write_to_storage-Counted s key value (short, inside) =
    let (old, found) = get_elem?-below s.records key inside in
    let at : record_at s key ≡ some old = ground arith in
    (
      record s { records = set s.records key (short_inc old) },
      rw (at, write_to_storage),
      record {
        size_kept = length-set s.records key (short_inc old);
        counts = λ k v h. counts-set s.records key old k v found h;
      },
    )

get_elem?-replicate : (n i v : ℕ) → i < n → get_elem? (replicate n v) i ≡ some v
get_elem?-replicate zero i v h = absurd (omega arith)
get_elem?-replicate (suc n) zero v h = refl
get_elem?-replicate (suc n) (suc i) v h = get_elem?-replicate n i v (omega arith)

-- Every record of a new storage reads as 0.
pub read-new_storage :
    (size key : ℕ) → size < 0x8000 → key < size → read_from_storage (new_storage size) key ≡ some 0
unfolding read_from_storage new_storage
read-new_storage size key h k = ground (arith, get_elem?-replicate size key 0)
