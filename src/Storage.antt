-- ===== src/Storage.antt =====
-- utils/storage.h and utils/storage.c: the records of a node. A record's value is a `short`; its
-- mutex makes each function one step. `none` is an access outside the array.
pub mod Laws
mod Tests
use graduation_research_prog.Base.{
  ℕ, ltb, if◌then◌else◌, Option, none, some, List, get_elem?, set, replicate,
}
use graduation_research_prog.Words.{int_of_short, short_inc, rounds}

pub record Storage : Type 0 where
  pub storage_size : ℕ
  pub records : List ℕ

unfoldable pub new_storage : ℕ → Storage
new_storage storage_size = record {
  storage_size = storage_size;
  records = replicate (rounds storage_size) 0;
}

-- a negative key is outside the array
abbrev pub record_at : Storage → ℕ → Option ℕ
record_at s key = if ltb key 0x8000 then get_elem? s.records key else none

unfoldable pub read_from_storage : Storage → ℕ → Option ℕ
read_from_storage s key = elim (record_at s key) [
  | none ↦ none
  | some value ↦ some (int_of_short value)
]

-- The value that is passed is not used: the record is incremented.
unfoldable pub write_to_storage : Storage → (key value : ℕ) → Option Storage
write_to_storage s key value = elim (record_at s key) [
  | none ↦ none
  | some old ↦ some (record s { records = set s.records key (short_inc old) })
]
