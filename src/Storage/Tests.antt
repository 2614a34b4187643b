-- ===== src/Storage/Tests.antt =====
-- Examples of utils/storage.c.
use graduation_research_prog.Base.{◌≡◌, some, [], ◌∷◌, arith}
use graduation_research_prog.Storage.{Storage, write_to_storage}
use graduation_research_prog.Storage.Laws.{Counted, write_to_storage-Counted}

abbrev storage : Storage
storage = record { storage_size = 3; records = 0 ∷ 8 ∷ 0xffff ∷ [] }

write_to_storage-Counted_example :
    (s : Storage) × (write_to_storage storage 2 7 ≡ some s) × Counted storage s 2
write_to_storage-Counted_example = write_to_storage-Counted storage 2 7 (omega arith, omega arith)
