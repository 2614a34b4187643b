-- ===== src/Bytes/Ints.antt =====
-- An integer that is written into a buffer is read back.
use graduation_research_prog.Base.{ℕ, ◌^◌, ◌<◌, ◌≡◌, arith}
use graduation_research_prog.Bytes.{
  Buf, set_int_to_bytes, get_int_from_bytes, set_short_int_to_bytes, get_short_int_from_bytes,
}

-- A `short` that is written is read back, whatever the offset.
pub get_short-set_short :
    (b : Buf) (off v : ℕ)
    → v < 2 ^ 16
    → get_short_int_from_bytes (set_short_int_to_bytes b off v) off ≡ v
unfolding get_short_int_from_bytes set_short_int_to_bytes
get_short-set_short b off v h = ground arith

-- An `int` that is written is read back, whatever the offset.
pub get_int-set_int :
    (b : Buf) (off v : ℕ) → v < 2 ^ 32 → get_int_from_bytes (set_int_to_bytes b off v) off ≡ v
unfolding get_int_from_bytes set_int_to_bytes
get_int-set_int b off v h = ground arith
