-- ===== src/Bytes.antt =====
-- utils/bytes.c: values in a `char` array, copied there and back by `memcpy`.
-- An array is the function from an offset to the byte at it. A value of a C integer type is its
-- bit pattern: a `char` below 2 ^ 8, a `short` below 2 ^ 16, an `int` below 2 ^ 32, a pointer
-- below 2 ^ 64. The machine is little endian, so `memcpy` of a value moves its low byte first.
pub mod Access
pub mod Ints
use graduation_research_prog.Base.{
  ℕ, zero, suc, ◌+◌, ◌-◌, ◌*◌, ◌/◌, ◌%◌, ◌^◌, ◌==◌, if◌then◌else◌, within,
}

abbrev pub Buf : Type 0
Buf = ℕ → ℕ

-- one byte written
unfoldable pub poke : Buf → ℕ → ℕ → Buf
poke b i v j = if i == j then v else b j

-- `memcpy(bytes + offset, &value, k)`
unfoldable pub store : ℕ → Buf → ℕ → ℕ → Buf
store zero b off v = b
store (suc k) b off v = store k (poke b off (v % 256)) (off + 1) (v / 256)

-- `memcpy(&value, bytes + offset, k)`
unfoldable pub load : ℕ → Buf → ℕ → ℕ
load zero b off = 0
load (suc k) b off = b off + 256 * load k b (off + 1)

-- `memcpy(dst + off, src, n)` between arrays
unfoldable pub copy : Buf → ℕ → Buf → ℕ → Buf
copy dst off src n i = if within off n i then src (i - off) else dst i

unfoldable pub set_int_to_bytes : Buf → ℕ → ℕ → Buf
unfolding store poke
set_int_to_bytes bytes offset value = store 4 bytes offset value

unfoldable pub get_int_from_bytes : Buf → ℕ → ℕ
unfolding load
get_int_from_bytes bytes offset = load 4 bytes offset

unfoldable pub set_short_int_to_bytes : Buf → ℕ → ℕ → Buf
unfolding store poke
set_short_int_to_bytes bytes offset value = store 2 bytes offset value

unfoldable pub get_short_int_from_bytes : Buf → ℕ → ℕ
unfolding load
get_short_int_from_bytes bytes offset = load 2 bytes offset

unfoldable pub set_char_to_bytes : Buf → ℕ → ℕ → Buf
unfolding store poke
set_char_to_bytes bytes offset value = store 1 bytes offset value

unfoldable pub get_char_from_bytes : Buf → ℕ → ℕ
unfolding load
get_char_from_bytes bytes offset = load 1 bytes offset

unfoldable pub set_pointer_to_bytes : Buf → ℕ → ℕ → Buf
unfolding store poke
set_pointer_to_bytes bytes offset p = store 8 bytes offset p

unfoldable pub get_pointer_from_bytes : Buf → ℕ → ℕ
unfolding load
get_pointer_from_bytes bytes offset = load 8 bytes offset
