-- ===== src/Bytes/Access.antt =====
-- How reads see writes: at the same place, at a place apart, and where nothing was written.
use graduation_research_prog.Base.{
  ℕ, zero, suc, ◌+◌, ◌-◌, ◌/◌, ◌%◌, ◌^◌, ◌≤◌, ◌<◌, ◌≡◌, refl, ◌∙◌, ◌⊎◌, inl, inr, arith,
}
use graduation_research_prog.Bytes.{Buf, poke, store, load, copy, get_short_int_from_bytes}

-- Every element of the array is a byte.
abbrev pub IsBytes : Buf → Type 0
IsBytes b = (i : ℕ) → b i < 256

-- A write leaves what stands before it.
pub store_before : (k : ℕ) (b : Buf) (off v i : ℕ) → i < off → store k b off v i ≡ b i
unfolding store poke
store_before zero b off v i h = refl
store_before (suc k) b off v i h =
    store_before k (poke b off (v % 256)) (off + 1) (v / 256) i (omega arith) ∙ ground arith

-- A write of `k` bytes leaves what stands behind them.
pub store_behind : (k : ℕ) (b : Buf) (off v i : ℕ) → off + k ≤ i → store k b off v i ≡ b i
unfolding store poke
store_behind zero b off v i h = refl
store_behind (suc k) b off v i h =
    store_behind k (poke b off (v % 256)) (off + 1) (v / 256) i (omega arith) ∙ ground arith

-- A read depends on the bytes in its range alone.
pub load_same :
    (k : ℕ) (b c : Buf) (off : ℕ)
    → ((i : ℕ) → off ≤ i → i < off + k → b i ≡ c i)
    → load k b off ≡ load k c off
unfolding load
load_same zero b c off h = refl
load_same (suc k) b c off h = omega (
  arith,
  h off (omega arith) (omega arith),
  load_same k b c (off + 1) (λ i lo hi. h i (omega arith) (omega arith)),
)

-- A read sees nothing of a write that is apart from it.
pub load-store_apart :
    (k m : ℕ) (b : Buf) (off at v : ℕ)
    → (off + k ≤ at) ⊎ (at + m ≤ off)
    → load k (store m b at v) off ≡ load k b off
load-store_apart k m b off at v (inl h) =
    load_same k (store m b at v) b off (λ i lo hi. store_before m b at v i (omega arith))
load-store_apart k m b off at v (inr h) =
    load_same k (store m b at v) b off (λ i lo hi. store_behind m b at v i (omega arith))

-- A write keeps an array one of bytes.
pub store-IsBytes : (k : ℕ) (b : Buf) (off v : ℕ) → IsBytes b → IsBytes (store k b off v)
unfolding store poke
store-IsBytes zero b off v h = h
store-IsBytes (suc k) b off v h =
    store-IsBytes k (poke b off (v % 256)) (off + 1) (v / 256) (λ i. ground (arith, h i))

-- Copying bytes gives bytes.
pub copy-IsBytes :
    (dst : Buf) (off : ℕ) (src : Buf) (n : ℕ)
    → IsBytes dst
    → IsBytes src
    → IsBytes (copy dst off src n)
unfolding copy
copy-IsBytes dst off src n h k i = ground (arith, h i, k (i - off))

-- A `short` that is read from bytes is one.
pub get_short_bound : (m : Buf) (off : ℕ) → IsBytes m → get_short_int_from_bytes m off < 2 ^ 16
unfolding get_short_int_from_bytes
get_short_bound m off h = omega (arith, h off, h (off + 1))
