-- ===== src/Log/Loops.antt =====
-- `write_all` and `read_all` move the whole range, however the kernel splits it.
use graduation_research_prog.Base.{
  ℕ, ◌+◌, ◌<◌, ◌≤◌, max, ◌≡◌, ◌==◌, refl, ◌∙◌, inl, inr, none, some, [], ◌∷◌, arith, false,
  Bool-cases, ltb, ==→eq,
}
use graduation_research_prog.Bytes.{Buf, copy}
use graduation_research_prog.Outcome.{done, waiting}
use graduation_research_prog.Log.{File, Answers, write_at, write_all, read_all}

-- The calls succeed, none moves more than was asked for, and together they reach the goal.
abbrev pub Serves : ℕ → ℕ → Answers → Type 0
Serves goal total [] = total ≡ goal
Serves goal total (none ∷ rest) = ⊥
Serves goal total (some n ∷ rest) = (total + n ≤ goal) × Serves goal (total + n) rest

-- the file with `goal` bytes of `src` at `pos`
pub record Written (f g : File) (pos : ℕ) (src : Buf) (lo hi : ℕ) : Type 0 where
  pub inside : (i : ℕ) → lo ≤ i → i < hi → g.byte (pos + i) ≡ src i
  pub before : (i : ℕ) → i < pos + lo → g.byte i ≡ f.byte i
  pub behind : (i : ℕ) → pos + hi ≤ i → g.byte i ≡ f.byte i
  pub grown : f.size ≤ g.size
  pub covers : lo < hi → pos + hi ≤ g.size

write_at-Written :
    (f : File) (pos : ℕ) (src : Buf) (total n : ℕ)
    → Written f (write_at f (pos + total) src total n) pos src total (total + n)
unfolding write_at copy
write_at-Written f pos src total n = record {
  inside = λ i lo hi. ground arith;
  before = λ i h. ground arith;
  behind = λ i h. ground arith;
  grown = ground arith;
  covers = λ h. ground arith;
}

Written-trans :
    {f g h : File} {pos : ℕ} {src : Buf} {lo mid hi : ℕ}
    → lo ≤ mid
    → mid ≤ hi
    → Written f g pos src lo mid
    → Written g h pos src mid hi
    → Written f h pos src lo hi
Written-trans {f} {g} {h} {pos} {src} {lo} {mid} {hi} p q a b = record {
  inside = λ i l u. elim (Bool-cases (ltb i mid)) [
    | inl e ↦ b.before (pos + i) (ground arith) ∙ a.inside i l (ground arith)
    | inr e ↦ b.inside i (ground arith) u
  ];
  before = λ i l. b.before i (omega arith) ∙ a.before i l;
  behind = λ i l. b.behind i l ∙ a.behind i (omega arith);
  grown = omega (arith, a.grown, b.grown);
  covers = λ l. elim (Bool-cases (ltb mid hi)) [
    | inl e ↦ b.covers (ground arith)
    | inr e ↦ ground (arith, a.covers, b.grown)
  ];
}

Written-refl : (f : File) (pos : ℕ) (src : Buf) (at : ℕ) → Written f f pos src at at
Written-refl f pos src at = record {
  inside = λ i l u. absurd (omega arith);
  before = λ i l. refl;
  behind = λ i l. refl;
  grown = omega arith;
  covers = λ l. absurd (omega arith);
}

-- If the calls of `write` succeed and reach the goal together, `write_all` returns, and the file then
-- has the range's bytes, is at least that long, and is otherwise unchanged, however they split it.
pub write_all-Written :
    (answers : Answers) (f : File) (pos : ℕ) (bytes : Buf) (goal total : ℕ)
    → total ≤ goal
    → Serves goal total answers
    → (g : File) × (write_all answers f pos bytes goal total ≡ done g)
      × Written f g pos bytes total goal
unfolding write_all
write_all-Written [] f pos bytes goal total p s =
    (f, ground arith, rw s (Written-refl f pos bytes goal))
write_all-Written (none ∷ rest) f pos bytes goal total p s = elim s [ ]
write_all-Written (some n ∷ rest) f pos bytes goal total p s = elim (Bool-cases (total == goal)) [
  | inl e ↦ rw e (f, refl, rw (==→eq total goal e) (Written-refl f pos bytes goal))
  | inr e ↦
      let (g, runs, w) =
        write_all-Written rest (write_at f (pos + total) bytes total n) pos bytes goal (total + n)
          s.0 s.1 in
      rw e (g, runs, Written-trans (omega arith) s.0 (write_at-Written f pos bytes total n) w)
]

-- what `read_all` has put into the array: the file's bytes in the range, and nothing outside it
pub record Fetched (f : File) (pos : ℕ) (old new : Buf) (lo hi : ℕ) : Type 0 where
  pub inside : (i : ℕ) → lo ≤ i → i < hi → new i ≡ f.byte (pos + i)
  pub before : (i : ℕ) → i < lo → new i ≡ old i
  pub behind : (i : ℕ) → hi ≤ i → new i ≡ old i

copy-Fetched :
    (f : File) (pos : ℕ) (old : Buf) (total n : ℕ)
    → Fetched f pos old (copy old total (λ i. f.byte (pos + total + i)) n) total (total + n)
unfolding copy
copy-Fetched f pos old total n = record {
  inside = λ i l u. ground arith;
  before = λ i l. ground arith;
  behind = λ i l. ground arith;
}

Fetched-trans :
    {f : File} {pos : ℕ} {a b c : Buf} {lo mid hi : ℕ}
    → lo ≤ mid
    → mid ≤ hi
    → Fetched f pos a b lo mid
    → Fetched f pos b c mid hi
    → Fetched f pos a c lo hi
Fetched-trans {mid} p q x y = record {
  inside = λ i l u. elim (Bool-cases (ltb i mid)) [
    | inl e ↦ y.before i (ground arith) ∙ x.inside i l (ground arith)
    | inr e ↦ y.inside i (ground arith) u
  ];
  before = λ i l. y.before i (omega arith) ∙ x.before i l;
  behind = λ i l. y.behind i l ∙ x.behind i (omega arith);
}

Fetched-refl : (f : File) (pos : ℕ) (b : Buf) (at : ℕ) → Fetched f pos b b at at
Fetched-refl f pos b at = record {
  inside = λ i l u. absurd (omega arith);
  before = λ i l. refl;
  behind = λ i l. refl;
}

-- If the calls of `read` succeed and reach the goal together, `read_all` returns, and the array then
-- has the file's bytes in the range and is otherwise unchanged, however they split it.
pub read_all-Fetched :
    (answers : Answers) (f : File) (pos : ℕ) (bytes : Buf) (goal total : ℕ)
    → total ≤ goal
    → Serves goal total answers
    → (new : Buf) × (read_all answers f pos bytes goal total ≡ done new)
      × Fetched f pos bytes new total goal
unfolding read_all
read_all-Fetched [] f pos bytes goal total p s =
    (bytes, ground arith, rw s (Fetched-refl f pos bytes goal))
read_all-Fetched (none ∷ rest) f pos bytes goal total p s = elim s [ ]
read_all-Fetched (some n ∷ rest) f pos bytes goal total p s = elim (Bool-cases (total == goal)) [
  | inl e ↦ rw e (bytes, refl, rw (==→eq total goal e) (Fetched-refl f pos bytes goal))
  | inr e ↦
      let (new, runs, x) =
        read_all-Fetched rest f pos (copy bytes total (λ i. f.byte (pos + total + i)) n) goal
          (total + n) s.0 s.1 in
      rw e (new, runs, Fetched-trans (omega arith) s.0 (copy-Fetched f pos bytes total n) x)
]

-- `read` returns at most what the file has left, and never fails.
abbrev pub AtEnd : File → ℕ → ℕ → Answers → Type 0
AtEnd f pos total [] = Unit
AtEnd f pos total (none ∷ rest) = ⊥
AtEnd f pos total (some n ∷ rest) =
    (pos + total + n ≤ max f.size (pos + total)) × AtEnd f pos (total + n) rest

-- A file that is too short keeps `read_all` waiting for ever: `read` returns 0 at the end of the
-- file, and the loop tests only for -1.
pub read_all-waiting :
    (answers : Answers) (f : File) (pos : ℕ) (bytes : Buf) (goal total : ℕ)
    → f.size < pos + goal
    → total < goal
    → AtEnd f pos total answers
    → read_all answers f pos bytes goal total ≡ waiting
unfolding read_all
read_all-waiting [] f pos bytes goal total short p s = ground arith
read_all-waiting (none ∷ rest) f pos bytes goal total short p s = elim s [ ]
read_all-waiting (some n ∷ rest) f pos bytes goal total short p s =
    let apart : (total == goal) ≡ false = ground arith in
    rw apart (
      read_all-waiting rest f pos (copy bytes total (λ i. f.byte (pos + total + i)) n) goal
        (total + n) short (omega (arith, s.0)) s.1)
