-- ===== src/Words.antt =====
-- Conversions and comparisons of C's integer types on bit patterns.
use graduation_research_prog.Base.{ℕ, ◌+◌, ◌-◌, ◌%◌, ◌^◌, Bool, ltb, leb, if◌then◌else◌}

-- -1 as a `short` and as an `int`
abbrev pub short_minus_one : ℕ
short_minus_one = 0xffff

abbrev pub int_minus_one : ℕ
int_minus_one = 0xffff_ffff

-- `(int)` of a `short` and of a `char`: the sign is extended
abbrev pub int_of_short : ℕ → ℕ
int_of_short w = if ltb w (2 ^ 15) then w else w + (2 ^ 32 - 2 ^ 16)

abbrev pub int_of_char : ℕ → ℕ
int_of_char w = if ltb w (2 ^ 7) then w else w + (2 ^ 32 - 2 ^ 8)

-- `(short)` of an `int`
abbrev pub short_of_int : ℕ → ℕ
short_of_int w = w % 2 ^ 16

-- `a < b` and `a <= b` on `int`
abbrev pub int_lt : ℕ → ℕ → Bool
int_lt a b = ltb ((a + 2 ^ 31) % 2 ^ 32) ((b + 2 ^ 31) % 2 ^ 32)

abbrev pub int_le : ℕ → ℕ → Bool
int_le a b = leb ((a + 2 ^ 31) % 2 ^ 32) ((b + 2 ^ 31) % 2 ^ 32)

-- `a + 1` on `int` and on `short`
abbrev pub int_inc : ℕ → ℕ
int_inc a = (a + 1) % 2 ^ 32

abbrev pub short_inc : ℕ → ℕ
short_inc a = (a + 1) % 2 ^ 16

-- the rounds of `for (int i = 0; i < n; i++)` at a `short` bound: none for a negative one
abbrev pub rounds : ℕ → ℕ
rounds w = if ltb w (2 ^ 15) then w else 0
