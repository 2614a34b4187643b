-- ===== src/Base/Family.antt =====
-- One value for each replica, client or thread, changed for one of them.
use Prim.Native.Nat.{ℕ}
use mathlib.Core.Path.{◌≡◌, refl, sym, subst}
use mathlib.Core.Bool.{false}
use mathlib.Core.Logic.{◌≢◌, inl, inr}
use native.Mathlib.Omega.{arith}
use graduation_research_prog.Base.Tests.{◌==◌, if◌then◌else◌, ==→eq, Bool-cases}

abbrev pub update : {A : Type 0} → ℕ → A → (ℕ → A) → ℕ → A
update r a f q = if q == r then a else f q

-- A property of every replica survives a change of one, if it holds of the new value.
pub update-each :
    {A : Type 0} (P : ℕ → A → Type 0) (r : ℕ) (a : A) (f : ℕ → A)
    → P r a
    → ((q : ℕ) → P q (f q))
    → (q : ℕ) → P q (update r a f q)
update-each P r a f p all q = elim (Bool-cases (q == r)) [
  | inl hit ↦ rw hit (subst (λ k. P k a) (sym (==→eq q r hit)) p)
  | inr miss ↦ rw miss (all q)
]

pub update_self : {A : Type 0} (r : ℕ) (a : A) (f : ℕ → A) → update r a f r ≡ a
update_self r a f = ground arith

pub update_other : {A : Type 0} (q r : ℕ) (a : A) (f : ℕ → A) → q ≢ r → update r a f q ≡ f q
update_other q r a f ne = let miss : (q == r) ≡ false = ground arith in rw miss refl
