-- ===== src/Outcome.antt =====
-- How a piece of the program ends: with a value, or with the process.
use graduation_research_prog.Base.{◌≡◌, refl, Bool, true, false, if◌then◌else◌}

-- `exit` is `exit(1)`, `abort` a failed assertion, and `waiting` a loop that is still running when
-- what the model gives it is used up.
pub data Outcome (A : Type 0) : Type 0 where
  done : A → Outcome A
  exit : Outcome A
  abort : Outcome A
  waiting : Outcome A

abbrev pub and_then : {A B : Type 0} → Outcome A → (A → Outcome B) → Outcome B
and_then (done a) k = k a
and_then exit k = exit
and_then abort k = abort
and_then waiting k = waiting

-- what holds of the value, if there is one
abbrev pub Ensures : {A : Type 0} → (A → Type 0) → Outcome A → Type 0
Ensures P (done a) = P a
Ensures P exit = Unit
Ensures P abort = Unit
Ensures P waiting = Unit

pub Ensures-and_then :
    {A B : Type 0} (P : B → Type 0) (m : Outcome A) (k : A → Outcome B)
    → ((a : A) → Ensures P (k a))
    → Ensures P (and_then m k)
Ensures-and_then P (done a) k h = h a
Ensures-and_then P exit k h = tt
Ensures-and_then P abort k h = tt
Ensures-and_then P waiting k h = tt

pub Ensures-if :
    {A : Type 0} (P : A → Type 0) (b : Bool) (m n : Outcome A)
    → (b ≡ true → Ensures P m)
    → (b ≡ false → Ensures P n)
    → Ensures P (if b then m else n)
Ensures-if P true m n h k = h refl
Ensures-if P false m n h k = k refl

pub Ensures-bind :
    {A B : Type 0} (P : A → Type 0) (Q : B → Type 0) (m : Outcome A) (k : A → Outcome B)
    → Ensures P m
    → ((a : A) → P a → Ensures Q (k a))
    → Ensures Q (and_then m k)
Ensures-bind P Q (done a) k p h = h a p
Ensures-bind P Q exit k p h = tt
Ensures-bind P Q abort k p h = tt
Ensures-bind P Q waiting k p h = tt

pub Ensures-mono :
    {A : Type 0} {P Q : A → Type 0} (m : Outcome A)
    → Ensures P m
    → ((a : A) → P a → Q a)
    → Ensures Q m
Ensures-mono (done a) p h = h a p
Ensures-mono exit p h = tt
Ensures-mono abort p h = tt
Ensures-mono waiting p h = tt

pub done-injective : {A : Type 0} {a b : A} → done a ≡ done b → a ≡ b
done-injective h = cc
