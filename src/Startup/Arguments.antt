-- ===== src/Startup/Arguments.antt =====
-- The arguments of the two main programs.
use graduation_research_prog.Base.{
  ℕ, ◌+◌, ◌-◌, ◌*◌, ◌%◌, ◌^◌, ◌<◌, ◌≡◌, refl, ◌∙◌, ap, ◌==◌, leb, Bool, true, false, ◌&&◌, ◌||◌,
  if◌then◌else◌, List, [], ◌∷◌, arith,
}
use graduation_research_prog.Outcome.{Outcome, done, exit, and_then}
use graduation_research_prog.Config.{Method, proposed_method, conventional_method, tcp_method}

-- `strcmp(a, b) == 0`
unfoldable pub same_text : List ℕ → List ℕ → Bool
same_text [] [] = true
same_text [] (c ∷ text) = false
same_text (c ∷ text) [] = false
same_text (c ∷ text) (d ∷ other) = c == d && same_text text other

-- "prop", "conv" and "tcp"
unfoldable pub method_text : Method → List ℕ
method_text proposed_method = 112 ∷ 114 ∷ 111 ∷ 112 ∷ []
method_text conventional_method = 99 ∷ 111 ∷ 110 ∷ 118 ∷ []
method_text tcp_method = 116 ∷ 99 ∷ 112 ∷ []

-- the chain of tests
unfoldable pub method_of : List ℕ → Outcome Method
method_of arg =
    if same_text (method_text proposed_method) arg
    then done proposed_method
    else if same_text (method_text conventional_method) arg
    then done conventional_method
    else if same_text (method_text tcp_method) arg
    then done tcp_method
    else exit

-- `main` of the master: the program's name and one argument, at least
unfoldable pub master_arguments : List (List ℕ) → Outcome Method
master_arguments [] = exit
master_arguments (program ∷ []) = exit
master_arguments (program ∷ arg ∷ others) = method_of arg

-- The C library's `atoi`: spaces, a sign, and decimal digits.
unfoldable pub digits : List ℕ → ℕ → ℕ
digits [] n = n
digits (c ∷ text) n =
    let rest = digits text (10 * n + (c - 48)) in if leb 48 c && leb c 57 then rest else n

unfoldable pub signed : List ℕ → ℕ
signed [] = 0
signed (c ∷ text) =
    if c == 45
    then (2 ^ 32 - digits text 0 % 2 ^ 32) % 2 ^ 32
    else if c == 43
    then digits text 0 % 2 ^ 32
    else digits (c ∷ text) 0 % 2 ^ 32

unfoldable pub atoi : List ℕ → ℕ
atoi [] = 0
atoi (c ∷ text) =
    let rest = atoi text in if c == 32 || (leb 9 c && leb c 13) then rest else signed (c ∷ text)

-- `main` of a slave: its replica, and the method
unfoldable pub slave_arguments : List (List ℕ) → Outcome (ℕ × Method)
slave_arguments [] = exit
slave_arguments (program ∷ []) = exit
slave_arguments (program ∷ id ∷ []) = exit
slave_arguments (program ∷ id ∷ arg ∷ others) =
    and_then (method_of arg) (λ exp. done (atoi id, exp))

same_text_self : (text : List ℕ) → same_text text text ≡ true
unfolding same_text
same_text_self [] = refl
same_text_self (c ∷ text) = let hit : (c == c) ≡ true = ground arith in rw hit (same_text_self text)

method_of-text : (exp : Method) → method_of (method_text exp) ≡ done exp
unfolding method_of method_text same_text
method_of-text proposed_method = refl
method_of-text conventional_method = refl
method_of-text tcp_method = refl

atoi-digit : (id : ℕ) → id < 10 → atoi ((48 + id) ∷ []) ≡ id
unfolding atoi signed digits
atoi-digit id h = ground arith

slave_arguments-both :
    (program id text : List ℕ) (others : List (List ℕ)) (exp : Method)
    → method_of text ≡ done exp
    → slave_arguments (program ∷ id ∷ text ∷ others) ≡ done (atoi id, exp)
unfolding slave_arguments
slave_arguments-both program id text others exp h = rw h refl

-- The method's name as the last argument that counts: the master runs this method, and a slave with the
-- digit of its replica before it runs as that replica, with this method.
pub arguments-text :
    (program : List ℕ) (id : ℕ) (exp : Method) (others : List (List ℕ))
    → id < 10
    → (master_arguments (program ∷ method_text exp ∷ others) ≡ done exp)
      × (slave_arguments (program ∷ ((48 + id) ∷ []) ∷ method_text exp ∷ others) ≡ done (id, exp))
unfolding master_arguments
arguments-text program id exp others h = (
  method_of-text exp,
  slave_arguments-both program ((48 + id) ∷ []) (method_text exp) others exp (method_of-text exp)
      ∙ ap (λ r. done (r, exp)) (atoi-digit id h),
)
