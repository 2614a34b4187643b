-- ===== src/LinkedList/Chain.antt =====
-- The nodes that hang on a pointer, one after another, and what writes elsewhere leave of them.
use graduation_research_prog.Base.{
  ℕ, ◌≡◌, ◌≢◌, refl, sym, ◌∙◌, Option, none, some, List, [], ◌∷◌, ◌++◌, arith,
}
use graduation_research_prog.LinkedList.{ListNode, Heap, update}

module _ {A : Type 0} where
  -- none of the nodes stands at `a`
  abbrev pub Absent : ℕ → List (ℕ × A) → Type 0
  Absent a [] = Unit
  Absent a ((b, _) ∷ xs) = (a ≢ b) × Absent a xs

  -- From `p` the nodes at these addresses, all different, hold these items, and the last points to NULL.
  abbrev pub Chain : Heap A → Option ℕ → List (ℕ × A) → Type 0
  Chain h p [] = p ≡ none
  Chain h p ((a, x) ∷ xs) =
      (p ≡ some a)
      × Absent a xs
      × (n : Option ℕ) × (h a ≡ some (record { item = x; next = n }))
      × Chain h n xs

  -- the address of the last node
  abbrev pub last_of : List (ℕ × A) → Option ℕ
  last_of [] = none
  last_of ((a, _) ∷ []) = some a
  last_of (_ ∷ (y ∷ ys)) = last_of (y ∷ ys)

  pub update_self : (h : Heap A) (a : ℕ) (v : Option (ListNode A)) → update h a v a ≡ v
  unfolding update
  update_self h a v = ground arith

  pub update-ne : (h : Heap A) (a b : ℕ) (v : Option (ListNode A)) → a ≢ b → update h a v b ≡ h b
  unfolding update
  update-ne h a b v ne = ground arith

  -- A write at an address of none of the nodes leaves the chain.
  pub update-Chain :
      (h : Heap A) (a : ℕ) (v : Option (ListNode A)) (xs : List (ℕ × A)) (p : Option ℕ)
      → Absent a xs
      → Chain h p xs
      → Chain (update h a v) p xs
  update-Chain h a v [] p out c = c
  update-Chain h a v ((b, x) ∷ xs) p out (at, alone, n, cell, rest) =
      (at, alone, n, update-ne h a b v out.0 ∙ cell, update-Chain h a v xs n out.1 rest)

  -- An address without a node is none of the chain's.
  pub Absent-Chain :
      (h : Heap A) (a : ℕ) (xs : List (ℕ × A)) (p : Option ℕ)
      → h a ≡ none
      → Chain h p xs
      → Absent a xs
  Absent-Chain h a [] p e c = tt
  Absent-Chain h a ((b, x) ∷ xs) p e (at, alone, n, cell, rest) =
      ((λ same. absurd (clash b x n same cell)), Absent-Chain h a xs n e rest)
    where
      clash :
          (b : ℕ) (x : A) (n : Option ℕ) → a ≡ b → h b ≡ some (record { item = x; next = n }) → ⊥
      clash b x n same cell = cc

  Absent-append :
      (a b : ℕ) (x : A) (xs : List (ℕ × A)) → a ≢ b → Absent a xs → Absent a (xs ++ ((b, x) ∷ []))
  Absent-append a b x [] ne out = (ne, tt)
  Absent-append a b x (y ∷ xs) ne out = (out.0, Absent-append a b x xs ne out.1)

  -- the last node of a chain, and the chain once that node points to a new one behind it
  pub record Extended (h : Heap A) (p : Option ℕ) (xs : List (ℕ × A)) (new_node : ℕ) (x : A)
      : Type 0 where
    pub last : ℕ
    pub node : ListNode A
    pub is_last : last_of xs ≡ some last
    pub cell : h last ≡ some node
    pub apart : (b : ℕ) → Absent b xs → b ≢ last
    pub chain :
        Chain
          (update h last (some (record node { next = some new_node })))
          p
          (xs ++ ((new_node, x) ∷ []))

  pub Chain-Extended :
      (h : Heap A) (new_node : ℕ) (x : A)
      → h new_node ≡ some (record { item = x; next = none })
      → (c : ℕ × A) (xs : List (ℕ × A)) (p : Option ℕ) → Absent new_node (c ∷ xs)
      → Chain h p (c ∷ xs)
      → Extended h p (c ∷ xs) new_node x
  Chain-Extended h new_node x e (a, y) [] p (ne, _) (at, alone, n, cell, ends) = record {
    last = a;
    node = record { item = y; next = n };
    is_last = refl;
    cell = cell;
    apart = λ b out. out.0;
    chain = (
      at,
      ((λ same. ne (sym same)), tt),
      some new_node,
      update_self h a _,
      (refl, tt, none, update-ne h a new_node _ (λ same. ne (sym same)) ∙ e, refl),
    );
  }
  Chain-Extended h new_node x e (a, y) (d ∷ xs) p (ne, out) (at, alone, n, cell, rest) =
      let w = Chain-Extended h new_node x e d xs n out rest in
      record {
        last = w.last;
        node = w.node;
        is_last = w.is_last;
        cell = w.cell;
        apart = λ b gone. w.apart b gone.1;
        chain = (
          at,
          Absent-append a new_node x (d ∷ xs) (λ same. ne (sym same)) alone,
          n,
          update-ne h w.last a _ (λ same. w.apart a alone (sym same)) ∙ cell,
          w.chain,
        );
      }
