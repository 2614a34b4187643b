-- ===== src/LinkedList/Fifo.antt =====
-- The linked lists are queues: first in, first out.
use graduation_research_prog.Base.{
  ℕ, zero, suc, ◌≤◌, ◌≡◌, refl, sym, ◌∙◌, ap, Option, none, some, List, [], ◌∷◌, ◌++◌, length,
  arith,
}
use graduation_research_prog.LinkedList.{
  ListNode, Heap, LinkedList, update, create_list, add_node_list, try_delete_node_list, free_list,
}
use graduation_research_prog.LinkedList.Chain.{
  Absent, Chain, last_of, update_self, update-ne, update-Chain, Absent-Chain, Chain-Extended,
}

module _ {A : Type 0} where
  -- The list holds these items, at these addresses: they hang on `head`, and `tail` points to the last.
  pub record IsQueue (s : LinkedList A) (xs : List (ℕ × A)) : Type 0 where
    pub chain : Chain s.heap s.head xs
    pub last : s.tail ≡ last_of xs

  pub create_list-IsQueue : (h : Heap A) → IsQueue (create_list h) []
  unfolding create_list
  create_list-IsQueue h = record { chain = refl; last = refl }

  fresh-Chain :
      (h : Heap A) (a : ℕ) (v : ListNode A) (xs : List (ℕ × A)) (p : Option ℕ)
      → h a ≡ none
      → Chain h p xs
      → Chain (update h a (some v)) p xs
  fresh-Chain h a v xs p e c = update-Chain h a (some v) xs p (Absent-Chain h a xs p e c) c

  add-empty :
      (s : LinkedList A) (a : ℕ) (x : A)
      → s.tail ≡ none
      → add_node_list a x s
        ≡ some (record {
          heap = update s.heap a (some (record { item = x; next = none }));
          head = some a;
          tail = some a;
        })
  unfolding add_node_list
  add-empty s a x e = rw e

  add-behind :
      (s : LinkedList A) (a : ℕ) (x : A) (t : ℕ) (node : ListNode A)
      → s.tail ≡ some t
      → update s.heap a (some (record { item = x; next = none })) t ≡ some node
      → add_node_list a x s
        ≡ some (record {
          heap =
              update
                (update s.heap a (some (record { item = x; next = none })))
                t
                (some (record node { next = some a }));
          head = s.head;
          tail = some a;
        })
  unfolding add_node_list
  add-behind s a x t node e f = rw (e, add_node_list, f)

  last_of-append : (a : ℕ) (x : A) (xs : List (ℕ × A)) → last_of (xs ++ ((a, x) ∷ [])) ≡ some a
  last_of-append a x [] = refl
  last_of-append a x (y ∷ []) = refl
  last_of-append a x (y ∷ (z ∷ xs)) = last_of-append a x (z ∷ xs)

  -- A node that `malloc` placed where no node was: adding succeeds, and the list then holds the items
  -- from before and, behind them, the new one.
  pub add_node_list-IsQueue :
      (s : LinkedList A) (xs : List (ℕ × A)) (a : ℕ) (x : A)
      → s.heap a ≡ none
      → IsQueue s xs
      → (t : LinkedList A) × (add_node_list a x s ≡ some t) × IsQueue t (xs ++ ((a, x) ∷ []))
  add_node_list-IsQueue s [] a x e v = (
    record {
      heap = update s.heap a (some (record { item = x; next = none }));
      head = some a;
      tail = some a;
    },
    add-empty s a x v.last,
    record { chain = (refl, tt, none, update_self s.heap a _, refl); last = refl },
  )
  add_node_list-IsQueue s (c ∷ xs) a x e v =
      let new : ListNode A = record { item = x; next = none } in
      let w =
        Chain-Extended (update s.heap a (some new)) a x (update_self s.heap a (some new)) c xs
          s.head (Absent-Chain s.heap a (c ∷ xs) s.head e v.chain)
          (fresh-Chain s.heap a new (c ∷ xs) s.head e v.chain) in
      (
        record {
          heap =
              update (update s.heap a (some new)) w.last (some (record w.node { next = some a }));
          head = s.head;
          tail = some a;
        },
        add-behind s a x w.last w.node (v.last ∙ w.is_last) w.cell,
        record { chain = w.chain; last = sym (last_of-append a x (c ∷ xs)) },
      )

  -- what a delete takes out
  abbrev pub first_of : List (ℕ × A) → Option A
  first_of [] = none
  first_of ((_, x) ∷ xs) = some x

  -- and what it leaves
  abbrev pub rest_of : List (ℕ × A) → List (ℕ × A)
  rest_of [] = []
  rest_of (_ ∷ xs) = xs

  delete-none : (s : LinkedList A) → s.head ≡ none → try_delete_node_list s ≡ some (s, none)
  unfolding try_delete_node_list
  delete-none s e = simp (e, try_delete_node_list)

  delete-only :
      (s : LinkedList A) (a : ℕ) (x : A)
      → s.head ≡ some a
      → s.heap a ≡ some (record { item = x; next = none })
      → try_delete_node_list s
        ≡ some (record { heap = update s.heap a none; head = none; tail = none }, some x)
  unfolding try_delete_node_list
  delete-only s a x e f = rw (e, f)

  delete-more :
      (s : LinkedList A) (a b : ℕ) (x : A)
      → s.head ≡ some a
      → s.heap a ≡ some (record { item = x; next = some b })
      → try_delete_node_list s
        ≡ some (record { heap = update s.heap a none; head = some b; tail = s.tail }, some x)
  unfolding try_delete_node_list
  delete-more s a b x e f = rw (e, f)

  -- A delete succeeds: of an empty list it returns NULL and changes nothing, and otherwise it returns
  -- the first item, and the list then holds the others, in order.
  pub try_delete_node_list-IsQueue :
      (s : LinkedList A) (xs : List (ℕ × A))
      → IsQueue s xs
      → (t : LinkedList A) × (try_delete_node_list s ≡ some (t, first_of xs))
        × IsQueue t (rest_of xs)
  try_delete_node_list-IsQueue s [] v = (s, delete-none s v.chain, v)
  try_delete_node_list-IsQueue s ((a, x) ∷ []) v =
      let (at, alone, n, cell, ends) = v.chain in
      (
        record { heap = update s.heap a none; head = none; tail = none },
        delete-only s a x at (cell ∙ ap (λ m. some (record { item = x; next = m })) ends),
        record { chain = refl; last = refl },
      )
  try_delete_node_list-IsQueue s ((a, x) ∷ ((b, y) ∷ ys)) v =
      let (at, alone, n, cell, rest) = v.chain in
      (
        record { heap = update s.heap a none; head = some b; tail = s.tail },
        delete-more s a b x at (cell ∙ ap (λ m. some (record { item = x; next = m })) rest.0),
        record {
          chain =
              update-Chain s.heap a none ((b, y) ∷ ys) (some b) alone
                (refl, rest.1, rest.2, rest.3, rest.4);
          last = v.last;
        },
      )

  -- no node stands at any of these addresses
  abbrev pub Freed : Heap A → List (ℕ × A) → Type 0
  Freed h [] = Unit
  Freed h ((a, _) ∷ xs) = (h a ≡ none) × Freed h xs

  free-node :
      (fuel : ℕ) (s : LinkedList A) (a : ℕ) (node : ListNode A)
      → s.head ≡ some a
      → s.heap a ≡ some node
      → free_list (suc fuel) s
        ≡ free_list fuel (record s { heap = update s.heap a none; head = node.next })
  unfolding free_list
  free-node fuel s a node e f = rw (e, f)

  free-end : (fuel : ℕ) (s : LinkedList A) → s.head ≡ none → free_list fuel s ≡ some s
  unfolding free_list
  free-end zero s e = simp (e, free_list)
  free-end (suc fuel) s e = simp (e, free_list)

  -- what `free_list_lem` says, for all addresses at once
  free_list-Chain :
      (fuel : ℕ) (s : LinkedList A) (xs : List (ℕ × A))
      → length xs ≤ fuel
      → Chain s.heap s.head xs
      → (t : LinkedList A) × (free_list fuel s ≡ some t)
        × (t.head ≡ none)
        × Freed t.heap xs
        × ((b : ℕ) → Absent b xs → t.heap b ≡ s.heap b)
  free_list-Chain fuel s [] enough c = (s, free-end fuel s c, c, tt, λ b out. refl)
  free_list-Chain zero s ((a, x) ∷ xs) enough c = absurd (omega arith)
  free_list-Chain (suc fuel) s ((a, x) ∷ xs) enough (at, alone, n, cell, rest) =
      let (t, runs, ends, freed, same) =
        free_list-Chain fuel (record s { heap = update s.heap a none; head = n }) xs (omega arith)
          (update-Chain s.heap a none xs n alone rest) in
      (
        t,
        free-node fuel s a (record { item = x; next = n }) at cell ∙ runs,
        ends,
        (same a alone ∙ update_self s.heap a none, freed),
        λ b out. same b out.1 ∙ update-ne s.heap a b none (λ e. out.0 (sym e)),
      )

  -- With fuel for each node the loop of `free_list` ends: none of the list's nodes is left, any other
  -- address is as before, and the head is NULL.
  pub free_list_lem :
      (fuel : ℕ) (s : LinkedList A) (xs : List (ℕ × A)) (b : ℕ)
      → length xs ≤ fuel
      → Chain s.heap s.head xs
      → Absent b xs
      → (t : LinkedList A) × (free_list fuel s ≡ some t)
        × (t.head ≡ none)
        × Freed t.heap xs
        × (t.heap b ≡ s.heap b)
  free_list_lem fuel s xs b enough c out =
      let (t, runs, ends, freed, same) = free_list-Chain fuel s xs enough c in
      (t, runs, ends, freed, same b out)
