-- ===== src/LinkedList/Tests.antt =====
-- Examples of batch/batch_list.c and tx/transaction_list.c.
use graduation_research_prog.Base.{◌≡◌, refl, none, some, [], ◌∷◌, arith}
use graduation_research_prog.Batch.{Batch}
use graduation_research_prog.Tx.{Tx}
use graduation_research_prog.Samples.{batch_of, tx_of}
use graduation_research_prog.LinkedList.{
  LinkedList, update, add_node_batch_list, try_delete_node_tx_list, free_tx_list,
}
use graduation_research_prog.LinkedList.Fifo.{
  IsQueue, Freed, add_node_list-IsQueue, try_delete_node_list-IsQueue, free_list_lem,
}

-- a list of any items, at the addresses 8 and 5
abbrev two_nodes : {A : Type 0} → A → A → LinkedList A
two_nodes {A} x y = record {
  heap =
      update (update (λ a. none) 8 (some (record { item = x; next = some 5 }))) 5
        (some (record { item = y; next = none }));
  head = some 8;
  tail = some 5;
}

two_nodes-IsQueue : {A : Type 0} (x y : A) → IsQueue (two_nodes x y) ((8, x) ∷ (5, y) ∷ [])
unfolding update
two_nodes-IsQueue x y = record {
  chain = (refl, ((λ e. omega arith), tt), some 5, refl, (refl, tt, none, refl, refl));
  last = refl;
}

heap-free : (two_nodes (batch_of 0) (batch_of 1)).heap 3 ≡ none
unfolding update
heap-free = refl

add_node_list-IsQueue_example :
    (t : LinkedList Batch) × (add_node_batch_list 3
        (batch_of 2)
        (two_nodes (batch_of 0) (batch_of 1))
      ≡ some t)
    × IsQueue t ((8, batch_of 0) ∷ (5, batch_of 1) ∷ (3, batch_of 2) ∷ [])
add_node_list-IsQueue_example =
    add_node_list-IsQueue (two_nodes (batch_of 0) (batch_of 1))
      ((8, batch_of 0) ∷ (5, batch_of 1) ∷ []) 3 (batch_of 2) heap-free
      (two_nodes-IsQueue (batch_of 0) (batch_of 1))

try_delete_node_list-IsQueue_example :
    (t : LinkedList Tx) × (try_delete_node_tx_list (two_nodes (tx_of 1) (tx_of 2))
      ≡ some (t, some (tx_of 1)))
    × IsQueue t ((5, tx_of 2) ∷ [])
try_delete_node_list-IsQueue_example =
    try_delete_node_list-IsQueue (two_nodes (tx_of 1) (tx_of 2)) ((8, tx_of 1) ∷ (5, tx_of 2) ∷ [])
      (two_nodes-IsQueue (tx_of 1) (tx_of 2))

free_list_example :
    (t : LinkedList Tx) × (free_tx_list 2 (two_nodes (tx_of 1) (tx_of 2)) ≡ some t)
    × (t.head ≡ none)
    × Freed t.heap ((8, tx_of 1) ∷ (5, tx_of 2) ∷ [])
    × (t.heap 6 ≡ (two_nodes (tx_of 1) (tx_of 2)).heap 6)
free_list_example =
    free_list_lem 2 (two_nodes (tx_of 1) (tx_of 2)) ((8, tx_of 1) ∷ (5, tx_of 2) ∷ []) 6
      (omega arith) (two_nodes-IsQueue (tx_of 1) (tx_of 2)).chain
      ((λ e. omega arith), ((λ e. omega arith), tt))
