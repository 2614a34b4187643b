-- ===== src/LinkedList.antt =====
-- batch/batch_list.c and tx/transaction_list.c: the queues, as singly linked lists on a heap. The two
-- files differ in what a node holds alone, and so the model has one list of any `A`. The functions
-- hold the list's mutex, so each is one step. The address that `malloc` returns is an argument, and a
-- result `none` is a read or a write through a pointer to no node.
pub mod Chain
pub mod Fifo
mod Tests
use graduation_research_prog.Base.{
  ℕ, zero, suc, ◌==◌, if◌then◌else◌, Bool, true, false, Option, none, some,
}
use graduation_research_prog.Tx.{Tx}
use graduation_research_prog.Batch.{Batch}

-- `batch_list_node_t` and `tx_list_node_t`; `none` is NULL
pub record ListNode (A : Type 0) : Type 0 where
  pub item : A
  pub next : Option ℕ

abbrev pub Heap : Type 0 → Type 0
Heap A = ℕ → Option (ListNode A)

-- `batch_list_t` and `tx_list_t`, with the heap that holds the nodes
pub record LinkedList (A : Type 0) : Type 0 where
  pub heap : Heap A
  pub head : Option ℕ
  pub tail : Option ℕ

module _ {A : Type 0} where
  -- a write, or with `none` a `free`, at one address
  unfoldable pub update : Heap A → ℕ → Option (ListNode A) → Heap A
  update h a v b = if a == b then v else h b

  unfoldable pub create_list : Heap A → LinkedList A
  create_list heap = record { heap = heap; head = none; tail = none }

  unfoldable pub add_node_list : ℕ → A → LinkedList A → Option (LinkedList A)
  add_node_list new_node item s =
      let made = update s.heap new_node (some (record { item = item; next = none })) in
      elim s.tail [
        | none ↦ some (record { heap = made; head = some new_node; tail = some new_node })
        | some t ↦ elim (made t) [
          | none ↦ none
          | some node ↦ some (record {
            heap = update made t (some (record node { next = some new_node }));
            head = s.head;
            tail = some new_node;
          })
        ]
      ]

  -- the list without its first node, and what that node held: `none` inside the result is NULL
  unfoldable pub try_delete_node_list : LinkedList A → Option (LinkedList A × Option A)
  try_delete_node_list s = elim s.head [
    | none ↦ some (s, none)
    | some delete_node ↦ elim (s.heap delete_node) [
      | none ↦ none
      | some node ↦
          let freed = update s.heap delete_node none in
          elim node.next [
            | none ↦ some (record { heap = freed; head = none; tail = none }, some node.item)
            | some n ↦ some (record { heap = freed; head = some n; tail = s.tail }, some node.item)
          ]
    ]
  ]

  unfoldable pub list_is_empty : LinkedList A → Bool
  list_is_empty s = elim s.head [ none ↦ true | some a ↦ false ]

  -- The loop of `free_list`, on fuel. `none` is fuel that runs out, or a pointer to no node.
  unfoldable pub free_list : ℕ → LinkedList A → Option (LinkedList A)
  unfolding update
  free_list zero s = elim s.head [ none ↦ some s | some a ↦ none ]
  free_list (suc fuel) s = elim s.head [
    | none ↦ some s
    | some a ↦ elim (s.heap a) [
      | none ↦ none
      | some node ↦ free_list fuel (record s { heap = update s.heap a none; head = node.next })
    ]
  ]

-- the two queues
abbrev pub create_batch_list : Heap Batch → LinkedList Batch
create_batch_list = create_list

abbrev pub create_tx_list : Heap Tx → LinkedList Tx
create_tx_list = create_list

abbrev pub add_node_batch_list : ℕ → Batch → LinkedList Batch → Option (LinkedList Batch)
add_node_batch_list = add_node_list

abbrev pub try_delete_node_batch_list : LinkedList Batch → Option (LinkedList Batch × Option Batch)
try_delete_node_batch_list = try_delete_node_list

abbrev pub is_empty_batch_list : LinkedList Batch → Bool
is_empty_batch_list = list_is_empty

abbrev pub free_batch_list : ℕ → LinkedList Batch → Option (LinkedList Batch)
free_batch_list = free_list

abbrev pub add_node_tx_list : ℕ → Tx → LinkedList Tx → Option (LinkedList Tx)
add_node_tx_list = add_node_list

abbrev pub try_delete_node_tx_list : LinkedList Tx → Option (LinkedList Tx × Option Tx)
try_delete_node_tx_list = try_delete_node_list

abbrev pub tx_list_is_empty : LinkedList Tx → Bool
tx_list_is_empty = list_is_empty

abbrev pub free_tx_list : ℕ → LinkedList Tx → Option (LinkedList Tx)
free_tx_list = free_list
