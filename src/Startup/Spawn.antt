-- ===== src/Startup/Spawn.antt =====
-- master/master_sequencer.c: the threads that `master_sequencer_startup` starts, and their ports.
use graduation_research_prog.Base.{
  ℕ, zero, suc, ◌-◌, ◌≡◌, refl, ◌∙◌, ap, ◌==◌, not, ◌&&◌, Bool, true, false, if◌then◌else◌, Option,
  none, some, some-injective, subst, fun_ext, get_elem?-map, List, [], ◌∷◌, ◌++◌, map, get_elem?,
  arith,
}
use graduation_research_prog.Outcome.{Outcome, done, exit, and_then}
use graduation_research_prog.Config.{
  Method, proposed_method, conventional_method, tcp_method,
  get_port_master_sequencer_from_client_interface, get_port_master_sequencer_from_slave_sequencer,
}
use graduation_research_prog.Config.Constants.{replica_num, client_num}

-- a thread by its function and what is in its argument
pub data Thread : Type 0 where
  recieve_tx_connection : (replica_id client_id : ℕ) → Thread
  send_batch_connection : (exp : Method) → (connection_replica_id : ℕ) → Thread

-- `k` rounds of the inner loop, from the client `client_id` on, and of the outer one. `ret` is what
-- `pthread_create` returns for a thread.
unfoldable pub spawn_clients : (Thread → ℕ) → (k replica_id client_id : ℕ) → Outcome (List Thread)
spawn_clients ret zero replica_id client_id = done []
spawn_clients ret (suc k) replica_id client_id =
    let rest = spawn_clients ret k replica_id (suc client_id) in
    let thread = recieve_tx_connection replica_id client_id in
    if not (ret thread == 0) then exit else and_then rest (λ threads. done (thread ∷ threads))

unfoldable pub spawn_receivers : (Thread → ℕ) → (k replica_id : ℕ) → Outcome (List Thread)
spawn_receivers ret zero replica_id = done []
spawn_receivers ret (suc k) replica_id =
    let rest = spawn_receivers ret k (suc replica_id) in
    and_then (spawn_clients ret client_num replica_id 0)
      (λ some_threads. and_then rest (λ threads. done (some_threads ++ threads)))

-- the threads for the slaves: none for TCP
unfoldable pub spawn_senders : (Thread → ℕ) → Method → (k r_id : ℕ) → Outcome (List Thread)
spawn_senders ret exp zero r_id = done []
spawn_senders ret tcp_method (suc k) r_id = spawn_senders ret tcp_method k (suc r_id)
spawn_senders ret proposed_method (suc k) r_id =
    let rest = spawn_senders ret proposed_method k (suc r_id) in
    let thread = send_batch_connection proposed_method r_id in
    if not (ret thread == 0) then exit else and_then rest (λ threads. done (thread ∷ threads))
spawn_senders ret conventional_method (suc k) r_id =
    let rest = spawn_senders ret conventional_method k (suc r_id) in
    let thread = send_batch_connection conventional_method r_id in
    if not (ret thread == 0) then exit else and_then rest (λ threads. done (thread ∷ threads))

-- all threads of the master, in the order in which they are started
unfoldable pub master_threads : (Thread → ℕ) → Method → Outcome (List Thread)
master_threads ret exp = and_then (spawn_receivers ret (replica_num - 1) 1) (λ receivers.
    and_then (spawn_senders ret exp (replica_num - 1) 1) (λ senders. done (receivers ++ senders)))

-- `my_port`, at which a thread receives
unfoldable pub my_port : Thread → Option ℕ
my_port (recieve_tx_connection replica_id client_id) =
    get_port_master_sequencer_from_client_interface replica_id client_id
my_port (send_batch_connection exp connection_replica_id) =
    get_port_master_sequencer_from_slave_sequencer connection_replica_id

-- each has a port, and no port comes twice
abbrev absent : ℕ → List (Option ℕ) → Bool
absent p [] = true
absent p (none ∷ ports) = false
absent p (some q ∷ ports) = not (p == q) && absent p ports

abbrev all_distinct : List (Option ℕ) → Bool
all_distinct [] = true
all_distinct (none ∷ ports) = false
all_distinct (some p ∷ ports) = absent p ports && all_distinct ports

absent-distinct :
    (p : ℕ) (ports : List (Option ℕ)) (j : ℕ)
    → absent p ports ≡ true
    → get_elem? ports j ≡ some (some p)
    → ⊥
absent-distinct p [] j h at = cc
absent-distinct p (none ∷ ports) j h at = cc
absent-distinct p (some q ∷ ports) zero h at =
    let same : some q ≡ some p = some-injective at in
    let equal : q ≡ p = some-injective same in ground (arith, equal, h)
absent-distinct p (some q ∷ ports) (suc j) h at = absent-distinct p ports j (ground arith) at

distinct_places :
    (ports : List (Option ℕ)) (i j p : ℕ)
    → all_distinct ports ≡ true
    → get_elem? ports i ≡ some (some p)
    → get_elem? ports j ≡ some (some p)
    → i ≡ j
distinct_places [] i j p h at there = cc
distinct_places (none ∷ ports) i j p h at there = cc
distinct_places (some q ∷ ports) zero zero p h at there = refl
distinct_places (some q ∷ ports) zero (suc j) p h at there =
    let same : some q ≡ some p = some-injective at in
    absurd (
      absent-distinct p ports j
        (subst (λ k. absent k ports ≡ true) (some-injective same) (ground arith)) there)
distinct_places (some q ∷ ports) (suc i) zero p h at there =
    let same : some q ≡ some p = some-injective there in
    absurd (
      absent-distinct p ports i
        (subst (λ k. absent k ports ≡ true) (some-injective same) (ground arith)) at)
distinct_places (some q ∷ ports) (suc i) (suc j) p h at there =
    ap suc (distinct_places ports i j p (ground arith) at there)

-- the threads that are started when every `pthread_create` succeeds
unfoldable pub spawned : Method → List Thread
spawned exp = elim (master_threads (λ _. 0) exp) [ done threads ↦ threads | _ ↦ [] ]

spawned-distinct : (exp : Method) → all_distinct (map my_port (spawned exp)) ≡ true
unfolding spawned master_threads spawn_receivers spawn_clients spawn_senders my_port
    get_port_master_sequencer_from_client_interface get_port_master_sequencer_from_slave_sequencer
spawned-distinct proposed_method = refl
spawned-distinct conventional_method = refl
spawned-distinct tcp_method = refl

spawned-done : (exp : Method) → master_threads (λ _. 0) exp ≡ done (spawned exp)
unfolding spawned master_threads spawn_receivers spawn_clients spawn_senders
spawned-done proposed_method = refl
spawned-done conventional_method = refl
spawned-done tcp_method = refl

-- If every `pthread_create` succeeds, the master starts its threads, and no two of them, by their places
-- in the order in which they are started, receive at one port.
pub master_threads-ports :
    (ret : Thread → ℕ) (exp : Method) (i j p : ℕ) (t u : Thread)
    → ((thread : Thread) → ret thread ≡ 0)
    → get_elem? (spawned exp) i ≡ some t
    → get_elem? (spawned exp) j ≡ some u
    → my_port t ≡ some p
    → my_port u ≡ some p
    → (master_threads ret exp ≡ done (spawned exp)) × (i ≡ j)
master_threads-ports ret exp i j p t u zeros at there port other = (
  ap (λ f. master_threads f exp) (fun_ext zeros) ∙ spawned-done exp,
  distinct_places (map my_port (spawned exp)) i j p (spawned-distinct exp)
      (get_elem?-map my_port (spawned exp) i at ∙ ap some port)
      (get_elem?-map my_port (spawned exp) j there ∙ ap some other),
)
