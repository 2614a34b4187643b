-- ===== src/Clients/Requests.antt =====
-- What a client sends.
use native.Mathlib.Nat.{mod-lt}
use graduation_research_prog.Base.{
  ℕ, zero, suc, ◌+◌, ◌-◌, ◌%◌, ◌^◌, ◌<◌, ◌≤◌, ◌≡◌, refl, ◌∙◌, ap, subst, true, ltb, Option, some,
  length, get_elem?, arith,
}
use graduation_research_prog.Words.{short_minus_one, int_lt, int_inc}
use graduation_research_prog.Bytes.{Buf}
use graduation_research_prog.Tx.{
  Tx, init_tx, set_client_info_to_tx, modify_to_write_tx, modify_finish_request, write_only,
}
use graduation_research_prog.Tx.Laws.{IsTx}
use graduation_research_prog.Network.{Datagram}
use graduation_research_prog.Config.Constants.{storage_size}
use graduation_research_prog.Message.{create_request_tx_msg}
use graduation_research_prog.Clients.{
  ClientThreadInfo, client_thread_info, Client, get_random, next_tx, send_request, receive_response,
  next_round, finish_client, client_startup, txnum_rounds, client_thread_txnum,
}

-- what the C library says of `rand_r`: its result is not negative
abbrev pub IsRandR : (ℕ → ℕ × ℕ) → Type 0
IsRandR rand_r = (seed : ℕ) → (rand_r seed).0 < 2 ^ 31

-- The transaction is the client's write number `n`, of a key that the storage has.
pub record IsWrite (info : ClientThreadInfo) (n : ℕ) (tx : Tx) : Type 0 where
  pub fits : IsTx tx
  pub of_replica : tx.replica_id ≡ info.replica_id
  pub of_client : tx.client_id ≡ info.client_id
  pub numbered : tx.id ≡ n % 2 ^ 16
  pub typed : tx.type ≡ write_only
  pub stored : tx.key < storage_size
  pub unset : tx.value ≡ short_minus_one

-- The ids of the client fit a `short`, and it only writes.
pub record IsWriter (info : ClientThreadInfo) : Type 0 where
  pub replica_fits : info.replica_id < 2 ^ 16
  pub client_fits : info.client_id < 2 ^ 16
  pub rate : info.write_rate ≡ 100

-- what `main` hands over is such
pub client_thread_info-IsWriter :
    (replica_id client_id : ℕ) → IsWriter (client_thread_info replica_id client_id)
unfolding client_thread_info
client_thread_info-IsWriter replica_id client_id = record {
  replica_fits = omega arith;
  client_fits = omega arith;
  rate = refl;
}

module _ (rand_r : ℕ → ℕ × ℕ) (law : IsRandR rand_r) where
  -- A range of `int`s that are not negative, with room for its length: if the result of `rand_r` is not
  -- negative, `get_random` is in the range.
  pub get_random-within :
      (min max seed : ℕ)
      → min ≤ max
      → max < 2 ^ 31 - 1
      → (min ≤ (get_random rand_r min max seed).0) × ((get_random rand_r min max seed).0 ≤ max)
  unfolding get_random
  get_random-within min max seed h small =
      let width : int_inc ((max + (2 ^ 32 - min)) % 2 ^ 32) ≡ max - min + 1 = omega arith in
      let nonneg : ltb (rand_r seed).0 (2 ^ 31) ≡ true = ground (arith, law seed) in
      let below : (rand_r seed).0 % (max - min + 1) < max - min + 1 =
        mod-lt (rand_r seed).0 (omega arith) in
      rw (width, nonneg) (omega (arith, below), omega (arith, below))

  module _ (info : ClientThreadInfo) (v : IsWriter info) where
    -- every round writes
    pub next_tx-IsWrite :
        (c : Client)
        → ((next_tx rand_r info c).2 ≡ true) × IsWrite info c.tx_id (next_tx rand_r info c).0
    unfolding next_tx init_tx set_client_info_to_tx modify_to_write_tx
    next_tx-IsWrite c =
        let (lo, hi) = get_random-within 0 99 c.seed (omega arith) (omega arith) in
        let (klo, khi) =
          get_random-within 0 (storage_size - 1) (get_random rand_r 0 99 c.seed).1 (omega arith)
            (omega arith) in
        let writes : int_lt (get_random rand_r 0 99 c.seed).0 info.write_rate ≡ true =
          ground (arith, hi, v.rate) in
        rw writes (
          refl,
          record {
            fits = omega (arith, v.replica_fits, v.client_fits);
            of_replica = refl;
            of_client = refl;
            numbered = refl;
            typed = refl;
            stored = omega (arith, khi);
            unset = refl;
          },
        )

    -- Request `i` of `k` rounds, of a client at its transaction `n`.
    rounds-request :
        (k n i : ℕ) (answers : ℕ → Option Datagram) (c : Client)
        → c.tx_id ≡ n
        → n + k < 2 ^ 31
        → i < k
        → (tx : Tx) × (buf : Buf) × (get_elem? (txnum_rounds rand_r info k answers c) i
            ≡ some (create_request_tx_msg tx buf))
          × IsWrite info (n + i) tx
    unfolding txnum_rounds send_request receive_response next_round
    rounds-request zero n i answers c e small h = absurd (omega (arith, h))
    rounds-request (suc k) n zero answers c e small h =
        let (_, w) = next_tx-IsWrite c in
        (
          (next_tx rand_r info c).0,
          c.msg,
          refl,
          subst (λ m. IsWrite info m (next_tx rand_r info c).0) (e ∙ omega arith) w,
        )
    rounds-request (suc k) n (suc i) answers c e small h =
        let (tx, buf, at, w) =
          rounds-request k (suc n) i answers
            (next_round rand_r
              (receive_response rand_r (answers c.tx_id) (send_request rand_r info c).0))
            (omega (arith, e)) (omega arith) (omega (arith, h)) in
        (tx, buf, at, subst (λ m. IsWrite info m tx) (omega arith) w)

-- the number of the next transaction, whatever was answered
pub after_round :
    (rand_r : ℕ → ℕ × ℕ) (info : ClientThreadInfo) (answer : Option Datagram) (c : Client)
    → (next_round rand_r (receive_response rand_r answer (send_request rand_r info c).0)).tx_id
      ≡ int_inc c.tx_id
unfolding next_round receive_response send_request
after_round rand_r info answer c = refl

-- the last request, and how many there are
rounds-finish :
    (rand_r : ℕ → ℕ × ℕ) (info : ClientThreadInfo) (k : ℕ) (answers : ℕ → Option Datagram)
    (c : Client)
    → (length (txnum_rounds rand_r info k answers c) ≡ suc k)
      × ((old : Tx) × (buf : Buf) × (get_elem? (txnum_rounds rand_r info k answers c) k
            ≡ some (create_request_tx_msg (modify_finish_request old) buf)))
unfolding txnum_rounds send_request receive_response next_round finish_client
rounds-finish rand_r info zero answers c = (refl, (c.send_tx, c.msg, refl))
rounds-finish rand_r info (suc k) answers c =
    let (size, last) = rounds-finish rand_r info k answers (
      next_round rand_r
        (receive_response rand_r (answers c.tx_id) (send_request rand_r info c).0)) in
    (omega (arith, size), last)

pub client_thread_txnum-rounds :
    (rand_r : ℕ → ℕ × ℕ) (info : ClientThreadInfo) (tx_num : ℕ) (answers : ℕ → Option Datagram)
    (raw : Tx) (msg : Buf)
    → tx_num < 2 ^ 31
    → client_thread_txnum rand_r info tx_num answers raw msg
      ≡ txnum_rounds rand_r info tx_num answers (client_startup rand_r info raw msg)
unfolding client_thread_txnum
client_thread_txnum-rounds rand_r info tx_num answers raw msg h =
    let positive : ltb tx_num (2 ^ 31) ≡ true = ground arith in rw positive refl

pub startup-tx_id :
    (rand_r : ℕ → ℕ × ℕ) (info : ClientThreadInfo) (raw : Tx) (msg : Buf)
    → (client_startup rand_r info raw msg).tx_id ≡ 0
unfolding client_startup
startup-tx_id rand_r info raw msg = refl

-- The requests of the whole thread.
pub txnum-request :
    (rand_r : ℕ → ℕ × ℕ) (info : ClientThreadInfo) (tx_num i : ℕ) (answers : ℕ → Option Datagram)
    (raw : Tx) (msg : Buf)
    → IsRandR rand_r
    → IsWriter info
    → tx_num < 2 ^ 31
    → i < tx_num
    → (tx : Tx) × (buf : Buf) × (get_elem?
          (client_thread_txnum rand_r info tx_num answers raw msg)
          i
        ≡ some (create_request_tx_msg tx buf))
      × IsWrite info i tx
txnum-request rand_r info tx_num i answers raw msg law v small h =
    let (tx, buf, at, w) =
      rounds-request rand_r law info v tx_num 0 i answers (client_startup rand_r info raw msg)
        (startup-tx_id rand_r info raw msg) (omega arith) h in
    (
      tx,
      buf,
      ap (λ l. get_elem? l i) (client_thread_txnum-rounds rand_r info tx_num answers raw msg small)
          ∙ at,
      subst (λ m. IsWrite info m tx) (omega arith) w,
    )

pub txnum-finish :
    (rand_r : ℕ → ℕ × ℕ) (info : ClientThreadInfo) (tx_num : ℕ) (answers : ℕ → Option Datagram)
    (raw : Tx) (msg : Buf)
    → tx_num < 2 ^ 31
    → (length (client_thread_txnum rand_r info tx_num answers raw msg) ≡ suc tx_num)
      × ((old : Tx) × (buf : Buf) × (get_elem?
              (client_thread_txnum rand_r info tx_num answers raw msg)
              tx_num
            ≡ some (create_request_tx_msg (modify_finish_request old) buf)))
txnum-finish rand_r info tx_num answers raw msg small =
    let same = client_thread_txnum-rounds rand_r info tx_num answers raw msg small in
    let (size, (old, buf, at)) =
      rounds-finish rand_r info tx_num answers (client_startup rand_r info raw msg) in
    (ap length same ∙ size, (old, buf, ap (λ l. get_elem? l tx_num) same ∙ at))
