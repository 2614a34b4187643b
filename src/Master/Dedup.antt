-- ===== src/Master/Dedup.antt =====
-- The master takes each transaction of a client at most once, and in the order of the ids.
use graduation_research_prog.Base.{
  ℕ, suc, ◌<◌, ◌≤◌, ◌^◌, ◌≡◌, refl, ap, subst, ◌∙◌, inl, inr, false, Bool-cases, ◌==◌, ==→eq, ◌⊎◌,
  Option, List, [], ◌∷◌, map, arith,
}
use graduation_research_prog.Words.{int_inc, int_le}
use graduation_research_prog.Bytes.{Buf}
use graduation_research_prog.Bytes.Access.{IsBytes, get_short_bound}
use graduation_research_prog.Tx.{Tx, create_tx, write_only}
use graduation_research_prog.Tx.Laws.{IsTx}
use graduation_research_prog.Network.{Datagram, udp_sv_receive_msg}
use graduation_research_prog.Network.Laws.{IsDatagram, receive-IsBytes}
use graduation_research_prog.Message.{
  check_msg, add_to_batch_message, get_info_from_add_to_batch_msg,
}
use graduation_research_prog.Master.Receiver.{
  receiving, adding, stopped, Receiver, receiver_startup, phase_of, receive_step, taken, bufsiz,
}

-- what a receive does: nothing, dropping an old transaction, or moving on with a new one
pub data Received (r : Receiver) (r' : Receiver) : Type 0 where
  quiet : r'.recieved_tx_id ≡ r.recieved_tx_id → r'.phase ≡ r.phase → Received r r'
  fresh :
      (tx : Tx)
      → tx.id < 2 ^ 16
      → int_le tx.id r.recieved_tx_id ≡ false
      → r'.recieved_tx_id ≡ tx.id
      → ((r'.phase ≡ adding tx) × IsTx tx) ⊎ (r'.phase ≡ stopped)
      → Received r r'

id-bound :
    (raw : Tx) (msg : Buf)
    → IsBytes msg
    → (get_info_from_add_to_batch_msg msg (create_tx raw)).id < 2 ^ 16
unfolding get_info_from_add_to_batch_msg
id-bound raw msg h = get_short_bound msg 5 h

write-IsTx :
    (raw : Tx) (msg : Buf)
    → IsBytes msg
    → let tx = get_info_from_add_to_batch_msg msg (create_tx raw) in tx.type ≡ write_only → IsTx tx
unfolding get_info_from_add_to_batch_msg
write-IsTx raw msg h write = record {
  replica_id_fits = get_short_bound msg 1 h;
  client_id_fits = get_short_bound msg 3 h;
  id_fits = get_short_bound msg 5 h;
  type_fits = omega (arith, write);
  key_fits = get_short_bound msg 8 h;
  value_fits = get_short_bound msg 10 h;
}

phase_of-cases :
    (tx : Tx) → ((phase_of tx ≡ adding tx) × (tx.type ≡ write_only)) ⊎ (phase_of tx ≡ stopped)
unfolding phase_of
phase_of-cases tx = elim (Bool-cases (tx.type == write_only)) [
  | inl write ↦ inl (rw write refl, ==→eq tx.type write_only write)
  | inr other ↦ inr (rw other (ground arith))
]

pub receive_step-Received :
    (raw : Tx) (event : Option Datagram) (r : Receiver)
    → IsBytes r.recv_msg
    → IsDatagram event
    → Received r (receive_step raw event r).0
unfolding receive_step
receive_step-Received raw event r v w =
    let msg = (udp_sv_receive_msg r.recv_msg bufsiz event).0 in
    let tx = get_info_from_add_to_batch_msg msg (create_tx raw) in
    elim (Bool-cases (check_msg msg add_to_batch_message)) [
      | inl typed ↦ rw typed (elim (Bool-cases (int_le tx.id r.recieved_tx_id)) [
        | inl old ↦ rw old (quiet refl refl)
        | inr new ↦ rw new (
            let bytes = receive-IsBytes r.recv_msg bufsiz event v w in
            fresh tx (id-bound raw msg bytes) new refl (elim (phase_of-cases tx) [
              | inl (write, is) ↦ inl (write, write-IsTx raw msg bytes is)
              | inr stops ↦ inr stops
            ]))
      ])
      | inr other ↦ rw other (quiet refl refl)
    ]

pub recv_msg-receive_step :
    (raw : Tx) (event : Option Datagram) (r : Receiver)
    → (receive_step raw event r).0.recv_msg ≡ (udp_sv_receive_msg r.recv_msg bufsiz event).0
unfolding receive_step
recv_msg-receive_step raw event r = ground arith

-- every datagram is one of bytes
abbrev pub AllDatagrams : List (Tx × Option Datagram) → Type 0
AllDatagrams [] = Unit
AllDatagrams ((_, event) ∷ events) = IsDatagram event × AllDatagrams events

-- strictly increasing, from `lo` on
abbrev pub Increasing : ℕ → List ℕ → Type 0
Increasing lo [] = Unit
Increasing lo (i ∷ is) = (lo ≤ i) × Increasing (suc i) is

abbrev ids : List Tx → List ℕ
ids = map (λ (tx : Tx). tx.id)

Increasing-mono : (a b : ℕ) (is : List ℕ) → a ≤ b → Increasing b is → Increasing a is
Increasing-mono a b [] h v = tt
Increasing-mono a b (i ∷ is) h v = (omega (arith, v.0), v.1)

-- the smallest id that the thread still takes
abbrev pub floor : Receiver → ℕ
floor r = int_inc r.recieved_tx_id

pub floor-fresh :
    (id last : ℕ)
    → id < 2 ^ 16
    → int_inc last ≤ 2 ^ 16
    → last < 2 ^ 32
    → int_le id last ≡ false
    → int_inc last ≤ id
floor-fresh id last h b w e = ground arith

-- The same from any state of the thread that can be reached.
pub taken-Increasing :
    (events : List (Tx × Option Datagram)) (r : Receiver)
    → IsBytes r.recv_msg
    → AllDatagrams events
    → r.phase ≡ receiving
    → r.recieved_tx_id < 2 ^ 32
    → floor r ≤ 2 ^ 16
    → Increasing (floor r) (ids (taken events r))
unfolding taken
taken-Increasing [] r v w p l b = tt
taken-Increasing ((raw, event) ∷ events) r v w p l b =
    elim (receive_step-Received raw event r v w.0) [
      | quiet same still ↦ rw (still ∙ p) (
          subst (λ n. Increasing n (ids (taken events r'))) (ap int_inc same)
            (taken-Increasing events r' bytes w.1 refl (rw same l) (rw same b)))
      | fresh tx small new now at ↦
          let later =
            taken-Increasing events r' bytes w.1 refl (rw now (omega arith))
              (rw now (omega arith)) in
          elim at [
            | inl (e, _) ↦ rw e (
              floor-fresh tx.id r.recieved_tx_id small b l new,
              Increasing-mono (suc tx.id) (floor r') (ids (taken events r')) (omega (arith, now))
                  later,
            )
            | inr e ↦ rw e tt
          ]
    ]
  where
    r' : Receiver
    r' = record (receive_step raw event r).0 { phase = receiving }

    bytes : IsBytes r'.recv_msg
    bytes = rw (recv_msg-receive_step raw event r) (receive-IsBytes r.recv_msg bufsiz event v w.0)

-- From the thread's start, whatever datagrams arrive, the ids of the transactions that it adds to
-- batches are strictly increasing: none is taken twice, and none after a newer one.
pub startup-taken-Increasing :
    (events : List (Tx × Option Datagram)) (recv_msg send_msg : Buf)
    → IsBytes recv_msg
    → AllDatagrams events
    → Increasing 0 (ids (taken events (receiver_startup recv_msg send_msg)))
unfolding receiver_startup
startup-taken-Increasing events recv_msg send_msg v w =
    taken-Increasing events (receiver_startup recv_msg send_msg) v w refl (omega arith)
      (omega arith)

-- Once the thread has taken the transaction of id 65535, it never takes another one, whatever
-- arrives: the ids of the client wrap around, and the test compares with the largest.
pub taken-wrapped :
    (events : List (Tx × Option Datagram)) (r : Receiver)
    → IsBytes r.recv_msg
    → AllDatagrams events
    → r.phase ≡ receiving
    → r.recieved_tx_id ≡ 0xffff
    → taken events r ≡ []
unfolding taken
taken-wrapped [] r v w p e = refl
taken-wrapped ((raw, event) ∷ events) r v w p e = elim (receive_step-Received raw event r v w.0) [
  | quiet same still ↦ rw (still ∙ p) (taken-wrapped events r' bytes w.1 refl (same ∙ e))
  | fresh tx small new now at ↦ absurd (old tx small (rw e at new))
]
  where
    r' : Receiver
    r' = record (receive_step raw event r).0 { phase = receiving }

    bytes : IsBytes r'.recv_msg
    bytes = rw (recv_msg-receive_step raw event r) (receive-IsBytes r.recv_msg bufsiz event v w.0)

    old : (tx : Tx) → tx.id < 2 ^ 16 → int_le tx.id 0xffff ≡ false → ⊥
    old tx small new = ground arith
