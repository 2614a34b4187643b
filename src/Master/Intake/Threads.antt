-- ===== src/Master/Intake/Threads.antt =====
-- What one receiving thread takes and adds, and that the others are not concerned.
use graduation_research_prog.Base.{
  ℕ, suc, ◌<◌, ◌≤◌, ◌^◌, ◌≡◌, sym, ◌∙◌, ap, subst, inl, inr, Bool-cases, ◌==◌, ==→eq, true, false,
  Bool, if◌then◌else◌, Option, List, [], ◌∷◌, ◌++◌, map, update, arith,
}
use mathlib.Core.List.{append-nil, map-append}
use graduation_research_prog.Words.{int_inc}
use graduation_research_prog.Bytes.Access.{IsBytes}
use graduation_research_prog.Tx.{Tx}
use graduation_research_prog.Tx.Laws.{IsTx}
use graduation_research_prog.Network.{Datagram}
use graduation_research_prog.Network.Laws.{IsDatagram, receive-IsBytes}
use graduation_research_prog.Master.Receiver.{
  Phase, receiving, adding, stopped, Receiver, receive_step, bufsiz,
}
use graduation_research_prog.Master.Dedup.{
  quiet, fresh, receive_step-Received, recv_msg-receive_step, floor, floor-fresh,
}
use graduation_research_prog.Master.Intake.{Log, waiting_in, by_thread, of_thread}
use graduation_research_prog.Master.Intake.Parts.{
  Rising, Rising-mono, Rising-snoc, of_thread-append, of_thread_self, of_thread_other,
}

abbrev pub ids_of : List Tx → List ℕ
ids_of = map (λ (tx : Tx). tx.id)

-- A thread that has taken `taken` and added `added`.
pub record IsThread (r : Receiver) (taken added : List Tx) : Type 0 where
  pub bytes : IsBytes r.recv_msg
  pub fits : r.recieved_tx_id < 2 ^ 32
  pub bound : floor r ≤ 2 ^ 16
  pub rising : Rising 0 (floor r) (ids_of taken)
  pub kept : taken ≡ added ++ waiting_in r.phase
  pub ready : (tx : Tx) → r.phase ≡ adding tx → IsTx tx

pub receiving-adding : (tx : Tx) → receiving ≡ adding tx → ⊥
receiving-adding tx h = cc

stopped-adding : (tx : Tx) → stopped ≡ adding tx → ⊥
stopped-adding tx h = cc

adding-injective : {a b : Tx} → adding a ≡ adding b → a ≡ b
adding-injective h = cc

-- A receive takes at most one transaction, a newer one.
pub receive-IsThread :
    (raw : Tx) (event : Option Datagram) (r : Receiver) (taken added : List Tx)
    → IsDatagram event
    → r.phase ≡ receiving
    → IsThread r taken added
    → let s = (receive_step raw event r).0 in IsThread s (taken ++ waiting_in s.phase) added
receive-IsThread raw event r taken added w idle v =
    let s = (receive_step raw event r).0 in
    let bytes : IsBytes s.recv_msg =
      rw (recv_msg-receive_step raw event r) (receive-IsBytes r.recv_msg bufsiz event v.bytes w) in
    let all : taken ≡ added = v.kept ∙ ap (λ p. added ++ waiting_in p) idle ∙ append-nil added in
    elim (receive_step-Received raw event r v.bytes w) [
      | quiet same still ↦ record {
        bytes = bytes;
        fits = rw same v.fits;
        bound = rw same v.bound;
        rising =
            subst (Rising 0 (floor s))
              (sym (same_ids (still ∙ idle) ∙ ap ids_of (append-nil taken)))
              (subst (λ n. Rising 0 (int_inc n) (ids_of taken)) (sym same) v.rising);
        kept = ap (λ l. l ++ waiting_in s.phase) all;
        ready = λ tx h. absurd (receiving-adding tx (sym idle ∙ sym still ∙ h));
      }
      | fresh tx small new now at ↦
          let later = floor-fresh tx.id r.recieved_tx_id small v.bound v.fits new in
          elim at [
            | inl (e, t) ↦ record {
              bytes = bytes;
              fits = rw now (omega arith);
              bound = rw now (omega arith);
              rising =
                  subst (Rising 0 (floor s))
                    (sym (same_ids e ∙ map-append (λ (x : Tx). x.id) taken (tx ∷ [])))
                    (rw now (
                      Rising-mono 0 (suc tx.id) (int_inc tx.id) (ids_of taken ++ (tx.id ∷ []))
                        (omega arith)
                        (Rising-snoc 0 (floor r) tx.id (ids_of taken) later v.rising)));
              kept = ap (λ l. l ++ waiting_in s.phase) all;
              ready = λ x h. subst IsTx (adding-injective (sym e ∙ h)) t;
            }
            | inr e ↦ record {
              bytes = bytes;
              fits = rw now (omega arith);
              bound = rw now (omega arith);
              rising =
                  subst (Rising 0 (floor s)) (sym (same_ids e ∙ ap ids_of (append-nil taken))) (
                    Rising-mono 0 (floor r) (floor s) (ids_of taken) (omega (arith, later, now))
                      v.rising);
              kept = ap (λ l. l ++ waiting_in s.phase) all;
              ready = λ x h. absurd (stopped-adding x (sym e ∙ h));
            }
          ]
    ]
  where
    same_ids :
        {p : Phase}
        → (receive_step raw event r).0.phase ≡ p
        → ids_of (taken ++ waiting_in (receive_step raw event r).0.phase)
          ≡ ids_of (taken ++ waiting_in p)
    same_ids h = ap (λ p. ids_of (taken ++ waiting_in p)) h

-- A round of the loop that adds: the transaction is added, and no longer waits, or nothing happens.
pub add-IsThread :
    (tx : Tx) (r : Receiver) (taken added : List Tx) (ret : Bool)
    → r.phase ≡ adding tx
    → IsThread r taken added
    → IsThread
        (if ret then record r { phase = receiving } else r)
        taken
        (added ++ (if ret then tx ∷ [] else []))
add-IsThread tx r taken added true busy v = record {
  bytes = v.bytes;
  fits = v.fits;
  bound = v.bound;
  rising = v.rising;
  kept = v.kept ∙ ap (λ p. added ++ waiting_in p) busy ∙ sym (append-nil (added ++ (tx ∷ [])));
  ready = λ x h. absurd (receiving-adding x h);
}
add-IsThread tx r taken added false busy v = subst (IsThread r taken) (sym (append-nil added)) v

-- One thread has gone on, with what it takes and adds; the others have not.
pub threads-changed :
    (receivers : ℕ → Receiver) (taken added : Log) (t : ℕ) (r : Receiver) (xs ys : List Tx)
    → IsThread r (of_thread t taken ++ xs) (of_thread t added ++ ys)
    → ((q : ℕ) → IsThread (receivers q) (of_thread q taken) (of_thread q added))
    → (q : ℕ)
    → IsThread
        (update t r receivers q)
        (of_thread q (taken ++ by_thread t xs))
        (of_thread q (added ++ by_thread t ys))
threads-changed receivers taken added t r xs ys new all q = elim (Bool-cases (q == t)) [
  | inl hit ↦ rw hit (
      subst
        (λ k.
          IsThread r (of_thread k (taken ++ by_thread t xs))
            (of_thread k (added ++ by_thread t ys)))
        (sym (==→eq q t hit))
        (rw
          (
            of_thread-append t taken (by_thread t xs),
            of_thread-append t added (by_thread t ys),
            of_thread_self t xs,
            of_thread_self t ys,
          )
          new))
  | inr miss ↦
      rw
        (
          miss,
          of_thread-append q taken (by_thread t xs),
          of_thread-append q added (by_thread t ys),
          of_thread_other q t xs miss,
          of_thread_other q t ys miss,
          append-nil (of_thread q taken),
          append-nil (of_thread q added),
        )
        (all q)
]
