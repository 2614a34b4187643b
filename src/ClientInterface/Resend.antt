-- ===== src/ClientInterface/Resend.antt =====
-- The client interface sends its request until it is acknowledged.
use graduation_research_prog.Base.{
  ℕ, suc, ◌+◌, ◌<◌, ◌^◌, ◌≡◌, refl, ◌∙◌, ap, ◌==◌, Bool, true, false, if◌then◌else◌, some, List, [],
  ◌∷◌, ◌++◌, replicate, arith,
}
use graduation_research_prog.Outcome.{done, and_then}
use graduation_research_prog.Bytes.{Buf}
use graduation_research_prog.Tx.{Tx}
use graduation_research_prog.Tx.Laws.{IsTx}
use graduation_research_prog.Network.{Sent}
use graduation_research_prog.Message.{create_ack_add_msg}
use graduation_research_prog.ClientInterface.{write_request, on_ack}
use graduation_research_prog.ClientInterface.Acks.{on_ack-own}
use graduation_research_prog.ClientInterface.Threads.{
  Look, receive_ack, request_rounds, request_write_tx,
}

-- The system is not to finish, and nothing comes in that ends the wait.
pub record Quiet (tx : Tx) (look : Look) : Type 0 where
  pub outer_on : look.outer_request ≡ 0
  pub inner_on : look.inner_request ≡ 0
  pub unheard : (recv_msg : Buf) → (on_ack tx recv_msg look.event).1 ≡ false

abbrev pub AllQuiet : Tx → List Look → Type 0
AllQuiet tx [] = Unit
AllQuiet tx (look ∷ looks) = Quiet tx look × AllQuiet tx looks

-- how often the timeout passed
abbrev pub timeouts : List Look → ℕ
timeouts [] = 0
timeouts (look ∷ looks) = (if look.overtime then 1 else 0) + timeouts looks

-- the master's acknowledgement comes in
abbrev pub acknowledged_look : Tx → Buf → Look
acknowledged_look tx buf = record {
  outer_request = 0;
  inner_request = 0;
  event = some (record {
    bytes = (create_ack_add_msg tx.replica_id tx.client_id tx.id buf).0;
    len = (create_ack_add_msg tx.replica_id tx.client_id tx.id buf).1;
  });
  overtime = false;
}

receive_ack-on :
    (tx : Tx) (look : Look) (recv_msg : Buf)
    → look.inner_request ≡ 0
    → receive_ack tx look recv_msg
      ≡ ((on_ack tx recv_msg look.event).0, look.overtime, (on_ack tx recv_msg look.event).1)
unfolding receive_ack
receive_ack-on tx look recv_msg h = rw h refl

module _ (tx : Tx) (request : Sent) (buf : Buf) (more : List Look) (v : IsTx tx)
    (small : tx.id < 2 ^ 15) where
  ends_over : (recv_msg : Buf) → (receive_ack tx (acknowledged_look tx buf) recv_msg).2 ≡ true
  ends_over recv_msg =
      ap (λ (p : Buf × Bool × Bool). p.2)
        (receive_ack-on tx (acknowledged_look tx buf) recv_msg refl)
      ∙ on_ack-own tx buf recv_msg v
      ∙ ground arith

  not_over :
      (look : Look) (recv_msg : Buf) → Quiet tx look → (receive_ack tx look recv_msg).2 ≡ false
  not_over look recv_msg q =
      ap (λ (p : Buf × Bool × Bool). p.2) (receive_ack-on tx look recv_msg q.inner_on)
      ∙ q.unheard recv_msg

  again :
      (look : Look) (recv_msg : Buf)
      → Quiet tx look
      → (receive_ack tx look recv_msg).1 ≡ look.overtime
  again look recv_msg q =
      ap (λ (p : Buf × Bool × Bool). p.1) (receive_ack-on tx look recv_msg q.inner_on)

  rounds-acknowledged :
      (sending : Bool) (looks : List Look) (recv_msg : Buf)
      → AllQuiet tx looks
      → request_rounds tx request sending (looks ++ (acknowledged_look tx buf ∷ more)) recv_msg
        ≡ done (replicate ((if sending then 1 else 0) + timeouts looks) request)
  unfolding request_rounds
  rounds-acknowledged true [] recv_msg q = rw (ends_over recv_msg) refl
  rounds-acknowledged false [] recv_msg q = rw (ends_over recv_msg) refl
  rounds-acknowledged true (look ∷ looks) recv_msg q =
      let msg = (receive_ack tx look recv_msg).0 in
      let off : (look.outer_request == 1) ≡ false = ground (arith, q.0.outer_on) in
      let one : suc ((if look.overtime then 1 else 0) + timeouts looks)
          ≡ 1 + ((if look.overtime then 1 else 0) + timeouts looks) =
        omega arith in
      rw (off, not_over look recv_msg q.0, again look recv_msg q.0)
        (ap (λ o. and_then o (λ sent. done (request ∷ sent)))
            (rounds-acknowledged look.overtime looks msg q.1)
          ∙ ap (λ k. done (replicate k request)) one)
  rounds-acknowledged false (look ∷ looks) recv_msg q =
      let msg = (receive_ack tx look recv_msg).0 in
      let none_yet : (if look.overtime then 1 else 0) + timeouts looks
          ≡ 0 + ((if look.overtime then 1 else 0) + timeouts looks) =
        omega arith in
      rw (not_over look recv_msg q.0, again look recv_msg q.0)
        (rounds-acknowledged look.overtime looks msg q.1
          ∙ ap (λ k. done (replicate k request)) none_yet)

-- A write transaction whose members fit their types and whose id is below 2 ^ 15, and rounds in which the
-- system is not to finish and no acknowledgement of it comes in, until the master's does: the loops of the
-- client interface then end, and the request to the master was sent once, and once again for each
-- timeout.
pub request_write_tx-acknowledged :
    (tx : Tx) (send_msg recv_msg buf : Buf) (looks more : List Look)
    → IsTx tx
    → tx.id < 2 ^ 15
    → AllQuiet tx looks
    → request_write_tx tx send_msg recv_msg (looks ++ (acknowledged_look tx buf ∷ more))
      ≡ done (replicate (1 + timeouts looks) (write_request tx send_msg))
unfolding request_write_tx
request_write_tx-acknowledged tx send_msg recv_msg buf looks more v small q =
    rounds-acknowledged tx (write_request tx send_msg) buf more v small true looks recv_msg q
