-- ===== src/Clients/Timed.antt =====
-- A client with a time and one with a number of transactions send the same.
use graduation_research_prog.Base.{
  ℕ, zero, suc, ◌+◌, ◌-◌, ◌<◌, ◌^◌, ◌≡◌, refl, sym, ◌∙◌, ap, Bool, true, false, Option, List, ◌∷◌,
  arith,
}
use graduation_research_prog.Outcome.{done, and_then}
use graduation_research_prog.Bytes.{Buf}
use graduation_research_prog.Tx.{Tx}
use graduation_research_prog.Network.{Datagram}
use graduation_research_prog.Clients.{
  ClientThreadInfo, Client, send_request, receive_response, next_round, finish_client,
  client_startup, txnum_rounds, client_thread_txnum, time_rounds, client_thread_time,
}
use graduation_research_prog.Clients.Requests.{
  after_round, startup-tx_id, client_thread_txnum-rounds,
}

-- The rounds of a client whose time is over in round `k` after this one, and those that never come.
abbrev pub over_after :
    (answers : ℕ → Option Datagram)
    → (n k : ℕ) → List (Option Datagram × Bool)
    → List (Option Datagram × Bool)
over_after answers n zero more = (answers n, true) ∷ more
over_after answers n (suc k) more = (answers n, false) ∷ over_after answers (suc n) k more

module _ (rand_r : ℕ → ℕ × ℕ) (info : ClientThreadInfo) (answers : ℕ → Option Datagram)
    (more : List (Option Datagram × Bool)) where
  -- the client after a round
  abbrev next_client : Client → Client
  next_client c =
      next_round rand_r (receive_response rand_r (answers c.tx_id) (send_request rand_r info c).0)

  time_rounds-txnum :
      (k : ℕ) (c : Client)
      → c.tx_id + k < 2 ^ 31
      → time_rounds rand_r info (over_after answers c.tx_id k more) c
        ≡ done (txnum_rounds rand_r info (suc k) answers c)
  unfolding time_rounds txnum_rounds finish_client next_round
  time_rounds-txnum zero c small = refl
  time_rounds-txnum (suc k) c small =
      let step : (next_client c).tx_id ≡ suc c.tx_id =
        after_round rand_r info (answers c.tx_id) c ∙ omega arith in
      ap
        (λ n.
          and_then (time_rounds rand_r info (over_after answers n k more) (next_client c))
            (λ requests. done ((send_request rand_r info c).1 ∷ requests)))
        (sym step)
      ∙ ap (λ o. and_then o (λ requests. done ((send_request rand_r info c).1 ∷ requests)))
          (time_rounds-txnum k (next_client c) (omega (arith, step)))

  -- A client with a time, which is over at round `k` for the first time, below 2 ^ 31 - 1: its thread ends, and it has
  -- sent what a client with `k + 1` transactions sends that gets the same answers.
  pub client_thread_time-txnum :
      (k : ℕ) (raw : Tx) (msg : Buf)
      → k < 2 ^ 31 - 1
      → client_thread_time rand_r info (over_after answers 0 k more) raw msg
        ≡ done (client_thread_txnum rand_r info (suc k) answers raw msg)
  unfolding client_thread_time
  client_thread_time-txnum k raw msg small =
      let c = client_startup rand_r info raw msg in
      let at = startup-tx_id rand_r info raw msg in
      ap (λ n. time_rounds rand_r info (over_after answers n k more) c) (sym at)
      ∙ time_rounds-txnum k c (omega (arith, at))
      ∙ ap done (sym (client_thread_txnum-rounds rand_r info (suc k) answers raw msg (omega arith)))
