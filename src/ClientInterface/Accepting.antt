-- ===== src/ClientInterface/Accepting.antt =====
-- The connections that the client interface accepts.
use graduation_research_prog.Base.{
  ℕ, zero, suc, ◌≤◌, ◌≡◌, refl, Bool, true, false, not, ◌&&◌, Bool-cases, inl, inr, if◌then◌else◌,
  List, [], ◌∷◌, length, arith,
}
use graduation_research_prog.Words.{int_lt, int_minus_one}
use graduation_research_prog.Outcome.{done, exit}
use graduation_research_prog.Network.Sockets.{tcp_sv_accept}
use graduation_research_prog.ClientInterface.Threads.{accept_clients}

-- the first answers, and whether none of them is an error
abbrev pub take : ℕ → List ℕ → List ℕ
take zero xs = []
take (suc n) [] = []
take (suc n) (x ∷ xs) = x ∷ take n xs

abbrev pub connected : List ℕ → Bool
connected [] = true
connected (answer ∷ answers) = not (int_lt answer 0) && connected answers

tcp_sv_accept-failed : (answer : ℕ) → int_lt answer 0 ≡ true → tcp_sv_accept answer ≡ int_minus_one
unfolding tcp_sv_accept
tcp_sv_accept-failed answer h = rw h refl

tcp_sv_accept-came : (answer : ℕ) → int_lt answer 0 ≡ false → tcp_sv_accept answer ≡ answer
unfolding tcp_sv_accept
tcp_sv_accept-came answer h = rw h refl

-- For as many connections as the kernel has answers for: if none of the first is an error, each has its
-- thread, in the order in which they came, and otherwise the process ends.
pub accept_clients_lem :
    (k : ℕ) (answers : List ℕ)
    → k ≤ length answers
    → accept_clients k answers
      ≡ (if connected (take k answers) then done (take k answers) else exit)
unfolding accept_clients
accept_clients_lem zero answers h = refl
accept_clients_lem (suc k) [] h = absurd (omega (arith, h))
accept_clients_lem (suc k) (answer ∷ answers) h =
    let rest = accept_clients_lem k answers (omega (arith, h)) in
    elim (Bool-cases (int_lt answer 0)) [
      | inl failed ↦ rw (tcp_sv_accept-failed answer failed, failed) refl
      | inr came ↦ elim (Bool-cases (connected (take k answers))) [
        | inl all ↦ rw (tcp_sv_accept-came answer came, came, rest, all) refl
        | inr some_failed ↦ rw (tcp_sv_accept-came answer came, came, rest, some_failed) refl
      ]
    ]
