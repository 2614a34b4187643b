-- ===== src/Slave/Replies.antt =====
-- What a slave sends of its own to another slave, in either method.
use graduation_research_prog.Base.{
  some-injective, ℕ, zero, suc, ◌⊎◌, subst, Option, ◌<◌, ◌≤◌, ◌^◌, ◌≡◌, ◌≢◌, refl, ◌∙◌, inl, inr,
  Bool-cases, true, false, ltb, some, List, [], ◌∷◌, get_elem?, arith,
}
use graduation_research_prog.Outcome.{done}
use graduation_research_prog.Bytes.{Buf}
use graduation_research_prog.Batch.{Batch}
use graduation_research_prog.Batch.Laws.{IsBatch}
use graduation_research_prog.Network.{Datagram, Sent}
use graduation_research_prog.Config.{Method, proposed_method, conventional_method, tcp_method}
use graduation_research_prog.Log.{batch_log_size}
use graduation_research_prog.Message.{
  check_msg, batch_message, ack_batch_message, request_batch_message, create_request_batch_msg,
}
use graduation_research_prog.Message.InFlight.{Carries, Recorded}
use graduation_research_prog.Slave.State.{Slave, Env}
use graduation_research_prog.Slave.Actions.{to_slave, on_ack_batch, on_request_batch}
use graduation_research_prog.Slave.Delivery.{CanLog, holding}
use graduation_research_prog.Slave.Peers.{on_ack_batch_lem, on_request_batch_lem}
use graduation_research_prog.Slave.{slave_step, conventional_step}
use graduation_research_prog.Slave.Exchange.{
  ack_datagram, request_datagram, Unmoved, ack_held, request_held, ack_typed, request_typed,
  ack_whole, request_whole, proposed-ack, proposed-request,
}

-- which branch of the loop runs, by the type of the message; the conventional method ignores both
slave_step-ack :
    (method : Method) (me : ℕ) (env : Env) (event : Option Datagram) (s : Slave)
    → method ≢ tcp_method
    → check_msg (holding s event).recv_msg ack_batch_message ≡ true
    → check_msg (holding s event).recv_msg batch_message ≡ false
    → (slave_step method me env event s ≡ on_ack_batch me (holding s event))
      ⊎ (slave_step method me env event s ≡ done (holding s event, []))
unfolding slave_step conventional_step
slave_step-ack proposed_method me env event s m typed other =
    inl (proposed-ack me env event s typed other)
slave_step-ack conventional_method me env event s m typed other = inr (rw other refl)
slave_step-ack tcp_method me env event s m typed other = absurd (m refl)

slave_step-request :
    (method : Method) (me : ℕ) (env : Env) (event : Option Datagram) (s : Slave)
    → method ≢ tcp_method
    → check_msg (holding s event).recv_msg request_batch_message ≡ true
    → check_msg (holding s event).recv_msg ack_batch_message ≡ false
    → check_msg (holding s event).recv_msg batch_message ≡ false
    → (slave_step method me env event s ≡ on_request_batch env (holding s event))
      ⊎ (slave_step method me env event s ≡ done (holding s event, []))
unfolding slave_step conventional_step
slave_step-request proposed_method me env event s m typed ack other =
    inl (proposed-request me env event s typed ack other)
slave_step-request conventional_method me env event s m typed ack other = inr (rw other refl)
slave_step-request tcp_method me env event s m typed ack other = absurd (m refl)

-- What a round has sent: nothing, or one message to a slave.
pub data Told (P : Sent → Type 0) : List Sent → Type 0 where
  nobody : Told P []
  one : {x : Sent} → P x → Told P (x ∷ [])

pub Told-each :
    {P : Sent → Type 0} {sent : List Sent} (i : ℕ) (x : Sent)
    → Told P sent
    → get_elem? sent i ≡ some x
    → P x
Told-each i x nobody h = cc
Told-each {P} zero x (one p) h = subst P (some-injective h) p
Told-each {P} (suc i) x (one p) h = cc

module _ (me : ℕ) (env : Env) (s : Slave) (q epoch : ℕ) (buffer : Buf) (hq : q < 2 ^ 15)
    (he : epoch < 2 ^ 15) where
  -- The ACK of another slave: at most one message is sent, a request for the next batch to a slave
  -- that has it.
  pub step-ack :
      (method : Method)
      → method ≢ tcp_method
      → s.next_batch_epoch_id ≤ 2 ^ 15
      → (t : Slave) × (sent : List Sent) × (slave_step method me env
            (some (ack_datagram q epoch buffer))
            s
          ≡ done (t, sent))
        × Unmoved s t
        × Told
            (λ x.
              (s.next_batch_epoch_id ≤ epoch)
              × (x
                  ≡ to_slave q
                      (create_request_batch_msg me s.next_batch_epoch_id s.send_msg).0
                      (create_request_batch_msg me s.next_batch_epoch_id s.send_msg).1))
            sent
  step-ack method udp small =
      let u = (ack_held me env s q epoch buffer hq he) in
      let whole = ack_whole s q epoch buffer in
      let (typed, other) = ack_typed me env s q epoch buffer hq he in
      elim (slave_step-ack method me env (some (ack_datagram q epoch buffer)) s udp typed other) [
        | inr quiet ↦
            (u, [], quiet, record { same_next = refl; same_queue = refl; same_log = refl }, nobody)
        | inl asks ↦
            let runs = on_ack_batch_lem me q epoch buffer u hq he small whole in
            elim (Bool-cases (ltb epoch s.next_batch_epoch_id)) [
              | inl behind ↦ (
                u,
                [],
                asks ∙ runs ∙ rw behind refl,
                record { same_next = refl; same_queue = refl; same_log = refl },
                nobody,
              )
              | inr ahead ↦ (
                record u {
                  send_msg = (create_request_batch_msg me s.next_batch_epoch_id s.send_msg).0;
                },
                _,
                asks ∙ runs ∙ rw ahead refl,
                record { same_next = refl; same_queue = refl; same_log = refl },
                one (ground arith, refl),
              )
            ]
      ]

  -- The request of another slave for a batch that the log holds: at most one message is sent, the
  -- batch.
  pub step-request :
      (method : Method) (b : Batch)
      → method ≢ tcp_method
      → CanLog env
      → IsBatch b
      → Recorded s.batch_log epoch b
      → (t : Slave) × (sent : List Sent) × (slave_step method me env
            (some (request_datagram q epoch buffer))
            s
          ≡ done (t, sent))
        × Unmoved s t
        × Told
            (λ x.
              (out : Buf) × (x ≡ to_slave q out batch_log_size)
              × Carries (record { bytes = out; len = batch_log_size }) b)
            sent
  step-request method b udp can size logged =
      let u = (request_held me env s q epoch buffer hq he) in
      let (typed, ack, other) = request_typed me env s q epoch buffer hq he in
      elim (slave_step-request method me env (some (request_datagram q epoch buffer)) s udp typed
        ack other) [
          | inr quiet ↦ (
            u,
            [],
            quiet,
            record { same_next = refl; same_queue = refl; same_log = refl },
            nobody,
          )
          | inl serves ↦
              let (out, runs, carries) =
                on_request_batch_lem me q epoch buffer env u b hq he
                  (request_whole s q epoch buffer) can.opened can.serves size logged in
              (
                record u { send_msg = out },
                _,
                serves ∙ runs,
                record { same_next = refl; same_queue = refl; same_log = refl },
                one (out, refl, carries),
              )
        ]
