-- ===== src/Slave/Delivery.antt =====
-- What a slave has queued once the master's messages have come through, lost ones sent again and
-- others more than once: the master's batches, in order.
use mathlib.Core.List.{map-append, append-nil, append_assoc}
use graduation_research_prog.Base.{
  ℕ, suc, ◌+◌, ◌-◌, ◌<◌, ◌≤◌, ◌^◌, ◌≡◌, ◌≢◌, refl, sym, ap, ap₂, ◌∙◌, true, false, ltb, Option,
  some, List, [], ◌∷◌, ◌++◌, map, length, arith,
}
use graduation_research_prog.Words.{int_inc, short_of_int}
use graduation_research_prog.Outcome.{done, abort}
use graduation_research_prog.Bytes.{Buf}
use graduation_research_prog.Tx.{Tx}
use graduation_research_prog.Batch.{Batch, contents}
use graduation_research_prog.Batch.Laws.{IsSound}
use graduation_research_prog.Network.{Datagram, Sent, udp_sv_receive_msg}
use graduation_research_prog.Network.Laws.{receive-same}
use graduation_research_prog.Config.{Method, proposed_method, conventional_method, tcp_method}
use graduation_research_prog.Config.Constants.{replica_num}
use graduation_research_prog.Log.{File, batch_log_size}
use graduation_research_prog.Log.Loops.{Serves}
use graduation_research_prog.Message.{check_msg, batch_message, create_ack_batch_msg}
use graduation_research_prog.Message.BatchCodec.{get_epoch_id_from_batch_meg}
use graduation_research_prog.Message.BatchBlocks.{arrived}
use graduation_research_prog.Message.InFlight.{Carries, Recorded}
use graduation_research_prog.Message.BatchRoundtrip.{Received, create_batch_msg-Received}
use graduation_research_prog.Slave.State.{Slave, Env}
use graduation_research_prog.Slave.Actions.{to_region, accepted, on_batch}
use graduation_research_prog.Slave.Accept.{ack_of, on_batch-accepts, on_batch-other}
use graduation_research_prog.Slave.Logged.{Recorded-received, Recorded-kept, Recorded-accepted}
use graduation_research_prog.Slave.{proposed_step, conventional_step, slave_step, run}

-- the log can be written in this round
pub record CanLog (env : Env) : Type 0 where
  pub opened : env.opened ≡ true
  pub serves : Serves batch_log_size 0 env.answers

-- Datagrams of a slave whose next epoch is `n`, and the batches that they bring: each the next one,
-- or one from before.
pub data Delivers : ℕ → List (Env × Option Datagram) → List Batch → Type 0 where
  end : {n : ℕ} → Delivers n [] []
  fresh :
      {n : ℕ} {es : List (Env × Option Datagram)} {bs : List Batch} (env : Env) (d : Datagram)
      (b : Batch)
      → CanLog env
      → Carries d b
      → IsSound b
      → b.epoch_id ≡ n
      → n < 2 ^ 15
      → Delivers (suc n) es bs
      → Delivers n ((env, some d) ∷ es) (b ∷ bs)
  again :
      {n : ℕ} {es : List (Env × Option Datagram)} {bs : List Batch} (env : Env) (d : Datagram)
      (b : Batch)
      → Carries d b
      → IsSound b
      → b.epoch_id < n
      → Delivers n es bs
      → Delivers n ((env, some d) ∷ es) bs

-- a batch of the queue, and one as the master queued it
abbrev pub queued : Batch → ℕ × List Tx
queued b = (b.epoch_id, contents b)

abbrev pub expected : Batch → ℕ × List Tx
expected b = (b.epoch_id, map arrived (contents b))

abbrev pub peers_of : Method → ℕ → Buf → ℕ → List Sent
peers_of proposed_method me = to_region me (replica_num - 1) 1
peers_of conventional_method me = λ msg len. []
peers_of tcp_method me = λ msg len. []

-- the state in which the datagram is looked at
abbrev pub holding : Slave → Option Datagram → Slave
holding s event = record s { recv_msg = (udp_sv_receive_msg s.recv_msg batch_log_size event).0 }

abbrev got_len : Slave → Option Datagram → ℕ
got_len s event = (udp_sv_receive_msg s.recv_msg batch_log_size event).1

slave_step-batch :
    (method : Method) (me : ℕ) (env : Env) (event : Option Datagram) (s : Slave)
    → method ≢ tcp_method
    → check_msg (holding s event).recv_msg batch_message ≡ true
    → slave_step method me env event s
      ≡ on_batch (peers_of method me) me env (holding s event) (got_len s event)
unfolding slave_step proposed_step conventional_step
slave_step-batch proposed_method me env event s m h = rw h
slave_step-batch conventional_method me env event s m h = rw h
slave_step-batch tcp_method me env event s m h = absurd (m refl)

got_len-bound : (s : Slave) (d : Datagram) → got_len s (some d) ≤ 1024
unfolding udp_sv_receive_msg
got_len-bound s d = ground arith

holding-Received :
    (raw : Tx) (empty : ℕ → Tx) (next : ℕ) (s : Slave) (d : Datagram) (b : Batch)
    → Carries d b
    → IsSound b
    → b.epoch_id < 2 ^ 15
    → Received raw empty next (holding s (some d)).recv_msg b
holding-Received raw empty next s d b c v small =
    create_batch_msg-Received raw empty next b c.buffer (holding s (some d)).recv_msg v.size v.txs
      (omega arith)
      λ i lo hi.
        receive-same s.recv_msg batch_log_size d i c.fits (omega (arith, c.whole)) ∙ c.same i lo hi

queue-accepted :
    (me : ℕ) (env : Env) (s : Slave) (epoch : ℕ) (f : File) (b : Batch)
    → Received env.raw_tx env.raw_set (short_of_int epoch) s.recv_msg b
    → map queued (accepted me env s epoch f).write_tx_buffer
      ≡ map queued s.write_tx_buffer ++ (expected b ∷ [])
unfolding accepted
queue-accepted me env s epoch f b r =
    map-append queued s.write_tx_buffer _
    ∙ ap (λ (x : ℕ × List Tx). map queued s.write_tx_buffer ++ (x ∷ []))
        (ap₂ (λ e txs. (e, txs)) r.epoch_id r.txs)

next-accepted :
    (me : ℕ) (env : Env) (s : Slave) (epoch : ℕ) (f : File)
    → (accepted me env s epoch f).next_batch_epoch_id ≡ int_inc s.next_batch_epoch_id
unfolding accepted
next-accepted me env s epoch f = refl

-- one round with the next batch, and one with a batch from before
module _ (method : Method) (m : method ≢ tcp_method) (me : ℕ) (env : Env) (s : Slave) (d : Datagram)
    (b : Batch) (c : Carries d b) (v : IsSound b) where
  -- what the slaves of the region are told
  abbrev peers_ack : ℕ → List Sent
  peers_ack epoch =
      peers_of method me (create_ack_batch_msg me epoch (holding s (some d)).send_msg).0
        (create_ack_batch_msg me epoch (holding s (some d)).send_msg).1

  pub step-fresh :
      b.epoch_id ≡ s.next_batch_epoch_id
      → s.next_batch_epoch_id < 2 ^ 15
      → CanLog env
      → (t : Slave) × (rest : List Sent) × (slave_step method me env (some d) s
          ≡ done (t, ack_of me (holding s (some d)) s.next_batch_epoch_id ∷ rest))
        × (t.next_batch_epoch_id ≡ suc s.next_batch_epoch_id)
        × (map queued t.write_tx_buffer ≡ map queued s.write_tx_buffer ++ (expected b ∷ []))
        × (rest ≡ peers_ack s.next_batch_epoch_id)
        × Recorded t.batch_log s.next_batch_epoch_id b
        × ((e : ℕ) (x : Batch)
            → e ≢ s.next_batch_epoch_id
            → Recorded s.batch_log e x
            → Recorded t.batch_log e x)
  step-fresh e small can =
      let r =
        holding-Received env.raw_tx env.raw_set (short_of_int s.next_batch_epoch_id) s d b c v
          (omega (arith, e)) in
      let epoch : get_epoch_id_from_batch_meg (holding s (some d)).recv_msg
          ≡ s.next_batch_epoch_id =
        r.epoch ∙ rw e (ground arith) in
      let (f, runs, held, others) =
        on_batch-accepts (peers_of method me) me env (holding s (some d)) (got_len s (some d)) epoch
          (omega arith) (omega (arith, got_len-bound s d)) can.opened can.serves in
      (
        _,
        _,
        slave_step-batch method me env (some d) s m r.typed ∙ runs,
        next-accepted me env (holding s (some d)) s.next_batch_epoch_id f ∙ omega arith,
        queue-accepted me env (holding s (some d)) s.next_batch_epoch_id f b r,
        refl,
        Recorded-accepted me env (holding s (some d)) s.next_batch_epoch_id f s.next_batch_epoch_id
            b (Recorded-received f s.recv_msg d s.next_batch_epoch_id b c held),
        λ e x ne logged.
            Recorded-accepted me env (holding s (some d)) s.next_batch_epoch_id f e x
              (Recorded-kept s.batch_log f s.next_batch_epoch_id e x others ne logged),
      )

  pub step-again :
      b.epoch_id < s.next_batch_epoch_id
      → s.next_batch_epoch_id ≤ 2 ^ 15
      → (t : Slave) × (rest : List Sent) × (slave_step method me env (some d) s
          ≡ done (t, ack_of me (holding s (some d)) b.epoch_id ∷ rest))
        × (t.next_batch_epoch_id ≡ s.next_batch_epoch_id)
        × (t.write_tx_buffer ≡ s.write_tx_buffer)
        × (rest ≡ [])
        × (t.batch_log ≡ s.batch_log)
  step-again lt small =
      let r = holding-Received env.raw_tx env.raw_set 0 s d b c v (omega arith) in
      let epoch : get_epoch_id_from_batch_meg (holding s (some d)).recv_msg ≡ b.epoch_id =
        r.epoch ∙ ground arith in
      let before : ltb b.epoch_id s.next_batch_epoch_id ≡ true = ground arith in
      (
        record (holding s (some d)) {
          send_msg = (create_ack_batch_msg me b.epoch_id (holding s (some d)).send_msg).0;
        },
        [],
        slave_step-batch method me env (some d) s m r.typed
            ∙ on_batch-other (peers_of method me) me env (holding s (some d)) (got_len s (some d))
                b.epoch_id epoch (omega arith) small (omega arith)
            ∙ rw before refl,
        refl,
        refl,
        refl,
        refl,
      )

  -- A datagram that carries a sound batch, received by a slave of either UDP method: if the batch is
  -- ahead of the slave's next epoch, its own epoch being below 2 ^ 15, the round fails the assertion that no batch is ahead, whatever the
  -- slave holds and whether or not its log can be written.
  pub step-ahead :
      s.next_batch_epoch_id < b.epoch_id
      → b.epoch_id < 2 ^ 15
      → slave_step method me env (some d) s ≡ abort
  step-ahead gt small =
      let r = holding-Received env.raw_tx env.raw_set 0 s d b c v small in
      let epoch : get_epoch_id_from_batch_meg (holding s (some d)).recv_msg ≡ b.epoch_id =
        r.epoch ∙ ground arith in
      let ahead : ltb b.epoch_id s.next_batch_epoch_id ≡ false = ground arith in
      slave_step-batch method me env (some d) s m r.typed
      ∙ on_batch-other (peers_of method me) me env (holding s (some d)) (got_len s (some d))
          b.epoch_id epoch (omega arith) (omega arith) (omega arith)
      ∙ rw ahead refl

run-step :
    (method : Method) (me : ℕ) (env : Env) (event : Option Datagram)
    (es : List (Env × Option Datagram)) (s t : Slave) (sent : List Sent)
    → slave_step method me env event s ≡ done (t, sent)
    → run method me ((env, event) ∷ es) s ≡ run method me es t
unfolding run
run-step method me env event es s t sent h = rw h

rounds-Delivers :
    (method : Method) (me n : ℕ) {es : List (Env × Option Datagram)} {bs : List Batch} (s : Slave)
    → method ≢ tcp_method
    → s.next_batch_epoch_id ≡ n
    → n ≤ 2 ^ 15
    → Delivers n es bs
    → (t : Slave) × (run method me es s ≡ done t)
      × (t.next_batch_epoch_id ≡ n + length bs)
      × (map queued t.write_tx_buffer ≡ map queued s.write_tx_buffer ++ map expected bs)
unfolding run
rounds-Delivers method me n s m at small end =
    (s, refl, omega arith, sym (append-nil (map queued s.write_tx_buffer)))
rounds-Delivers method me n s m at small (fresh {es} {bs} env d b can c v e fits rest) =
    let (t, others, steps, step_next, step_queue, _, _, _) =
      step-fresh method m me env s d b c v (e ∙ sym at) (omega arith) can in
    let (u, runs, moved, queue) =
      rounds-Delivers method me (suc n) t m (omega (arith, step_next, at)) (omega arith) rest in
    (
      u,
      run-step method me env (some d) es s t _ steps ∙ runs,
      omega (arith, moved),
      queue
          ∙ ap (λ q. q ++ map expected bs) step_queue
          ∙ append_assoc (map queued s.write_tx_buffer) (expected b ∷ []) (map expected bs),
    )
rounds-Delivers method me n s m at small (again {es} {bs} env d b c v lt rest) =
    let (t, others, steps, step_next, step_queue, _, _) =
      step-again method m me env s d b c v (omega arith) (omega arith) in
    let (u, runs, moved, queue) =
      rounds-Delivers method me n t m (omega (arith, step_next, at)) (omega arith) rest in
    (
      u,
      run-step method me env (some d) es s t _ steps ∙ runs,
      moved,
      queue ∙ ap (λ q. map queued q ++ map expected bs) step_queue,
    )

-- A slave, of either UDP method, whose next epoch is at most 2 ^ 15, and datagrams that each hold the next
-- batch of the master or one from before, the log being served whenever the next one comes: all rounds
-- end, and the slave has then queued exactly the batches that were new to it, in order, each with its
-- epoch and its transactions, and has moved on by their number.
pub run-Delivers :
    (method : Method) (me : ℕ) {es : List (Env × Option Datagram)} {bs : List Batch} (s : Slave)
    → method ≢ tcp_method
    → s.next_batch_epoch_id ≤ 2 ^ 15
    → Delivers s.next_batch_epoch_id es bs
    → (t : Slave) × (run method me es s ≡ done t)
      × (t.next_batch_epoch_id ≡ s.next_batch_epoch_id + length bs)
      × (map queued t.write_tx_buffer ≡ map queued s.write_tx_buffer ++ map expected bs)
run-Delivers method me s m small delivers =
    rounds-Delivers method me s.next_batch_epoch_id s m refl small delivers
