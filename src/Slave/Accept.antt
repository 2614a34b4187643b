-- ===== src/Slave/Accept.antt =====
-- What a slave does with each kind of message: the whole result of the round.
use graduation_research_prog.Base.{
  ℕ, ◌<◌, ◌≤◌, ◌≢◌, ◌^◌, ◌≡◌, true, false, Bool-cases, inl, inr, ltb, if◌then◌else◌, ◌==◌, List, [],
  ◌∷◌, arith,
}
use graduation_research_prog.Words.{int_lt}
use graduation_research_prog.Outcome.{done, abort}
use graduation_research_prog.Bytes.{Buf}
use graduation_research_prog.Network.{Sent}
use graduation_research_prog.Log.{File, batch_log_size, append_log, overrun, open_create}
use graduation_research_prog.Log.Loops.{Serves}
use graduation_research_prog.Log.Append.{Holds, append_log-Holds, epochs}
use graduation_research_prog.Message.{create_ack_batch_msg}
use graduation_research_prog.Message.BatchCodec.{get_epoch_id_from_batch_meg}
use graduation_research_prog.Slave.State.{Slave, Env}
use graduation_research_prog.Slave.Actions.{
  to_master, accepted, accept_batch, acknowledge, on_batch,
}

-- the ACK that a slave sends to the master, and its buffer
abbrev pub ack_of : ℕ → Slave → ℕ → Sent
ack_of me s epoch =
    to_master me (create_ack_batch_msg me epoch s.send_msg).0
      (create_ack_batch_msg me epoch s.send_msg).1

module _ (peers : Buf → ℕ → List Sent) (me : ℕ) (env : Env) where
  accept_batch-done :
      (s : Slave) (len epoch : ℕ) (f : File) (over : ℕ)
      → env.opened ≡ true
      → append_log true env.answers env.stack s.batch_log s.recv_msg len epoch ≡ done (f, over)
      → accept_batch peers me env s len epoch
        ≡ done (
          accepted me env s epoch f,
          ack_of me s epoch
              ∷ peers
                  (create_ack_batch_msg me epoch s.send_msg).0
                  (create_ack_batch_msg me epoch s.send_msg).1,
        )
  unfolding accept_batch
  accept_batch-done s len epoch f over o runs = rw (o, runs)

  -- The next batch in order is logged, beside all other records, and the round ends.
  pub on_batch-accepts :
      (s : Slave) (len : ℕ)
      → get_epoch_id_from_batch_meg s.recv_msg ≡ s.next_batch_epoch_id
      → s.next_batch_epoch_id < epochs
      → len < 2 ^ 31
      → env.opened ≡ true
      → Serves batch_log_size 0 env.answers
      → let epoch = s.next_batch_epoch_id in
        (f : File) × (on_batch peers me env s len
          ≡ done (
            accepted me env s epoch f,
            ack_of me s epoch
                ∷ peers
                    (create_ack_batch_msg me epoch s.send_msg).0
                    (create_ack_batch_msg me epoch s.send_msg).1,
          ))
        × Holds f epoch len s.recv_msg
        × ((d m : ℕ) (other : Buf)
            → d ≢ epoch
            → Holds (open_create s.batch_log) d m other
            → Holds f d m other)
  unfolding on_batch
  on_batch-accepts s len e small fits o v =
      let (f, runs, held, others) =
        append_log-Holds env.answers env.stack s.batch_log s.recv_msg len s.next_batch_epoch_id
          small fits v in
      let hit : (s.next_batch_epoch_id == s.next_batch_epoch_id) ≡ true = ground arith in
      (
        f,
        rw (e, hit) (accept_batch-done s len s.next_batch_epoch_id f (overrun len) o runs),
        held,
        others,
      )

  on_batch-old :
      (s : Slave) (len e : ℕ)
      → get_epoch_id_from_batch_meg s.recv_msg ≡ e
      → e < s.next_batch_epoch_id
      → s.next_batch_epoch_id ≤ 2 ^ 15
      → on_batch peers me env s len
        ≡ done
            (record s { send_msg = (create_ack_batch_msg me e s.send_msg).0 }, ack_of me s e ∷ [])
  unfolding on_batch acknowledge
  on_batch-old s len e h lt small =
      let miss : (e == s.next_batch_epoch_id) ≡ false = ground arith in
      let less : int_lt e s.next_batch_epoch_id ≡ true = ground arith in rw (h, miss, less)

  on_batch-ahead :
      (s : Slave) (len e : ℕ)
      → get_epoch_id_from_batch_meg s.recv_msg ≡ e
      → s.next_batch_epoch_id < e
      → e < 2 ^ 31
      → on_batch peers me env s len ≡ abort
  unfolding on_batch
  on_batch-ahead s len e h lt small =
      let miss : (e == s.next_batch_epoch_id) ≡ false = ground arith in
      let less : int_lt e s.next_batch_epoch_id ≡ false = ground arith in
      let more : int_lt s.next_batch_epoch_id e ≡ true = ground arith in rw (h, miss, less, more)

  -- A batch that is not the next in order, of an epoch that is not negative, the next one being at most
  -- 2 ^ 15: one from before is acknowledged to the master alone, and
  -- nothing is logged or queued, and one ahead of the next fails the assertion.
  pub on_batch-other :
      (s : Slave) (len e : ℕ)
      → get_epoch_id_from_batch_meg s.recv_msg ≡ e
      → e ≢ s.next_batch_epoch_id
      → s.next_batch_epoch_id ≤ 2 ^ 15
      → e < 2 ^ 31
      → on_batch peers me env s len ≡ (
          if ltb e s.next_batch_epoch_id
          then done
              (record s { send_msg = (create_ack_batch_msg me e s.send_msg).0 }, ack_of me s e ∷ [])
          else abort)
  on_batch-other s len e h ne small fits = elim (Bool-cases (ltb e s.next_batch_epoch_id)) [
    | inl lt ↦ rw lt (on_batch-old s len e h (ground arith) small)
    | inr ge ↦ rw ge (on_batch-ahead s len e h (ground arith) fits)
  ]
