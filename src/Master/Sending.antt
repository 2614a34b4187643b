-- ===== src/Master/Sending.antt =====
-- The master's sending thread goes through the epochs forwards only.
use graduation_research_prog.Base.{
  ℕ, suc, ◌<◌, ◌≤◌, ◌^◌, ◌≡◌, refl, subst, ◌==◌, leb, Bool, true, false, not, ◌&&◌, if◌then◌else◌,
  Option, none, some, arith,
}
use graduation_research_prog.Words.{int_inc, int_le, int_of_short}
use graduation_research_prog.Outcome.{done, Ensures, Ensures-and_then, Ensures-if}
use graduation_research_prog.Bytes.{Buf, get_short_int_from_bytes}
use graduation_research_prog.Bytes.Access.{IsBytes, get_short_bound}
use graduation_research_prog.Network.{Datagram, udp_sv_receive_msg}
use graduation_research_prog.Network.Laws.{IsDatagram, receive-IsBytes}
use graduation_research_prog.Config.{Method, proposed_method, conventional_method, tcp_method}
use graduation_research_prog.Log.{File, Answers, batch_log_size, read_log}
use graduation_research_prog.Message.{
  check_msg, ack_batch_message, create_ack_batch_msg, get_info_from_ack_batch_msg,
}
use graduation_research_prog.Master.Sender.{Sender, sender_startup, begin_step, accepts, ack_step}

-- The epoch that is being sent is the next one, and a `short` can tell it.
pub record IsSender (s : Sender) : Type 0 where
  pub bounded : s.next_epoch_id ≤ 2 ^ 15
  pub current : s.sending ≡ true → s.send_epoch_id ≡ s.next_epoch_id
  pub bytes : IsBytes s.recv_msg

-- `s'` is valid, and has not gone back
pub record Forward (s s' : Sender) : Type 0 where
  pub valid : IsSender s'
  pub ahead : s.next_epoch_id ≤ s'.next_epoch_id

accepts-ahead :
    (method : Method) (w send : ℕ)
    → w < 2 ^ 16
    → send ≤ 2 ^ 15
    → accepts method (int_of_short w) send ≡ true
    → (send < int_inc (int_of_short w)) × (int_inc (int_of_short w) ≤ 2 ^ 15)
unfolding accepts
accepts-ahead proposed_method w send h b e = ground arith
accepts-ahead conventional_method w send h b e = ground arith
accepts-ahead tcp_method w send h b e = ground arith

-- what an accepted ACK does, and any other receive
abbrev next_step : Method → Buf → Sender → Sender
next_step method msg old =
    let epoch = int_of_short (get_short_int_from_bytes msg 3) in
    if old.sending
    then if check_msg msg ack_batch_message && accepts method epoch old.send_epoch_id
      then record old { recv_msg = msg; next_epoch_id = int_inc epoch; sending = false }
      else record old { recv_msg = msg }
    else old

ack_step-eq :
    (method : Method) (d : Datagram) (s : Sender)
    → ack_step method (some d) s
      ≡ next_step method (udp_sv_receive_msg s.recv_msg batch_log_size (some d)).0 s
unfolding ack_step get_info_from_ack_batch_msg
ack_step-eq method d s = refl

Forward-if :
    (s : Sender) (b : Bool) (x y : Sender)
    → (b ≡ true → Forward s x)
    → (b ≡ false → Forward s y)
    → Forward s (if b then x else y)
Forward-if s true x y h k = h refl
Forward-if s false x y h k = k refl

stays :
    {s : Sender} (msg : Buf) → IsSender s → IsBytes msg → Forward s (record s { recv_msg = msg })
stays msg v w = record {
  valid = record { bounded = v.bounded; current = v.current; bytes = w };
  ahead = omega arith;
}

&&-right : (a b : Bool) → (a && b) ≡ true → b ≡ true
&&-right true b h = h
&&-right false b h = absurd (cc)

next_step-Forward :
    (method : Method) (msg : Buf) (s : Sender)
    → IsSender s
    → IsBytes msg
    → Forward s (next_step method msg s)
next_step-Forward method msg s v w =
    let epoch = int_of_short (get_short_int_from_bytes msg 3) in
    Forward-if s s.sending _ s
      (λ busy.
        Forward-if s (check_msg msg ack_batch_message && accepts method epoch s.send_epoch_id) _ _
          (λ ends.
            let (ahead, fits) =
              accepts-ahead method (get_short_int_from_bytes msg 3) s.send_epoch_id
                (get_short_bound msg 3 w) (omega (arith, v.current busy, v.bounded))
                (&&-right (check_msg msg ack_batch_message) _ ends) in
            record {
              valid = record { bounded = fits; current = λ h. cc; bytes = w };
              ahead = omega (arith, v.current busy);
            })
          (λ goes_on. stays msg v w))
      (λ idle. record { valid = v; ahead = omega arith })

-- Whatever datagram arrives, one receive leaves the thread valid and not behind.
pub ack_step-Forward :
    (method : Method) (event : Option Datagram) (s : Sender)
    → IsSender s
    → IsDatagram event
    → Forward s (ack_step method event s)
unfolding ack_step
ack_step-Forward method none s v w = record { valid = v; ahead = omega arith }
ack_step-Forward method (some d) s v w =
    rw (ack_step-eq method d s) (
      next_step-Forward method _ s v (receive-IsBytes s.recv_msg batch_log_size (some d) v.bytes w))

begin_step-Forward :
    (opened : Bool) (answers : Answers) (stack : Buf) (determined_epoch_id : ℕ) (log : Option File)
    (s : Sender)
    → IsSender s
    → Ensures (Forward s) (begin_step opened answers stack determined_epoch_id log s)
unfolding begin_step
begin_step-Forward opened answers stack determined_epoch_id log s v =
    Ensures-if (Forward s) (not s.sending && int_le s.next_epoch_id determined_epoch_id) _ (done s)
      (λ more.
        Ensures-and_then (Forward s) (read_log opened answers stack log s.send_msg s.next_epoch_id)
          _
          λ r. record {
            valid = record { bounded = v.bounded; current = λ h. refl; bytes = v.bytes };
            ahead = omega arith;
          })
      (λ none_left. record { valid = v; ahead = omega arith })

-- a round of the outer loop, or a receive
pub data SenderStep (method : Method) (s : Sender) : Sender → Type 0 where
  begin :
      (opened : Bool) (answers : Answers) (stack : Buf) (determined_epoch_id : ℕ)
      (log : Option File) (t : Sender)
      → begin_step opened answers stack determined_epoch_id log s ≡ done t
      → SenderStep method s t
  receive :
      (event : Option Datagram) → IsDatagram event → SenderStep method s (ack_step method event s)

pub data SenderReach (method : Method) (s : Sender) : Sender → Type 0 where
  here : SenderReach method s s
  more : {t u : Sender} → SenderReach method s t → SenderStep method t u → SenderReach method s u

Forward-trans : {s t u : Sender} → Forward s t → Forward t u → Forward s u
Forward-trans a b = record { valid = b.valid; ahead = omega (arith, a.ahead, b.ahead) }

SenderStep-Forward :
    {method : Method} {s t : Sender} → SenderStep method s t → IsSender s → Forward s t
SenderStep-Forward {method} {s} {t} (begin opened answers stack determined_epoch_id log _ runs) v =
    subst (Ensures (Forward s)) runs
      (begin_step-Forward opened answers stack determined_epoch_id log s v)
SenderStep-Forward {method} {s} (receive event w) v = ack_step-Forward method event s v w

SenderReach-Forward :
    {method : Method} {s t : Sender} → SenderReach method s t → IsSender s → Forward s t
SenderReach-Forward here v = record { valid = v; ahead = omega arith }
SenderReach-Forward (more r st) v =
    let a = SenderReach-Forward r v in Forward-trans a (SenderStep-Forward st a.valid)

-- A sending thread, from its start through any rounds and receives, whatever datagrams arrive: while
-- it sends, the epoch that it has noted as sent is the next one, which is at most 2 ^ 15, and no later
-- round or receive puts the next epoch back.
pub startup-SenderReach :
    (method : Method) (send_msg recv_msg : Buf) (s t : Sender)
    → IsBytes recv_msg
    → SenderReach method (sender_startup send_msg recv_msg) s
    → SenderReach method s t
    → IsSender t × (s.next_epoch_id ≤ t.next_epoch_id)
unfolding sender_startup
startup-SenderReach method send_msg recv_msg s t w r r' =
    let start =
      SenderReach-Forward r (record { bounded = omega arith; current = λ h. cc; bytes = w }) in
    let later = SenderReach-Forward r' start.valid in (later.valid, later.ahead)

-- Does an ACK of `epoch` end the sending of `due`? The proposed method takes one of a later epoch
-- too.
abbrev pub ends : Method → (epoch due : ℕ) → Bool
ends proposed_method epoch due = leb due epoch
ends conventional_method epoch due = epoch == due
ends tcp_method epoch due = false

-- An ACK as a slave makes it, of an id and an epoch below 2 ^ 15, received while the batch of the next epoch is being sent: it ends the
-- sending if it is of that epoch or, with the proposed method, of a later one, and the epoch behind
-- the acknowledged one is then next; otherwise the sending goes on with the same epoch.
pub ack_step-create_ack :
    (method : Method) (me e : ℕ) (buf : Buf) (s : Sender)
    → me < 2 ^ 15
    → e < 2 ^ 15
    → s.sending ≡ true
    → s.send_epoch_id ≡ s.next_epoch_id
    → s.next_epoch_id ≤ 2 ^ 15
    → let d : Datagram = record {
      bytes = (create_ack_batch_msg me e buf).0;
      len = (create_ack_batch_msg me e buf).1;
    } in
      let t = ack_step method (some d) s in
      (t.sending ≡ not (ends method e s.next_epoch_id))
      × (t.next_epoch_id ≡ (if ends method e s.next_epoch_id then suc e else s.next_epoch_id))
unfolding ack_step get_info_from_ack_batch_msg check_msg create_ack_batch_msg udp_sv_receive_msg
    accepts
ack_step-create_ack proposed_method me e buf s h small busy at fits = ground arith
ack_step-create_ack conventional_method me e buf s h small busy at fits = ground arith
ack_step-create_ack tcp_method me e buf s h small busy at fits = ground arith
