-- ===== src/System/Steps.antt =====
-- Each step of the master and the slave keeps what holds of the system.
use mathlib.Core.List.{map-append, append_assoc, append-nil}
use graduation_research_prog.Base.{
  ℕ, suc, ◌<◌, ◌≤◌, ◌^◌, ◌≡◌, refl, sym, ◌∙◌, ap, subst, inl, inr, Bool-cases, true, false, not,
  if◌then◌else◌, some, List, [], ◌∷◌, ◌++◌, map, arith,
}
use graduation_research_prog.Batch.{Batch}
use graduation_research_prog.Network.{Datagram, Sent}
use graduation_research_prog.Config.{Method}
use graduation_research_prog.Master.{Master}
use graduation_research_prog.Master.Epochs.{Step, Step-IsMaster}
use graduation_research_prog.Master.Sender.{Sender, transmit_step, ack_step}
use graduation_research_prog.Master.Sending.{ends, ack_step-create_ack}
use graduation_research_prog.Slave.State.{Env}
use graduation_research_prog.Slave.Delivery.{queued, expected}
use graduation_research_prog.System.{System, datagram_of_sent}
use graduation_research_prog.System.Invariant.{
  Owed, Acked, Each-snoc, Loaded, loaded_datagram, IsSystem, Owed-mono, Loaded-mono, Acked-mono,
  within-IsSystem,
}
use graduation_research_prog.System.Parts.{
  Grown, Step-Grown, Begun, idle, loads, transmit_step-sending, ack_step-keeps, ack_step-idle,
}
use graduation_research_prog.System.Rounds.{Delivered}

-- Batches that were owed still are when the master has determined more.
owed-Grown :
    {m m' : Master} {d d' due : ℕ} {x : Datagram}
    → Grown m m' d d'
    → Owed m.write_tx_buffer due x
    → Owed m'.write_tx_buffer due x
owed-Grown {due} {x} g o =
    subst (λ q. Owed q due x) (sym g.queue) (Owed-mono g.more (omega arith) o)

pub later-Loaded :
    {queue : List Batch} {due later : ℕ} (s : Sender)
    → due ≤ later
    → Loaded queue due s
    → Loaded queue later s
later-Loaded {queue} {due} {later} s h l =
    subst (λ q. Loaded q later s) (append-nil queue) (Loaded-mono s [] h l)

loaded-Grown :
    {m m' : Master} {d d' due : ℕ} (s : Sender)
    → Grown m m' d d'
    → Loaded m.write_tx_buffer due s
    → Loaded m'.write_tx_buffer due s
loaded-Grown {due} s g l =
    subst (λ q. Loaded q due s) (sym g.queue) (Loaded-mono s g.more (omega arith) l)

pub master_step-IsSystem :
    {me : ℕ} (c : System) {m : Master} {d : ℕ}
    → IsSystem me c
    → Step c.master c.determined m d
    → IsSystem me (record c { master = m; determined = d })
master_step-IsSystem c {m} {d} v st =
    let g = Step-Grown st v.master in
    let (rest, agreed) = v.agreement in
    record {
      master = Step-IsMaster st v.master;
      bounded = g.bounded v.bounded;
      current = v.current;
      loaded = λ busy. loaded-Grown c.sender g (v.loaded busy);
      behind = v.behind;
      batches = λ i x h. owed-Grown g (v.batches i x h);
      acks = v.acks;
      counted = v.counted;
      agreement = (
        rest ++ map expected g.more,
        ap (map expected) g.queue
            ∙ map-append expected c.master.write_tx_buffer g.more
            ∙ ap (λ q. q ++ map expected g.more) agreed
            ∙ append_assoc (map queued c.slave.write_tx_buffer) rest (map expected g.more),
      );
    }

pub begin-IsSystem :
    {me : ℕ} (c : System) {t : Sender}
    → IsSystem me c
    → Begun c.master c.sender t
    → IsSystem me (record c { sender = t })
begin-IsSystem c v idle = v
begin-IsSystem c v (loads b out at epoch sound carries) = record {
  master = v.master;
  bounded = v.bounded;
  current = λ busy. refl;
  loaded = λ busy. (
    record {
      epoch = c.sender.next_epoch_id;
      batch = b;
      at = at;
      named = epoch;
      sound = sound;
      carries = carries;
      reached = v.behind;
    },
    refl,
  );
  behind = v.behind;
  batches = v.batches;
  acks = v.acks;
  counted = v.counted;
  agreement = v.agreement;
}

pub transmit-IsSystem :
    {me : ℕ} (c : System) {sent : Sent}
    → IsSystem me c
    → transmit_step me c.sender ≡ some sent
    → IsSystem me (record c { batches = c.batches ++ (datagram_of_sent sent ∷ []) })
transmit-IsSystem {me} c {sent} v h =
    let (busy, msg, len) = transmit_step-sending me c.sender sent h in
    let same : loaded_datagram c.sender ≡ datagram_of_sent sent =
      λ i. record { bytes = sym msg i; len = sym len i } in
    record {
      master = v.master;
      bounded = v.bounded;
      current = v.current;
      loaded = v.loaded;
      behind = v.behind;
      batches = Each-snoc c.batches (datagram_of_sent sent) v.batches (
          subst (Owed c.master.write_tx_buffer c.slave.next_batch_epoch_id) same (v.loaded busy).0);
      acks = v.acks;
      counted = v.counted;
      agreement = v.agreement;
    }

pub later-Owed :
    {queue : List Batch} {due later : ℕ} {x : Datagram}
    → due ≤ later
    → Owed queue due x
    → Owed queue later x
later-Owed {queue} {due} {later} {x} h o =
    subst (λ q. Owed q later x) (append-nil queue) (Owed-mono [] h o)

-- the new state of the slave, and the ACK in flight
pub Delivered-IsSystem :
    {method : Method} {me : ℕ} {env : Env} {d : Datagram} {e : ℕ} (c : System)
    → IsSystem me c
    → (w : Delivered method me env d e c.master c.slave)
    → IsSystem me (record c { slave = w.final; acks = c.acks ++ (datagram_of_sent w.ack ∷ []) })
Delivered-IsSystem c v w = record {
  master = v.master;
  bounded = v.bounded;
  current = v.current;
  loaded = λ busy. later-Loaded c.sender w.later (v.loaded busy);
  behind = omega (arith, v.behind, w.later);
  batches = λ i x h. later-Owed w.later (v.batches i x h);
  acks =
      Each-snoc c.acks (datagram_of_sent w.ack) (λ i x h. Acked-mono w.later (v.acks i x h))
        w.acked.0;
  counted = w.counted;
  agreement = w.agreement;
}

-- What a sending thread has made of an ACK.
record Heard (s t : Sender) (due : ℕ) : Type 0 where
  keeps : t.sending ≡ true → t.next_epoch_id ≡ s.next_epoch_id
  heard_behind : t.next_epoch_id ≤ due

ack_step-Heard :
    (method : Method) (me due : ℕ) (d : Datagram) (s : Sender)
    → me < 2 ^ 15
    → due ≤ 2 ^ 15
    → s.sending ≡ true
    → s.send_epoch_id ≡ s.next_epoch_id
    → s.next_epoch_id ≤ due
    → Acked me due d
    → Heard s (ack_step method (some d) s) due
ack_step-Heard method me due d s h small busy current behind a =
    let e = a.epoch in
    let (stops, moves) =
      ack_step-create_ack method me e a.buffer s h (omega (arith, a.past)) busy current
        (omega arith) in
    subst (λ x. Heard s (ack_step method (some x) s) due) (sym a.made)
      (elim (Bool-cases (ends method e s.next_epoch_id)) [
        | inl over ↦ record {
          keeps = λ on. absurd (contrary (sym on ∙ stops ∙ ap not over));
          heard_behind =
              subst (λ n. n ≤ due)
                (sym (moves ∙ ap (λ b. if b then suc e else s.next_epoch_id) over))
                (omega (arith, a.past));
        }
        | inr on ↦ record {
          keeps = λ _. moves ∙ ap (λ b. if b then suc e else s.next_epoch_id) on;
          heard_behind =
              subst (λ n. n ≤ due) (sym (moves ∙ ap (λ b. if b then suc e else s.next_epoch_id) on))
                behind;
        }
      ])
  where
    contrary : true ≡ false → ⊥
    contrary h = cc

pub acknowledged-IsSystem :
    (method : Method) {me : ℕ} (c : System) (d : Datagram)
    → me < 2 ^ 15
    → IsSystem me c
    → Acked me c.slave.next_batch_epoch_id d
    → IsSystem me (record c { sender = ack_step method (some d) c.sender })
acknowledged-IsSystem method {me} c d h v a = elim (Bool-cases c.sender.sending) [
  | inr quiet ↦
      subst (λ t. IsSystem me (record c { sender = t }))
        (sym (ack_step-idle method d c.sender quiet)) v
  | inl busy ↦
      let within = within-IsSystem c v in
      let w =
        ack_step-Heard method me c.slave.next_batch_epoch_id d c.sender h (omega (arith, v.bounded))
          busy (v.current busy) v.behind a in
      let (epoch, msg, len) = ack_step-keeps method d c.sender in
      let same : loaded_datagram c.sender ≡ loaded_datagram (ack_step method (some d) c.sender) =
        λ i. record { bytes = sym msg i; len = sym len i } in
      record {
        master = v.master;
        bounded = v.bounded;
        current = λ on. epoch ∙ v.current busy ∙ sym (w.keeps on);
        loaded = λ on.
            let (o, same_epoch) =
              subst
                (λ x.
                  (o : Owed c.master.write_tx_buffer c.slave.next_batch_epoch_id x) × (o.epoch
                    ≡ c.sender.send_epoch_id))
                same (v.loaded busy) in
            (o, same_epoch ∙ sym epoch);
        behind = w.heard_behind;
        batches = v.batches;
        acks = v.acks;
        counted = v.counted;
        agreement = v.agreement;
      }
]
