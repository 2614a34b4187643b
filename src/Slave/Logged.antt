-- ===== src/Slave/Logged.antt =====
-- The log of a slave that has accepted a batch: the batch's record, and those from before.
use graduation_research_prog.Base.{ℕ, ◌≤◌, ◌≡◌, ◌≢◌, refl, sym, ◌∙◌, subst, Option, some, arith}
use graduation_research_prog.Bytes.{Buf}
use graduation_research_prog.Batch.{Batch}
use graduation_research_prog.Network.{Datagram, udp_sv_receive_msg}
use graduation_research_prog.Network.Laws.{receive-same}
use graduation_research_prog.Log.{File, batch_log_size, open_create}
use graduation_research_prog.Log.Append.{Holds}
use graduation_research_prog.Message.InFlight.{Carries, Recorded}
use graduation_research_prog.Slave.State.{Slave, Env}
use graduation_research_prog.Slave.Actions.{accepted}

open_create-some : (f : File) → open_create (some f) ≡ f
unfolding open_create
open_create-some f = refl

log-accepted :
    (me : ℕ) (env : Env) (s : Slave) (epoch : ℕ) (f : File)
    → (accepted me env s epoch f).batch_log ≡ some f
unfolding accepted
log-accepted me env s epoch f = refl

got_len-whole :
    (old : Buf) (d : Datagram)
    → d.len ≤ batch_log_size
    → (udp_sv_receive_msg old batch_log_size (some d)).1 ≡ d.len
unfolding udp_sv_receive_msg
got_len-whole old d h = ground arith

-- The log has the whole message that was received, so the record of the batch.
pub Recorded-received :
    (f : File) (old : Buf) (d : Datagram) (e : ℕ) (b : Batch)
    → Carries d b
    → let (msg, len) = udp_sv_receive_msg old batch_log_size (some d) in
      Holds f e len msg → Recorded (some f) e b
Recorded-received f old d e b c held =
    let len = got_len-whole old d c.fits in
    record {
      buffer = c.buffer;
      len = (udp_sv_receive_msg old batch_log_size (some d)).1;
      message = (udp_sv_receive_msg old batch_log_size (some d)).0;
      len_fits = omega (arith, len, c.fits);
      held =
          subst
            (λ g.
              Holds g e (udp_sv_receive_msg old batch_log_size (some d)).1
                (udp_sv_receive_msg old batch_log_size (some d)).0)
            (sym (open_create-some f)) held;
      whole = omega (arith, len, c.whole);
      same = λ i lo hi.
          receive-same old batch_log_size d i c.fits (omega (arith, c.whole)) ∙ c.same i lo hi;
    }

-- A record that every record but one was kept of.
pub Recorded-kept :
    (file : Option File) (f : File) (n e : ℕ) (b : Batch)
    → ((d m : ℕ) (other : Buf) → d ≢ n → Holds (open_create file) d m other → Holds f d m other)
    → e ≢ n
    → Recorded file e b
    → Recorded (some f) e b
Recorded-kept file f n e b keeps ne r = record {
  buffer = r.buffer;
  len = r.len;
  message = r.message;
  len_fits = r.len_fits;
  held =
      subst (λ g. Holds g e r.len r.message) (sym (open_create-some f))
        (keeps e r.len r.message ne r.held);
  whole = r.whole;
  same = r.same;
}

pub Recorded-accepted :
    (me : ℕ) (env : Env) (s : Slave) (epoch : ℕ) (f : File) (e : ℕ) (b : Batch)
    → Recorded (some f) e b
    → Recorded (accepted me env s epoch f).batch_log e b
Recorded-accepted me env s epoch f e b =
    subst (λ l. Recorded l e b) (sym (log-accepted me env s epoch f))
