-- ===== src/Message/InFlight.antt =====
-- The datagrams in which a batch travels: those that `read_log` makes of a record of the log.
use graduation_research_prog.Base.{
  ℕ, ◌<◌, ◌≤◌, ◌^◌, ◌≡◌, refl, ◌∙◌, ap, true, Option, none, some, arith,
}
use graduation_research_prog.Outcome.{done}
use graduation_research_prog.Bytes.{Buf}
use graduation_research_prog.Batch.{Batch}
use graduation_research_prog.Batch.Laws.{IsBatch}
use graduation_research_prog.Network.{Datagram}
use graduation_research_prog.Log.{File, Answers, batch_log_size, read_log, overrun, open_create}
use graduation_research_prog.Log.Loops.{Serves}
use graduation_research_prog.Log.Append.{Holds, epochs}
use graduation_research_prog.Log.Read.{read_log-Holds}
use graduation_research_prog.Message.BatchCodec.{create_batch_msg}
use graduation_research_prog.Message.BatchExtent.{SameIn, create_batch_msg_size}

-- The datagram holds the message of `b`, whole and at its beginning. What is sent behind it is not
-- part of the message.
pub record Carries (d : Datagram) (b : Batch) : Type 0 where
  pub buffer : Buf
  pub fits : d.len ≤ batch_log_size
  pub whole : (create_batch_msg b buffer).1 ≤ d.len
  pub same : SameIn 0 (create_batch_msg b buffer).1 d.bytes (create_batch_msg b buffer).0

-- The log's record of epoch `e` is the message of `b`, whole and at its beginning.
pub record Recorded (file : Option File) (e : ℕ) (b : Batch) : Type 0 where
  pub buffer : Buf
  pub len : ℕ
  pub message : Buf
  pub len_fits : len < 2 ^ 31
  pub held : Holds (open_create file) e len message
  pub whole : (create_batch_msg b buffer).1 ≤ len
  pub same : SameIn 0 (create_batch_msg b buffer).1 message (create_batch_msg b buffer).0

-- A record that is held is one of a file that exists.
file-Holds :
    (file : Option File) (e len : ℕ) (msg : Buf)
    → Holds (open_create file) e len msg
    → (f : File) × (file ≡ some f) × Holds f e len msg
unfolding open_create
file-Holds none e len msg h = absurd (omega (arith, h.whole))
file-Holds (some f) e len msg h = (f, refl, h)

-- What `read_log` gives back of it carries the batch.
pub read_log-Carries :
    (answers : Answers) (stack : Buf) (file : Option File) (msg : Buf) (e : ℕ) (b : Batch)
    → e < epochs
    → Serves batch_log_size 0 answers
    → IsBatch b
    → Recorded file e b
    → (out : Buf) × (over : ℕ) × (read_log true answers stack file msg e
        ≡ done (out, batch_log_size, over))
      × Carries (record { bytes = out; len = batch_log_size }) b
read_log-Carries answers stack file msg e b small s v r =
    let (f, at, held) = file-Holds file e r.len r.message r.held in
    let (out, runs, inside, _) =
      read_log-Holds answers stack f msg r.message r.len e small r.len_fits s held in
    let (size, bound, behind) = create_batch_msg_size b r.buffer v in
    (
      out,
      overrun r.len,
      ap (λ (given : Option File). read_log true answers stack given msg e) at ∙ runs,
      record {
        buffer = r.buffer;
        fits = omega arith;
        whole = omega (arith, bound);
        same = λ i lo hi. inside i (omega (arith, r.whole)) (omega (arith, bound)) ∙ r.same i lo hi;
      },
    )
