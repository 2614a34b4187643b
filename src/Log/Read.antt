-- ===== src/Log/Read.antt =====
-- `read_log`: what it gives back of a record, and what it does without one.
use graduation_research_prog.Base.{
  Bool-cases, ltb, if◌then◌else◌, inl, inr, ℕ, ◌+◌, ◌*◌, ◌<◌, ◌≤◌, ◌^◌, ◌≡◌, ◌∙◌, ap, some, arith,
  true,
}
use graduation_research_prog.Bytes.{Buf, copy, get_int_from_bytes}
use graduation_research_prog.Outcome.{done, waiting}
use graduation_research_prog.Log.{File, Answers, batch_log_size, overrun, read_log, size_of_int}
use graduation_research_prog.Log.Loops.{Serves, read_all-Fetched, AtEnd, read_all-waiting}
use graduation_research_prog.Log.Append.{
  overrun-fits, Holds, epochs, record_offset-eq, seek_succeeds, get_int_same,
}

-- What `read_log` leaves in the message buffer.
abbrev loaded : Buf → Buf → ℕ → Buf
loaded msg bytes len = copy msg 0 (λ i. bytes (4 + i)) len

loaded-inside : (msg bytes : Buf) (len i : ℕ) → i < len → loaded msg bytes len i ≡ bytes (4 + i)
unfolding copy
loaded-inside msg bytes len i h = ground arith

loaded-outside : (msg bytes : Buf) (len i : ℕ) → len ≤ i → loaded msg bytes len i ≡ msg i
unfolding copy
loaded-outside msg bytes len i h = ground arith

size_of_int-eq : (len : ℕ) → len < 2 ^ 31 → size_of_int len ≡ len
size_of_int-eq len h = ground arith

-- what `read_log_lem` says, for all bytes at once
pub read_log-Holds :
    (answers : Answers) (stack : Buf) (f : File) (msg m : Buf) (len e : ℕ)
    → e < epochs
    → len < 2 ^ 31
    → Serves batch_log_size 0 answers
    → Holds f e len m
    → (out : Buf) × (read_log true answers stack (some f) msg e
        ≡ done (out, batch_log_size, overrun len))
      × ((i : ℕ) → i < len → i < 1020 → out i ≡ m i)
      × ((i : ℕ) → len ≤ i → out i ≡ msg i)
unfolding read_log
read_log-Holds answers stack f msg m len e small fits s h =
    let (bytes, runs, x) =
      read_all-Fetched answers f (1024 * e) stack batch_log_size 0 (omega arith) s in
    let got : get_int_from_bytes bytes 0 ≡ len =
      get_int_same bytes (λ i. f.byte (1024 * e + i))
        (λ i l. x.inside i (omega arith) (omega arith))
      ∙ h.length_kept in
    (
      loaded msg bytes len,
      rw (record_offset-eq e small, seek_succeeds e small, runs, got, size_of_int-eq len fits),
      λ i l within.
          loaded-inside msg bytes len i l
          ∙ x.inside (4 + i) (omega arith) (omega arith)
          ∙ ap f.byte (omega arith)
          ∙ h.bytes_kept i l within,
      λ i l. loaded-outside msg bytes len i l,
    )

-- A record that the log holds, of an epoch below 2 ^ 21 and a message of at most 1020 bytes: if `open`
-- succeeds and the calls of `read` serve, `read_log` returns the size of the record, not the length of
-- the message, having read nothing behind its array, and of the message buffer the bytes below the
-- length are those of the message, and all others as before.
pub read_log_lem :
    (answers : Answers) (stack : Buf) (f : File) (msg m : Buf) (len e i : ℕ)
    → e < epochs
    → len ≤ 1020
    → Serves batch_log_size 0 answers
    → Holds f e len m
    → (out : Buf) × (read_log true answers stack (some f) msg e ≡ done (out, batch_log_size, 0))
      × (out i ≡ (if ltb i len then m i else msg i))
read_log_lem answers stack f msg m len e i small fits s h =
    let (out, runs, inside, outside) =
      read_log-Holds answers stack f msg m len e small (omega arith) s h in
    (
      out,
      runs ∙ ap (λ over. done (out, batch_log_size, over)) (overrun-fits len fits),
      elim (Bool-cases (ltb i len)) [
        | inl lt ↦ rw lt (inside i (ground arith) (ground arith))
        | inr ge ↦ rw ge (outside i (ground arith))
      ],
    )

-- A record that the file does not hold whole, of an epoch below 2 ^ 21: while `read` returns at most
-- what is left of the file and never fails, `read_log` is still in its loop, however many calls of
-- `read` it has made.
pub read_log-waiting :
    (answers : Answers) (stack : Buf) (f : File) (msg : Buf) (e : ℕ)
    → e < epochs
    → f.size < 1024 * e + 1024
    → AtEnd f (1024 * e) 0 answers
    → read_log true answers stack (some f) msg e ≡ waiting
unfolding read_log
read_log-waiting answers stack f msg e small short s = rw (
  record_offset-eq e small,
  seek_succeeds e small,
  read_all-waiting answers f (1024 * e) stack batch_log_size 0 short (omega arith) s,
)
