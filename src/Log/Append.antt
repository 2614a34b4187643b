-- ===== src/Log/Append.antt =====
-- `append_log` and the records that a log holds.
use graduation_research_prog.Base.{
  ℕ, ◌+◌, ◌-◌, ◌*◌, ◌<◌, ◌≤◌, ◌^◌, ◌≡◌, ◌≢◌, ◌∙◌, inl, inr, Option, arith, Bool, true, false,
  Bool-cases, ltb, ap,
}
use graduation_research_prog.Bytes.{Buf, get_int_from_bytes}
use graduation_research_prog.Bytes.Access.{load_same}
use graduation_research_prog.Outcome.{done, exit}
use graduation_research_prog.Log.{
  File, Answers, batch_log_size, record_offset, log_record, overrun, append_log, open_create,
  seek_fails,
}
use graduation_research_prog.Log.Loops.{Serves, Written, write_all-Written}

-- The record of epoch `e` is whole, and holds the length and the first bytes of the message.
pub record Holds (f : File) (e len : ℕ) (msg : Buf) : Type 0 where
  pub whole : 1024 * e + 1024 ≤ f.size
  pub length_kept : get_int_from_bytes (λ i. f.byte (1024 * e + i)) 0 ≡ len
  pub bytes_kept : (i : ℕ) → i < len → i < 1020 → f.byte (1024 * e + 4 + i) ≡ msg i

-- The epochs whose offset does not overflow an `int`.
abbrev pub epochs : ℕ
epochs = 2 ^ 21

-- The offset of such an epoch is not negative, so `lseek` succeeds.
pub record_offset-eq : (e : ℕ) → e < epochs → record_offset e ≡ 1024 * e
record_offset-eq e h = omega arith

pub seek_succeeds : (e : ℕ) → e < epochs → seek_fails (1024 * e) ≡ false
seek_succeeds e h = ground arith

log_record-length :
    (stack msg : Buf) (len : ℕ)
    → len < 2 ^ 31
    → get_int_from_bytes (log_record stack msg len) 0 ≡ len
unfolding get_int_from_bytes log_record
log_record-length stack msg len h = ground arith

log_record-body :
    (stack msg : Buf) (len i : ℕ)
    → len < 2 ^ 31
    → i < len
    → log_record stack msg len (4 + i) ≡ msg i
unfolding log_record
log_record-body stack msg len i h l = ground arith

-- the four bytes of the length are read from the record alone
pub get_int_same :
    (b c : Buf) → ((i : ℕ) → i < 4 → b i ≡ c i) → get_int_from_bytes b 0 ≡ get_int_from_bytes c 0
unfolding get_int_from_bytes
get_int_same b c h = load_same 4 b c 0 (λ i lo hi. h i hi)

-- A record that was written is held.
Written-Holds :
    {f g : File} (stack msg : Buf) (e len : ℕ)
    → len < 2 ^ 31
    → Written f g (1024 * e) (log_record stack msg len) 0 1024
    → Holds g e len msg
Written-Holds {g} stack msg e len fits w = record {
  whole = w.covers (omega arith);
  length_kept =
      get_int_same (λ i. g.byte (1024 * e + i)) (log_record stack msg len)
        (λ i h. w.inside i (omega arith) (omega arith))
      ∙ log_record-length stack msg len fits;
  bytes_kept = λ i h small.
      ap g.byte (omega arith)
      ∙ w.inside (4 + i) (omega arith) (omega arith)
      ∙ log_record-body stack msg len i fits h;
}

-- Writing one record spares every other.
Holds-other :
    {f g : File} {src other : Buf} (d e m : ℕ)
    → d ≢ e
    → Written f g (1024 * e) src 0 1024
    → Holds f d m other
    → Holds g d m other
Holds-other {f} {g} d e m ne w h = record {
  whole = omega (arith, h.whole, w.grown);
  length_kept =
      get_int_same (λ i. g.byte (1024 * d + i)) (λ i. f.byte (1024 * d + i))
        (λ i l. spared i (omega arith))
      ∙ h.length_kept;
  bytes_kept = λ i l small.
      ap g.byte (omega arith)
      ∙ spared (4 + i) (omega arith)
      ∙ ap f.byte (omega arith)
      ∙ h.bytes_kept i l small;
}
  where
    spared : (i : ℕ) → i < 1024 → g.byte (1024 * d + i) ≡ f.byte (1024 * d + i)
    spared i l = elim (Bool-cases (ltb d e)) [
      | inl lo ↦ w.before (1024 * d + i) (ground arith)
      | inr hi ↦ w.behind (1024 * d + i) (ground arith)
    ]

-- what `append_log_lem` says, for all other records at once
pub append_log-Holds :
    (answers : Answers) (stack : Buf) (file : Option File) (msg : Buf) (len e : ℕ)
    → e < epochs
    → len < 2 ^ 31
    → Serves batch_log_size 0 answers
    → (g : File) × (append_log true answers stack file msg len e ≡ done (g, overrun len))
      × Holds g e len msg
      × ((d m : ℕ) (other : Buf) → d ≢ e → Holds (open_create file) d m other → Holds g d m other)
unfolding append_log
append_log-Holds answers stack file msg len e small fits s =
    let (g, runs, w) =
      write_all-Written answers (open_create file) (1024 * e) (log_record stack msg len)
        batch_log_size 0 (omega arith) s in
    (
      g,
      rw (record_offset-eq e small, seek_succeeds e small, runs),
      Written-Holds stack msg e len fits w,
      λ d m other ne. Holds-other d e m ne w,
    )

-- A message that fits the record stays within the array.
pub overrun-fits : (len : ℕ) → len ≤ 1020 → overrun len ≡ 0
unfolding overrun
overrun-fits len h = ground arith

-- An epoch that is negative as an `int`, by at most 2 ^ 21, ends the process, whatever else holds:
-- its offset in the log is negative.
pub append_log-exit :
    (opened : Bool) (answers : Answers) (stack : Buf) (file : Option File) (msg : Buf) (len e : ℕ)
    → 2 ^ 31 ≤ e
    → 2 ^ 32 - epochs ≤ e
    → e < 2 ^ 32
    → append_log opened answers stack file msg len e ≡ exit
unfolding append_log
append_log-exit opened answers stack file msg len e neg near h =
    let fails : seek_fails (record_offset e) ≡ true = ground arith in
    elim (Bool-cases opened) [ inl o ↦ rw (o, fails) | inr o ↦ rw o ]
