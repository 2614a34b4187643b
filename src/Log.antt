-- ===== src/Log.antt =====
-- utils/log.h and utils/log.c: the log of determined batches, a file of records of 1024 bytes.
-- The record of epoch `e` stands at `1024 * e`: an `int` with the length of the message, then the
-- message. The kernel enters as arguments: whether `open` succeeds, and what each `write` or `read`
-- returns. The functions hold the log's mutex from `open` to `close`, so each is one step. The
-- array `bytes` on the stack is a `Buf` too: what it holds before, and what stands behind its 1024
-- bytes, is the argument `stack`.
pub mod Append
pub mod Loops
pub mod Read
mod Tests
use graduation_research_prog.Base.{
  ℕ, zero, suc, ◌+◌, ◌-◌, ◌*◌, ◌%◌, ◌^◌, max, ◌==◌, ltb, if◌then◌else◌, Bool, true, false, Option,
  none, some, List, [], ◌∷◌,
}
use graduation_research_prog.Outcome.{Outcome, done, exit, waiting, and_then}
use graduation_research_prog.Bytes.{Buf, copy, set_int_to_bytes, get_int_from_bytes}

abbrev pub batch_log_data_size_offset : ℕ
batch_log_data_size_offset = 0

abbrev pub batch_log_data_offset : ℕ
batch_log_data_offset = batch_log_data_size_offset + 4

abbrev pub batch_log_size : ℕ
batch_log_size = 1024

-- A file: its size and its bytes. Behind the end every byte is 0, which is what a hole reads as.
pub record File : Type 0 where
  pub size : ℕ
  pub byte : Buf

abbrev pub empty_file : File
empty_file = record { size = 0; byte = λ _. 0 }

-- what the kernel returned from a row of `write` or `read` calls: `none` is -1
abbrev pub Answers : Type 0
Answers = List (Option ℕ)

-- `write(fd, src + from, …)` that wrote `n` bytes at position `pos`
unfoldable pub write_at : File → ℕ → Buf → ℕ → ℕ → File
unfolding copy
write_at f pos src from n =
    if n == 0
    then f
    else record { size = max f.size (pos + n); byte = copy f.byte pos (λ i. src (from + i)) n }

unfoldable pub write_all : Answers → File → ℕ → Buf → ℕ → ℕ → Outcome File
write_all [] f pos bytes goal_size total = if total == goal_size then done f else waiting
write_all (a ∷ answers) f pos bytes goal_size total =
    let next = λ (n : ℕ).
      write_all answers (write_at f (pos + total) bytes total n) pos bytes goal_size (total + n) in
    if total == goal_size then done f else elim a [ none ↦ exit | some n ↦ next n ]

unfoldable pub read_all : Answers → File → ℕ → Buf → ℕ → ℕ → Outcome Buf
read_all [] f pos bytes goal_size total = if total == goal_size then done bytes else waiting
read_all (a ∷ answers) f pos bytes goal_size total =
    let next = λ (n : ℕ).
      read_all answers f pos (copy bytes total (λ i. f.byte (pos + total + i)) n) goal_size
        (total + n) in
    if total == goal_size then done bytes else elim a [ none ↦ exit | some n ↦ next n ]

-- `(size_t)` of an `int`
abbrev pub size_of_int : ℕ → ℕ
size_of_int w = if ltb w (2 ^ 31) then w else w + (2 ^ 64 - 2 ^ 32)

-- `BATCH_LOG_SIZE * epoch_id` on `int`
abbrev pub record_offset : ℕ → ℕ
record_offset epoch_id = (batch_log_size * epoch_id) % 2 ^ 32

-- `lseek` to a negative offset fails.
abbrev pub seek_fails : ℕ → Bool
seek_fails offset = if ltb offset (2 ^ 31) then false else true

-- how many bytes behind an array of 1024 a `memcpy` of `len` bytes from index 4 touches
unfoldable pub overrun : ℕ → ℕ
overrun len = batch_log_data_offset + size_of_int len - batch_log_size

-- The array `bytes` of `append_log`, before it is written to the file.
unfoldable pub log_record : Buf → Buf → ℕ → Buf
unfolding copy set_int_to_bytes
log_record stack msg len =
    copy (set_int_to_bytes stack batch_log_data_size_offset len) batch_log_data_offset msg
      (size_of_int len)

-- `create_log_info` removes the file.
unfoldable pub create_log_info : Option File → Option File
create_log_info file = none

-- `open` with O_CREAT: a file that is not there is created empty
unfoldable pub open_create : Option File → File
open_create none = empty_file
open_create (some f) = f

-- The new file, and how many bytes were written behind the array.
unfoldable pub append_log : Bool → Answers → Buf → Option File → Buf → ℕ → ℕ → Outcome (File × ℕ)
unfolding log_record write_all overrun open_create
append_log opened answers stack file msg len epoch_id =
    let offset = record_offset epoch_id in
    let written =
      write_all answers (open_create file) offset (log_record stack msg len) batch_log_size 0 in
    if opened
    then if seek_fails offset then exit else and_then written (λ f. done (f, overrun len))
    else exit

-- The message buffer, the result, and how many bytes were read behind the array. The result is the
-- size of the record, not the length of the message.
unfoldable pub read_log : Bool → Answers → Buf → Option File → Buf → ℕ → Outcome (Buf × ℕ × ℕ)
unfolding read_all overrun get_int_from_bytes
read_log opened answers stack file msg epoch_id =
    let offset = record_offset epoch_id in
    let finish = λ (bytes : Buf).
      let len = get_int_from_bytes bytes batch_log_data_size_offset in
      done (
        copy msg 0 (λ i. bytes (batch_log_data_offset + i)) (size_of_int len),
        batch_log_size,
        overrun len,
      ) in
    elim file [
      | none ↦ exit
      | some f ↦
          if opened
          then if seek_fails offset
            then exit
            else and_then (read_all answers f offset stack batch_log_size 0) finish
          else exit
    ]
