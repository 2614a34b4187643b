-- ===== src/Log/Tests.antt =====
-- Examples of utils/log.c.
use graduation_research_prog.Base.{◌≡◌, refl, true, none, some, [], ◌∷◌, arith}
use graduation_research_prog.Bytes.{Buf, load, get_int_from_bytes}
use graduation_research_prog.Outcome.{done, exit, waiting}
use graduation_research_prog.Samples.{zeros, in_two, in_two-Serves}
use graduation_research_prog.Log.{
  File, empty_file, batch_log_size, write_all, read_all, append_log, read_log, overrun,
}
use graduation_research_prog.Log.Loops.{Written, write_all-Written, Fetched, read_all-Fetched}
use graduation_research_prog.Log.Append.{Holds, append_log-exit}
use graduation_research_prog.Log.Read.{read_log_lem, read_log-waiting}

-- epoch 0 is in the file, with an empty message
abbrev log : File
log = record { size = 1024; byte = zeros }

log-Holds : Holds log 0 0 zeros
unfolding get_int_from_bytes load
log-Holds = record { whole = omega arith; length_kept = refl; bytes_kept = λ i h small. refl }

-- The `memcpy` of a whole record writes 4 bytes behind the array.
overrun-1024 : overrun batch_log_size ≡ 4
unfolding overrun
overrun-1024 = refl

overrun-batch : overrun 995 ≡ 0
unfolding overrun
overrun-batch = refl

read_log_example :
    (out : Buf) × (read_log true in_two zeros (some log) zeros 0 ≡ done (out, batch_log_size, 0))
    × (out 7 ≡ 0)
read_log_example =
    read_log_lem in_two zeros log zeros zeros 0 0 7 (omega arith) (omega arith) in_two-Serves
      log-Holds

-- epoch 1 is not in the file, and `read` returns 0
read_log-waiting_example : read_log true (some 0 ∷ some 0 ∷ []) zeros (some log) zeros 1 ≡ waiting
read_log-waiting_example =
    read_log-waiting (some 0 ∷ some 0 ∷ []) zeros log zeros 1 (omega arith) (omega arith)
      (omega arith, (omega arith, tt))

-- the epoch -1
append_log-exit_example : append_log true in_two zeros none zeros 16 0xffff_ffff ≡ exit
append_log-exit_example =
    append_log-exit true in_two zeros none zeros 16 0xffff_ffff (omega arith) (omega arith)
      (omega arith)

write_all-Written_example :
    (g : File) × (write_all in_two empty_file 1024 zeros 1024 0 ≡ done g)
    × Written empty_file g 1024 zeros 0 1024
write_all-Written_example =
    write_all-Written in_two empty_file 1024 zeros 1024 0 (omega arith) in_two-Serves

read_all-Fetched_example :
    (new : Buf) × (read_all in_two log 0 zeros 1024 0 ≡ done new) × Fetched log 0 zeros new 0 1024
read_all-Fetched_example = read_all-Fetched in_two log 0 zeros 1024 0 (omega arith) in_two-Serves
