-- ===== src/Cli/Metrics/Usage.antt =====
-- `read_process_snapshot` of src/cli/process_metrics.cpp, over what the kernel reports.
pub mod Status
use fin_core_streaming_syste.Prelude.{
  ℕ, ◌+◌, ◌-◌, ◌*◌, ◌^◌, ◌<◌, ◌≡◌, refl, ap, ◌∙◌, Bool, true, false, Option, none, some, List, [],
  ◌∷◌, ◌++◌, All, arith, if◌then◌else◌, ltb, ◌==◌, Text, codes, length, Result, ok, err, Exception,
  runtime_error, lit,
}
use fin_core_streaming_syste.Prelude.Int.{ℤ, pos, negsuc, ◌+ℤ◌, negate}
use fin_core_streaming_syste.Prelude.Io.{Io, ◌>>=◌, act, lift, pure}
use fin_core_streaming_syste.Api.Json.{strip_prefix}
use fin_core_streaming_syste.Cli.Metrics.{ProcessSnapshot}
use fin_core_streaming_syste.Cli.Parse.{is_space, read_digits}

-- `struct timeval`.
pub record Timeval : Type 0 where
  pub tv_sec : ℤ
  pub tv_usec : ℤ

abbrev pub million : ℤ → ℤ
million (pos n) = pos (n * 1_000_000)
million (negsuc n) = negate (pos ((n + 1) * 1_000_000))

unfoldable pub timeval_to_us : Timeval → ℤ
timeval_to_us value = million value.tv_sec +ℤ value.tv_usec

-- The fields of `struct rusage` that are read.
pub record Rusage : Type 0 where
  pub ru_utime : Timeval
  pub ru_stime : Timeval
  pub ru_maxrss : ℤ
  pub ru_minflt : ℤ
  pub ru_majflt : ℤ
  pub ru_nvcsw : ℤ
  pub ru_nivcsw : ℤ

-- What the standard library makes of the digits behind a sign: 0 where there are none, and the
-- nearest value of an `std::int64_t` where they are too many.
abbrev pub clamp_i64 : Bool → ℕ × ℕ → ℤ
clamp_i64 negative (v, used) =
    if used == 0
    then pos 0
    else if negative
    then negate (pos (if ltb (2 ^ 63) v then 2 ^ 63 else v))
    else pos (if ltb v (2 ^ 63) then v else 2 ^ 63 - 1)

abbrev pub signed : Text → ℤ
signed [] = pos 0
signed (c ∷ s) =
    if c == b'-'
    then clamp_i64 true (read_digits s 0 0)
    else if c == b'+'
    then clamp_i64 false (read_digits s 0 0)
    else clamp_i64 false (read_digits (c ∷ s) 0 0)

-- `std::istringstream{s} >> value`, with `value` 0 before.
unfoldable pub extract_i64 : Text → ℤ
extract_i64 [] = pos 0
extract_i64 (c ∷ s) = elim (is_space c) [ true ↦ extract_i64 s | false ↦ signed (c ∷ s) ]

-- The loop over the lines of the file.
unfoldable pub read_lines : Text → List Text → ℤ
read_lines field_name [] = pos 0
read_lines field_name (line ∷ lines) = elim (strip_prefix field_name line) [
  | none ↦ read_lines field_name lines
  | some rest ↦ extract_i64 rest
]

-- `none` is a file that cannot be opened.
unfoldable pub read_status_kb : Text → Option (List Text) → ℤ
read_status_kb field_name none = pos 0
read_status_kb field_name (some lines) = read_lines field_name lines

-- `getrusage`, where `none` is a failure, and `/proc/self/status`.
pub record Kernel : Type 1 where
  pub World : Type 0
  pub getrusage : World → Option Rusage × World
  pub status : World → Option (List Text) × World

abbrev pub usage_of : Option Rusage → Result Rusage
usage_of none = err (runtime_error (lit "getrusage(RUSAGE_SELF) failed"))
usage_of (some usage) = ok usage

unfoldable pub read_process_snapshot : (K : Kernel) → Io K.World ProcessSnapshot
read_process_snapshot K = do
  reported ← act K.getrusage
  usage ← lift (usage_of reported)
  lines ← act K.status
  pure (record {
    user_cpu_us = timeval_to_us usage.ru_utime;
    system_cpu_us = timeval_to_us usage.ru_stime;
    current_rss_kb = read_status_kb (codes "VmRSS:") lines;
    peak_rss_kb = usage.ru_maxrss;
    minor_faults = usage.ru_minflt;
    major_faults = usage.ru_majflt;
    voluntary_context_switches = usage.ru_nvcsw;
    involuntary_context_switches = usage.ru_nivcsw;
  })
