-- ===== src/Sequence/Observe.antt =====
-- The external sequence of internal/policy/monotonic.go: OpenMonotonic, read, write, mac, Observe.
-- A failing disk is an argument: which reads and writes the environment lets through.
use arkade_runtime.Base.{ℕ, Bool, not, Option, none, some, ◌++◌}
use arkade_runtime.Base.Tests.{ltb, ◌==◌, if◌then◌else◌}
use arkade_runtime.Base.Lists.{length}
use arkade_runtime.Base.Result.{Result, Error, ok, err, ◌>>=◌, ◌>>◌, refuse}
use arkade_runtime.Base.Bytes.{Bytes, codes, bytes_eq, is_empty, be64}
use arkade_runtime.Sequence.Text.{payload, parse_monotonic}

-- How far `write` gets: a failure before the rename leaves the file, one after it does not.
pub data WriteOutcome : Type 0 where
  written unwritten undurable : WriteOutcome

pub record Disk : Type 0 where
  pub readable : Bool
  pub outcome : WriteOutcome

pub record Monotonic : Type 0 where
  pub path : Bytes
  pub key : Bytes

unfoldable pub open_monotonic : Bytes → Bytes → Result Monotonic
open_monotonic path key = do
  refuse (is_empty path) Error.identity_required
  refuse (not (length key == 32)) Error.key_required
  ok (record { path = path; key = key })

abbrev pub monotonic_mac_domain : Bytes
monotonic_mac_domain = codes "arkade-vault/policy-sequence/v2"

module _ (hmac : Bytes → Bytes → Bytes) where
  -- The HMAC over the domain and the big-endian count.
  unfoldable pub count_mac : Bytes → ℕ → Bytes
  count_mac key count = hmac key (monotonic_mac_domain ++ be64 count)

  abbrev pub authenticate : Bytes → ℕ × Bytes → Result (Option ℕ)
  authenticate key (count, mac) =
      if bytes_eq mac (count_mac key count) then ok (some count) else err Error.mac_mismatch

  -- The count in the file, `none` where there is no file.
  unfoldable pub read : Bytes → Disk → Option Bytes → Result (Option ℕ)
  read key disk none = ok none
  read key disk (some raw) = do
    refuse (not disk.readable) Error.io_failure
    parsed ← parse_monotonic raw
    authenticate key parsed

  unfoldable pub write : Bytes → WriteOutcome → Option Bytes → ℕ → Option Bytes × Result (Unit {0})
  write key written file count = (some (payload count (count_mac key count)), ok tt)
  write key unwritten file count = (file, err Error.io_failure)
  write key undurable file count =
      (some (payload count (count_mac key count)), err Error.io_failure)

  -- The part of Observe below the read.
  unfoldable pub advance :
      Bytes → WriteOutcome → Option Bytes → ℕ → Result (Option ℕ) → Option Bytes × Result (Unit {0})
  unfolding write
  advance key outcome file db_count (err e) = (file, err e)
  advance key outcome file db_count (ok none) =
      if db_count == 0 then write key outcome file 0 else (file, err Error.sequence_missing)
  advance key outcome file db_count (ok (some file_count)) =
      if ltb db_count file_count
      then (file, err Error.sequence_behind)
      else if db_count == file_count
      then (file, ok tt)
      else write key outcome file db_count

  -- `none` is a nil receiver.
  unfoldable pub observe :
      Option Monotonic → Disk → Option Bytes → ℕ → Option Bytes × Result (Unit {0})
  unfolding advance
  observe none disk file db_count = (file, ok tt)
  observe (some m) disk file db_count =
      advance m.key disk.outcome file db_count (read m.key disk file)
