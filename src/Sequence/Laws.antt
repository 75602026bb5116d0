-- ===== src/Sequence/Laws.antt =====
-- What Observe of internal/policy/monotonic.go guarantees of the file it keeps.
use arkade_runtime.Base.{
  ℕ, ◌<◌, ◌≤◌, ◌≡◌, ◌≢◌, refl, true, false, Option, none, some, arith, ◌⊎◌, inl, inr,
}
use arkade_runtime.Base.Tests.{ltb, ◌==◌, ==_iff, lt→ltb, Bool-cases}
use arkade_runtime.Base.Lists.{length, All}
use arkade_runtime.Base.Int64.{uint64_mod}
use arkade_runtime.Base.Result.{Result, Error, ok, err}
use arkade_runtime.Base.Bytes.{Bytes, bytes_eq_refl}
use arkade_runtime.Sequence.Text.{payload}
use arkade_runtime.Sequence.RoundTrip.{parse_monotonic-payload, IsByte}
use arkade_runtime.Sequence.Observe.{
  Disk, WriteOutcome, written, unwritten, undurable, Monotonic, count_mac, read, write, advance,
  observe,
}

-- HMAC-SHA-256 returns 32 bytes.
pub record IsTag (hmac : Bytes → Bytes → Bytes) : Type 0 where
  pub size : (k m : Bytes) → length (hmac k m) ≡ 32
  pub bytes : (k m : Bytes) → All IsByte (hmac k m)

-- The file holds the count `n`, under the key, for whoever can read it.
abbrev pub Holds : (hmac : Bytes → Bytes → Bytes) → Bytes → Option Bytes → ℕ → Type 0
Holds hmac key file n =
    read hmac key (record { readable = true; outcome = written }) file ≡ ok (some n)

module _ (hmac : Bytes → Bytes → Bytes) (tag : IsTag hmac) where
  pub read-payload :
      (key : Bytes) (disk : Disk) (n : ℕ)
      → disk.readable ≡ true
      → n < uint64_mod
      → read hmac key disk (some (payload n (count_mac hmac key n))) ≡ ok (some n)
  unfolding read count_mac
  read-payload key disk n r h = rw r (
      rw (parse_monotonic-payload n (count_mac hmac key n) h (tag.size key _) (tag.bytes key _))
        (rw (bytes_eq_refl (count_mac hmac key n))))

  -- A count that one disk lets through is there for every disk that can be read.
  read-Holds :
      (key : Bytes) (disk : Disk) (file : Option Bytes) (n : ℕ)
      → read hmac key disk file ≡ ok (some n)
      → Holds hmac key file n
  unfolding read
  read-Holds key disk none n h = cc
  read-Holds key disk (some raw) n h = elim (Bool-cases disk.readable) [
    | inl e ↦ rw e at h
    | inr e ↦ absurd (ground arith)
  ]

  -- What the file holds after a write, by how far the write got.
  write_cases :
      (key : Bytes) (outcome : WriteOutcome) (file : Option Bytes) (n : ℕ)
      → n < uint64_mod
      → ((write hmac key outcome file n).0 ≡ file)
          × ((write hmac key outcome file n).1 ≡ err Error.io_failure)
        ⊎ Holds hmac key (write hmac key outcome file n).0 n
  unfolding write
  write_cases key written file n h = inr (read-payload key _ n refl h)
  write_cases key unwritten file n h = inl (refl, refl)
  write_cases key undurable file n h = inr (read-payload key _ n refl h)

  -- Every outcome of `advance`: the file is as it was, or it holds the count of the database, which
  -- is no less than the count that was read.
  advance_cases :
      (key : Bytes) (outcome : WriteOutcome) (file : Option Bytes) (n : ℕ) (r : Result (Option ℕ))
      → n < uint64_mod
      → ((k : ℕ) → r ≡ ok (some k) → Holds hmac key file k)
      → ((advance hmac key outcome file n r).0 ≡ file)
          × ((advance hmac key outcome file n r).1 ≢ ok tt)
        ⊎ Holds hmac key (advance hmac key outcome file n r).0 n
          × ((k : ℕ) → r ≡ ok (some k) → k ≤ n)
  unfolding advance
  advance_cases key outcome file n (err e) small held = inl (refl, λ e. cc)
  advance_cases key outcome file n (ok none) small held = elim (Bool-cases (n == 0)) [
    | inl z ↦
        rw (z, (==_iff n 0).0 z)
          (elim (write_cases key outcome file 0 (omega arith)) [
            | inl (same, failed) ↦ inl (same, λ e. cc)
            | inr holds ↦ inr (holds, λ k e. cc)
          ])
    | inr z ↦ rw z (inl (refl, λ e. cc))
  ]
  advance_cases key outcome file n (ok (some c)) small held = elim (Bool-cases (ltb n c)) [
    | inl behind ↦ rw behind (inl (refl, λ e. cc))
    | inr ahead ↦ rw ahead (elim (Bool-cases (n == c)) [
      | inl same ↦ rw same (inr (rw ((==_iff n c).0 same) (held c refl), λ k e. ground arith))
      | inr more ↦ rw more (elim (write_cases key outcome file n small) [
        | inl (same, failed) ↦ inl (same, λ e. cc)
        | inr holds ↦ inr (holds, λ k e. ground arith)
      ])
    ])
  ]

  -- Observe of a 64-bit count that returns no error leaves, with a hash of 32 bytes, a file
  -- that holds exactly that count.
  pub observe_accepts :
      (m : Monotonic) (disk : Disk) (file : Option Bytes) (db_count : ℕ)
      → db_count < uint64_mod
      → (observe hmac (some m) disk file db_count).1 ≡ ok tt
      → Holds hmac m.key (observe hmac (some m) disk file db_count).0 db_count
  unfolding observe
  observe_accepts m disk file db_count small h =
      elim (advance_cases m.key disk.outcome file db_count (read hmac m.key disk file) small
        (read-Holds m.key disk file)) [
          | inl (_, refused) ↦ absurd (refused h)
          | inr (holds, _) ↦ holds
        ]

  readable_read :
      (key : Bytes) (disk : Disk) (file : Option Bytes) (n : ℕ)
      → disk.readable ≡ true
      → Holds hmac key file n
      → read hmac key disk file ≡ ok (some n)
  unfolding read
  readable_read key disk none n r h = cc
  readable_read key disk (some raw) n r h = rw r h

  unreadable_read :
      (key : Bytes) (disk : Disk) (file : Option Bytes) (n : ℕ)
      → disk.readable ≡ false
      → Holds hmac key file n
      → read hmac key disk file ≡ err Error.io_failure
  unfolding read
  unreadable_read key disk none n r h = cc
  unreadable_read key disk (some raw) n r h = rw r

  -- Whatever the disk does, Observe of a 64-bit count, with a hash of 32 bytes, leaves in the
  -- file a count that is no lower than the one the file held.
  pub observe_never_falls :
      (m : Monotonic) (disk : Disk) (file : Option Bytes) (db_count k : ℕ)
      → db_count < uint64_mod
      → Holds hmac m.key file k
      → (j : ℕ) × Holds hmac m.key (observe hmac (some m) disk file db_count).0 j × (k ≤ j)
  unfolding observe advance
  observe_never_falls m disk file db_count k small h = elim (Bool-cases disk.readable) [
    | inl r ↦
        let same = readable_read m.key disk file k r h in
        elim (advance_cases m.key disk.outcome file db_count (read hmac m.key disk file) small
          (read-Holds m.key disk file)) [
            | inl (kept, _) ↦ (k, rw kept h, omega arith)
            | inr (holds, low) ↦ (db_count, holds, low k same)
          ]
    | inr r ↦ (k, rw (unreadable_read m.key disk file k r h) h, omega arith)
  ]

  -- A database whose count is below the one in a file that can be read is refused, with a hash
  -- of 32 bytes, and the file is left alone.
  pub observe_refuses_rollback :
      (m : Monotonic) (disk : Disk) (file : Option Bytes) (db_count k : ℕ)
      → disk.readable ≡ true
      → Holds hmac m.key file k
      → db_count < k
      → observe hmac (some m) disk file db_count ≡ (file, err Error.sequence_behind)
  unfolding observe advance
  observe_refuses_rollback m disk file db_count k r h behind =
      rw (readable_read m.key disk file k r h) (rw (lt→ltb db_count k behind))
