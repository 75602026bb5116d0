-- ===== src/Sequence/Text.antt =====
-- The file of internal/policy/monotonic.go: the payload that `write` builds and parseMonotonic. The
-- standard library's `%d`, `%x`, strings.Split, strings.HasPrefix and strconv.ParseUint are
-- written out over bytes.
use arkade_runtime.Base.{
  ℕ, zero, suc, ◌+◌, ◌-◌, ◌*◌, ◌/◌, ◌%◌, Bool, true, false, ◌&&◌, ◌||◌, not, Option, none, some,
  List, [], ◌∷◌, ◌++◌,
}
use arkade_runtime.Base.Tests.{ltb, leb, ◌==◌, if◌then◌else◌}
use arkade_runtime.Base.Lists.{length, drop}
use arkade_runtime.Base.Int64.{uint64_mod}
use arkade_runtime.Base.Result.{Result, Error, ok, err, ◌>>=◌}
use arkade_runtime.Base.Bytes.{Bytes, codes, bytes_eq}

abbrev pub monotonic_file_version : Bytes
monotonic_file_version = codes "arkade-vault-policy-sequence/v2"

-- `%d`: at most `fuel` digits, and a uint64 has no more than twenty.
unfoldable pub decimal : ℕ → ℕ → Bytes
decimal zero n = []
decimal (suc fuel) n =
    let rest = decimal fuel (n / 10) in
    if ltb n 10 then (48 + n) ∷ [] else rest ++ (48 + n % 10) ∷ []

unfoldable pub hex_digit : ℕ → ℕ
hex_digit d = if ltb d 10 then 48 + d else 87 + d

-- `%x`
unfoldable pub hex : Bytes → Bytes
hex [] = []
hex (b ∷ bs) = hex_digit (b / 16) ∷ hex_digit (b % 16) ∷ hex bs

unfoldable pub payload : ℕ → Bytes → Bytes
payload count mac =
    monotonic_file_version
    ++ (10
        ∷ (codes "count=" ++ (decimal 20 count ++ (10 ∷ (codes "mac=" ++ (hex mac ++ (10 ∷ [])))))))

abbrev pub push_front : ℕ → List Bytes → List Bytes
push_front c [] = (c ∷ []) ∷ []
push_front c (l ∷ ls) = (c ∷ l) ∷ ls

-- strings.Split(s, "\n")
unfoldable pub split_lines : Bytes → List Bytes
split_lines [] = [] ∷ []
split_lines (c ∷ cs) = let rest = split_lines cs in if c == 10 then [] ∷ rest else push_front c rest

unfoldable pub has_prefix : Bytes → Bytes → Bool
has_prefix [] s = true
has_prefix (c ∷ cs) [] = false
has_prefix (c ∷ cs) (d ∷ ds) = c == d && has_prefix cs ds

-- The digits of strconv.ParseUint(s, 10, 64).
unfoldable pub parse_digits : ℕ → Bytes → Option ℕ
parse_digits acc [] = some acc
parse_digits acc (c ∷ cs) =
    let rest = parse_digits (acc * 10 + (c - 48)) cs in if leb 48 c && leb c 57 then rest else none

abbrev pub below_uint64 : Option ℕ → Option ℕ
below_uint64 none = none
below_uint64 (some n) = if ltb n uint64_mod then some n else none

unfoldable pub parse_uint : Bytes → Option ℕ
parse_uint [] = none
parse_uint (c ∷ cs) = below_uint64 (parse_digits 0 (c ∷ cs))

-- `none` is -1.
unfoldable pub unhex : ℕ → Option ℕ
unhex c =
    if leb 48 c && leb c 57
    then some (c - 48)
    else if leb 97 c && leb c 102
    then some (c - 97 + 10)
    else none

-- The loop of parseHexMAC, two digits a round.
unfoldable pub unhex_pairs : Bytes → Result Bytes
unhex_pairs [] = ok []
unhex_pairs (c ∷ []) = err Error.sequence_corrupt
unhex_pairs (c ∷ d ∷ cs) =
    let rest = unhex_pairs cs in
    elim (unhex c) [
      | none ↦ err Error.sequence_corrupt
      | some a ↦ elim (unhex d) [
        | none ↦ err Error.sequence_corrupt
        | some b ↦ rest >>= λ bs. ok ((a * 16 + b) % 256 ∷ bs)
      ]
    ]

unfoldable pub parse_hex_mac : Bytes → Result Bytes
parse_hex_mac s = if length s == 64 then unhex_pairs s else err Error.sequence_corrupt

-- The count that a line sets.
unfoldable pub line_count : ℕ → Bytes → Result ℕ
line_count count line =
    if has_prefix (codes "count=") line
    then elim (parse_uint (drop 6 line)) [ none ↦ err Error.sequence_corrupt | some n ↦ ok n ]
    else ok count

-- The MAC that a line sets.
unfoldable pub line_mac : Bytes → Bytes → Result Bytes
line_mac mac line = if has_prefix (codes "mac=") line then parse_hex_mac (drop 4 line) else ok mac

-- `for _, line := range lines[1:]`
unfoldable pub read_lines : ℕ → Bytes → List Bytes → Result (ℕ × Bytes)
read_lines count mac [] = ok (count, mac)
read_lines count mac (l ∷ ls) = do
  count' ← line_count count l
  mac' ← line_mac mac l
  read_lines count' mac' ls

abbrev pub check_mac_size : ℕ × Bytes → Result (ℕ × Bytes)
check_mac_size (count, mac) =
    if length mac == 32 then ok (count, mac) else err Error.sequence_corrupt

abbrev pub parse_lines : List Bytes → Result (ℕ × Bytes)
parse_lines [] = err Error.sequence_corrupt
parse_lines (version ∷ lines) =
    if ltb (length lines) 2 || not (bytes_eq version monotonic_file_version)
    then err Error.sequence_corrupt
    else (read_lines 0 [] lines >>= check_mac_size)

unfoldable pub parse_monotonic : Bytes → Result (ℕ × Bytes)
unfolding split_lines
parse_monotonic raw = parse_lines (split_lines raw)
