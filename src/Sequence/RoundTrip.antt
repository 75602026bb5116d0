-- ===== src/Sequence/RoundTrip.antt =====
-- Reading the file of internal/policy/monotonic.go gives back what was written.
use mathlib.Core.List.{append_assoc}
use arkade_runtime.Base.{
  ℕ, zero, suc, ◌+◌, ◌-◌, ◌*◌, ◌/◌, ◌%◌, ◌<◌, ◌≤◌, ◌≡◌, refl, sym, ap, ◌∙◌, ◌≢◌, some, [], ◌∷◌,
  ◌++◌, arith, inl, inr,
}
use arkade_runtime.Base.Tests.{ltb, ltb→lt, lt→ltb, Bool-cases}
use arkade_runtime.Base.Lists.{length, All, All-append}
use arkade_runtime.Base.Int64.{uint64_mod}
use arkade_runtime.Base.Result.{ok}
use arkade_runtime.Base.Bytes.{Bytes, codes, bytes_eq}
use arkade_runtime.Sequence.Text.{
  decimal, hex_digit, hex, payload, split_lines, has_prefix, parse_digits, parse_uint, below_uint64,
  unhex, unhex_pairs, parse_hex_mac, line_count, line_mac, read_lines, parse_monotonic,
  monotonic_file_version,
}

-- 10 ^ fuel
abbrev pub decimal_bound : ℕ → ℕ
decimal_bound zero = 1
decimal_bound (suc k) = 10 * decimal_bound k

abbrev IsDigit : ℕ → Type 0
IsDigit c = (48 ≤ c) × (c ≤ 57)

decimal-IsDigit : (fuel n : ℕ) → All IsDigit (decimal fuel n)
unfolding decimal
decimal-IsDigit zero n = tt
decimal-IsDigit (suc fuel) n = elim (Bool-cases (ltb n 10)) [
  | inl e ↦ rw e ((ground arith, ground arith), tt)
  | inr e ↦ rw e (
      All-append IsDigit (decimal fuel (n / 10)) _ (decimal-IsDigit fuel (n / 10))
        ((omega arith, omega arith), tt))
]

parse_digits-append :
    (acc : ℕ) (xs ys : Bytes) (v : ℕ)
    → parse_digits acc xs ≡ some v
    → parse_digits acc (xs ++ ys) ≡ parse_digits v ys
unfolding parse_digits
parse_digits-append acc [] ys v h = (let e : acc ≡ v = cc in rw e)
parse_digits-append acc (x ∷ xs) ys v h =
    ground (arith, parse_digits-append (acc * 10 + (x - 48)) xs ys v)

parse_digits_one : (v d : ℕ) → d < 10 → parse_digits v ((48 + d) ∷ []) ≡ some (v * 10 + d)
unfolding parse_digits
parse_digits_one v d h = ground arith

-- With enough digits the number comes back.
parse_digits-decimal :
    (fuel n : ℕ) → n < decimal_bound (suc fuel) → parse_digits 0 (decimal (suc fuel) n) ≡ some n
unfolding decimal
parse_digits-decimal zero n h =
    rw (lt→ltb n 10 (omega arith)) (parse_digits_one 0 n (omega arith) ∙ ap some (omega arith))
parse_digits-decimal (suc fuel) n h = elim (Bool-cases (ltb n 10)) [
  | inl e ↦ rw e (parse_digits_one 0 n (ltb→lt n 10 e) ∙ ap some (omega arith))
  | inr e ↦ rw e (
      parse_digits-append 0 (decimal (suc fuel) (n / 10)) ((48 + n % 10) ∷ []) (n / 10)
        (parse_digits-decimal fuel (n / 10) (omega arith))
      ∙ parse_digits_one (n / 10) (n % 10) (omega arith)
      ∙ ap some (omega arith))
]

decimal_nonempty : (fuel n : ℕ) → (c : ℕ) × (cs : Bytes) × (decimal (suc fuel) n ≡ c ∷ cs)
unfolding decimal
decimal_nonempty zero n = elim (Bool-cases (ltb n 10)) [
  | inl s ↦ (48 + n, [], rw s)
  | inr s ↦ (48 + n % 10, [], rw s)
]
decimal_nonempty (suc fuel) n =
    let (c, cs, e) = decimal_nonempty fuel (n / 10) in
    elim (Bool-cases (ltb n 10)) [
      | inl s ↦ (48 + n, [], rw s)
      | inr s ↦ (c, cs ++ (48 + n % 10) ∷ [], rw (s, e))
    ]

parse_uint-decimal : (n : ℕ) → n < uint64_mod → parse_uint (decimal 20 n) ≡ some n
unfolding parse_uint
parse_uint-decimal n h =
    let (c, cs, e) = decimal_nonempty 19 n in
    let whole : parse_digits 0 (c ∷ cs) ≡ some n =
      ap (parse_digits 0) (sym e) ∙ parse_digits-decimal 19 n (omega arith) in
    rw (e, parse_uint) (rw (whole, below_uint64) (rw (lt→ltb n uint64_mod h)))

-- Hex digits.
abbrev IsHex : ℕ → Type 0
IsHex c = (48 ≤ c) × (c ≤ 102)

unhex-hex_digit : (d : ℕ) → d < 16 → unhex (hex_digit d) ≡ some d
unfolding unhex hex_digit
unhex-hex_digit d h = ground arith

hex_digit-IsHex : (d : ℕ) → d < 16 → IsHex (hex_digit d)
unfolding hex_digit
hex_digit-IsHex d h = ground arith

abbrev pub IsByte : ℕ → Type 0
IsByte b = b < 256

unhex_pairs-hex : (bs : Bytes) → All IsByte bs → unhex_pairs (hex bs) ≡ ok bs
unfolding unhex_pairs hex
unhex_pairs-hex [] h = refl
unhex_pairs-hex (b ∷ bs) h = ground (
  arith,
  unhex-hex_digit (b / 16) (omega arith),
  unhex-hex_digit (b % 16) (omega arith),
  unhex_pairs-hex bs h.1,
)

hex-IsHex : (bs : Bytes) → All IsByte bs → All IsHex (hex bs)
unfolding hex
hex-IsHex [] h = tt
hex-IsHex (b ∷ bs) h = (
  hex_digit-IsHex (b / 16) (omega arith),
  (hex_digit-IsHex (b % 16) (omega arith), hex-IsHex bs h.1),
)

length-hex : (bs : Bytes) → length (hex bs) ≡ 2 * length bs
unfolding hex
length-hex [] = refl
length-hex (b ∷ bs) = omega (arith, length-hex bs)

-- A text without a newline is one line.
abbrev NoNewline : Bytes → Type 0
NoNewline = All (λ c. c ≢ 10)

split_lines-append :
    (l rest : Bytes) → NoNewline l → split_lines (l ++ (10 ∷ rest)) ≡ l ∷ split_lines rest
unfolding split_lines
split_lines-append [] rest h = refl
split_lines-append (c ∷ cs) rest h = ground (arith, split_lines-append cs rest h.1, h.0)

NoNewline-of_digits : (s : Bytes) → All IsDigit s → NoNewline s
NoNewline-of_digits [] h = tt
NoNewline-of_digits (c ∷ cs) h = (omega arith, NoNewline-of_digits cs h.1)

NoNewline-of_hex : (s : Bytes) → All IsHex s → NoNewline s
NoNewline-of_hex [] h = tt
NoNewline-of_hex (c ∷ cs) h = (omega arith, NoNewline-of_hex cs h.1)

abbrev count_line : ℕ → Bytes
count_line n = codes "count=" ++ decimal 20 n

abbrev mac_line : Bytes → Bytes
mac_line mac = codes "mac=" ++ hex mac

split_lines-payload :
    (n : ℕ) (mac : Bytes)
    → All IsByte mac
    → split_lines (payload n mac) ≡ monotonic_file_version ∷ count_line n ∷ mac_line mac ∷ [] ∷ []
unfolding payload split_lines
split_lines-payload n mac h =
    let digits = NoNewline-of_digits (decimal 20 n) (decimal-IsDigit 20 n) in
    let hexes = NoNewline-of_hex (hex mac) (hex-IsHex mac h) in
    let counts : NoNewline (count_line n) =
      All-append (λ c. c ≢ 10) (codes "count=") (decimal 20 n) (omega arith) digits in
    let macs : NoNewline (mac_line mac) =
      All-append (λ c. c ≢ 10) (codes "mac=") (hex mac) (omega arith) hexes in
    split_lines-append monotonic_file_version
      (codes "count=" ++ (decimal 20 n ++ (10 ∷ (codes "mac=" ++ (hex mac ++ (10 ∷ []))))))
      (omega arith)
    ∙ ap (λ ls. monotonic_file_version ∷ ls)
        (ap split_lines (sym (append_assoc (codes "count=") (decimal 20 n) _))
          ∙ split_lines-append (count_line n) (codes "mac=" ++ (hex mac ++ (10 ∷ []))) counts
          ∙ ap (λ ls. count_line n ∷ ls)
              (ap split_lines (sym (append_assoc (codes "mac=") (hex mac) (10 ∷ [])))
                ∙ split_lines-append (mac_line mac) [] macs
                ∙ refl))

-- Parsing the payload that is written for a 64-bit count and a MAC of 32 bytes returns the two.
pub parse_monotonic-payload :
    (n : ℕ) (mac : Bytes)
    → n < uint64_mod
    → length mac ≡ 32
    → All IsByte mac
    → parse_monotonic (payload n mac) ≡ ok (n, mac)
unfolding parse_monotonic read_lines line_count line_mac has_prefix parse_hex_mac bytes_eq
parse_monotonic-payload n mac small size bytes =
    let long : length (hex mac) ≡ 64 = omega (arith, length-hex mac) in
    rw (split_lines-payload n mac bytes) (
      rw (parse_uint-decimal n small)
        (rw (long, parse_hex_mac) (rw (unhex_pairs-hex mac bytes) (rw size))))
