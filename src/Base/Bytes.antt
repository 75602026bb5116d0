-- ===== src/Base/Bytes.antt =====
-- Byte strings: Go's `[]byte` and `string`, with equality, order and the fixed-width encodings.
use Prim.Native.Char.{code}
use Prim.Native.String.{String}
use Prim.Native.Nat.{ℕ, ◌/◌, ◌%◌, ◌<◌}
use mathlib.Core.Path.{◌≡◌, refl}
use mathlib.Core.Logic.{◌↔◌}
use mathlib.Core.Bool.{Bool, true, false, ◌&&◌}
use mathlib.Core.List.{List, [], ◌∷◌, ◌++◌}
use native.Mathlib.Omega.{arith}
use arkade_runtime.Base.Tests.{ltb, ◌==◌, if◌then◌else◌}
use arkade_runtime.Base.Int64.{uint32_mod, uint64_mod}
use arkade_runtime.Base.Lists.{length}

abbrev pub Bytes : Type 0
Bytes = List ℕ

-- The bytes of an ASCII literal.
abbrev pub codes : String → Bytes
codes String.[] = []
codes (String.◌∷◌ c s) = code c ∷ codes s

-- bytes.Equal, hmac.Equal and `==` on strings.
unfoldable pub bytes_eq : Bytes → Bytes → Bool
bytes_eq [] [] = true
bytes_eq [] (y ∷ ys) = false
bytes_eq (x ∷ xs) [] = false
bytes_eq (x ∷ xs) (y ∷ ys) = (x == y) && bytes_eq xs ys

-- `a < b` on strings: bytewise, a proper prefix first.
unfoldable pub bytes_lt : Bytes → Bytes → Bool
bytes_lt [] [] = false
bytes_lt [] (y ∷ ys) = true
bytes_lt (x ∷ xs) [] = false
bytes_lt (x ∷ xs) (y ∷ ys) = if x == y then bytes_lt xs ys else ltb x y

abbrev pub is_empty : Bytes → Bool
is_empty [] = true
is_empty (x ∷ xs) = false

pub bytes_eq_sound : (a b : Bytes) → bytes_eq a b ≡ true → a ≡ b
unfolding bytes_eq
bytes_eq_sound [] [] h = refl
bytes_eq_sound [] (y ∷ ys) h = cc
bytes_eq_sound (x ∷ xs) [] h = cc
bytes_eq_sound (x ∷ xs) (y ∷ ys) h = ground (arith, bytes_eq_sound xs ys)

pub bytes_eq_refl : (a : Bytes) → bytes_eq a a ≡ true
unfolding bytes_eq
bytes_eq_refl [] = refl
bytes_eq_refl (x ∷ xs) = ground (arith, bytes_eq_refl xs)

pub bytes_eq_iff : (a b : Bytes) → (bytes_eq a b ≡ true) ↔ (a ≡ b)
bytes_eq_iff a b = (bytes_eq_sound a b, λ e. rw e (bytes_eq_refl b))

-- binary.LittleEndian.AppendUint16, AppendUint32 and AppendUint64, less the buffer.
abbrev pub le16 : ℕ → Bytes
le16 n = n % 256 ∷ n / 256 % 256 ∷ []

abbrev pub le32 : ℕ → Bytes
le32 n = n % 256 ∷ n / 256 % 256 ∷ n / 65536 % 256 ∷ n / 16777216 % 256 ∷ []

abbrev pub le64 : ℕ → Bytes
le64 n = le32 (n % uint32_mod) ++ le32 (n / uint32_mod)

-- binary.BigEndian.PutUint32 and PutUint64.
abbrev pub be32 : ℕ → Bytes
be32 n = n / 16777216 % 256 ∷ n / 65536 % 256 ∷ n / 256 % 256 ∷ n % 256 ∷ []

abbrev pub be64 : ℕ → Bytes
be64 n = be32 (n / uint32_mod) ++ be32 (n % uint32_mod)

-- A number below 2^32 is its four bytes.
base256_eq :
    (m n : ℕ)
    → m < uint32_mod
    → n < uint32_mod
    → m % 256 ≡ n % 256
    → m / 256 % 256 ≡ n / 256 % 256
    → m / 65536 % 256 ≡ n / 65536 % 256
    → m / 16777216 % 256 ≡ n / 16777216 % 256
    → m ≡ n
base256_eq m n hm hn a b c d = omega arith

pub ∷-injective {ℓ} :
    {A : Type ℓ} {x y : A} {xs ys : List A} → (x ∷ xs) ≡ (y ∷ ys) → (x ≡ y) × (xs ≡ ys)
∷-injective h = (cc, cc)

pub le32-injective :
    (m n : ℕ) (xs ys : Bytes)
    → m < uint32_mod
    → n < uint32_mod
    → (le32 m ++ xs) ≡ (le32 n ++ ys)
    → (m ≡ n) × (xs ≡ ys)
le32-injective m n xs ys hm hn h =
    let (a, h1) = ∷-injective h in
    let (b, h2) = ∷-injective h1 in
    let (c, h3) = ∷-injective h2 in
    let (d, h4) = ∷-injective h3 in (base256_eq m n hm hn a b c d, h4)

pub le64-injective :
    (m n : ℕ) (xs ys : Bytes)
    → m < uint64_mod
    → n < uint64_mod
    → (le64 m ++ xs) ≡ (le64 n ++ ys)
    → (m ≡ n) × (xs ≡ ys)
le64-injective m n xs ys hm hn h =
    let (lo, rest) =
      le32-injective (m % uint32_mod) (n % uint32_mod) (le32 (m / uint32_mod) ++ xs)
        (le32 (n / uint32_mod) ++ ys) (omega arith) (omega arith) h in
    let (hi, tail) =
      le32-injective (m / uint32_mod) (n / uint32_mod) xs ys (omega arith) (omega arith) rest in
    (omega arith, tail)

-- Two texts of one length in front of two rests come apart.
pub append-injective {ℓ} :
    {A : Type ℓ} (a b xs ys : List A)
    → length a ≡ length b
    → (a ++ xs) ≡ (b ++ ys)
    → (a ≡ b) × (xs ≡ ys)
append-injective [] [] xs ys l h = (refl, h)
append-injective [] (y ∷ b) xs ys l h = absurd (omega arith)
append-injective (x ∷ a) [] xs ys l h = absurd (omega arith)
append-injective (x ∷ a) (y ∷ b) xs ys l h =
    let (e, rest) = ∷-injective h in
    let (f, tail) = append-injective a b xs ys (omega arith) rest in (cc, tail)
