-- ===== src/Prelude/Text.antt =====
-- Texts of the source as lists of the codes of their characters, and what `sprintf` writes.
use Prim.Native.Nat.{◌≤◌, ℕ, zero, suc, ◌+◌, ◌-◌, ◌*◌, ◌/◌, ◌%◌, ◌^◌, ◌<◌}
use Prim.Native.Char.{code}
use Prim.Native.String.{String}
use mathlib.Core.Path.{◌≡◌, refl, ap}
use mathlib.Core.List.{List, [], ◌∷◌, ◌++◌}
use native.Mathlib.Omega.{arith}
use native.Mathlib.Nat.{pow-suc}
use mathlib.Core.Bool.{true, false}
use mathlib.Core.Logic.{inl, inr}
use chats.Prelude.Tests.{ltb, Bool-cases}
use chats.Prelude.Lists.{length, replicate, length-append}
use chats.Prelude.Int.{ℤ, pos, negsuc}

-- A literal of the source; its characters are ASCII.
abbrev pub text : String → List ℕ
text String.[] = []
text (String.◌∷◌ c s) = code c ∷ text s

-- `%15s` and the like: blanks in front, up to the width.
abbrev pub pad : ℕ → List ℕ → List ℕ
pad width s = replicate (width - length s) 32 ++ s

digits : (rounds n : ℕ) → List ℕ
digits zero n = []
digits (suc rounds) n = elim (ltb n 10) [
  | true ↦ (48 + n) ∷ []
  | false ↦ digits rounds (n / 10) ++ (48 + n % 10) ∷ []
]

digits_small : (rounds n : ℕ) → ltb n 10 ≡ true → digits (suc rounds) n ≡ (48 + n) ∷ []
unfolding digits
digits_small rounds n h = rw (h, digits) refl

digits_large :
    (rounds n : ℕ)
    → ltb n 10 ≡ false
    → digits (suc rounds) n ≡ digits rounds (n / 10) ++ (48 + n % 10) ∷ []
unfolding digits
digits_large rounds n h = rw (h, digits) refl

-- `%lld`: a `long long` has 19 digits at most.
unfoldable pub decimal : ℤ → List ℕ
unfolding digits
decimal (pos n) = digits 19 n
decimal (negsuc n) = 45 ∷ digits 19 (suc n)

length-replicate : (n c : ℕ) → length (replicate n c) ≡ n
length-replicate zero c = refl
length-replicate (suc n) c = ap suc (length-replicate n c)

pub length-pad : (width : ℕ) (s : List ℕ) → length (pad width s) ≡ width - length s + length s
length-pad width s = omega (
  arith,
  length-append (replicate (width - length s) 32) s,
  length-replicate (width - length s) 32,
)

length-digits : (rounds n : ℕ) → length (digits rounds n) ≤ rounds
unfolding digits
length-digits zero n = omega arith
length-digits (suc rounds) n = elim (Bool-cases (ltb n 10)) [
  | inl small ↦ rw (digits_small rounds n small) (omega arith)
  | inr large ↦ rw (digits_large rounds n large) (
      omega (
        arith,
        length-append (digits rounds (n / 10)) ((48 + n % 10) ∷ []),
        length-digits rounds (n / 10),
      ))
]

pub length-decimal : (n : ℤ) → length (decimal n) ≤ 20
unfolding decimal
length-decimal (pos n) = omega (arith, length-digits 19 n)
length-decimal (negsuc n) = omega (arith, length-digits 19 (suc n))

-- The number that digits stand for.
value : (n : ℕ) → List ℕ → ℕ
value n [] = n
value n (d ∷ ds) = value (n * 10 + (d - 48)) ds

value-append : (n d : ℕ) (ds : List ℕ) → value n (ds ++ d ∷ []) ≡ value n ds * 10 + (d - 48)
unfolding value
value-append n d [] = refl
value-append n d (x ∷ ds) = value-append (n * 10 + (x - 48)) d ds

-- So 19 rounds are enough for a number below `10 ^ 19`.
value-digits : (rounds n : ℕ) → n < 10 ^ rounds → value 0 (digits rounds n) ≡ n
unfolding value digits
value-digits zero n h = omega arith
value-digits (suc rounds) n h = elim (Bool-cases (ltb n 10)) [
  | inl small ↦ rw (digits_small rounds n small) (omega arith)
  | inr large ↦ rw (digits_large rounds n large) (
      omega (
        arith,
        value-append 0 (48 + n % 10) (digits rounds (n / 10)),
        value-digits rounds (n / 10) (omega (arith, pow-suc 10 rounds)),
      ))
]
