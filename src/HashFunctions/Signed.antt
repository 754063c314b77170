-- ===== src/HashFunctions/Signed.antt =====
-- common/hash-functions.c: the conversions between `unsigned long long` and `long long`.
use chats.Prelude.{ℕ, ◌-◌, ◌^◌, ◌<◌, ◌≡◌, refl, ltb, if◌then◌else◌, arith, inl, inr, Bool-cases}
use chats.Prelude.Int.{ℤ, pos, negsuc}

abbrev pub as_signed : ℕ → ℤ
as_signed n = if ltb n (2 ^ 63) then pos n else negsuc (2 ^ 64 - 1 - n)

abbrev pub as_unsigned : ℤ → ℕ
as_unsigned (pos n) = n
as_unsigned (negsuc n) = 2 ^ 64 - 1 - n

-- No bit is lost on the way to a hash and back.
pub as_unsigned-as_signed : (n : ℕ) → n < 2 ^ 64 → as_unsigned (as_signed n) ≡ n
as_unsigned-as_signed n h = elim (Bool-cases (ltb n (2 ^ 63))) [
  | inl small ↦ rw small refl
  | inr large ↦ rw large (omega arith)
]
