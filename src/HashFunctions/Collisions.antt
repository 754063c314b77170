-- ===== src/HashFunctions/Collisions.antt =====
-- common/hash-functions.c: where the hashes come to their ends, and what an update does not read.
use chats.Prelude.{
  ℕ, zero, suc, ◌+◌, ◌-◌, ◌*◌, ◌/◌, ◌%◌, ◌^◌, ◌≤◌, ◌≡◌, refl, ◌∙◌, bit_and, bit_or, bit_xor, some,
  List, [], ◌∷◌, arith, length, ◌>>=◌,
}
use chats.Prelude.Int.{ℤ}
use chats.HashFunctions.Signed.{as_signed, as_unsigned}
use chats.HashFunctions.{
  permuted, permute_loop, shift_int, hash_loop, pearson_hash, update_loop, pearson_hash_update,
}

permute_loop_ends :
    (count : ℕ) (x : List ℕ) (h : ℕ)
    → count ≤ length x
    → (h' : ℕ) × (permute_loop count x h ≡ some h')
unfolding permute_loop
permute_loop_ends zero x h enough = (h, refl)
permute_loop_ends (suc count) [] h enough = absurd (omega arith)
permute_loop_ends (suc count) (c ∷ x) h enough =
    permute_loop_ends count x (permuted (bit_xor h c)) (omega arith)

hash_loop_ends :
    (shifted : ℕ → ℕ → ℕ) (rounds j c : ℕ) (x : List ℕ) (len hh : ℕ)
    → len ≤ suc (length x)
    → (hh' : ℕ) × (hash_loop shifted rounds j (c ∷ x) len hh ≡ some hh')
unfolding hash_loop
hash_loop_ends shifted zero j c x len hh enough = (hh, refl)
hash_loop_ends shifted (suc rounds) j c x len hh enough =
    let (h, permutes) =
      permute_loop_ends (len - 1) x (permuted (bit_and (c + j) 255)) (omega arith) in
    let (hh', rest) =
      hash_loop_ends shifted rounds (j + 1) c x len (bit_or hh (shift_int shifted h (j * 8)))
        enough in
    (hh', simp permutes rest)

-- Of at least a byte of data, all of which may be read, there is a hash.
pub pearson_hash_ends :
    (shifted : ℕ → ℕ → ℕ) (c : ℕ) (x : List ℕ) (len : ℕ)
    → len ≤ suc (length x)
    → (hash : ℤ) × (pearson_hash shifted (c ∷ x) len ≡ some hash)
unfolding pearson_hash
pearson_hash_ends shifted c x len enough =
    let (hh, ends) = hash_loop_ends shifted 8 0 c x len 0 enough in (as_signed hh, simp ends refl)

update_loop_ends :
    (rounds j mask c : ℕ) (x : List ℕ) (len hh : ℕ)
    → len ≤ suc (length x)
    → (hh' : ℕ) × (update_loop rounds j mask (c ∷ x) len hh ≡ some hh')
unfolding update_loop
update_loop_ends zero j mask c x len hh enough = (hh, refl)
update_loop_ends (suc rounds) j mask c x len hh enough =
    let (h, permutes) =
      permute_loop_ends (len - 1) x (bit_and hh mask / 2 ^ (j * 8) % 256) (omega arith) in
    let (hh', rest) =
      update_loop_ends rounds (j + 1) (mask * 2 ^ ((j + 1) * 8) % 2 ^ 64) c x len
        (bit_or (bit_and hh (2 ^ 64 - 1 - mask)) h) enough in
    (hh', simp permutes rest)

update_loop-first :
    (rounds j mask c d : ℕ) (x : List ℕ) (len hh : ℕ)
    → update_loop rounds j mask (c ∷ x) len hh ≡ update_loop rounds j mask (d ∷ x) len hh
unfolding update_loop
update_loop-first zero j mask c d x len hh = refl
update_loop-first (suc rounds) j mask c d x len hh = λ i.
    permute_loop (len - 1) x (bit_and hh mask / 2 ^ (j * 8) % 256) >>= λ h.
    update_loop-first rounds (j + 1) (mask * 2 ^ ((j + 1) * 8) % 2 ^ 64) c d x len
      (bit_or (bit_and hh (2 ^ 64 - 1 - mask)) h) i

-- An update comes to its end, with a hash that does not depend on the first byte.
pub pearson_hash_update_first :
    (hash : ℤ) (c d : ℕ) (x : List ℕ) (len : ℕ)
    → len ≤ suc (length x)
    → (hash' : ℤ) × (pearson_hash_update hash (c ∷ x) len ≡ some hash')
      × (pearson_hash_update hash (d ∷ x) len ≡ some hash')
unfolding pearson_hash_update
pearson_hash_update_first hash c d x len enough =
    let (hh, ends) = update_loop_ends 8 0 255 c x len (as_unsigned hash) enough in
    let ends' = update_loop-first 8 0 255 d c x len (as_unsigned hash) ∙ ends in
    (as_signed hh, simp ends refl, simp ends' refl)
