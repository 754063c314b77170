-- ===== src/HashFunctions/Tests.antt =====
-- common/hash-functions.c: the table and the hashes on concrete data.
use chats.Prelude.{◌+◌, ◌*◌, ◌^◌, ◌≡◌, refl, none, some, [], ◌∷◌, length}
use chats.Prelude.Int.{pos}
use chats.HashFunctions.{
  pearson_permutation_table, permute_loop, shift_int, hash_loop, pearson_hash,
}

table_lem : length pearson_permutation_table ≡ 256
table_lem = refl

-- No byte of the data is there to be read.
nothing_to_read : pearson_hash (λ h count. 0) [] 0 ≡ none
unfolding pearson_hash hash_loop
nothing_to_read = refl

-- Where a shift out of range gives 0, the low four bytes of the hash of one byte are there.
of_one_byte : pearson_hash (λ h count. 0) (0 ∷ []) 1 ≡ some (pos (98 + 6 * 2 ^ 8 + 85 * 2 ^ 16))
unfolding pearson_hash hash_loop permute_loop shift_int
of_one_byte = refl
