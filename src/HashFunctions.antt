-- ===== src/HashFunctions.antt =====
-- common/hash-functions.c: the Pearson hash, eight bytes wide. Data is the list of the bytes that may be
-- read; reading behind it is `none`.
pub mod Signed
pub mod Collisions
mod Tests
use chats.Prelude.{
  ℕ, zero, suc, ◌+◌, ◌-◌, ◌*◌, ◌/◌, ◌%◌, ◌^◌, bit_and, bit_or, bit_xor, ◌||◌, Option, none, some,
  List, [], ◌∷◌, leb, if◌then◌else◌, ◌>>=◌, drop, get_elem?, get_or,
}
use chats.Prelude.Int.{ℤ}
use chats.HashFunctions.Signed.{as_signed, as_unsigned}

abbrev pub pearson_permutation_table : List ℕ
pearson_permutation_table =
    98 ∷ 6 ∷ 85 ∷ 150 ∷ 36 ∷ 23 ∷ 112 ∷ 164 ∷ 135 ∷ 207 ∷ 169 ∷ 5 ∷ 26 ∷ 64 ∷ 165 ∷ 219 ∷ 61 ∷ 20
    ∷ 68 ∷ 89 ∷ 130 ∷ 63 ∷ 52 ∷ 102 ∷ 24 ∷ 229 ∷ 132 ∷ 245 ∷ 80 ∷ 216 ∷ 195 ∷ 115 ∷ 90 ∷ 168 ∷ 156
    ∷ 203 ∷ 177 ∷ 120 ∷ 2 ∷ 190 ∷ 188 ∷ 7 ∷ 100 ∷ 185 ∷ 174 ∷ 243 ∷ 162 ∷ 10 ∷ 237 ∷ 18 ∷ 253 ∷ 225
    ∷ 8 ∷ 208 ∷ 172 ∷ 244 ∷ 255 ∷ 126 ∷ 101 ∷ 79 ∷ 145 ∷ 235 ∷ 228 ∷ 121 ∷ 123 ∷ 251 ∷ 67 ∷ 250
    ∷ 161 ∷ 0 ∷ 107 ∷ 97 ∷ 241 ∷ 111 ∷ 181 ∷ 82 ∷ 249 ∷ 33 ∷ 69 ∷ 55 ∷ 59 ∷ 153 ∷ 29 ∷ 9 ∷ 213 ∷ 167
    ∷ 84 ∷ 93 ∷ 30 ∷ 46 ∷ 94 ∷ 75 ∷ 151 ∷ 114 ∷ 73 ∷ 222 ∷ 197 ∷ 96 ∷ 210 ∷ 45 ∷ 16 ∷ 227 ∷ 248
    ∷ 202 ∷ 51 ∷ 152 ∷ 252 ∷ 125 ∷ 81 ∷ 206 ∷ 215 ∷ 186 ∷ 39 ∷ 158 ∷ 178 ∷ 187 ∷ 131 ∷ 136 ∷ 1 ∷ 49
    ∷ 50 ∷ 17 ∷ 141 ∷ 91 ∷ 47 ∷ 129 ∷ 60 ∷ 99 ∷ 154 ∷ 35 ∷ 86 ∷ 171 ∷ 105 ∷ 34 ∷ 38 ∷ 200 ∷ 147 ∷ 58
    ∷ 77 ∷ 118 ∷ 173 ∷ 246 ∷ 76 ∷ 254 ∷ 133 ∷ 232 ∷ 196 ∷ 144 ∷ 198 ∷ 124 ∷ 53 ∷ 4 ∷ 108 ∷ 74 ∷ 223
    ∷ 234 ∷ 134 ∷ 230 ∷ 157 ∷ 139 ∷ 189 ∷ 205 ∷ 199 ∷ 128 ∷ 176 ∷ 19 ∷ 211 ∷ 236 ∷ 127 ∷ 192 ∷ 231
    ∷ 70 ∷ 233 ∷ 88 ∷ 146 ∷ 44 ∷ 183 ∷ 201 ∷ 22 ∷ 83 ∷ 13 ∷ 214 ∷ 116 ∷ 109 ∷ 159 ∷ 32 ∷ 95 ∷ 226
    ∷ 140 ∷ 220 ∷ 57 ∷ 12 ∷ 221 ∷ 31 ∷ 209 ∷ 182 ∷ 143 ∷ 92 ∷ 149 ∷ 184 ∷ 148 ∷ 62 ∷ 113 ∷ 65 ∷ 37
    ∷ 27 ∷ 106 ∷ 166 ∷ 3 ∷ 14 ∷ 204 ∷ 72 ∷ 21 ∷ 41 ∷ 56 ∷ 66 ∷ 28 ∷ 193 ∷ 40 ∷ 217 ∷ 25 ∷ 54 ∷ 179
    ∷ 117 ∷ 238 ∷ 87 ∷ 240 ∷ 155 ∷ 180 ∷ 170 ∷ 242 ∷ 212 ∷ 191 ∷ 163 ∷ 78 ∷ 218 ∷ 137 ∷ 194 ∷ 175
    ∷ 110 ∷ 43 ∷ 119 ∷ 224 ∷ 71 ∷ 122 ∷ 142 ∷ 42 ∷ 160 ∷ 104 ∷ 48 ∷ 247 ∷ 103 ∷ 15 ∷ 11 ∷ 138 ∷ 239
    ∷ []

-- The lookup in the table, at an index below 256.
abbrev pub permuted : ℕ → ℕ
permuted i = get_or pearson_permutation_table i 0

-- `for (i = 1; i < len; ++i) h = PEARSON_PERMUTATION_TABLE[h ^ x[i]]`, from the second byte on.
unfoldable pub permute_loop : (count : ℕ) → (x : List ℕ) → (h : ℕ) → Option ℕ
permute_loop zero x h = some h
permute_loop (suc count) [] h = none
permute_loop (suc count) (c ∷ x) h = permute_loop count x (permuted (bit_xor h c))

-- `h << count` at the type `int`, converted to 64 bits. C does not say what a shift by 32 or more or one
-- with a result behind the range gives: that is `shifted`.
unfoldable pub shift_int : (shifted : ℕ → ℕ → ℕ) → (h count : ℕ) → ℕ
shift_int shifted h count =
    if leb 32 count || leb (2 ^ 31) (h * 2 ^ count) then shifted h count else h * 2 ^ count

-- The rounds of the outer loop, `j` counting up in `rounds` of them.
unfoldable pub hash_loop :
    (shifted : ℕ → ℕ → ℕ) → (rounds j : ℕ) → (data_ : List ℕ) → (len hh : ℕ) → Option ℕ
hash_loop shifted zero j data_ len hh = some hh
hash_loop shifted (suc rounds) j data_ len hh = get_elem? data_ 0 >>= λ x0.
    permute_loop (len - 1) (drop 1 data_) (permuted (bit_and (x0 + j) 255)) >>= λ h.
    hash_loop shifted rounds (j + 1) data_ len (bit_or hh (shift_int shifted h (j * 8)))

unfoldable pub pearson_hash : (shifted : ℕ → ℕ → ℕ) → (data_ : List ℕ) → (len : ℕ) → Option ℤ
pearson_hash shifted data_ len = do hh ← hash_loop shifted 8 0 data_ len 0; some (as_signed hh)

-- `mask` is shifted behind the increment of `j`; the shift behind the last round is of no use.
unfoldable pub update_loop : (rounds j mask : ℕ) → (data_ : List ℕ) → (len hh : ℕ) → Option ℕ
update_loop zero j mask data_ len hh = some hh
update_loop (suc rounds) j mask data_ len hh =
    permute_loop (len - 1) (drop 1 data_) (bit_and hh mask / 2 ^ (j * 8) % 256) >>= λ h.
    update_loop rounds (j + 1) (mask * 2 ^ ((j + 1) * 8) % 2 ^ 64) data_ len
      (bit_or (bit_and hh (2 ^ 64 - 1 - mask)) h)

unfoldable pub pearson_hash_update : (hash : ℤ) → (data_ : List ℕ) → (len : ℕ) → Option ℤ
pearson_hash_update hash data_ len = do
  hh ← update_loop 8 0 255 data_ len (as_unsigned hash)
  some (as_signed hh)
