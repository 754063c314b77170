-- ===== src/DaoCache/Addresses.antt =====
-- chats/p2p/server/dao/dao-cache.c: addresses that its map takes for one another.
use chats.Prelude.{ℕ, ◌≡◌, refl, some, true, List, [], ◌∷◌, arith, length, length-append}
use chats.Prelude.Int.{ℤ}
use chats.HashFunctions.{pearson_hash}
use chats.HashFunctions.Collisions.{pearson_hash_ends, pearson_hash_update_first}
use chats.LinkedList.{Ptr}
use chats.HashMap.{hash_map_get_by_hash}
use chats.DaoCache.{DaoCache, c_string, hash_addr, node_data, dao_cache_get_client_by_addr}

-- The hash of a text, with the terminator that stands behind it, comes to its end.
pearson_hash-c_string :
    (shifted : ℕ → ℕ → ℕ) (s : List ℕ)
    → (hash : ℤ) × (pearson_hash shifted (c_string s) (length s) ≡ some hash)
pearson_hash-c_string shifted [] = pearson_hash_ends shifted 0 [] 0 (omega arith)
pearson_hash-c_string shifted (c ∷ s) =
    pearson_hash_ends shifted c (c_string s) (length (c ∷ s))
      (omega (arith, length-append s (0 ∷ [])))

-- The hash of an address does not depend on the first character of the port.
hash_addr-Same :
    (shifted : ℕ → ℕ → ℕ) (host port : List ℕ) (c d : ℕ)
    → (hash : ℤ) × (hash_addr shifted host (c ∷ port) ≡ some hash)
      × (hash_addr shifted host (d ∷ port) ≡ some hash)
unfolding hash_addr
hash_addr-Same shifted host port c d =
    let (h, hashed) = pearson_hash-c_string shifted host in
    let (h1, colon, colon') = pearson_hash_update_first h 58 58 (0 ∷ []) 1 (omega arith) in
    let (h2, first, second) =
      pearson_hash_update_first h1 c d (c_string port) (length (c ∷ port))
        (omega (arith, length-append port (0 ∷ []))) in
    (h2, simp (hashed, colon, first) refl, simp (hashed, colon, second) refl)

-- `dao_cache_get_client_by_addr` of a cache that is set up comes to its end, with the same client for any
-- two addresses of one host whose ports differ in the first character only.
pub dao_cache_get_client_by_addr-Same :
    (shifted : ℕ → ℕ → ℕ) (host port : List ℕ) (c d : ℕ) (s : DaoCache)
    → s.initialized ≡ true
    → (dce : Ptr) × (dao_cache_get_client_by_addr shifted host (c ∷ port) s ≡ some dce)
      × (dao_cache_get_client_by_addr shifted host (d ∷ port) s ≡ some dce)
unfolding dao_cache_get_client_by_addr
dao_cache_get_client_by_addr-Same shifted host port c d s set =
    let (hash, first, second) = hash_addr-Same shifted host port c d in
    (
      node_data (hash_map_get_by_hash (some s.hm_by_addr) hash),
      simp (set, first) refl,
      simp (set, second) refl,
    )
