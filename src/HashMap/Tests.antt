-- ===== src/HashMap/Tests.antt =====
-- The theorems on common/hash-map.c at a map whose hash is the number of bytes of the key.
use chats.Prelude.{ℕ, ◌<◌, ◌≡◌, refl, Option, some, [], ◌∷◌, length, arith}
use chats.Prelude.Int.{pos}
use chats.AvlTree.Nodes.{Cell, Tree, leaf, node}
use chats.AvlTree.Calls.{IsGood}
use chats.HashMap.{HashMap, hash_map_insert_by_key, hash_map_get_by_key}
use chats.HashMap.Lookup.{hash_map_get_by_key_inserted}

abbrev garbage : ℕ → ℕ
garbage a = 170

abbrev returned : Tree → Option Tree
returned t = some t

abbrev by_length : HashMap
by_length = record {
  hasher = λ key. pos (length key);
  root =
      node leaf (record { addr = 10; host = 9; parent = 0; height = 1; key = pos 1; data_ = 100 })
        leaf;
  addr = 9;
}

root-IsGood : (room : ℕ) → room < 1000 → IsGood room by_length.root
root-IsGood room h = record {
  avl = (tt, tt, refl, omega arith, omega arith);
  sorted = (tt, tt);
  fits = omega arith;
}

-- The key 97 98 was inserted, and 99 100 is looked up.
hash_map_get_by_key_inserted_example :
    (hm' : HashMap) × (c : Cell) × (hash_map_insert_by_key garbage returned
        (some by_length)
        (97 ∷ 98 ∷ [])
        101
        11
      ≡ some (some hm'))
    × (hash_map_get_by_key (some hm') (99 ∷ 100 ∷ []) ≡ some c)
    × (c.key ≡ pos 2)
    × IsGood 0 hm'.root
hash_map_get_by_key_inserted_example =
    hash_map_get_by_key_inserted garbage returned (λ t. refl) 0 by_length (97 ∷ 98 ∷ [])
      (99 ∷ 100 ∷ []) 101 11 (root-IsGood 1 (omega arith)) refl
