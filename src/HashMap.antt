-- ===== src/HashMap.antt =====
-- common/hash-map.c: a map from keys to data over the AVL tree of the keys' hashes.
-- A map is `none` where the pointer is NULL. The result of a call is `none` at a fault, and within it
-- `none` where the code returns NULL.
pub mod Lookup
mod Tests
use chats.Prelude.{ℕ, Option, none, some, List, ◌>>=◌}
use chats.Prelude.Int.{ℤ}
use chats.AvlTree.Nodes.{Cell, Tree}
use chats.AvlTree.{avl_tree_init, avl_tree_add, avl_tree_remove, avl_tree_get}

-- `hash_map_t`; a key is the list of its bytes. `addr` is the address of its tree.
pub record HashMap : Type 0 where
  pub hasher : List ℕ → ℤ
  pub root : Tree
  pub addr : ℕ

-- `hash_map_init` with a hasher, `hm` being what the memory held.
unfoldable pub hash_map_init : (hm : HashMap) → (hasher : List ℕ → ℤ) → HashMap
hash_map_init hm hasher = record hm { hasher = hasher; root = avl_tree_init }

module _ (uninit : ℕ → ℕ) (fall_off : Tree → Option Tree) where
  -- `addr` is the address that the allocation of the node gives.
  unfoldable pub hash_map_insert_by_hash :
      Option HashMap → (hash : ℤ) → (data_ addr : ℕ) → Option (Option HashMap)
  hash_map_insert_by_hash none hash data_ addr = some none
  hash_map_insert_by_hash (some hm) hash data_ addr = do
    root ← avl_tree_add uninit fall_off hm.root hash data_ hm.addr addr
    some (some (record hm { root = root }))

  unfoldable pub hash_map_insert_by_key :
      Option HashMap → (key : List ℕ) → (data_ addr : ℕ) → Option (Option HashMap)
  unfolding hash_map_insert_by_hash
  hash_map_insert_by_key none key data_ addr = some none
  hash_map_insert_by_key (some hm) key data_ addr =
      hash_map_insert_by_hash (some hm) (hm.hasher key) data_ addr

  unfoldable pub hash_map_remove_by_hash : Option HashMap → (hash : ℤ) → Option (Option HashMap)
  hash_map_remove_by_hash none hash = some none
  hash_map_remove_by_hash (some hm) hash = do
    root ← avl_tree_remove uninit fall_off hm.root hash
    some (some (record hm { root = root }))

  unfoldable pub hash_map_remove_by_key : Option HashMap → (key : List ℕ) → Option (Option HashMap)
  hash_map_remove_by_key none key = some none
  hash_map_remove_by_key (some hm) key = do
    root ← avl_tree_remove uninit fall_off hm.root (hm.hasher key)
    some (some (record hm { root = root }))

unfoldable pub hash_map_get_by_hash : Option HashMap → (hash : ℤ) → Option Cell
hash_map_get_by_hash none hash = none
hash_map_get_by_hash (some hm) hash = avl_tree_get hm.root hash

unfoldable pub hash_map_get_by_key : Option HashMap → (key : List ℕ) → Option Cell
hash_map_get_by_key none key = none
hash_map_get_by_key (some hm) key = avl_tree_get hm.root (hm.hasher key)
