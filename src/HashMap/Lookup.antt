-- ===== src/HashMap/Lookup.antt =====
-- Looking up what was inserted into, or removed from, the map of common/hash-map.c.
use mathlib.Core.Path.{subst}
use chats.Prelude.{
  ℕ, suc, ◌≡◌, ◌≢◌, refl, sym, ◌∙◌, inl, inr, Option, none, some, List, [], ◌∷◌, Bool-cases,
}
use chats.Prelude.Int.{ℤ, ltb_ℤ}
use chats.AvlTree.Nodes.{Cell, Tree}
use chats.AvlTree.Shape.{Entry, entries}
use chats.AvlTree.Sorted.{All, IsAbsent, insert_entry}
use chats.AvlTree.Find.{Found, avl_tree_get-Found}
use chats.AvlTree.Remove.{Without}
use chats.AvlTree.Calls.{IsGood, avl_tree_add-insert_entry, avl_tree_remove-Without}
use chats.AvlTree.{avl_tree_get}
use chats.HashMap.{
  HashMap, hash_map_insert_by_key, hash_map_remove_by_key, hash_map_get_by_key,
  hash_map_insert_by_hash,
}

insert_entry-present :
    (e : Entry) (xs : List Entry) (P : Entry → Type 0) → All P (insert_entry e xs) → P e
insert_entry-present e [] P h = h.0
insert_entry-present e (x ∷ xs) P h = elim (Bool-cases (ltb_ℤ e.key x.key)) [
  | inl before ↦ (simp before at h).0
  | inr behind ↦ insert_entry-present e xs P (simp behind at h).1
]

-- A search that found something, as there is something to find.
Found-present :
    (hash : ℤ) (xs : List Entry) (o : Option Cell)
    → Found hash xs o
    → (IsAbsent hash xs → ⊥)
    → (c : Cell) × (o ≡ some c) × (c.key ≡ hash)
Found-present hash xs none f present = absurd (present f)
Found-present hash xs (some c) f present = (c, refl, f.0)

-- After `hash_map_insert_by_key` into a map with a good tree, where a body that falls off its end
-- gives its caller the pointer computed last, `hash_map_get_by_key` with any key of the same hash
-- finds a node with that hash, and the tree is good. So the key inserted is found, and a key that
-- was not inserted but has its hash is found just as well.
pub hash_map_get_by_key_inserted :
    (uninit : ℕ → ℕ) (fall_off : Tree → Option Tree)
    → ((t : Tree) → fall_off t ≡ some t)
    → (room : ℕ) (hm : HashMap) (key key' : List ℕ) (data_ addr : ℕ) → IsGood (suc room) hm.root
    → hm.hasher key' ≡ hm.hasher key
    → (hm' : HashMap) × (c : Cell) × (hash_map_insert_by_key uninit fall_off
          (some hm)
          key
          data_
          addr
        ≡ some (some hm'))
      × (hash_map_get_by_key (some hm') key' ≡ some c)
      × (c.key ≡ hm.hasher key)
      × IsGood room hm'.root
unfolding hash_map_insert_by_key hash_map_insert_by_hash hash_map_get_by_key
hash_map_get_by_key_inserted uninit fall_off returns room hm key key' data_ addr g same =
    let e : Entry = record { addr = addr; key = hm.hasher key; data_ = data_ } in
    let (root, added, holds, g') =
      avl_tree_add-insert_entry uninit fall_off returns room hm.root (hm.hasher key) data_ hm.addr
        addr g in
    let (c, found, hashed) =
      Found-present (hm.hasher key') (entries root) (avl_tree_get root (hm.hasher key'))
        (avl_tree_get-Found root (hm.hasher key') g'.sorted)
        (λ missing.
          insert_entry-present e (entries hm.root) (λ x. x.key ≢ hm.hasher key')
            (subst (IsAbsent (hm.hasher key')) holds missing) (sym same)) in
    (record hm { root = root }, c, simp added refl, found, hashed ∙ same, g')

-- `hash_map_remove_by_key` on a map with a good tree takes one node with the key's hash out, if there
-- is one, and leaves the others and the hasher; the tree is good.
pub hash_map_remove_by_key-Without :
    (uninit : ℕ → ℕ) (fall_off : Tree → Option Tree) (room : ℕ) (hm : HashMap) (key : List ℕ)
    → IsGood room hm.root
    → (root : Tree) × (hash_map_remove_by_key uninit fall_off (some hm) key
        ≡ some (some (record hm { root = root })))
      × Without (hm.hasher key) (entries hm.root) (entries root)
      × IsGood room root
unfolding hash_map_remove_by_key
hash_map_remove_by_key-Without uninit fall_off room hm key g =
    let (root, removed_, without, g') =
      avl_tree_remove-Without uninit fall_off room hm.root (hm.hasher key) g in
    (root, simp removed_ refl, without, g')
