-- ===== src/AvlTree/Calls.antt =====
-- Sequences of `avl_tree_add` and `avl_tree_remove` of common/avl-tree.c.
use mathlib.Core.Path.{subst}
use chats.Prelude.{
  ℕ, suc, ◌+◌, ◌^◌, ◌≤◌, ◌<◌, ◌≡◌, refl, sym, ap, inl, inr, Option, some, List, [], ◌∷◌, ◌>>=◌,
  Bool-cases, arith, length,
}
use chats.Prelude.Int.{ℤ, ltb_ℤ}
use chats.AvlTree.Nodes.{Tree}
use chats.AvlTree.Shape.{Entry, entries, IsAvl}
use chats.AvlTree.Sorted.{
  All, AtLeast, IsSorted, Removed, here, there, insert_entry, insert_entry-IsSorted,
}
use chats.AvlTree.Insert.{tree_insert-Inserted}
use chats.AvlTree.Remove.{Without, tree_remove_node-Without}
use chats.AvlTree.Size.{size, size-depth}
use chats.AvlTree.{avl_tree_add, avl_tree_remove}

pub data Call : Type 0 where
  add : (key : ℤ) → (data_ addr : ℕ) → Call
  remove : (key : ℤ) → Call

-- The calls one after another, on the tree at the address `avl_tree`.
unfoldable pub perform :
    (ℕ → ℕ) → (Tree → Option Tree) → (avl_tree : ℕ) → List Call → Tree → Option Tree
unfolding avl_tree_add avl_tree_remove
perform uninit fall_off avl_tree [] root = some root
perform uninit fall_off avl_tree (add key data_ addr ∷ calls) root =
    avl_tree_add uninit fall_off root key data_ avl_tree addr >>= λ t.
    perform uninit fall_off avl_tree calls t
perform uninit fall_off avl_tree (remove key ∷ calls) root =
    avl_tree_remove uninit fall_off root key >>= λ t. perform uninit fall_off avl_tree calls t

-- What the calls do to the entries of the tree, in the order of the keys.
pub data Effect : List Call → List Entry → List Entry → Type 0 where
  nothing : {xs : List Entry} → Effect [] xs xs
  added :
      {calls : List Call} {xs ys : List Entry} {key : ℤ} {data_ addr : ℕ}
      → Effect calls (insert_entry (record { addr = addr; key = key; data_ = data_ }) xs) ys
      → Effect (add key data_ addr ∷ calls) xs ys
  removed :
      {calls : List Call} {xs xs' ys : List Entry} {key : ℤ}
      → Without key xs xs'
      → Effect calls xs' ys
      → Effect (remove key ∷ calls) xs ys

length-insert_entry : (e : Entry) (xs : List Entry) → length (insert_entry e xs) ≡ suc (length xs)
length-insert_entry e [] = refl
length-insert_entry e (x ∷ xs) = elim (Bool-cases (ltb_ℤ e.key x.key)) [
  | inl p ↦ rw p refl
  | inr p ↦ rw p (ap suc (length-insert_entry e xs))
]

length-Removed : (key : ℤ) (xs ys : List Entry) → Removed key xs ys → length ys ≤ length xs
length-Removed key _ _ (here {xs = xs} e) = omega arith
length-Removed key _ _ (there {xs = xs} {ys = ys} r) = omega (arith, length-Removed key xs ys r)

length-Without : (key : ℤ) (xs ys : List Entry) → Without key xs ys → length ys ≤ length xs
length-Without key xs ys (inl r) = length-Removed key xs ys r
length-Without key xs ys (inr (missing, same)) = omega (arith, ap length same)

Removed-All :
    (P : Entry → Type 0) (key : ℤ) (xs ys : List Entry) → Removed key xs ys → All P xs → All P ys
Removed-All P key _ _ (here e) h = h.1
Removed-All P key _ _ (there {xs = xs} {ys = ys} r) h = (h.0, Removed-All P key xs ys r h.1)

Removed-IsSorted : (key : ℤ) (xs ys : List Entry) → Removed key xs ys → IsSorted xs → IsSorted ys
Removed-IsSorted key _ _ (here e) h = h.1
Removed-IsSorted key _ _ (there {e = e} {xs = xs} {ys = ys} r) h =
    (Removed-All (AtLeast e.key) key xs ys r h.0, Removed-IsSorted key xs ys r h.1)

Without-IsSorted : (key : ℤ) (xs ys : List Entry) → Without key xs ys → IsSorted xs → IsSorted ys
Without-IsSorted key xs ys (inl r) h = Removed-IsSorted key xs ys r h
Without-IsSorted key xs ys (inr (missing, same)) h = subst IsSorted (sym same) h

-- The tree is balanced, in the order of its keys, and has room for so many nodes more.
pub record IsGood (room : ℕ) (t : Tree) : Type 0 where
  pub avl : IsAvl t
  pub sorted : IsSorted (entries t)
  pub fits : size t + room + 1 < 2 ^ 64

module _ (uninit : ℕ → ℕ) (fall_off : Tree → Option Tree)
    (returns : (t : Tree) → fall_off t ≡ some t) where
  -- `avl_tree_add` on a tree that is balanced, in the order of its keys, and not too large for the
  -- address space, where a body that falls off its end gives its caller the pointer computed last:
  -- it does not fault, and makes a balanced tree that holds the new node before the first node of a
  -- greater key, and the others in their order.
  pub avl_tree_add-insert_entry :
      (room : ℕ) (root : Tree) (key : ℤ) (data_ avl_tree addr : ℕ)
      → IsGood (suc room) root
      → (t : Tree) × (avl_tree_add uninit fall_off root key data_ avl_tree addr ≡ some t)
        × (entries t
            ≡ insert_entry (record { addr = addr; key = key; data_ = data_ }) (entries root))
        × IsGood room t
  unfolding avl_tree_add
  avl_tree_add-insert_entry room root key data_ avl_tree addr g =
      let e : Entry = record { addr = addr; key = key; data_ = data_ } in
      let fits = g.fits in
      let shallow = size-depth root g.avl (omega arith) in
      let (t, inserted, i) =
        tree_insert-Inserted uninit fall_off returns root key data_ avl_tree addr g.avl g.sorted
          (omega arith) in
      (
        t,
        inserted,
        i.holds,
        record {
          avl = i.avl;
          sorted = subst IsSorted (sym i.holds) (insert_entry-IsSorted e (entries root) g.sorted);
          fits = omega (arith, ap length i.holds, length-insert_entry e (entries root));
        },
      )

-- `avl_tree_remove` on such a tree: it does not fault, and makes a balanced tree that lacks one node
-- with the key, the others in their order, or, where no node has the key, holds the same nodes.
pub avl_tree_remove-Without :
    (uninit : ℕ → ℕ) (fall_off : Tree → Option Tree) (room : ℕ) (root : Tree) (key : ℤ)
    → IsGood room root
    → (t : Tree) × (avl_tree_remove uninit fall_off root key ≡ some t)
      × Without key (entries root) (entries t)
      × IsGood room t
unfolding avl_tree_remove
avl_tree_remove-Without uninit fall_off room root key g =
    let fits = g.fits in
    let shallow = size-depth root g.avl (omega arith) in
    let (t, removed_, s, w) =
      tree_remove_node-Without uninit fall_off root key g.avl g.sorted (omega arith) in
    (
      t,
      removed_,
      w,
      record {
        avl = s.avl;
        sorted = Without-IsSorted key (entries root) (entries t) w g.sorted;
        fits = omega (arith, length-Without key (entries root) (entries t) w);
      },
    )

-- Any sequence of `avl_tree_add` and `avl_tree_remove` on a balanced tree in the order of its keys,
-- with room for the nodes that it adds, where a body that falls off its end gives its caller the
-- pointer computed last, runs through without a fault, has on the nodes the effects of its calls in
-- their order, and leaves a balanced tree in the order of its keys.
pub perform-Effect :
    (uninit : ℕ → ℕ) (fall_off : Tree → Option Tree)
    → ((t : Tree) → fall_off t ≡ some t)
    → (avl_tree : ℕ) (calls : List Call) (root : Tree) → IsGood (length calls) root
    → (t : Tree) × (perform uninit fall_off avl_tree calls root ≡ some t)
      × Effect calls (entries root) (entries t)
      × IsGood 0 t
unfolding perform
perform-Effect uninit fall_off returns avl_tree [] root g = (root, refl, nothing, g)
perform-Effect uninit fall_off returns avl_tree (add key data_ addr ∷ calls) root g =
    let (t, done, holds, g') =
      avl_tree_add-insert_entry uninit fall_off returns (length calls) root key data_ avl_tree addr
        g in
    let (t', rest, effect, g0) = perform-Effect uninit fall_off returns avl_tree calls t g' in
    (t', rw done rest, added (subst (λ xs. Effect calls xs (entries t')) holds effect), g0)
perform-Effect uninit fall_off returns avl_tree (remove key ∷ calls) root g =
    let weaker : IsGood (length calls) root = record {
      avl = g.avl;
      sorted = g.sorted;
      fits = omega (arith, g.fits);
    } in
    let (t, done, w, g') = avl_tree_remove-Without uninit fall_off (length calls) root key weaker in
    let (t', rest, effect, g0) = perform-Effect uninit fall_off returns avl_tree calls t g' in
    (t', rw done rest, removed w effect, g0)
