-- ===== src/AvlTree/Find.antt =====
-- `tree_find` and `avl_tree_get` of common/avl-tree.c.
use mathlib.Core.List.{Memᴰ}
use mathlib.Core.List.Memᴰ
use mathlib.Core.Path.{subst}
use chats.Prelude.{
  ◌≡◌, refl, sym, ap, length, inl, inr, true, false, Option, none, some, List, [], ◌∷◌, ◌++◌,
  Bool-cases, arith,
}
use chats.Prelude.Int.{ℤ, ltb_ℤ}
use chats.AvlTree.Nodes.{Cell, Tree, leaf, node, max_loop, avl_tree_max}
use chats.AvlTree.Shape.{Entry, entry, entries}
use chats.AvlTree.Sorted.{
  IsSorted, IsAbsent, IsSorted-Around, IsAbsent-before, IsAbsent-after, eq_of_not_less,
}
use chats.AvlTree.{tree_find, avl_tree_get}

-- What a search finds: a node with the key, or nothing, where no node has it.
abbrev pub Found : ℤ → List Entry → Option Cell → Type 0
Found key xs none = IsAbsent key xs
Found key xs (some c) = (c.key ≡ key) × Memᴰ (entry c) xs

Found-left :
    (key : ℤ) (l : Tree) (p : Cell) (r : Tree)
    → IsSorted (entries (node l p r))
    → ltb_ℤ key p.key ≡ true
    → (o : Option Cell) → Found key (entries l) o
    → Found key (entries (node l p r)) o
Found-left key l p r s h none missing =
    IsAbsent-before key (entries l) (entry p) (entries r) h
      (IsSorted-Around (entries l) (entry p) (entries r) s).high missing
Found-left key l p r s h (some c) (same, m) = (same, Memᴰ.append_left (entry p ∷ entries r) m)

Found-right :
    (key : ℤ) (l : Tree) (p : Cell) (r : Tree)
    → IsSorted (entries (node l p r))
    → ltb_ℤ p.key key ≡ true
    → (o : Option Cell) → Found key (entries r) o
    → Found key (entries (node l p r)) o
Found-right key l p r s h none missing =
    IsAbsent-after key (entries l) (entry p) (entries r) h
      (IsSorted-Around (entries l) (entry p) (entries r) s).low missing
Found-right key l p r s h (some c) (same, m) = (same, Memᴰ.append_right (entries l) (Memᴰ.tail m))

-- The branches of `tree_find`.
find_less :
    (key : ℤ) (l : Tree) (p : Cell) (r : Tree)
    → ltb_ℤ key p.key ≡ true
    → tree_find (node l p r) key ≡ tree_find l key
unfolding tree_find
find_less key l p r h = cc

find_more :
    (key : ℤ) (l : Tree) (p : Cell) (r : Tree)
    → ltb_ℤ key p.key ≡ false
    → ltb_ℤ p.key key ≡ true
    → tree_find (node l p r) key ≡ tree_find r key
unfolding tree_find
find_more key l p r h k = cc

find_equal :
    (key : ℤ) (l : Tree) (p : Cell) (r : Tree)
    → ltb_ℤ key p.key ≡ false
    → ltb_ℤ p.key key ≡ false
    → tree_find (node l p r) key ≡ some p
unfolding tree_find
find_equal key l p r h k = cc

tree_find-Found :
    (t : Tree) (key : ℤ) → IsSorted (entries t) → Found key (entries t) (tree_find t key)
unfolding tree_find
tree_find-Found leaf key s = tt
tree_find-Found (node l p r) key s =
    let around = IsSorted-Around (entries l) (entry p) (entries r) s in
    elim (Bool-cases (ltb_ℤ key p.key)) [
      | inl less ↦
          subst (Found key (entries (node l p r))) (sym (find_less key l p r less))
            (Found-left key l p r s less (tree_find l key) (tree_find-Found l key around.before))
      | inr not_less ↦ elim (Bool-cases (ltb_ℤ p.key key)) [
        | inl more ↦
            subst (Found key (entries (node l p r))) (sym (find_more key l p r not_less more))
              (Found-right key l p r s more (tree_find r key) (tree_find-Found r key around.after))
        | inr not_more ↦
            subst (Found key (entries (node l p r))) (sym (find_equal key l p r not_less not_more))
              (
                eq_of_not_less key p.key not_less not_more,
                Memᴰ.append_right (entries l) (Memᴰ.head refl),
              )
      ]
    ]

-- `avl_tree_get` on a tree in the order of its keys returns a node of the tree with the key, and
-- NULL only where no node has it.
pub avl_tree_get-Found :
    (root : Tree) (key : ℤ)
    → IsSorted (entries root)
    → Found key (entries root) (avl_tree_get root key)
unfolding avl_tree_get
avl_tree_get-Found root key s = tree_find-Found root key s

max_loop-leaf : (t : Tree) → max_loop t ≡ leaf
unfolding max_loop
max_loop-leaf leaf = refl
max_loop-leaf (node l c r) = max_loop-leaf r

-- `avl_tree_max` returns NULL for every tree that is not empty, and not the last node, which stands
-- at the end of the entries.
pub avl_tree_max-leaf :
    (root : Tree) (c : Cell) (xs : List Entry)
    → entries root ≡ xs ++ (entry c ∷ [])
    → avl_tree_max root ≡ some leaf
unfolding avl_tree_max
avl_tree_max-leaf leaf c [] e = absurd (omega (arith, ap length e))
avl_tree_max-leaf leaf c (x ∷ xs) e = absurd (omega (arith, ap length e))
avl_tree_max-leaf (node l p r) c xs e = ap some (max_loop-leaf r)
