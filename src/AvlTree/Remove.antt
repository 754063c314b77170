-- ===== src/AvlTree/Remove.antt =====
-- `tree_remove_node` of common/avl-tree.c.
use chats.Prelude.{
  ℕ, ◌<◌, ◌≡◌, refl, ap, ◌∙◌, ◌⊎◌, inl, inr, true, false, Option, some, List, ◌∷◌, ◌++◌, arith,
  Bool-cases, ◌>>=◌,
}
use chats.Prelude.Int.{ℤ, ltb_ℤ}
use chats.AvlTree.Nodes.{Cell, Tree, leaf, node}
use chats.AvlTree.Shape.{Entry, entry, entries, depth, IsAvl}
use chats.AvlTree.Sorted.{
  All, AtLeast, AtMost, IsSorted, IsAbsent, Removed, here, there, Removed-left, Removed-right,
  IsSorted-Around, IsAbsent-before, IsAbsent-after, eq_of_not_less,
}
use chats.AvlTree.{tree_balance, take_out, tree_remove_node}
use chats.AvlTree.Shrink.{Shrunk, Shrunk-self, Shrunk-node, take_out-Shrunk}

-- `ys` lacks one entry of `xs` with the key, or no entry has it and `ys` is `xs`.
abbrev pub Without : ℤ → List Entry → List Entry → Type 0
Without key xs ys = Removed key xs ys ⊎ (IsAbsent key xs × (ys ≡ xs))

-- Without a key that is left of an entry, and of one that is right of it.
Without-left :
    (key : ℤ) (xs xs' : List Entry) (c : Entry) (ys : List Entry)
    → ltb_ℤ key c.key ≡ true
    → All (AtLeast c.key) ys
    → Without key xs xs'
    → Without key (xs ++ (c ∷ ys)) (xs' ++ (c ∷ ys))
Without-left key xs xs' c ys h high (inl r) = inl (Removed-left key xs xs' (c ∷ ys) r)
Without-left key xs xs' c ys h high (inr (missing, same)) =
    inr (IsAbsent-before key xs c ys h high missing, ap (λ zs. zs ++ (c ∷ ys)) same)

Without-right :
    (key : ℤ) (xs : List Entry) (c : Entry) (ys ys' : List Entry)
    → ltb_ℤ c.key key ≡ true
    → All (AtMost c.key) xs
    → Without key ys ys'
    → Without key (xs ++ (c ∷ ys)) (xs ++ (c ∷ ys'))
Without-right key xs c ys ys' h low (inl r) =
    inl (Removed-right key xs (c ∷ ys) (c ∷ ys') (there r))
Without-right key xs c ys ys' h low (inr (missing, same)) =
    inr (IsAbsent-after key xs c ys h low missing, ap (λ zs. xs ++ (c ∷ zs)) same)

module _ (uninit : ℕ → ℕ) (fall_off : Tree → Option Tree) where
  -- The three branches of `tree_remove_node`.
  remove_less :
      (l r : Tree) (p : Cell) (key : ℤ)
      → ltb_ℤ key p.key ≡ true
      → tree_remove_node uninit fall_off (node l p r) key ≡ (
          tree_remove_node uninit fall_off l key >>= λ l'.
          tree_balance uninit fall_off (node l' p r))
  unfolding tree_remove_node
  remove_less l r p key h = cc

  remove_more :
      (l r : Tree) (p : Cell) (key : ℤ)
      → ltb_ℤ key p.key ≡ false
      → ltb_ℤ p.key key ≡ true
      → tree_remove_node uninit fall_off (node l p r) key ≡ (
          tree_remove_node uninit fall_off r key >>= λ r'.
          tree_balance uninit fall_off (node l p r'))
  unfolding tree_remove_node
  remove_more l r p key h k = cc

  remove_equal :
      (l r : Tree) (p : Cell) (key : ℤ)
      → ltb_ℤ key p.key ≡ false
      → ltb_ℤ p.key key ≡ false
      → tree_remove_node uninit fall_off (node l p r) key ≡ take_out uninit fall_off l r p.parent
  unfolding tree_remove_node
  remove_equal l r p key h k = cc

  pub tree_remove_node-Without :
      (t : Tree) (key : ℤ)
      → IsAvl t
      → IsSorted (entries t)
      → depth t < 250
      → (t' : Tree) × (tree_remove_node uninit fall_off t key ≡ some t')
        × Shrunk t t'
        × Without key (entries t) (entries t')
  unfolding tree_remove_node
  tree_remove_node-Without leaf key h s small = (leaf, refl, Shrunk-self leaf tt, inr (tt, refl))
  tree_remove_node-Without (node l p r) key h s small =
      let around = IsSorted-Around (entries l) (entry p) (entries r) s in
      elim (Bool-cases (ltb_ℤ key p.key)) [
        | inl less ↦
            let (l', removed, sl, w) =
              tree_remove_node-Without l key h.0 around.before (omega arith) in
            let (t', balanced, st, same) =
              Shrunk-node uninit fall_off l l' r r p p h small sl (Shrunk-self r h.1)
                (omega (arith, sl.one_shallower)) in
            (
              t',
              remove_less l r p key less ∙ rw removed balanced,
              st,
              rw same (
                  Without-left key (entries l) (entries l') (entry p) (entries r) less around.high
                    w),
            )
        | inr not_less ↦ elim (Bool-cases (ltb_ℤ p.key key)) [
          | inl more ↦
              let (r', removed, sr, w) =
                tree_remove_node-Without r key h.1 around.after (omega arith) in
              let (t', balanced, st, same) =
                Shrunk-node uninit fall_off l l r r' p p h small (Shrunk-self l h.0) sr
                  (omega (arith, sr.one_shallower)) in
              (
                t',
                remove_more l r p key not_less more ∙ rw removed balanced,
                st,
                rw same (
                    Without-right key (entries l) (entry p) (entries r) (entries r') more around.low
                      w),
              )
          | inr not_more ↦
              let (t', taken, st, same) = take_out-Shrunk uninit fall_off l r p h small in
              (
                t',
                remove_equal l r p key not_less not_more ∙ taken,
                st,
                rw same (
                    inl (
                      Removed-right key (entries l) (entry p ∷ entries r) (entries r)
                        (here (eq_of_not_less key p.key not_less not_more)))),
              )
        ]
      ]
