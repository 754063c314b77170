-- ===== src/AvlTree/Insert.antt =====
-- `tree_insert` of common/avl-tree.c.
use chats.Prelude.{
  ℕ, suc, ◌+◌, ◌≤◌, ◌<◌, ◌≡◌, refl, sym, ap, ◌∙◌, inl, inr, true, false, Option, some, ◌∷◌, ◌++◌,
  arith, max, Bool-cases,
}
use chats.Prelude.Int.{ℤ, ltb_ℤ}
use chats.AvlTree.Nodes.{Cell, Tree, leaf, node}
use chats.AvlTree.Shape.{Entry, entry, entries, depth, IsAvl}
use chats.AvlTree.Balance.{tree_balance-Balanced, near_cases, Near-left, Near-right}
use chats.AvlTree.Sorted.{
  All, AtMost, IsSorted, insert_entry, IsSorted-Around, insert_entry_before, insert_entry_after,
}
use chats.AvlTree.{tree_balance, node_init, tree_insert}

-- The depth after one side grew, or did not, and the node was balanced.
grown_depth :
    (a b a' b' d : ℕ)
    → a ≤ a'
    → a' ≤ a + 1
    → b ≤ b'
    → b' ≤ b + 1
    → a' + b' ≤ a + b + 1
    → a ≤ b + 1
    → b ≤ a + 1
    → max a' b' ≤ d
    → d ≤ suc (max a' b')
    → (a' ≤ b' + 1 → b' ≤ a' + 1 → d ≡ suc (max a' b'))
    → (suc (max a b) ≤ d) × (d ≤ suc (max a b) + 1)
grown_depth a b a' b' d h1 h2 h3 h4 one h5 h6 low high grows =
    elim (near_cases a' b' (omega arith) (omega arith)) [
      | inl deeper ↦ (omega arith, omega arith)
      | inr (inl deeper) ↦ (omega arith, omega arith)
      | inr (inr level) ↦ let e = grows level.0 level.1 in (omega arith, omega arith)
    ]

-- What an insertion into `t` makes of it.
pub record Inserted (e : Entry) (t : Tree) (t' : Tree) : Type 0 where
  pub avl : IsAvl t'
  pub holds : entries t' ≡ insert_entry e (entries t)
  pub no_shallower : depth t ≤ depth t'
  pub one_deeper : depth t' ≤ depth t + 1

-- Either side of a node grew, and the node was balanced.
module _ (uninit : ℕ → ℕ) (fall_off : Tree → Option Tree) where
  grown_left :
      (l l' r : Tree) (p : Cell) (e : Entry)
      → IsAvl (node l p r)
      → depth (node l p r) < 249
      → ltb_ℤ e.key p.key ≡ true
      → Inserted e l l'
      → (t' : Tree) × (tree_balance uninit fall_off (node l' p r) ≡ some t')
        × Inserted e (node l p r) t'
  grown_left l l' r p e h small left il =
      let low = il.no_shallower in
      let high = il.one_deeper in
      let near = Near-left l l' r p h (omega arith) il.avl (omega arith) (omega arith) in
      let (t', balanced, b) = tree_balance-Balanced uninit fall_off l' r p near in
      let d =
        grown_depth (depth l) (depth r) (depth l') (depth r) (depth t') low high (omega arith)
          (omega arith) (omega arith) (omega arith) (omega arith) b.at_least b.at_most b.grows in
      (
        t',
        balanced,
        record {
          avl = b.avl;
          holds =
              b.same
              ∙ ap (λ xs. xs ++ (entry p ∷ entries r)) il.holds
              ∙ sym (insert_entry_before e (entry p) (entries l) (entries r) left);
          no_shallower = d.0;
          one_deeper = d.1;
        },
      )

  grown_right :
      (l r r' : Tree) (p : Cell) (e : Entry)
      → IsAvl (node l p r)
      → depth (node l p r) < 249
      → ltb_ℤ e.key p.key ≡ false
      → All (AtMost p.key) (entries l)
      → Inserted e r r'
      → (t' : Tree) × (tree_balance uninit fall_off (node l p r') ≡ some t')
        × Inserted e (node l p r) t'
  grown_right l r r' p e h small right before ir =
      let low = ir.no_shallower in
      let high = ir.one_deeper in
      let near = Near-right l r r' p h (omega arith) ir.avl (omega arith) (omega arith) in
      let (t', balanced, b) = tree_balance-Balanced uninit fall_off l r' p near in
      let d =
        grown_depth (depth l) (depth r) (depth l) (depth r') (depth t') (omega arith) (omega arith)
          low high (omega arith) (omega arith) (omega arith) b.at_least b.at_most b.grows in
      (
        t',
        balanced,
        record {
          avl = b.avl;
          holds =
              b.same
              ∙ ap (λ xs. entries l ++ (entry p ∷ xs)) ir.holds
              ∙ sym (insert_entry_after e (entry p) (entries l) (entries r) right before);
          no_shallower = d.0;
          one_deeper = d.1;
        },
      )

module _ (uninit : ℕ → ℕ) (fall_off : Tree → Option Tree)
    (returns : (t : Tree) → fall_off t ≡ some t) where
  pub tree_insert-Inserted :
      (t : Tree) (key : ℤ) (data_ host addr : ℕ)
      → IsAvl t
      → IsSorted (entries t)
      → depth t < 249
      → (t' : Tree) × (tree_insert uninit fall_off t key data_ host addr ≡ some t')
        × Inserted (record { addr = addr; key = key; data_ = data_ }) t t'
  unfolding tree_insert node_init
  tree_insert-Inserted leaf key data_ host addr h s small = (
    _,
    returns _,
    record {
      avl = (tt, tt, refl, omega arith, omega arith);
      holds = refl;
      no_shallower = omega arith;
      one_deeper = omega arith;
    },
  )
  tree_insert-Inserted (node l p r) key data_ host addr h s small =
      let around = IsSorted-Around (entries l) (entry p) (entries r) s in
      elim (Bool-cases (ltb_ℤ key p.key)) [
        | inl left ↦
            let (l', inserted, il) =
              tree_insert-Inserted l key data_ host addr h.0 around.before (omega arith) in
            let (t', balanced, i) = grown_left uninit fall_off l l' r p _ h small left il in
            (t', rw (left, inserted, balanced) (returns t'), i)
        | inr right ↦
            let (r', inserted, ir) =
              tree_insert-Inserted r key data_ host addr h.1 around.after (omega arith) in
            let (t', balanced, i) =
              grown_right uninit fall_off l r r' p _ h small right around.low ir in
            (t', rw (right, inserted, balanced) (returns t'), i)
      ]
