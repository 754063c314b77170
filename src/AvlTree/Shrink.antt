-- ===== src/AvlTree/Shrink.antt =====
-- `tree_remove_minimum_node`, and the branch of `tree_remove_node` that takes a node out, of common/avl-tree.c.
use chats.Prelude.{
  ℕ, suc, ◌+◌, ◌≤◌, ◌<◌, ◌≡◌, refl, sym, ap, ◌∙◌, inl, inr, Option, some, ◌∷◌, ◌++◌, arith, max,
}
use chats.AvlTree.Nodes.{Cell, Tree, leaf, node, least, set_parent}
use chats.AvlTree.Shape.{
  entry, entries, depth, IsAvl, entries-set_parent, depth-set_parent, IsAvl-set_parent,
}
use mathlib.Core.List.{append-nil}
use chats.AvlTree.Rotations.{Near}
use chats.AvlTree.Balance.{tree_balance-Balanced, near_cases}
use chats.AvlTree.{tree_balance, tree_remove_minimum_node, take_out}

-- The depth after one side shrank, or did not, and the node was balanced.
shrunk_depth :
    (a b a' b' d : ℕ)
    → a' ≤ a
    → a ≤ a' + 1
    → b' ≤ b
    → b ≤ b' + 1
    → a + b ≤ a' + b' + 1
    → a ≤ b + 1
    → b ≤ a + 1
    → max a' b' ≤ d
    → d ≤ suc (max a' b')
    → (a' ≤ b' + 1 → b' ≤ a' + 1 → d ≡ suc (max a' b'))
    → (d ≤ suc (max a b)) × (suc (max a b) ≤ d + 1)
shrunk_depth a b a' b' d h1 h2 h3 h4 one h5 h6 low high grows =
    elim (near_cases a' b' (omega arith) (omega arith)) [
      | inl deeper ↦ (omega arith, omega arith)
      | inr (inl deeper) ↦ (omega arith, omega arith)
      | inr (inr level) ↦ let e = grows level.0 level.1 in (omega arith, omega arith)
    ]

-- `t'` is balanced and as deep as `t`, or one level less.
pub record Shrunk (t : Tree) (t' : Tree) : Type 0 where
  pub avl : IsAvl t'
  pub no_deeper : depth t' ≤ depth t
  pub one_shallower : depth t ≤ depth t' + 1

Shrunk-set_parent : (a : ℕ) (t t' : Tree) → Shrunk t t' → Shrunk t (set_parent a t')
Shrunk-set_parent a t t' s =
    let low = s.no_deeper in
    let high = s.one_shallower in
    let e = depth-set_parent a t' in
    record {
      avl = IsAvl-set_parent a t' s.avl;
      no_deeper = omega arith;
      one_shallower = omega arith;
    }

pub Shrunk-self : (t : Tree) → IsAvl t → Shrunk t t
Shrunk-self t h = record { avl = h; no_deeper = omega arith; one_shallower = omega arith }

module _ (uninit : ℕ → ℕ) (fall_off : Tree → Option Tree) where
  -- A side of a node shrank, or neither did, and the node, or the one in its place, was balanced.
  pub Shrunk-node :
      (l l' r r' : Tree) (p p' : Cell)
      → IsAvl (node l p r)
      → depth (node l p r) < 250
      → Shrunk l l'
      → Shrunk r r'
      → depth l + depth r ≤ depth l' + depth r' + 1
      → (t' : Tree) × (tree_balance uninit fall_off (node l' p' r') ≡ some t')
        × Shrunk (node l p r) t'
        × (entries t' ≡ entries l' ++ (entry p' ∷ entries r'))
  Shrunk-node l l' r r' p p' h small sl sr one =
      let l1 = sl.no_deeper in
      let l2 = sl.one_shallower in
      let r1 = sr.no_deeper in
      let r2 = sr.one_shallower in
      let near : Near l' r' = record {
        left = sl.avl;
        right = sr.avl;
        left_shallow = omega arith;
        right_shallow = omega arith;
        left_near = omega arith;
        right_near = omega arith;
      } in
      let (t', balanced, b) = tree_balance-Balanced uninit fall_off l' r' p' near in
      let d =
        shrunk_depth (depth l) (depth r) (depth l') (depth r') (depth t') l1 l2 r1 r2 one
          (omega arith) (omega arith) b.at_least b.at_most b.grows in
      (t', balanced, record { avl = b.avl; no_deeper = d.0; one_shallower = d.1 }, b.same)

  -- Of a balanced tree that is not empty and less than 250 deep, `avl_tree_min` is the first node,
  -- and `tree_remove_minimum_node` returns a balanced tree of the others, in their order.
  pub tree_remove_minimum_node-least :
      (l : Tree) (p : Cell) (r : Tree)
      → IsAvl (node l p r)
      → depth (node l p r) < 250
      → (c : Cell) × (t' : Tree) × (least (node l p r) ≡ some c)
        × (tree_remove_minimum_node uninit fall_off (node l p r) ≡ some t')
        × Shrunk (node l p r) t'
        × (entries (node l p r) ≡ entry c ∷ entries t')
  unfolding tree_remove_minimum_node least
  tree_remove_minimum_node-least leaf p r h small = (
    p,
    r,
    refl,
    refl,
    record { avl = h.1; no_deeper = omega arith; one_shallower = omega arith },
    refl,
  )
  tree_remove_minimum_node-least (node a q b) p r h small =
      let (c, l', first, removed, sl, split) =
        tree_remove_minimum_node-least a q b h.0 (omega arith) in
      let (t', balanced, st, same) =
        Shrunk-node (node a q b) l' r r p p h small sl (Shrunk-self r h.1)
          (omega (arith, sl.one_shallower)) in
      (
        c,
        t',
        first,
        rw removed balanced,
        st,
        ap (λ xs. xs ++ (entry p ∷ entries r)) split ∙ ap (λ xs. entry c ∷ xs) (sym same),
      )

  -- The branch of `tree_remove_node` that takes the node out.
  pub take_out-Shrunk :
      (l r : Tree) (p : Cell)
      → IsAvl (node l p r)
      → depth (node l p r) < 250
      → (t' : Tree) × (take_out uninit fall_off l r p.parent ≡ some t')
        × Shrunk (node l p r) t'
        × (entries t' ≡ entries l ++ entries r)
  unfolding take_out
  take_out-Shrunk l leaf p h small =
      let e = depth-set_parent p.parent l in
      (
        set_parent p.parent l,
        refl,
        record {
          avl = IsAvl-set_parent p.parent l h.0;
          no_deeper = omega arith;
          one_shallower = omega arith;
        },
        entries-set_parent p.parent l ∙ sym (append-nil (entries l)),
      )
  take_out-Shrunk l (node a q b) p h small =
      let (c, r', first, removed, sr, split) =
        tree_remove_minimum_node-least a q b h.1 (omega arith) in
      let dl = depth-set_parent c.addr l in
      let (t', balanced, st, same) =
        Shrunk-node l (set_parent c.addr l) (node a q b) (set_parent c.addr r') p
          (record c { parent = p.parent }) h small
          (Shrunk-set_parent c.addr l l (Shrunk-self l h.0))
          (Shrunk-set_parent c.addr (node a q b) r' sr)
          (omega (arith, depth-set_parent c.addr r', sr.one_shallower)) in
      (
        t',
        rw (first, removed) balanced,
        st,
        rw (same, entries-set_parent c.addr l, entries-set_parent c.addr r', split) refl,
      )
