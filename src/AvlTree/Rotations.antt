-- ===== src/AvlTree/Rotations.antt =====
-- The rotations of common/avl-tree.c, at the nodes that `tree_balance` rotates.
use mathlib.Core.List.{append_assoc}
use chats.Prelude.{ℕ, suc, ◌+◌, ◌≤◌, ◌<◌, ◌≡◌, refl, Option, some, arith, max, ◌>>=◌}
use chats.AvlTree.Nodes.{Cell, Tree, leaf, node, node_fix_height, set_parent}
use chats.AvlTree.Shape.{
  entries, depth, IsAvl, entries-set_parent, depth-set_parent, IsAvl-set_parent, fixed, fixed-IsAvl,
}
use chats.AvlTree.{tree_rotate_right, tree_rotate_left}

-- Two balanced siblings under a node, near enough for one step of `tree_balance`.
pub record Near (l r : Tree) : Type 0 where
  pub left : IsAvl l
  pub right : IsAvl r
  pub left_shallow : depth l < 250
  pub right_shallow : depth r < 250
  pub left_near : depth l ≤ depth r + 2
  pub right_near : depth r ≤ depth l + 2

-- What `tree_balance` makes of the node over `l` and `r`.
pub record Balanced (l : Tree) (c : Cell) (r : Tree) (t : Tree) : Type 0 where
  pub avl : IsAvl t
  pub same : entries t ≡ entries (node l c r)
  pub at_least : max (depth l) (depth r) ≤ depth t
  pub at_most : depth t ≤ suc (max (depth l) (depth r))
  pub grows :
      depth l ≤ depth r + 1 → depth r ≤ depth l + 1 → depth t ≡ suc (max (depth l) (depth r))

module _ (uninit : ℕ → ℕ) (fall_off : Tree → Option Tree) where
  -- A rotation to the right, where the left side is at least as deep outside as inside.
  pub rotate_right-Balanced :
      (a b r : Tree) (q p : Cell)
      → IsAvl (node a q b)
      → IsAvl r
      → depth r < 250
      → depth (node a q b) ≡ depth r + 2
      → depth b ≤ depth a
      → (t : Tree) × (tree_rotate_right uninit fall_off (node (node a q b) p r) ≡ some t)
        × Balanced (node a q b) p r t
  unfolding tree_rotate_right node_fix_height
  rotate_right-Balanced a b r q p hl hr small deep outer =
      let b' = set_parent p.addr b in
      let db = depth-set_parent p.addr b in
      let inner =
        fixed-IsAvl b' (record p { parent = q.addr }) r (IsAvl-set_parent p.addr b hl.1) hr
          (omega arith) (omega arith) (omega arith) (omega arith) in
      (
        _,
        refl,
        record {
          avl =
              fixed-IsAvl a (record q { parent = p.parent })
                (fixed b' (record p { parent = q.addr }) r) hl.0 inner (omega arith) (omega arith)
                (omega arith) (omega arith);
          same = simp (entries-set_parent, append_assoc);
          at_least = omega arith;
          at_most = omega arith;
          grows = λ x y. omega arith;
        },
      )

  -- A rotation of the left side to the left and then one to the right.
  rotate_twice_right-Balanced :
      (a b d r : Tree) (q c p : Cell)
      → IsAvl (node a q (node b c d))
      → IsAvl r
      → depth r < 250
      → depth (node a q (node b c d)) ≡ depth r + 2
      → depth a < depth (node b c d)
      → (t : Tree) × ((tree_rotate_left uninit fall_off (node a q (node b c d)) >>= λ l'.
            tree_rotate_right uninit fall_off (node l' p r))
          ≡ some t)
        × Balanced (node a q (node b c d)) p r t
  unfolding tree_rotate_right tree_rotate_left node_fix_height
  rotate_twice_right-Balanced a b d r q c p hl hr small deep inner =
      let db = depth-set_parent q.addr b in
      let dd = depth-set_parent p.addr d in
      let one =
        fixed-IsAvl a (record q { parent = c.addr }) (set_parent q.addr b) hl.0
          (IsAvl-set_parent q.addr b hl.1.0) (omega arith) (omega arith) (omega arith)
          (omega arith) in
      let two =
        fixed-IsAvl (set_parent p.addr d) (record p { parent = c.addr }) r
          (IsAvl-set_parent p.addr d hl.1.1) hr (omega arith) (omega arith) (omega arith)
          (omega arith) in
      (
        _,
        refl,
        record {
          avl =
              fixed-IsAvl (fixed a (record q { parent = c.addr }) (set_parent q.addr b))
                (record c { parent = p.parent })
                (fixed (set_parent p.addr d) (record p { parent = c.addr }) r) one two (omega arith)
                (omega arith) (omega arith) (omega arith);
          same = simp (entries-set_parent, append_assoc);
          at_least = omega arith;
          at_most = omega arith;
          grows = λ x y. omega arith;
        },
      )

  -- The mirror images.
  pub rotate_left-Balanced :
      (l b r : Tree) (q p : Cell)
      → IsAvl l
      → IsAvl (node b p r)
      → depth l < 250
      → depth (node b p r) ≡ depth l + 2
      → depth b ≤ depth r
      → (t : Tree) × (tree_rotate_left uninit fall_off (node l q (node b p r)) ≡ some t)
        × Balanced l q (node b p r) t
  unfolding tree_rotate_left node_fix_height
  rotate_left-Balanced l b r q p hl hr small deep outer =
      let b' = set_parent q.addr b in
      let db = depth-set_parent q.addr b in
      let inner =
        fixed-IsAvl l (record q { parent = p.addr }) b' hl (IsAvl-set_parent q.addr b hr.0)
          (omega arith) (omega arith) (omega arith) (omega arith) in
      (
        _,
        refl,
        record {
          avl =
              fixed-IsAvl (fixed l (record q { parent = p.addr }) b')
                (record p { parent = uninit q.addr }) r inner hr.1 (omega arith) (omega arith)
                (omega arith) (omega arith);
          same = simp (entries-set_parent, append_assoc);
          at_least = omega arith;
          at_most = omega arith;
          grows = λ x y. omega arith;
        },
      )

  rotate_twice_left-Balanced :
      (l b d r : Tree) (q c p : Cell)
      → IsAvl l
      → IsAvl (node (node b c d) q r)
      → depth l < 250
      → depth (node (node b c d) q r) ≡ depth l + 2
      → depth r < depth (node b c d)
      → (t : Tree) × ((tree_rotate_right uninit fall_off (node (node b c d) q r) >>= λ r'.
            tree_rotate_left uninit fall_off (node l p r'))
          ≡ some t)
        × Balanced l p (node (node b c d) q r) t
  unfolding tree_rotate_right tree_rotate_left node_fix_height
  rotate_twice_left-Balanced l b d r q c p hl hr small deep inner =
      let db = depth-set_parent p.addr b in
      let dd = depth-set_parent q.addr d in
      let one =
        fixed-IsAvl (set_parent q.addr d) (record q { parent = c.addr }) r
          (IsAvl-set_parent q.addr d hr.0.1) hr.1 (omega arith) (omega arith) (omega arith)
          (omega arith) in
      let two =
        fixed-IsAvl l (record p { parent = c.addr }) (set_parent p.addr b) hl
          (IsAvl-set_parent p.addr b hr.0.0) (omega arith) (omega arith) (omega arith)
          (omega arith) in
      (
        _,
        refl,
        record {
          avl =
              fixed-IsAvl (fixed l (record p { parent = c.addr }) (set_parent p.addr b))
                (record c { parent = uninit p.addr })
                (fixed (set_parent q.addr d) (record q { parent = c.addr }) r) two one (omega arith)
                (omega arith) (omega arith) (omega arith);
          same = simp (entries-set_parent, append_assoc);
          at_least = omega arith;
          at_most = omega arith;
          grows = λ x y. omega arith;
        },
      )

  -- The inner side is the deeper one, so it is a node.
  pub inner_right :
      (a b r : Tree) (q p : Cell)
      → IsAvl (node a q b)
      → IsAvl r
      → depth r < 250
      → depth (node a q b) ≡ depth r + 2
      → depth a < depth b
      → (t : Tree) × ((tree_rotate_left uninit fall_off (node a q b) >>= λ l'.
            tree_rotate_right uninit fall_off (node l' p r))
          ≡ some t)
        × Balanced (node a q b) p r t
  inner_right a leaf r q p hl hr small deep inner = absurd (omega arith)
  inner_right a (node b c d) r q p hl hr small deep inner =
      rotate_twice_right-Balanced a b d r q c p hl hr small deep inner

  pub inner_left :
      (l b r : Tree) (q p : Cell)
      → IsAvl l
      → IsAvl (node b q r)
      → depth l < 250
      → depth (node b q r) ≡ depth l + 2
      → depth r < depth b
      → (t : Tree) × ((tree_rotate_right uninit fall_off (node b q r) >>= λ r'.
            tree_rotate_left uninit fall_off (node l p r'))
          ≡ some t)
        × Balanced l p (node b q r) t
  inner_left l leaf r q p hl hr small deep inner = absurd (omega arith)
  inner_left l (node b c d) r q p hl hr small deep inner =
      rotate_twice_left-Balanced l b d r q c p hl hr small deep inner
