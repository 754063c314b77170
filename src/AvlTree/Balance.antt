-- ===== src/AvlTree/Balance.antt =====
-- `tree_balance` of common/avl-tree.c.
use chats.Prelude.{
  ℕ, ◌+◌, ◌≤◌, ◌<◌, ◌≡◌, refl, ap, ◌∙◌, inl, inr, ◌⊎◌, Option, some, arith, ltb, Bool-cases, ltb→lt,
  dec_lt,
}
use chats.Prelude.Int.{ℤ, pos, negsuc, ltb_ℤ, sub_ℕ}
use chats.AvlTree.Nodes.{
  Cell, Tree, leaf, node, node_height, node_balance_factor, node_fix_height, fixed_height,
}
use chats.AvlTree.Shape.{depth, IsAvl, node_height-depth, fixed, fixed-IsAvl}
use chats.AvlTree.{balance_right, balance_left, balance_by, tree_balance}
use chats.AvlTree.Rotations.{
  Near, Balanced, rotate_right-Balanced, rotate_left-Balanced, inner_right, inner_left,
}

leans_right : (x y : ℕ) → ltb_ℤ (pos 0) (sub_ℕ x y) ≡ ltb y x
leans_right x y = ground arith

leans_left : (x y : ℕ) → ltb_ℤ (sub_ℕ x y) (pos 0) ≡ ltb x y
leans_left x y = ground arith

minus_two : (a b : ℕ) → a ≡ b + 2 → sub_ℕ b a ≡ negsuc 1
minus_two a b h = ground arith

plus_two : (a b : ℕ) → b ≡ a + 2 → sub_ℕ b a ≡ pos 2
plus_two a b h = ground arith

pub near_cases :
    (a b : ℕ) → a ≤ b + 2 → b ≤ a + 2 → (a ≡ b + 2) ⊎ ((b ≡ a + 2) ⊎ ((a ≤ b + 1) × (b ≤ a + 1)))
near_cases a b h k = elim (dec_lt (b + 1) a) [
  | yes p ↦ inl (omega arith)
  | no p ↦ elim (dec_lt (a + 1) b) [
    | yes q ↦ inr (inl (omega arith))
    | no q ↦ inr (inr (omega arith))
  ]
]

-- A side that changed by one level at most leaves the node near enough.
pub Near-left :
    (l l' r : Tree) (p : Cell)
    → IsAvl (node l p r)
    → depth (node l p r) < 250
    → IsAvl l'
    → depth l' ≤ depth l + 1
    → depth l ≤ depth l' + 1
    → Near l' r
Near-left l l' r p h small h' a b = record {
  left = h';
  right = h.1;
  left_shallow = omega arith;
  right_shallow = omega arith;
  left_near = omega arith;
  right_near = omega arith;
}

pub Near-right :
    (l r r' : Tree) (p : Cell)
    → IsAvl (node l p r)
    → depth (node l p r) < 250
    → IsAvl r'
    → depth r' ≤ depth r + 1
    → depth r ≤ depth r' + 1
    → Near l r'
Near-right l r r' p h small h' a b = record {
  left = h.0;
  right = h';
  left_shallow = omega arith;
  right_shallow = omega arith;
  left_near = omega arith;
  right_near = omega arith;
}

module _ (uninit : ℕ → ℕ) (fall_off : Tree → Option Tree) where
  pub balance_left-Balanced :
      (l r : Tree) (p : Cell)
      → IsAvl l
      → IsAvl r
      → depth r < 250
      → depth l ≡ depth r + 2
      → (t : Tree) × (balance_left uninit fall_off (node l p r) ≡ some t) × Balanced l p r t
  unfolding balance_left node_balance_factor
  balance_left-Balanced leaf r p hl hr small deep = absurd (omega arith)
  balance_left-Balanced (node a q b) r p hl hr small deep =
      rw (leans_right, node_height-depth a hl.0, node_height-depth b hl.1)
        (elim (Bool-cases (ltb (depth a) (depth b))) [
          | inl inner ↦
              rw inner (inner_right uninit fall_off a b r q p hl hr small deep (ltb→lt _ _ inner))
          | inr outer ↦
              rw outer
                (rotate_right-Balanced uninit fall_off a b r q p hl hr small deep (ground arith))
        ])

  pub balance_right-Balanced :
      (l r : Tree) (p : Cell)
      → IsAvl l
      → IsAvl r
      → depth l < 250
      → depth r ≡ depth l + 2
      → (t : Tree) × (balance_right uninit fall_off (node l p r) ≡ some t) × Balanced l p r t
  unfolding balance_right node_balance_factor
  balance_right-Balanced l leaf p hl hr small deep = absurd (omega arith)
  balance_right-Balanced l (node b q r) p hl hr small deep =
      rw (leans_left, node_height-depth b hr.0, node_height-depth r hr.1)
        (elim (Bool-cases (ltb (depth r) (depth b))) [
          | inl inner ↦
              rw inner (inner_left uninit fall_off l b r q p hl hr small deep (ltb→lt _ _ inner))
          | inr outer ↦
              rw outer
                (rotate_left-Balanced uninit fall_off l b r p q hl hr small deep (ground arith))
        ])

  -- `tree_balance` after `node_fix_height`.
  tree_balance-fixed :
      (l r : Tree) (p : Cell)
      → IsAvl l
      → IsAvl r
      → (factor : ℤ) → sub_ℕ (depth r) (depth l) ≡ factor
      → tree_balance uninit fall_off (node l p r) ≡ balance_by uninit fall_off factor (fixed l p r)
  unfolding tree_balance node_fix_height node_balance_factor
  tree_balance-fixed l r p hl hr factor e =
      ap (λ z. balance_by uninit fall_off z (fixed l p r))
        (ap (λ z. sub_ℕ z (node_height l)) (node_height-depth r hr)
          ∙ ap (sub_ℕ (depth r)) (node_height-depth l hl)
          ∙ e)

  balance_by_level :
      (a b : ℕ) (t : Tree)
      → (a ≤ b + 1) × (b ≤ a + 1)
      → balance_by uninit fall_off (sub_ℕ b a) t ≡ some t
  unfolding balance_by
  balance_by_level a b t level = ground arith

  balance_by_minus_two :
      (t : Tree) → balance_by uninit fall_off (negsuc 1) t ≡ balance_left uninit fall_off t
  unfolding balance_by
  balance_by_minus_two t = refl

  balance_by_plus_two :
      (t : Tree) → balance_by uninit fall_off (pos 2) t ≡ balance_right uninit fall_off t
  unfolding balance_by
  balance_by_plus_two t = refl

  -- `tree_balance` at a node over balanced trees whose depths differ by two at most, below depth
  -- 250: it does not fault, and the tree that it returns is balanced, holds the same nodes in the
  -- same order, and is as deep as the deeper of the two or deeper by one, the latter where the
  -- depths differed by one at most.
  pub tree_balance-Balanced :
      (l r : Tree) (p : Cell)
      → Near l r
      → (t : Tree) × (tree_balance uninit fall_off (node l p r) ≡ some t) × Balanced l p r t
  tree_balance-Balanced l r p n =
      let p' : Cell = record p { height = fixed_height l r } in
      elim (near_cases (depth l) (depth r) n.left_near n.right_near) [
        | inl deeper ↦
            let (t, e, b) = balance_left-Balanced l r p' n.left n.right n.right_shallow deeper in
            (
              t,
              tree_balance-fixed l r p n.left n.right (negsuc 1)
                    (minus_two (depth l) (depth r) deeper)
                  ∙ balance_by_minus_two _
                  ∙ e,
              record {
                avl = b.avl;
                same = b.same;
                at_least = b.at_least;
                at_most = b.at_most;
                grows = b.grows;
              },
            )
        | inr (inl deeper) ↦
            let (t, e, b) = balance_right-Balanced l r p' n.left n.right n.left_shallow deeper in
            (
              t,
              tree_balance-fixed l r p n.left n.right (pos 2) (plus_two (depth l) (depth r) deeper)
                  ∙ balance_by_plus_two _
                  ∙ e,
              record {
                avl = b.avl;
                same = b.same;
                at_least = b.at_least;
                at_most = b.at_most;
                grows = b.grows;
              },
            )
        | inr (inr level) ↦ (
          fixed l p r,
          tree_balance-fixed l r p n.left n.right _ refl
              ∙ balance_by_level (depth l) (depth r) _ level,
          record {
            avl = fixed-IsAvl l p r n.left n.right (omega arith) (omega arith) level.0 level.1;
            same = refl;
            at_least = omega arith;
            at_most = omega arith;
            grows = λ x y. refl;
          },
        )
      ]
