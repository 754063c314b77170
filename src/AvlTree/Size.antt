-- ===== src/AvlTree/Size.antt =====
-- The depth of the trees of common/avl-tree.c against the number of their nodes.
use chats.Prelude.{
  ℕ, zero, suc, ◌+◌, ◌*◌, ◌^◌, ◌≤◌, ◌<◌, ◌≡◌, refl, some, arith, length, length-append, dec_lt, ◌∷◌,
}
use chats.AvlTree.Nodes.{Cell, Tree, leaf, node, node_fix_height}
use chats.AvlTree.Shape.{entry, entries, depth, IsAvl, fixed_height-depth}

abbrev pub size : Tree → ℕ
size t = length (entries t)

-- Two levels more double the nodes.
deep-size : (k : ℕ) (t : Tree) → IsAvl t → k * 2 ≤ depth t → 2 ^ k ≤ suc (size t)
deep-size zero t h deep = omega arith
deep-size (suc k) leaf h deep = absurd (omega arith)
deep-size (suc k) (node l c r) h deep = omega (
  arith,
  deep-size k l h.0 (omega arith),
  deep-size k r h.1 (omega arith),
  length-append (entries l) (entry c ∷ entries r),
)

-- A balanced tree whose nodes fit the address space is less than 128 deep, so `height` holds its
-- depth.
pub size-depth : (t : Tree) → IsAvl t → size t + 1 < 2 ^ 64 → depth t < 128
size-depth t h fits = elim (dec_lt (depth t) 128) [
  | yes p ↦ p
  | no p ↦ absurd (omega (arith, deep-size 64 t h (omega arith)))
]

-- `node_fix_height` at a node whose subtrees are balanced, where the nodes of both fit the address
-- space: it stores the depth of the node, which is at most 128, so the eight bits of the height do
-- not wrap around.
pub node_fix_height_bounds :
    (l : Tree) (c : Cell) (r : Tree)
    → IsAvl l
    → IsAvl r
    → size (node l c r) + 1 < 2 ^ 64
    → (node_fix_height (node l c r) ≡ some (node l (record c { height = depth (node l c r) }) r))
      × (depth (node l c r) ≤ 128)
unfolding node_fix_height
node_fix_height_bounds l c r hl hr fits =
    let both = length-append (entries l) (entry c ∷ entries r) in
    let left = size-depth l hl (omega (arith, both)) in
    let right = size-depth r hr (omega (arith, both)) in
    (rw (fixed_height-depth l r hl hr (omega arith) (omega arith)) refl, omega arith)
