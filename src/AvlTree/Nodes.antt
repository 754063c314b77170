-- ===== src/AvlTree/Nodes.antt =====
-- common/avl-tree.h and the node functions of common/avl-tree.c.
use chats.Prelude.{ℕ, ◌+◌, ◌%◌, ◌^◌, Option, none, some, ltb, if◌then◌else◌}
use chats.Prelude.Int.{ℤ, sub_ℕ}

-- `struct avl_tree_node` less its children. `height` is an `unsigned char`.
pub record Cell : Type 0 where
  pub addr : ℕ
  pub host : ℕ
  pub parent : ℕ
  pub height : ℕ
  pub key : ℤ
  pub data_ : ℕ

pub data Tree : Type 0 where
  leaf : Tree
  node : (left : Tree) → Cell → (right : Tree) → Tree

unfoldable pub node_height : Tree → ℕ
node_height leaf = 0
node_height (node l c r) = c.height

unfoldable pub node_balance_factor : Tree → Option ℤ
unfolding node_height
node_balance_factor leaf = none
node_balance_factor (node l c r) = some (sub_ℕ (node_height r) (node_height l))

unfoldable pub fixed_height : Tree → Tree → ℕ
unfolding node_height
fixed_height l r =
    ((if ltb (node_height r) (node_height l) then node_height l else node_height r) + 1) % 2 ^ 8

unfoldable pub node_fix_height : Tree → Option Tree
unfolding fixed_height
node_fix_height leaf = none
node_fix_height (node l c r) = some (node l (record c { height = fixed_height l r }) r)

-- `if (t) t->parent = parent`
unfoldable pub set_parent : (parent : ℕ) → Tree → Tree
set_parent parent leaf = leaf
set_parent parent (node l c r) = node l (record c { parent = parent }) r

-- The loop of `avl_tree_min`: the cell of the node that it ends at.
unfoldable pub least : Tree → Option Cell
least leaf = none
least (node leaf c r) = some c
least (node (node a b d) c r) = least (node a b d)

-- `avl_tree_max` returns the loop's variable behind the last node, which is NULL.
unfoldable pub max_loop : (right : Tree) → Tree
max_loop leaf = leaf
max_loop (node l c r) = max_loop r

unfoldable pub avl_tree_max : Tree → Option Tree
unfolding max_loop
avl_tree_max leaf = none
avl_tree_max (node l c r) = some (max_loop r)
