-- ===== src/AvlTree.antt =====
-- common/avl-tree.c. A node and what hangs below it is a tree here, the node's own fields being a
-- `Cell`; NULL is `leaf`. Addresses are numbers, and a read or write through NULL is `none`.
pub mod Nodes
pub mod Shape
pub mod Rotations
pub mod Balance
pub mod Sorted
pub mod Insert
pub mod Shrink
pub mod Remove
pub mod Find
pub mod Size
pub mod Calls
mod Tests
use Nodes.{
  Cell, Tree, leaf, node, node_height, node_balance_factor, node_fix_height, set_parent, least,
}
use chats.Prelude.{
  ℕ, ◌+◌, ◌*◌, Bool, true, false, Option, none, some, ◌==◌, if◌then◌else◌, ◌>>=◌, ltb,
}
use chats.Prelude.Int.{ℤ, pos, negsuc, ltb_ℤ}

-- `uninit a` is what the local variable `q_parent` holds in `tree_rotate_left`, which never sets it,
-- at the node of address `a`.
-- `fall_off` is what a caller gets from a function whose body ends without a `return`, `node_init`
-- and `tree_insert` being two, given the pointer that the body computed last.
module _ (uninit : ℕ → ℕ) (fall_off : Tree → Option Tree) where
  unfoldable pub tree_rotate_right : Tree → Option Tree
  tree_rotate_right leaf = none
  tree_rotate_right (node leaf p r) = none
  tree_rotate_right (node (node a q b) p r) = do
    p' ← node_fix_height (node (set_parent p.addr b) (record p { parent = q.addr }) r)
    node_fix_height (node a (record q { parent = p.parent }) p')

  unfoldable pub tree_rotate_left : Tree → Option Tree
  tree_rotate_left leaf = none
  tree_rotate_left (node l q leaf) = none
  tree_rotate_left (node l q (node b p r)) = do
    q' ← node_fix_height (node l (record q { parent = p.addr }) (set_parent q.addr b))
    node_fix_height (node q' (record p { parent = uninit q.addr }) r)

  -- `case +2`
  unfoldable pub balance_right : Tree → Option Tree
  unfolding tree_rotate_right tree_rotate_left
  balance_right leaf = none
  balance_right (node l p r) = do
    factor ← node_balance_factor r
    r' ← (if ltb_ℤ factor (pos 0) then tree_rotate_right r else some r)
    tree_rotate_left (node l p r')

  -- `case -2`
  unfoldable pub balance_left : Tree → Option Tree
  unfolding tree_rotate_right tree_rotate_left
  balance_left leaf = none
  balance_left (node l p r) = do
    factor ← node_balance_factor l
    l' ← (if ltb_ℤ (pos 0) factor then tree_rotate_left l else some l)
    tree_rotate_right (node l' p r)

  -- The `switch` over the balance factor.
  unfoldable pub balance_by : ℤ → Tree → Option Tree
  unfolding balance_left balance_right
  balance_by (pos n) t = if n == 2 then balance_right t else some t
  balance_by (negsuc n) t = if n == 1 then balance_left t else some t

  unfoldable pub tree_balance : Tree → Option Tree
  unfolding balance_by
  tree_balance p = do p' ← node_fix_height p; factor ← node_balance_factor p'; balance_by factor p'

  -- `node_init`, `addr` being what the allocation returns; the allocation is asserted.
  unfoldable pub node_init : (key : ℤ) → (data_ host addr : ℕ) → Option Tree
  node_init key data_ host addr = fall_off (
      node leaf
        (record { addr = addr; host = host; parent = 0; height = 1; key = key; data_ = data_ })
        leaf)

  unfoldable pub tree_insert : Tree → (key : ℤ) → (data_ host addr : ℕ) → Option Tree
  unfolding node_init tree_balance
  tree_insert leaf key data_ host addr = node_init key data_ host addr
  tree_insert (node l p r) key data_ host addr =
      let in_left = tree_insert l key data_ host addr in
      let in_right = tree_insert r key data_ host addr in
      let linked : Option Tree = elim (ltb_ℤ key p.key) [
        | true ↦ in_left >>= λ l'. tree_balance (node l' p r)
        | false ↦ in_right >>= λ r'. tree_balance (node l p r')
      ] in
      linked >>= fall_off

  unfoldable pub tree_remove_minimum_node : Tree → Option Tree
  unfolding tree_balance
  tree_remove_minimum_node leaf = none
  tree_remove_minimum_node (node leaf p r) = some r
  tree_remove_minimum_node (node (node a q b) p r) = do
    l' ← tree_remove_minimum_node (node a q b)
    tree_balance (node l' p r)

  -- The branch of the node that is taken out, whose parent is `p_parent`.
  unfoldable pub take_out : (q r : Tree) → (p_parent : ℕ) → Option Tree
  unfolding tree_remove_minimum_node
  take_out q leaf p_parent = some (set_parent p_parent q)
  take_out q (node a c b) p_parent = do
    min ← least (node a c b)
    r' ← tree_remove_minimum_node (node a c b)
    tree_balance
        (node (set_parent min.addr q) (record min { parent = p_parent }) (set_parent min.addr r'))

  unfoldable pub tree_remove_node : Tree → (key : ℤ) → Option Tree
  unfolding take_out
  tree_remove_node leaf key = some leaf
  tree_remove_node (node l p r) key =
      let from_left = tree_remove_node l key in
      let from_right = tree_remove_node r key in
      elim (ltb_ℤ key p.key) [
        | true ↦ from_left >>= λ l'. tree_balance (node l' p r)
        | false ↦ elim (ltb_ℤ p.key key) [
          | true ↦ from_right >>= λ r'. tree_balance (node l p r')
          | false ↦ take_out l r p.parent
        ]
      ]

  -- `avl_tree_add` and `avl_tree_remove`: the new value of `root`. The host is the tree's address.
  unfoldable pub avl_tree_add : (root : Tree) → (key : ℤ) → (data_ avl_tree addr : ℕ) → Option Tree
  unfolding tree_insert
  avl_tree_add root key data_ avl_tree addr = tree_insert root key data_ avl_tree addr

  unfoldable pub avl_tree_remove : (root : Tree) → (key : ℤ) → Option Tree
  unfolding tree_remove_node
  avl_tree_remove root key = tree_remove_node root key

-- `tree_find`: the cell of the node found.
unfoldable pub tree_find : Tree → (key : ℤ) → Option Cell
tree_find leaf key = none
tree_find (node l p r) key =
    if ltb_ℤ key p.key then tree_find l key else if ltb_ℤ p.key key then tree_find r key else some p

unfoldable pub avl_tree_init : Tree
avl_tree_init = leaf

unfoldable pub avl_tree_get : (root : Tree) → (key : ℤ) → Option Cell
unfolding tree_find
avl_tree_get root key = tree_find root key
