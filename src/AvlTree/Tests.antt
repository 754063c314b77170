-- ===== src/AvlTree/Tests.antt =====
-- The theorems on common/avl-tree.c at concrete trees. `tree_insert` and `node_init` return the
-- pointer computed last here, and `q_parent` holds 170.
use chats.Prelude.{ℕ, ◌+◌, ◌≤◌, ◌<◌, ◌≡◌, refl, Option, some, List, [], ◌∷◌, arith}
use chats.Prelude.Int.{pos, negsuc}
use chats.AvlTree.Nodes.{Cell, Tree, leaf, node, node_fix_height, node_balance_factor, set_parent}
use chats.AvlTree.Shape.{entries}
use chats.AvlTree.Find.{Found, avl_tree_get-Found}
use chats.AvlTree.Size.{node_fix_height_bounds}
use chats.AvlTree.Calls.{Call, add, remove, perform, Effect, IsGood, perform-Effect}
use chats.AvlTree.{avl_tree_get}

abbrev garbage : ℕ → ℕ
garbage a = 170

abbrev returned : Tree → Option Tree
returned t = some t

abbrev cell : (addr parent height key : ℕ) → Cell
cell addr parent height key = record {
  addr = addr;
  host = 9;
  parent = parent;
  height = height;
  key = pos key;
  data_ = key + 100;
}

-- What the adds of the keys 1 to 4 make.
abbrev four : Tree
four =
    node (node leaf (cell 11 12 1 1) leaf) (cell 12 170 3 2)
      (node leaf (cell 13 0 2 3) (node leaf (cell 14 0 1 4) leaf))

abbrev four_adds : List Call
four_adds = add (pos 1) 101 11 ∷ add (pos 2) 102 12 ∷ add (pos 3) 103 13 ∷ add (pos 4) 104 14 ∷ []

-- The parent of the root is what was on the stack, and those of 13 and 14 are NULL still.
four_made : perform garbage returned 9 four_adds leaf ≡ some four
unfolding perform node_fix_height node_balance_factor set_parent
four_made = refl

four-IsGood : (room : ℕ) → room < 1000 → IsGood room four
four-IsGood room h = record {
  avl = (
    (tt, tt, refl, omega arith, omega arith),
    (tt, (tt, tt, refl, omega arith, omega arith), refl, omega arith, omega arith),
    refl,
    omega arith,
    omega arith,
  );
  sorted = (
    (omega arith, (omega arith, (omega arith, tt))),
    ((omega arith, (omega arith, tt)), ((omega arith, tt), (tt, tt))),
  );
  fits = omega arith;
}

abbrev calls : List Call
calls = add (pos 5) 105 15 ∷ remove (pos 2) ∷ remove (negsuc 6) ∷ add (pos 3) 106 16 ∷ []

perform-Effect_example :
    (t : Tree) × (perform garbage returned 9 calls four ≡ some t)
    × Effect calls (entries four) (entries t)
    × IsGood 0 t
perform-Effect_example =
    perform-Effect garbage returned (λ t. refl) 9 calls four (four-IsGood 4 (omega arith))

avl_tree_get-Found_example : Found (pos 3) (entries four) (avl_tree_get four (pos 3))
avl_tree_get-Found_example = avl_tree_get-Found four (pos 3) (four-IsGood 0 (omega arith)).sorted

node_fix_height_bounds_example :
    (node_fix_height (node four (cell 20 0 0 9) leaf) ≡ some (node four (cell 20 0 4 9) leaf))
    × (4 ≤ 128)
node_fix_height_bounds_example =
    node_fix_height_bounds four (cell 20 0 0 9) leaf (four-IsGood 0 (omega arith)).avl tt
      (omega arith)
