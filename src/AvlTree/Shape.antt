-- ===== src/AvlTree/Shape.antt =====
-- The invariants of the tree: what it holds in order, its depth, and the balance.
use chats.Prelude.{ℕ, suc, ◌+◌, ◌≤◌, ◌<◌, ◌≡◌, refl, List, [], ◌∷◌, ◌++◌, arith, max}
use chats.Prelude.Int.{ℤ}
use chats.AvlTree.Nodes.{Cell, Tree, leaf, node, node_height, fixed_height, set_parent}

-- What a client knows of a node: its identity, its key and its data.
pub record Entry : Type 0 where
  pub addr : ℕ
  pub key : ℤ
  pub data_ : ℕ

abbrev pub entry : Cell → Entry
entry c = record { addr = c.addr; key = c.key; data_ = c.data_ }

-- The nodes in the order of the tree.
abbrev pub entries : Tree → List Entry
entries leaf = []
entries (node l c r) = entries l ++ (entry c ∷ entries r)

abbrev pub depth : Tree → ℕ
depth leaf = 0
depth (node l c r) = suc (max (depth l) (depth r))

-- Depths of siblings differ by one at most, and each node has its depth in `height`.
abbrev pub IsAvl : Tree → Type 0
IsAvl leaf = Unit
IsAvl (node l c r) =
    IsAvl l
    × IsAvl r
    × (c.height ≡ suc (max (depth l) (depth r)))
    × (depth l ≤ depth r + 1)
    × (depth r ≤ depth l + 1)

pub entries-set_parent : (a : ℕ) (t : Tree) → entries (set_parent a t) ≡ entries t
unfolding set_parent
entries-set_parent a leaf = refl
entries-set_parent a (node l c r) = refl

pub depth-set_parent : (a : ℕ) (t : Tree) → depth (set_parent a t) ≡ depth t
unfolding set_parent
depth-set_parent a leaf = refl
depth-set_parent a (node l c r) = refl

pub IsAvl-set_parent : (a : ℕ) (t : Tree) → IsAvl t → IsAvl (set_parent a t)
unfolding set_parent
IsAvl-set_parent a leaf h = tt
IsAvl-set_parent a (node l c r) h = h

pub node_height-depth : (t : Tree) → IsAvl t → node_height t ≡ depth t
unfolding node_height
node_height-depth leaf h = refl
node_height-depth (node l c r) h = h.2

-- The height that is stored does not wrap below depth 255.
pub fixed_height-depth :
    (l r : Tree)
    → IsAvl l
    → IsAvl r
    → depth l < 255
    → depth r < 255
    → fixed_height l r ≡ suc (max (depth l) (depth r))
unfolding fixed_height
fixed_height-depth l r hl hr p q = ground (arith, node_height-depth l hl, node_height-depth r hr)

-- A node after `node_fix_height`.
abbrev pub fixed : Tree → Cell → Tree → Tree
fixed l c r = node l (record c { height = fixed_height l r }) r

pub fixed-IsAvl :
    (l : Tree) (c : Cell) (r : Tree)
    → IsAvl l
    → IsAvl r
    → depth l < 255
    → depth r < 255
    → depth l ≤ depth r + 1
    → depth r ≤ depth l + 1
    → IsAvl (fixed l c r)
fixed-IsAvl l c r hl hr p q a b = (hl, hr, fixed_height-depth l r hl hr p q, a, b)
