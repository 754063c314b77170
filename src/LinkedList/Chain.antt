-- ===== src/LinkedList/Chain.antt =====
-- Chains of elements of common/list.c: which elements a list has, in order, and what a change of the
-- memory leaves of them.
use mathlib.Core.Bool.{or_assoc}
use chats.Prelude.{
  ◌<◌, ◌^◌, ◌≡◌, ◌≢◌, refl, sym, ◌∙◌, Bool, true, false, ◌||◌, Option, none, some, List, [], ◌∷◌,
  ◌++◌, arith, ◌==◌, length, Bool-cases, inl, inr,
}
use chats.LinkedList.{Ptr, null, ListElement, LinkedList, Memory, write}

abbrev pub first_or : List Ptr → Ptr → Ptr
first_or [] d = d
first_or (x ∷ xs) d = x

abbrev pub last_or : List Ptr → Ptr → Ptr
last_or [] d = d
last_or (x ∷ xs) d = last_or xs x

abbrev pub occurs : Ptr → List Ptr → Bool
occurs a [] = false
occurs a (x ∷ xs) = (a == x) || occurs a xs

abbrev pub IsDistinct : List Ptr → Type 0
IsDistinct [] = Unit
IsDistinct (x ∷ xs) = (occurs x xs ≡ false) × IsDistinct xs

abbrev pub Elements : Type 0
Elements = Ptr → Option ListElement

abbrev pub element : (prev next host : Ptr) → ListElement
element prev next host = record { prev = prev; next = next; host = host }

-- The elements `xs` of the list `l` follow each other between `prev` and `stop`.
abbrev pub Chain : Elements → (l prev : Ptr) → List Ptr → (stop : Ptr) → Type 0
Chain h l prev [] stop = Unit
Chain h l prev (x ∷ xs) stop =
    (x ≢ null) × (h x ≡ some (element prev (first_or xs stop) l)) × Chain h l x xs stop

-- The list at `l` has the elements `xs`, in order.
pub record IsList (s : Memory) (l : Ptr) (xs : List Ptr) : Type 0 where
  pub not_null : l ≢ null
  pub head : LinkedList
  pub known : s.lists l ≡ some head
  pub counted : head.count ≡ length xs
  pub bounded : length xs < 2 ^ 64
  pub starts : head.first ≡ first_or xs null
  pub ends : head.last ≡ last_or xs null
  pub chain : Chain s.elements l null xs null
  pub distinct : IsDistinct xs

-- `g` differs from `h` at most at the addresses of `xs`.
abbrev pub SameOutside : List Ptr → Elements → Elements → Type 0
SameOutside xs h g = (a : Ptr) → occurs a xs ≡ false → g a ≡ h a

pub occurs-append :
    (a : Ptr) (xs ys : List Ptr) → occurs a (xs ++ ys) ≡ (occurs a xs || occurs a ys)
occurs-append a [] ys = refl
occurs-append a (x ∷ xs) ys = rw (occurs-append a xs ys, or_assoc)

pub outside_parts :
    (a : Ptr) (xs ys : List Ptr)
    → occurs a (xs ++ ys) ≡ false
    → (occurs a xs ≡ false) × (occurs a ys ≡ false)
outside_parts a xs ys out =
    let parts : (occurs a xs || occurs a ys) ≡ false = sym (occurs-append a xs ys) ∙ out in
    (ground arith, ground arith)

pub first_or-append :
    (xs ys : List Ptr) (d : Ptr) → first_or (xs ++ ys) d ≡ first_or xs (first_or ys d)
first_or-append [] ys d = refl
first_or-append (x ∷ xs) ys d = refl

pub last_or-append : (xs ys : List Ptr) (d : Ptr) → last_or (xs ++ ys) d ≡ last_or ys (last_or xs d)
last_or-append [] ys d = refl
last_or-append (x ∷ xs) ys d = last_or-append xs ys x

pub occurs-last_or : (x : Ptr) (xs : List Ptr) → occurs (last_or xs x) (x ∷ xs) ≡ true
occurs-last_or x [] = ground arith
occurs-last_or x (y ∷ xs) = ground (arith, occurs-last_or y xs)

pub occurs_ne :
    (a b : Ptr) (xs : List Ptr) → occurs a xs ≡ true → occurs b xs ≡ false → (a == b) ≡ false
occurs_ne a b [] m out = cc
occurs_ne a b (x ∷ xs) m out = elim (Bool-cases (a == x)) [
  | inl here ↦ ground arith
  | inr there ↦ occurs_ne a b xs (ground arith) (ground arith)
]

pub eq_comm : (a b : Ptr) → (a == b) ≡ (b == a)
eq_comm a b = ground arith

-- A chain in parts.
pub Chain-append :
    (h : Elements) (l prev : Ptr) (xs ys : List Ptr) (stop : Ptr)
    → Chain h l prev xs (first_or ys stop)
    → Chain h l (last_or xs prev) ys stop
    → Chain h l prev (xs ++ ys) stop
Chain-append h l prev [] ys stop c d = d
Chain-append h l prev (x ∷ xs) ys stop c d =
    (c.0, rw (first_or-append xs ys stop) c.1, Chain-append h l x xs ys stop c.2 d)

pub Chain-split :
    (h : Elements) (l prev : Ptr) (xs ys : List Ptr) (stop : Ptr)
    → Chain h l prev (xs ++ ys) stop
    → Chain h l prev xs (first_or ys stop) × Chain h l (last_or xs prev) ys stop
Chain-split h l prev [] ys stop c = (tt, c)
Chain-split h l prev (x ∷ xs) ys stop c =
    let rest = Chain-split h l x xs ys stop c.2 in
    ((c.0, rw (sym (first_or-append xs ys stop)) c.1, rest.0), rest.1)

-- A chain survives what spares its elements.
pub Chain-frame :
    (h g : Elements) (l prev : Ptr) (xs : List Ptr) (stop : Ptr)
    → ((a : Ptr) → occurs a xs ≡ true → g a ≡ h a)
    → Chain h l prev xs stop
    → Chain g l prev xs stop
Chain-frame h g l prev [] stop same c = tt
Chain-frame h g l prev (x ∷ xs) stop same c = (
  c.0,
  ground (arith, same x, c.1),
  Chain-frame h g l x xs stop (λ a m. same a (ground arith)) c.2,
)

pub Chain-occurs :
    (h : Elements) (l prev : Ptr) (xs : List Ptr) (stop a : Ptr)
    → Chain h l prev xs stop
    → occurs a xs ≡ true
    → (a ≢ null) × ((e : ListElement) × (h a ≡ some e) × (e.host ≡ l))
Chain-occurs h l prev [] stop a c m = cc
Chain-occurs h l prev (x ∷ xs) stop a c m = elim (Bool-cases (a == x)) [
  | inl here ↦
      let same : a ≡ x = ground arith in
      rw same (c.0, (element prev (first_or xs stop) l, c.1, refl))
  | inr there ↦ Chain-occurs h l x xs stop a c.2 (ground arith)
]

-- Where nothing is stored, there is no element of a chain.
pub Chain-outside :
    (h : Elements) (l prev : Ptr) (xs : List Ptr) (stop a : Ptr)
    → Chain h l prev xs stop
    → h a ≡ none
    → occurs a xs ≡ false
Chain-outside h l prev xs stop a c free = elim (Bool-cases (occurs a xs)) [
  | inl m ↦ let (e, held, host) = (Chain-occurs h l prev xs stop a c m).1 in cc
  | inr out ↦ out
]

-- Giving the last element another successor.
pub Chain-end :
    (h : Elements) (l prev x : Ptr) (xs : List Ptr) (stop stop' : Ptr)
    → IsDistinct (x ∷ xs)
    → Chain h l prev (x ∷ xs) stop
    → (before : Ptr) × (h (last_or xs x) ≡ some (element before stop l))
      × Chain (write h (last_or xs x) (some (element before stop' l))) l prev (x ∷ xs) stop'
Chain-end h l prev x [] stop stop' d c = (prev, c.1, (c.0, ground arith, tt))
Chain-end h l prev x (y ∷ xs) stop stop' d c =
    let apart : (last_or xs y == x) ≡ false =
      occurs_ne (last_or xs y) x (y ∷ xs) (occurs-last_or y xs) d.0 in
    let (before, held, rest) = Chain-end h l x y xs stop stop' d.1 c.2 in
    (before, held, (c.0, rw (eq_comm x (last_or xs y), apart) c.1, rest))

-- Giving the first element another predecessor.
pub Chain-start :
    (h : Elements) (l prev prev' x : Ptr) (xs : List Ptr) (stop : Ptr)
    → IsDistinct (x ∷ xs)
    → Chain h l prev (x ∷ xs) stop
    → Chain (write h x (some (element prev' (first_or xs stop) l))) l prev' (x ∷ xs) stop
Chain-start h l prev prev' x xs stop d c = (
  c.0,
  ground arith,
  Chain-frame h (write h x (some (element prev' (first_or xs stop) l))) l x xs stop
      (λ a m. ground (arith, d.0)) c.2,
)

pub IsDistinct-append :
    (xs ys : List Ptr)
    → IsDistinct xs
    → IsDistinct ys
    → ((a : Ptr) → occurs a xs ≡ true → occurs a ys ≡ false)
    → IsDistinct (xs ++ ys)
IsDistinct-append [] ys d e apart = e
IsDistinct-append (x ∷ xs) ys d e apart = (
  rw (occurs-append x xs ys) (ground (arith, d.0, apart x)),
  IsDistinct-append xs ys d.1 e (λ a m. apart a (ground arith)),
)

pub IsDistinct-split :
    (xs ys : List Ptr)
    → IsDistinct (xs ++ ys)
    → IsDistinct xs × IsDistinct ys × ((a : Ptr) → occurs a xs ≡ true → occurs a ys ≡ false)
IsDistinct-split [] ys d = (tt, d, λ a m. cc)
IsDistinct-split (x ∷ xs) ys d =
    let rest = IsDistinct-split xs ys d.1 in
    (
      (ground (arith, d.0, occurs-append x xs ys), rest.0),
      rest.1,
      λ a m. elim (Bool-cases (a == x)) [
        | inl here ↦ ground (arith, here, d.0, occurs-append x xs ys)
        | inr there ↦ rest.2 a (ground arith)
      ],
    )
