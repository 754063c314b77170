-- ===== src/AvlTree/Sorted.antt =====
-- Lists of entries in the order of their keys, as the trees of common/avl-tree.c hold them.
use chats.Prelude.{
  ◌≡◌, refl, ap, ◌≢◌, inl, inr, true, false, List, [], ◌∷◌, ◌++◌, arith, if◌then◌else◌, Bool-cases,
}
use chats.Prelude.Int.{ℤ, ◌≤ℤ◌, ltb_ℤ, pos_part, neg_part}
use chats.AvlTree.Shape.{Entry}

abbrev pub All : (Entry → Type 0) → List Entry → Type 0
All P [] = Unit
All P (e ∷ xs) = P e × All P xs

abbrev pub AtLeast : ℤ → Entry → Type 0
AtLeast key e = key ≤ℤ e.key

abbrev pub AtMost : ℤ → Entry → Type 0
AtMost key e = e.key ≤ℤ key

-- Equal keys may stand side by side: `tree_insert` does not look for the key.
abbrev pub IsSorted : List Entry → Type 0
IsSorted [] = Unit
IsSorted (e ∷ xs) = All (AtLeast e.key) xs × IsSorted xs

abbrev pub IsAbsent : ℤ → List Entry → Type 0
IsAbsent key xs = All (λ e. e.key ≢ key) xs

-- The list with `e` before the first entry of a greater key.
abbrev pub insert_entry : Entry → List Entry → List Entry
insert_entry e [] = e ∷ []
insert_entry e (x ∷ xs) = if ltb_ℤ e.key x.key then e ∷ x ∷ xs else x ∷ insert_entry e xs

-- `Removed key xs ys`: `ys` is `xs` less one entry with `key`.
pub data Removed (key : ℤ) : List Entry → List Entry → Type 0 where
  here : {e : Entry} {xs : List Entry} → e.key ≡ key → Removed key (e ∷ xs) xs
  there : {e : Entry} {xs ys : List Entry} → Removed key xs ys → Removed key (e ∷ xs) (e ∷ ys)

pub All-mono :
    (P Q : Entry → Type 0) → ((e : Entry) → P e → Q e) → (xs : List Entry) → All P xs → All Q xs
All-mono P Q f [] h = tt
All-mono P Q f (e ∷ xs) h = (f e h.0, All-mono P Q f xs h.1)

pub All-append : (P : Entry → Type 0) (xs ys : List Entry) → All P xs → All P ys → All P (xs ++ ys)
All-append P [] ys h k = k
All-append P (e ∷ xs) ys h k = (h.0, All-append P xs ys h.1 k)

pub All-left : (P : Entry → Type 0) (xs ys : List Entry) → All P (xs ++ ys) → All P xs
All-left P [] ys h = tt
All-left P (e ∷ xs) ys h = (h.0, All-left P xs ys h.1)

pub All-right : (P : Entry → Type 0) (xs ys : List Entry) → All P (xs ++ ys) → All P ys
All-right P [] ys h = h
All-right P (e ∷ xs) ys h = All-right P xs ys h.1

-- A sorted list around one of its entries.
pub record Around (xs : List Entry) (e : Entry) (ys : List Entry) : Type 0 where
  pub before : IsSorted xs
  pub low : All (AtMost e.key) xs
  pub high : All (AtLeast e.key) ys
  pub after : IsSorted ys

pub IsSorted-Around :
    (xs : List Entry) (e : Entry) (ys : List Entry) → IsSorted (xs ++ (e ∷ ys)) → Around xs e ys
IsSorted-Around [] e ys h = record { before = tt; low = tt; high = h.0; after = h.1 }
IsSorted-Around (x ∷ xs) e ys h =
    let rest = IsSorted-Around xs e ys h.1 in
    record {
      before = (All-left (AtLeast x.key) xs (e ∷ ys) h.0, rest.before);
      low = ((All-right (AtLeast x.key) xs (e ∷ ys) h.0).0, rest.low);
      high = rest.high;
      after = rest.after;
    }

All-insert_entry :
    (P : Entry → Type 0) (e : Entry) (xs : List Entry) → P e → All P xs → All P (insert_entry e xs)
All-insert_entry P e [] h k = (h, tt)
All-insert_entry P e (x ∷ xs) h k = elim (Bool-cases (ltb_ℤ e.key x.key)) [
  | inl p ↦ rw p (h, k)
  | inr p ↦ rw p (k.0, All-insert_entry P e xs h k.1)
]

at_most_of_not_less : (a b : ℤ) → ltb_ℤ a b ≡ false → b ≤ℤ a
at_most_of_not_less a b h = ground arith

at_most_of_less : (a b : ℤ) → ltb_ℤ a b ≡ true → a ≤ℤ b
at_most_of_less a b h = ground arith

pub insert_entry-IsSorted :
    (e : Entry) (xs : List Entry) → IsSorted xs → IsSorted (insert_entry e xs)
insert_entry-IsSorted e [] h = (tt, tt)
insert_entry-IsSorted e (x ∷ xs) h = elim (Bool-cases (ltb_ℤ e.key x.key)) [
  | inl p ↦ rw p (
    (
      at_most_of_less e.key x.key p,
      All-mono (AtLeast x.key) (AtLeast e.key) (λ y k. omega (arith, at_most_of_less e.key x.key p))
          xs h.0,
    ),
    h,
  )
  | inr p ↦ rw p (
    All-insert_entry (AtLeast x.key) e xs (at_most_of_not_less e.key x.key p) h.0,
    insert_entry-IsSorted e xs h.1,
  )
]

-- An entry whose key is less than that of `c` goes before `c`.
pub insert_entry_before :
    (e c : Entry) (xs ys : List Entry)
    → ltb_ℤ e.key c.key ≡ true
    → insert_entry e (xs ++ (c ∷ ys)) ≡ insert_entry e xs ++ (c ∷ ys)
insert_entry_before e c [] ys h = rw h refl
insert_entry_before e c (x ∷ xs) ys h = elim (Bool-cases (ltb_ℤ e.key x.key)) [
  | inl p ↦ rw p refl
  | inr p ↦ rw p (ap (λ zs. x ∷ zs) (insert_entry_before e c xs ys h))
]

-- Any other one goes behind it.
pub insert_entry_after :
    (e c : Entry) (xs ys : List Entry)
    → ltb_ℤ e.key c.key ≡ false
    → All (AtMost c.key) xs
    → insert_entry e (xs ++ (c ∷ ys)) ≡ xs ++ (c ∷ insert_entry e ys)
insert_entry_after e c [] ys h low = rw h refl
insert_entry_after e c (x ∷ xs) ys h low =
    let stays : ltb_ℤ e.key x.key ≡ false = ground (arith, low.0, h) in
    rw stays (ap (λ zs. x ∷ zs) (insert_entry_after e c xs ys h low.1))

pub Removed-left :
    (key : ℤ) (xs xs' ys : List Entry) → Removed key xs xs' → Removed key (xs ++ ys) (xs' ++ ys)
Removed-left key _ _ ys (here h) = here h
Removed-left key _ _ ys (there {xs = xs} {ys = xs'} r) = there (Removed-left key xs xs' ys r)

pub Removed-right :
    (key : ℤ) (xs ys ys' : List Entry) → Removed key ys ys' → Removed key (xs ++ ys) (xs ++ ys')
Removed-right key [] ys ys' r = r
Removed-right key (x ∷ xs) ys ys' r = there (Removed-right key xs ys ys' r)

ne_of_less : (a b c : ℤ) → ltb_ℤ a b ≡ true → b ≤ℤ c → c ≢ a
ne_of_less a b c h k e = ground (arith, h, k, ap (λ z. pos_part z) e, ap (λ z. neg_part z) e)

ne_of_more : (a b c : ℤ) → ltb_ℤ b a ≡ true → c ≤ℤ b → c ≢ a
ne_of_more a b c h k e = ground (arith, h, k, ap (λ z. pos_part z) e, ap (λ z. neg_part z) e)

-- A key left of `c`, and not among the entries before it, is nowhere.
pub IsAbsent-before :
    (key : ℤ) (xs : List Entry) (c : Entry) (ys : List Entry)
    → ltb_ℤ key c.key ≡ true
    → All (AtLeast c.key) ys
    → IsAbsent key xs
    → IsAbsent key (xs ++ (c ∷ ys))
IsAbsent-before key xs c ys h high none_left =
    All-append (λ e. e.key ≢ key) xs (c ∷ ys) none_left
      (
        ne_of_less key c.key c.key h (omega arith),
        All-mono (AtLeast c.key) (λ e. e.key ≢ key) (λ e. ne_of_less key c.key e.key h) ys high,
      )

pub IsAbsent-after :
    (key : ℤ) (xs : List Entry) (c : Entry) (ys : List Entry)
    → ltb_ℤ c.key key ≡ true
    → All (AtMost c.key) xs
    → IsAbsent key ys
    → IsAbsent key (xs ++ (c ∷ ys))
IsAbsent-after key xs c ys h low none_right =
    All-append (λ e. e.key ≢ key) xs (c ∷ ys)
      (All-mono (AtMost c.key) (λ e. e.key ≢ key) (λ e. ne_of_more key c.key e.key h) xs low)
      (ne_of_more key c.key c.key h (omega arith), none_right)

-- Neither less nor greater.
pub eq_of_not_less : (a b : ℤ) → ltb_ℤ a b ≡ false → ltb_ℤ b a ≡ false → b ≡ a
eq_of_not_less a b h k = ground (arith, h, k)
