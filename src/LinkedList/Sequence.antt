-- ===== src/LinkedList/Sequence.antt =====
-- Lists of common/list.c behind the calls push, pop and look at the front: the interface that
-- common/queue.c and common/stack.c implement, and what any sequence of calls does.
use chats.Prelude.{
  suc, ◌<◌, ◌^◌, ◌≡◌, ◌≢◌, sym, ◌∙◌, Bool, false, Option, none, some, List, [], ◌∷◌, arith, ◌==◌,
  length, ◌||◌, ◌>>=◌, Bool-cases, inl, inr,
}
use chats.LinkedList.{Ptr, null, data_of, data_or_null, ListElement, Memory, Allocation}
use chats.LinkedList.Chain.{first_or, occurs, IsList}
use chats.LinkedList.Growth.{Changed, IsFresh}
use chats.LinkedList.Removal.{Removed}

pub record Container : Type 0 where
  pub push : Allocation ListElement → Ptr → Memory → Option (Ptr × Memory)
  pub pop : Ptr → Memory → Option Memory
  pub front : Ptr → Memory → Option Ptr

-- A container puts a new element where `grown` does, and pops the first one.
pub record IsLawful (fall_off : Ptr → Ptr) (grown : Ptr → List Ptr → List Ptr) (c : Container)
    : Type 0 where
  pub push_lem :
      (m : Allocation ListElement) (l : Ptr) (s : Memory) (xs : List Ptr)
      → IsFresh fall_off m s
      → IsList s l xs
      → suc (length xs) < 2 ^ 64
      → (s' : Memory) × (c.push m l s ≡ some (data_of m.address, s'))
        × Changed s s' l xs (grown m.address xs)
  pub grown_lem : (a b : Ptr) (xs : List Ptr) → occurs a (grown b xs) ≡ ((a == b) || occurs a xs)
  pub pop_lem :
      (l : Ptr) (s : Memory) (x : Ptr) (xs : List Ptr)
      → IsList s l (x ∷ xs)
      → (s' : Memory) × (c.pop l s ≡ some s') × Removed s s' l [] x xs
  pub pop_empty : (l : Ptr) (s : Memory) → IsList s l [] → c.pop l s ≡ none
  pub front_lem :
      (l : Ptr) (s : Memory) (xs : List Ptr)
      → IsList s l xs
      → c.front l s ≡ some (data_or_null (first_or xs null))

pub data Call : Type 0 where
  push : Allocation ListElement → Call
  pop : Call
  front : Call

-- The calls in their order, and the pointers that they return.
unfoldable pub perform : Container → Ptr → List Call → Memory → Option (List Ptr × Memory)
perform c l [] s = some ([], s)
perform c l (Call.push m ∷ calls) s = do
  (d, s1) ← c.push m l s
  (ds, s2) ← perform c l calls s1
  some (d ∷ ds, s2)
perform c l (Call.pop ∷ calls) s = do s1 ← c.pop l s; perform c l calls s1
perform c l (Call.front ∷ calls) s = do
  d ← c.front l s
  (ds, s1) ← perform c l calls s
  some (d ∷ ds, s1)

-- The same calls on the list of elements alone, the first one first. Popping an empty list faults.
unfoldable pub specify :
    (grown : Ptr → List Ptr → List Ptr) → List Call → List Ptr → Option (List Ptr × List Ptr)
specify grown [] xs = some ([], xs)
specify grown (Call.push m ∷ calls) xs = do
  (ds, ys) ← specify grown calls (grown m.address xs)
  some (data_of m.address ∷ ds, ys)
specify grown (Call.pop ∷ calls) [] = none
specify grown (Call.pop ∷ calls) (x ∷ xs) = specify grown calls xs
specify grown (Call.front ∷ calls) xs = do
  (ds, ys) ← specify grown calls xs
  some (data_or_null (first_or xs null) ∷ ds, ys)

-- Every allocation succeeds, and gives an address of the pool `P` that the list does not have.
abbrev pub IsSupplied :
    (fall_off : Ptr → Ptr) (grown : Ptr → List Ptr → List Ptr) (P : Ptr → Type 0)
    → List Call
    → List Ptr
    → Type 0
IsSupplied fall_off grown P [] xs = Unit
IsSupplied fall_off grown P (Call.push m ∷ calls) xs =
    (fall_off m.address ≡ m.address)
    × (m.address ≢ null)
    × P m.address
    × (occurs m.address xs ≡ false)
    × (suc (length xs) < 2 ^ 64)
    × IsSupplied fall_off grown P calls (grown m.address xs)
IsSupplied fall_off grown P (Call.pop ∷ calls) [] = Unit
IsSupplied fall_off grown P (Call.pop ∷ calls) (x ∷ xs) = IsSupplied fall_off grown P calls xs
IsSupplied fall_off grown P (Call.front ∷ calls) xs = IsSupplied fall_off grown P calls xs

-- The addresses of the pool are in use for the list only.
abbrev pub IsPool : (P : Ptr → Type 0) → Memory → List Ptr → Type 0
IsPool P s xs = (a : Ptr) → P a → occurs a xs ≡ false → s.elements a ≡ none

-- The calls return what is specified, and the list has the elements specified; or both fault.
pub data Implements (l : Ptr)
    : Option (List Ptr × List Ptr) → Option (List Ptr × Memory) → Type 0 where
  fault : Implements l none none
  done :
      (ds xs : List Ptr) (s : Memory) → IsList s l xs → Implements l (some (ds, xs)) (some (ds, s))

right_of_or : (b c : Bool) → (b || c) ≡ false → c ≡ false
right_of_or b c h = ground arith

module _ (fall_off : Ptr → Ptr) (grown : Ptr → List Ptr → List Ptr) (c : Container)
    (law : IsLawful fall_off grown c) (P : Ptr → Type 0) (l : Ptr) where
  then_return :
      (d : Ptr) {o : Option (List Ptr × List Ptr)} {r : Option (List Ptr × Memory)}
      → Implements l o r
      → Implements l
          (o >>= λ (p : List Ptr × List Ptr). some (d ∷ p.0, p.1))
          (r >>= λ (p : List Ptr × Memory). some (d ∷ p.0, p.1))
  then_return d fault = fault
  then_return d (done ds xs s is) = done (d ∷ ds) xs s is

  pub perform-Implements :
      (calls : List Call) (s : Memory) (xs : List Ptr)
      → IsSupplied fall_off grown P calls xs
      → IsPool P s xs
      → IsList s l xs
      → Implements l (specify grown calls xs) (perform c l calls s)
  unfolding specify perform
  perform-Implements [] s xs given pool is = done [] xs s is
  perform-Implements (Call.push m ∷ calls) s xs given pool is =
      let (s', pushed, changed) =
        law.push_lem m l s xs
          (record { returned = given.0; given = given.1; unused = pool m.address given.2 given.3 })
          is given.4 in
      let pool' : IsPool P s' (grown m.address xs) = λ a free out.
        let old =
          right_of_or (a == m.address) (occurs a xs) (sym (law.grown_lem a m.address xs) ∙ out) in
        changed.spared a old out ∙ pool a free old in
      rw pushed (
        then_return (data_of m.address)
          (perform-Implements calls s' (grown m.address xs) given.5 pool' changed.is_list))
  perform-Implements (Call.pop ∷ calls) s [] given pool is = rw (law.pop_empty l s is) fault
  perform-Implements (Call.pop ∷ calls) s (x ∷ xs) given pool is =
      let (s', popped, removed) = law.pop_lem l s x xs is in
      let pool' : IsPool P s' xs = λ a free out. elim (Bool-cases (a == x)) [
        | inl here ↦ let same : a ≡ x = ground arith in rw same removed.freed
        | inr other ↦
            let away : occurs a (x ∷ xs) ≡ false = ground (arith, other, out) in
            removed.spared a away ∙ pool a free away
      ] in
      rw popped (perform-Implements calls s' xs given pool' removed.is_list)
  perform-Implements (Call.front ∷ calls) s xs given pool is =
      rw (law.front_lem l s xs is) (
        then_return (data_or_null (first_or xs null)) (perform-Implements calls s xs given pool is))
