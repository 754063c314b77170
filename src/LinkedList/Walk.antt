-- ===== src/LinkedList/Walk.antt =====
-- common/list.c: walking through a list, from either end.
use mathlib.Core.List.{reverse, reverse-cons, reverse-reverse}
use chats.Prelude.{
  ℕ, zero, suc, ◌<◌, ◌≡◌, ◌≢◌, refl, true, false, Option, none, some, List, [], ◌∷◌, arith, ◌==◌,
  length, length-append, map, ◌>>=◌,
}
use chats.LinkedList.{
  Ptr, null, data_of, data_or_null, Memory, get_list_element, list_first_element, list_next_element,
  list_last_element, list_prev_element,
}
use chats.LinkedList.Chain.{first_or, last_or, element, Chain, IsList, Chain-split, last_or-append}
use chats.LinkedList.Links.{not_null, load_lem, load_list_lem}

-- `for (el = list_first_element(l); el; el = list_next_element(l, el))`: the data that the loop meets.
-- `none` is a fault, or a loop that has not ended after the rounds given.
unfoldable pub walk_from : (step : Ptr → Memory → Option Ptr) → ℕ → Ptr → Memory → Option (List Ptr)
walk_from step zero el s = none
walk_from step (suc rounds) el s = elim (el == null) [
  | true ↦ some []
  | false ↦ step el s >>= λ el'. (walk_from step rounds el' s >>= λ rest. some (el ∷ rest))
]

abbrev pub walk : ℕ → (l : Ptr) → Memory → Option (List Ptr)
walk rounds l s = list_first_element l s >>= λ el. walk_from (list_next_element l) rounds el s

abbrev pub walk_back : ℕ → (l : Ptr) → Memory → Option (List Ptr)
walk_back rounds l s = list_last_element l s >>= λ el. walk_from (list_prev_element l) rounds el s

walk_from_step :
    (step : Ptr → Memory → Option Ptr) (rounds p : ℕ) (s : Memory) {el : Ptr}
    → step (data_of p) s ≡ some el
    → walk_from step (suc rounds) (data_of p) s
      ≡ (walk_from step rounds el s >>= λ rest. some (data_of p ∷ rest))
unfolding walk_from
walk_from_step step rounds p s h =
    let n : (data_of p == null) ≡ false = ground arith in rw (n, walk_from, h) refl

-- One step, at an element of a chain.
list_step :
    (p prev next l : Ptr) (s : Memory)
    → p ≢ null
    → s.elements p ≡ some (element prev next l)
    → (list_next_element l (data_of p) s ≡ some (data_or_null next))
      × (list_prev_element l (data_of p) s ≡ some (data_or_null prev))
unfolding list_next_element list_prev_element
list_step p prev next l s n h =
    let back : get_list_element (data_of p) ≡ p = omega arith in
    let ne : (data_of p == null) ≡ false = ground arith in
    (rw (ne, back, load_lem p s n h) refl, rw (ne, back, load_lem p s n h) refl)

walk_from-next :
    (rounds : ℕ) (l prev : Ptr) (xs : List Ptr) (s : Memory)
    → length xs < rounds
    → Chain s.elements l prev xs null
    → walk_from (list_next_element l) rounds (data_or_null (first_or xs null)) s
      ≡ some (map data_of xs)
unfolding walk_from
walk_from-next zero l prev xs s enough c = absurd (omega arith)
walk_from-next (suc rounds) l prev [] s enough c = refl
walk_from-next (suc rounds) l prev (x ∷ xs) s enough c =
    rw
      (
        not_null x c.0,
        walk_from_step (list_next_element l) rounds x s
            (list_step x prev (first_or xs null) l s c.0 c.1).0,
        walk_from-next rounds l x xs s (omega arith) c.2,
      )
      refl

length-reverse : (xs : List Ptr) → length (reverse xs) ≡ length xs
length-reverse [] = refl
length-reverse (x ∷ xs) =
    rw (reverse-cons x xs) (omega (arith, length-append (reverse xs) (x ∷ []), length-reverse xs))

-- Backwards, where `rs` are the elements from the last to the first.
walk_from-prev :
    (rounds : ℕ) (l : Ptr) (rs : List Ptr) (stop : Ptr) (s : Memory)
    → length rs < rounds
    → Chain s.elements l null (reverse rs) stop
    → walk_from (list_prev_element l) rounds (data_or_null (last_or (reverse rs) null)) s
      ≡ some (map data_of rs)
unfolding walk_from
walk_from-prev zero l rs stop s enough c = absurd (omega arith)
walk_from-prev (suc rounds) l [] stop s enough c = refl
walk_from-prev (suc rounds) l (x ∷ rs) stop s enough c =
    let (front, here) =
      Chain-split s.elements l null (reverse rs) (x ∷ []) stop (rw (reverse-cons x rs) at c) in
    rw
      (
        reverse-cons x rs,
        last_or-append (reverse rs) (x ∷ []) null,
        not_null x here.0,
        walk_from_step (list_prev_element l) rounds x s
            (list_step x (last_or (reverse rs) null) stop l s here.0 here.1).1,
        walk_from-prev rounds l rs x s (omega arith) front,
      )
      refl

-- With a round more than the list has elements, the loop from the first element on meets the data of
-- each element once, in order, and ends; and so does the one from the last element on, in the
-- opposite order.
pub walk_lem :
    (rounds : ℕ) (l : Ptr) (s : Memory) (xs : List Ptr)
    → length xs < rounds
    → IsList s l xs
    → (walk rounds l s ≡ some (map data_of xs))
      × (walk_back rounds l s ≡ some (map data_of (reverse xs)))
unfolding list_first_element list_last_element
walk_lem rounds l s xs enough is =
    let found = load_list_lem l s is.not_null is.known in
    let chain : Chain s.elements l null (reverse (reverse xs)) null =
      rw (reverse-reverse xs) (is.chain) in
    let ends : last_or (reverse (reverse xs)) null ≡ last_or xs null =
      rw (reverse-reverse xs) refl in
    (
      simp (found, is.starts) (walk_from-next rounds l null xs s enough is.chain),
      simp (found, is.ends)
          (rw ends at
            (walk_from-prev rounds l (reverse xs) null s (omega (arith, length-reverse xs)) chain)),
    )
