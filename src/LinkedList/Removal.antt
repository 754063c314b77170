-- ===== src/LinkedList/Removal.antt =====
-- common/list.c: the list behind a removal.
use chats.Prelude.{
  ℕ, suc, ◌+◌, ◌-◌, ◌%◌, ◌<◌, ◌^◌, ◌≡◌, ◌≢◌, refl, sym, ap, ◌∙◌, true, false, Option, none, some,
  List, [], ◌∷◌, ◌++◌, arith, ◌==◌, length, length-append, Bool-cases, inl, inr,
}
use chats.LinkedList.{
  Ptr, null, data_of, data_or_null, LinkedList, Memory, put_element, put_list, get_list_element,
  drop_from, link_next, link_prev, remove_from, list_remove_element, list_remove_next,
  list_remove_prev,
}
use chats.LinkedList.Chain.{
  IsDistinct, first_or, last_or, occurs, occurs-append, element, Chain, IsList, occurs-last_or,
  last_or-append, eq_comm, Chain-frame, Chain-split, Chain-append, occurs_ne, IsDistinct-split,
  IsDistinct-append,
}
use chats.LinkedList.Links.{
  not_null, load_lem, load_list_lem, free_lem, put_element_self, link_prev-Relinked,
  link_next-Relinked,
}
use chats.LinkedList.Growth.{Chain-put}

-- The fields of a list with the elements `xs`.
pub record Describes (head : LinkedList) (xs : List Ptr) : Type 0 where
  pub counted : head.count ≡ length xs
  pub starts : head.first ≡ first_or xs null
  pub ends : head.last ≡ last_or xs null

count_less : (n : ℕ) → suc n < 2 ^ 64 → (suc n + (2 ^ 64 - 1)) % 2 ^ 64 ≡ n
count_less n h = omega arith

drop_from-Describes :
    (head : LinkedList) (p : Ptr) (xs ys : List Ptr)
    → Describes head (xs ++ p ∷ ys)
    → length (xs ++ p ∷ ys) < 2 ^ 64
    → occurs p xs ≡ false
    → occurs p ys ≡ false
    → Describes (drop_from head p (last_or xs null) (first_or ys null)) (xs ++ ys)
unfolding drop_from
drop_from-Describes head p [] [] d b out out' =
    let c : (head.count + (2 ^ 64 - 1)) % 2 ^ 64 ≡ 0 = omega (arith, d.counted) in
    simp c (record { counted = refl; starts = refl; ends = refl })
drop_from-Describes head p [] (y ∷ ys) d b out out' =
    let n : (head.count + (2 ^ 64 - 1)) % 2 ^ 64 ≡ suc (length ys) =
      simp (d.counted) (count_less (suc (length ys)) b) in
    let more : (suc (length ys) == 0) ≡ false = ground arith in
    let not_last : (p == head.last) ≡ false =
      simp (d.ends) (
        eq_comm p (last_or ys y)
        ∙ occurs_ne (last_or ys y) p (y ∷ ys) (occurs-last_or y ys) out') in
    let is_first : (p == head.first) ≡ true = simp (d.starts) (ground arith) in
    simp (n, more, not_last, is_first) (record { counted = refl; starts = refl; ends = d.ends })
drop_from-Describes head p (x ∷ xs) [] d b out out' =
    let size : head.count ≡ suc (suc (length xs)) =
      omega (arith, d.counted, length-append xs (p ∷ [])) in
    let n : (head.count + (2 ^ 64 - 1)) % 2 ^ 64 ≡ suc (length xs) =
      simp size (count_less (suc (length xs)) (omega (arith, b, size, d.counted))) in
    let more : (suc (length xs) == 0) ≡ false = ground arith in
    let is_last : (p == head.last) ≡ true =
      simp (d.ends, last_or-append xs (p ∷ []) x) (ground arith) in
    simp (n, more, is_last)
      (record {
        counted = omega (arith, length-append xs []);
        starts = d.starts;
        ends = sym (last_or-append xs [] x);
      })
drop_from-Describes head p (x ∷ xs) (y ∷ ys) d b out out' =
    let size : head.count ≡ suc (suc (suc (length xs + length ys))) =
      omega (arith, d.counted, length-append xs (p ∷ y ∷ ys)) in
    let n : (head.count + (2 ^ 64 - 1)) % 2 ^ 64 ≡ suc (suc (length xs + length ys)) =
      simp size
        (count_less (suc (suc (length xs + length ys))) (omega (arith, b, size, d.counted))) in
    let more : (suc (suc (length xs + length ys)) == 0) ≡ false = ground arith in
    let ends : head.last ≡ last_or ys y = d.ends ∙ last_or-append xs (p ∷ y ∷ ys) x in
    let not_last : (p == head.last) ≡ false =
      simp ends (
        eq_comm p (last_or ys y)
        ∙ occurs_ne (last_or ys y) p (y ∷ ys) (occurs-last_or y ys) out') in
    let not_first : (p == head.first) ≡ false = simp (d.starts) (ground (arith, out)) in
    simp (n, more, not_last, not_first)
      (record {
        counted = omega (arith, length-append xs (y ∷ ys));
        starts = d.starts;
        ends = ends ∙ sym (last_or-append xs (y ∷ ys) x);
      })

-- The element at `p` was taken out of the list at `l` and freed; the elements outside the list and
-- the other lists are as they were.
pub record Removed (s s' : Memory) (l : Ptr) (xs : List Ptr) (p : Ptr) (ys : List Ptr)
    : Type 0 where
  pub is_list : IsList s' l (xs ++ ys)
  pub freed : s'.elements p ≡ none
  pub spared : (a : Ptr) → occurs a (xs ++ p ∷ ys) ≡ false → s'.elements a ≡ s.elements a
  pub others : (k : Ptr) → k ≢ l → s'.lists k ≡ s.lists k

-- The steps of the code, once the writes of the links are known.
remove_steps :
    (l p prev next : Ptr) (s s1 s2 : Memory) (head : LinkedList)
    → p ≢ null
    → s.elements p ≡ some (element prev next l)
    → link_prev next prev s ≡ some s1
    → link_next prev next s1 ≡ some s2
    → s2.elements p ≡ some (element prev next l)
    → l ≢ null
    → s2.lists l ≡ some head
    → remove_from l (data_of p) s
      ≡ some (
        some (element prev next l),
        put_list l (some (drop_from head p prev next)) (put_element p none s2),
      )
unfolding remove_from
remove_steps l p prev next s s1 s2 head n held linked linked' still nl known =
    let back : get_list_element (data_of p) ≡ p = omega arith in
    let hosted : (l == l) ≡ true = ground arith in
    simp
      (
        back,
        load_lem p s n held,
        hosted,
        linked,
        linked',
        free_lem p s2 n still,
        load_list_lem l (put_element p none s2) nl known,
      )
      refl

-- Two parts of a list that are linked over the element at `p` make a list without it.
unlinked-IsList :
    (l p : Ptr) (s s2 : Memory) (xs ys : List Ptr) (is : IsList s l (xs ++ p ∷ ys))
    → IsDistinct xs
    → IsDistinct ys
    → ((a : Ptr) → occurs a xs ≡ true → occurs a (p ∷ ys) ≡ false)
    → occurs p xs ≡ false
    → occurs p ys ≡ false
    → Chain s2.elements l null xs (first_or ys null)
    → Chain s2.elements l (last_or xs null) ys null
    → IsList
        (put_list l
          (some (drop_from is.head p (last_or xs null) (first_or ys null)))
          (put_element p none s2))
        l
        (xs ++ ys)
unlinked-IsList l p s s2 xs ys is d d' apart p_xs p_ys front behind =
    let after =
      drop_from-Describes is.head p xs ys
        (record { counted = is.counted; starts = is.starts; ends = is.ends }) is.bounded p_xs
        p_ys in
    record {
      not_null = is.not_null;
      head = drop_from is.head p (last_or xs null) (first_or ys null);
      known = ground arith;
      counted = after.counted;
      bounded = omega (arith, is.bounded, length-append xs (p ∷ ys), length-append xs ys);
      starts = after.starts;
      ends = after.ends;
      chain =
          Chain-append (put_element p none s2).elements l null xs ys null
            (Chain-put s2 p l null none xs (first_or ys null) p_xs front)
            (Chain-put s2 p l (last_or xs null) none ys null p_ys behind);
      distinct = IsDistinct-append xs ys d d' (λ a m. ground (arith, apart a m));
    }

pub remove_from-Removed :
    (l p : Ptr) (s : Memory) (xs ys : List Ptr)
    → IsList s l (xs ++ p ∷ ys)
    → (s' : Memory) × (remove_from l (data_of p) s
        ≡ some (some (element (last_or xs null) (first_or ys null) l), s'))
      × Removed s s' l xs p ys
remove_from-Removed l p s xs ys is =
    let (front, here) = Chain-split s.elements l null xs (p ∷ ys) null is.chain in
    let (distinct, distinct', apart) = IsDistinct-split xs (p ∷ ys) is.distinct in
    let p_xs : occurs p xs ≡ false = elim (Bool-cases (occurs p xs)) [
      | inl m ↦ ground (arith, apart p m)
      | inr out ↦ out
    ] in
    let (s1, linked, r) = link_prev-Relinked s l p (last_or xs null) ys distinct'.1 here.2 in
    let front1 : Chain s1.elements l null xs p =
      Chain-frame s.elements s1.elements l null xs p (λ a m. r.spared a (ground (arith, apart a m)))
        front in
    let (s2, linked', r') = link_next-Relinked s1 l xs p (first_or ys null) distinct front1 in
    let behind : Chain s2.elements l (last_or xs null) ys null =
      Chain-frame s1.elements s2.elements l (last_or xs null) ys null
        (λ a m. r'.spared a (disjoint a xs ys (λ b o. ground (arith, apart b o)) m)) r.chain in
    let still : s2.elements p ≡ some (element (last_or xs null) (first_or ys null) l) =
      r'.spared p p_xs ∙ r.spared p distinct'.0 ∙ here.1 in
    let known : s2.lists l ≡ some is.head =
      ap (λ (f : Ptr → Option LinkedList). f l) (r'.lists ∙ r.lists) ∙ is.known in
    (
      put_list l (some (drop_from is.head p (last_or xs null) (first_or ys null)))
          (put_element p none s2),
      remove_steps l p (last_or xs null) (first_or ys null) s s1 s2 is.head here.0 here.1 linked
          linked' still is.not_null known,
      record {
        is_list =
            unlinked-IsList l p s s2 xs ys is distinct distinct'.1 apart p_xs distinct'.0 r'.chain
              behind;
        freed = put_element_self p none s2;
        spared = λ a out. ground (arith, occurs-append a xs (p ∷ ys), out, r'.spared a, r.spared a);
        others = λ k other.
            ground (arith, ap (λ (f : Ptr → Option LinkedList). f k) (r'.lists ∙ r.lists), other);
      },
    )
  where
    disjoint :
        (a : Ptr) (us vs : List Ptr)
        → ((b : Ptr) → occurs b us ≡ true → occurs b vs ≡ false)
        → occurs a vs ≡ true
        → occurs a us ≡ false
    disjoint a us vs apart m = elim (Bool-cases (occurs a us)) [
      | inl o ↦ cc (apart a o)
      | inr out ↦ out
    ]

-- Removing the element at `p` from a list, by any of the three calls: each takes it out, frees it and
-- gives the same memory; `list_remove_next` returns the data of the element behind it,
-- `list_remove_prev` those of the element in front of it, and NULL where there is none.
pub list_remove-Removed :
    (l p : Ptr) (s : Memory) (xs ys : List Ptr)
    → IsList s l (xs ++ p ∷ ys)
    → (s' : Memory) × (list_remove_element l (data_of p) s ≡ some s')
      × (list_remove_next l (data_of p) s ≡ some (data_or_null (first_or ys null), s'))
      × (list_remove_prev l (data_of p) s ≡ some (data_or_null (last_or xs null), s'))
      × Removed s s' l xs p ys
unfolding list_remove_element list_remove_next list_remove_prev
list_remove-Removed l p s xs ys is =
    let (s', done, r) = remove_from-Removed l p s xs ys is in
    let n = not_null l is.not_null in
    (s', simp (n, done) refl, simp (n, done) refl, simp (n, done) refl, r)
