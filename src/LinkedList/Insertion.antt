-- ===== src/LinkedList/Insertion.antt =====
-- common/list.c: the list behind `list_add_after` and `list_add_before`.
use chats.Prelude.{
  suc, ◌+◌, ◌%◌, ◌<◌, ◌^◌, ◌≡◌, ◌≢◌, refl, sym, ap, ◌∙◌, true, false, Option, some, List, ◌∷◌, ◌++◌,
  arith, ◌==◌, length, if◌then◌else◌, Bool-cases, inl, inr,
}
use chats.LinkedList.{
  Ptr, null, data_of, ListElement, LinkedList, Memory, Allocation, put_element, put_list,
  get_list_element, update, set_prev, set_next, link_next, link_prev,
}
use chats.LinkedList.Adding.{list_add_after, list_add_before}
use chats.LinkedList.Chain.{
  first_or, last_or, occurs, outside_parts, element, Chain, IsList, occurs-last_or,
  IsDistinct-split, Chain-occurs, Chain-outside, Chain-frame, Chain-split, Chain-end,
}
use chats.LinkedList.Links.{
  not_null, load_lem, load_list_lem, list_allocate_lem, link_next-Relinked, link_prev-Relinked,
  link_next_lem, link_prev_lem, update-put_element,
}
use chats.LinkedList.Growth.{IsFresh, Chain-put}
use chats.LinkedList.Joining.{Inserted, Joined-Inserted, Joined-front, Joined-back}

-- The test of the code changes nothing on either branch.
set_same : (el p : Ptr) → (if el == p then el else p) ≡ p
set_same el p = ground arith

module _ (fall_off : Ptr → Ptr) (m : Allocation ListElement) (l p prev next : Ptr) (s : Memory)
    (f : IsFresh fall_off m s) (n : p ≢ null) (held : s.elements p ≡ some (element prev next l))
    (nl : l ≢ null) where
  other_one : (p == m.address) ≡ false
  other_one = elim (Bool-cases (p == m.address)) [
    | inl same ↦ let e : p ≡ m.address = ground arith in cc (f.unused)
    | inr other ↦ other
  ]

  still :
      (c : Option ListElement) → (put_element m.address c s).elements p ≡ some (element prev next l)
  still c = rw other_one held

  add_after_steps :
      (s1 s2 : Memory) (head : LinkedList)
      → update p (set_next m.address) (put_element m.address (some (element p next l)) s) ≡ some s1
      → link_prev next m.address s1 ≡ some s2
      → s2.lists l ≡ some head
      → list_add_after fall_off m l (data_of p) s
        ≡ some (
          data_of m.address,
          put_list l (some (record head { count = (head.count + 1) % 2 ^ 64 })) s2,
        )
  unfolding list_add_after
  add_after_steps s1 s2 head linked linked' known =
      let a = m.address in
      let e1 : ListElement = element m.contents.prev m.contents.next l in
      let e2 : ListElement = element m.contents.prev next l in
      let back : get_list_element (data_of p) ≡ p = omega arith in
      let ne : (data_of p == null) ≡ false = ground arith in
      let hosted : (l == l) ≡ true = ground arith in
      simp
        (
          not_null l nl,
          ne,
          back,
          load_lem p s n held,
          hosted,
          list_allocate_lem fall_off m l s f.given,
          f.returned,
          not_null a f.given,
          load_lem p (put_element a (some e1) s) n (still (some e1)),
          update-put_element a (set_next next) e1 s f.given,
          update-put_element a (set_prev p) e2 s f.given,
          linked,
          linked',
          load_list_lem l s2 nl known,
          set_same (data_of p) head.last,
        )
        refl

  add_before_steps :
      (s1 s2 : Memory) (head : LinkedList)
      → update p (set_prev m.address) (put_element m.address (some (element prev p l)) s) ≡ some s1
      → link_next prev m.address s1 ≡ some s2
      → s2.lists l ≡ some head
      → list_add_before fall_off m l (data_of p) s
        ≡ some (
          data_of m.address,
          put_list l (some (record head { count = (head.count + 1) % 2 ^ 64 })) s2,
        )
  unfolding list_add_before
  add_before_steps s1 s2 head linked linked' known =
      let a = m.address in
      let e1 : ListElement = element m.contents.prev m.contents.next l in
      let e2 : ListElement = element prev m.contents.next l in
      let back : get_list_element (data_of p) ≡ p = omega arith in
      let ne : (data_of p == null) ≡ false = ground arith in
      let hosted : (l == l) ≡ true = ground arith in
      simp
        (
          not_null l nl,
          ne,
          back,
          load_lem p s n held,
          hosted,
          list_allocate_lem fall_off m l s f.given,
          f.returned,
          not_null a f.given,
          load_lem p (put_element a (some e1) s) n (still (some e1)),
          update-put_element a (set_prev prev) e1 s f.given,
          update-put_element a (set_next p) e2 s f.given,
          linked,
          linked',
          load_list_lem l s2 nl known,
          set_same (data_of p) head.first,
        )
        refl

-- `list_add_after` behind the last of the elements `x ∷ xs` of a list that goes on with `ys`, where the
-- allocation succeeds, a body that falls off its end gives its caller the pointer computed last, and
-- the count does not overflow: it returns the data of the new element, which is linked in between
-- and counted. The element recorded as the last one stays, also where the new one stands behind it.
pub list_add_after-Inserted :
    (fall_off : Ptr → Ptr) (m : Allocation ListElement) (l : Ptr) (s : Memory) (x : Ptr)
    (xs ys : List Ptr)
    → IsFresh fall_off m s
    → IsList s l ((x ∷ xs) ++ ys)
    → suc (length ((x ∷ xs) ++ ys)) < 2 ^ 64
    → (s' : Memory) × (list_add_after fall_off m l (data_of (last_or xs x)) s
        ≡ some (data_of m.address, s'))
      × Inserted s s' l ((x ∷ xs) ++ ys) ((x ∷ xs) ++ m.address ∷ ys)
list_add_after-Inserted fall_off m l s x xs ys f is room =
    let a = m.address in
    let us = x ∷ xs in
    let p = last_or xs x in
    let next = first_or ys null in
    let (c, c') = Chain-split s.elements l null us ys null is.chain in
    let (d, d', apart) = IsDistinct-split us ys is.distinct in
    let out : occurs a (us ++ ys) ≡ false =
      Chain-outside s.elements l null (us ++ ys) null a is.chain f.unused in
    let (out_us, out_ys) = outside_parts a us ys out in
    let (prev, held, rest) = Chain-end s.elements l null x xs next a d c in
    let n = (Chain-occurs s.elements l null us next p c (occurs-last_or x xs)).0 in
    let new : ListElement = element p next l in
    let s0 : Memory = put_element a (some new) s in
    let (s1, linked, r) =
      link_next-Relinked s0 l us next a d (Chain-put s a l null (some new) us next out_us c) in
    let back1 : Chain s1.elements l p ys null =
      Chain-frame s0.elements s1.elements l p ys null (λ b o. r.spared b (apart' apart b o))
        (Chain-put s a l p (some new) ys null out_ys c') in
    let (s2, linked', r') = link_prev-Relinked s1 l p a ys d' back1 in
    let known : s2.lists l ≡ some is.head =
      ap (λ (g : Ptr → Option LinkedList). g l) (r'.lists ∙ r.lists) ∙ is.known in
    (
      put_list l (some (record is.head { count = (is.head.count + 1) % 2 ^ 64 })) s2,
      add_after_steps fall_off m l p prev next s f n held is.not_null s1 s2 is.head
          (sym (link_next_lem p a s0 n) ∙ linked) linked' known,
      Joined-Inserted s s2 l a us ys is f.given out room
          (Joined-front s s1 s2 l a us ys out_us out_ys apart r r'),
    )
  where
    apart' :
        ((b : Ptr) → occurs b (x ∷ xs) ≡ true → occurs b ys ≡ false)
        → (b : Ptr) → occurs b ys ≡ true
        → occurs b (x ∷ xs) ≡ false
    apart' apart b o = elim (Bool-cases (occurs b (x ∷ xs))) [
      | inl m ↦ cc (apart b m)
      | inr free ↦ free
    ]

-- `list_add_before` in front of the first of the elements `y ∷ ys` of a list that begins with `us`,
-- under the same conditions: it returns the data of the new element, which is linked in between and
-- counted. The element recorded as the first one stays, also where the new one stands in front of
-- it.
pub list_add_before-Inserted :
    (fall_off : Ptr → Ptr) (m : Allocation ListElement) (l : Ptr) (s : Memory) (us : List Ptr)
    (y : Ptr) (ys : List Ptr)
    → IsFresh fall_off m s
    → IsList s l (us ++ y ∷ ys)
    → suc (length (us ++ y ∷ ys)) < 2 ^ 64
    → (s' : Memory) × (list_add_before fall_off m l (data_of y) s ≡ some (data_of m.address, s'))
      × Inserted s s' l (us ++ y ∷ ys) (us ++ m.address ∷ y ∷ ys)
list_add_before-Inserted fall_off m l s us y ys f is room =
    let a = m.address in
    let prev = last_or us null in
    let (c, c') = Chain-split s.elements l null us (y ∷ ys) null is.chain in
    let (d, d', apart) = IsDistinct-split us (y ∷ ys) is.distinct in
    let out : occurs a (us ++ y ∷ ys) ≡ false =
      Chain-outside s.elements l null (us ++ y ∷ ys) null a is.chain f.unused in
    let (out_us, out_ys) = outside_parts a us (y ∷ ys) out in
    let new : ListElement = element prev y l in
    let s0 : Memory = put_element a (some new) s in
    let (s1, linked, r) =
      link_prev-Relinked s0 l prev a (y ∷ ys) d'
        (Chain-put s a l prev (some new) (y ∷ ys) null out_ys c') in
    let front1 : Chain s1.elements l null us y =
      Chain-frame s0.elements s1.elements l null us y (λ b o. r.spared b (apart b o))
        (Chain-put s a l null (some new) us y out_us c) in
    let (s2, linked', r') = link_next-Relinked s1 l us y a d front1 in
    let known : s2.lists l ≡ some is.head =
      ap (λ (g : Ptr → Option LinkedList). g l) (r'.lists ∙ r.lists) ∙ is.known in
    (
      put_list l (some (record is.head { count = (is.head.count + 1) % 2 ^ 64 })) s2,
      add_before_steps fall_off m l y prev (first_or ys null) s f c'.0 c'.1 is.not_null s1 s2
          is.head (sym (link_prev_lem y a s0 c'.0) ∙ linked) linked' known,
      Joined-Inserted s s2 l a us (y ∷ ys) is f.given out room
          (Joined-back s s1 s2 l a us (y ∷ ys) out_us out_ys apart r r'),
    )
