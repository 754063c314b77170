-- ===== src/LinkedList/Growth.antt =====
-- common/list.c: the list behind `list_append`.
use chats.Prelude.{
  ℕ, suc, ◌+◌, ◌%◌, ◌<◌, ◌^◌, ◌≡◌, ◌≢◌, refl, sym, ap, ◌∙◌, false, Option, none, some, List, [],
  ◌∷◌, ◌++◌, arith, ◌==◌, length, length-append,
}
use chats.LinkedList.{
  Ptr, null, data_of, ListElement, LinkedList, Memory, Allocation, put_element, put_list, update,
  set_prev, set_next, link_next,
}
use chats.LinkedList.Adding.{list_append}
use chats.LinkedList.Chain.{
  first_or, last_or, occurs, occurs-append, element, Chain, IsList, occurs-last_or, last_or-append,
  IsDistinct-append, occurs_ne, Chain-occurs, Chain-outside, Chain-frame, Chain-append,
}
use chats.LinkedList.Links.{
  not_null, load_list_lem, put_element_self, list_allocate_lem, link_next-Relinked, link_next_lem,
  update-put_element,
}

-- The list at `l` had the elements `xs` and has the elements `ys`; all other elements and lists are as
-- they were.
pub record Changed (s s' : Memory) (l : Ptr) (xs ys : List Ptr) : Type 0 where
  pub is_list : IsList s' l ys
  pub spared : (a : Ptr) → occurs a xs ≡ false → occurs a ys ≡ false → s'.elements a ≡ s.elements a
  pub others : (k : Ptr) → k ≢ l → s'.lists k ≡ s.lists k

-- A successful allocation of an element, at an address that is not in use.
pub record IsFresh (fall_off : Ptr → Ptr) (m : Allocation ListElement) (s : Memory) : Type 0 where
  pub returned : fall_off m.address ≡ m.address
  pub given : m.address ≢ null
  pub unused : s.elements m.address ≡ none

pub Chain-put :
    (s : Memory) (a l prev : Ptr) (c : Option ListElement) (xs : List Ptr) (stop : Ptr)
    → occurs a xs ≡ false
    → Chain s.elements l prev xs stop
    → Chain (put_element a c s).elements l prev xs stop
Chain-put s a l prev c xs stop out =
    Chain-frame s.elements (put_element a c s).elements l prev xs stop
      (λ b m. ground (arith, occurs_ne b a xs m out))

-- The list with the element at `a` behind all others, where it is the only one and where it is not.
appended :
    (s : Memory) (l a : Ptr) (xs : List Ptr) (is : IsList s l xs)
    → a ≢ null
    → s.elements a ≡ none
    → suc (length xs) < 2 ^ 64
    → (s' : Memory) × (link_next
          (last_or xs null)
          a
          (put_element a (some (element (last_or xs null) null l)) s)
        ≡ some s')
      × ((head : LinkedList)
          → head.count ≡ suc (length xs)
          → head.first ≡ first_or (xs ++ a ∷ []) null
          → head.last ≡ a
          → Changed s (put_list l (some head) s') l xs (xs ++ a ∷ []))
appended s l a xs is n unused room =
    let out : occurs a xs ≡ false = Chain-outside s.elements l null xs null a is.chain unused in
    let new : ListElement = element (last_or xs null) null l in
    let (s', linked, r) =
      link_next-Relinked (put_element a (some new) s) l xs null a is.distinct
        (Chain-put s a l null (some new) xs null out is.chain) in
    let held : s'.elements a ≡ some new = r.spared a out ∙ put_element_self a (some new) s in
    (
      s',
      linked,
      λ head counted starts ends. record {
        is_list = record {
          not_null = is.not_null;
          head = head;
          known = ground arith;
          counted = omega (arith, counted, length-append xs (a ∷ []));
          bounded = omega (arith, room, length-append xs (a ∷ []));
          starts = starts;
          ends = ends ∙ sym (last_or-append xs (a ∷ []) null);
          chain = Chain-append s'.elements l null xs (a ∷ []) null r.chain (n, held, tt);
          distinct =
              IsDistinct-append xs (a ∷ []) is.distinct (refl, tt)
                (λ b m. ground (arith, occurs_ne b a xs m out));
        };
        spared =
            λ b old young. r.spared b old ∙ ground (arith, occurs-append b xs (a ∷ []), young, old);
        others =
            λ k other. ground (arith, ap (λ (f : Ptr → Option LinkedList). f k) r.lists, other);
      },
    )

last_not_null :
    (h : Ptr → Option ListElement) (l x : Ptr) (xs : List Ptr)
    → Chain h l null (x ∷ xs) null
    → last_or xs x ≢ null
last_not_null h l x xs c =
    (Chain-occurs h l null (x ∷ xs) null (last_or xs x) c (occurs-last_or x xs)).0

-- The steps of the code, to the first element and to another.
module _ (fall_off : Ptr → Ptr) (m : Allocation ListElement) (l : Ptr) (s : Memory)
    (f : IsFresh fall_off m s) (head : LinkedList) (n : l ≢ null)
    (known : s.lists l ≡ some head) where
  append_first :
      head.count ≡ 0
      → list_append fall_off m l s
        ≡ some (
          data_of m.address,
          put_list l
              (some (record head { count = 1; first = m.address; last = m.address }))
              (put_element m.address (some (element null null l)) s),
        )
  unfolding list_append
  append_first none_yet =
      let a = m.address in
      let e1 : ListElement = element m.contents.prev m.contents.next l in
      let e2 : ListElement = element m.contents.prev null l in
      simp
        (
          not_null l n,
          list_allocate_lem fall_off m l s f.given,
          f.returned,
          not_null a f.given,
          update-put_element a (set_next null) e1 s f.given,
          load_list_lem l (put_element a (some e2) s) n known,
          none_yet,
          update-put_element a (set_prev null) e2 s f.given,
        )
        refl

  append_next :
      (s' : Memory) (others : ℕ) (last : Ptr)
      → head.count ≡ suc others
      → suc (suc others) < 2 ^ 64
      → head.last ≡ last
      → update last (set_next m.address) (put_element m.address (some (element last null l)) s)
        ≡ some s'
      → list_append fall_off m l s
        ≡ some (
          data_of m.address,
          put_list l (some (record head { count = suc (suc others); last = m.address })) s',
        )
  unfolding list_append
  append_next s' others last counted room ends linked =
      let a = m.address in
      let e1 : ListElement = element m.contents.prev m.contents.next l in
      let e2 : ListElement = element m.contents.prev null l in
      let size : (suc others + 1) % 2 ^ 64 ≡ suc (suc others) = omega arith in
      let several : (suc (suc others) == 1) ≡ false = ground arith in
      simp
        (
          not_null l n,
          list_allocate_lem fall_off m l s f.given,
          f.returned,
          not_null a f.given,
          update-put_element a (set_next null) e1 s f.given,
          load_list_lem l (put_element a (some e2) s) n known,
          counted,
          size,
          several,
          ends,
          update-put_element a (set_prev last) e2 s f.given,
          linked,
        )
        refl

-- `list_append` to a list with the elements `xs`, where the allocation succeeds, a body that falls
-- off its end gives its caller the pointer computed last, and the count does not overflow: it returns
-- the data of the new element, which is behind all others, and changes no other element but its
-- neighbour and no other list.
pub list_append-Changed :
    (fall_off : Ptr → Ptr) (m : Allocation ListElement) (l : Ptr) (s : Memory) (xs : List Ptr)
    → IsFresh fall_off m s
    → IsList s l xs
    → suc (length xs) < 2 ^ 64
    → (s' : Memory) × (list_append fall_off m l s ≡ some (data_of m.address, s'))
      × Changed s s' l xs (xs ++ m.address ∷ [])
unfolding link_next
list_append-Changed fall_off m l s [] f is room =
    let a = m.address in
    let (s', linked, changed) = appended s l a [] is f.given f.unused room in
    let same : put_element a (some (element null null l)) s ≡ s' = cc in
    let head : LinkedList = record is.head { count = 1; first = a; last = a } in
    (
      put_list l (some head) s',
      append_first fall_off m l s f is.head is.not_null is.known is.counted
          ∙ ap (λ (t : Memory). some (data_of a, put_list l (some head) t)) same,
      changed head refl refl refl,
    )
list_append-Changed fall_off m l s (x ∷ xs) f is room =
    let a = m.address in
    let (s', linked, changed) = appended s l a (x ∷ xs) is f.given f.unused room in
    let head : LinkedList = record is.head { count = suc (suc (length xs)); last = a } in
    let updated =
      sym (
        link_next_lem (last_or xs x) a (put_element a (some (element (last_or xs x) null l)) s)
          (last_not_null s.elements l x xs is.chain))
      ∙ linked in
    (
      put_list l (some head) s',
      append_next fall_off m l s f is.head is.not_null is.known s' (length xs) (last_or xs x)
          is.counted room is.ends updated,
      changed head refl is.starts refl,
    )
