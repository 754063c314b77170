-- ===== src/LinkedList/Prepend.antt =====
-- common/list.c: the list behind `list_prepend`.
use chats.Prelude.{
  ℕ, suc, ◌+◌, ◌%◌, ◌<◌, ◌^◌, ◌≡◌, ◌≢◌, refl, sym, ap, ◌∙◌, false, Option, none, some, List, [],
  ◌∷◌, arith, ◌==◌, length,
}
use chats.LinkedList.{
  Ptr, null, data_of, ListElement, LinkedList, Memory, Allocation, put_element, put_list, update,
  set_prev, set_next, link_prev,
}
use chats.LinkedList.Adding.{list_prepend}
use chats.LinkedList.Chain.{first_or, last_or, occurs, element, IsList, Chain-outside}
use chats.LinkedList.Links.{
  not_null, load_list_lem, put_element_self, list_allocate_lem, link_prev-Relinked, link_prev_lem,
  update-put_element,
}
use chats.LinkedList.Growth.{Changed, IsFresh, Chain-put}

last_or-more : (a x : Ptr) (xs : List Ptr) → last_or (a ∷ x ∷ xs) null ≡ last_or (x ∷ xs) null
last_or-more a x xs = refl

-- The list with the element at `a` in front of all others.
prepended :
    (s : Memory) (l a : Ptr) (xs : List Ptr) (is : IsList s l xs)
    → a ≢ null
    → s.elements a ≡ none
    → suc (length xs) < 2 ^ 64
    → (s' : Memory) × (link_prev
          (first_or xs null)
          a
          (put_element a (some (element null (first_or xs null) l)) s)
        ≡ some s')
      × ((head : LinkedList)
          → head.count ≡ suc (length xs)
          → head.first ≡ a
          → head.last ≡ last_or (a ∷ xs) null
          → Changed s (put_list l (some head) s') l xs (a ∷ xs))
prepended s l a xs is n unused room =
    let out : occurs a xs ≡ false = Chain-outside s.elements l null xs null a is.chain unused in
    let new : ListElement = element null (first_or xs null) l in
    let (s', linked, r) =
      link_prev-Relinked (put_element a (some new) s) l null a xs is.distinct
        (Chain-put s a l null (some new) xs null out is.chain) in
    let held : s'.elements a ≡ some new = r.spared a out ∙ put_element_self a (some new) s in
    (
      s',
      linked,
      λ head counted starts ends. record {
        is_list = record {
          not_null = is.not_null;
          head = head;
          known = ground arith;
          counted = counted;
          bounded = room;
          starts = starts;
          ends = ends;
          chain = (n, held, r.chain);
          distinct = (out, is.distinct);
        };
        spared = λ b old young. r.spared b old ∙ ground (arith, young, old);
        others =
            λ k other. ground (arith, ap (λ (f : Ptr → Option LinkedList). f k) r.lists, other);
      },
    )

-- The steps of the code, to the first element and to another.
module _ (fall_off : Ptr → Ptr) (m : Allocation ListElement) (l : Ptr) (s : Memory)
    (f : IsFresh fall_off m s) (head : LinkedList) (n : l ≢ null)
    (known : s.lists l ≡ some head) where
  prepend_first :
      head.count ≡ 0
      → list_prepend fall_off m l s
        ≡ some (
          data_of m.address,
          put_list l
              (some (record head { count = 1; first = m.address; last = m.address }))
              (put_element m.address (some (element null null l)) s),
        )
  unfolding list_prepend
  prepend_first none_yet =
      let a = m.address in
      let e1 : ListElement = element m.contents.prev m.contents.next l in
      let e2 : ListElement = element null m.contents.next l in
      simp
        (
          not_null l n,
          list_allocate_lem fall_off m l s f.given,
          f.returned,
          not_null a f.given,
          update-put_element a (set_prev null) e1 s f.given,
          load_list_lem l (put_element a (some e2) s) n known,
          none_yet,
          update-put_element a (set_next null) e2 s f.given,
        )
        refl

  prepend_next :
      (s' : Memory) (others : ℕ) (first : Ptr)
      → head.count ≡ suc others
      → suc (suc others) < 2 ^ 64
      → head.first ≡ first
      → update first (set_prev m.address) (put_element m.address (some (element null first l)) s)
        ≡ some s'
      → list_prepend fall_off m l s
        ≡ some (
          data_of m.address,
          put_list l (some (record head { count = suc (suc others); first = m.address })) s',
        )
  unfolding list_prepend
  prepend_next s' others first counted room starts linked =
      let a = m.address in
      let e1 : ListElement = element m.contents.prev m.contents.next l in
      let e2 : ListElement = element null m.contents.next l in
      let size : (suc others + 1) % 2 ^ 64 ≡ suc (suc others) = omega arith in
      let several : (suc (suc others) == 1) ≡ false = ground arith in
      simp
        (
          not_null l n,
          list_allocate_lem fall_off m l s f.given,
          f.returned,
          not_null a f.given,
          update-put_element a (set_prev null) e1 s f.given,
          load_list_lem l (put_element a (some e2) s) n known,
          counted,
          size,
          several,
          starts,
          update-put_element a (set_next first) e2 s f.given,
          linked,
        )
        refl

-- `list_prepend` to a list with the elements `xs`, where the allocation succeeds, a body that falls
-- off its end gives its caller the pointer computed last, and the count does not overflow: it returns
-- the data of the new element, which is in front of all others, and changes no other element but its
-- neighbour and no other list.
pub list_prepend-Changed :
    (fall_off : Ptr → Ptr) (m : Allocation ListElement) (l : Ptr) (s : Memory) (xs : List Ptr)
    → IsFresh fall_off m s
    → IsList s l xs
    → suc (length xs) < 2 ^ 64
    → (s' : Memory) × (list_prepend fall_off m l s ≡ some (data_of m.address, s'))
      × Changed s s' l xs (m.address ∷ xs)
unfolding link_prev
list_prepend-Changed fall_off m l s [] f is room =
    let a = m.address in
    let (s', linked, changed) = prepended s l a [] is f.given f.unused room in
    let same : put_element a (some (element null null l)) s ≡ s' = cc in
    let head : LinkedList = record is.head { count = 1; first = a; last = a } in
    (
      put_list l (some head) s',
      prepend_first fall_off m l s f is.head is.not_null is.known is.counted
          ∙ ap (λ (t : Memory). some (data_of a, put_list l (some head) t)) same,
      changed head refl refl refl,
    )
list_prepend-Changed fall_off m l s (x ∷ xs) f is room =
    let a = m.address in
    let (s', linked, changed) = prepended s l a (x ∷ xs) is f.given f.unused room in
    let head : LinkedList = record is.head { count = suc (suc (length xs)); first = a } in
    let updated =
      sym (link_prev_lem x a (put_element a (some (element null x l)) s) is.chain.0) ∙ linked in
    (
      put_list l (some head) s',
      prepend_next fall_off m l s f is.head is.not_null is.known s' (length xs) x is.counted room
          is.starts updated,
      changed head refl refl is.ends,
    )
