-- ===== src/LinkedList/Links.antt =====
-- common/list.c: what single reads and writes do to a chain of elements.
use mathlib.Core.Path.{fun_ext}
use chats.Prelude.{◌≡◌, ◌≢◌, refl, false, Option, none, some, List, [], ◌∷◌, arith, ◌==◌}
use chats.LinkedList.{
  Ptr, null, ListElement, LinkedList, Memory, Allocation, put_element, load, update, load_list,
  free, set_prev, set_next, link_next, link_prev,
}
use chats.LinkedList.Adding.{list_allocate}
use chats.LinkedList.Chain.{
  first_or, last_or, IsDistinct, element, Chain, SameOutside, occurs-last_or, occurs_ne,
  Chain-occurs, Chain-end, Chain-start,
}

pub not_null : (p : Ptr) → p ≢ null → (p == null) ≡ false
not_null p h = ground arith

pub load_lem :
    (p : Ptr) (s : Memory) {e : ListElement} → p ≢ null → s.elements p ≡ some e → load p s ≡ some e
unfolding load
load_lem p s n h = rw (not_null p n, h)

pub load_list_lem :
    (l : Ptr) (s : Memory) {head : LinkedList}
    → l ≢ null
    → s.lists l ≡ some head
    → load_list l s ≡ some head
unfolding load_list
load_list_lem l s n h = rw (not_null l n, h)

pub update_lem :
    (p : Ptr) (f : ListElement → ListElement) (s : Memory) {e : ListElement}
    → p ≢ null
    → s.elements p ≡ some e
    → update p f s ≡ some (put_element p (some (f e)) s)
unfolding update
update_lem p f s n h = rw (load_lem p s n h)

pub free_lem :
    (p : Ptr) (s : Memory) {e : ListElement}
    → p ≢ null
    → s.elements p ≡ some e
    → free p s ≡ some (put_element p none s)
unfolding free
free_lem p s n h = rw (load_lem p s n h)

pub put_element_self :
    (p : Ptr) (c : Option ListElement) (s : Memory) → (put_element p c s).elements p ≡ c
put_element_self p c s = ground arith

pub put_element_twice :
    (p : Ptr) (c d : Option ListElement) (s : Memory)
    → put_element p d (put_element p c s) ≡ put_element p d s
put_element_twice p c d s = λ i. record s { elements = fun_ext (λ a. same a) i }
  where
    same :
        (a : Ptr)
        → (put_element p d (put_element p c s)).elements a ≡ (put_element p d s).elements a
    same a = ground arith

-- What `list_allocate` gives where the allocation succeeds.
pub list_allocate_lem :
    (fall_off : Ptr → Ptr) (m : Allocation ListElement) (l : Ptr) (s : Memory)
    → m.address ≢ null
    → list_allocate fall_off m l s
      ≡ some (
        fall_off m.address,
        put_element m.address (some (element m.contents.prev m.contents.next l)) s,
      )
unfolding list_allocate
list_allocate_lem fall_off m l s n =
    rw
      (
        not_null m.address n,
        update_lem m.address (λ e. record e { host = l })
            (put_element m.address (some m.contents) s) n
            (put_element_self m.address (some m.contents) s),
        put_element_twice m.address (some m.contents)
            (some (element m.contents.prev m.contents.next l)) s,
      )
      refl

-- The outcome of a write of one link: a chain with its new neighbour, and nothing else changed.
pub record Relinked (s s' : Memory) (l prev : Ptr) (xs : List Ptr) (stop : Ptr) : Type 0 where
  pub chain : Chain s'.elements l prev xs stop
  pub spared : SameOutside xs s.elements s'.elements
  pub lists : s'.lists ≡ s.lists

pub link_next-Relinked :
    (s : Memory) (l : Ptr) (xs : List Ptr) (stop stop' : Ptr)
    → IsDistinct xs
    → Chain s.elements l null xs stop
    → (s' : Memory) × (link_next (last_or xs null) stop' s ≡ some s')
      × Relinked s s' l null xs stop'
unfolding link_next
link_next-Relinked s l [] stop stop' d c =
    (s, refl, record { chain = tt; spared = λ a out. refl; lists = refl })
link_next-Relinked s l (x ∷ xs) stop stop' d c =
    let (before, held, chain) = Chain-end s.elements l null x xs stop stop' d c in
    let present = occurs-last_or x xs in
    let n = (Chain-occurs s.elements l null (x ∷ xs) stop (last_or xs x) c present).0 in
    (
      put_element (last_or xs x) (some (element before stop' l)) s,
      rw (not_null (last_or xs x) n, update_lem (last_or xs x) (set_next stop') s n held) refl,
      record {
        chain = chain;
        spared = λ a out. rw (a_ne a (occurs_ne (last_or xs x) a (x ∷ xs) present out)) refl;
        lists = refl;
      },
    )
  where
    a_ne : (a : Ptr) → (last_or xs x == a) ≡ false → (a == last_or xs x) ≡ false
    a_ne a h = ground arith

pub link_prev-Relinked :
    (s : Memory) (l prev prev' : Ptr) (xs : List Ptr)
    → IsDistinct xs
    → Chain s.elements l prev xs null
    → (s' : Memory) × (link_prev (first_or xs null) prev' s ≡ some s')
      × Relinked s s' l prev' xs null
unfolding link_prev
link_prev-Relinked s l prev prev' [] d c =
    (s, refl, record { chain = tt; spared = λ a out. refl; lists = refl })
link_prev-Relinked s l prev prev' (x ∷ xs) d c = (
  put_element x (some (element prev' (first_or xs null) l)) s,
  rw (not_null x c.0, update_lem x (set_prev prev') s c.0 c.1) refl,
  record {
    chain = Chain-start s.elements l prev prev' x xs null d c;
    spared = λ a out. ground arith;
    lists = refl;
  },
)

pub link_next_lem : (p q : Ptr) (s : Memory) → p ≢ null → link_next p q s ≡ update p (set_next q) s
unfolding link_next
link_next_lem p q s n = rw (not_null p n) refl

pub link_prev_lem : (p q : Ptr) (s : Memory) → p ≢ null → link_prev p q s ≡ update p (set_prev q) s
unfolding link_prev
link_prev_lem p q s n = rw (not_null p n) refl

-- A write to an element that was written just before.
pub update-put_element :
    (p : Ptr) (f : ListElement → ListElement) (e : ListElement) (s : Memory)
    → p ≢ null
    → update p f (put_element p (some e) s) ≡ some (put_element p (some (f e)) s)
update-put_element p f e s n =
    rw
      (
        update_lem p f (put_element p (some e) s) n (put_element_self p (some e) s),
        put_element_twice p (some e) (some (f e)) s,
      )
      refl
