-- ===== src/LinkedList/Making.antt =====
-- common/list.c: a list that `list_init` has just made.
use chats.Prelude.{List, Bool-cases, inl, inr, ◌==◌, ℕ, ◌≡◌, ◌≢◌, refl, none, some, [], arith}
use chats.LinkedList.{
  null, LinkedList, Memory, Allocation, list_init, list_deinit, free_loop, put_list, Ptr,
  list_first_element,
}
use chats.LinkedList.Chain.{IsList}
use chats.LinkedList.Links.{not_null, load_list_lem}

-- A new list has no elements.
pub list_init-IsList :
    (m : Allocation LinkedList) (element_size : ℕ) (s : Memory)
    → m.address ≢ null
    → ((list_init m element_size s).0 ≡ m.address)
      × IsList (list_init m element_size s).1 m.address []
unfolding list_init
list_init-IsList m element_size s n =
    let head : LinkedList = record {
      count = 0;
      element_size = element_size;
      first = null;
      last = null;
    } in
    rw (not_null m.address n) (
      refl,
      record {
        not_null = n;
        head = head;
        known = ground arith;
        counted = refl;
        bounded = omega arith;
        starts = refl;
        ends = refl;
        chain = tt;
        distinct = tt;
      },
    )

-- It can be freed again.
pub list_deinit-list_init :
    (m : Allocation LinkedList) (size : ℕ) (s : Memory)
    → m.address ≢ null
    → list_deinit m.address (list_init m size s).1
      ≡ some (put_list m.address none (list_init m size s).1)
unfolding list_deinit list_init free_loop
list_deinit-list_init m size s n =
    let head : LinkedList = record { count = 0; element_size = size; first = null; last = null } in
    let made = put_list m.address (some head) s in
    let known : made.lists m.address ≡ some head = ground arith in
    simp (not_null m.address n, load_list_lem m.address made n known) refl

-- Any other list is as it was.
pub list_init-other :
    (m : Allocation LinkedList) (size : ℕ) (s : Memory) (l : Ptr) (xs : List Ptr)
    → m.address ≢ l
    → IsList s l xs
    → IsList (list_init m size s).1 l xs
unfolding list_init
list_init-other m size s l xs other is = elim (Bool-cases (m.address == null)) [
  | inl failed ↦ simp failed is
  | inr made ↦ simp made (record {
    not_null = is.not_null;
    head = is.head;
    known = ground (arith, is.known, other);
    counted = is.counted;
    bounded = is.bounded;
    starts = is.starts;
    ends = is.ends;
    chain = is.chain;
    distinct = is.distinct;
  })
]

pub list_first_element-nil :
    (s : Memory) (l : Ptr) → IsList s l [] → list_first_element l s ≡ some null
unfolding list_first_element
list_first_element-nil s l is = simp (load_list_lem l s is.not_null is.known, is.starts) refl
