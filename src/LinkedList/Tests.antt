-- ===== src/LinkedList/Tests.antt =====
-- Runs of common/list.c on a list of three elements.
use chats.Prelude.{◌≡◌, refl, Option, none, some, List, [], ◌∷◌, arith, ◌==◌, if◌then◌else◌, ◌>>=◌}
use chats.LinkedList.{
  Ptr, null, data_of, ListElement, Memory, Allocation, put_list, load, update, load_list, link_prev,
  remove_from, list_init, list_deinit, list_size, list_remove_next, list_remove_prev,
  list_remove_element, list_first_element, list_next_element,
}
use chats.LinkedList.Adding.{list_allocate, list_append, list_prepend, list_add_after}
use chats.LinkedList.Chain.{element, IsList}
use chats.LinkedList.Removal.{Removed, list_remove-Removed}
use chats.LinkedList.Freeing.{Freed, list_deinit-Freed}
use chats.LinkedList.Insertion.{list_add_after-Inserted}
use chats.LinkedList.Joining.{Inserted}
use chats.LinkedList.Walk.{walk_from, walk, walk_back, walk_lem}

abbrev returns : Ptr → Ptr
returns p = p

-- The list at 1000, with its elements at 100, 200 and 300.
abbrev three : Memory
three = record {
  elements = λ a.
      if a == 100
      then some (element 0 200 1000)
      else if a == 200
      then some (element 100 300 1000)
      else if a == 300
      then some (element 200 0 1000)
      else none;
  lists = λ a.
      if a == 1000
      then some (record { count = 3; element_size = 8; first = 100; last = 300 })
      else none;
}

abbrev block : Ptr → Allocation ListElement
block a = record { address = a; contents = element 7 7 7 }

three-IsList : IsList three 1000 (100 ∷ 200 ∷ 300 ∷ [])
three-IsList = record {
  not_null = omega arith;
  head = record { count = 3; element_size = 8; first = 100; last = 300 };
  known = refl;
  counted = refl;
  bounded = omega arith;
  starts = refl;
  ends = refl;
  chain = (omega arith, refl, (omega arith, refl, (omega arith, refl, tt)));
  distinct = (refl, (refl, (refl, tt)));
}

list_remove-Removed_example :
    (s' : Memory) × (list_remove_element 1000 (data_of 200) three ≡ some s')
    × (list_remove_next 1000 (data_of 200) three ≡ some (324, s'))
    × (list_remove_prev 1000 (data_of 200) three ≡ some (124, s'))
    × Removed three s' 1000 (100 ∷ []) 200 (300 ∷ [])
list_remove-Removed_example = list_remove-Removed 1000 200 three (100 ∷ []) (300 ∷ []) three-IsList

list_deinit-Freed_example :
    (list_deinit null three ≡ some three)
    × ((s' : Memory) × (list_deinit 1000 three ≡ some (put_list 1000 none s'))
        × Freed (100 ∷ 200 ∷ 300 ∷ []) three s')
list_deinit-Freed_example = list_deinit-Freed 1000 three (100 ∷ 200 ∷ 300 ∷ []) three-IsList

list_add_after-Inserted_example :
    (s' : Memory) × (list_add_after returns (block 400) 1000 (data_of 300) three ≡ some (424, s'))
    × Inserted three s' 1000 (100 ∷ 200 ∷ 300 ∷ []) (100 ∷ 200 ∷ 300 ∷ 400 ∷ [])
list_add_after-Inserted_example =
    list_add_after-Inserted returns (block 400) 1000 three 100 (200 ∷ 300 ∷ []) []
      (record { returned = refl; given = omega arith; unused = refl }) three-IsList (omega arith)

walk_lem_example :
    (walk 4 1000 three ≡ some (124 ∷ 224 ∷ 324 ∷ []))
    × (walk_back 4 1000 three ≡ some (324 ∷ 224 ∷ 124 ∷ []))
walk_lem_example = walk_lem 4 1000 three (100 ∷ 200 ∷ 300 ∷ []) (omega arith) three-IsList

-- A new list, two elements behind each other and one in front.
grown : Option (List Ptr)
grown =
    let (l, s0) =
      list_init
        (record {
          address = 1000;
          contents = record { count = 9; element_size = 9; first = 9; last = 9 };
        })
        8 (record { elements = λ a. none; lists = λ a. none }) in
    do
      (a, s1) ← list_append returns (block 100) l s0
      (b, s2) ← list_append returns (block 200) l s1
      (c, s3) ← list_prepend returns (block 300) l s2
      walk 4 l s3

grown_lem : grown ≡ some (324 ∷ 124 ∷ 224 ∷ [])
unfolding grown list_init list_append list_prepend list_allocate update load load_list walk_from
    list_first_element list_next_element
grown_lem = refl

-- An element added behind the last one is lost to the next append.
lost : Option (List Ptr × List Ptr)
lost = do
  (a, s1) ← list_add_after returns (block 400) 1000 (data_of 300) three
  (b, s2) ← list_append returns (block 500) 1000 s1
  there ← walk 5 1000 s2
  n ← list_size 1000 s2
  some (there, n ∷ [])

lost_lem : lost ≡ some (124 ∷ 224 ∷ 324 ∷ 524 ∷ [], 5 ∷ [])
unfolding lost list_add_after list_append list_allocate update load load_list walk_from link_prev
    list_first_element list_next_element list_size
lost_lem = refl

-- An element of another list is not touched.
foreign : list_remove_next 1001 (data_of 200) three ≡ some (null, three)
unfolding list_remove_next remove_from load
foreign = refl

-- Where the allocation fails, the code writes through NULL.
exhausted : list_append returns (block 0) 1000 three ≡ none
unfolding list_append list_allocate update load
exhausted = refl
