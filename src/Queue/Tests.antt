-- ===== src/Queue/Tests.antt =====
-- Runs of common/queue.c.
use chats.Prelude.{◌≡◌, ◌≢◌, refl, none, some, List, [], ◌∷◌, arith, ◌==◌, if◌then◌else◌}
use chats.LinkedList.{
  Ptr, null, Memory, Allocation, ListElement, load, load_list, remove_from, list_remove_element,
  list_first_element,
}
use chats.LinkedList.Chain.{element, IsList}
use chats.LinkedList.Sequence.{Call, perform, specify, Implements}
use chats.Queue.{queue_pop, queue_front}
use chats.Queue.Order.{queue, behind, perform-queue}

abbrev returns : Ptr → Ptr
returns p = p

-- The queue at 1000, with no elements.
abbrev empty : Memory
empty = record {
  elements = λ a. none;
  lists = λ a.
      if a == 1000
      then some (record { count = 0; element_size = 8; first = 0; last = 0 })
      else none;
}

empty-IsList : IsList empty 1000 []
empty-IsList = record {
  not_null = omega arith;
  head = record { count = 0; element_size = 8; first = 0; last = 0 };
  known = refl;
  counted = refl;
  bounded = omega arith;
  starts = refl;
  ends = refl;
  chain = tt;
  distinct = tt;
}

abbrev block : Ptr → Allocation ListElement
block a = record { address = a; contents = element 7 7 7 }

abbrev calls : List Call
calls =
    Call.push (block 100)
    ∷ Call.push (block 200)
    ∷ Call.front
    ∷ Call.pop
    ∷ Call.push (block 300)
    ∷ Call.front
    ∷ []

perform-queue_example :
    Implements 1000 (specify behind calls []) (perform (queue returns) 1000 calls empty)
perform-queue_example =
    perform-queue returns (λ a. a ≢ null) 1000 calls empty []
      (
        refl,
        omega arith,
        omega arith,
        refl,
        omega arith,
        (
          refl,
          omega arith,
          omega arith,
          refl,
          omega arith,
          (refl, omega arith, omega arith, refl, omega arith, tt),
        ),
      )
      (λ a n out. refl) empty-IsList

specified : specify behind calls [] ≡ some (124 ∷ 224 ∷ 124 ∷ 324 ∷ 224 ∷ [], 200 ∷ 300 ∷ [])
unfolding specify
specified = refl

-- Popping an empty queue.
emptied : perform (queue returns) 1000 (Call.pop ∷ []) empty ≡ none
unfolding perform queue_pop queue_front list_first_element list_remove_element remove_from load
    load_list
emptied = refl
