-- ===== src/Stack/Tests.antt =====
-- Runs of common/stack.c.
use chats.Prelude.{◌≡◌, ◌≢◌, refl, none, some, List, [], ◌∷◌, arith, ◌==◌, if◌then◌else◌}
use chats.LinkedList.{
  Ptr, null, Memory, Allocation, ListElement, load, load_list, remove_from, list_remove_element,
  list_first_element,
}
use chats.LinkedList.Chain.{element, IsList}
use chats.LinkedList.Sequence.{Call, perform, specify, Implements}
use chats.Stack.{stack_pop, stack_top}
use chats.Stack.Order.{stack, before, perform-stack}

abbrev returns : Ptr → Ptr
returns p = p

-- The stack at 1000, with no elements.
abbrev empty : Memory
empty = record {
  elements = λ a. none;
  lists = λ a.
      if a == 1000
      then some (record { count = 0; element_size = 8; first = 0; last = 0 })
      else none;
}

empty-IsList : IsList empty 1000 []
empty-IsList = record {
  not_null = omega arith;
  head = record { count = 0; element_size = 8; first = 0; last = 0 };
  known = refl;
  counted = refl;
  bounded = omega arith;
  starts = refl;
  ends = refl;
  chain = tt;
  distinct = tt;
}

abbrev block : Ptr → Allocation ListElement
block a = record { address = a; contents = element 7 7 7 }

abbrev calls : List Call
calls =
    Call.push (block 100)
    ∷ Call.push (block 200)
    ∷ Call.front
    ∷ Call.pop
    ∷ Call.push (block 300)
    ∷ Call.front
    ∷ []

perform-stack_example :
    Implements 1000 (specify before calls []) (perform (stack returns) 1000 calls empty)
perform-stack_example =
    perform-stack returns (λ a. a ≢ null) 1000 calls empty []
      (
        refl,
        omega arith,
        omega arith,
        refl,
        omega arith,
        (
          refl,
          omega arith,
          omega arith,
          refl,
          omega arith,
          (refl, omega arith, omega arith, refl, omega arith, tt),
        ),
      )
      (λ a n out. refl) empty-IsList

specified : specify before calls [] ≡ some (124 ∷ 224 ∷ 224 ∷ 324 ∷ 324 ∷ [], 300 ∷ 100 ∷ [])
unfolding specify
specified = refl

-- Popping an empty stack.
emptied : perform (stack returns) 1000 (Call.pop ∷ []) empty ≡ none
unfolding perform stack_pop stack_top list_first_element list_remove_element remove_from load
    load_list
emptied = refl
