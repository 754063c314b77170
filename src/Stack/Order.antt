-- ===== src/Stack/Order.antt =====
-- common/stack.c: last in, first out.
use chats.Prelude.{◌≡◌, refl, some, List, [], ◌∷◌}
use chats.LinkedList.{Ptr, null, data_or_null, Memory}
use chats.LinkedList.Chain.{first_or, IsList}
use chats.LinkedList.Links.{not_null}
use chats.LinkedList.Prepend.{list_prepend-Changed}
use chats.LinkedList.Ends.{list_first_element_lem, list_remove-first, list_remove-nothing}
use chats.LinkedList.Sequence.{
  Container, IsLawful, Call, perform, specify, IsSupplied, IsPool, Implements, perform-Implements,
}
use chats.Stack.{stack_push, stack_pop, stack_top}

abbrev pub stack : (fall_off : Ptr → Ptr) → Container
stack fall_off = record { push = stack_push fall_off; pop = stack_pop; front = stack_top }

-- A new element stands in front of the others.
abbrev pub before : Ptr → List Ptr → List Ptr
before a xs = a ∷ xs

stack_top_lem :
    (l : Ptr) (s : Memory) (xs : List Ptr)
    → IsList s l xs
    → stack_top l s ≡ some (data_or_null (first_or xs null))
unfolding stack_top
stack_top_lem l s xs is = simp (not_null l is.not_null, list_first_element_lem l s xs is) refl

stack-IsLawful : (fall_off : Ptr → Ptr) → IsLawful fall_off before (stack fall_off)
unfolding stack_push stack_pop
stack-IsLawful fall_off = record {
  push_lem = λ m l s xs f is room.
      let (s', done, changed) = list_prepend-Changed fall_off m l s xs f is room in
      (s', rw (not_null l is.not_null) done, changed);
  grown_lem = λ a b xs. refl;
  pop_lem = λ l s x xs is.
      let (s', done, removed) = list_remove-first l s x xs is in
      (s', simp (not_null l is.not_null, stack_top_lem l s (x ∷ xs) is) done, removed);
  pop_empty = λ l s is.
      simp (not_null l is.not_null, stack_top_lem l s [] is) (list_remove-nothing l s is.not_null);
  front_lem = stack_top_lem;
}

-- Any sequence of `stack_push`, `stack_pop` and `stack_top` on a stack, whose allocations all
-- succeed with addresses that are not in use, and whose count does not overflow: it returns the data
-- of each new element and of the newest one that is left, NULL where none is, and leaves the stack
-- with the elements that a last-in, first-out stack has. It faults exactly where an empty stack is
-- popped. What a body that falls off its end gives its caller is the pointer computed last.
pub perform-stack :
    (fall_off : Ptr → Ptr) (P : Ptr → Type 0) (l : Ptr) (calls : List Call) (s : Memory)
    (xs : List Ptr)
    → IsSupplied fall_off before P calls xs
    → IsPool P s xs
    → IsList s l xs
    → Implements l (specify before calls xs) (perform (stack fall_off) l calls s)
perform-stack fall_off P l =
    perform-Implements fall_off before (stack fall_off) (stack-IsLawful fall_off) P l
