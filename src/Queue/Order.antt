-- ===== src/Queue/Order.antt =====
-- common/queue.c: first in, first out.
use chats.Prelude.{◌≡◌, refl, ◌∙◌, some, List, [], ◌∷◌, ◌++◌, arith}
use chats.LinkedList.{Ptr, null, data_or_null, Memory}
use chats.LinkedList.Chain.{first_or, occurs-append, IsList}
use chats.LinkedList.Links.{not_null}
use chats.LinkedList.Growth.{list_append-Changed}
use chats.LinkedList.Ends.{list_first_element_lem, list_remove-first, list_remove-nothing}
use chats.LinkedList.Sequence.{
  Container, IsLawful, Call, perform, specify, IsSupplied, IsPool, Implements, perform-Implements,
}
use chats.Queue.{queue_push, queue_pop, queue_front}

abbrev pub queue : (fall_off : Ptr → Ptr) → Container
queue fall_off = record { push = queue_push fall_off; pop = queue_pop; front = queue_front }

-- A new element stands behind the others.
abbrev pub behind : Ptr → List Ptr → List Ptr
behind a xs = xs ++ a ∷ []

queue_front_lem :
    (l : Ptr) (s : Memory) (xs : List Ptr)
    → IsList s l xs
    → queue_front l s ≡ some (data_or_null (first_or xs null))
unfolding queue_front
queue_front_lem l s xs is = simp (not_null l is.not_null, list_first_element_lem l s xs is) refl

queue-IsLawful : (fall_off : Ptr → Ptr) → IsLawful fall_off behind (queue fall_off)
unfolding queue_push queue_pop
queue-IsLawful fall_off = record {
  push_lem = λ m l s xs f is room.
      let (s', done, changed) = list_append-Changed fall_off m l s xs f is room in
      (s', rw (not_null l is.not_null) done, changed);
  grown_lem = λ a b xs. occurs-append a xs (b ∷ []) ∙ ground arith;
  pop_lem = λ l s x xs is.
      let (s', done, removed) = list_remove-first l s x xs is in
      (s', simp (not_null l is.not_null, queue_front_lem l s (x ∷ xs) is) done, removed);
  pop_empty = λ l s is.
      simp (not_null l is.not_null, queue_front_lem l s [] is)
        (list_remove-nothing l s is.not_null);
  front_lem = queue_front_lem;
}

-- Any sequence of `queue_push`, `queue_pop` and `queue_front` on a queue, whose allocations all
-- succeed with addresses that are not in use, and whose count does not overflow: it returns the data
-- of each new element and of the oldest one that is left, NULL where none is, and leaves the queue
-- with the elements that a first-in, first-out queue has. It faults exactly where an empty queue is
-- popped. What a body that falls off its end gives its caller is the pointer computed last.
pub perform-queue :
    (fall_off : Ptr → Ptr) (P : Ptr → Type 0) (l : Ptr) (calls : List Call) (s : Memory)
    (xs : List Ptr)
    → IsSupplied fall_off behind P calls xs
    → IsPool P s xs
    → IsList s l xs
    → Implements l (specify behind calls xs) (perform (queue fall_off) l calls s)
perform-queue fall_off P l =
    perform-Implements fall_off behind (queue fall_off) (queue-IsLawful fall_off) P l
