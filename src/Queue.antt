-- ===== src/Queue.antt =====
-- common/queue.c: a queue is a list, pushed at the end and popped at the front.
pub mod Order
mod Tests
use chats.Prelude.{ℕ, Option, none, some, ◌==◌, if◌then◌else◌, ◌>>=◌}
use chats.LinkedList.{
  Ptr, null, ListElement, LinkedList, Memory, Allocation, list_init, list_deinit, list_size,
  list_remove_element, list_first_element,
}
use chats.LinkedList.Adding.{list_append}

unfoldable pub queue_init : Allocation LinkedList → (element_size : ℕ) → Memory → Ptr × Memory
queue_init m element_size s = list_init m element_size s

unfoldable pub queue_deinit : Ptr → Memory → Option Memory
queue_deinit q s = if q == null then some s else list_deinit q s

unfoldable pub queue_size : Ptr → Memory → Option ℕ
queue_size q s = if q == null then some 0 else list_size q s

unfoldable pub queue_front : Ptr → Memory → Option Ptr
queue_front q s = if q == null then some null else list_first_element q s

unfoldable pub queue_pop : Ptr → Memory → Option Memory
queue_pop q s = if q == null then some s else (queue_front q s >>= λ el. list_remove_element q el s)

unfoldable pub queue_push :
    (fall_off : Ptr → Ptr) → Allocation ListElement → Ptr → Memory → Option (Ptr × Memory)
queue_push fall_off m q s = if q == null then some (null, s) else list_append fall_off m q s
