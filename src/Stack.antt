-- ===== src/Stack.antt =====
-- common/stack.c: a stack is a list, pushed and popped at the front.
pub mod Order
mod Tests
use chats.Prelude.{ℕ, Option, none, some, ◌==◌, if◌then◌else◌, ◌>>=◌}
use chats.LinkedList.{
  Ptr, null, ListElement, LinkedList, Memory, Allocation, list_init, list_deinit, list_size,
  list_remove_element, list_first_element,
}
use chats.LinkedList.Adding.{list_prepend}

unfoldable pub stack_init : Allocation LinkedList → (element_size : ℕ) → Memory → Ptr × Memory
stack_init m element_size s = list_init m element_size s

unfoldable pub stack_deinit : Ptr → Memory → Option Memory
stack_deinit q s = if q == null then some s else list_deinit q s

unfoldable pub stack_size : Ptr → Memory → Option ℕ
stack_size q s = if q == null then some 0 else list_size q s

unfoldable pub stack_top : Ptr → Memory → Option Ptr
stack_top q s = if q == null then some null else list_first_element q s

unfoldable pub stack_pop : Ptr → Memory → Option Memory
stack_pop q s = if q == null then some s else (stack_top q s >>= λ el. list_remove_element q el s)

unfoldable pub stack_push :
    (fall_off : Ptr → Ptr) → Allocation ListElement → Ptr → Memory → Option (Ptr × Memory)
stack_push fall_off m q s = if q == null then some (null, s) else list_prepend fall_off m q s
