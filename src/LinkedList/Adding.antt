-- ===== src/LinkedList/Adding.antt =====
-- common/list.c: adding elements to a list.
use chats.Prelude.{◌+◌, ◌%◌, ◌^◌, Option, some, ◌==◌, if◌then◌else◌, ◌>>=◌, not}
use chats.LinkedList.{
  Allocation, ListElement, Memory, Ptr, data_of, get_list_element, link_next, link_prev, load,
  load_list, null, put_element, put_list, set_next, set_prev, update,
}

-- `list_allocate` has no return: `fall_off` is what its caller gets for the pointer that was
-- computed last. The count of bytes that are allocated plays no part.
module _ (fall_off : Ptr → Ptr) where
  unfoldable pub list_allocate : Allocation ListElement → (l : Ptr) → Memory → Option (Ptr × Memory)
  list_allocate m l s = do
    let s1 : Memory = if m.address == null then s else put_element m.address (some m.contents) s
    s2 ← update m.address (λ e. record e { host = l }) s1
    some (fall_off m.address, s2)

  unfoldable pub list_append : Allocation ListElement → (l : Ptr) → Memory → Option (Ptr × Memory)
  list_append m l s = if l == null then some (null, s) else do
    (le, s1) ← list_allocate m l s
    if le == null then some (null, s1) else do
      s2 ← update le (set_next null) s1
      head ← load_list l s2
      let count = (head.count + 1) % 2 ^ 64
      if count == 1
          then (do
            s3 ← update le (set_prev null) s2
            some (
              data_of le,
              put_list l (some (record head { count = count; first = le; last = le })) s3,
            ))
          else (do
            s3 ← update le (set_prev head.last) s2
            s4 ← update head.last (set_next le) s3
            some (data_of le, put_list l (some (record head { count = count; last = le })) s4))

  unfoldable pub list_prepend : Allocation ListElement → (l : Ptr) → Memory → Option (Ptr × Memory)
  list_prepend m l s = if l == null then some (null, s) else do
    (le, s1) ← list_allocate m l s
    if le == null then some (null, s1) else do
      s2 ← update le (set_prev null) s1
      head ← load_list l s2
      let count = (head.count + 1) % 2 ^ 64
      if count == 1
          then (do
            s3 ← update le (set_next null) s2
            some (
              data_of le,
              put_list l (some (record head { count = count; first = le; last = le })) s3,
            ))
          else (do
            s3 ← update le (set_next head.first) s2
            s4 ← update head.first (set_prev le) s3
            some (data_of le, put_list l (some (record head { count = count; first = le })) s4))

  -- The test `el == l->last` compares a pointer to data with one to an element.
  unfoldable pub list_add_after :
      Allocation ListElement → (l el : Ptr) → Memory → Option (Ptr × Memory)
  list_add_after m l el s =
      if l == null then some (null, s) else if el == null then list_append m l s else do
        let le_el = get_list_element el
        e ← load le_el s
        if not (e.host == l) then some (null, s) else do
          (le, s1) ← list_allocate m l s
          if le == null then some (null, s1) else do
            e1 ← load le_el s1
            s2 ← update le (set_next e1.next) s1
            s3 ← update le (set_prev le_el) s2
            s4 ← update le_el (set_next le) s3
            s5 ← link_prev e1.next le s4
            head ← load_list l s5
            let last = if el == head.last then el else head.last
            some (
              data_of le,
              put_list l (some (record head { count = (head.count + 1) % 2 ^ 64; last = last })) s5,
            )

  unfoldable pub list_add_before :
      Allocation ListElement → (l el : Ptr) → Memory → Option (Ptr × Memory)
  list_add_before m l el s =
      if l == null then some (null, s) else if el == null then list_append m l s else do
        let le_el = get_list_element el
        e ← load le_el s
        if not (e.host == l) then some (null, s) else do
          (le, s1) ← list_allocate m l s
          if le == null then some (null, s1) else do
            e1 ← load le_el s1
            s2 ← update le (set_prev e1.prev) s1
            s3 ← update le (set_next le_el) s2
            s4 ← update le_el (set_prev le) s3
            s5 ← link_next e1.prev le s4
            head ← load_list l s5
            let first = if el == head.first then el else head.first
            some (
              data_of le,
              put_list l (some (record head { count = (head.count + 1) % 2 ^ 64; first = first }))
                  s5,
            )
