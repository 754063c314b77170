-- ===== src/LinkedList.antt =====
-- common/list.c: doubly linked lists of elements that stand in front of the caller's data.
-- A call takes the memory and gives its result and the memory behind it; it is `none` at a fault, a
-- read or write through NULL or through a pointer to nothing.
pub mod Adding
pub mod Chain
pub mod Links
pub mod Growth
pub mod Prepend
pub mod Removal
pub mod Freeing
pub mod Making
pub mod Walk
mod Tests
pub mod Sequence
pub mod Joining
pub mod Insertion
pub mod Ends
use chats.Prelude.{
  ℕ, zero, suc, ◌+◌, ◌-◌, ◌%◌, ◌^◌, Bool, true, false, Option, none, some, ◌==◌, if◌then◌else◌,
  ◌>>=◌, not,
}

abbrev pub Ptr : Type 0
Ptr = ℕ

abbrev pub null : Ptr
null = 0

-- `struct list_element`.
pub record ListElement : Type 0 where
  pub prev : Ptr
  pub next : Ptr
  pub host : Ptr

-- `struct list`.
pub record LinkedList : Type 0 where
  pub count : ℕ
  pub element_size : ℕ
  pub first : Ptr
  pub last : Ptr

-- The elements and the lists by their addresses. The data behind an element are the caller's.
pub record Memory : Type 0 where
  pub elements : Ptr → Option ListElement
  pub lists : Ptr → Option LinkedList

-- What `allocate` gives: an address, NULL where it fails, and what the memory there holds.
pub record Allocation {ℓ} (A : Type ℓ) : Type ℓ where
  pub address : Ptr
  pub contents : A

abbrev pub write {ℓ} : {A : Type ℓ} → (Ptr → Option A) → Ptr → Option A → Ptr → Option A
write m p c a = if a == p then c else m a

abbrev pub put_element : Ptr → Option ListElement → Memory → Memory
put_element p c s = record s { elements = write s.elements p c }

abbrev pub put_list : Ptr → Option LinkedList → Memory → Memory
put_list p c s = record s { lists = write s.lists p c }

unfoldable pub load : Ptr → Memory → Option ListElement
load p s = if p == null then none else s.elements p

-- A write of some fields through the pointer.
unfoldable pub update : Ptr → (ListElement → ListElement) → Memory → Option Memory
update p f s = load p s >>= λ e. some (put_element p (some (f e)) s)

unfoldable pub load_list : Ptr → Memory → Option LinkedList
load_list l s = if l == null then none else s.lists l

unfoldable pub free : Ptr → Memory → Option Memory
free p s = load p s >>= λ e. some (put_element p none s)

-- `sizeof(struct list_element)`.
abbrev pub sizeof_list_element : ℕ
sizeof_list_element = 24

-- `le + 1`, the data of an element.
abbrev pub data_of : Ptr → Ptr
data_of le = le + sizeof_list_element

-- `le ? le + 1 : NULL`.
abbrev pub data_or_null : Ptr → Ptr
data_or_null le = if le == null then null else data_of le

-- For a pointer below the size the source gives an address at the top of the memory, and this NULL:
-- nothing can be read at either.
abbrev pub get_list_element : Ptr → Ptr
get_list_element d = d - sizeof_list_element

abbrev pub set_prev : Ptr → ListElement → ListElement
set_prev p e = record e { prev = p }

abbrev pub set_next : Ptr → ListElement → ListElement
set_next p e = record e { next = p }

unfoldable pub list_init : Allocation LinkedList → (element_size : ℕ) → Memory → Ptr × Memory
list_init m element_size s = if m.address == null then (null, s) else (
  m.address,
  put_list m.address
      (some (record { count = 0; element_size = element_size; first = null; last = null })) s,
)

-- `for (el = l->first; el; el = el2)`.
unfoldable pub free_loop : ℕ → Ptr → Memory → Option Memory
free_loop zero el s = none
free_loop (suc rounds) el s = elim (el == null) [
  | true ↦ some s
  | false ↦ load el s >>= λ e. (free el s >>= λ s1. free_loop rounds e.next s1)
]

-- The loop is given a round for each element counted, and the last.
unfoldable pub list_deinit : Ptr → Memory → Option Memory
list_deinit l s = if l == null then some s else do
  head ← load_list l s
  s1 ← free_loop (head.count + 1) head.first s
  some (put_list l none s1)

-- Of NULL the code returns no value.
unfoldable pub list_size : Ptr → Memory → Option ℕ
list_size l s = load_list l s >>= λ head. some head.count

-- The link from the element in front, where there is one: `if (prev) prev->next = next`.
unfoldable pub link_next : Ptr → Ptr → Memory → Option Memory
link_next prev next s = if prev == null then some s else update prev (set_next next) s

unfoldable pub link_prev : Ptr → Ptr → Memory → Option Memory
link_prev next prev s = if next == null then some s else update next (set_prev prev) s

-- `if (!(--l->count)) … else if (le_el == l->last) … else if (le_el == l->first) …`.
unfoldable pub drop_from : LinkedList → (le_el prev next : Ptr) → LinkedList
drop_from head le_el prev next =
    let count = (head.count + (2 ^ 64 - 1)) % 2 ^ 64 in
    if count == 0
    then record head { count = count; first = null; last = null }
    else if le_el == head.last
    then record head { count = count; last = prev }
    else if le_el == head.first
    then record head { count = count; first = next }
    else record head { count = count }

-- What the three removals share, with the neighbours of the element removed. The code writes
-- through `next` first.
unfoldable pub remove_from : (l el : Ptr) → Memory → Option (Option ListElement × Memory)
remove_from l el s = do
  let le_el = get_list_element el
  e ← load le_el s
  if not (e.host == l) then some (none, s) else do
    s1 ← link_prev e.next e.prev s
    s2 ← link_next e.prev e.next s1
    s3 ← free le_el s2
    head ← load_list l s3
    some (some e, put_list l (some (drop_from head le_el e.prev e.next)) s3)

abbrev neighbour : (ListElement → Ptr) → Option ListElement → Ptr
neighbour side none = null
neighbour side (some e) = data_or_null (side e)

unfoldable pub list_remove_next : (l el : Ptr) → Memory → Option (Ptr × Memory)
list_remove_next l el s =
    if l == null
    then some (null, s)
    else do (e, s1) ← remove_from l el s; some (neighbour (λ e. e.next) e, s1)

unfoldable pub list_remove_prev : (l el : Ptr) → Memory → Option (Ptr × Memory)
list_remove_prev l el s =
    if l == null
    then some (null, s)
    else do (e, s1) ← remove_from l el s; some (neighbour (λ e. e.prev) e, s1)

unfoldable pub list_remove_element : (l el : Ptr) → Memory → Option Memory
list_remove_element l el s = if l == null then some s else do (e, s1) ← remove_from l el s; some s1

unfoldable pub list_first_element : Ptr → Memory → Option Ptr
list_first_element l s = load_list l s >>= λ head. some (data_or_null head.first)

unfoldable pub list_last_element : Ptr → Memory → Option Ptr
list_last_element l s = load_list l s >>= λ head. some (data_or_null head.last)

unfoldable pub list_next_element : (l el : Ptr) → Memory → Option Ptr
list_next_element l el s =
    if el == null
    then some null
    else (load (get_list_element el) s >>= λ e. some (data_or_null e.next))

unfoldable pub list_prev_element : (l el : Ptr) → Memory → Option Ptr
list_prev_element l el s =
    if el == null
    then some null
    else (load (get_list_element el) s >>= λ e. some (data_or_null e.prev))
