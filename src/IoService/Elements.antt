-- ===== src/IoService/Elements.antt =====
-- io-service/io-service.c: the lookup table of jobs by descriptor. The table is a `list_t`; here it
-- is the sequence of its elements. Function and context pointers are numbers, and NULL is 0.
use chats.Prelude.{
  ℕ, ◌-◌, ◌^◌, Bool, true, false, Option, none, some, List, [], ◌∷◌, ◌++◌, ◌==◌, ◌&&◌,
  if◌then◌else◌, bit_and, bit_or,
}

-- `io_svc_op_t`
pub data Op : Type 0 where
  read write : Op

-- `OP_FLAGS`: `EPOLLIN` and `EPOLLOUT`
abbrev pub op_flag : Op → ℕ
op_flag Op.read = 0x001
op_flag Op.write = 0x004

-- `job_t`
pub record Job : Type 0 where
  pub job : ℕ
  pub ctx : ℕ
  pub oneshot : Bool

abbrev pub no_job : Job
no_job = record { job = 0; ctx = 0; oneshot = false }

-- `lookup_table_element_t`: `events` is `event.events`, and the two jobs are `job[op]`. The field
-- `event.data.fd` is set with `fd`, and never apart from it.
pub record Element : Type 0 where
  pub fd : ℕ
  pub events : ℕ
  pub read_job : Job
  pub write_job : Job

abbrev pub Table : Type 0
Table = List Element

-- `lte->job[op]`
abbrev pub job_of : Op → Element → Job
job_of Op.read e = e.read_job
job_of Op.write e = e.write_job

abbrev pub set_job : Op → Job → Element → Element
set_job Op.read j e = record e { read_job = j }
set_job Op.write j e = record e { write_job = j }

-- The element that `io_service_post_job` appends, its jobs zeroed.
abbrev pub new_element : ℕ → Element
new_element fd = record { fd = fd; events = 0; read_job = no_job; write_job = no_job }

-- The loops that stop at the first element for `fd`.
unfoldable pub find_fd : ℕ → Table → Option Element
find_fd fd [] = none
find_fd fd (e ∷ t) = if e.fd == fd then some e else find_fd fd t

-- Writes through the pointer that such a loop found.
unfoldable pub update_fd : ℕ → (Element → Element) → Table → Table
update_fd fd f [] = []
update_fd fd f (e ∷ t) = if e.fd == fd then f e ∷ t else e ∷ update_fd fd f t

-- `list_remove_element` of the element that such a loop found.
unfoldable pub remove_fd : ℕ → Table → Table
remove_fd fd [] = []
remove_fd fd (e ∷ t) = if e.fd == fd then t else e ∷ remove_fd fd t

-- `lte->event.events |= OP_FLAGS[op]`, and the three writes to `lte->job[op]`.
unfoldable pub install : Op → Job → Element → Element
install op j e = set_job op j (record e { events = bit_or e.events (op_flag op) })

-- `lte->job[op].job = lte->job[op].ctx = NULL; lte->event.events &= ~OP_FLAGS[op]`
unfoldable pub clear : Op → Element → Element
clear op e =
    set_job op (record (job_of op e) { job = 0; ctx = 0 })
      (record e { events = bit_and e.events (2 ^ 32 - 1 - op_flag op) })

-- `list_append` of a new element where the loop found none.
unfoldable pub ensure_fd : ℕ → Table → Table
unfolding find_fd
ensure_fd fd t = elim (find_fd fd t) [ none ↦ t ++ (new_element fd ∷ []) | some _ ↦ t ]

abbrev pub holds : Element → (fd : ℕ) → Op → (job ctx : ℕ) → Bool
holds e fd op job ctx = e.fd == fd && ((job_of op e).job == job && (job_of op e).ctx == ctx)

-- The loop of `io_service_remove_job`, and `done`.
unfoldable pub remove_job_loop : (fd : ℕ) → Op → (job ctx : ℕ) → Table → Table × Bool
unfolding clear
remove_job_loop fd op job ctx [] = ([], false)
remove_job_loop fd op job ctx (e ∷ t) =
    let (t', done) = remove_job_loop fd op job ctx t in
    if holds e fd op job ctx then (clear op e ∷ t, true) else (e ∷ t', done)

-- `list_size(...) == 0`
unfoldable pub is_empty : Table → Bool
is_empty [] = true
is_empty (e ∷ t) = false
