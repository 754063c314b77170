-- ===== src/IoService/Registry.antt =====
-- What a client sees of the service: which job is registered for a descriptor and an operation. The
-- table, its elements and their event bits are how the program stores this.
use mathlib.Core.Path.{fun_ext}
use chats.Prelude.{
  ℕ, ◌≡◌, ◌≢◌, refl, ap, ◌∙◌, Bool, true, false, not, ◌&&◌, Option, none, some, inl, inr, arith,
  ◌==◌, Bool-cases, Option-cases, if◌then◌else◌,
}
use chats.IoService.{IoService, fill_slot, io_service_post_job, io_service_remove_job}
use chats.IoService.Elements.{
  Op, Job, Element, Table, job_of, new_element, find_fd, install, clear, ensure_fd, remove_job_loop,
}
use chats.IoService.Lookup.{
  find_fd-fd, find_fd-update_fd, find_fd-ensure_fd, remove_from, find_fd-remove_job_loop,
}
use chats.IoService.Invariant.{install-fd}

abbrev pub Registry : Type 0
Registry = ℕ → Op → Option Job

abbrev pub same_op : Op → Op → Bool
same_op Op.read Op.read = true
same_op Op.write Op.write = true
same_op Op.read Op.write = false
same_op Op.write Op.read = false

-- A slot is set if its function pointer is.
abbrev pub slot : Op → Element → Option Job
slot op e = if (job_of op e).job == 0 then none else some (job_of op e)

abbrev pub slot_of : Op → Option Element → Option Job
slot_of op none = none
slot_of op (some e) = slot op e

unfoldable pub registry : {E : Type 0} → IoService E → Registry
registry s fd op = slot_of op (find_fd fd s.lookup_table)

-- The first registration stays.
abbrev pub or_else : Option Job → Job → Option Job
or_else none j = some j
or_else (some i) j = some i

abbrev pub unless : Bool → Option Job → Option Job
unless drop r = if drop then none else r

abbrev pub is_job : (job ctx : ℕ) → Option Job → Bool
is_job job ctx none = false
is_job job ctx (some j) = j.job == job && j.ctx == ctx

abbrev pub is_oneshot : Option Job → Bool
is_oneshot none = false
is_oneshot (some j) = j.oneshot

-- The operations on a registry: a registration, a withdrawal, and the call of a job.
abbrev pub put : ℕ → Op → Job → Registry → Registry
put fd op j r k o = if fd == k && same_op op o then or_else (r k o) j else r k o

abbrev pub withdraw : ℕ → Op → (job ctx : ℕ) → Registry → Registry
withdraw fd op job ctx r k o = unless (fd == k && same_op op o && is_job job ctx (r k o)) (r k o)

abbrev pub fire : ℕ → Op → Registry → Registry
fire fd op r k o = unless (fd == k && same_op op o && is_oneshot (r k o)) (r k o)

slot-install :
    (op o : Op) (j : Job) (e : Element)
    → j.job ≢ 0
    → slot o (install op j e) ≡ (if same_op op o then some j else slot o e)
unfolding install
slot-install Op.read Op.read j e ne = ground arith
slot-install Op.read Op.write j e ne = refl
slot-install Op.write Op.read j e ne = refl
slot-install Op.write Op.write j e ne = ground arith

pub slot-clear :
    (op o : Op) (e : Element) → slot o (clear op e) ≡ (if same_op op o then none else slot o e)
unfolding clear
slot-clear Op.read Op.read e = refl
slot-clear Op.read Op.write e = refl
slot-clear Op.write Op.read e = refl
slot-clear Op.write Op.write e = refl

slot-remove_from :
    (k fd : ℕ) (op o : Op) (job ctx : ℕ) (e : Element)
    → e.fd ≡ k
    → slot o (remove_from fd op job ctx e)
      ≡ unless (fd == k && same_op op o && is_job job ctx (slot o e)) (slot o e)
unfolding clear
slot-remove_from k fd Op.read Op.read job ctx e h = ground arith
slot-remove_from k fd Op.read Op.write job ctx e h = ground arith
slot-remove_from k fd Op.write Op.read job ctx e h = ground arith
slot-remove_from k fd Op.write Op.write job ctx e h = ground arith

slot_of-ensure_fd :
    (k fd : ℕ) (o : Op) (t : Table)
    → slot_of o (find_fd k (ensure_fd fd t)) ≡ slot_of o (find_fd k t)
slot_of-ensure_fd k fd Op.read t = ground (arith, find_fd-ensure_fd k fd t)
slot_of-ensure_fd k fd Op.write t = ground (arith, find_fd-ensure_fd k fd t)

ensured : (fd : ℕ) (t : Table) → (e : Element) × (find_fd fd (ensure_fd fd t) ≡ some e)
ensured fd t = elim (Option-cases (find_fd fd t)) [
  | inl gone ↦ (new_element fd, find_fd-ensure_fd fd fd t ∙ rw gone (ground arith))
  | inr (e, there) ↦ (e, find_fd-ensure_fd fd fd t ∙ rw there refl)
]

module _ {E : Type 0} where
  registry-ensure_fd :
      (s : IoService E) (fd : ℕ)
      → registry (record s { lookup_table = ensure_fd fd s.lookup_table }) ≡ registry s
  unfolding registry
  registry-ensure_fd s fd = fun_ext λ k. fun_ext λ o. slot_of-ensure_fd k fd o s.lookup_table

  registry-fill_slot :
      (fd : ℕ) (op : Op) (j : Job) (lte : Element) (s : IoService E) (k : ℕ) (o : Op)
      → j.job ≢ 0
      → find_fd fd s.lookup_table ≡ some lte
      → registry (fill_slot fd op j (some lte) s) k o ≡ put fd op j (registry s) k o
  unfolding registry fill_slot
  registry-fill_slot fd op j lte s k o ne found = ground (
    arith,
    find_fd-update_fd k fd (install op j) s.lookup_table (install-fd op j),
    slot-install op o j lte ne,
  )

  -- `io_service_post_job` registers the job unless the service is stopped, the job is NULL, or the
  -- descriptor has a job for that operation already; it changes no other registration.
  pub registry-io_service_post_job :
      (s : IoService E) (fd : ℕ) (op : Op) (oneshot : Bool) (job ctx : ℕ)
      → registry (io_service_post_job s fd op oneshot job ctx) ≡ (
          if s.allow_new && not (job == 0)
          then put fd op (record { job = job; ctx = ctx; oneshot = oneshot }) (registry s)
          else registry s)
  unfolding io_service_post_job
  registry-io_service_post_job s fd op oneshot job ctx =
      elim (Bool-cases (s.allow_new && not (job == 0))) [
        | inl accepts ↦
            let t = ensure_fd fd s.lookup_table in
            let (lte, found) = ensured fd s.lookup_table in
            let j : Job = record { job = job; ctx = ctx; oneshot = oneshot } in
            rw (accepts, found)
              (fun_ext λ k. fun_ext λ o.
                registry-fill_slot fd op j lte (record s { lookup_table = t }) k o (ground arith)
                  found
                ∙ ap (λ r. put fd op j r k o) (registry-ensure_fd s fd))
        | inr shut ↦ rw shut
      ]

  lookup_table-remove :
      (s : IoService E) (fd : ℕ) (op : Op) (job ctx : ℕ)
      → (io_service_remove_job s fd op job ctx).lookup_table
        ≡ (remove_job_loop fd op job ctx s.lookup_table).0
  unfolding io_service_remove_job
  lookup_table-remove s fd op job ctx = ground arith

  -- `io_service_remove_job` withdraws the registration for the descriptor and the operation if it is
  -- of the given job and context, and changes no other.
  pub registry-io_service_remove_job :
      (s : IoService E) (fd : ℕ) (op : Op) (job ctx : ℕ)
      → registry (io_service_remove_job s fd op job ctx) ≡ withdraw fd op job ctx (registry s)
  unfolding registry
  registry-io_service_remove_job s fd op job ctx = fun_ext λ k. fun_ext λ o.
      ap (λ t. slot_of o (find_fd k t)) (lookup_table-remove s fd op job ctx)
      ∙ ap (slot_of o) (find_fd-remove_job_loop k fd op job ctx s.lookup_table)
      ∙ elim (Option-cases (find_fd k s.lookup_table)) [
        | inl gone ↦ rw gone (ground arith)
        | inr (e, found) ↦
            rw found (slot-remove_from k fd op o job ctx e (find_fd-fd k s.lookup_table e found))
      ]
