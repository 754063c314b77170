-- ===== src/Memory.antt =====
-- common/memory.c: buffers. `block` is the length of the data behind the header that the allocator
-- gave, and a failing allocation is `false`.
mod Tests
use chats.Prelude.{
  ℕ, ◌≡◌, refl, Bool, true, false, Option, none, some, not, ◌&&◌, ◌||◌, inl, inr, Bool-cases, arith,
  ltb, if◌then◌else◌,
}

pub data BufferPolicy : Type 0 where
  no_shrink : BufferPolicy
  shrink : BufferPolicy

pub record Buffer : Type 0 where
  pub pol : BufferPolicy
  pub real_size : ℕ
  pub user_size : ℕ
  pub block : ℕ

-- `buffer_init` where the caller gets the buffer, which the body does not return.
unfoldable pub buffer_init : (allocated : Bool) → (initial_size : ℕ) → BufferPolicy → Option Buffer
buffer_init false initial_size pol = none
buffer_init true initial_size pol =
    some (record {
      pol = pol;
      real_size = initial_size;
      user_size = initial_size;
      block = initial_size;
    })

unfoldable pub buffer_size : Buffer → ℕ
buffer_size b = b.user_size

unfoldable pub buffer_size_real : Buffer → ℕ
buffer_size_real b = b.real_size

unfoldable pub buffer_realloc_no_shrink :
    (allocated : Bool) → Buffer → (new_size : ℕ) → Bool × Buffer
buffer_realloc_no_shrink allocated b new_size =
    if ltb new_size b.user_size
    then (true, b)
    else if allocated
    then (true, record b { block = new_size })
    else (false, b)

unfoldable pub buffer_realloc_shrink : (allocated : Bool) → Buffer → (new_size : ℕ) → Bool × Buffer
buffer_realloc_shrink allocated b new_size =
    if allocated then (true, record b { block = new_size }) else (false, b)

unfoldable pub buffer_resize : (allocated : Bool) → Buffer → (new_size : ℕ) → Bool × Buffer
unfolding buffer_realloc_no_shrink buffer_realloc_shrink
buffer_resize allocated b new_size = elim b.pol [
  | BufferPolicy.no_shrink ↦ buffer_realloc_no_shrink allocated b new_size
  | BufferPolicy.shrink ↦ buffer_realloc_shrink allocated b new_size
]

-- Whether the policy leaves the block as it is for the new size.
abbrev pub keeps : BufferPolicy → (new_size old_size : ℕ) → Bool
keeps BufferPolicy.no_shrink new_size old_size = ltb new_size old_size
keeps BufferPolicy.shrink new_size old_size = false

-- A resized buffer, and what the call returns.
pub record Resized (allocated : Bool) (b : Buffer) (new_size : ℕ) (r : Bool × Buffer) : Type 0 where
  pub same_size : buffer_size r.1 ≡ buffer_size b
  pub same_real_size : buffer_size_real r.1 ≡ buffer_size_real b
  pub returned : r.0 ≡ keeps b.pol new_size (buffer_size b) || allocated
  pub block_of : r.1.block ≡ (
      if keeps b.pol new_size (buffer_size b)
      then b.block
      else if allocated
      then new_size
      else b.block)

-- `buffer_resize` for both policies: it says whether the block is large enough for the new size, for
-- a smaller one by the policy that does not shrink without allocating, otherwise by the allocation,
-- and the block gets the new size where the allocation succeeds. What `buffer_size` and
-- `buffer_size_real` give does not change in any case.
pub buffer_resize-Resized :
    (allocated : Bool) (pol : BufferPolicy) (b : Buffer) (new_size : ℕ)
    → Resized allocated
        (record b { pol = pol })
        new_size
        (buffer_resize allocated (record b { pol = pol }) new_size)
unfolding buffer_resize buffer_realloc_no_shrink buffer_realloc_shrink buffer_size buffer_size_real
buffer_resize-Resized true BufferPolicy.shrink b new_size = record {
  same_size = refl;
  same_real_size = refl;
  returned = refl;
  block_of = refl;
}
buffer_resize-Resized false BufferPolicy.shrink b new_size = record {
  same_size = refl;
  same_real_size = refl;
  returned = refl;
  block_of = refl;
}
buffer_resize-Resized true BufferPolicy.no_shrink b new_size =
    elim (Bool-cases (ltb new_size b.user_size)) [
      | inl less ↦ simp less (record {
        same_size = refl;
        same_real_size = refl;
        returned = ground (arith, less);
        block_of = ground (arith, less);
      })
      | inr more ↦ simp more (record {
        same_size = refl;
        same_real_size = refl;
        returned = ground (arith, more);
        block_of = ground (arith, more);
      })
    ]
buffer_resize-Resized false BufferPolicy.no_shrink b new_size =
    elim (Bool-cases (ltb new_size b.user_size)) [
      | inl less ↦ simp less (record {
        same_size = refl;
        same_real_size = refl;
        returned = ground (arith, less);
        block_of = ground (arith, less);
      })
      | inr more ↦ simp more (record {
        same_size = refl;
        same_real_size = refl;
        returned = ground (arith, more);
        block_of = ground (arith, more);
      })
    ]
