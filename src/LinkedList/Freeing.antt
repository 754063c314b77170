-- ===== src/LinkedList/Freeing.antt =====
-- common/list.c: `list_deinit` comes to an end, and what it frees.
use chats.Prelude.{
  ℕ, zero, suc, ◌+◌, ◌<◌, ◌≡◌, ◌≢◌, refl, ◌∙◌, none, some, List, [], ◌∷◌, arith, length,
  if◌then◌else◌,
}
use chats.LinkedList.{Ptr, null, ListElement, Memory, put_element, put_list, free_loop, list_deinit}
use chats.LinkedList.Chain.{first_or, occurs, IsDistinct, Chain, IsList}
use chats.LinkedList.Links.{not_null, load_lem, load_list_lem, free_lem}
use chats.LinkedList.Growth.{Chain-put}

-- The elements `xs` are gone, and no other one.
pub record Freed (xs : List Ptr) (s s' : Memory) : Type 0 where
  pub elements : (a : Ptr) → s'.elements a ≡ (if occurs a xs then none else s.elements a)
  pub lists : s'.lists ≡ s.lists

free_loop_step :
    (rounds : ℕ) (p : Ptr) (s : Memory) {e : ListElement}
    → p ≢ null
    → s.elements p ≡ some e
    → free_loop (suc rounds) p s ≡ free_loop rounds e.next (put_element p none s)
unfolding free_loop
free_loop_step rounds p s n h =
    rw (not_null p n, free_loop, load_lem p s n h, free_lem p s n h) refl

-- The loop ends where it has a round more than there are elements.
free_loop-Freed :
    (rounds : ℕ) (l prev : Ptr) (xs : List Ptr) (s : Memory)
    → length xs < rounds
    → IsDistinct xs
    → Chain s.elements l prev xs null
    → (s' : Memory) × (free_loop rounds (first_or xs null) s ≡ some s') × Freed xs s s'
unfolding free_loop
free_loop-Freed zero l prev xs s enough d c = absurd (omega arith)
free_loop-Freed (suc rounds) l prev [] s enough d c =
    (s, refl, record { elements = λ a. refl; lists = refl })
free_loop-Freed (suc rounds) l prev (x ∷ xs) s enough d c =
    let (s', done, f) =
      free_loop-Freed rounds l x xs (put_element x none s) (omega arith) d.1
        (Chain-put s x l x none xs null d.0 c.2) in
    (
      s',
      free_loop_step rounds x s c.0 c.1 ∙ done,
      record { elements = λ a. ground (arith, f.elements a); lists = f.lists },
    )

-- `list_deinit` of a list ends without a fault: each of its elements is freed once, and the list; no
-- other element and no other list is. Of NULL it does nothing.
pub list_deinit-Freed :
    (l : Ptr) (s : Memory) (xs : List Ptr)
    → IsList s l xs
    → (list_deinit null s ≡ some s)
      × ((s' : Memory) × (list_deinit l s ≡ some (put_list l none s')) × Freed xs s s')
unfolding list_deinit
list_deinit-Freed l s xs is =
    let (s', done, f) =
      free_loop-Freed (suc (length xs)) l null xs s (omega arith) is.distinct is.chain in
    let rounds : is.head.count + 1 ≡ suc (length xs) = omega (arith, is.counted) in
    (
      refl,
      (
        s',
        simp
            (
              not_null l is.not_null,
              load_list_lem l s is.not_null is.known,
              rounds,
              is.starts,
              done,
            )
            refl,
        f,
      ),
    )
