-- ===== src/LinkedList/Ends.antt =====
-- common/list.c: looking at and removing the first element.
use chats.Prelude.{◌≡◌, ◌≢◌, refl, none, some, List, [], ◌∷◌}
use chats.LinkedList.{
  Ptr, null, data_or_null, Memory, load, remove_from, list_first_element, list_remove_element,
}
use chats.LinkedList.Chain.{first_or, IsList}
use chats.LinkedList.Links.{not_null, load_list_lem}
use chats.LinkedList.Removal.{Removed, remove_from-Removed}

pub list_first_element_lem :
    (l : Ptr) (s : Memory) (xs : List Ptr)
    → IsList s l xs
    → list_first_element l s ≡ some (data_or_null (first_or xs null))
unfolding list_first_element
list_first_element_lem l s xs is = simp (load_list_lem l s is.not_null is.known, is.starts) refl

pub list_remove-first :
    (l : Ptr) (s : Memory) (x : Ptr) (xs : List Ptr)
    → IsList s l (x ∷ xs)
    → (s' : Memory) × (list_remove_element l (data_or_null x) s ≡ some s') × Removed s s' l [] x xs
unfolding list_remove_element
list_remove-first l s x xs is =
    let (s', done, removed) = remove_from-Removed l x s [] xs is in
    (s', simp (not_null l is.not_null, not_null x is.chain.0, done) refl, removed)

-- Removing through NULL is a fault.
pub list_remove-nothing : (l : Ptr) (s : Memory) → l ≢ null → list_remove_element l null s ≡ none
unfolding list_remove_element remove_from load
list_remove-nothing l s n = rw (not_null l n) refl
