-- ===== src/LinkedList/Joining.antt =====
-- common/list.c: a new element between two parts of a list.
use chats.Prelude.{
  suc, ◌+◌, ◌%◌, ◌<◌, ◌^◌, ◌≡◌, ◌≢◌, refl, ap, ◌∙◌, true, false, Option, some, List, ◌∷◌, ◌++◌,
  arith, ◌==◌, length, length-append, Bool-cases, inl, inr,
}
use chats.LinkedList.{Ptr, null, LinkedList, Memory, put_element, put_list}
use chats.LinkedList.Chain.{
  first_or, last_or, occurs, occurs-append, IsDistinct, element, Chain, IsList, IsDistinct-append,
  IsDistinct-split, occurs_ne, Chain-frame, Chain-append,
}
use chats.LinkedList.Links.{put_element_self, Relinked}

-- The elements of the list at `l` were `xs` and are `ys`, linked in order and counted, but its first
-- and its last element are recorded as before; the rest of the memory is as it was.
pub record Inserted (s s' : Memory) (l : Ptr) (xs ys : List Ptr) : Type 0 where
  pub head : LinkedList
  pub known : s'.lists l ≡ some head
  pub counted : head.count ≡ length ys
  pub starts : head.first ≡ first_or xs null
  pub ends : head.last ≡ last_or xs null
  pub chain : Chain s'.elements l null ys null
  pub distinct : IsDistinct ys
  pub spared : (a : Ptr) → occurs a xs ≡ false → occurs a ys ≡ false → s'.elements a ≡ s.elements a
  pub others : (k : Ptr) → k ≢ l → s'.lists k ≡ s.lists k

-- The memory where the element at `a` is linked to both parts, and each of them to it.
pub record Joined (s s' : Memory) (l a : Ptr) (us ys : List Ptr) : Type 0 where
  pub front : Chain s'.elements l null us a
  pub back : Chain s'.elements l a ys null
  pub held : s'.elements a ≡ some (element (last_or us null) (first_or ys null) l)
  pub spared :
      (b : Ptr)
      → occurs b us ≡ false
      → occurs b ys ≡ false
      → (b == a) ≡ false
      → s'.elements b ≡ s.elements b
  pub lists : s'.lists ≡ s.lists

pub Joined-Inserted :
    (s s' : Memory) (l a : Ptr) (us ys : List Ptr) (is : IsList s l (us ++ ys))
    → a ≢ null
    → occurs a (us ++ ys) ≡ false
    → suc (length (us ++ ys)) < 2 ^ 64
    → Joined s s' l a us ys
    → Inserted s
        (put_list l (some (record is.head { count = (is.head.count + 1) % 2 ^ 64 })) s')
        l
        (us ++ ys)
        (us ++ a ∷ ys)
Joined-Inserted s s' l a us ys is n out room j =
    let (d, d', apart) = IsDistinct-split us ys is.distinct in
    let out_us : occurs a us ≡ false = ground (arith, occurs-append a us ys, out) in
    let out_ys : occurs a ys ≡ false = ground (arith, occurs-append a us ys, out) in
    record {
      head = record is.head { count = (is.head.count + 1) % 2 ^ 64 };
      known = ground arith;
      counted = omega (arith, is.counted, length-append us ys, length-append us (a ∷ ys), room);
      starts = is.starts;
      ends = is.ends;
      chain = Chain-append s'.elements l null us (a ∷ ys) null j.front (n, j.held, j.back);
      distinct =
          IsDistinct-append us (a ∷ ys) d (out_ys, d')
            (λ b m. ground (arith, apart b m, occurs_ne b a us m out_us));
      spared = λ b old young.
          j.spared b (ground (arith, occurs-append b us ys, old))
            (ground (arith, occurs-append b us ys, old))
            (ground (arith, occurs-append b us (a ∷ ys), young));
      others = λ k other. ground (arith, ap (λ (f : Ptr → Option LinkedList). f k) j.lists, other);
    }

-- Writes of the link in front and of the one behind, in either order, join the parts.
module _ (s s1 s2 : Memory) (l a : Ptr) (us ys : List Ptr) (out_us : occurs a us ≡ false)
    (out_ys : occurs a ys ≡ false)
    (apart : (b : Ptr) → occurs b us ≡ true → occurs b ys ≡ false) where
  apart' : (b : Ptr) → occurs b ys ≡ true → occurs b us ≡ false
  apart' b m = elim (Bool-cases (occurs b us)) [ inl o ↦ cc (apart b o) | inr free ↦ free ]

  abbrev pub start : Memory
  start = put_element a (some (element (last_or us null) (first_or ys null) l)) s

  pub Joined-front :
      Relinked start s1 l null us a → Relinked s1 s2 l a ys null → Joined s s2 l a us ys
  Joined-front r r' = record {
    front =
        Chain-frame s1.elements s2.elements l null us a (λ b m. r'.spared b (apart b m)) r.chain;
    back = r'.chain;
    held =
        r'.spared a out_ys
        ∙ r.spared a out_us
        ∙ put_element_self a (some (element (last_or us null) (first_or ys null) l)) s;
    spared = λ b u y other. r'.spared b y ∙ r.spared b u ∙ rw other refl;
    lists = r'.lists ∙ r.lists;
  }

  pub Joined-back :
      Relinked start s1 l a ys null → Relinked s1 s2 l null us a → Joined s s2 l a us ys
  Joined-back r r' = record {
    front = r'.chain;
    back =
        Chain-frame s1.elements s2.elements l a ys null (λ b m. r'.spared b (apart' b m)) r.chain;
    held =
        r'.spared a out_us
        ∙ r.spared a out_ys
        ∙ put_element_self a (some (element (last_or us null) (first_or ys null) l)) s;
    spared = λ b u y other. r'.spared b u ∙ r.spared b y ∙ rw other refl;
    lists = r'.lists ∙ r.lists;
  }
