-- ===== src/Network/Windows.antt =====
-- Parts of a buffer that system calls of network/network.c moved one after another.
use mathlib.Core.List.{append-nil, append_assoc}
use chats.Prelude.{
  ℕ, zero, suc, ◌+◌, ◌≡◌, refl, sym, ap, ◌∙◌, List, [], ◌∷◌, ◌++◌, arith, take, drop,
}
use chats.Network.{Window}

-- Windows that follow one another from `a` to `b`.
abbrev pub Consecutive : ℕ → List Window → ℕ → Type 0
Consecutive a [] b = a ≡ b
Consecutive a (w ∷ ws) b = (w.offset ≡ a) × Consecutive (a + w.count) ws b

-- The bytes of `buffer` that the windows cover, one window after another.
abbrev pub gather : List ℕ → List Window → List ℕ
gather buffer [] = []
gather buffer (w ∷ ws) = take w.count (drop w.offset buffer) ++ gather buffer ws

take-nil : (n : ℕ) → take {A = ℕ} n [] ≡ []
take-nil zero = refl
take-nil (suc n) = refl

shift : (a n : ℕ) → suc (a + n) ≡ suc a + n
shift a n = omega arith

drop-take : (a n : ℕ) (xs : List ℕ) → take a xs ++ take n (drop a xs) ≡ take (a + n) xs
drop-take zero n xs = ap (λ k. take k xs) (omega arith)
drop-take (suc a) n [] = take-nil n ∙ sym (take-nil (suc a + n))
drop-take (suc a) n (x ∷ xs) =
    ap (λ ys. x ∷ ys) (drop-take a n xs) ∙ ap (λ k. take k (x ∷ xs)) (shift a n)

pub gather-Consecutive :
    (buffer : List ℕ) (a b : ℕ) (ws : List Window)
    → Consecutive a ws b
    → take a buffer ++ gather buffer ws ≡ take b buffer
gather-Consecutive buffer a b [] c = append-nil (take a buffer) ∙ ap (λ k. take k buffer) c
gather-Consecutive buffer a b (w ∷ ws) (start, c) =
    ap (λ k. take a buffer ++ (take w.count (drop k buffer) ++ gather buffer ws)) start
    ∙ sym (append_assoc (take a buffer) (take w.count (drop a buffer)) (gather buffer ws))
    ∙ ap (λ ys. ys ++ gather buffer ws) (drop-take a w.count buffer)
    ∙ gather-Consecutive buffer (a + w.count) b ws c
