-- ===== src/Sockets/Binding.antt =====
-- The loop of network/ over the addresses: which socket it gives, and that it leaves none open.
use chats.Prelude.{
  ℕ, ◌≡◌, refl, Bool, true, false, not, Option, none, some, List, [], ◌∷◌, ◌++◌, arith,
  if◌then◌else◌, ◌||◌, ◌&&◌, ap,
}
use chats.Sockets.{Candidate, Bound, bind_loop}

-- The candidates that the loop looks at, with the sockets that it opens at them.
abbrev pub opened : List Candidate → List ℕ
opened [] = []
opened (c ∷ cs) = elim c.socket [
  | none ↦ opened cs
  | some sfd ↦ if c.setsockopt_fails || not c.bind_fails then sfd ∷ [] else sfd ∷ opened cs
]

-- The socket that is open behind the loop, where one is.
abbrev pub left_open : Bound → List ℕ
left_open (Bound.bound sfd addr) = sfd ∷ []
left_open Bound.exhausted = []
left_open (Bound.option_refused sfd) = sfd ∷ []

-- The loop goes on behind a candidate that gives no socket, or one that takes the option and cannot be
-- bound.
abbrev pub passed_over : Candidate → Bool
passed_over c = elim c.socket [ none ↦ true | some sfd ↦ not c.setsockopt_fails && c.bind_fails ]

-- The first candidate that is not passed over decides.
pub data FirstFit : List Candidate → Bound → Type 0 where
  none_left : FirstFit [] Bound.exhausted
  skipped :
      {c : Candidate} {cs : List Candidate} {b : Bound}
      → passed_over c ≡ true
      → FirstFit cs b
      → FirstFit (c ∷ cs) b
  fit :
      {c : Candidate} {cs : List Candidate} (sfd : ℕ)
      → c.socket ≡ some sfd
      → c.setsockopt_fails ≡ false
      → c.bind_fails ≡ false
      → FirstFit (c ∷ cs) (Bound.bound sfd c.addr)
  refused :
      {c : Candidate} {cs : List Candidate} (sfd : ℕ)
      → c.socket ≡ some sfd
      → c.setsockopt_fails ≡ true
      → FirstFit (c ∷ cs) (Bound.option_refused sfd)

-- What holds of the loop from the candidates `cs` on.
pub record Settled (cs : List Candidate) (r : Bound × List ℕ) : Type 0 where
  pub decided : FirstFit cs r.0
  pub closed : opened cs ≡ r.1 ++ left_open r.0

settle :
    (c : Candidate) (cs : List Candidate) (socket : Option ℕ) (setsockopt_fails bind_fails : Bool)
    → c.socket ≡ socket
    → c.setsockopt_fails ≡ setsockopt_fails
    → c.bind_fails ≡ bind_fails
    → Settled cs (bind_loop cs)
    → Settled (c ∷ cs) (bind_loop (c ∷ cs))
unfolding bind_loop
settle c cs none o b e f g rest =
    let passed : passed_over c ≡ true = ground arith in
    simp e (record { decided = skipped passed rest.decided; closed = simp e rest.closed })
settle c cs (some sfd) true b e f g rest =
    simp (e, f) (record { decided = refused sfd e f; closed = simp (e, f) refl })
settle c cs (some sfd) false true e f g rest =
    let passed : passed_over c ≡ true = ground arith in
    simp (e, f, g)
      (record {
        decided = skipped passed rest.decided;
        closed = simp (e, f, g) (ap (λ (l : List ℕ). sfd ∷ l) rest.closed);
      })
settle c cs (some sfd) false false e f g rest =
    simp (e, f, g) (record { decided = fit sfd e f g; closed = simp (e, f, g) refl })

-- The loop gives the socket of the first candidate that it can bind, stops at one that refuses the
-- option, and is exhausted where there is neither. The sockets that it opens are, in order, those
-- that it closes and the one that it leaves open: none but a socket bound, or one whose option was
-- refused.
pub bind_loop-Settled : (cs : List Candidate) → Settled cs (bind_loop cs)
unfolding bind_loop
bind_loop-Settled [] = record { decided = none_left; closed = refl }
bind_loop-Settled (c ∷ cs) =
    settle c cs c.socket c.setsockopt_fails c.bind_fails refl refl refl (bind_loop-Settled cs)
