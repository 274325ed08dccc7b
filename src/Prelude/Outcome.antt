-- ===== src/Prelude/Outcome.antt =====
-- How a kernel routine ends, and routines that change a state.
use mathlib.Core.Path.{◌≡◌, refl}
use mathlib.Core.Bool.{Bool, true, false}

-- `halt` is a failed `ASSERT` or a `panic`, after which the processor does nothing more. `spin` is a
-- loop that has used up the rounds given to it, or the wait for a lock that nobody releases.
pub data Outcome {ℓ} (A : Type ℓ) : Type ℓ where
  ok : A → Outcome A
  halt : Outcome A
  spin : Outcome A

abbrev pub Action : Type 0 → Type 0 → Type 0
Action S A = S → Outcome (A × S)

abbrev pub pure : {S A : Type 0} → A → Action S A
pure a s = ok (a, s)

infixl 5 ◌>>=◌ ◌>>◌
abbrev pub ◌>>=◌ : {S A B : Type 0} → Action S A → (A → Action S B) → Action S B
◌>>=◌ m f s = elim (m s) [ ok (a, s') ↦ f a s' | halt ↦ halt | spin ↦ spin ]

abbrev pub ◌>>◌ : {S B : Type 0} → Action S (Unit {0}) → Action S B → Action S B
m >> k = m >>= λ _. k

-- `ASSERT(b)`
abbrev pub assert : {S : Type 0} → Bool → Action S (Unit {0})
assert true s = ok (tt, s)
assert false s = halt

-- The routine returns, and this holds of what it returns.
abbrev pub Returns {ℓ} : {A : Type ℓ} → (A → Type 0) → Outcome A → Type 0
Returns P (ok a) = P a
Returns P halt = ⊥
Returns P spin = ⊥

-- What holds if the routine returns.
abbrev pub WhenOk {ℓ} : {A : Type ℓ} → (A → Type 0) → Outcome A → Type 0
WhenOk P (ok a) = P a
WhenOk P halt = Unit
WhenOk P spin = Unit

pub Returns-mono {ℓ} :
    {A : Type ℓ} (P Q : A → Type 0) (r : Outcome A)
    → ((a : A) → P a → Q a)
    → Returns P r
    → Returns Q r
Returns-mono P Q (ok a) f h = f a h
Returns-mono P Q halt f h = absurd h
Returns-mono P Q spin f h = absurd h

pub WhenOk-mono {ℓ} :
    {A : Type ℓ} (P Q : A → Type 0) (r : Outcome A)
    → ((a : A) → P a → Q a)
    → WhenOk P r
    → WhenOk Q r
WhenOk-mono P Q (ok a) f h = f a h
WhenOk-mono P Q halt f h = tt
WhenOk-mono P Q spin f h = tt

-- The rule for a sequence.
pub WhenOk->>= :
    {S A B : Type 0} (P : A × S → Type 0) (Q : B × S → Type 0) (m : Action S A) (f : A → Action S B)
    (s : S)
    → WhenOk P (m s)
    → ((a : A) (t : S) → P (a, t) → WhenOk Q (f a t))
    → WhenOk Q ((m >>= f) s)
WhenOk->>= {S} {A} P Q m f s h k = go (m s) h
  where
    go :
        (r : Outcome (A × S))
        → WhenOk P r
        → WhenOk Q (elim r [ ok (a, t) ↦ f a t | halt ↦ halt | spin ↦ spin ])
    go (ok (a, t)) p = k a t p
    go halt p = tt
    go spin p = tt

-- A sequence whose first routine returns.
pub >>=-ok :
    {S A B : Type 0} (m : Action S A) (k : A → Action S B) (s t : S) (a : A)
    → m s ≡ ok (a, t)
    → (m >>= k) s ≡ k a t
>>=-ok m k s t a e = rw (◌>>=◌, e) refl

pub >>-ok :
    {S B : Type 0} (m : Action S (Unit {0})) (k : Action S B) (s t : S)
    → m s ≡ ok (tt, t)
    → (m >> k) s ≡ k t
>>-ok m k s t e = >>=-ok m (λ _. k) s t tt e

-- The rule for a sequence that returns.
pub Returns->>= :
    {S A B : Type 0} (P : A × S → Type 0) (Q : B × S → Type 0) (m : Action S A) (f : A → Action S B)
    (s : S)
    → Returns P (m s)
    → ((a : A) (t : S) → P (a, t) → Returns Q (f a t))
    → Returns Q ((m >>= f) s)
Returns->>= {S} {A} P Q m f s h k = go (m s) h
  where
    go :
        (r : Outcome (A × S))
        → Returns P r
        → Returns Q (elim r [ ok (a, t) ↦ f a t | halt ↦ halt | spin ↦ spin ])
    go (ok (a, t)) p = k a t p
    go halt p = absurd p
    go spin p = absurd p

-- What holds if the routine returns, of a routine that does.
pub Returns-WhenOk :
    {A : Type 0} (P : A → Type 0) (r : Outcome A)
    → WhenOk P r
    → Returns (λ _. Unit {0}) r
    → Returns P r
Returns-WhenOk P (ok a) h e = h
Returns-WhenOk P halt h e = absurd e
Returns-WhenOk P spin h e = absurd e

-- A sequence whose first routine halts.
pub >>-halt :
    {S B : Type 0} (m : Action S (Unit {0})) (k : Action S B) (s : S)
    → m s ≡ halt
    → (m >> k) s ≡ halt
>>-halt m k s e = rw (◌>>=◌, e) refl

pub Returns-and :
    {A : Type 0} (P Q : A → Type 0) (r : Outcome A)
    → Returns P r
    → WhenOk Q r
    → Returns (λ a. P a × Q a) r
Returns-and P Q (ok a) h k = (h, k)
Returns-and P Q halt h k = h
Returns-and P Q spin h k = h
