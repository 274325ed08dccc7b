-- ===== src/Holes/Weigh.antt =====
-- Sums over the holes: how often a node occurs, how many holes hold an address.
use yaos.Prelude.{
  ℕ, ◌+◌, ◌<◌, ◌≤◌, ◌≡◌, refl, ◌⊎◌, inl, inr, Bool, true, false, ◌&&◌, Option, none, some, List, [],
  ◌∷◌, arith, Bool-cases, ltb, leb, ◌==◌, ==_iff, count_if, ap, subst,
}
use yaos.Holes.{Hole, link_after, link_sorted, first_fit, unlink, store}

abbrev pub weigh : (Hole → ℕ) → List Hole → ℕ
weigh f [] = 0
weigh f (h ∷ rest) = f h + weigh f rest

abbrev pub slots : ℕ → List Hole → ℕ
slots k = weigh (λ h. count_if (h.slot == k))

abbrev pub within : ℕ → ℕ → ℕ → Bool
within addr size a = leb addr a && ltb a (addr + size)

-- the number of holes that the address `a` lies in
abbrev pub cover : ℕ → List Hole → ℕ
cover a = weigh (λ h. count_if (within h.addr h.size a))

module _ (f : Hole → ℕ) where
  weigh-link_after : (p : Hole) (l : List Hole) → weigh f (link_after p l) ≡ f p + weigh f l
  unfolding link_after
  weigh-link_after p [] = refl
  weigh-link_after p (n ∷ rest) = ground (arith, weigh-link_after p rest)

  pub weigh-link_sorted : (p : Hole) (l : List Hole) → weigh f (link_sorted p l) ≡ f p + weigh f l
  unfolding link_sorted
  weigh-link_sorted p [] = refl
  weigh-link_sorted p (h ∷ rest) = ground (arith, weigh-link_after p rest)

-- A hole that was found is in the list.
slots-first_fit :
    (size : ℕ) (l : List Hole) (p : Hole) → first_fit size l ≡ some p → 1 ≤ slots p.slot l
unfolding first_fit
slots-first_fit size [] p e = cc
slots-first_fit size (h ∷ rest) p e = ground (arith, slots-first_fit size rest p)

pub size-first_fit :
    (size : ℕ) (l : List Hole) (p : Hole) → first_fit size l ≡ some p → size ≤ p.size
unfolding first_fit
size-first_fit size [] p e = cc
size-first_fit size (h ∷ rest) p e = ground (arith, size-first_fit size rest p)

pub not_found : (size : ℕ) (p : Hole) → ¬ (first_fit size [] ≡ some p)
unfolding first_fit
not_found size p e = cc e

pub first_fit-nil : (size : ℕ) → first_fit size [] ≡ none
unfolding first_fit
first_fit-nil size = refl

pub first_fit-skip :
    (size : ℕ) (h : Hole) (rest : List Hole)
    → h.size < size
    → first_fit size (h ∷ rest) ≡ first_fit size rest
unfolding first_fit
first_fit-skip size h rest lt = ground arith

-- The hole found is the first of the list, or it is found further on.
pub fit_cases :
    (size : ℕ) (h : Hole) (rest : List Hole) (p : Hole)
    → first_fit size (h ∷ rest) ≡ some p
    → (h ≡ p) ⊎ (first_fit size rest ≡ some p)
unfolding first_fit
fit_cases size h rest p e = elim (Bool-cases (ltb h.size size)) [
  | inl small ↦ inr (rw small at e)
  | inr fits ↦ let e' : some h ≡ some p = rw fits at e in inl cc
]

pub slot_self : (h p : Hole) → h ≡ p → (h.slot == p.slot) ≡ true
slot_self h p e = subst (λ (x : Hole). (h.slot == x.slot) ≡ true) e ((==_iff h.slot h.slot).1 refl)

-- An unlinked list is the tail, or keeps the head.
pub unlink_cases :
    (slot : ℕ) (h : Hole) (rest r : List Hole)
    → unlink slot (h ∷ rest) ≡ some r
    → (rest ≡ r) ⊎ ((r' : List Hole) × (unlink slot rest ≡ some r') × (h ∷ r' ≡ r))
unfolding unlink
unlink_cases slot h rest r e = elim (Bool-cases (h.slot == slot)) [
  | inl here ↦ let e' : some rest ≡ some r = rw here at e in inl cc
  | inr on ↦ inr (go (unlink slot rest) refl (rw on at e))
]
  where
    go :
        (out : Option (List Hole))
        → unlink slot rest ≡ out
        → elim out [ none ↦ none | some q ↦ some (h ∷ q) ] ≡ some r
        → (r' : List Hole) × (unlink slot rest ≡ some r') × (h ∷ r' ≡ r)
    go none e' he = cc
    go (some q) e' he = (q, e', cc)

-- Taking a hole out, or changing it, where its node occurs once.
abbrev pub Unlinked : Hole → List Hole → Option (List Hole) → Type 0
Unlinked p l none = ⊥
Unlinked p l (some rest) = (f : Hole → ℕ) → weigh f l ≡ f p + weigh f rest

pub found_later :
    (size : ℕ) (h : Hole) (rest : List Hole) (p : Hole)
    → first_fit size rest ≡ some p
    → slots p.slot (h ∷ rest) ≤ 1
    → (h.slot == p.slot) ≡ false
found_later size h rest p e once = ground (arith, slots-first_fit size rest p e)

Unlinked-cons :
    (p h : Hole) (rest : List Hole) (out : Option (List Hole))
    → Unlinked p rest out
    → Unlinked p (h ∷ rest) (elim out [ none ↦ none | some r ↦ some (h ∷ r) ])
Unlinked-cons p h rest none u = u
Unlinked-cons p h rest (some r) u = λ f. omega (arith, u f)

pub unlink-Unlinked :
    (size : ℕ) (l : List Hole) (p : Hole)
    → first_fit size l ≡ some p
    → slots p.slot l ≤ 1
    → Unlinked p l (unlink p.slot l)
unfolding unlink
unlink-Unlinked size [] p e once = absurd (not_found size p e)
unlink-Unlinked size (h ∷ rest) p e once = elim (fit_cases size h rest p e) [
  | inl same ↦ rw (slot_self h p same) (λ f. ap (λ (x : Hole). f x + weigh f rest) same)
  | inr later ↦
      rw (found_later size h rest p later once)
        (Unlinked-cons p h rest _ (unlink-Unlinked size rest p later (omega arith)))
]

pub weigh-store :
    (f : Hole → ℕ) (size : ℕ) (l : List Hole) (p p' : Hole)
    → first_fit size l ≡ some p
    → slots p.slot l ≤ 1
    → p'.slot ≡ p.slot
    → weigh f (store p' l) + f p ≡ weigh f l + f p'
unfolding store
weigh-store f size [] p p' e once same = absurd (not_found size p e)
weigh-store f size (h ∷ rest) p p' e once same = elim (fit_cases size h rest p e) [
  | inl here ↦
      let hit : (h.slot == p'.slot) ≡ true = ground (arith, slot_self h p here) in
      rw hit (omega (arith, ap f here))
  | inr later ↦
      let miss : (h.slot == p'.slot) ≡ false =
        ground (arith, found_later size h rest p later once) in
      rw miss (omega (arith, weigh-store f size rest p p' later (omega arith) same))
]
