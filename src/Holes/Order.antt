-- ===== src/Holes/Order.antt =====
-- The holes lie in the order of their addresses and do not overlap; linking, unlinking and
-- shrinking keep it so.
use yaos.Prelude.{
  ℕ, ◌+◌, ◌≤◌, ◌<◌, ◌≡◌, refl, ◌⊎◌, inl, inr, true, false, some, List, [], ◌∷◌, arith, Bool-cases,
  ltb, ◌==◌, ap, subst, All, All-map,
}
use native.Mathlib.Decide.{dec_lt}
use yaos.Holes.{Hole, link_after, link_sorted, first_fit, unlink, store}
use yaos.Holes.Weigh.{
  slots, within, cover, fit_cases, not_found, found_later, slot_self, unlink_cases,
}

abbrev pub Ordered : List Hole → Type 0
Ordered [] = Unit
Ordered (h ∷ rest) = All (λ (x : Hole). h.addr + h.size ≤ x.addr) rest × Ordered rest

abbrev pub IsNonempty : Hole → Type 0
IsNonempty h = 0 < h.size

abbrev pub Apart : Hole → Hole → Type 0
Apart p x = (p.addr + p.size ≤ x.addr) ⊎ (x.addr + x.size ≤ p.addr)

module _ (P : Hole → Type 0) where
  All-link_after : (p : Hole) (l : List Hole) → P p → All P l → All P (link_after p l)
  unfolding link_after
  All-link_after p [] hp hl = (hp, tt)
  All-link_after p (n ∷ rest) hp hl = elim (Bool-cases (ltb n.addr p.addr)) [
    | inl on ↦ rw on (hl.0, All-link_after p rest hp hl.1)
    | inr here ↦ rw here (hp, hl)
  ]

  pub All-link_sorted : (p : Hole) (l : List Hole) → P p → All P l → All P (link_sorted p l)
  unfolding link_sorted
  All-link_sorted p [] hp hl = (hp, tt)
  All-link_sorted p (h ∷ rest) hp hl = elim (Bool-cases (ltb p.addr h.addr)) [
    | inl front ↦ rw front (hp, hl)
    | inr on ↦ rw on (hl.0, All-link_after p rest hp hl.1)
  ]

  pub All-first_fit :
      (size : ℕ) (l : List Hole) (p : Hole) → first_fit size l ≡ some p → All P l → P p
  All-first_fit size [] p e hl = absurd (not_found size p e)
  All-first_fit size (h ∷ rest) p e hl = elim (fit_cases size h rest p e) [
    | inl same ↦ subst P same hl.0
    | inr later ↦ All-first_fit size rest p later hl.1
  ]

  pub All-unlink :
      (slot : ℕ) (l : List Hole) (r : List Hole) → unlink slot l ≡ some r → All P l → All P r
  unfolding unlink
  All-unlink slot [] r e hl = cc e
  All-unlink slot (h ∷ rest) r e hl = elim (unlink_cases slot h rest r e) [
    | inl same ↦ subst (All P) same hl.1
    | inr (r', e', same) ↦ subst (All P) same (hl.0, All-unlink slot rest r' e' hl.1)
  ]

  pub All-store : (p : Hole) (l : List Hole) → P p → All P l → All P (store p l)
  unfolding store
  All-store p [] hp hl = tt
  All-store p (h ∷ rest) hp hl = elim (Bool-cases (h.slot == p.slot)) [
    | inl here ↦ rw here (hp, hl.1)
    | inr on ↦ rw on (hl.0, All-store p rest hp hl.1)
  ]

-- Linking a region that is apart from the holes.
link_after-Ordered :
    (p : Hole) (l : List Hole)
    → IsNonempty p
    → All IsNonempty l
    → All (Apart p) l
    → Ordered l
    → Ordered (link_after p l)
unfolding link_after
link_after-Ordered p [] np nl apart ord = (tt, tt)
link_after-Ordered p (n ∷ rest) np nl apart ord = elim (Bool-cases (ltb n.addr p.addr)) [
  | inl on ↦ rw on (
    All-link_after _ p rest (ground (arith, apart.0)) ord.0,
    link_after-Ordered p rest np nl.1 apart.1 ord.1,
  )
  | inr here ↦
      let before : p.addr + p.size ≤ n.addr = ground (arith, apart.0) in
      rw here ((before, All-map (λ x le. omega arith) rest ord.0), ord)
]

pub link_sorted-Ordered :
    (p : Hole) (l : List Hole)
    → IsNonempty p
    → All IsNonempty l
    → All (Apart p) l
    → Ordered l
    → Ordered (link_sorted p l)
unfolding link_sorted
link_sorted-Ordered p [] np nl apart ord = (tt, tt)
link_sorted-Ordered p (h ∷ rest) np nl apart ord = elim (Bool-cases (ltb p.addr h.addr)) [
  | inl front ↦
      let before : p.addr + p.size ≤ h.addr = ground (arith, apart.0) in
      rw front ((before, All-map (λ x le. omega arith) rest ord.0), ord)
  | inr on ↦ rw on (
    All-link_after _ p rest (ground (arith, apart.0)) ord.0,
    link_after-Ordered p rest np nl.1 apart.1 ord.1,
  )
]

pub unlink-Ordered : (slot : ℕ) (l r : List Hole) → unlink slot l ≡ some r → Ordered l → Ordered r
unfolding unlink
unlink-Ordered slot [] r e ord = cc e
unlink-Ordered slot (h ∷ rest) r e ord = elim (unlink_cases slot h rest r e) [
  | inl same ↦ subst Ordered same ord.1
  | inr (r', e', same) ↦
      subst Ordered same (All-unlink _ slot rest r' e' ord.0, unlink-Ordered slot rest r' e' ord.1)
]

-- Shrinking the hole that was found, from below.
pub store-Ordered :
    (size : ℕ) (l : List Hole) (p p' : Hole)
    → first_fit size l ≡ some p
    → slots p.slot l ≤ 1
    → p'.slot ≡ p.slot
    → p.addr ≤ p'.addr
    → p'.addr + p'.size ≤ p.addr + p.size
    → Ordered l
    → Ordered (store p' l)
unfolding store
store-Ordered size [] p p' e once same lo hi ord = tt
store-Ordered size (h ∷ rest) p p' e once same lo hi ord = elim (fit_cases size h rest p e) [
  | inl here ↦
      let hit : (h.slot == p'.slot) ≡ true = ground (arith, slot_self h p here) in
      let end : h.addr + h.size ≡ p.addr + p.size = ap (λ (x : Hole). x.addr + x.size) here in
      rw hit (All-map (λ x le. omega arith) rest ord.0, ord.1)
  | inr later ↦
      let miss : (h.slot == p'.slot) ≡ false =
        ground (arith, found_later size h rest p later once) in
      let above : h.addr + h.size ≤ p.addr = All-first_fit _ size rest p later ord.0 in
      rw miss (
        All-store _ p' rest (omega arith) ord.0,
        store-Ordered size rest p p' later (omega arith) same lo hi ord.1,
      )
]

-- First fit takes the lowest hole that is large enough.
pub first_fit-lowest :
    (size : ℕ) (l : List Hole) (p : Hole)
    → Ordered l
    → first_fit size l ≡ some p
    → All (λ (h : Hole). h.addr < p.addr → h.size < size) l
unfolding first_fit
first_fit-lowest size [] p ord e = tt
first_fit-lowest size (h ∷ rest) p ord e = elim (Bool-cases (ltb h.size size)) [
  | inl small ↦ (λ lt. ground arith, first_fit-lowest size rest p ord.1 (rw small at e))
  | inr fits ↦
      let e' : some h ≡ some p = rw fits at e in
      let here : h ≡ p = cc in
      let at : h.addr ≡ p.addr = ap (λ (x : Hole). x.addr) here in
      (λ lt. absurd (omega arith), All-map (λ x le lt. absurd (omega arith)) rest ord.0)
]

-- Ordered holes cover no address twice.
cover-below :
    (a end : ℕ) (l : List Hole) → a < end → All (λ (x : Hole). end ≤ x.addr) l → cover a l ≡ 0
cover-below a end [] lt h = refl
cover-below a end (x ∷ l) lt h = ground (arith, cover-below a end l lt h.1)

pub cover-Ordered : (a : ℕ) (l : List Hole) → Ordered l → cover a l ≤ 1
cover-Ordered a [] ord = omega arith
cover-Ordered a (h ∷ rest) ord = elim (dec_lt a (h.addr + h.size)) [
  | yes lt ↦ ground (arith, cover-below a (h.addr + h.size) rest lt ord.0)
  | no ge ↦ ground (arith, cover-Ordered a rest ord.1)
]

-- A region that no hole covers is apart from each of them.
pub Apart-of_vacant :
    (p : Hole) (l : List Hole)
    → IsNonempty p
    → All IsNonempty l
    → ((a : ℕ) → within p.addr p.size a ≡ true → cover a l ≡ 0)
    → All (Apart p) l
Apart-of_vacant p [] np nl vacant = tt
Apart-of_vacant p (h ∷ rest) np nl vacant = (
  ground (arith, vacant p.addr, vacant h.addr),
  Apart-of_vacant p rest np nl.1 λ a i. omega (arith, vacant a i),
)
