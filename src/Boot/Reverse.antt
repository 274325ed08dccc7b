-- ===== src/Boot/Reverse.antt =====
-- `deal_reverse`: what it passes on of a region that may meet reserved ones.
use yaos.Prelude.{
  ℕ, zero, suc, ◌+◌, ◌-◌, ◌*◌, ◌%◌, ◌^◌, ◌≤◌, ◌<◌, ◌≡◌, refl, sym, ap, ap₂, ◌∙◌, ◌⊎◌, inl, inr,
  Bool, true, false, ◌&&◌, Option, none, some, Option-cases, List, [], ◌∷◌, All, arith, Bool-cases,
  leb, ltb, if_true, if_false,
}
use yaos.Prelude.Outcome.{Outcome, ok, halt, spin, Action, ◌>>◌, assert, WhenOk, WhenOk->>=, >>-ok}
use yaos.Boot.{Region, stop_of, minus, first_reverse, deal_over, deal_reverse}

-- A reserved region that lies in the address space and ends at most at `max`.
abbrev pub IsReserved : ℕ → Region → Type 0
IsReserved max r = (r.addr + r.size < 2 ^ 64) × (r.addr + r.size ≤ max)

-- The region, if it does not run over the end of the address space, meets the reserved one nowhere.
abbrev pub IsClear : ℕ → ℕ → Region → Type 0
IsClear addr size r = addr + size < 2 ^ 64 → (addr + size ≤ r.addr) ⊎ (r.addr + r.size ≤ addr)

behind-IsClear :
    (max addr size : ℕ) (rev : List Region)
    → All (IsReserved max) rev
    → max < addr
    → All (IsClear addr size) rev
behind-IsClear max addr size [] h lt = tt
behind-IsClear max addr size (r ∷ rev) h lt =
    ((λ _. inr (omega (arith, h.0.1, lt))), behind-IsClear max addr size rev h.1 lt)

none-IsClear :
    (max addr size : ℕ) (rev : List Region)
    → All (IsReserved max) rev
    → first_reverse addr size rev ≡ none
    → All (IsClear addr size) rev
unfolding first_reverse
none-IsClear max addr size [] h e = tt
none-IsClear max addr size (r ∷ rev) h e = elim (Bool-cases (leb (stop_of r) addr)) [
  | inl a ↦ (
    (λ _. inr (ground (arith, a, h.0.0))),
    none-IsClear max addr size rev h.1 (sym (if_true (leb (stop_of r) addr) _ _ a) ∙ e),
  )
  | inr a ↦ elim (Bool-cases (leb ((addr + size) % 2 ^ 64) r.addr)) [
    | inl b ↦ (
      (λ fits. inl (ground (arith, b, fits))),
      none-IsClear max addr size rev h.1 (
          sym (
            if_false (leb (stop_of r) addr) _ _ a
            ∙ if_true (leb ((addr + size) % 2 ^ 64) r.addr) _ _ b)
          ∙ e),
    )
    | inr b ↦ absurd (
        (cc (
          sym (
            if_false (leb (stop_of r) addr) _ _ a
            ∙ if_false (leb ((addr + size) % 2 ^ 64) r.addr) _ _ b)
          ∙ e)))
  ]
]

module _ {S : Type 0} (report : ℕ → ℕ → Action S (Unit {0})) (P : S → Type 0) (rev : List Region)
    (max : ℕ) where
  abbrev Kept : Unit {0} × S → Type 0
  Kept (_, t) = P t

  asserted : (b : Bool) (s : S) → P s → WhenOk Kept (assert b s)
  asserted true s p = p
  asserted false s p = tt

  over-Kept :
      (again : ℕ → ℕ → Action S (Unit {0}))
      → ((a n : ℕ) (s : S) → P s → WhenOk Kept (again a n s))
      → (addr size : ℕ) (r : Region) (s : S) → P s
      → WhenOk Kept (deal_over report again addr size r s)
  over-Kept again h addr size r s p =
      elim (Bool-cases (leb r.addr addr && leb ((addr + size) % 2 ^ 64) (stop_of r))) [
        | inl e ↦ rw e p
        | inr e ↦ elim (Bool-cases (leb r.addr addr)) [
          | inl e' ↦ rw (e, e') (h (stop_of r) (minus (size + addr) (stop_of r)) s p)
          | inr e' ↦
              rw (e, e')
                (WhenOk->>= Kept Kept (assert (leb addr r.addr)) _ s
                  (asserted (leb addr r.addr) s p)
                  (λ _ t q.
                    WhenOk->>= Kept Kept (again addr (minus r.addr addr)) _ t
                      (h addr (minus r.addr addr) t q)
                      (λ _ u q'. h ((r.addr + size) % 2 ^ 64) (minus (size + addr) r.addr) u q')))
        ]
      ]

  -- deal_reverse passes on no region that meets a reserved one, unless the region runs over the end of
  -- the address space: what every `report` of a region apart from all reserved ones keeps, when it
  -- returns, deal_reverse keeps when it returns. The reserved regions lie in the address space and end at
  -- most at max_reverse_addr.
  pub deal_reverse-IsClear :
      All (IsReserved max) rev
      → ((a n : ℕ) (s : S) → P s → All (IsClear a n) rev → WhenOk (λ (_, t). P t) (report a n s))
      → (rounds addr size : ℕ) (s : S) → P s
      → WhenOk (λ (_, t). P t) (deal_reverse report rev max rounds addr size s)
  unfolding deal_reverse
  deal_reverse-IsClear reserved h zero addr size s p = tt
  deal_reverse-IsClear reserved h (suc rounds) addr size s p = elim (Bool-cases (ltb max addr)) [
    | inl e ↦ rw e (h addr size s p (behind-IsClear max addr size rev reserved (ground (arith, e))))
    | inr e ↦ elim (Option-cases (first_reverse addr size rev)) [
      | inl e' ↦ rw (e, e') (h addr size s p (none-IsClear max addr size rev reserved e'))
      | inr (r, e') ↦
          rw (e, e')
            (over-Kept (deal_reverse report rev max rounds) (deal_reverse-IsClear reserved h rounds)
              addr size r s p)
    ]
  ]

>>-same :
    {S : Type 0} (m m' k k' : Action S (Unit {0})) (s : S)
    → m s ≡ m' s
    → ((t : S) → k t ≡ k' t)
    → (m >> k) s ≡ (m' >> k') s
>>-same {S} m m' k k' s e same =
    ap
      (λ (o : Outcome (Unit {0} × S)). elim o as (λ _. Outcome (Unit {0} × S)) [
        | ok (_, t) ↦ k t
        | halt ↦ halt
        | spin ↦ spin
      ])
      e
    ∙ go (m' s)
  where
    go :
        (o : Outcome (Unit {0} × S))
        → (elim o as (λ _. Outcome (Unit {0} × S)) [ ok (_, t) ↦ k t | halt ↦ halt | spin ↦ spin ])
          ≡ (elim o as (λ _. Outcome (Unit {0} × S)) [
            | ok (_, t) ↦ k' t
            | halt ↦ halt
            | spin ↦ spin
          ])
    go (ok (_, t)) = same t
    go halt = refl
    go spin = refl

first_reverse-none :
    (addr size : ℕ) (r : Region)
    → (addr + size) % 2 ^ 64 ≤ r.addr
    → first_reverse addr size (r ∷ []) ≡ none
unfolding first_reverse
first_reverse-none addr size r before = elim (Bool-cases (leb (stop_of r) addr)) [
  | inl e ↦ if_true (leb (stop_of r) addr) _ _ e
  | inr e ↦
      if_false (leb (stop_of r) addr) _ _ e
      ∙ if_true (leb ((addr + size) % 2 ^ 64) r.addr) _ _ (ground (arith, before))
]

module _ {S : Type 0} (report : ℕ → ℕ → Action S (Unit {0})) (r : Region) where
  deal-behind :
      (rounds addr size : ℕ) (s : S)
      → stop_of r < addr
      → deal_reverse report (r ∷ []) (stop_of r) (suc rounds) addr size s ≡ report addr size s
  unfolding deal_reverse
  deal-behind rounds addr size s lt = if_true (ltb (stop_of r) addr) _ _ (ground (arith, lt))

  deal-before :
      (rounds addr size : ℕ) (s : S)
      → addr ≤ stop_of r
      → (addr + size) % 2 ^ 64 ≤ r.addr
      → deal_reverse report (r ∷ []) (stop_of r) (suc rounds) addr size s ≡ report addr size s
  unfolding deal_reverse first_reverse
  deal-before rounds addr size s le before =
      if_false (ltb (stop_of r) addr) _ _ (ground (arith, le))
      ∙ ap
          (λ (o : Option Region). elim o as (λ _. Outcome (Unit {0} × S)) [
            | none ↦ report addr size s
            | some r' ↦
                deal_over report (deal_reverse report (r ∷ []) (stop_of r) rounds) addr size r' s
          ])
          (first_reverse-none addr size r before)

  -- the two parts that are dealt with again
  parts_lem :
      (rounds addr size : ℕ) (s : S)
      → addr < r.addr
      → r.addr + r.size < addr + size
      → addr + 2 * size < 2 ^ 64
      → (deal_reverse report (r ∷ []) (stop_of r) (suc rounds) addr (minus r.addr addr)
            >> deal_reverse report
                (r ∷ [])
                (stop_of r)
                (suc rounds)
                ((r.addr + size) % 2 ^ 64)
                (minus (size + addr) r.addr))
          s
        ≡ (report addr (r.addr - addr) >> report (r.addr + size) (addr + size - r.addr)) s
  parts_lem rounds addr size s lt within fits =
      let before : minus r.addr addr ≡ r.addr - addr = omega (arith, lt, within, fits) in
      let at : (r.addr + size) % 2 ^ 64 ≡ r.addr + size = omega (arith, lt, within, fits) in
      let rest : minus (size + addr) r.addr ≡ addr + size - r.addr =
        omega (arith, lt, within, fits) in
      let again : ℕ → ℕ → Action S (Unit {0}) =
        deal_reverse report (r ∷ []) (stop_of r) (suc rounds) in
      >>-same (again addr (minus r.addr addr)) (report addr (r.addr - addr))
        (again ((r.addr + size) % 2 ^ 64) (minus (size + addr) r.addr))
        (report (r.addr + size) (addr + size - r.addr)) s
        (deal-before rounds addr (minus r.addr addr) s (omega (arith, lt, within, fits))
            (omega (arith, before, lt, within, fits))
          ∙ ap (λ n. report addr n s) before)
        (λ t.
          deal-behind rounds ((r.addr + size) % 2 ^ 64) (minus (size + addr) r.addr) t
            (omega (arith, at, lt, within, fits))
          ∙ ap₂ (λ a n. report a n t) at rest)

  -- A region with the only reserved one strictly inside it, twice the size of which fits behind it in the
  -- address space: what lies behind the reserved region is not passed on. In its place the
  -- memory from the start of the reserved region and the size of the whole region on is, which
  -- lies behind the end of the region.
  pub deal_reverse-lost :
      (rounds addr size : ℕ) (s : S)
      → addr < r.addr
      → r.addr + r.size < addr + size
      → addr + 2 * size < 2 ^ 64
      → deal_reverse report (r ∷ []) (stop_of r) (suc (suc rounds)) addr size s
        ≡ (report addr (r.addr - addr) >> report (r.addr + size) (addr + size - r.addr)) s
  unfolding deal_reverse first_reverse
  deal_reverse-lost rounds addr size s lt within fits =
      let again : ℕ → ℕ → Action S (Unit {0}) =
        deal_reverse report (r ∷ []) (stop_of r) (suc rounds) in
      let below : leb addr r.addr ≡ true = ground (arith, lt) in
      if_false (ltb (stop_of r) addr) _ _ (ground (arith, lt, within, fits))
      ∙ ap
          (λ (o : Option Region). elim o as (λ _. Outcome (Unit {0} × S)) [
            | none ↦ report addr size s
            | some r' ↦ deal_over report again addr size r' s
          ])
          (if_false (leb (stop_of r) addr) _ _ (ground (arith, lt, within, fits))
            ∙ if_false (leb ((addr + size) % 2 ^ 64) r.addr) _ (some r)
                (ground (arith, lt, within, fits)))
      ∙ ap (λ (m : Action S (Unit {0})). m s)
          (if_false (leb r.addr addr && leb ((addr + size) % 2 ^ 64) (stop_of r)) _ _
              (ground (arith, lt))
            ∙ if_false (leb r.addr addr) _ _ (ground (arith, lt)))
      ∙ >>-ok (assert (leb addr r.addr))
          (again addr (minus r.addr addr)
            >> again ((r.addr + size) % 2 ^ 64) (minus (size + addr) r.addr))
          s s (ap (λ b. assert b s) below)
      ∙ parts_lem rounds addr size s lt within fits
