-- ===== src/Phymem/Alloc.antt =====
-- `alloc_phy_page`: what it returns, when it returns, and when it does not.
use yaos.Prelude.{
  ℕ, zero, suc, ◌+◌, ◌-◌, ◌*◌, ◌/◌, ◌<◌, ◌≡◌, refl, ◌≢◌, ◌∙◌, ap, subst, inl, inr, true, false,
  Option, none, some, arith, Bool-cases, ◌==◌, count_if, length,
}
use yaos.Prelude.Outcome.{ok}
use yaos.Bitmap.{ffs, word, test_bit, write_bit}
use yaos.Bitmap.Laws.{ffs-set, ffs-test_bit}
use yaos.Bitmap.Ones.{all_ones-write}
use yaos.Phymem.{Phymem, page_size, get_none_zero, try_word, alloc_round, alloc_phy_page}
use yaos.Phymem.Scan.{Found, get_none_zero-Found}
use yaos.Phymem.Inv.{IsValid, is_free, taken, Took, write-IsValid, count-write, move-IsValid}

-- what a round leaves behind, by its result
abbrev RoundDone : Phymem → Option ℕ × Phymem → Type 0
RoundDone s (some addr, s') = IsValid s' × Took s addr s' × (s'.max_phy_addr ≡ s.max_phy_addr)
RoundDone s (none, s') =
    IsValid s' × ((k : ℕ) → is_free s k ≡ is_free s' k) × (s'.max_phy_addr ≡ s.max_phy_addr)

module _ {s : Phymem} (v : IsValid s) (p k : ℕ) (h : p < length s.pgbits)
    (e : ffs (word s.pgbits p) ≡ suc k) where
  unfoldable pub hit : Phymem
  hit = record s { pgbits = write_bit (p * 64 + k) false s.pgbits; pages = s.pages - 1 }

  was_set : test_bit (p * 64 + k) s.pgbits ≡ true
  was_set = ffs-test_bit s.pgbits p k e

  pub not_origin : p * 64 + k ≢ 0
  not_origin z =
      let same : test_bit (p * 64 + k) s.pgbits ≡ test_bit 0 s.pgbits = rw z in
      cc (was_set, same, v.origin)

  inside : (p * 64 + k) / 64 < length s.pgbits
  inside = omega (arith, (ffs-set (word s.pgbits p) k e).1)

  pub try_word-hit : try_word p s ≡ (some (page_size * (k + p * 64)), hit)
  unfolding try_word hit
  try_word-hit =
      let pred : suc k - 1 ≡ k = omega arith in
      let more : (suc k == 0) ≡ false = ground arith in rw (e, more, pred, was_set)

  hit-IsValid : IsValid hit
  unfolding hit
  hit-IsValid = write-IsValid v (p * 64 + k) (s.pages - 1) false not_origin inside (
      omega (
        arith,
        ap count_if was_set,
        v.counted,
        all_ones-write s.pgbits (p * 64 + k) false v.words inside,
      ))

  hit-Took : Took s (page_size * (k + p * 64)) hit
  unfolding hit
  hit-Took = (
    omega arith,
    λ j. ground (arith, count-write v (p * 64 + k) j false inside, was_set, not_origin),
  )

try_word-RoundDone :
    {s : Phymem}
    → IsValid s
    → (p n : ℕ) → p < length s.pgbits
    → ffs (word s.pgbits p) ≡ n
    → RoundDone s (try_word p s)
unfolding try_word hit
try_word-RoundDone {s} v p zero h e = rw e (v, λ k. refl, refl)
try_word-RoundDone {s} v p (suc k) h e =
    rw (try_word-hit v p k h e) (hit-IsValid v p k h e, hit-Took v p k h e, refl)

Took-zero :
    (s : Phymem) (k : ℕ) → count_if (is_free s k) ≡ count_if (is_free s k) + count_if (taken 0 k)
Took-zero s k = omega arith

-- The round after the search, which found `out`.
unfoldable pub after_search : Phymem → Option ℕ × ℕ → Option ℕ × Phymem
after_search s (p, now) =
    let s' : Phymem = record s { pnow = now } in
    elim p [ none ↦ (some 0, s') | some i ↦ try_word i s' ]

pub alloc_round-search :
    (s : Phymem) → (s.pages == 0) ≡ false → alloc_round s ≡ after_search s (get_none_zero s)
unfolding alloc_round after_search
alloc_round-search s h = rw h

after_search-RoundDone :
    {s : Phymem} → IsValid s → (out : Option ℕ × ℕ) → Found s out → RoundDone s (after_search s out)
unfolding after_search
after_search-RoundDone {s} v (none, now) (lo, clear) =
    (move-IsValid v now (omega (arith, v.now_in, v.large)), (omega arith, λ k. Took-zero s k), refl)
after_search-RoundDone {s} v (some p, now) (same, full, lo) =
    let at : now < length s.pgbits = omega (arith, v.now_in, v.max_in) in
    try_word-RoundDone (move-IsValid v now at) p _ (omega arith) refl

alloc_round-RoundDone : {s : Phymem} → IsValid s → RoundDone s (alloc_round s)
unfolding alloc_round
alloc_round-RoundDone {s} v = elim (Bool-cases (s.pages == 0)) [
  | inl none_left ↦ rw none_left (v, (omega arith, λ k. Took-zero s k), refl)
  | inr more ↦ rw (alloc_round-search s more) (after_search-RoundDone v _ (get_none_zero-Found s))
]

-- what a call that returns has done
abbrev pub Allocated : Phymem → ℕ → Phymem → Type 0
Allocated s addr s' = IsValid s' × Took s addr s' × (s'.max_phy_addr ≡ s.max_phy_addr)

-- A call that returns runs some rounds that leave the bitmap alone, and then one that ends it.
alloc_phy_page-suc :
    (s : Phymem) (fuel : ℕ) (out : Option ℕ × Phymem)
    → RoundDone s out
    → ((t : Phymem) (addr : ℕ) (u : Phymem)
        → IsValid t
        → alloc_phy_page fuel t ≡ ok (addr, u)
        → Allocated t addr u)
    → (addr : ℕ) (u : Phymem)
    → elim out.0 [ some a ↦ ok (a, out.1) | none ↦ alloc_phy_page fuel out.1 ] ≡ ok (addr, u)
    → Allocated s addr u
alloc_phy_page-suc s fuel (some a, t) done ih addr u e =
    let same : t ≡ u = cc in
    let at : a ≡ addr = cc in
    subst (λ w. Allocated s addr w) same (subst (λ w. Allocated s w t) at done)
alloc_phy_page-suc s fuel (none, t) (v, same, limit) ih addr u e =
    let (v', took, limit') = ih t addr u v e in
    (v', (took.0, λ k. rw (same k) (took.1 k)), limit' ∙ limit)

-- A call of `alloc_phy_page` that returns keeps the invariant. The address that it returns is a
-- multiple of the page size; if it is not 0 that page was free and no longer is, and no other page
-- changes hands; if it is 0 none does.
pub alloc_phy_page-Allocated :
    (fuel : ℕ) (s : Phymem) (addr : ℕ) (s' : Phymem)
    → IsValid s
    → alloc_phy_page fuel s ≡ ok (addr, s')
    → Allocated s addr s'
unfolding alloc_phy_page
alloc_phy_page-Allocated zero s addr s' v e = cc
alloc_phy_page-Allocated (suc fuel) s addr s' v e =
    alloc_phy_page-suc s fuel (alloc_round s) (alloc_round-RoundDone v)
      (λ t a u w h. alloc_phy_page-Allocated fuel t a u w h) addr s' e

-- With no page free `alloc_phy_page` returns null at once.
pub alloc_phy_page-empty :
    (fuel : ℕ) (s : Phymem) → s.pages ≡ 0 → alloc_phy_page (suc fuel) s ≡ ok (0, s)
unfolding alloc_phy_page alloc_round
alloc_phy_page-empty fuel s e = rw e refl
