-- ===== src/Phymem/Progress.antt =====
-- When `alloc_phy_page` returns a page, when it reports that there is none, and when it hangs.
use yaos.Prelude.{
  ℕ, zero, suc, ◌+◌, ◌-◌, ◌*◌, ◌<◌, ◌≡◌, refl, ◌≢◌, ◌∙◌, ap, true, Option, none, some, arith,
  length,
}
use yaos.Prelude.Outcome.{ok, spin}
use yaos.Bitmap.{nonzero, ffs, word}
use yaos.Phymem.{Phymem, page_size, get_none_zero, try_word, alloc_round, alloc_phy_page}
use yaos.Phymem.Scan.{Found, get_none_zero-Found}
use yaos.Phymem.Inv.{IsValid, move-IsValid}
use yaos.Phymem.Alloc.{after_search, alloc_round-search, try_word-hit, hit, not_origin}

-- some word that the search reaches has a free page
abbrev pub HasFree : Phymem → ℕ → Type 0
HasFree s i = (i < s.pmax) × (nonzero (word s.pgbits i) ≡ true)

try_word-zero : (s : Phymem) (p : ℕ) → ffs (word s.pgbits p) ≡ 0 → try_word p s ≡ (none, s)
unfolding try_word
try_word-zero s p e = rw e

-- The pages that are free all lie in the upper halves of their words.
abbrev pub UpperOnly : Phymem → Type 0
UpperOnly s = (j : ℕ) → ffs (word s.pgbits j) ≡ 0

stuck_search :
    (s : Phymem) (i : ℕ) (out : Option ℕ × ℕ)
    → HasFree s i
    → UpperOnly s
    → Found s out
    → after_search s out ≡ (none, record s { pnow = out.1 })
unfolding after_search
stuck_search s i (none, now) (lo, full) upper (_, clear) = cc (full, clear i lo)
stuck_search s i (some p, now) free upper found =
    try_word-zero (record s { pnow = now }) p (upper p)

module _ (fuel : ℕ) (s t : Phymem) where
  another_round : alloc_round s ≡ (none, t) → alloc_phy_page (suc fuel) s ≡ alloc_phy_page fuel t
  unfolding alloc_phy_page
  another_round e =
      rw (e, alloc_phy_page) (ap (λ (out : Option ℕ × Phymem). alloc_phy_page fuel out.1) e)

  last_round :
      {addr : ℕ} → alloc_round s ≡ (some addr, t) → alloc_phy_page (suc fuel) s ≡ ok (addr, t)
  unfolding alloc_phy_page
  last_round {addr} e =
      rw (e, alloc_phy_page) (ap (λ (out : Option ℕ × Phymem). ok (addr, out.1)) e)

-- If no word of the whole bitmap has a free page in its lower half, the count of free pages is not 0, and
-- a word that the search reaches has a free page, `alloc_phy_page` never returns, however many rounds it is
-- given: `ffs` takes an `int`, so that it sees the lower half alone, and the loop goes round without a change.
pub alloc_phy_page-hangs :
    (fuel : ℕ) (s : Phymem) (i : ℕ)
    → s.pages ≢ 0
    → HasFree s i
    → UpperOnly s
    → alloc_phy_page fuel s ≡ spin
unfolding alloc_phy_page
alloc_phy_page-hangs zero s i h free upper = refl
alloc_phy_page-hangs (suc fuel) s i h free upper =
    let round =
      alloc_round-search s (ground arith) ∙ stuck_search s i _ free upper (get_none_zero-Found s) in
    another_round fuel s _ round
    ∙ alloc_phy_page-hangs fuel (record s { pnow = (get_none_zero s).1 }) i h free upper

-- every word that has a free page has one in its lower half
abbrev pub LowerToo : Phymem → Type 0
LowerToo s = (j : ℕ) → nonzero (word s.pgbits j) ≡ true → ffs (word s.pgbits j) ≢ 0

-- a page is handed out
abbrev pub Succeeds : ℕ → Phymem → Type 0
Succeeds fuel s = (addr : ℕ) × (s' : Phymem) × (alloc_phy_page fuel s ≡ ok (addr, s')) × (addr ≢ 0)

hit_search :
    (s : Phymem) (i : ℕ) (out : Option ℕ × ℕ)
    → IsValid s
    → HasFree s i
    → LowerToo s
    → Found s out
    → (addr : ℕ) × (s' : Phymem) × (after_search s out ≡ (some addr, s')) × (addr ≢ 0)
unfolding after_search
hit_search s i (none, now) v (lo, full) lower (_, clear) = cc (full, clear i lo)
hit_search s i (some p, now) v free lower (same, full, lo) =
    let at : now < length s.pgbits = omega (arith, v.now_in, v.max_in) in
    let w = move-IsValid v now at in
    let k : ℕ = ffs (word s.pgbits p) - 1 in
    let e : ffs (word s.pgbits p) ≡ suc k = omega (arith, lower p full) in
    let in_range : p < length s.pgbits = omega arith in
    (
      page_size * (k + p * 64),
      hit w p k in_range e,
      try_word-hit w p k in_range e,
      omega (arith, not_origin w p k in_range e),
    )

-- If a word below `pmax` has a free page, and no word has free pages in its upper half only, then
-- `alloc_phy_page` returns a page after one round.
pub alloc_phy_page-Succeeds :
    (fuel : ℕ) (s : Phymem) (i : ℕ)
    → IsValid s
    → s.pages ≢ 0
    → HasFree s i
    → LowerToo s
    → Succeeds (suc fuel) s
unfolding alloc_phy_page
alloc_phy_page-Succeeds fuel s i v h free lower =
    let (addr, s', e, ne) = hit_search s i (get_none_zero s) v free lower (get_none_zero-Found s) in
    (addr, s', last_round fuel s s' (alloc_round-search s (ground arith) ∙ e), ne)
