-- ===== src/Phymem/Free.antt =====
-- `free_phy_one_page` and `free_phy_pages`: which pages they give back.
use yaos.Prelude.{
  ℕ, zero, suc, ◌+◌, ◌/◌, ◌%◌, ◌≤◌, ◌<◌, ◌≡◌, refl, ◌≢◌, ap, inl, inr, Bool, true, false, ◌&&◌,
  ◌||◌, arith, Bool-cases, ltb, leb, ◌==◌, count_if, length,
}
use native.Mathlib.Decide.{ℕ_discrete}
use yaos.Prelude.Outcome.{ok, halt}
use yaos.Bitmap.{test_bit}
use yaos.Bitmap.Laws.{length-write, test_bit-write_self, test_bit-write_ne}
use yaos.Phymem.{
  Phymem, page_size, alloc_phy_page, release_page, release_pages, free_phy_one_page, free_phy_pages,
}
use yaos.Phymem.Inv.{IsValid, is_free, write-IsValid}
use yaos.Phymem.Alloc.{alloc_phy_page-Allocated}

module _ {s : Phymem} (v : IsValid s) (pos : ℕ) (ne : pos ≢ 0)
    (h : pos / 64 < length s.pgbits) where
  release_page-IsValid : IsValid (release_page pos s)
  unfolding release_page
  release_page-IsValid = elim (Bool-cases (test_bit pos s.pgbits)) [
    | inl old ↦ rw old (write-IsValid v pos s.pages true ne h (omega (arith, ap count_if old)))
    | inr new ↦
        rw new (write-IsValid v pos (s.pages + 1) true ne h (omega (arith, ap count_if new)))
  ]

  release_page-is_free : (k : ℕ) → is_free (release_page pos s) k ≡ ((pos == k) || is_free s k)
  unfolding release_page
  release_page-is_free k = elim (ℕ_discrete pos k) [
    | yes same ↦ ground (arith, test_bit-write_self s.pgbits v.words pos true h)
    | no other ↦ ground (arith, test_bit-write_ne s.pgbits v.words pos k true h other)
  ]

length-release : (pos : ℕ) (s : Phymem) → length (release_page pos s).pgbits ≡ length s.pgbits
unfolding release_page
length-release pos s = length-write s.pgbits pos true

limit-release : (pos : ℕ) (s : Phymem) → (release_page pos s).max_phy_addr ≡ s.max_phy_addr
unfolding release_page
limit-release pos s = refl

-- the `count` pages from page `pos` on
abbrev pub in_range : ℕ → ℕ → ℕ → Bool
in_range pos count k = leb pos k && ltb k (pos + count)

release_pages-IsValid :
    (count pos : ℕ) {s : Phymem}
    → IsValid s
    → pos ≢ 0
    → (pos + count) / 64 < length s.pgbits
    → IsValid (release_pages count pos s)
      × ((k : ℕ) → is_free (release_pages count pos s) k ≡ (in_range pos count k || is_free s k))
unfolding release_pages
release_pages-IsValid zero pos v ne h = (v, λ k. ground arith)
release_pages-IsValid (suc count) pos {s} v ne h =
    let here : pos / 64 < length s.pgbits = omega arith in
    let (v', freed) =
      release_pages-IsValid count (pos + 1) (release_page-IsValid v pos ne here) (omega arith)
        (omega (arith, length-release pos s)) in
    (v', λ k. ground (arith, freed k, release_page-is_free v pos ne here k))

-- the effect of a call on a state
abbrev pub Freed : Phymem → ℕ → ℕ → Phymem → Type 0
Freed s addr size s' =
    IsValid s'
    × ((k : ℕ) → is_free s' k ≡ (in_range (addr / page_size) (size / page_size) k || is_free s k))

module _ {s : Phymem} (v : IsValid s) (addr : ℕ) (ne : addr ≢ 0) where
  -- `free_phy_pages` of an aligned block inside the memory returns, keeps the invariant (so `pages`
  -- still counts the free pages, also where some were free before), and frees the pages of the block
  -- and no others.
  pub free_phy_pages-Freed :
      (size : ℕ)
      → addr % page_size ≡ 0
      → size % page_size ≡ 0
      → addr < s.max_phy_addr
      → addr + size ≤ s.max_phy_addr
      → (s' : Phymem) × (free_phy_pages addr size s ≡ ok (tt, s')) × Freed s addr size s'
  unfolding free_phy_pages
  free_phy_pages-Freed size aligned whole low fits =
      let pos : ℕ = addr / page_size in
      let count : ℕ = size / page_size in
      (
        release_pages count pos s,
        ground arith,
        release_pages-IsValid count pos v (omega arith) (omega (arith, v.fits)),
      )

  -- `free_phy_pages` of a block that is not aligned, or that starts beyond the memory, halts.
  pub free_phy_pages-halt :
      (size : ℕ)
      → (addr % page_size == 0 && ltb addr s.max_phy_addr && size % page_size == 0) ≡ false
      → free_phy_pages addr size s ≡ halt
  unfolding free_phy_pages
  free_phy_pages-halt size h = ground arith

-- Freeing a page that `alloc_phy_page` has just returned brings back the bitmap and the count of
-- free pages as they were before the allocation.
pub free-alloc :
    (fuel : ℕ) (s : Phymem) (addr : ℕ) (s' : Phymem)
    → IsValid s
    → alloc_phy_page fuel s ≡ ok (addr, s')
    → addr ≢ 0
    → addr < s.max_phy_addr
    → (t : Phymem) × (free_phy_one_page addr s' ≡ ok (tt, t))
      × IsValid t
      × ((k : ℕ) → is_free t k ≡ is_free s k)
unfolding free_phy_one_page
free-alloc fuel s addr s' v e ne low =
    let (v', (aligned, took), limit) = alloc_phy_page-Allocated fuel s addr s' v e in
    let pos : ℕ = addr / page_size in
    let inside : pos / 64 < length s'.pgbits = omega (arith, v'.fits) in
    let not_zero : pos ≢ 0 = omega arith in
    (
      release_page pos s',
      ground arith,
      release_page-IsValid v' pos not_zero inside,
      λ k. ground (arith, release_page-is_free v' pos not_zero inside k, took k),
    )

-- `free_phy_one_page` of a page inside the memory returns, keeps the invariant and the end of the
-- memory, and frees that page and no other.
pub free_phy_one_page-Freed :
    (s : Phymem) (addr : ℕ)
    → IsValid s
    → addr ≢ 0
    → addr % page_size ≡ 0
    → addr < s.max_phy_addr
    → (t : Phymem) × (free_phy_one_page addr s ≡ ok (tt, t))
      × IsValid t
      × (t.max_phy_addr ≡ s.max_phy_addr)
      × ((k : ℕ) → is_free t k ≡ ((addr / page_size == k) || is_free s k))
unfolding free_phy_one_page
free_phy_one_page-Freed s addr v ne aligned low =
    let pos : ℕ = addr / page_size in
    let inside : pos / 64 < length s.pgbits = omega (arith, v.fits, low) in
    let not_zero : pos ≢ 0 = omega (arith, ne, aligned) in
    (
      release_page pos s,
      ground arith,
      release_page-IsValid v pos not_zero inside,
      limit-release pos s,
      release_page-is_free v pos not_zero inside,
    )
