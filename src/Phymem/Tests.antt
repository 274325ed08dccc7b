-- ===== src/Phymem/Tests.antt =====
-- Runs of the page allocator, and its theorems at small memories of 200M.
use yaos.Prelude.{ℕ, zero, suc, ◌*◌, ◌≡◌, ◌≢◌, refl, true, [], ◌∷◌, arith}
use yaos.Prelude.Outcome.{ok, halt, spin}
use yaos.Bitmap.{nonzero, ffs, word, test_bit, write_bit}
use yaos.Phymem.{
  Phymem, page_size, get_none_zero, try_word, alloc_round, alloc_phy_page, free_phy_one_page,
  free_phy_pages,
}
use yaos.Phymem.Samples.{clear, low, high, memory, memory-IsValid}
use yaos.Phymem.Inv.{IsValid, is_free}
use yaos.Phymem.Alloc.{Allocated, alloc_phy_page-Allocated}
use yaos.Phymem.Progress.{Succeeds, UpperOnly, alloc_phy_page-hangs, alloc_phy_page-Succeeds}
use yaos.Phymem.Free.{Freed, free_phy_pages-Freed, free_phy_pages-halt, free-alloc}

alloc_runs : alloc_phy_page 1 (memory low 1) ≡ ok (page_size, memory clear 0)
unfolding alloc_phy_page alloc_round get_none_zero try_word ffs test_bit write_bit
alloc_runs = refl

alloc_empty : alloc_phy_page 1 (memory clear 0) ≡ ok (0, memory clear 0)
unfolding alloc_phy_page alloc_round
alloc_empty = refl

alloc_phy_page-Allocated_example : Allocated (memory low 1) page_size (memory clear 0)
alloc_phy_page-Allocated_example =
    alloc_phy_page-Allocated 1 (memory low 1) page_size (memory clear 0) memory-IsValid alloc_runs

-- no low half of a word has a free page
high-UpperOnly : UpperOnly (memory high 1)
unfolding ffs
high-UpperOnly zero = refl
high-UpperOnly (suc zero) = refl
high-UpperOnly (suc (suc j)) = refl

alloc_phy_page-hangs_example : alloc_phy_page 1000 (memory high 1) ≡ spin
alloc_phy_page-hangs_example =
    alloc_phy_page-hangs 1000 (memory high 1) 0 (omega arith) (omega arith, refl) high-UpperOnly

low-LowerToo :
    (j : ℕ) → nonzero (word (low ∷ clear ∷ []) j) ≡ true → ffs (word (low ∷ clear ∷ []) j) ≢ 0
unfolding ffs
low-LowerToo zero e = omega arith
low-LowerToo (suc zero) e = cc
low-LowerToo (suc (suc j)) e = cc

alloc_phy_page-Succeeds_example : Succeeds 1 (memory low 1)
alloc_phy_page-Succeeds_example =
    alloc_phy_page-Succeeds 0 (memory low 1) 0 memory-IsValid (omega arith) (omega arith, refl)
      low-LowerToo

free_phy_pages-Freed_example :
    (s' : Phymem) × (free_phy_pages (3 * page_size) (2 * page_size) (memory low 1) ≡ ok (tt, s'))
    × Freed (memory low 1) (3 * page_size) (2 * page_size) s'
free_phy_pages-Freed_example =
    free_phy_pages-Freed memory-IsValid (3 * page_size) (omega arith) (2 * page_size) refl refl
      (omega arith) (omega arith)

free_phy_pages_halts : free_phy_pages (3 * page_size) 5 (memory low 1) ≡ halt
free_phy_pages_halts = free_phy_pages-halt memory-IsValid (3 * page_size) (omega arith) 5 refl

free_after_alloc :
    (t : Phymem) × (free_phy_one_page page_size (memory clear 0) ≡ ok (tt, t))
    × IsValid t
    × ((k : ℕ) → is_free t k ≡ is_free (memory low 1) k)
free_after_alloc =
    free-alloc 1 (memory low 1) page_size (memory clear 0) memory-IsValid alloc_runs (omega arith)
      (omega arith)
