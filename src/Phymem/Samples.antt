-- ===== src/Phymem/Samples.antt =====
-- Memories of 200M with at most two free pages, for the tests.
use yaos.Prelude.{
  ℕ, zero, suc, ◌*◌, ◌/◌, ◌%◌, ◌≤◌, refl, ap, if◌then◌else◌, ◌++◌, ◌+◌, ◌≡◌, true, false, [], ◌∷◌,
  arith, count_if, ◌==◌, replicate, get_or, get_or-replicate,
}
use yaos.Bitmap.{Word, ffs, test_bit, write_bit}
use yaos.Prelude.Outcome.{ok}
use yaos.Phymem.{Phymem, page_size, get_none_zero, try_word, alloc_round, alloc_phy_page}
use yaos.Phymem.Inv.{IsValid, is_free}

abbrev pub clear : Word
clear = replicate 64 false

-- page 1 is free
abbrev pub low : Word
low = false ∷ true ∷ replicate 62 false

-- page 40 is free
abbrev pub high : Word
high = replicate 40 false ++ (true ∷ replicate 23 false)

abbrev pub memory : Word → ℕ → Phymem
memory w pages = record {
  pgbits = w ∷ clear ∷ [];
  pnow = 0;
  pmax = 1;
  pages = pages;
  max_phy_addr = 100 * page_size;
}

pub memory-IsValid : IsValid (memory low 1)
unfolding test_bit
memory-IsValid = record {
  words = (refl, (refl, tt));
  counted = refl;
  now_in = omega arith;
  max_in = omega arith;
  large = omega arith;
  fits = omega arith;
  origin = refl;
  bounded = omega arith;
}

low_bit : (i : ℕ) → count_if (get_or low i false) ≤ count_if (i == 1)
low_bit zero = omega arith
low_bit (suc zero) = omega arith
low_bit (suc (suc i)) = omega (arith, ap count_if (get_or-replicate 62 i false))

low_word :
    (i j : ℕ)
    → count_if (get_or (get_or (low ∷ clear ∷ []) i []) j false)
      ≤ (if i == 0 then count_if (j == 1) else 0)
low_word zero j = low_bit j
low_word (suc zero) j = omega (arith, ap count_if (get_or-replicate 64 j false))
low_word (suc (suc i)) j = omega arith

-- Only page 1 is free.
pub memory_pages : (k : ℕ) → count_if (is_free (memory low 1) k) ≤ count_if (k == 1)
unfolding test_bit
memory_pages k = ground (arith, low_word (k / 64) (k % 64))

-- pages 1 and 2 are free
abbrev pub pair : Word
pair = false ∷ true ∷ true ∷ replicate 61 false

pub pair-IsValid : IsValid (memory pair 2)
unfolding test_bit
pair-IsValid = record {
  words = (refl, (refl, tt));
  counted = refl;
  now_in = omega arith;
  max_in = omega arith;
  large = omega arith;
  fits = omega arith;
  origin = refl;
  bounded = omega arith;
}

pair_bit : (i : ℕ) → count_if (get_or pair i false) ≤ count_if (i == 1) + count_if (i == 2)
pair_bit zero = omega arith
pair_bit (suc zero) = omega arith
pair_bit (suc (suc zero)) = omega arith
pair_bit (suc (suc (suc i))) = omega (arith, ap count_if (get_or-replicate 61 i false))

pair_word :
    (i j : ℕ)
    → count_if (get_or (get_or (pair ∷ clear ∷ []) i []) j false)
      ≤ (if i == 0 then count_if (j == 1) + count_if (j == 2) else 0)
pair_word zero j = pair_bit j
pair_word (suc zero) j = omega (arith, ap count_if (get_or-replicate 64 j false))
pair_word (suc (suc i)) j = omega arith

-- Only pages 1 and 2 are free.
pub pair_pages :
    (k : ℕ) → count_if (is_free (memory pair 2) k) ≤ count_if (k == 1) + count_if (k == 2)
unfolding test_bit
pair_pages k = ground (arith, pair_word (k / 64) (k % 64))

-- page 2 is free
abbrev pub second : Word
second = false ∷ false ∷ true ∷ replicate 61 false

pub pair_runs : alloc_phy_page 1 (memory pair 2) ≡ ok (page_size, memory second 1)
unfolding alloc_phy_page alloc_round get_none_zero try_word ffs test_bit write_bit
pair_runs = refl

pub second_runs : alloc_phy_page 1 (memory second 1) ≡ ok (2 * page_size, memory clear 0)
unfolding alloc_phy_page alloc_round get_none_zero try_word ffs test_bit write_bit
second_runs = refl
