-- ===== src/Bitmap/Ones.antt =====
-- How many bits of the array are set, and how a write changes their number.
use yaos.Prelude.{
  ℕ, zero, suc, ◌+◌, ◌/◌, ◌%◌, ◌<◌, ◌≡◌, Bool, false, List, [], ◌∷◌, arith, count_if, length,
  get_or, set,
}
use yaos.Bitmap.{Word, word_bits, word, test_bit, write_bit}
use yaos.Bitmap.Laws.{AreWords, length-word}

abbrev pub ones : Word → ℕ
ones [] = 0
ones (b ∷ w) = count_if b + ones w

abbrev pub all_ones : List Word → ℕ
all_ones [] = 0
all_ones (w ∷ bits) = ones w + all_ones bits

ones-set :
    (w : Word) (k : ℕ) (b : Bool)
    → k < length w
    → ones (set w k b) + count_if (get_or w k false) ≡ ones w + count_if b
ones-set [] k b h = absurd (omega arith)
ones-set (x ∷ w) zero b h = omega arith
ones-set (x ∷ w) (suc k) b h = omega (arith, ones-set w k b (omega arith))

all_ones-set :
    (bits : List Word) (i : ℕ) (w : Word)
    → i < length bits
    → all_ones (set bits i w) + ones (word bits i) ≡ all_ones bits + ones w
all_ones-set [] i w h = absurd (omega arith)
all_ones-set (x ∷ bits) zero w h = omega arith
all_ones-set (x ∷ bits) (suc i) w h = omega (arith, all_ones-set bits i w (omega arith))

pub all_ones-write :
    (bits : List Word) (nr : ℕ) (b : Bool)
    → AreWords bits
    → nr / word_bits < length bits
    → all_ones (write_bit nr b bits) + count_if (test_bit nr bits) ≡ all_ones bits + count_if b
unfolding write_bit test_bit
all_ones-write bits nr b v h =
    let i : ℕ = nr / word_bits in
    omega (
      arith,
      all_ones-set bits i (set (word bits i) (nr % word_bits) b) h,
      ones-set (word bits i) (nr % word_bits) b (omega (arith, length-word bits i v h)),
    )
