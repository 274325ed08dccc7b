-- ===== src/Bitmap.antt =====
-- The bit operations of arch/x86_64/include/asm/bitops.h on an array of 64-bit words.
--
-- A word is the list of its 64 bits, the least significant one first. The operations are single
-- instructions of the processor (bts, btr, bsf), which is what each definition says.
pub mod Laws
pub mod Ones
use yaos.Prelude.{
  ℕ, zero, suc, ◌+◌, ◌/◌, ◌%◌, Bool, true, false, ◌||◌, List, [], ◌∷◌, if◌then◌else◌, get_or, set,
}

abbrev pub Word : Type 0
Word = List Bool

abbrev pub word_bits : ℕ
word_bits = 64

-- `*p` as a condition
abbrev pub nonzero : Word → Bool
nonzero [] = false
nonzero (b ∷ w) = b || nonzero w

-- The position of the first bit set among the `n` lowest, counted from 1, and 0 if there is none.
abbrev pub first_set : ℕ → Word → ℕ
first_set zero w = 0
first_set (suc n) [] = 0
first_set (suc n) (b ∷ w) = if b then 1 else elim (first_set n w) [ zero ↦ 0 | suc k ↦ suc (suc k) ]

-- `ffs` takes an `int`: of a 64-bit word it is handed the lower half.
unfoldable pub ffs : Word → ℕ
ffs w = first_set 32 w

abbrev pub word : List Word → ℕ → Word
word bits i = get_or bits i []

-- `bt`: bit `nr`, counted from the start of the array
unfoldable pub test_bit : ℕ → List Word → Bool
test_bit nr bits = get_or (word bits (nr / word_bits)) (nr % word_bits) false

-- what `bts` and `btr` write
unfoldable pub write_bit : ℕ → Bool → List Word → List Word
write_bit nr b bits =
    set bits (nr / word_bits) (set (word bits (nr / word_bits)) (nr % word_bits) b)

-- Each returns the old value of the bit beside the new array.
abbrev pub test_and_set_bit : ℕ → List Word → Bool × List Word
test_and_set_bit nr bits = (test_bit nr bits, write_bit nr true bits)

abbrev pub test_and_clear_bit : ℕ → List Word → Bool × List Word
test_and_clear_bit nr bits = (test_bit nr bits, write_bit nr false bits)
