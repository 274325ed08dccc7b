-- ===== src/Bitmap/Laws.antt =====
-- Reading back what was written, and finding a bit that is set.
use yaos.Prelude.{
  ℕ, zero, suc, ◌+◌, ◌*◌, ◌/◌, ◌%◌, ◌<◌, ◌≡◌, refl, ◌≢◌, Bool, true, false, List, [], ◌∷◌, arith,
  length, get_or, set, All, length-set, get_or-set_self, get_or-set_ne,
}
use native.Mathlib.Decide.{ℕ_discrete}
use yaos.Bitmap.{Word, word_bits, nonzero, first_set, ffs, word, test_bit, write_bit}

-- every word has its 64 bits
abbrev pub AreWords : List Word → Type 0
AreWords = All (λ (w : Word). length w ≡ word_bits)

pub length-word :
    (bits : List Word) (i : ℕ) → AreWords bits → i < length bits → length (word bits i) ≡ 64
length-word [] i v h = absurd (omega arith)
length-word (w ∷ bits) zero v h = v.0
length-word (w ∷ bits) (suc i) v h = length-word bits i v.1 (omega arith)

pub length-write :
    (bits : List Word) (nr : ℕ) (b : Bool) → length (write_bit nr b bits) ≡ length bits
unfolding write_bit
length-write bits nr b = length-set bits _ _

set-AreWords :
    (bits : List Word) (i : ℕ) (w : Word) → length w ≡ 64 → AreWords bits → AreWords (set bits i w)
set-AreWords [] i w e v = tt
set-AreWords (x ∷ bits) zero w e v = (e, v.1)
set-AreWords (x ∷ bits) (suc i) w e v = (v.0, set-AreWords bits i w e v.1)

module _ (bits : List Word) (v : AreWords bits) where
  pub write_bit-AreWords :
      (nr : ℕ) (b : Bool) → nr / word_bits < length bits → AreWords (write_bit nr b bits)
  unfolding write_bit
  write_bit-AreWords nr b h =
      let i : ℕ = nr / word_bits in
      set-AreWords bits i (set (word bits i) (nr % word_bits) b)
        (omega (arith, length-set (word bits i) (nr % word_bits) b, length-word bits i v h)) v

  pub test_bit-write_self :
      (nr : ℕ) (b : Bool) → nr / word_bits < length bits → test_bit nr (write_bit nr b bits) ≡ b
  unfolding write_bit test_bit
  test_bit-write_self nr b h =
      let i : ℕ = nr / word_bits in
      rw (get_or-set_self bits i (set (word bits i) (nr % word_bits) b) [] h) (
        get_or-set_self (word bits i) (nr % word_bits) b false
          (omega (arith, length-word bits i v h)))

  pub test_bit-write_ne :
      (nr k : ℕ) (b : Bool)
      → nr / word_bits < length bits
      → nr ≢ k
      → test_bit k (write_bit nr b bits) ≡ test_bit k bits
  unfolding write_bit test_bit
  test_bit-write_ne nr k b h ne = elim (ℕ_discrete (nr / word_bits) (k / word_bits)) [
    | yes same ↦
        let i : ℕ = nr / word_bits in
        rw (← same, get_or-set_self bits i (set (word bits i) (nr % word_bits) b) [] h)
          (get_or-set_ne (word bits i) (nr % word_bits) (k % word_bits) b false (omega arith))
    | no other ↦ rw (get_or-set_ne bits (nr / word_bits) (k / word_bits) _ [] other)
  ]

-- A position that `ffs` reports lies in the lower half and is set.
first_set-set :
    (n : ℕ) (w : Word) (k : ℕ) → first_set n w ≡ suc k → (get_or w k false ≡ true) × (k < n)
first_set-set zero w k e = absurd (omega arith)
first_set-set (suc n) [] k e = absurd (omega arith)
first_set-set (suc n) (true ∷ w) zero e = (refl, omega arith)
first_set-set (suc n) (true ∷ w) (suc k) e = absurd (omega arith)
first_set-set (suc n) (false ∷ w) k e = step (first_set-set n w) (first_set n w) k refl e
  where
    step :
        ((k : ℕ) → first_set n w ≡ suc k → (get_or w k false ≡ true) × (k < n))
        → (m k : ℕ) → first_set n w ≡ m
        → elim m [ zero ↦ 0 | suc j ↦ suc (suc j) ] ≡ suc k
        → (get_or (false ∷ w) k false ≡ true) × (k < suc n)
    step ih zero k e' h = absurd (omega arith)
    step ih (suc j) zero e' h = absurd (omega arith)
    step ih (suc j) (suc k) e' h =
        let found : first_set n w ≡ suc k = omega arith in
        ((ih k found).0, omega (arith, (ih k found).1))

pub ffs-set : (w : Word) (k : ℕ) → ffs w ≡ suc k → (get_or w k false ≡ true) × (k < 32)
unfolding ffs
ffs-set w k e = first_set-set 32 w k e

-- It reports one whenever the lower half has one.
first_set-ne_zero : (n : ℕ) (w : Word) (k : ℕ) → get_or w k false ≡ true → k < n → first_set n w ≢ 0
first_set-ne_zero zero w k e h = absurd (omega arith)
first_set-ne_zero (suc n) [] k e h = cc
first_set-ne_zero (suc n) (true ∷ w) k e h = omega arith
first_set-ne_zero (suc n) (false ∷ w) zero e h = cc
first_set-ne_zero (suc n) (false ∷ w) (suc k) e h = ground (arith, first_set-ne_zero n w k e)

pub ffs-ne_zero : (w : Word) (k : ℕ) → get_or w k false ≡ true → k < 32 → ffs w ≢ 0
unfolding ffs
ffs-ne_zero w k e h = first_set-ne_zero 32 w k e h

-- A word with a bit set is nonzero.
pub nonzero_of_bit : (w : Word) (k : ℕ) → get_or w k false ≡ true → nonzero w ≡ true
nonzero_of_bit [] k e = e
nonzero_of_bit (true ∷ w) k e = refl
nonzero_of_bit (false ∷ w) zero e = cc
nonzero_of_bit (false ∷ w) (suc k) e = nonzero_of_bit w k e

-- The bit that `ffs` reports in the word `p`, as a position in the array.
pub ffs-test_bit :
    (bits : List Word) (p k : ℕ) → ffs (word bits p) ≡ suc k → test_bit (p * 64 + k) bits ≡ true
unfolding test_bit
ffs-test_bit bits p k e =
    let found = ffs-set (word bits p) k e in
    let i : (p * 64 + k) / 64 ≡ p = omega arith in
    let j : (p * 64 + k) % 64 ≡ k = omega arith in rw (i, j) found.0

get_or-lt : (bits : List Word) (i k : ℕ) → get_or (word bits i) k false ≡ true → i < length bits
get_or-lt [] i k e = cc
get_or-lt (w ∷ bits) zero k e = omega arith
get_or-lt (w ∷ bits) (suc i) k e = omega (arith, get_or-lt bits i k e)

-- A bit that is set lies in the array.
pub test_bit-lt : (bits : List Word) (nr : ℕ) → test_bit nr bits ≡ true → nr / 64 < length bits
unfolding test_bit
test_bit-lt bits nr e = get_or-lt bits (nr / word_bits) (nr % word_bits) e
