-- ===== src/Print/Digits.antt =====
-- The digits of a number: how many there are, and that reading them gives the number back.
use yaos.Prelude.{
  ℕ, zero, suc, ◌+◌, ◌-◌, ◌*◌, ◌/◌, ◌%◌, ◌^◌, ◌≤◌, ◌<◌, ◌≡◌, ◌≢◌, ◌∙◌, ap, inl, inr, Bool, true,
  false, List, [], ◌∷◌, length, leb, ◌==◌, if◌then◌else◌, arith, Bool-cases,
}
use yaos.Print.{digit_char, div_loop, tmp, rev_onto}

-- the value of a digit of either case
abbrev pub digit_value : ℕ → ℕ
digit_value c = if leb b'a' c then c - 87 else if leb b'A' c then c - 55 else c - 48

-- reading a number, digit by digit
abbrev pub read : ℕ → ℕ → List ℕ → ℕ
read base v [] = v
read base v (c ∷ cs) = read base (v * base + digit_value c) cs

pub digit_value-digit_char : (small : Bool) (d : ℕ) → d < 16 → digit_value (digit_char small d) ≡ d
unfolding digit_char
digit_value-digit_char false d lt = ground arith
digit_value-digit_char true d lt = ground arith

-- the quotient by a base is at most the half
quotient :
    (num base : ℕ) → 2 ≤ base → (num / base * base + num % base ≡ num) × (num / base * 2 ≤ num)
quotient num base lo = (grind arith, grind arith)

halved : (fuel num base : ℕ) → 2 ≤ base → num < 2 ^ suc fuel → num / base < 2 ^ fuel
halved fuel num base lo lt = omega (arith, quotient num base lo)

read-div_loop :
    (fuel base : ℕ) (small : Bool) (num : ℕ) (rest : List ℕ)
    → 2 ≤ base
    → base ≤ 16
    → num < 2 ^ fuel
    → read base 0 (rev_onto (div_loop fuel base small num) rest) ≡ read base num rest
unfolding div_loop
read-div_loop zero base small num rest lo hi lt = ap (λ v. read base v rest) (omega arith)
read-div_loop (suc fuel) base small num rest lo hi lt = elim (Bool-cases (num == 0)) [
  | inl done ↦ rw done (ap (λ v. read base v rest) (ground arith))
  | inr more ↦
      let d = digit_char small (num % base) in
      let e : digit_value d ≡ num % base =
        digit_value-digit_char small (num % base) (grind arith) in
      rw more (
        read-div_loop fuel base small (num / base) (d ∷ rest) lo hi (halved fuel num base lo lt)
        ∙ ap (λ v. read base v rest) (omega (arith, e, (quotient num base lo).0)))
]

pub length-rev_onto : (cs out : List ℕ) → length (rev_onto cs out) ≡ length cs + length out
length-rev_onto [] out = omega arith
length-rev_onto (c ∷ cs) out = omega (arith, length-rev_onto cs (c ∷ out))

length-div_loop :
    (fuel base : ℕ) (small : Bool) (num : ℕ) → length (div_loop fuel base small num) ≤ fuel
unfolding div_loop
length-div_loop zero base small num = omega arith
length-div_loop (suc fuel) base small num =
    ground (arith, length-div_loop fuel base small (num / base))

div_loop-ne-nil :
    (fuel base : ℕ) (small : Bool) (num : ℕ)
    → num ≢ 0
    → 1 ≤ length (div_loop (suc fuel) base small num)
unfolding div_loop
div_loop-ne-nil fuel base small num ne = ground arith

-- The digits of every number, in every base, fit in the 66 bytes of tmp: there are 1 to 64 of them.
pub length-tmp :
    (base : ℕ) (small : Bool) (num : ℕ)
    → (1 ≤ length (tmp base small num)) × (length (tmp base small num) ≤ 64)
unfolding tmp
length-tmp base small num =
    ground (arith, div_loop-ne-nil 63 base small num, length-div_loop 64 base small num)

-- Reading the digits of a number of 64 bits, with what follows, begins from the number.
pub read-tmp :
    (base : ℕ) (small : Bool) (num : ℕ) (rest : List ℕ)
    → 2 ≤ base
    → base ≤ 16
    → num < 2 ^ 64
    → read base 0 (rev_onto (tmp base small num) rest) ≡ read base num rest
unfolding tmp
read-tmp base small num rest lo hi lt = elim (Bool-cases (num == 0)) [
  | inl null ↦ rw null (ap (λ v. read base v rest) (ground arith))
  | inr more ↦ rw more (read-div_loop 64 base small num rest lo hi lt)
]
