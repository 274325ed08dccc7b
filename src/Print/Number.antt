-- ===== src/Print/Number.antt =====
-- `number`: the width of what it writes, and that it can be read back.
use yaos.Prelude.{
  ℕ, zero, suc, ◌+◌, ◌-◌, ◌^◌, ◌≤◌, ◌<◌, ◌≡◌, ◌⊎◌, refl, ◌∙◌, ap, inl, inr, true, false, ◌||◌, some,
  List, [], ◌++◌, length, ltb, replicate, arith, Bool-cases, length-append, length-replicate,
}
use yaos.Print.{Flags, number, layout, sign_chars, prefix_chars, magnitude, max, tmp, rev_onto}
use yaos.Print.Digits.{read, read-tmp, length-rev_onto}

ruleset lengths = (length-append, length-replicate, length-rev_onto)

length-layout :
    (flags : Flags) (sign prefix : List ℕ) (size precision : ℕ) (t : List ℕ)
    → length t ≤ precision
    → length (layout flags sign prefix size precision t)
      ≡ size + length sign + length prefix + precision
unfolding layout
length-layout flags sign prefix size precision t le = elim (Bool-cases flags.left) [
  | inl left ↦ elim (Bool-cases flags.zeropad) [
    | inl zeros ↦ simp (left, zeros, lengths) (omega arith)
    | inr spaces ↦ simp (left, spaces, lengths) (omega arith)
  ]
  | inr right ↦ elim (Bool-cases flags.zeropad) [
    | inl zeros ↦ simp (right, zeros, lengths) (omega arith)
    | inr spaces ↦ simp (right, spaces, lengths) (omega arith)
  ]
]

module _ (num base size precision : ℕ) (flags : Flags) (lo : 2 ≤ base) (hi : base ≤ 16) where
  abbrev digits_of : List ℕ
  digits_of = tmp base flags.small (magnitude flags num)

  -- the digits and the zeros that the precision asks for
  abbrev width : ℕ
  width = max (length digits_of) precision

  abbrev padding : ℕ
  padding = size - length (sign_chars flags num) - length (prefix_chars flags base) - width

  number_lem :
      number num base size precision flags
      ≡ some (layout flags (sign_chars flags num) (prefix_chars flags base) padding width digits_of)
  unfolding number
  number_lem = let allowed : (ltb base 2 || ltb 16 base) ≡ false = ground arith in rw allowed refl

  -- For a base from 2 to 16 number writes as many bytes as the field is wide, or as the sign, the
  -- prefix and the digits or the precision need if that is more.
  pub length-number :
      (out : List ℕ) × (number num base size precision flags ≡ some out)
      × (length out
          ≡ max size (
              length (sign_chars flags num)
              + length (prefix_chars flags base)
              + max (length (tmp base flags.small (magnitude flags num))) precision))
  length-number =
      let sign = sign_chars flags num in
      let prefix = prefix_chars flags base in
      let le : length digits_of ≤ width = ground arith in
      (
        layout flags sign prefix padding width digits_of,
        number_lem,
        ground (arith, length-layout flags sign prefix padding width digits_of le),
      )

  -- zeros in front of a number do not change it
  read-zeros : (n : ℕ) (cs : List ℕ) → read base 0 (replicate n b'0' ++ cs) ≡ read base 0 cs
  read-zeros zero cs = refl
  read-zeros (suc n) cs =
      ap (λ v. read base v (replicate n b'0' ++ cs)) (omega arith) ∙ read-zeros n cs

  -- Without a prefix, and padded in front by zeros only, the bytes after the sign read back as the
  -- number, or as its negative if it has one.
  pub read-number :
      num < 2 ^ 64
      → flags.special ≡ false
      → flags.left ≡ false
      → (flags.zeropad ≡ true) ⊎ (size ≡ 0)
      → (out : List ℕ) × (number num base size precision flags ≡ some (sign_chars flags num ++ out))
        × (read base 0 out ≡ magnitude flags num)
  unfolding layout
  read-number lt plain right pad =
      let zeros = replicate (width - length digits_of) b'0' ++ rev_onto digits_of [] in
      let value : read base 0 zeros ≡ magnitude flags num =
        read-zeros (width - length digits_of) (rev_onto digits_of [])
        ∙ read-tmp base flags.small (magnitude flags num) [] lo hi (ground arith) in
      elim (Bool-cases flags.zeropad) [
        | inl zp ↦ (
          replicate padding b'0' ++ zeros,
          number_lem ∙ simp (right, zp, plain),
          read-zeros padding zeros ∙ value,
        )
        | inr sp ↦
            let none_left : padding ≡ 0 = ground (arith, pad) in
            (
              zeros,
              number_lem
                  ∙ ap
                      (λ n. some (
                        layout flags (sign_chars flags num) (prefix_chars flags base) n width
                          digits_of))
                      none_left
                  ∙ simp (right, sp, plain),
              value,
            )
      ]
