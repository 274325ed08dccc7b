-- ===== src/Print/Tests.antt =====
-- Runs of `vsprintf`, and its theorems at small formats.
use yaos.Prelude.{
  ℕ, ◌+◌, ◌-◌, ◌^◌, ◌≡◌, ◌≤◌, refl, true, false, some, List, [], ◌∷◌, ◌++◌, length, inl, arith,
}
use yaos.Prelude.Outcome.{ok}
use yaos.Print.{
  Flags, number, sign_chars, prefix_chars, magnitude, max, tmp, div_loop, digit_char, layout,
}
use yaos.Print.Digits.{read, length-tmp}
use yaos.Print.Number.{length-number, read-number}
use yaos.Print.Format.{
  skip_atoi, parse_spec, parse_flags, parse_width, parse_precision, parse_qualifier,
  convert_integer, convert_text, integer_arg, word, text,
}
use yaos.Print.Vsprintf.{vsprintf, format, directive, convert}
use yaos.Print.Vsprintf.Plain.{signed, vsprintf-plain, vsprintf-ld}
use yaos.Print.Vsprintf.Rounds.{Ends, vsprintf-Ends}

-- "a%5d|%-4xz%s" with -42, 255 and "ok"
mixed_runs :
    vsprintf
      (b'a' ∷ b'%' ∷ b'5' ∷ b'd' ∷ b'|' ∷ b'%' ∷ b'-' ∷ b'4' ∷ b'x' ∷ b'z' ∷ b'%' ∷ b's' ∷ [])
      (word (2 ^ 32 - 42) ∷ word 255 ∷ text (b'o' ∷ b'k' ∷ []) ∷ [])
    ≡ ok (record {
      bytes =
          b'a' ∷ b' ' ∷ b' ' ∷ b'-' ∷ b'4' ∷ b'2' ∷ b'|' ∷ b'f' ∷ b'f' ∷ b' ' ∷ b' ' ∷ b'z' ∷ b'o'
          ∷ b'k' ∷ [];
      counts = [];
    })
unfolding vsprintf format directive convert parse_spec parse_flags parse_width parse_precision
    parse_qualifier skip_atoi convert_integer convert_text integer_arg number layout tmp div_loop
    digit_char
mixed_runs = refl

tmp_runs : (1 ≤ length (tmp 2 false (2 ^ 64 - 1))) × (length (tmp 2 false (2 ^ 64 - 1)) ≤ 64)
tmp_runs = length-tmp 2 false (2 ^ 64 - 1)

number_fills :
    (out : List ℕ) × (number 1234 10 8 0 signed ≡ some out)
    × (length out
        ≡ max 8 (
            length (sign_chars signed 1234)
            + length (prefix_chars signed 10)
            + max (length (tmp 10 false 1234)) 0))
number_fills = length-number 1234 10 8 0 signed (omega arith) (omega arith)

abbrev zero_padded : Flags
zero_padded = record signed { zeropad = true }

read-number_example :
    (out : List ℕ) × (number (2 ^ 64 - 7) 10 8 0 zero_padded
      ≡ some (sign_chars zero_padded (2 ^ 64 - 7) ++ out))
    × (read 10 0 out ≡ magnitude zero_padded (2 ^ 64 - 7))
read-number_example =
    read-number (2 ^ 64 - 7) 10 8 0 zero_padded (omega arith) (omega arith) (omega arith) refl refl
      (inl refl)

vsprintf_runs_plain :
    vsprintf (b'o' ∷ b'k' ∷ []) [] ≡ ok (record { bytes = b'o' ∷ b'k' ∷ []; counts = [] })
vsprintf_runs_plain = vsprintf-plain (b'o' ∷ b'k' ∷ []) [] (refl, (refl, tt))

vsprintf-ld_example :
    (out : List ℕ) × (vsprintf (b'n' ∷ b'%' ∷ b'l' ∷ b'd' ∷ b';' ∷ []) (word (2 ^ 64 - 5) ∷ [])
      ≡ ok (record { bytes = b'n' ∷ (b'-' ∷ out) ++ b';' ∷ []; counts = [] }))
    × (read 10 0 out ≡ 5)
vsprintf-ld_example =
    vsprintf-ld (b'n' ∷ []) (b';' ∷ []) (2 ^ 64 - 5) (refl, tt) (refl, tt) (omega arith)

vsprintf-Ends_example : Ends (vsprintf (b'%' ∷ b'%' ∷ b'd' ∷ []) [])
vsprintf-Ends_example = vsprintf-Ends (b'%' ∷ b'%' ∷ b'd' ∷ []) []
