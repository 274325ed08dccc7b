-- ===== src/Print.antt =====
-- Formatted output, kernel/printk.c: `number` and `vsprintf` as functions to the list of the bytes
-- that they write.
--
-- A field width or precision that has become negative writes nothing, like 0, so the subtractions
-- may stop at 0.
pub mod Digits
pub mod Format
pub mod Number
pub mod Vsprintf
mod Tests
use Prim.Native.Nat.{bit_or}
use yaos.Prelude.{
  ℕ, zero, suc, ◌+◌, ◌-◌, ◌*◌, ◌/◌, ◌%◌, ◌^◌, Bool, true, false, ◌&&◌, ◌||◌, not, Option, none,
  some, List, [], ◌∷◌, ◌++◌, length, ltb, leb, ◌==◌, if◌then◌else◌, get_or, replicate,
}

-- the bits ZEROPAD, SIGN, PLUS, SPACE, LEFT, SMALL and SPECIAL
pub record Flags : Type 0 where
  pub zeropad : Bool
  pub sign : Bool
  pub plus : Bool
  pub space : Bool
  pub left : Bool
  pub small : Bool
  pub special : Bool

-- "0123456789ABCDEF"
abbrev pub digits : List ℕ
digits =
    b'0' ∷ b'1' ∷ b'2' ∷ b'3' ∷ b'4' ∷ b'5' ∷ b'6' ∷ b'7' ∷ b'8' ∷ b'9' ∷ b'A' ∷ b'B' ∷ b'C' ∷ b'D'
    ∷ b'E' ∷ b'F' ∷ []

abbrev pub locase : Bool → ℕ
locase small = if small then 0x20 else 0

-- `digits[d] | locase`
pub digit_char : Bool → ℕ → ℕ
digit_char small d = bit_or (get_or digits d 0) (locase small)

-- `while (num != 0) tmp[i++] = digits[__do_div(num, base)] | locase;`, the last digit first
pub div_loop : ℕ → ℕ → Bool → ℕ → List ℕ
div_loop zero base small num = []
div_loop (suc fuel) base small num =
    let rest = div_loop fuel base small (num / base) in
    if num == 0 then [] else digit_char small (num % base) ∷ rest

-- `tmp[0 .. i - 1]`; the number has 64 bits
pub tmp : ℕ → Bool → ℕ → List ℕ
tmp base small num = if num == 0 then b'0' ∷ [] else div_loop 64 base small num

-- `while (i-- > 0) *str++ = tmp[i];`
abbrev pub rev_onto : List ℕ → List ℕ → List ℕ
rev_onto [] out = out
rev_onto (c ∷ cs) out = rev_onto cs (c ∷ out)

abbrev pub is_negative : ℕ → Bool
is_negative num = leb (2 ^ 63) num

-- the sign, if there is one
abbrev pub sign_chars : Flags → ℕ → List ℕ
sign_chars flags num =
    if flags.sign
    then (if is_negative num
        then b'-' ∷ []
        else if flags.plus
        then b'+' ∷ []
        else if flags.space
        then b' ' ∷ []
        else [])
    else []

-- `num = -num`
abbrev pub magnitude : Flags → ℕ → ℕ
magnitude flags num = if flags.sign && is_negative num then (2 ^ 64 - num) % 2 ^ 64 else num

abbrev pub prefix_chars : Flags → ℕ → List ℕ
prefix_chars flags base =
    if flags.special
    then (if base == 8
        then b'0' ∷ []
        else if base == 16
        then b'0' ∷ bit_or b'X' (locase flags.small) ∷ []
        else [])
    else []

abbrev pub max : ℕ → ℕ → ℕ
max a b = if ltb b a then a else b

-- What is written, for the digits `t` and the `size` that is left for padding.
pub layout : Flags → List ℕ → List ℕ → ℕ → ℕ → List ℕ → List ℕ
layout flags sign prefix size precision t =
    let zeropad = flags.zeropad && not flags.left in
    let spaces = replicate size b' ' in
    let lead = if zeropad || flags.left then [] else spaces in
    let inner = if zeropad then replicate size b'0' else [] in
    let trail = if flags.left then spaces else [] in
    let shown = replicate (precision - length t) b'0' ++ rev_onto t trail in
    lead ++ (sign ++ (prefix ++ (inner ++ shown)))

-- `none` is the null pointer.
unfoldable pub number : ℕ → ℕ → ℕ → ℕ → Flags → Option (List ℕ)
number num base size precision flags =
    if ltb base 2 || ltb 16 base
    then none
    else let sign = sign_chars flags num in
      let prefix = prefix_chars flags base in
      let t = tmp base flags.small (magnitude flags num) in
      let width = max (length t) precision in
      some (layout flags sign prefix (size - length sign - length prefix - width) width t)
