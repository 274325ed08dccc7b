-- ===== src/Print/Format.antt =====
-- The parts of `vsprintf`: the format as a list of bytes up to its NUL, the arguments as a list of words and texts.
--
-- `none` is a read of an argument that is not there or is of the other kind, which C leaves
-- undefined.
use yaos.Prelude.{
  ℕ, zero, suc, ◌+◌, ◌-◌, ◌*◌, ◌%◌, ◌^◌, Bool, true, false, ◌&&◌, ◌||◌, Option, none, some, List,
  [], ◌∷◌, ◌++◌, length, leb, ◌==◌, if◌then◌else◌, replicate,
}
use yaos.Print.{Flags, number}

pub data Arg : Type 0 where
  word : ℕ → Arg
  text : List ℕ → Arg

abbrev pub isdigit : ℕ → Bool
isdigit c = leb b'0' c && leb c b'9'

-- `while (isdigit(**s)) i = i * 10 + *((*s)++) - '0';`, on the 32 bits of an `int`
unfoldable pub skip_atoi : ℕ → List ℕ → ℕ × List ℕ
skip_atoi i [] = (i, [])
skip_atoi i (c ∷ cs) =
    let rest = skip_atoi ((i * 10 + (c - b'0')) % 2 ^ 32) cs in
    if isdigit c then rest else (i, c ∷ cs)

abbrev pub no_flags : Flags
no_flags = record {
  zeropad = false;
  sign = false;
  plus = false;
  space = false;
  left = false;
  small = false;
  special = false;
}

-- the `switch` after `repeat`
abbrev pub flag_of : ℕ → Flags → Option Flags
flag_of c f =
    if c == b'-'
    then some (record f { left = true })
    else if c == b'+'
    then some (record f { plus = true })
    else if c == b' '
    then some (record f { space = true })
    else if c == b'#'
    then some (record f { special = true })
    else if c == b'0'
    then some (record f { zeropad = true })
    else none

unfoldable pub parse_flags : Flags → List ℕ → Flags × List ℕ
parse_flags f [] = (f, [])
parse_flags f (c ∷ cs) = elim (flag_of c f) [ some f' ↦ parse_flags f' cs | none ↦ (f, c ∷ cs) ]

-- `va_arg`
abbrev pub take_word : List Arg → Option (ℕ × List Arg)
take_word [] = none
take_word (word w ∷ args) = some (w, args)
take_word (text s ∷ args) = none

abbrev pub take_text : List Arg → Option (List ℕ × List Arg)
take_text [] = none
take_text (word w ∷ args) = none
take_text (text s ∷ args) = some (s, args)

-- an `int`: its bits, and whether it is negative
abbrev pub int_of : ℕ → ℕ
int_of w = w % 2 ^ 32

abbrev pub int_negative : ℕ → Bool
int_negative w = leb (2 ^ 31) (int_of w)

-- what stands between `%` and the conversion; `none` is -1
pub record Spec : Type 0 where
  pub flags : Flags
  pub field_width : Option ℕ
  pub precision : Option ℕ
  pub qualifier : ℕ

-- a parser leaves the arguments and the format that it has not read
abbrev pub Parsed : Type 0
Parsed = Option (Spec × List Arg × List ℕ)

-- A field width from the bits of an `int`: -1 is none, and with any other below 0 nothing is padded, as
-- with 0.
abbrev pub width_of : ℕ → Option ℕ
width_of n = if n == 2 ^ 32 - 1 then none else if leb (2 ^ 31) n then some 0 else some n

-- `field_width = va_arg(args, int);` and the sign, where -2^31 stays what it is
abbrev pub star_width : Spec → List ℕ → Option (ℕ × List Arg) → Parsed
star_width s cs none = none
star_width s cs (some (w, args)) =
    if int_negative w
    then some (
      record s {
        field_width = width_of (2 ^ 32 - int_of w);
        flags = record s.flags { left = true };
      },
      args,
      cs,
    )
    else some (record s { field_width = some (int_of w) }, args, cs)

unfoldable pub parse_width : Spec → List Arg → List ℕ → Parsed
parse_width s args [] = some (s, args, [])
parse_width s args (c ∷ cs) =
    if isdigit c
    then (let (n, rest) = skip_atoi 0 (c ∷ cs) in
        some (record s { field_width = width_of n }, args, rest))
    else if c == b'*'
    then star_width s cs (take_word args)
    else some (s, args, c ∷ cs)

-- `precision = va_arg(args, int);`, and 0 if it is negative
abbrev pub star_precision : Spec → List ℕ → Option (ℕ × List Arg) → Parsed
star_precision s cs none = none
star_precision s cs (some (w, args)) =
    some (record s { precision = some (if int_negative w then 0 else int_of w) }, args, cs)

-- after the `.`
abbrev pub after_dot : Spec → List Arg → List ℕ → Parsed
after_dot s args [] = some (record s { precision = some 0 }, args, [])
after_dot s args (c ∷ cs) =
    if isdigit c
    then (let (n, rest) = skip_atoi 0 (c ∷ cs) in
        some (record s { precision = some (if int_negative n then 0 else n) }, args, rest))
    else if c == b'*'
    then star_precision s cs (take_word args)
    else some (record s { precision = some 0 }, args, c ∷ cs)

unfoldable pub parse_precision : Spec → List Arg → List ℕ → Parsed
parse_precision s args [] = some (s, args, [])
parse_precision s args (c ∷ cs) = if c == b'.' then after_dot s args cs else some (s, args, c ∷ cs)

unfoldable pub parse_qualifier : Spec → List Arg → List ℕ → Parsed
parse_qualifier s args [] = some (s, args, [])
parse_qualifier s args (c ∷ cs) =
    if c == b'h' || c == b'l' || c == b'L'
    then some (record s { qualifier = c }, args, cs)
    else some (s, args, c ∷ cs)

infixl 5 ◌>>=◌
abbrev pub ◌>>=◌ : Parsed → (Spec → List Arg → List ℕ → Parsed) → Parsed
none >>= f = none
some (s, args, cs) >>= f = f s args cs

-- all that stands before the conversion
unfoldable pub parse_spec : List Arg → List ℕ → Parsed
parse_spec args cs =
    let (f, rest) = parse_flags no_flags cs in
    let s : Spec = record { flags = f; field_width = none; precision = none; qualifier = 0 } in
    parse_width s args rest >>= parse_precision >>= parse_qualifier

-- the number that an integer conversion prints, on 64 bits
abbrev pub sign_extend : ℕ → ℕ → ℕ
sign_extend bits n = if leb (2 ^ (bits - 1)) n then n + (2 ^ 64 - 2 ^ bits) else n

unfoldable pub integer_arg : Bool → ℕ → ℕ → ℕ
integer_arg sign qualifier w =
    if qualifier == b'l'
    then w % 2 ^ 64
    else if qualifier == b'h'
    then (if sign then sign_extend 16 (w % 2 ^ 16) else w % 2 ^ 16)
    else if sign
    then sign_extend 32 (int_of w)
    else int_of w

-- a negative value writes nothing, like 0
abbrev pub or_zero : Option ℕ → ℕ
or_zero none = 0
or_zero (some n) = n

-- what a conversion has written, and to which addresses `%n` has stored the count
pub record Output : Type 0 where
  pub bytes : List ℕ
  pub counts : List (ℕ × ℕ)

abbrev pub write : List ℕ → Output → Output
write cs o = record o { bytes = o.bytes ++ cs }

-- a conversion leaves the output and the arguments
abbrev pub Converted : Type 0
Converted = Option (Output × List Arg)

abbrev pub padded : Bool → ℕ → List ℕ → List ℕ
padded left n cs = if left then cs ++ replicate n b' ' else replicate n b' ' ++ cs

-- after `number`, which does not return null for the bases that are used
abbrev pub written : Output → List Arg → Option (List ℕ) → Converted
written o args none = none
written o args (some cs) = some (write cs o, args)

abbrev pub integer_word : ℕ → Spec → Output → Option (ℕ × List Arg) → Converted
integer_word base s o none = none
integer_word base s o (some (w, rest)) = written o rest (
    number (integer_arg s.flags.sign s.qualifier w) base (or_zero s.field_width)
      (or_zero s.precision) s.flags)

unfoldable pub convert_integer : ℕ → Spec → Output → List Arg → Converted
convert_integer base s o args = integer_word base s o (take_word args)

unfoldable pub convert_char : Spec → Output → List Arg → Converted
convert_char s o args = elim (take_word args) [
  | none ↦ none
  | some (w, rest) ↦
      some (write (padded s.flags.left (or_zero s.field_width - 1) (w % 2 ^ 8 ∷ [])) o, rest)
]

-- `strnlen(s, precision)` bytes of the text
abbrev pub cut : Option ℕ → List ℕ → List ℕ
cut none cs = cs
cut (some zero) cs = []
cut (some (suc n)) [] = []
cut (some (suc n)) (c ∷ cs) = c ∷ cut (some n) cs

unfoldable pub convert_text : Spec → Output → List Arg → Converted
convert_text s o args = elim (take_text args) [
  | none ↦ none
  | some (t, rest) ↦
      let shown = cut s.precision t in
      some (write (padded s.flags.left (or_zero s.field_width - length shown) shown) o, rest)
]

unfoldable pub convert_pointer : Spec → Output → List Arg → Converted
convert_pointer s o args =
    let s' : Spec = elim s.field_width [
      | none ↦ record s { field_width = some 16; flags = record s.flags { zeropad = true } }
      | some n ↦ s
    ] in
    elim (take_word args) [
      | none ↦ none
      | some (w, rest) ↦
          written o rest
            (number (w % 2 ^ 64) 16 (or_zero s'.field_width) (or_zero s'.precision) s'.flags)
    ]

-- `*ip = (str - buf);`
unfoldable pub convert_count : Spec → Output → List Arg → Converted
convert_count s o args = elim (take_word args) [
  | none ↦ none
  | some (ip, rest) ↦ some (record o { counts = (ip, length o.bytes) ∷ o.counts }, rest)
]
