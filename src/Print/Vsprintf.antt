-- ===== src/Print/Vsprintf.antt =====
-- `vsprintf`: the switch on the conversion, and the loop over the format.
--
-- The loop runs on a number of rounds; one for each byte of the format is enough. `halt` stands for
-- what C leaves undefined, a read of an argument that is not there or is of the other kind.
pub mod Plain
pub mod Rounds
use yaos.Prelude.{
  ℕ, zero, suc, Bool, true, false, Option, none, some, List, [], ◌∷◌, ◌++◌, length, ◌==◌, ◌||◌,
  if◌then◌else◌,
}
use yaos.Prelude.Outcome.{Outcome, ok, halt, spin}
use yaos.Print.{Flags}
use yaos.Print.Format.{
  Arg, Spec, Output, Parsed, Converted, write, parse_spec, convert_integer, convert_char,
  convert_text, convert_pointer, convert_count,
}

-- The conversion `c`. A character that is none is written after the `%`.
unfoldable pub convert : ℕ → Spec → Output → List Arg → Converted
convert c s o args =
    if c == b'c'
    then convert_char s o args
    else if c == b's'
    then convert_text s o args
    else if c == b'p'
    then convert_pointer s o args
    else if c == b'n'
    then convert_count s o args
    else if c == b'%'
    then some (write (b'%' ∷ []) o, args)
    else if c == b'o'
    then convert_integer 8 s o args
    else if c == b'x'
    then convert_integer 16 (record s { flags = record s.flags { small = true } }) o args
    else if c == b'X'
    then convert_integer 16 s o args
    else if c == b'd' || c == b'i'
    then convert_integer 10 (record s { flags = record s.flags { sign = true } }) o args
    else if c == b'u'
    then convert_integer 10 s o args
    else some (write (b'%' ∷ c ∷ []) o, args)

abbrev pub Step : Type 0
Step = Option (Output × List Arg × List ℕ)

abbrev pub with_rest : List ℕ → Converted → Step
with_rest cs none = none
with_rest cs (some (o, args)) = some (o, args, cs)

-- the conversion at the head of what is left of the format, which may have ended
abbrev pub convert_next : Output → Parsed → Step
convert_next o none = none
convert_next o (some (s, args, [])) = some (write (b'%' ∷ []) o, args, [])
convert_next o (some (s, args, c ∷ cs)) = with_rest cs (convert c s o args)

-- what follows a `%`
unfoldable pub directive : Output → List Arg → List ℕ → Step
directive o args cs = convert_next o (parse_spec args cs)

abbrev pub proceed : (Output → List Arg → List ℕ → Outcome Output) → Step → Outcome Output
proceed again none = halt
proceed again (some (o, args, cs)) = again o args cs

unfoldable pub format : ℕ → Output → List Arg → List ℕ → Outcome Output
format fuel o args [] = ok o
format zero o args (c ∷ cs) = spin
format (suc fuel) o args (c ∷ cs) = elim (c == b'%') [
  | true ↦ proceed (format fuel) (directive o args cs)
  | false ↦ format fuel (write (c ∷ []) o) args cs
]

-- The result of the C function is the number of bytes.
unfoldable pub vsprintf : List ℕ → List Arg → Outcome Output
vsprintf fmt args = format (length fmt) (record { bytes = []; counts = [] }) args fmt
