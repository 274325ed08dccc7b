-- ===== src/Print/Vsprintf/Plain.antt =====
-- What a format prints: plain bytes as they are, and an integer so that it can be read back.
use yaos.Prelude.{
  ℕ, suc, ◌+◌, ◌%◌, ◌^◌, ◌<◌, ◌≡◌, refl, ◌∙◌, ap, sym, true, false, none, some, List, [], ◌∷◌, ◌++◌,
  length, ◌==◌, arith, All, length-append, inr,
}
use native.Mathlib.Nat.{zero-add, suc-add}
use mathlib.Core.List.{append_assoc, append-nil}
use yaos.Prelude.Outcome.{ok}
use yaos.Print.{Flags, number, sign_chars, magnitude}
use yaos.Print.Digits.{read}
use yaos.Print.Number.{read-number}
use yaos.Print.Format.{
  Arg, word, Spec, Output, write, or_zero, no_flags, parse_spec, parse_flags, parse_width,
  parse_precision, parse_qualifier, convert_integer, integer_arg,
}
use yaos.Print.Vsprintf.{convert, directive, format, vsprintf}

abbrev pub IsPlain : List ℕ → Type 0
IsPlain = All (λ c. (c == b'%') ≡ false)

format-plain :
    (pre fmt : List ℕ) (fuel : ℕ) (o : Output) (args : List Arg)
    → IsPlain pre
    → format (length pre + fuel) o args (pre ++ fmt) ≡ format fuel (write pre o) args fmt
unfolding format
format-plain [] fmt fuel o args h =
    ap (λ n. format n o args fmt) (zero-add fuel)
    ∙ ap (λ b. format fuel (record o { bytes = b }) args fmt) (sym (append-nil o.bytes))
format-plain (c ∷ pre) fmt fuel o args h =
    ap (λ n. format n o args (c ∷ (pre ++ fmt))) (suc-add (length pre) fuel)
    ∙ rw (format, h.0) (format-plain pre fmt fuel (write (c ∷ []) o) args h.1)
    ∙ ap (λ b. format fuel (record o { bytes = b }) args fmt) (append_assoc o.bytes (c ∷ []) pre)

format-end : (fuel : ℕ) (o : Output) (args : List Arg) → format fuel o args [] ≡ ok o
unfolding format
format-end fuel o args = refl

-- the flags of `%ld` and `%lx`
abbrev pub signed : Flags
signed = record no_flags { sign = true }

abbrev pub hex : Flags
hex = record no_flags { small = true }

convert_integer_lem :
    (base w : ℕ) (s : Spec) (o : Output) (args : List Arg) (out : List ℕ)
    → number
        (integer_arg s.flags.sign s.qualifier w)
        base
        (or_zero s.field_width)
        (or_zero s.precision)
        s.flags
      ≡ some out
    → convert_integer base s o (word w ∷ args) ≡ some (write out o, args)
unfolding convert_integer
convert_integer_lem base w s o args out e = rw (convert_integer, e)

-- the specification that `%l` gives
abbrev long : Flags → Spec
long f = record { flags = f; field_width = none; precision = none; qualifier = b'l' }

parse_spec-l :
    (c : ℕ) (args : List Arg) (cs : List ℕ)
    → parse_spec args (b'l' ∷ c ∷ cs) ≡ some (long no_flags, args, c ∷ cs)
unfolding parse_spec parse_flags parse_width parse_precision parse_qualifier
parse_spec-l c args cs = refl

directive-ld :
    (w : ℕ) (o : Output) (args : List Arg) (cs out : List ℕ)
    → number (w % 2 ^ 64) 10 0 0 signed ≡ some out
    → directive o (word w ∷ args) (b'l' ∷ b'd' ∷ cs) ≡ some (write out o, args, cs)
unfolding directive convert integer_arg
directive-ld w o args cs out e =
    rw
      (
        directive,
        parse_spec-l b'd' (word w ∷ args) cs,
        convert_integer_lem 10 w (long signed) o args out e,
      )
      refl

directive-lx :
    (w : ℕ) (o : Output) (args : List Arg) (cs out : List ℕ)
    → number (w % 2 ^ 64) 16 0 0 hex ≡ some out
    → directive o (word w ∷ args) (b'l' ∷ b'x' ∷ cs) ≡ some (write out o, args, cs)
unfolding directive convert integer_arg
directive-lx w o args cs out e =
    rw
      (
        directive,
        parse_spec-l b'x' (word w ∷ args) cs,
        convert_integer_lem 16 w (long hex) o args out e,
      )
      refl

-- the loop at a `%`
format-directive :
    (fuel : ℕ) (o o' : Output) (args rest : List Arg) (cs cs' : List ℕ)
    → directive o args cs ≡ some (o', rest, cs')
    → format (suc fuel) o args (b'%' ∷ cs) ≡ format fuel o' rest cs'
unfolding format
format-directive fuel o o' args rest cs cs' e = rw (format, e) refl

format-all :
    (post : List ℕ) (more : ℕ) (o : Output) (args : List Arg)
    → IsPlain post
    → format (length post + more) o args post ≡ ok (write post o)
format-all post more o args h =
    ap (λ l. format (length post + more) o args l) (sym (append-nil post))
    ∙ format-plain post [] more o args h
    ∙ format-end more (write post o) args

-- A format without `%` is printed as it is, whatever its length: nothing in vsprintf bounds the bytes
-- that are written to the buffer.
pub vsprintf-plain :
    (fmt : List ℕ) (args : List Arg)
    → IsPlain fmt
    → vsprintf fmt args ≡ ok (record { bytes = fmt; counts = [] })
unfolding vsprintf
vsprintf-plain fmt args h =
    ap (λ n. format n empty args fmt) (omega (arith)) ∙ format-all fmt 0 empty args h
  where
    empty : Output
    empty = record { bytes = []; counts = [] }

-- A conversion of three bytes between plain bytes: what it writes stands between them.
module _ (pre post out : List ℕ) (c d w : ℕ) (plain : IsPlain pre) (plain' : IsPlain post)
    (e : (o : Output)
      → directive o (word w ∷ []) (c ∷ d ∷ post) ≡ some (write out o, [], post)) where
  vsprintf-between :
      vsprintf (pre ++ b'%' ∷ c ∷ d ∷ post) (word w ∷ [])
      ≡ ok (record { bytes = pre ++ out ++ post; counts = [] })
  unfolding vsprintf
  vsprintf-between =
      let empty : Output = record { bytes = []; counts = [] } in
      let rounds : length (pre ++ b'%' ∷ c ∷ d ∷ post) ≡ length pre + suc (length post + 2) =
        omega (arith, length-append pre (b'%' ∷ c ∷ d ∷ post)) in
      ap (λ n. format n empty (word w ∷ []) (pre ++ b'%' ∷ c ∷ d ∷ post)) rounds
      ∙ format-plain pre (b'%' ∷ c ∷ d ∷ post) (suc (length post + 2)) empty (word w ∷ []) plain
      ∙ format-directive (length post + 2) (record { bytes = pre; counts = [] })
          (record { bytes = pre ++ out; counts = [] }) (word w ∷ []) [] (c ∷ d ∷ post) post
          (e (record { bytes = pre; counts = [] }))
      ∙ format-all post 2 (record { bytes = pre ++ out; counts = [] }) [] plain'

-- Between plain bytes %ld prints the sign if the word is negative, and bytes that read back as the
-- magnitude of the word in base 10.
pub vsprintf-ld :
    (pre post : List ℕ) (w : ℕ)
    → IsPlain pre
    → IsPlain post
    → w < 2 ^ 64
    → (out : List ℕ) × (vsprintf (pre ++ b'%' ∷ b'l' ∷ b'd' ∷ post) (word w ∷ [])
        ≡ ok (record { bytes = pre ++ (sign_chars signed w ++ out) ++ post; counts = [] }))
      × (read 10 0 out ≡ magnitude signed w)
vsprintf-ld pre post w plain plain' lt =
    let same : w % 2 ^ 64 ≡ w = omega arith in
    let (out, shown, value) =
      read-number w 10 0 0 signed (omega arith) (omega arith) lt refl refl (inr refl) in
    (
      out,
      vsprintf-between pre post (sign_chars signed w ++ out) b'l' b'd' w plain plain' (λ o.
          directive-ld w o [] post (sign_chars signed w ++ out)
            (ap (λ n. number n 10 0 0 signed) same ∙ shown)),
      value,
    )

-- Between plain bytes %lx prints bytes that read back as the word in base 16.
pub vsprintf-lx :
    (pre post : List ℕ) (w : ℕ)
    → IsPlain pre
    → IsPlain post
    → w < 2 ^ 64
    → (out : List ℕ) × (vsprintf (pre ++ b'%' ∷ b'l' ∷ b'x' ∷ post) (word w ∷ [])
        ≡ ok (record { bytes = pre ++ out ++ post; counts = [] }))
      × (read 16 0 out ≡ w)
vsprintf-lx pre post w plain plain' lt =
    let same : w % 2 ^ 64 ≡ w = omega arith in
    let (out, shown, value) =
      read-number w 16 0 0 hex (omega arith) (omega arith) lt refl refl (inr refl) in
    (
      out,
      vsprintf-between pre post out b'l' b'x' w plain plain'
          (λ o. directive-lx w o [] post out (ap (λ n. number n 16 0 0 hex) same ∙ shown)),
      value,
    )
