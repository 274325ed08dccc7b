-- ===== src/Print/Vsprintf/Rounds.antt =====
-- The loop of `vsprintf` ends: each round reads at least one byte of the format.
use yaos.Prelude.{
  ℕ, zero, suc, ◌+◌, ◌-◌, ◌*◌, ◌%◌, ◌^◌, ◌≤◌, Option, none, some, List, [], ◌∷◌, length, ◌==◌,
  arith, Bool-cases, inl, inr,
}
use yaos.Prelude.Outcome.{Outcome, ok, halt, spin}
use yaos.Print.{Flags}
use yaos.Print.Format.{
  Arg, Spec, Output, Parsed, Converted, no_flags, write, ◌>>=◌, flag_of, isdigit, star_width,
  take_word, star_precision, after_dot, skip_atoi, parse_spec, parse_flags, parse_width,
  parse_precision, parse_qualifier,
}
use yaos.Print.Vsprintf.{
  Step, with_rest, convert_next, proceed, convert, directive, format, vsprintf,
}

length-skip_atoi : (i : ℕ) (cs : List ℕ) → length (skip_atoi i cs).1 ≤ length cs
unfolding skip_atoi
length-skip_atoi i [] = omega arith
length-skip_atoi i (c ∷ cs) = ground (arith, length-skip_atoi ((i * 10 + (c - b'0')) % 2 ^ 32) cs)

length-parse_flags : (f : Flags) (cs : List ℕ) → length (parse_flags f cs).1 ≤ length cs
unfolding parse_flags
length-parse_flags f [] = omega arith
length-parse_flags f (c ∷ cs) = go (flag_of c f) (λ f'. length-parse_flags f' cs)
  where
    go :
        (o : Option Flags)
        → ((f' : Flags) → length (parse_flags f' cs).1 ≤ length cs)
        → length
            (elim o as (λ _. Flags × List ℕ) [ some f' ↦ parse_flags f' cs | none ↦ (f, c ∷ cs) ]).1
          ≤ suc (length cs)
    go none ih = omega arith
    go (some f') ih = omega (arith, ih f')

-- what a parser leaves of the format
abbrev Leaves : ℕ → Parsed → Type 0
Leaves n none = Unit
Leaves n (some (s, args, cs)) = length cs ≤ n

parse_width-Leaves :
    (s : Spec) (args : List Arg) (cs : List ℕ) → Leaves (length cs) (parse_width s args cs)
unfolding parse_width
parse_width-Leaves s args [] = omega arith
parse_width-Leaves s args (c ∷ cs) = elim (Bool-cases (isdigit c)) [
  | inl digit ↦ rw digit (length-skip_atoi 0 (c ∷ cs))
  | inr other ↦ elim (Bool-cases (c == b'*')) [
    | inl star ↦ rw (other, star) (go (take_word args))
    | inr none_given ↦ rw (other, none_given) (omega arith)
  ]
]
  where
    go : (o : Option (ℕ × List Arg)) → Leaves (suc (length cs)) (star_width s cs o)
    go none = tt
    go (some (w, rest)) = ground arith

after_dot-Leaves :
    (s : Spec) (args : List Arg) (cs : List ℕ) → Leaves (length cs) (after_dot s args cs)
after_dot-Leaves s args [] = omega arith
after_dot-Leaves s args (c ∷ cs) = elim (Bool-cases (isdigit c)) [
  | inl digit ↦ rw digit (length-skip_atoi 0 (c ∷ cs))
  | inr other ↦ elim (Bool-cases (c == b'*')) [
    | inl star ↦ rw (other, star) (go (take_word args))
    | inr none_given ↦ rw (other, none_given) (omega arith)
  ]
]
  where
    go : (o : Option (ℕ × List Arg)) → Leaves (suc (length cs)) (star_precision s cs o)
    go none = tt
    go (some (w, rest)) = omega arith

Leaves-mono : (m n : ℕ) (p : Parsed) → m ≤ n → Leaves m p → Leaves n p
Leaves-mono m n none le h = tt
Leaves-mono m n (some (s, args, cs)) le h = omega arith

parse_precision-Leaves :
    (s : Spec) (args : List Arg) (cs : List ℕ) → Leaves (length cs) (parse_precision s args cs)
unfolding parse_precision
parse_precision-Leaves s args [] = omega arith
parse_precision-Leaves s args (c ∷ cs) = elim (Bool-cases (c == b'.')) [
  | inl dot ↦ rw dot (
      Leaves-mono (length cs) (suc (length cs)) (after_dot s args cs) (omega arith)
        (after_dot-Leaves s args cs))
  | inr other ↦ rw other (omega arith)
]

parse_qualifier-Leaves :
    (s : Spec) (args : List Arg) (cs : List ℕ) → Leaves (length cs) (parse_qualifier s args cs)
unfolding parse_qualifier
parse_qualifier-Leaves s args [] = omega arith
parse_qualifier-Leaves s args (c ∷ cs) = ground arith

Leaves->>= :
    (n : ℕ) (p : Parsed) (f : Spec → List Arg → List ℕ → Parsed)
    → ((s : Spec) (args : List Arg) (cs : List ℕ) → Leaves (length cs) (f s args cs))
    → Leaves n p
    → Leaves n (p >>= f)
Leaves->>= n none f h l = tt
Leaves->>= n (some (s, args, cs)) f h l = Leaves-mono (length cs) n (f s args cs) l (h s args cs)

parse_spec-Leaves : (args : List Arg) (cs : List ℕ) → Leaves (length cs) (parse_spec args cs)
unfolding parse_spec
parse_spec-Leaves args cs =
    let rest = (parse_flags no_flags cs).1 in
    let s : Spec = record {
      flags = (parse_flags no_flags cs).0;
      field_width = none;
      precision = none;
      qualifier = 0;
    } in
    Leaves->>= (length cs) (parse_width s args rest >>= parse_precision) parse_qualifier
      parse_qualifier-Leaves
      (Leaves->>= (length cs) (parse_width s args rest) parse_precision parse_precision-Leaves (
        Leaves-mono (length rest) (length cs) (parse_width s args rest)
          (length-parse_flags no_flags cs) (parse_width-Leaves s args rest)))

-- what a conversion leaves of the format
abbrev Shortens : ℕ → Step → Type 0
Shortens n none = Unit
Shortens n (some (o, args, cs)) = length cs ≤ n

with_rest-Shortens : (cs : List ℕ) (c : Converted) → Shortens (length cs) (with_rest cs c)
with_rest-Shortens cs none = tt
with_rest-Shortens cs (some (o, args)) = omega arith

Shortens-mono : (m n : ℕ) (p : Step) → m ≤ n → Shortens m p → Shortens n p
Shortens-mono m n none le h = tt
Shortens-mono m n (some (s, args, cs)) le h = omega arith

convert_next-Shortens :
    (n : ℕ) (o : Output) (p : Parsed) → Leaves n p → Shortens n (convert_next o p)
convert_next-Shortens n o none l = tt
convert_next-Shortens n o (some (s, args, [])) l = omega arith
convert_next-Shortens n o (some (s, args, c ∷ cs)) l =
    Shortens-mono (length cs) n (with_rest cs (convert c s o args)) (omega arith)
      (with_rest-Shortens cs (convert c s o args))

-- the loop has not run out of rounds
abbrev pub Ends : Outcome Output → Type 0
Ends (ok o) = Unit
Ends halt = Unit
Ends spin = ⊥

proceed-Ends :
    (fuel n : ℕ) (s : Step)
    → ((o : Output) (args : List Arg) (cs : List ℕ)
        → length cs ≤ fuel
        → Ends (format fuel o args cs))
    → Shortens n s
    → n ≤ fuel
    → Ends (proceed (format fuel) s)
proceed-Ends fuel n none ih l le = tt
proceed-Ends fuel n (some (o, args, cs)) ih l le = ih o args cs (omega arith)

format-Ends :
    (fuel : ℕ) (o : Output) (args : List Arg) (cs : List ℕ)
    → length cs ≤ fuel
    → Ends (format fuel o args cs)
unfolding format directive
format-Ends zero o args [] le = tt
format-Ends zero o args (c ∷ cs) le = absurd (omega arith)
format-Ends (suc fuel) o args [] le = tt
format-Ends (suc fuel) o args (c ∷ cs) le = elim (Bool-cases (c == b'%')) [
  | inl percent ↦
      rw (format, percent)
        (proceed-Ends fuel (length cs) (directive o args cs) (format-Ends fuel)
          (convert_next-Shortens (length cs) o (parse_spec args cs) (parse_spec-Leaves args cs))
          (omega arith))
  | inr plain ↦ rw (format, plain) (format-Ends fuel (write (c ∷ []) o) args cs (omega arith))
]

-- One round for each byte of the format is enough for the loop of vsprintf, whatever the format and
-- the arguments: it ends, or has read an argument that is not there or of the other kind.
pub vsprintf-Ends : (fmt : List ℕ) (args : List Arg) → Ends (vsprintf fmt args)
unfolding vsprintf
vsprintf-Ends fmt args =
    format-Ends (length fmt) (record { bytes = []; counts = [] }) args fmt (omega arith)
