-- ===== src/Phymem/Scan.antt =====
-- What the search for a word with a free page finds.
use Prim.Native.Nat.{max}
use yaos.Prelude.{
  ℕ, zero, suc, ◌+◌, ◌-◌, ◌≤◌, ◌<◌, ◌≡◌, refl, Bool, true, false, Option, none, some, List, arith,
  Bool-cases, inl, inr, if◌then◌else◌,
}
use native.Mathlib.Decide.{ℕ_discrete, dec_lt}
use yaos.Bitmap.{Word, nonzero, word}
use yaos.Phymem.{Phymem, scan, hit_or_null, scan_from_start, get_none_zero}

abbrev pub IsClear : List Word → ℕ → ℕ → Type 0
IsClear bits lo hi = (i : ℕ) → lo < i → i ≤ hi → nonzero (word bits i) ≡ false

abbrev Scanned : List Word → ℕ → ℕ → Bool × ℕ → Type 0
Scanned bits rounds now (true, n) = (nonzero (word bits n) ≡ true) × (now < n) × (n ≤ now + rounds)
Scanned bits rounds now (false, n) = (n ≡ now + rounds + 1) × IsClear bits now (now + rounds)

IsClear-step :
    (bits : List Word) (now top : ℕ)
    → nonzero (word bits (now + 1)) ≡ false
    → IsClear bits (now + 1) top
    → IsClear bits now top
IsClear-step bits now top e rest i lo hi = elim (ℕ_discrete i (now + 1)) [
  | yes same ↦ rw same e
  | no other ↦ rest i (omega arith) hi
]

extend :
    (bits : List Word) (rounds now : ℕ) (out : Bool × ℕ)
    → nonzero (word bits (now + 1)) ≡ false
    → Scanned bits rounds (now + 1) out
    → Scanned bits (suc rounds) now out
extend bits rounds now (true, n) e (hit, lo, hi) = (hit, omega arith, omega arith)
extend bits rounds now (false, n) e (stop, rest) =
    (omega arith, IsClear-step bits now (now + suc rounds) e λ i lo hi. rest i lo (omega arith))

scan-Scanned : (bits : List Word) (rounds now : ℕ) → Scanned bits rounds now (scan bits rounds now)
unfolding scan
scan-Scanned bits zero now = (omega arith, λ i lo hi. absurd (omega arith))
scan-Scanned bits (suc rounds) now = elim (Bool-cases (nonzero (word bits (now + 1)))) [
  | inl hit ↦ rw hit (hit, omega arith, omega arith)
  | inr miss ↦ rw miss (extend bits rounds now _ miss (scan-Scanned bits rounds (now + 1)))
]

-- The outcome of the search: a word that is not zero, or none from the start to `pmax`.
abbrev pub Found : Phymem → Option ℕ × ℕ → Type 0
Found s (some p, now) = (p ≡ now) × (nonzero (word s.pgbits p) ≡ true) × (now ≤ max s.pnow s.pmax)
Found s (none, now) =
    (now ≤ max s.pnow 1) × ((i : ℕ) → i < s.pmax → nonzero (word s.pgbits i) ≡ false)

-- Both scans together pass over every word below `pmax`.
clear_below :
    (s : Phymem)
    → nonzero (word s.pgbits s.pnow) ≡ false
    → nonzero (word s.pgbits 0) ≡ false
    → IsClear s.pgbits s.pnow (s.pnow + (s.pmax - (s.pnow + 1)))
    → IsClear s.pgbits 0 (s.pnow - 1)
    → (i : ℕ) → i < s.pmax
    → nonzero (word s.pgbits i) ≡ false
clear_below s here first up down zero h = first
clear_below s here first up down (suc i) h = elim (ℕ_discrete (suc i) s.pnow) [
  | yes same ↦ rw same here
  | no other ↦ elim (dec_lt (suc i) s.pnow) [
    | yes lo ↦ down (suc i) (omega arith) (omega arith)
    | no hi ↦ up (suc i) (omega arith) (omega arith)
  ]
]

module _ (s : Phymem) (here : nonzero (word s.pgbits s.pnow) ≡ false) where
  second :
      (out : Bool × ℕ)
      → nonzero (word s.pgbits 0) ≡ false
      → IsClear s.pgbits s.pnow (s.pnow + (s.pmax - (s.pnow + 1)))
      → Scanned s.pgbits (s.pnow - 1) 0 out
      → Found s (hit_or_null out)
  second (true, n) first up (hit, lo, hi) = (refl, hit, omega arith)
  second (false, n) first up (stop, down) =
      (omega arith, clear_below s here first up λ i lo hi. down i lo (omega arith))

  from_start :
      IsClear s.pgbits s.pnow (s.pnow + (s.pmax - (s.pnow + 1))) → Found s (scan_from_start s)
  unfolding scan_from_start
  from_start up = elim (Bool-cases (nonzero (word s.pgbits 0))) [
    | inl hit ↦ rw hit (refl, hit, omega arith)
    | inr miss ↦ rw miss (second _ miss up (scan-Scanned s.pgbits (s.pnow - 1) 0))
  ]

  first_scan :
      (out : Bool × ℕ)
      → Scanned s.pgbits (s.pmax - (s.pnow + 1)) s.pnow out
      → Found s (if out.0 then (some out.1, out.1) else scan_from_start s)
  first_scan (true, n) (hit, lo, hi) = (refl, hit, omega arith)
  first_scan (false, n) (stop, up) = from_start up

pub get_none_zero-Found : (s : Phymem) → Found s (get_none_zero s)
unfolding get_none_zero
get_none_zero-Found s = elim (Bool-cases (nonzero (word s.pgbits s.pnow))) [
  | inl hit ↦ rw hit (refl, hit, omega arith)
  | inr miss ↦ rw miss (first_scan s miss _ (scan-Scanned s.pgbits (s.pmax - (s.pnow + 1)) s.pnow))
]
