-- ===== src/Timer/Collect.antt =====
-- Which timeouts one run of `run_timer_softirq` collects.
use yaos.Prelude.{
  ℕ, zero, suc, ◌+◌, ◌≤◌, ◌<◌, ◌≡◌, refl, inl, inr, Bool, false, List, [], ◌∷◌, ◌++◌, arith,
  Bool-cases, leb, All, length, if◌then◌else◌, ap,
}
use yaos.Timer.{Timeout, collect}
use yaos.Timer.Order.{Sorted, count}

-- the timeouts of a list that are due, and those that are not
abbrev pub due : ℕ → List Timeout → List Timeout
due now [] = []
due now (p ∷ rest) = let others = due now rest in if leb p.deadline now then p ∷ others else others

abbrev pub not_due : ℕ → List Timeout → List Timeout
not_due now [] = []
not_due now (p ∷ rest) =
    let others = not_due now rest in if leb p.deadline now then others else p ∷ others

pub due-late :
    (now d : ℕ) (l : List Timeout)
    → now < d
    → All (λ (x : Timeout). d ≤ x.deadline) l
    → (due now l ≡ []) × (not_due now l ≡ l)
due-late now d [] lt h = (refl, refl)
due-late now d (p ∷ rest) lt h =
    let late : leb p.deadline now ≡ false = ground (arith, h.0) in
    let (a, b) = due-late now d rest lt h.1 in rw late (a, ap (◌∷◌ p) b)

-- Each timeout is due or is not.
pub count-due :
    (f : Timeout → Bool) (now : ℕ) (l : List Timeout)
    → count f l ≡ count f (due now l) + count f (not_due now l)
count-due f now [] = refl
count-due f now (p ∷ rest) = elim (Bool-cases (leb p.deadline now)) [
  | inl on ↦ rw on (omega (arith, count-due f now rest))
  | inr late ↦ rw late (omega (arith, count-due f now rest))
]

-- What was collected is due; unless all places are taken, nothing behind it is.
pub record Collected (now callnr : ℕ) (l : List Timeout) : Type 0 where
  pub all_due : due now l ≡ (collect now callnr l).0 ++ due now (collect now callnr l).1
  pub none_lost : not_due now l ≡ not_due now (collect now callnr l).1
  pub lengths : length (collect now callnr l).0 + length (collect now callnr l).1 ≡ length l
  pub room : length (collect now callnr l).0 ≤ callnr
  pub done :
      length (collect now callnr l).0 < callnr
      → (due now (collect now callnr l).1 ≡ [])
        × (not_due now (collect now callnr l).1 ≡ (collect now callnr l).1)

pub collect-Collected : (now callnr : ℕ) (l : List Timeout) → Sorted l → Collected now callnr l
unfolding collect
collect-Collected now zero l ord = record {
  all_due = refl;
  none_lost = refl;
  lengths = omega arith;
  room = omega arith;
  done = λ lt. absurd (omega arith);
}
collect-Collected now (suc callnr) [] ord = record {
  all_due = refl;
  none_lost = refl;
  lengths = refl;
  room = omega arith;
  done = λ lt. (refl, refl);
}
collect-Collected now (suc callnr) (p ∷ rest) ord = elim (Bool-cases (leb p.deadline now)) [
  | inl on ↦
      let c = collect-Collected now callnr rest ord.1 in
      record {
        all_due = rw (on, c.all_due) refl;
        none_lost = rw on c.none_lost;
        lengths = rw on (omega (arith, c.lengths));
        room = rw on (omega (arith, c.room));
        done = rw on (λ lt. c.done (omega arith));
      }
  | inr late ↦
      let (a, b) = due-late now p.deadline rest (ground arith) ord.0 in
      record {
        all_due = rw late (rw late refl);
        none_lost = rw late (rw late refl);
        lengths = rw late (omega arith);
        room = rw late (omega arith);
        done = rw late (λ lt. rw late (a, ap (◌∷◌ p) b));
      }
]
