-- ===== src/Timer/Keep.antt =====
-- `run_timer_softirq` keeps the timers well formed, whatever the callbacks arm.
use yaos.Prelude.{
  ℕ, zero, suc, ◌+◌, ◌≤◌, ◌≡◌, refl, inl, inr, List, [], ◌∷◌, ◌++◌, arith, Bool-cases, ltb, ◌==◌,
  if◌then◌else◌, length, subst, ap,
}
use yaos.Prelude.Outcome.{Action, pure, WhenOk, WhenOk->>=}
use yaos.Timer.{Timeout, Timers, collect, call_all, fire, run_timer_softirq}
use yaos.Timer.Order.{Sorted, IsTimers, count, is_node, count-append, count-collect, collect-Sorted}

module _ {W : Type 0} (call : ℕ → ℕ → Action (Timers W) (Unit {0})) where
  abbrev pub Keeps : Action (Timers W) (Unit {0}) → Timers W → Type 0
  Keeps m s = WhenOk (λ (r : Unit {0} × Timers W). IsTimers r.1) (m s)

  -- Callbacks may arm timeouts, and keep the timers well formed.
  abbrev pub IsKeeping : Type 0
  IsKeeping = (pfunc now : ℕ) (s : Timers W) → IsTimers s → Keeps (call pfunc now) s

  call_all-Keeps :
      IsKeeping → (l : List Timeout) (s : Timers W) → IsTimers s → Keeps (call_all call l) s
  unfolding call_all
  call_all-Keeps keeping [] s inv = inv
  call_all-Keeps keeping (p ∷ rest) s inv =
      WhenOk->>= (λ r. IsTimers r.1) (λ r. IsTimers r.1) (call p.callback s.msec_count)
        (λ _. call_all call rest) s (keeping p.callback s.msec_count s inv)
        (λ _ t inv'. call_all-Keeps keeping rest t inv')

  fire-Keeps :
      IsKeeping
      → (again : Action (Timers W) (Unit {0})) → ((t : Timers W) → IsTimers t → Keeps again t)
      → (due left : List Timeout) (s : Timers W) → Sorted left
      → ((n : ℕ) → count (is_node n) s.pfree + (count (is_node n) due + count (is_node n) left) ≤ 1)
      → Keeps (fire call again (due, left)) s
  fire-Keeps keeping again next due left s ord once =
      let s' : Timers W = record s { ptimer = left; pfree = due ++ s.pfree } in
      let inv : IsTimers s' = record {
        sorted = ord;
        once = λ n. omega (arith, once n, count-append (is_node n) due s.pfree);
      } in
      WhenOk->>= (λ r. IsTimers r.1) (λ r. IsTimers r.1) (call_all call due)
        (λ _. if length due == 10 then again else pure tt) s' (call_all-Keeps keeping due s' inv)
        (λ _ t inv'. elim (Bool-cases (length due == 10)) [
          | inl full ↦ rw full (next t inv')
          | inr room ↦ rw room inv'
        ])

  run-Keeps :
      IsKeeping
      → (fuel : ℕ) → ((t : Timers W) → IsTimers t → Keeps (run_timer_softirq call fuel) t)
      → (s : Timers W) (l : List Timeout) → s.ptimer ≡ l
      → IsTimers s
      → Keeps (run_timer_softirq call (suc fuel)) s
  unfolding run_timer_softirq
  run-Keeps keeping fuel next s [] e inv = rw (run_timer_softirq, e) inv
  run-Keeps keeping fuel next s (p ∷ rest) e inv = elim (Bool-cases (ltb s.msec_count p.deadline)) [
    | inl late ↦ rw (run_timer_softirq, e, late) inv
    | inr on ↦
        rw (run_timer_softirq, e, on)
          (fire-Keeps keeping (run_timer_softirq call fuel) next
            (p ∷ (collect s.msec_count 9 rest).0) (collect s.msec_count 9 rest).1 s
            (collect-Sorted s.msec_count 9 rest (subst Sorted e inv.sorted).1)
            (λ n. omega (
              arith,
              inv.once n,
              count-collect (is_node n) s.msec_count 9 rest,
              ap (count (is_node n)) e,
            )))
  ]

  -- If the callbacks keep the timers well formed (they may arm new timeouts), then so does
  -- run_timer_softirq when it returns: the armed timeouts are ordered and no node is in use twice.
  pub run_timer_softirq-IsTimers :
      IsKeeping → (fuel : ℕ) (s : Timers W) → IsTimers s → Keeps (run_timer_softirq call fuel) s
  unfolding run_timer_softirq
  run_timer_softirq-IsTimers keeping zero s inv = tt
  run_timer_softirq-IsTimers keeping (suc fuel) s inv =
      run-Keeps keeping fuel (run_timer_softirq-IsTimers keeping fuel) s s.ptimer refl inv
