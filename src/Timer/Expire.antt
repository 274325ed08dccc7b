-- ===== src/Timer/Expire.antt =====
-- `run_timer_softirq` calls back every timeout that is due, with callbacks that may arm others.
use yaos.Prelude.{
  ℕ, zero, suc, ◌*◌, ◌≤◌, ◌<◌, ◌≡◌, refl, inl, inr, Bool, true, false, List, [], ◌∷◌, ◌++◌, arith,
  Bool-cases, ltb, leb, ◌==◌, length, length-append, if◌then◌else◌, ap, sym, ◌∙◌, subst,
}
use yaos.Prelude.Outcome.{Outcome, ok, Action, pure, Returns, Returns->>=, Returns-mono}
use yaos.Timer.{Timeout, Timers, collect, call_all, fire, run_timer_softirq}
use yaos.Timer.Order.{Sorted, IsTimers, count, is_node, count-append, count-collect, collect-Sorted}
use yaos.Timer.Collect.{due, not_due, due-late, collect-Collected, count-due}

-- `seen` is what is looked at of the world, and `effect` what a callback does to it, at the time `now`.
module _ {W V : Type 0} (call : ℕ → ℕ → Action (Timers W) (Unit {0})) (seen : W → V)
    (effect : ℕ → ℕ → V → V) (now : ℕ) where
  -- What a callback leaves: the timers are well formed, the clock stands still, no timeout has been dropped,
  -- and what it has armed is not due yet.
  pub record Called (pfunc : ℕ) (s t : Timers W) : Type 0 where
    pub timers : IsTimers t
    pub clock : t.msec_count ≡ s.msec_count
    pub same_due : due now t.ptimer ≡ due now s.ptimer
    pub kept : (f : Timeout → Bool) → count f s.ptimer ≤ count f t.ptimer
    pub done : seen t.world ≡ effect pfunc now (seen s.world)

  -- Each callback returns.
  abbrev pub IsLater : Type 0
  IsLater =
      (pfunc : ℕ) (s : Timers W)
      → IsTimers s
      → s.msec_count ≡ now
      → Returns (λ (_, t). Called pfunc s t) (call pfunc now s)

  -- what the callbacks of a list do, one after the other
  abbrev pub effects : List Timeout → V → V
  effects [] v = v
  effects (p ∷ rest) v = effects rest (effect p.callback now v)

  effects-append : (xs ys : List Timeout) (v : V) → effects (xs ++ ys) v ≡ effects ys (effects xs v)
  effects-append [] ys v = refl
  effects-append (p ∷ xs) ys v = effects-append xs ys (effect p.callback now v)

  -- The due timeouts have been called back in the order of the list; the others are still armed, and nothing
  -- that is armed is due.
  pub record Expired (s t : Timers W) : Type 0 where
    pub timers : IsTimers t
    pub clock : t.msec_count ≡ s.msec_count
    pub none_due : due now t.ptimer ≡ []
    pub kept : (f : Timeout → Bool) → count f (not_due now s.ptimer) ≤ count f t.ptimer
    pub called : seen t.world ≡ effects (due now s.ptimer) (seen s.world)

  -- what the calls of a list leave
  record CalledAll (l : List Timeout) (s t : Timers W) : Type 0 where
    timers : IsTimers t
    clock : t.msec_count ≡ s.msec_count
    same_due : due now t.ptimer ≡ due now s.ptimer
    kept : (f : Timeout → Bool) → count f s.ptimer ≤ count f t.ptimer
    done : seen t.world ≡ effects l (seen s.world)

  CalledAll-cons :
      (p : Timeout) (rest : List Timeout) (s t u : Timers W)
      → Called p.callback s t
      → CalledAll rest t u
      → CalledAll (p ∷ rest) s u
  CalledAll-cons p rest s t u one all = record {
    timers = all.timers;
    clock = all.clock ∙ one.clock;
    same_due = all.same_due ∙ one.same_due;
    kept = λ f. omega (arith, one.kept f, all.kept f);
    done = all.done ∙ ap (effects rest) one.done;
  }

  call_all-CalledAll :
      (later : IsLater) (l : List Timeout) (s : Timers W)
      → IsTimers s
      → s.msec_count ≡ now
      → Returns (λ (_, t). CalledAll l s t) (call_all call l s)
  unfolding call_all
  call_all-CalledAll later [] s v at = record {
    timers = v;
    clock = refl;
    same_due = refl;
    kept = λ f. omega arith;
    done = refl;
  }
  call_all-CalledAll later (p ∷ rest) s v at =
      Returns->>= (λ (_, t). Called p.callback s t) (λ (_, t). CalledAll (p ∷ rest) s t)
        (call p.callback s.msec_count) (λ _. call_all call rest) s
        (subst (λ m. Returns (λ (_, t). Called p.callback s t) (call p.callback m s)) (sym at)
          (later p.callback s v at))
        (λ _ t one.
          Returns-mono _ _ (call_all call rest t) (λ (_, u). CalledAll-cons p rest s t u one)
            (call_all-CalledAll later rest t one.timers (one.clock ∙ at)))

  -- What holds after the rest of the due timeouts holds after all of them.
  Expired-batch :
      (batch : List Timeout) (s s' t u : Timers W)
      → due now s.ptimer ≡ batch ++ due now s'.ptimer
      → not_due now s.ptimer ≡ not_due now s'.ptimer
      → s'.msec_count ≡ s.msec_count
      → s'.world ≡ s.world
      → CalledAll batch s' t
      → Expired t u
      → Expired s u
  Expired-batch batch s s' t u all none clock world c x = record {
    timers = x.timers;
    clock = x.clock ∙ c.clock ∙ clock;
    none_due = x.none_due;
    kept = λ f. omega (
      arith,
      x.kept f,
      c.kept f,
      ap (count f) none,
      ap (count f) c.same_due,
      count-due f now s'.ptimer,
      count-due f now t.ptimer,
    );
    called =
        x.called
        ∙ ap (λ l. effects l (seen t.world)) c.same_due
        ∙ ap (effects (due now s'.ptimer)) c.done
        ∙ sym (effects-append batch (due now s'.ptimer) (seen s'.world))
        ∙ ap (λ w. effects (batch ++ due now s'.ptimer) (seen w)) world
        ∙ ap (λ l. effects l (seen s.world)) (sym all);
  }

  Expired-none : (t : Timers W) → IsTimers t → due now t.ptimer ≡ [] → Expired t t
  Expired-none t v none = record {
    timers = v;
    clock = refl;
    none_due = none;
    kept = λ f. omega (arith, count-due f now t.ptimer);
    called = ap (λ l. effects l (seen t.world)) (sym none);
  }

  abbrev pub Expires : Timers W → Outcome (Unit {0} × Timers W) → Type 0
  Expires s = Returns λ (_, t). Expired s t

  -- what the next run is for
  abbrev Again : ℕ → Type 0
  Again fuel =
      (s : Timers W)
      → IsTimers s
      → s.msec_count ≡ now
      → length (due now s.ptimer) < fuel * 10
      → Expires s (run_timer_softirq call fuel s)

  -- A batch is called back, and what is left is for the next run, if the batch is full.
  fire-Expires :
      (later : IsLater) (fuel : ℕ) (again : Again fuel) (s : Timers W) (batch left : List Timeout)
      → IsTimers (record s { ptimer = left; pfree = batch ++ s.pfree })
      → s.msec_count ≡ now
      → due now s.ptimer ≡ batch ++ due now left
      → not_due now s.ptimer ≡ not_due now left
      → (length batch < 10 → due now left ≡ [])
      → length batch ≤ 10
      → length (due now s.ptimer) < suc fuel * 10
      → Expires s (fire call (run_timer_softirq call fuel) (batch, left) s)
  fire-Expires later fuel again s batch left v at all none done most lt =
      let s' : Timers W = record s { ptimer = left; pfree = batch ++ s.pfree } in
      Returns->>= (λ (_, t). CalledAll batch s' t) (λ (_, t). Expired s t) (call_all call batch)
        (λ _. if length batch == 10 then run_timer_softirq call fuel else pure tt) s'
        (call_all-CalledAll later batch s' v at)
        (λ _ t c. elim (Bool-cases (length batch == 10)) [
          | inl full ↦ rw full (
              Returns-mono _ _ (run_timer_softirq call fuel t)
                (λ (_, u). Expired-batch batch s s' t u all none refl refl c)
                (again t c.timers (c.clock ∙ at) (
                  ground (
                    arith,
                    lt,
                    full,
                    ap length all,
                    length-append batch (due now left),
                    ap length c.same_due,
                  ))))
          | inr some_room ↦ rw some_room (
              Expired-batch batch s s' t t all none refl refl c
                (Expired-none t c.timers (c.same_due ∙ done (ground (arith, some_room, most)))))
        ])

  run-none :
      (fuel : ℕ) (s : Timers W) → s.ptimer ≡ [] → run_timer_softirq call (suc fuel) s ≡ ok (tt, s)
  unfolding run_timer_softirq
  run-none fuel s e = rw (run_timer_softirq, e) (rw e refl)

  run-late :
      (fuel : ℕ) (s : Timers W) (p : Timeout) (rest : List Timeout)
      → s.ptimer ≡ p ∷ rest
      → ltb s.msec_count p.deadline ≡ true
      → run_timer_softirq call (suc fuel) s ≡ ok (tt, s)
  unfolding run_timer_softirq
  run-late fuel s p rest e late = rw (run_timer_softirq, e, late) (rw e refl)

  run-fire :
      (fuel : ℕ) (s : Timers W) (p : Timeout) (rest : List Timeout)
      → s.ptimer ≡ p ∷ rest
      → ltb s.msec_count p.deadline ≡ false
      → run_timer_softirq call (suc fuel) s
        ≡ fire call
            (run_timer_softirq call fuel)
            (p ∷ (collect s.msec_count 9 rest).0, (collect s.msec_count 9 rest).1)
            s
  unfolding run_timer_softirq
  run-fire fuel s p rest e on = rw (run_timer_softirq, e, on) refl

  run-Expires :
      (later : IsLater) (fuel : ℕ) (again : Again fuel) (s : Timers W) (l : List Timeout)
      → s.ptimer ≡ l
      → IsTimers s
      → s.msec_count ≡ now
      → length (due now s.ptimer) < suc fuel * 10
      → Expires s (run_timer_softirq call (suc fuel) s)
  unfolding run_timer_softirq
  run-Expires later fuel again s [] e v at lt =
      subst (Expires s) (sym (run-none fuel s e)) (Expired-none s v (ap (due now) e))
  run-Expires later fuel again s (p ∷ rest) e v at lt =
      let ord : Sorted (p ∷ rest) = subst Sorted e v.sorted in
      elim (Bool-cases (ltb s.msec_count p.deadline)) [
        | inl late ↦
            let (a, b) =
              due-late now p.deadline (p ∷ rest) (ground (arith, late, at)) (omega arith, ord.0) in
            subst (Expires s) (sym (run-late fuel s p rest e late))
              (Expired-none s v (ap (due now) e ∙ a))
        | inr on ↦
            let c = collect-Collected s.msec_count 9 rest ord.1 in
            let batch : List Timeout = p ∷ (collect s.msec_count 9 rest).0 in
            let left : List Timeout = (collect s.msec_count 9 rest).1 in
            let on' : leb p.deadline now ≡ true = ground (arith, on, at) in
            subst (Expires s) (sym (run-fire fuel s p rest e on)) (
              fire-Expires later fuel again s batch left
                (record {
                  sorted = collect-Sorted s.msec_count 9 rest ord.1;
                  once = λ n. omega (
                    arith,
                    v.once n,
                    count-append (is_node n) batch s.pfree,
                    count-collect (is_node n) s.msec_count 9 rest,
                    ap (count (is_node n)) e,
                  );
                })
                at
                (ap (due now) e
                  ∙ rw on' (
                      ap (◌∷◌ p) (
                        subst (λ m. due m rest ≡ (collect s.msec_count 9 rest).0 ++ due m left) at
                          c.all_due)))
                (ap (not_due now) e
                  ∙ rw on' (subst (λ m. not_due m rest ≡ not_due m left) at c.none_lost))
                (λ few. subst (λ m. due m left ≡ []) at (c.done (omega (arith, few))).0)
                (omega (arith, c.room)) lt)
      ]

  -- On well-formed timers at the time `now`, with one round for each ten timeouts that are due and one more, if each
  -- callback returns, keeps the timers well formed and the clock, and drops no timeout and arms none
  -- that is due already, then run_timer_softirq returns. It has called back exactly the timeouts
  -- that were due, by increasing deadline; the others are still armed, nothing that is
  -- armed is due, and the timers are well formed.
  pub run_timer_softirq-Expired :
      (later : IsLater) (fuel : ℕ) (s : Timers W)
      → IsTimers s
      → s.msec_count ≡ now
      → length (due now s.ptimer) < fuel * 10
      → Expires s (run_timer_softirq call fuel s)
  run_timer_softirq-Expired later zero s v at lt = absurd (omega (arith, lt))
  run_timer_softirq-Expired later (suc fuel) s v at lt =
      run-Expires later fuel (run_timer_softirq-Expired later fuel) s s.ptimer refl v at lt
