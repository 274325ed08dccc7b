-- ===== src/Timer/Tests.antt =====
-- Runs of the timers, and their theorems at small lists.
use yaos.Prelude.{ℕ, ◌+◌, ◌*◌, ◌≡◌, refl, sym, List, [], ◌∷◌, arith}
use yaos.Prelude.Outcome.{
  Outcome, ok, halt, spin, Action, ◌>>=◌, pure, Returns, Returns-mono, WhenOk,
}
use yaos.Timer.{
  Timeout, Timers, insert, insert_after, take_node, set_timeout, mktime64, run_timer_softirq,
  call_all, collect, init_timer, test_timeout,
}
use yaos.Timer.Order.{IsTimers, init_timer-IsTimers}
use yaos.Timer.Arm.{Replied, Replied-IsTimers, set_timeout-Replied}
use yaos.Timer.Rearm.{test_timeout-Called}
use yaos.Timer.Expire.{IsLater, Expires, run_timer_softirq-Expired}
use yaos.Timer.Keep.{Keeps, IsKeeping, run_timer_softirq-IsTimers}
use yaos.Timer.Calendar.{mktime64-calendar, days_to_year, days_to_month}

-- The world is the log of the calls, the latest first.
abbrev log : ℕ → ℕ → List (ℕ × ℕ) → List (ℕ × ℕ)
log pfunc now calls = (pfunc, now) ∷ calls

abbrev note : ℕ → ℕ → Action (Timers (List (ℕ × ℕ))) (Unit {0})
note pfunc now s = ok (tt, record s { world = log pfunc now s.world })

abbrev timeout : ℕ → ℕ → Timeout
timeout node deadline = record { node = node; deadline = deadline; callback = node + 1000 }

-- two timeouts at 5 and 9 msec, at 7 msec
abbrev two_armed : Timers (List (ℕ × ℕ))
two_armed = record {
  pfree = timeout 2 0 ∷ [];
  ptimer = timeout 0 5 ∷ timeout 1 9 ∷ [];
  msec_count = 7;
  world = [];
}

two_armed-IsTimers : IsTimers two_armed
two_armed-IsTimers = record { sorted = ((omega arith, tt), (tt, tt)); once = λ n. ground arith }

abbrev no_memory : ℕ → Action (List (ℕ × ℕ)) ℕ
no_memory size w = ok (0, w)

set_timeout_runs :
    set_timeout no_memory 3 77 two_armed
    ≡ ok (
      0,
      record two_armed {
        pfree = [];
        ptimer = timeout 0 5 ∷ timeout 1 9 ∷ record { node = 2; deadline = 10; callback = 77 } ∷ [];
      },
    )
unfolding set_timeout take_node insert insert_after
set_timeout_runs = refl

-- A timeout of the same deadline as others comes before them, but after the first of the list.
set_timeout_equal :
    insert (timeout 2 5) (timeout 0 5 ∷ timeout 1 5 ∷ [])
    ≡ timeout 0 5 ∷ timeout 2 5 ∷ timeout 1 5 ∷ []
unfolding insert insert_after
set_timeout_equal = refl

run_calls :
    run_timer_softirq note 1 two_armed
    ≡ ok (
      tt,
      record two_armed {
        pfree = timeout 0 5 ∷ timeout 2 0 ∷ [];
        ptimer = timeout 1 9 ∷ [];
        world = (1000, 7) ∷ [];
      },
    )
unfolding run_timer_softirq call_all collect
run_calls = refl

set_timeout-Replied_example :
    Returns (Replied 3 77 two_armed) (set_timeout no_memory 3 77 two_armed)
set_timeout-Replied_example =
    set_timeout-Replied no_memory 3 77 two_armed two_armed-IsTimers λ n e ne. absurd (ne (sym e))

-- test_timeout, with a note of the call
abbrev again : ℕ → ℕ → Action (Timers (List (ℕ × ℕ))) (Unit {0})
again pfunc now s = test_timeout no_memory pfunc (record s { world = log pfunc now s.world })

again-IsLater : IsLater again (λ calls. calls) log 7
again-IsLater pfunc s v at =
    Returns-mono _ _ (again pfunc 7 s)
      (λ _ c. record {
        timers = c.timers;
        clock = c.clock;
        same_due = c.same_due;
        kept = c.kept;
        done = c.done;
      })
      (test_timeout-Called no_memory (λ calls. calls) (λ calls. refl) 7 (omega arith) again pfunc
        (record s { world = log pfunc 7 s.world }) (record { sorted = v.sorted; once = v.once }) at
        λ n e ne. absurd (ne (sym e)))

-- The timeout that is due is called back, and arms itself again for ten seconds later.
again_runs :
    run_timer_softirq again 1 two_armed
    ≡ ok (
      tt,
      record two_armed {
        pfree = timeout 2 0 ∷ [];
        ptimer = timeout 1 9 ∷ record { node = 0; deadline = 10007; callback = 1000 } ∷ [];
        world = (1000, 7) ∷ [];
      },
    )
unfolding run_timer_softirq call_all collect test_timeout set_timeout take_node insert insert_after
again_runs = refl

run_timer_softirq-Expired_example :
    Expires again (λ calls. calls) log 7 two_armed (run_timer_softirq again 1 two_armed)
run_timer_softirq-Expired_example =
    run_timer_softirq-Expired again (λ calls. calls) log 7 again-IsLater 1 two_armed
      two_armed-IsTimers refl (omega arith)

-- a callback that arms itself again, a second later, while there is a free node
abbrev repeat : ℕ → ℕ → Action (Timers (List (ℕ × ℕ))) (Unit {0})
repeat pfunc now = do r ← set_timeout no_memory 1000 pfunc; pure tt

WhenOk-repeat :
    (pfunc : ℕ) (s : Timers (List (ℕ × ℕ))) (r : Outcome (ℕ × Timers (List (ℕ × ℕ))))
    → IsTimers s
    → Returns (Replied 1000 pfunc s) r
    → WhenOk
        (λ (r : Unit {0} × Timers (List (ℕ × ℕ))). IsTimers r.1)
        (elim r [ ok (n, t) ↦ ok (tt, t) | halt ↦ halt | spin ↦ spin ])
WhenOk-repeat pfunc s (ok r) inv h = Replied-IsTimers 1000 pfunc s r inv h
WhenOk-repeat pfunc s halt inv h = tt
WhenOk-repeat pfunc s spin inv h = tt

repeat-IsKeeping : IsKeeping repeat
repeat-IsKeeping pfunc now s inv =
    WhenOk-repeat pfunc s (set_timeout no_memory 1000 pfunc s) inv
      (set_timeout-Replied no_memory 1000 pfunc s inv λ n e ne. absurd (ne (sym e)))

run_timer_softirq-IsTimers_example : Keeps repeat (run_timer_softirq repeat 3) two_armed
run_timer_softirq-IsTimers_example =
    run_timer_softirq-IsTimers repeat repeat-IsKeeping 3 two_armed two_armed-IsTimers

init_timer_runs : IsTimers (init_timer two_armed)
init_timer_runs = init_timer-IsTimers two_armed

epoch : mktime64 1970 1 1 0 0 0 ≡ 0
unfolding mktime64
epoch = refl

-- 29 February 2016, 12:34:56
mktime64-calendar_example :
    mktime64 2016 2 29 12 34 56
    ≡ (((days_to_year 46 + days_to_month 2016 1 + 28) * 24 + 12) * 60 + 34) * 60 + 56
mktime64-calendar_example =
    mktime64-calendar 46 2 29 12 34 56 (omega arith) (omega arith) (omega arith) (omega arith)
      (omega arith) (omega arith) (omega arith) (omega arith)
