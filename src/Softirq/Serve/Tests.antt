-- ===== src/Softirq/Serve/Tests.antt =====
-- Tasklets 0, 1 and 2 wait in the lower queue, 1 is disabled; the upper queue is empty.
use yaos.Prelude.{
  ℕ, ◌+◌, ◌≡◌, refl, Bool, true, false, Option, none, some, List, [], ◌∷◌, arith, replicate,
  if◌then◌else◌, ◌==◌,
}
use yaos.Prelude.Outcome.{Outcome, Action, ok, ◌>>◌}
use yaos.Bitmap.{Word, ffs}
use yaos.Softirq.{
  Tasklet, Softirqs, on_tasklet, next_of, empty_queue, tasklet_schedule, tasklet_hi_schedule_first,
  link_last, wakeup_taskletd,
}
use yaos.Softirq.Queue.{IsQueue}
use yaos.Softirq.Schedule.{Queued, tasklet_schedule-Queued, hi_first-lost}
use yaos.Softirq.Serve.{
  tasklet_action, serve_all, softirq_rounds, irq_exit, __do_softirq, softirq_restart, run_list,
  run_tasklet, call_tasklet,
}
use yaos.Softirq.Serve.Run.{Ran}
use yaos.Softirq.Serve.Whole.{tasklet_action-Ran}
use yaos.Softirq.Serve.Deliver.{schedule-irq_exit}
use yaos.Softirq.Serve.Bits.{act_all, positions, serve_all-act_all}

-- The world is the log of the calls, the latest first.
abbrev Log : Type 0
Log = List (ℕ × ℕ)

abbrev entered : ℕ → ℕ → Log → Log
entered f d w = (f, d) ∷ w

abbrev note : ℕ → ℕ → Action (Softirqs Log) (Unit {0})
note f d s = ok (tt, record s { world = entered f d s.world })

abbrev stay : Action (Softirqs Log) (Unit {0})
stay s = ok (tt, s)

abbrev tasklet : ℕ → Option ℕ → Bool → ℕ → Tasklet
tasklet k next sched count = record {
  next = next;
  sched = sched;
  running = false;
  count = count;
  func = 100 + k;
  datum = k;
}

abbrev some_tasklets : ℕ → Tasklet
some_tasklets k =
    if k == 0
    then tasklet 0 (some 1) true 0
    else if k == 1
    then tasklet 1 (some 2) true 1
    else if k == 2
    then tasklet 2 none true 0
    else tasklet k none false 0

abbrev no_bits : Word
no_bits = replicate 32 false

abbrev waiting : Softirqs Log
waiting = record {
  softirq_pending = false ∷ false ∷ false ∷ false ∷ false ∷ false ∷ true ∷ replicate 25 false;
  irqs = false;
  tasklet_count = 0;
  suspended = false;
  msec_count = 50;
  softirq_vec = none ∷ none ∷ none ∷ none ∷ none ∷ none ∷ some on_tasklet ∷ none ∷ none ∷ none ∷ [];
  tasklets = some_tasklets;
  vecs = record { low = record { head = some 0; tail = next_of 2 }; hi = empty_queue };
  world = [];
}

waiting-IsQueue : IsQueue waiting.tasklets waiting.vecs.low (0 ∷ 1 ∷ 2 ∷ [])
waiting-IsQueue = record {
  chain = (refl, (refl, (refl, refl)));
  tail = refl;
  distinct = ((omega arith, (omega arith, tt)), ((omega arith, tt), (tt, tt)));
}

tasklet_action-Ran_example :
    (s' : Softirqs Log) × (tasklet_action note false 4 waiting ≡ ok (tt, s'))
    × Ran note entered false waiting.tasklets [] (0 ∷ 1 ∷ 2 ∷ []) waiting s'
tasklet_action-Ran_example =
    tasklet_action-Ran note entered (λ f d s. refl) false 4 (0 ∷ 1 ∷ 2 ∷ []) waiting waiting-IsQueue
      (refl, (refl, (refl, tt))) (omega arith)

tasklet_schedule-Queued_example :
    (s' : Softirqs Log) × (tasklet_schedule stay false 3 waiting ≡ ok (tt, s'))
    × Queued stay false 3 (0 ∷ 1 ∷ 2 ∷ []) waiting s'
tasklet_schedule-Queued_example =
    tasklet_schedule-Queued stay false 3 (0 ∷ 1 ∷ 2 ∷ []) waiting waiting-IsQueue
      (omega arith, (omega arith, (omega arith, tt))) refl refl

hi_first-lost_example :
    (s' : Softirqs Log) × ((tasklet_hi_schedule_first 4 >> tasklet_schedule stay true 5) waiting
      ≡ ok (tt, s'))
    × IsQueue s'.tasklets s'.vecs.hi (5 ∷ [])
    × ((hi : Bool) → tasklet_schedule stay hi 4 s' ≡ ok (tt, s'))
hi_first-lost_example =
    hi_first-lost stay 4 5 waiting (record { chain = refl; tail = refl; distinct = tt }) refl
      (omega arith) refl refl refl

serve_all-act_all_example :
    serve_all note note stay 4 softirq_rounds 0 waiting.softirq_pending waiting
    ≡ act_all note note stay 4 (positions 0 waiting.softirq_pending) waiting
serve_all-act_all_example =
    serve_all-act_all note note stay 4 waiting.softirq_pending waiting (omega arith)
      (omega arith, tt)

abbrev at_rest : Softirqs Log
at_rest = record waiting {
  softirq_pending = no_bits;
  irqs = true;
  vecs = record { low = empty_queue; hi = empty_queue };
}

schedule-irq_exit_example :
    (s' : Softirqs Log) × ((tasklet_schedule stay false 3 >> irq_exit note note stay 4) at_rest
      ≡ ok (tt, s'))
    × (s'.world ≡ entered (at_rest.tasklets 3).func (at_rest.tasklets 3).datum at_rest.world)
    × ((s'.tasklets 3).sched ≡ false)
    × IsQueue s'.tasklets s'.vecs.low []
    × (s'.softirq_pending ≡ replicate 32 false)
schedule-irq_exit_example =
    schedule-irq_exit note entered note stay 4 3 at_rest (λ f d s. refl)
      (record { chain = refl; tail = refl; distinct = tt }) refl refl refl refl refl refl refl
      (omega arith)

-- Leaving an interrupt runs the tasklets 0 and 2; tasklet 1 stays and is run again in vain ten times.
abbrev called : Outcome (Unit {0} × Softirqs Log) → Log
called (ok (u, s)) = s.world
called _ = []

irq_exit_runs : called (irq_exit note note stay 4 waiting) ≡ (102, 2) ∷ (100, 0) ∷ []
unfolding irq_exit __do_softirq softirq_restart serve_all tasklet_action run_list run_tasklet
    call_tasklet link_last ffs wakeup_taskletd
irq_exit_runs = refl
