-- ===== src/Softirq/Serve.antt =====
-- What runs the soft interrupts and the tasklets: tasklet_action, __do_softirq and their callers.
pub mod Whole
mod Tests
pub mod Bits
pub mod Deliver
pub mod Round
pub mod Run
use yaos.Prelude.{
  ℕ, zero, suc, ◌+◌, ◌-◌, ◌%◌, ◌^◌, Bool, true, false, not, ◌&&◌, Option, none, some, List, get_or,
  replicate, ltb, ◌==◌, if◌then◌else◌,
}
use yaos.Prelude.Outcome.{ok, halt, spin, Action, ◌>>=◌, ◌>>◌}
use yaos.Bitmap.{Word, nonzero, ffs}
use yaos.Softirq.{
  Tasklet, TaskletHead, Handler, on_tasklet, on_hi_tasklet, external, Softirqs, tasklet_softirq,
  hi_softirq, softirq_of, vec_of, set_vec, empty_queue, modify, link_last, local_irq_disable,
  local_irq_enable, set_softirq_pending, __raise_softirq_irqoff, in_tasklet, wakeup_taskletd,
  shift_right, max_softirq_time, max_softirq_restart, with_irqs_saved,
}

-- The word has 32 bits, so 33 tests of it are enough.
abbrev pub softirq_rounds : ℕ
softirq_rounds = 33

module _ {W : Type 0} (func : ℕ → ℕ → Action (Softirqs W) (Unit {0})) where
  -- `t` goes back to the end of the queue.
  abbrev pub requeue : Bool → ℕ → Softirqs W → Softirqs W
  requeue hi t s =
      local_irq_enable
        (__raise_softirq_irqoff (softirq_of hi) (link_last hi t (local_irq_disable s)))

  abbrev pub tasklet_unlock : ℕ → Softirqs W → Softirqs W
  tasklet_unlock t s = modify t (λ x. record x { running = false }) s

  -- `if (!test_and_clear_bit(TASKLET_STATE_SCHED, &t->state)) BUG(); t->func(t->data); …`
  pub call_tasklet : ℕ → Action (Softirqs W) (Unit {0})
  call_tasklet t s =
      if (s.tasklets t).sched
      then (func (s.tasklets t).func (s.tasklets t).datum >> λ s'. ok (tt, tasklet_unlock t s'))
          (modify t (λ x. record x { sched = false }) s)
      else halt

  -- one round of the loop
  pub run_tasklet : Bool → ℕ → Action (Softirqs W) (Unit {0})
  run_tasklet hi t s =
      if (s.tasklets t).running
      then ok (tt, requeue hi t s)
      else let s1 : Softirqs W = modify t (λ x. record x { running = true }) s in
        if (s1.tasklets t).count == 0
        then call_tasklet t s1
        else ok (tt, requeue hi t (tasklet_unlock t s1))

  -- The list has at most `links` tasklets.
  pub run_list : Bool → ℕ → Option ℕ → Action (Softirqs W) (Unit {0})
  run_list hi zero o s = spin
  run_list hi (suc links) none s = ok (tt, s)
  run_list hi (suc links) (some t) s = (run_tasklet hi t >> run_list hi links (s.tasklets t).next) s

  -- `tasklet_action` and, for `true`, `tasklet_hi_action`
  pub tasklet_action : Bool → ℕ → Action (Softirqs W) (Unit {0})
  tasklet_action hi links s =
      run_list hi links (vec_of hi s.vecs).head
        (record s { vecs = set_vec hi empty_queue s.vecs; irqs = true })

  module _ (handle : ℕ → ℕ → Action (Softirqs W) (Unit {0}))
      (switch : Action (Softirqs W) (Unit {0})) (links : ℕ) where
    -- `h->action(h)`; there is no function at 0.
    abbrev pub call_handler : Option Handler → ℕ → Action (Softirqs W) (Unit {0})
    call_handler none nr s = halt
    call_handler (some on_tasklet) nr s = tasklet_action false links s
    call_handler (some on_hi_tasklet) nr s = tasklet_action true links s
    call_handler (some (external k)) nr s = handle k nr s

    abbrev pub act : ℕ → Action (Softirqs W) (Unit {0})
    act nr s = call_handler (get_or s.softirq_vec nr none) nr s

    -- `h += softirq_bit - 1; h->action(h); h++; pending >>= softirq_bit;`, where the processor takes
    -- the count of a shift modulo 32
    abbrev pub serve_bit :
        (ℕ → Word → Action (Softirqs W) (Unit {0})) → ℕ → Word → ℕ → Action (Softirqs W) (Unit {0})
    serve_bit again h pending zero s = ok (tt, s)
    serve_bit again h pending (suc b) s =
        (act (h + b) >> again (h + b + 1) (shift_right ((b + 1) % 32) pending)) s

    -- `while ((softirq_bit = ffs(pending)))`
    pub serve_all : ℕ → ℕ → Word → Action (Softirqs W) (Unit {0})
    serve_all zero h pending s = spin
    serve_all (suc rounds) h pending s = serve_bit (serve_all rounds) h pending (ffs pending) s

    -- `if (msec_count < end && --max_restart) goto restart; wakeup_taskletd();`
    abbrev pub restart_or_wake :
        (Word → Action (Softirqs W) (Unit {0})) → ℕ → ℕ → Action (Softirqs W) (Unit {0})
    restart_or_wake again end left s =
        if nonzero s.softirq_pending
        then if ltb s.msec_count end && not (left == 0)
          then again s.softirq_pending s
          else wakeup_taskletd switch s
        else ok (tt, s)

    -- from `restart` on, with `max_restart` restarts left
    pub softirq_restart : ℕ → ℕ → Word → Action (Softirqs W) (Unit {0})
    softirq_restart end zero pending s = wakeup_taskletd switch s
    softirq_restart end (suc left) pending s =
        (serve_all softirq_rounds 0 pending >> λ s'.
        restart_or_wake (softirq_restart end left) end left (local_irq_disable s'))
          (local_irq_enable (set_softirq_pending (replicate 32 false) s))

    pub __do_softirq : Action (Softirqs W) (Unit {0})
    __do_softirq s =
        (softirq_restart ((s.msec_count + max_softirq_time) % 2 ^ 64) max_softirq_restart
              s.softirq_pending
            >> λ s'. ok (tt, record s' { tasklet_count = s'.tasklet_count - 1 }))
          (record s { tasklet_count = s.tasklet_count + 1 })

    pub irq_exit : Action (Softirqs W) (Unit {0})
    irq_exit s =
        let s1 : Softirqs W = local_irq_disable s in
        if not (in_tasklet s1) && nonzero s1.softirq_pending then __do_softirq s1 else ok (tt, s1)

    pub do_softirq : Action (Softirqs W) (Unit {0})
    do_softirq s =
        if in_tasklet s
        then ok (tt, s)
        else with_irqs_saved
            (λ s'. if nonzero s'.softirq_pending then __do_softirq s' else ok (tt, s')) s

    pub run_ksoftirqd : Action (Softirqs W) (Unit {0})
    run_ksoftirqd s =
        let s1 : Softirqs W = local_irq_disable s in
        if nonzero s1.softirq_pending
        then (__do_softirq >> λ s'. ok (tt, local_irq_enable s')) s1
        else ok (tt, local_irq_enable s1)
