-- ===== src/Softirq/Serve/Deliver.antt =====
-- From tasklet_schedule to the call of the tasklet's function: the queue, the pending bits and the
-- return from an interrupt together.
use yaos.Prelude.{
  ℕ, ◌+◌, ◌-◌, ◌%◌, ◌^◌, ◌<◌, ◌≡◌, ap, ap₂, suc, ◌∙◌, subst, true, false, not, ◌&&◌, ◌||◌, none,
  some, [], ◌∷◌, arith, set, get_or, replicate, if_true, if_false, ◌==◌,
}
use yaos.Prelude.Outcome.{Action, ok, ◌>>◌, >>-ok}
use yaos.Bitmap.{Word, nonzero}
use yaos.Softirq.{
  Tasklet, Softirqs, on_tasklet, tasklet_softirq, in_tasklet, local_irq_disable, tasklet_schedule,
  max_softirq_time,
}
use yaos.Softirq.Queue.{IsQueue}
use yaos.Softirq.Schedule.{tasklet_schedule-Queued}
use yaos.Softirq.Serve.{
  tasklet_action, call_handler, act, serve_all, softirq_rounds, restart_or_wake, softirq_restart,
  __do_softirq, irq_exit,
}
use yaos.Softirq.Serve.Run.{IsPassive, may_run, Done, raised, effects}
use yaos.Softirq.Serve.Whole.{tasklet_action-Ran}
use yaos.Softirq.Serve.Bits.{serve_all-act_all}

abbrev no_bits : Word
no_bits = replicate 32 false

abbrev tasklet_bit : Word
tasklet_bit = set no_bits tasklet_softirq true

Done-ran : (f g : ℕ → Tasklet) (j : ℕ) → may_run (f j) ≡ true → Done f g j → (g j).sched ≡ false
Done-ran f g j can d = ap (λ (x : Tasklet). x.sched) (rw can at d)

module _ {W : Type 0} (func : ℕ → ℕ → Action (Softirqs W) (Unit {0})) (effect : ℕ → ℕ → W → W)
    (handle : ℕ → ℕ → Action (Softirqs W) (Unit {0})) (switch : Action (Softirqs W) (Unit {0}))
    (links : ℕ) where
  abbrev opened : Softirqs W → Softirqs W
  opened a = record a { softirq_pending = no_bits; irqs = true }

  -- A round that has raised nothing anew is the last.
  restart-done :
      (end left : ℕ) (a c : Softirqs W)
      → serve_all func handle switch links softirq_rounds 0 tasklet_bit (opened a) ≡ ok (tt, c)
      → c.softirq_pending ≡ no_bits
      → softirq_restart func handle switch links end (suc left) tasklet_bit a
        ≡ ok (tt, local_irq_disable c)
  unfolding softirq_restart
  restart-done end left a c e none_left =
      >>-ok (serve_all func handle switch links softirq_rounds 0 tasklet_bit)
        (λ s.
          restart_or_wake func handle switch links
            (softirq_restart func handle switch links end left) end left (local_irq_disable s))
        (opened a) c e
      ∙ if_false (nonzero c.softirq_pending) _ _ (ap nonzero none_left)

  serve-tasklets :
      (b c : Softirqs W)
      → get_or b.softirq_vec tasklet_softirq none ≡ some on_tasklet
      → tasklet_action func false links b ≡ ok (tt, c)
      → serve_all func handle switch links softirq_rounds 0 tasklet_bit b ≡ ok (tt, c)
  serve-tasklets b c handler e =
      serve_all-act_all func handle switch links tasklet_bit b (omega arith) (omega arith, tt)
      ∙ >>-ok (act func handle switch links tasklet_softirq) (λ s. ok (tt, s)) b c
          (ap (λ o. call_handler func handle switch links o tasklet_softirq b) handler ∙ e)

  -- leaving an interrupt when the bit of the tasklets alone is pending
  irq_exit-tasklets :
      (s c : Softirqs W)
      → s.tasklet_count ≡ 0
      → s.softirq_pending ≡ tasklet_bit
      → get_or s.softirq_vec tasklet_softirq none ≡ some on_tasklet
      → tasklet_action func false links
          (opened (record s { irqs = false; tasklet_count = s.tasklet_count + 1 }))
        ≡ ok (tt, c)
      → c.softirq_pending ≡ no_bits
      → irq_exit func handle switch links s
        ≡ ok (tt, record c { irqs = false; tasklet_count = c.tasklet_count - 1 })
  unfolding irq_exit __do_softirq
  irq_exit-tasklets s c outside pending handler e none_left =
      let a : Softirqs W = record s { irqs = false; tasklet_count = s.tasklet_count + 1 } in
      let end = (s.msec_count + max_softirq_time) % 2 ^ 64 in
      let test : (not (in_tasklet s) && nonzero s.softirq_pending) ≡ true =
        ap₂ (λ n w. not (not (n == 0)) && nonzero w) outside pending in
      let served : softirq_restart func handle switch links end 10 s.softirq_pending a
          ≡ ok (tt, local_irq_disable c) =
        ap (λ w. softirq_restart func handle switch links end 10 w a) pending
        ∙ restart-done end 9 a c (serve-tasklets (opened a) c handler e) none_left in
      if_true (not (in_tasklet s) && nonzero s.softirq_pending) _ _ test
      ∙ >>-ok (softirq_restart func handle switch links end 10 s.softirq_pending)
          (λ s'. ok (tt, record s' { tasklet_count = s'.tasklet_count - 1 })) a
          (local_irq_disable c) served

  -- Let the functions of the tasklets return and change nothing but the world. Outside of the tasklets,
  -- with nothing pending, the queue empty, tasklet_action registered and the tasklet thread not
  -- suspended, schedule a tasklet that is not marked, disabled or running, and leave an interrupt;
  -- `links` is at least 2. Both succeed: the tasklet's function has been called, once, the tasklet is
  -- not marked any more, the queue is empty and nothing is pending.
  pub schedule-irq_exit :
      (t : ℕ) (s : Softirqs W)
      → IsPassive func effect
      → IsQueue s.tasklets s.vecs.low []
      → s.softirq_pending ≡ replicate 32 false
      → get_or s.softirq_vec tasklet_softirq none ≡ some on_tasklet
      → s.tasklet_count ≡ 0
      → s.suspended ≡ false
      → (s.tasklets t).sched ≡ false
      → (s.tasklets t).count ≡ 0
      → (s.tasklets t).running ≡ false
      → 1 < links
      → (s' : Softirqs W) × ((tasklet_schedule switch false t >> irq_exit func handle switch links)
            s
          ≡ ok (tt, s'))
        × (s'.world ≡ effect (s.tasklets t).func (s.tasklets t).datum s.world)
        × ((s'.tasklets t).sched ≡ false)
        × IsQueue s'.tasklets s'.vecs.low []
        × (s'.softirq_pending ≡ replicate 32 false)
  schedule-irq_exit t s passive queue pending handler outside awake idle enabled free enough =
      let quiet : (in_tasklet s || not s.suspended) ≡ true =
        ap₂ (λ n b. not (n == 0) || not b) outside awake in
      let (u, e, q) = tasklet_schedule-Queued switch false t [] s queue tt idle quiet in
      let b : Softirqs W =
        opened (record u { irqs = false; tasklet_count = u.tasklet_count + 1 }) in
      let can : may_run (u.tasklets t) ≡ true =
        ap may_run q.at ∙ ap₂ (λ r n. not r && (n == 0)) free enabled in
      let (c, e', ran) =
        tasklet_action-Ran func effect passive false links (t ∷ []) b q.queue
          (ap (λ (x : Tasklet). x.sched) q.at, tt) (omega (arith, enough)) in
      let none_left : c.softirq_pending ≡ no_bits =
        ran.pending
        ∙ ap (λ l. raised tasklet_softirq l no_bits) (if_true (may_run (u.tasklets t)) _ _ can) in
      let exit =
        irq_exit-tasklets u c (q.count ∙ outside)
          (q.pending ∙ ap (λ w. set w tasklet_softirq true) pending)
          (ap (λ v. get_or v tasklet_softirq none) q.vec ∙ handler) e' none_left in
      (
        record c { irqs = false; tasklet_count = c.tasklet_count - 1 },
        >>-ok (tasklet_schedule switch false t) (irq_exit func handle switch links) s u e ∙ exit,
        ran.called
            ∙ ap (λ l. effects func effect u.tasklets l u.world)
                (if_true (may_run (u.tasklets t)) _ _ can)
            ∙ ap₂ (λ (x : Tasklet) w. effect x.func x.datum w) q.at q.world,
        Done-ran u.tasklets c.tasklets t can ran.each.0,
        subst (λ l. IsQueue c.tasklets c.vecs.low l) (if_true (may_run (u.tasklets t)) _ _ can)
            ran.queue,
        none_left,
      )
