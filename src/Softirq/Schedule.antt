-- ===== src/Softirq/Schedule.antt =====
-- Scheduling a tasklet: at the end of its queue, or before its head.
use yaos.Prelude.{
  ℕ, ◌≡◌, ◌≢◌, refl, sym, ap, ◌∙◌, subst, inl, inr, Bool, true, false, not, ◌||◌, none, some, List,
  [], ◌∷◌, ◌++◌, All, everywhere, Bool-cases, set, if_true, if_false,
}
use yaos.Prelude.Outcome.{Action, ok, assert, ◌>>◌, >>-ok}
use yaos.Softirq.{
  Tasklet, TaskletHead, Softirqs, vec_of, put, modify, link_last, softirq_of, in_tasklet,
  wakeup_taskletd, __raise_softirq_irqoff, raise_softirq_irqoff, schedule_by, __tasklet_schedule,
  tasklet_schedule, __tasklet_hi_schedule_first, tasklet_hi_schedule_first, head_slot, next_of,
  hi_softirq, store_next, store_head,
}
use yaos.Softirq.Queue.{
  Chain-same, IsQueue, SameBut, SameBut-trans, put_self, put_ne, link_last-IsQueue,
  link_last-SameBut, link_last-pending, link_last-world, link_last-count, link_last-vec,
}
use native.Mathlib.Decide.{ℕ_discrete}

module _ {W : Type 0} where
  -- Nobody has to wake the tasklet thread: tasklets are being run, or the thread is not suspended.
  abbrev pub IsQuiet : Softirqs W → Type 0
  IsQuiet s = (in_tasklet s || not s.suspended) ≡ true

  abbrev marked : ℕ → Softirqs W → Softirqs W
  marked t s = modify t (λ x. record x { sched = true }) s

  marked-next :
      (t : ℕ) (s : Softirqs W) (j : ℕ) → ((marked t s).tasklets j).next ≡ (s.tasklets j).next
  marked-next t s j = elim (ℕ_discrete j t) [
    | yes e ↦
        subst (λ i. ((marked t s).tasklets i).next ≡ (s.tasklets i).next) (sym e)
          (ap (λ (x : Tasklet). x.next)
            (put_self s.tasklets t (record (s.tasklets t) { sched = true })))
    | no ne ↦
        ap (λ (x : Tasklet). x.next)
          (put_ne s.tasklets t (record (s.tasklets t) { sched = true }) j ne)
  ]

  marked-IsQueue :
      (t : ℕ) (s : Softirqs W) (v : TaskletHead) (l : List ℕ)
      → IsQueue s.tasklets v l
      → IsQueue (marked t s).tasklets v l
  marked-IsQueue t s v l q = record {
    chain =
        Chain-same s.tasklets (marked t s).tasklets v.head l
          (everywhere (λ j. ((marked t s).tasklets j).next ≡ (s.tasklets j).next) (marked-next t s)
            l)
          q.chain;
    tail = q.tail;
    distinct = q.distinct;
  }

  module _ (switch : Action (Softirqs W) (Unit {0})) where
    raise-IsQuiet :
        (nr : ℕ) (s : Softirqs W)
        → IsQuiet s
        → raise_softirq_irqoff switch nr s ≡ ok (tt, __raise_softirq_irqoff nr s)
    unfolding raise_softirq_irqoff wakeup_taskletd
    raise-IsQuiet nr s quiet = elim (Bool-cases (in_tasklet s)) [
      | inl inside ↦ if_true (in_tasklet s) _ _ inside
      | inr outside ↦
          let awake : s.suspended ≡ false =
            not_suspended (in_tasklet s) s.suspended outside quiet in
          if_false (in_tasklet s) _ _ outside ∙ if_false s.suspended _ _ awake
    ]
      where
        not_suspended : (a b : Bool) → a ≡ false → (a || not b) ≡ true → b ≡ false
        not_suspended true b e h = absurd (cc e)
        not_suspended false true e h = absurd (cc h)
        not_suspended false false e h = refl

    link_last-IsQuiet :
        (hi : Bool) (t : ℕ) (s : Softirqs W) → IsQuiet s → IsQuiet (link_last hi t s)
    unfolding link_last
    link_last-IsQuiet hi t s quiet = quiet

    -- the state after an unmarked tasklet has been scheduled
    abbrev scheduled : Bool → ℕ → Softirqs W → Softirqs W
    scheduled hi t s =
        record (__raise_softirq_irqoff (softirq_of hi)
          (link_last hi t (record (marked t s) { irqs = false }))) { irqs = s.irqs }

    schedule-idle :
        (hi : Bool) (t : ℕ) (s : Softirqs W)
        → (s.tasklets t).sched ≡ false
        → IsQuiet s
        → tasklet_schedule switch hi t s ≡ ok (tt, scheduled hi t s)
    unfolding tasklet_schedule schedule_by __tasklet_schedule
    schedule-idle hi t s idle quiet =
        let s1 : Softirqs W = record (marked t s) { irqs = false } in
        let u : Softirqs W = link_last hi t s1 in
        if_false (s.tasklets t).sched _ _ idle
        ∙ >>-ok (λ v. raise_softirq_irqoff switch (softirq_of hi) (link_last hi t v))
            (λ v. ok (tt, record v { irqs = s.irqs })) s1 (__raise_softirq_irqoff (softirq_of hi) u)
            (raise-IsQuiet (softirq_of hi) u (link_last-IsQuiet hi t s1 quiet))

    schedule-marked :
        (hi : Bool) (t : ℕ) (s : Softirqs W)
        → (s.tasklets t).sched ≡ true
        → tasklet_schedule switch hi t s ≡ ok (tt, s)
    unfolding tasklet_schedule schedule_by
    schedule-marked hi t s mark = if_true (s.tasklets t).sched _ _ mark

    -- What has changed once `t` is queued.
    pub record Queued (hi : Bool) (t : ℕ) (l : List ℕ) (s s' : Softirqs W) : Type 0 where
      pub queue : IsQueue s'.tasklets (vec_of hi s'.vecs) (l ++ (t ∷ []))
      pub at : s'.tasklets t ≡ record (s.tasklets t) { sched = true; next = (s'.tasklets t).next }
      pub others : (j : ℕ) → j ≢ t → SameBut s.tasklets s'.tasklets j
      pub pending : s'.softirq_pending ≡ set s.softirq_pending (softirq_of hi) true
      pub irqs : s'.irqs ≡ s.irqs
      pub world : s'.world ≡ s.world
      pub count : s'.tasklet_count ≡ s.tasklet_count
      pub vec : s'.softirq_vec ≡ s.softirq_vec
      pub again : (hi' : Bool) → tasklet_schedule switch hi' t s' ≡ ok (tt, s')

    -- Let a tasklet be neither in its queue l nor marked as scheduled, and let nobody have to wake the
    -- tasklet thread. Then tasklet_schedule (or tasklet_hi_schedule) succeeds: the tasklet is the last
    -- of the queue and marked, all else of the tasklets is unchanged but for the links, the soft
    -- interrupt is raised, interrupts are enabled if they were, the world, the handlers and
    -- tasklet_count are unchanged, and scheduling it once more changes nothing.
    pub tasklet_schedule-Queued :
        (hi : Bool) (t : ℕ) (l : List ℕ) (s : Softirqs W)
        → IsQueue s.tasklets (vec_of hi s.vecs) l
        → All (λ j. j ≢ t) l
        → (s.tasklets t).sched ≡ false
        → IsQuiet s
        → (s' : Softirqs W) × (tasklet_schedule switch hi t s ≡ ok (tt, s')) × Queued hi t l s s'
    tasklet_schedule-Queued hi t l s q out idle quiet =
        let s1 : Softirqs W = record (marked t s) { irqs = false } in
        let s' : Softirqs W = scheduled hi t s in
        let at1 : s1.tasklets t ≡ record (s.tasklets t) { sched = true } =
          put_self s.tasklets t (record (s.tasklets t) { sched = true }) in
        let at : s'.tasklets t
            ≡ record (s.tasklets t) { sched = true; next = (s'.tasklets t).next } =
          link_last-SameBut hi t s1 t
          ∙ ap (λ (x : Tasklet). record x { next = (s'.tasklets t).next }) at1 in
        (
          s',
          schedule-idle hi t s idle quiet,
          record {
            queue = link_last-IsQueue hi t s1 l (marked-IsQueue t s (vec_of hi s.vecs) l q) out;
            at = at;
            others = λ j ne.
                SameBut-trans s.tasklets s1.tasklets s'.tasklets j
                  (rw (put_ne s.tasklets t (record (s.tasklets t) { sched = true }) j ne) refl)
                  (link_last-SameBut hi t s1 j);
            pending = ap (λ w. set w (softirq_of hi) true) (link_last-pending hi t s1);
            irqs = refl;
            world = link_last-world hi t s1;
            count = link_last-count hi t s1;
            vec = link_last-vec hi t s1;
            again = λ hi'. schedule-marked hi' t s' (ap (λ (x : Tasklet). x.sched) at);
          },
        )

    -- the state after an unmarked tasklet has been put before the head
    abbrev put_first : ℕ → Softirqs W → Softirqs W
    put_first t s =
        let s1 : Softirqs W = modify t (λ x. record x { next = s.vecs.hi.head }) (marked t s) in
        __raise_softirq_irqoff hi_softirq
          (record s1 { vecs = record s1.vecs { hi = record s1.vecs.hi { head = some t } } })

    first-idle :
        (t : ℕ) (s : Softirqs W)
        → s.irqs ≡ false
        → (s.tasklets t).sched ≡ false
        → tasklet_hi_schedule_first t s ≡ ok (tt, put_first t s)
    unfolding tasklet_hi_schedule_first schedule_by __tasklet_hi_schedule_first
    first-idle t s off idle =
        if_false (s.tasklets t).sched _ _ idle
        ∙ >>-ok (assert (not s.irqs)) (λ v. ok (tt, put_first t s)) (marked t s) (marked t s)
            (rw off refl)

    -- behind an empty queue's tail, whatever the head says
    link_last-lone :
        (u : ℕ) (s : Softirqs W)
        → s.vecs.hi.tail ≡ head_slot
        → IsQueue (link_last true u s).tasklets (link_last true u s).vecs.hi (u ∷ [])
    unfolding link_last
    link_last-lone u s e =
        let cleared = put s.tasklets u (record (s.tasklets u) { next = none }) in
        subst
          (λ slot.
            IsQueue (store_next slot u cleared)
              (record (store_head slot u s.vecs.hi) { tail = next_of u }) (u ∷ []))
          (sym e)
          (record {
            chain = (
              refl,
              ap (λ (x : Tasklet). x.next)
                  (put_self s.tasklets u (record (s.tasklets u) { next = none })),
            );
            tail = refl;
            distinct = (tt, tt);
          })

    -- Let the queue of tasklet_hi_schedule_first be empty, interrupts off, t and u two tasklets that are
    -- not marked as scheduled, and let nobody have to wake the tasklet thread. If t is scheduled by it
    -- and then u by tasklet_hi_schedule, both succeed, but the queue holds u alone. t is marked, so
    -- scheduling it again changes nothing: it will not be run.
    pub hi_first-lost :
        (t u : ℕ) (s : Softirqs W)
        → IsQueue s.tasklets s.vecs.hi []
        → s.irqs ≡ false
        → t ≢ u
        → (s.tasklets t).sched ≡ false
        → (s.tasklets u).sched ≡ false
        → IsQuiet s
        → (s' : Softirqs W) × ((tasklet_hi_schedule_first t >> tasklet_schedule switch true u) s
            ≡ ok (tt, s'))
          × IsQueue s'.tasklets s'.vecs.hi (u ∷ [])
          × ((hi : Bool) → tasklet_schedule switch hi t s' ≡ ok (tt, s'))
    hi_first-lost t u s q off ne idle idle' quiet =
        let s4 : Softirqs W = put_first t s in
        let s5 : Softirqs W = record (marked u s4) { irqs = false } in
        let a : Tasklet = record (s.tasklets t) { sched = true } in
        let b : Tasklet = record ((marked t s).tasklets t) { next = s.vecs.hi.head } in
        let elsewhere : s4.tasklets u ≡ s.tasklets u =
          put_ne (marked t s).tasklets t b u (λ e. ne (sym e))
          ∙ put_ne s.tasklets t a u (λ e. ne (sym e)) in
        let mark : (s4.tasklets t).sched ≡ true =
          ap (λ (x : Tasklet). x.sched) (put_self (marked t s).tasklets t b)
          ∙ ap (λ (x : Tasklet). x.sched) (put_self s.tasklets t a) in
        let s' : Softirqs W = scheduled true u s4 in
        (
          s',
          >>-ok (tasklet_hi_schedule_first t) (tasklet_schedule switch true u) s s4
                (first-idle t s off idle)
              ∙ schedule-idle true u s4 (ap (λ (x : Tasklet). x.sched) elsewhere ∙ idle') quiet,
          link_last-lone u s5 q.tail,
          λ hi. schedule-marked hi t s' (
              ap (λ (x : Tasklet). x.sched) (link_last-SameBut true u s5 t)
              ∙ ap (λ (x : Tasklet). x.sched)
                  (put_ne s4.tasklets u (record (s4.tasklets u) { sched = true }) t ne)
              ∙ mark),
        )
