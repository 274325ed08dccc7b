-- ===== src/Softirq/Serve/Run.antt =====
-- `tasklet_action` runs what may run, in the order of the queue, and queues the rest again.
use yaos.Prelude.{
  ℕ, ◌≡◌, ◌≢◌, refl, sym, ap, ◌∙◌, subst, inl, inr, Bool, true, false, not, ◌&&◌, List, [], ◌∷◌,
  ◌++◌, All, ◌==◌, if◌then◌else◌, Bool-cases, set, if_true, if_false,
}
use yaos.Prelude.Outcome.{Action, ok, >>-ok}
use yaos.Bitmap.{Word}
use yaos.Softirq.{Tasklet, Softirqs, vec_of, put, modify, softirq_of}
use yaos.Softirq.Queue.{IsQueue, SameBut, put_self, put_ne}
use yaos.Softirq.Serve.{requeue, tasklet_unlock, call_tasklet, run_tasklet}
use native.Mathlib.Decide.{ℕ_discrete}
use mathlib.Core.Path.{fun_ext}

-- A tasklet that may run: neither running elsewhere nor disabled.
abbrev pub may_run : Tasklet → Bool
may_run x = not x.running && (x.count == 0)

abbrev pub ready : (ℕ → Tasklet) → List ℕ → List ℕ
ready f [] = []
ready f (t ∷ l) = if may_run (f t) then t ∷ ready f l else ready f l

abbrev pub blocked : (ℕ → Tasklet) → List ℕ → List ℕ
blocked f [] = []
blocked f (t ∷ l) = if may_run (f t) then blocked f l else t ∷ blocked f l

-- The bit of the soft interrupt is set once for each tasklet that waits on.
abbrev pub raised : ℕ → List ℕ → Word → Word
raised nr [] w = w
raised nr (t ∷ l) w = raised nr l (set w nr true)

-- What has become of a tasklet: if it could run, it is not scheduled any more; if not, only its link
-- may have changed.
abbrev pub Done : (f g : ℕ → Tasklet) → ℕ → Type 0
Done f g j =
    if may_run (f j)
    then g j ≡ record (f j) { next = (g j).next; sched = false; running = false }
    else SameBut f g j

blocked-count : (x : Tasklet) → x.running ≡ false → may_run x ≡ false → (x.count == 0) ≡ false
blocked-count x free no_run = subst (λ b. (not b && (x.count == 0)) ≡ false) free no_run

may_run-parts : (x : Tasklet) → may_run x ≡ true → (x.running ≡ false) × ((x.count == 0) ≡ true)
may_run-parts x can = elim (Bool-cases x.running) [
  | inl busy ↦ absurd (cc (can, busy))
  | inr free ↦ (free, subst (λ b. (not b && (x.count == 0)) ≡ true) free can)
]

module _ {W : Type 0} (func : ℕ → ℕ → Action (Softirqs W) (Unit {0})) (effect : ℕ → ℕ → W → W) where
  -- Each function returns, and does not touch the tasklets.
  abbrev pub IsPassive : Type 0
  IsPassive =
      (f d : ℕ) (s : Softirqs W) → func f d s ≡ ok (tt, record s { world = effect f d s.world })

  abbrev pub effects : (ℕ → Tasklet) → List ℕ → W → W
  effects f [] w = w
  effects f (t ∷ l) w = effects f l (effect (f t).func (f t).datum w)

  -- From `s` to `s'` the list `l` has been worked off, with `r` in the queue before.
  pub record Ran (hi : Bool) (f : ℕ → Tasklet) (r l : List ℕ) (s s' : Softirqs W) : Type 0 where
    pub called : s'.world ≡ effects f (ready f l) s.world
    pub queue : IsQueue s'.tasklets (vec_of hi s'.vecs) (r ++ blocked f l)
    pub each : All (Done f s'.tasklets) l
    pub others : (j : ℕ) → All (λ i. i ≢ j) l → SameBut s.tasklets s'.tasklets j
    pub pending : s'.softirq_pending ≡ raised (softirq_of hi) (blocked f l) s.softirq_pending
    pub enabled : s'.irqs ≡ true

  put_back :
      (f : ℕ → Tasklet) (t : ℕ)
      → (f t).running ≡ false
      → (j : ℕ)
      → put
          (put f t (record (f t) { running = true }))
          t
          (record (put f t (record (f t) { running = true }) t) { running = false })
          j
        ≡ f j
  put_back f t free j =
      let g = put f t (record (f t) { running = true }) in
      elim (ℕ_discrete j t) [
        | yes e ↦
            subst (λ i. put g t (record (g t) { running = false }) i ≡ f i) (sym e)
              (put_self g t (record (g t) { running = false })
                ∙ ap (λ (x : Tasklet). record x { running = false })
                    (put_self f t (record (f t) { running = true }))
                ∙ rw free refl)
        | no ne ↦
            put_ne g t (record (g t) { running = false }) j ne
            ∙ put_ne f t (record (f t) { running = true }) j ne
      ]

  unlock-lock :
      (t : ℕ) (s : Softirqs W)
      → (s.tasklets t).running ≡ false
      → tasklet_unlock func t (modify t (λ x. record x { running = true }) s) ≡ s
  unlock-lock t s free = ap (λ f. record s { tasklets = f }) (fun_ext (put_back s.tasklets t free))

  pub run-blocked :
      (hi : Bool) (t : ℕ) (s : Softirqs W)
      → may_run (s.tasklets t) ≡ false
      → run_tasklet func hi t s ≡ ok (tt, requeue func hi t s)
  unfolding run_tasklet
  run-blocked hi t s no_run = elim (Bool-cases (s.tasklets t).running) [
    | inl busy ↦ if_true (s.tasklets t).running _ _ busy
    | inr free ↦
        let some_count : ((s.tasklets t).count == 0) ≡ false =
          blocked-count (s.tasklets t) free no_run in
        let at : (put s.tasklets t (record (s.tasklets t) { running = true }) t).count == 0
            ≡ false =
          ap (λ (x : Tasklet). x.count == 0)
            (put_self s.tasklets t (record (s.tasklets t) { running = true }))
          ∙ some_count in
        if_false (s.tasklets t).running _ _ free
        ∙ if_false ((put s.tasklets t (record (s.tasklets t) { running = true }) t).count == 0) _ _
            at
        ∙ ap (λ v. ok (tt, requeue func hi t v)) (unlock-lock t s free)
  ]

  pub record Stepped (t : ℕ) (s u : Softirqs W) : Type 0 where
    pub at : u.tasklets t ≡ record (s.tasklets t) { sched = false; running = false }
    pub rest : (j : ℕ) → j ≢ t → u.tasklets j ≡ s.tasklets j
    pub world : u.world ≡ effect (s.tasklets t).func (s.tasklets t).datum s.world
    pub vecs : u.vecs ≡ s.vecs
    pub pending : u.softirq_pending ≡ s.softirq_pending
    pub irqs : u.irqs ≡ s.irqs

  pub Stepped-next :
      (t : ℕ) (s u : Softirqs W)
      → Stepped t s u
      → (j : ℕ) → (u.tasklets j).next ≡ (s.tasklets j).next
  Stepped-next t s u st j = elim (ℕ_discrete j t) [
    | yes e ↦
        subst (λ i. (u.tasklets i).next ≡ (s.tasklets i).next) (sym e)
          (ap (λ (x : Tasklet). x.next) st.at)
    | no ne ↦ ap (λ (x : Tasklet). x.next) (st.rest j ne)
  ]

  pub run-ready :
      (passive : IsPassive) (hi : Bool) (t : ℕ) (s : Softirqs W)
      → may_run (s.tasklets t) ≡ true
      → (s.tasklets t).sched ≡ true
      → (u : Softirqs W) × (run_tasklet func hi t s ≡ ok (tt, u)) × Stepped t s u
  unfolding run_tasklet call_tasklet
  run-ready passive hi t s can sched =
      let (free, zero_count) = may_run-parts (s.tasklets t) can in
      let a : Tasklet = record (s.tasklets t) { running = true } in
      let f1 = put s.tasklets t a in
      let at1 : f1 t ≡ a = put_self s.tasklets t a in
      let b : Tasklet = record (f1 t) { sched = false } in
      let f2 = put f1 t b in
      let at2 : f2 t ≡ record (s.tasklets t) { running = true; sched = false } =
        put_self f1 t b ∙ ap (λ (x : Tasklet). record x { sched = false }) at1 in
      let c : Tasklet = record (f2 t) { running = false } in
      let test : ((f1 t).count == 0) ≡ true = ap (λ (x : Tasklet). x.count == 0) at1 ∙ zero_count in
      let test' : (f1 t).sched ≡ true = ap (λ (x : Tasklet). x.sched) at1 ∙ sched in
      let v : Softirqs W = record s { tasklets = f2 } in
      (
        tasklet_unlock func t (record v { world = effect (f1 t).func (f1 t).datum s.world }),
        if_false (s.tasklets t).running _ _ free
            ∙ if_true ((f1 t).count == 0) _ _ test
            ∙ if_true (f1 t).sched _ _ test'
            ∙ >>-ok (func (f1 t).func (f1 t).datum) (λ s'. ok (tt, tasklet_unlock func t s')) v _
                (passive (f1 t).func (f1 t).datum v),
        record {
          at = put_self f2 t c ∙ ap (λ (x : Tasklet). record x { running = false }) at2;
          rest = λ j ne. put_ne f2 t c j ne ∙ put_ne f1 t b j ne ∙ put_ne s.tasklets t a j ne;
          world = ap (λ (x : Tasklet). effect x.func x.datum s.world) at1;
          vecs = refl;
          pending = refl;
          irqs = refl;
        },
      )
