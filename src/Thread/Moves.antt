-- ===== src/Thread/Moves.antt =====
-- `resume_thread`, `yield_thread` and `suspend_thread`: control goes to the thread and comes back.
use yaos.Prelude.{
  Distinct, ℕ, ◌≡◌, ◌≢◌, refl, sym, ap, inl, inr, Bool, true, false, Option, some, List, ◌∷◌, arith,
  All, ◌==◌, Bool-cases, ◌∙◌, subst,
}
use yaos.Prelude.Outcome.{Action, ok, ◌>>=◌, ◌>>◌}
use yaos.Thread.{
  Thread, Cpu, is_ready, is_done, update, leave, yield_thread, suspend_thread, resume_thread,
}
use yaos.Thread.Chain.{
  Parents, CanRun, IsRunning, Parents-change, All-change, update_self, update_ne,
}
use yaos.Thread.Switch.{Switched, entered, enter_lem}
use native.Mathlib.Decide.{ℕ_discrete}

started : (mark : Bool) (t : Thread) → is_ready (entered mark t).state ≡ false
started mark t = elim (Bool-cases (is_ready t.state)) [
  | inl r ↦ rw r
  | inr r ↦ elim (Bool-cases mark) [ inl on ↦ rw (r, on) | inr off ↦ rw (r, off) r ]
]

-- A switch changes no parent.
Switched-parent :
    (mark : Bool) (p old sp : ℕ) (u t : Cpu)
    → Switched mark p old sp u t
    → (j : ℕ) → j ≢ old
    → (t.threads j).parent ≡ (u.threads j).parent
Switched-parent mark p old sp u t w j nj = elim (ℕ_discrete j p) [
  | yes e ↦
      subst (λ k. (t.threads k).parent ≡ (u.threads k).parent) (sym e)
        (ap (λ (x : Thread). x.parent) w.at_new)
  | no ne ↦ ap (λ (x : Thread). x.parent) (w.others j ne nj)
]

module _ (mapped : ℕ → Bool) where
  -- The chain after control has gone back from `old` to its parent.
  back-IsRunning :
      (p old sp : ℕ) (l : List ℕ) (s u t : Cpu)
      → IsRunning mapped s (p ∷ l)
      → s.current ≡ old
      → ((j : ℕ) → j ≢ old → u.threads j ≡ s.threads j)
      → Switched true p old sp u t
      → t.current ≡ p
      → IsRunning mapped t l
  back-IsRunning p old sp l s u t v cur same w at =
      let ne_old : All (λ j. j ≢ old) (p ∷ l) =
        subst (λ k. All (λ j. j ≢ k) (p ∷ l)) cur v.distinct.0 in
      let kept : (j : ℕ) → j ≢ old → (t.threads j).parent ≡ (s.threads j).parent = λ j nj.
        Switched-parent true p old sp u t w j nj ∙ ap (λ (x : Thread). x.parent) (same j nj) in
      record {
        parents =
            subst (λ k. Parents t.threads k l) (sym at)
              (Parents-change s.threads t.threads old p l kept ne_old.0 ne_old.1 v.parents.1);
        distinct = subst (λ k. Distinct (k ∷ l)) (sym at) v.distinct.1;
        can_run =
            All-change (λ j. CanRun mapped (s.threads j)) (λ j. CanRun mapped (t.threads j)) p old l
              (λ j np no c. subst (CanRun mapped) (sym (w.others j np no ∙ same j no)) c)
              v.distinct.1.0 ne_old.1 v.can_run.1;
        running =
            subst (λ k. is_ready (t.threads k).state ≡ false) (sym at)
              (ap (λ (x : Thread). is_ready x.state) w.at_new ∙ started true (u.threads p));
      }

  pub leave_lem :
      (go : ℕ → Action Cpu (Unit {0})) (old p : ℕ) (o : Option ℕ) (s : Cpu)
      → o ≡ some p
      → (p == old) ≡ false
      → leave mapped go old o s ≡ go p s
  leave_lem go old p o s e other = rw (e, other, ◌>>◌, ◌>>=◌) refl

  -- What a thread that gives control back leaves behind: `p` runs, the chain is the rest of it, the
  -- old thread has its stack pointer saved, and `p` bears the mark if it did.
  abbrev pub Back : ℕ → ℕ → List ℕ → Cpu → Cpu → Type 0
  Back p sp l s t =
      (t.current ≡ p)
      × IsRunning mapped t l
      × ((t.threads s.current).rsp ≡ sp)
      × ((t.threads p).suspended ≡ (s.threads p).suspended)

  module _ (p sp : ℕ) (l : List ℕ) (s : Cpu) (v : IsRunning mapped s (p ∷ l)) where
    apart : p ≢ s.current
    apart = v.distinct.0.0

    -- When the running thread yields, its parent runs, and the rest of the chain is as before.
    pub yield_thread-Back : (t : Cpu) × (yield_thread mapped sp s ≡ ok (tt, t)) × Back p sp l s t
    unfolding yield_thread
    yield_thread-Back =
        let s' : Cpu = record s { current = p } in
        let (t, e, w) = enter_lem mapped true p s.current sp s' apart v.can_run.0 in
        let other : (p == s.current) ≡ false = ground (arith, apart) in
        (
          t,
          rw (v.parents.0, other, ◌>>◌, ◌>>=◌) e,
          (
            w.current,
            back-IsRunning p s.current sp l s s' t v refl (λ j nj. refl) w w.current,
            ap (λ (x : Thread). x.rsp) w.at_old,
            ap (λ (x : Thread). x.suspended) w.at_new,
          ),
        )

    -- In a well-formed chain of parents that is not empty, let the running thread, which does not bear
    -- the mark THREAD_SUSPEND, suspend itself. Then its parent p runs over the rest of the chain, which
    -- is well formed, p's mark is as it was, and the old thread bears the mark and has the stack
    -- pointer saved.
    pub suspend_thread-Back :
        (s.threads s.current).suspended ≡ false
        → (t : Cpu) × (suspend_thread mapped sp s ≡ ok (tt, t))
          × Back p sp l s t
          × ((t.threads s.current).suspended ≡ true)
    unfolding suspend_thread
    suspend_thread-Back awake =
        let marked : Thread = record (s.threads s.current) { suspended = true } in
        let s' : Cpu = record s { threads = update s.threads s.current marked; current = p } in
        let same : (j : ℕ) → j ≢ s.current → s'.threads j ≡ s.threads j =
          λ j nj. update_ne s.threads s.current marked j nj in
        let (t, e, w) =
          enter_lem mapped true p s.current sp s' apart
            (subst (CanRun mapped) (sym (same p apart)) v.can_run.0) in
        let other : (p == s.current) ≡ false = ground (arith, apart) in
        let at : t.threads s.current ≡ record marked { rsp = sp } =
          w.at_old
          ∙ ap (λ (x : Thread). record x { rsp = sp }) (update_self s.threads s.current marked) in
        (
          t,
          leave_lem _ s.current p (s.threads s.current).parent s v.parents.0 other
              ∙ rw (awake, ◌>>◌, ◌>>=◌) e,
          (
            w.current,
            back-IsRunning p s.current sp l s s' t v refl same w w.current,
            ap (λ (x : Thread). x.rsp) at,
            ap (λ (x : Thread). x.suspended) w.at_new
                ∙ ap (λ (x : Thread). x.suspended) (same p apart),
          ),
          ap (λ (x : Thread). x.suspended) at,
        )

  CanRun-saved :
      (t : Thread) (sp : ℕ)
      → is_ready t.state ≡ false
      → sp ≢ 0
      → mapped sp ≡ true
      → CanRun mapped (record t { rsp = sp })
  CanRun-saved t sp r nonzero in_memory = rw r (nonzero, in_memory)

  module _ (p sp : ℕ) (l : List ℕ) (s : Cpu) (v : IsRunning mapped s l) (nonzero : sp ≢ 0)
      (in_memory : mapped sp ≡ true) (fresh : All (λ j. j ≢ p) (s.current ∷ l))
      (can : CanRun mapped (s.threads p)) (alive : is_done (s.threads p).state ≡ false) where
    -- In a well-formed chain, resume_thread of a thread that is not done, is not the running one nor in
    -- the chain, and has an address to go on at that is not 0 and is accepted, succeeds. The thread runs,
    -- the chain has the old one before it and is well formed, and the old one has the stack pointer
    -- saved, which is assumed not 0 and accepted.
    pub resume_thread-Runs :
        (t : Cpu) × (resume_thread mapped p sp s ≡ ok (true, t))
        × (t.current ≡ p)
        × IsRunning mapped t (s.current ∷ l)
        × ((t.threads s.current).rsp ≡ sp)
    unfolding resume_thread
    resume_thread-Runs =
        let old = s.current in
        let ne : p ≢ old = λ e. fresh.0 (sym e) in
        let child : Thread = record (s.threads p) { parent = some old } in
        let s' : Cpu = record s { threads = update s.threads p child; current = p } in
        let same : (j : ℕ) → j ≢ p → s'.threads j ≡ s.threads j =
          λ j nj. update_ne s.threads p child j nj in
        let self : s'.threads p ≡ child = update_self s.threads p child in
        let (t, e, w) =
          enter_lem mapped false p old sp s' ne (subst (CanRun mapped) (sym self) can) in
        let other : (old == p) ≡ false = ground (arith, ne) in
        let at : t.threads old ≡ record (s.threads old) { rsp = sp } =
          w.at_old ∙ ap (λ (x : Thread). record x { rsp = sp }) (same old fresh.0) in
        let kept : (j : ℕ) → j ≢ p → (t.threads j).parent ≡ (s.threads j).parent = λ j nj.
          elim (ℕ_discrete j old) [
            | yes e ↦
                subst (λ k. (t.threads k).parent ≡ (s.threads k).parent) (sym e)
                  (ap (λ (x : Thread). x.parent) at)
            | no no_old ↦ ap (λ (x : Thread). x.parent) (w.others j nj no_old ∙ same j nj)
          ] in
        (
          t,
          rw (alive, other, ◌>>◌, ◌>>=◌, e) refl,
          w.current,
          record {
            parents =
                subst (λ k. Parents t.threads k (old ∷ l)) (sym w.current)
                  (
                    ap (λ (x : Thread). x.parent) w.at_new ∙ ap (λ (x : Thread). x.parent) self,
                    Parents-change s.threads t.threads p old l kept fresh.0 fresh.1 v.parents,
                  );
            distinct = subst (λ k. Distinct (k ∷ old ∷ l)) (sym w.current) (fresh, v.distinct);
            can_run = (
              subst (CanRun mapped) (sym at)
                  (CanRun-saved (s.threads old) sp v.running nonzero in_memory),
              All-change (λ j. CanRun mapped (s.threads j)) (λ j. CanRun mapped (t.threads j)) p old
                  l (λ j np no c. subst (CanRun mapped) (sym (w.others j np no ∙ same j np)) c)
                  fresh.1 v.distinct.0 v.can_run,
            );
            running =
                subst (λ k. is_ready (t.threads k).state ≡ false) (sym w.current)
                  (ap (λ (x : Thread). is_ready x.state) w.at_new ∙ started false (s'.threads p));
          },
          ap (λ (x : Thread). x.rsp) at,
        )

    -- In a well-formed chain, resume a thread that is not done, is not the running one nor in the chain,
    -- and has an address to go on at that is not 0 and is accepted, as is the stack pointer saved. If it
    -- yields, the thread that resumed it runs again, over a well-formed chain with the same threads.
    pub resume-yield :
        (sp' : ℕ)
        → (t : Cpu) × ((resume_thread mapped p sp >>= λ alive. yield_thread mapped sp') s
            ≡ ok (tt, t))
          × (t.current ≡ s.current)
          × IsRunning mapped t l
    resume-yield sp' =
        let (u, e, at, w, _) = resume_thread-Runs in
        let (t, e', back) = yield_thread-Back s.current sp' l u w in
        (t, rw (◌>>=◌, e) e', back.0, back.1)
