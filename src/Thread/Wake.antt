-- ===== src/Thread/Wake.antt =====
-- `wake_up_thread` of a thread of lower priority, and `exit_thread`: where control is lost.
use yaos.Prelude.{
  ℕ, ◌<◌, ◌≡◌, ◌≢◌, refl, sym, ap, Bool, true, false, Option, some, List, ◌∷◌, arith, All, ◌==◌,
  ltb, ◌∙◌, subst,
}
use yaos.Prelude.Outcome.{ok, halt, ◌>>=◌, ◌>>◌}
use yaos.Thread.{
  Thread, Cpu, is_ready, is_init, done, update, queue_behind, enter, yield_thread, suspend_thread,
  wake_up_thread, exit_to, exit_thread,
}
use yaos.Thread.Chain.{
  Parents, CanRun, IsRunning, Parents-change, All-change, update_self, update_ne,
}
use yaos.Thread.Switch.{entered, enter_lem}
use yaos.Thread.Moves.{leave_lem, suspend_thread-Back}

module _ (mapped : ℕ → Bool) where
  -- A thread that waits, suspended, and has a lower priority than the running one.
  pub record IsWaiting (s : Cpu) (p : ℕ) : Type 0 where
    pub other : p ≢ s.current
    pub begun : is_init (s.threads p).state ≡ false
    pub suspended : (s.threads p).suspended ≡ true
    pub lower : (s.threads s.current).lvl < (s.threads p).lvl

  -- The state after `p` is put between the running thread and its parent `q`.
  abbrev queued : ℕ → ℕ → Cpu → Cpu
  queued p q s =
      let f = update s.threads p (record (s.threads p) { parent = some q }) in
      record s { threads = update f s.current (record (f s.current) { parent = some p }) }

  queue_lem :
      (p q : ℕ) (s : Cpu) (o : Option ℕ)
      → o ≡ some q
      → (p == q) ≡ false
      → queue_behind mapped p s.current o s ≡ ok (tt, queued p q s)
  queue_lem p q s o e other = rw (e, other, ◌>>◌, ◌>>=◌) refl

  wake_up-queued :
      (links p q sp : ℕ) (s : Cpu)
      → IsWaiting s p
      → (s.threads s.current).parent ≡ some q
      → p ≢ q
      → wake_up_thread mapped links p sp s ≡ ok (tt, queued p q s)
  unfolding wake_up_thread
  wake_up-queued links p q sp s w e ne =
      let a : (p == s.current) ≡ false = ground (arith, w.other) in
      let b : ltb (s.threads s.current).lvl (s.threads p).lvl ≡ true = ground (arith, w.lower) in
      let c : (p == q) ≡ false = ground (arith, ne) in
      rw (a, w.begun, w.suspended, b) refl ∙ queue_lem p q s (s.threads s.current).parent e c

  -- A thread that bears the mark cannot suspend itself.
  suspended-halts :
      (q sp : ℕ) (l : List ℕ) (s : Cpu)
      → IsRunning mapped s (q ∷ l)
      → (s.threads s.current).suspended ≡ true
      → suspend_thread mapped sp s ≡ halt
  unfolding suspend_thread
  suspended-halts q sp l s v mark =
      let other : (q == s.current) ≡ false = ground (arith, v.distinct.0.0) in
      leave_lem mapped _ s.current q (s.threads s.current).parent s v.parents.0 other
      ∙ rw (mark, ◌>>◌, ◌>>=◌) refl

  module _ (p q : ℕ) (l : List ℕ) (s : Cpu) (v : IsRunning mapped s (q ∷ l)) (w : IsWaiting s p)
      (fresh : All (λ j. j ≢ p) (q ∷ l)) (can : CanRun mapped (s.threads p)) where
    abbrev behind : Thread
    behind = record (s.threads p) { parent = some q }

    abbrev inner : ℕ → Thread
    inner = update s.threads p behind

    abbrev front : Thread
    front = record (inner s.current) { parent = some p }

    u : Cpu
    u = queued p q s

    old_other : s.current ≢ p
    old_other e = w.other (sym e)

    at_front : u.threads s.current ≡ record (s.threads s.current) { parent = some p }
    unfolding u
    at_front =
        update_self inner s.current front
        ∙ ap (λ (t : Thread). record t { parent = some p })
            (update_ne s.threads p behind s.current old_other)

    at_behind : u.threads p ≡ behind
    unfolding u
    at_behind = update_ne inner s.current front p w.other ∙ update_self s.threads p behind

    elsewhere : (j : ℕ) → j ≢ p → j ≢ s.current → u.threads j ≡ s.threads j
    unfolding u
    elsewhere j np nc = update_ne inner s.current front j nc ∙ update_ne s.threads p behind j np

    queued-Parents : Parents u.threads q l
    unfolding u
    queued-Parents =
        Parents-change inner u.threads s.current q l
          (λ j nc. ap (λ (t : Thread). t.parent) (update_ne inner s.current front j nc))
          v.distinct.0.0 v.distinct.0.1
          (Parents-change s.threads inner p q l
            (λ j np. ap (λ (t : Thread). t.parent) (update_ne s.threads p behind j np)) fresh.0
            fresh.1 v.parents.1)

    queued-IsRunning : IsRunning mapped u (p ∷ q ∷ l)
    unfolding u
    queued-IsRunning = record {
      parents = (
        ap (λ (t : Thread). t.parent) at_front,
        (ap (λ (t : Thread). t.parent) at_behind, queued-Parents),
      );
      distinct = ((w.other, v.distinct.0), (fresh, v.distinct.1));
      can_run = (
        subst (CanRun mapped) (sym at_behind) can,
        All-change (λ j. CanRun mapped (s.threads j)) (λ j. CanRun mapped (u.threads j)) p s.current
            (q ∷ l) (λ j np nc c. subst (CanRun mapped) (sym (elsewhere j np nc)) c) fresh
            v.distinct.0 v.can_run,
      );
      running = ap (λ (t : Thread). is_ready t.state) at_front ∙ v.running;
    }

    -- Over a well-formed chain that is not empty, let the running thread, not marked as suspended itself,
    -- wake a suspended thread of lower priority past THREAD_INIT, not in the chain and able to go on. If the
    -- running thread then suspends itself, and after it the next thread that runs, an assertion fails:
    -- the woken thread still bears the mark.
    pub wake_up-suspend-halts :
        (links sp sp' sp'' : ℕ)
        → (s.threads s.current).suspended ≡ false
        → (wake_up_thread mapped links p sp
              >> suspend_thread mapped sp'
              >> suspend_thread mapped sp'')
            s
          ≡ halt
    unfolding u
    wake_up-suspend-halts links sp sp' sp'' awake =
        let woken : wake_up_thread mapped links p sp s ≡ ok (tt, u) =
          wake_up-queued links p q sp s w v.parents.0 (λ e. fresh.0 (sym e)) in
        let awake' : (u.threads s.current).suspended ≡ false =
          ap (λ (t : Thread). t.suspended) at_front ∙ awake in
        let (t, e, back, _) = suspend_thread-Back mapped p sp' (q ∷ l) u queued-IsRunning awake' in
        let mark : (t.threads t.current).suspended ≡ true =
          ap (λ k. (t.threads k).suspended) back.0
          ∙ back.3
          ∙ ap (λ (t : Thread). t.suspended) at_behind
          ∙ w.suspended in
        rw (◌>>◌, ◌>>=◌, woken, e) (suspended-halts q sp'' l t back.1 mark)

  CanRun-entered :
      (t : Thread) → is_ready t.state ≡ false → CanRun mapped t → CanRun mapped (entered true t)
  CanRun-entered t r can = rw r (rw r at can)

  exit_to_lem :
      (p sp : ℕ) (o : Option ℕ) (s : Cpu)
      → o ≡ some p
      → exit_to mapped sp o s ≡ enter mapped true p s.current sp s
  exit_to_lem p sp o s e = rw e

  yield_lem :
      (p old sp : ℕ) (u : Cpu)
      → u.current ≡ old
      → (u.threads u.current).parent ≡ some p
      → (p == u.current) ≡ false
      → yield_thread mapped sp u ≡ enter mapped true p old sp (record u { current = p })
  unfolding yield_thread
  yield_lem p old sp u cur up other =
      leave_lem mapped _ u.current p (u.threads u.current).parent u up other
      ∙ ap (λ k. enter mapped true p k sp (record u { current = p })) cur

  -- Over a well-formed chain whose first thread p has left its stack before, let the running thread exit
  -- and then p, which control has gone to, yield. Both succeed, the current thread is p, and its saved
  -- stack pointer is the one from before: p goes on and not its parent.
  pub exit-yield :
      (p sp sp' : ℕ) (l : List ℕ) (s : Cpu)
      → IsRunning mapped s (p ∷ l)
      → is_ready (s.threads p).state ≡ false
      → (t : Cpu) × ((exit_thread mapped sp >> yield_thread mapped sp') s ≡ ok (tt, t))
        × (t.current ≡ p)
        × ((t.threads p).rsp ≡ (s.threads p).rsp)
  unfolding exit_thread
  exit-yield p sp sp' l s v left =
      let old = s.current in
      let ended : Thread = record (s.threads old) { state = done } in
      let s1 : Cpu = record s { threads = update s.threads old ended } in
      let apart : p ≢ old = v.distinct.0.0 in
      let other : (p == old) ≡ false = ground (arith, apart) in
      let same : s1.threads p ≡ s.threads p = update_ne s.threads old ended p apart in
      let (u, e, w) =
        enter_lem mapped true p old sp s1 apart (subst (CanRun mapped) (sym same) v.can_run.0) in
      let up : (u.threads old).parent ≡ some p =
        ap (λ (t : Thread). t.parent) w.at_old
        ∙ ap (λ (t : Thread). t.parent) (update_self s.threads old ended)
        ∙ v.parents.0 in
      let can : CanRun mapped (u.threads p) =
        subst (CanRun mapped) (sym (w.at_new ∙ ap (entered true) same))
          (CanRun-entered (s.threads p) left v.can_run.0) in
      let (t, e', w') = enter_lem mapped true p old sp' (record u { current = p }) apart can in
      (
        t,
        rw (◌>>◌, ◌>>=◌, exit_to_lem p sp (s.threads old).parent s1 v.parents.0 ∙ e)
            (yield_lem p old sp' u w.current (ap (λ k. (u.threads k).parent) w.current ∙ up)
                (ap (λ k. p == k) w.current ∙ other)
              ∙ e'),
        w'.current,
        ap (λ (t : Thread). t.rsp) w'.at_new
            ∙ ap (λ (t : Thread). t.rsp) w.at_new
            ∙ ap (λ (t : Thread). t.rsp) same,
      )
