-- ===== src/Softirq/Serve/Whole.antt =====
-- `tasklet_action` as a whole: induction on the list that it has taken off the queue.
use yaos.Prelude.{
  ℕ, zero, suc, ◌<◌, ◌≡◌, ◌≢◌, refl, sym, ap, ◌∙◌, subst, inl, inr, Bool, true, false, Option, List,
  [], ◌∷◌, ◌++◌, arith, All, everywhere, Bool-cases, length,
}
use yaos.Prelude.Outcome.{Action, ok}
use yaos.Softirq.{Tasklet, Softirqs, vec_of, set_vec, empty_queue, softirq_of}
use yaos.Softirq.Queue.{IsQueue, SameBut, SameBut-trans, vec_of-set}
use yaos.Softirq.Serve.{requeue, run_list, tasklet_action}
use yaos.Softirq.Serve.Run.{
  IsPassive, may_run, ready, blocked, raised, Ran, Stepped, run-ready, run-blocked, effects,
}
use yaos.Softirq.Serve.Round.{
  Requeued, Ready, requeue_lem, run_list-none, run_list-some, Ready-Stepped, Ready-Requeued,
}
use mathlib.Core.List.{append-nil, append_assoc}

module _ {W : Type 0} (func : ℕ → ℕ → Action (Softirqs W) (Unit {0})) (effect : ℕ → ℕ → W → W)
    (passive : IsPassive func effect) (hi : Bool) (f : ℕ → Tasklet) where
  Ran-none :
      (r : List ℕ) (s : Softirqs W)
      → IsQueue s.tasklets (vec_of hi s.vecs) r
      → s.irqs ≡ true
      → Ran func effect hi f r [] s s
  Ran-none r s q on = record {
    called = refl;
    queue = subst (λ l. IsQueue s.tasklets (vec_of hi s.vecs) l) (sym (append-nil r)) q;
    each = tt;
    others = λ j out. refl;
    pending = refl;
    enabled = on;
  }

  Ran-ready :
      (r l : List ℕ) (t : ℕ) (s u s' : Softirqs W)
      → may_run (f t) ≡ true
      → SameBut f s.tasklets t
      → All (λ j. j ≢ t) l
      → Stepped func effect t s u
      → Ran func effect hi f r l u s'
      → Ran func effect hi f r (t ∷ l) s s'
  Ran-ready r l t s u s' can same out st w = record {
    called = rw can (
        w.called
        ∙ ap (effects func effect f (ready f l))
            (st.world ∙ ap (λ (x : Tasklet). effect x.func x.datum s.world) same));
    queue = rw can w.queue;
    each = (
      rw can (
          w.others t out
          ∙ ap (λ (x : Tasklet). record x { next = (s'.tasklets t).next })
              (st.at ∙ ap (λ (x : Tasklet). record x { sched = false; running = false }) same)),
      w.each,
    );
    others = λ j no.
        subst (λ x. s'.tasklets j ≡ record x { next = (s'.tasklets j).next })
          (st.rest j (λ e. no.0 (sym e))) (w.others j no.1);
    pending = rw can (w.pending ∙ ap (raised (softirq_of hi) (blocked f l)) st.pending);
    enabled = w.enabled;
  }

  Ran-blocked :
      (r l : List ℕ) (t : ℕ) (s u s' : Softirqs W)
      → may_run (f t) ≡ false
      → SameBut f s.tasklets t
      → All (λ j. j ≢ t) l
      → Requeued func effect hi t r s u
      → Ran func effect hi f (r ++ (t ∷ [])) l u s'
      → Ran func effect hi f r (t ∷ l) s s'
  Ran-blocked r l t s u s' no_run same out q w = record {
    called = rw no_run (w.called ∙ ap (effects func effect f (ready f l)) q.world);
    queue = rw no_run (
        subst (λ k. IsQueue s'.tasklets (vec_of hi s'.vecs) k)
          (append_assoc r (t ∷ []) (blocked f l)) w.queue);
    each = (
      rw no_run (
          SameBut-trans f s.tasklets s'.tasklets t same
            (SameBut-trans s.tasklets u.tasklets s'.tasklets t (q.same t) (w.others t out))),
      w.each,
    );
    others = λ j no. SameBut-trans s.tasklets u.tasklets s'.tasklets j (q.same j) (w.others j no.1);
    pending = rw no_run (w.pending ∙ ap (raised (softirq_of hi) (blocked f l)) q.pending);
    enabled = w.enabled;
  }

  run_list-Ran :
      (links : ℕ) (o : Option ℕ) (r l : List ℕ) (s : Softirqs W)
      → Ready func effect hi f o r l s
      → length l < links
      → (s' : Softirqs W) × (run_list func hi links o s ≡ ok (tt, s'))
        × Ran func effect hi f r l s s'
  run_list-Ran zero o r l s v enough = absurd (omega arith)
  run_list-Ran (suc links) o r [] s v enough =
      (s, run_list-none func effect hi links o s v.chain, Ran-none r s v.queue v.enabled)
  run_list-Ran (suc links) o r (t ∷ l) s v enough =
      let like : may_run (s.tasklets t) ≡ may_run (f t) = ap may_run v.same.0 in
      elim (Bool-cases (may_run (f t))) [
        | inl can ↦
            let awake : (s.tasklets t).sched ≡ true =
              ap (λ (x : Tasklet). x.sched) v.same.0 ∙ v.sched.0 in
            let (u, e, st) = run-ready func effect passive hi t s (like ∙ can) awake in
            let (s', e', w) =
              run_list-Ran links (s.tasklets t).next r l u
                (Ready-Stepped func effect hi f o r l t s u v st) (omega arith) in
            (
              s',
              run_list-some func effect hi links t o s u v.chain.0 e ∙ e',
              Ran-ready r l t s u s' can v.same.0 v.distinct.0 st w,
            )
        | inr no_run ↦
            let u = requeue func hi t s in
            let q = requeue_lem func effect hi t r s v.queue v.apart.0 in
            let (s', e', w) =
              run_list-Ran links (s.tasklets t).next (r ++ (t ∷ [])) l u
                (Ready-Requeued func effect hi f o r l t s u v q refl) (omega arith) in
            (
              s',
              run_list-some func effect hi links t o s u v.chain.0
                    (run-blocked func effect hi t s (like ∙ no_run))
                  ∙ e',
              Ran-blocked r l t s u s' no_run v.same.0 v.distinct.0 q w,
            )
      ]

-- Let the functions of the tasklets return and change nothing but the world, let the queue hold the
-- tasklets l, all of them marked as scheduled, and let `links` be larger than their number. Then
-- tasklet_action (or tasklet_hi_action) succeeds. It has called the functions of those that may run, in
-- the order of the queue, and cleared their marks; the others are the new queue in their old order,
-- unchanged but for the links, as are all tasklets not in l; the soft interrupt is raised once for each
-- of them, and interrupts are enabled.
pub tasklet_action-Ran :
    {W : Type 0} (func : ℕ → ℕ → Action (Softirqs W) (Unit {0})) (effect : ℕ → ℕ → W → W)
    → IsPassive func effect
    → (hi : Bool) (links : ℕ) (l : List ℕ) (s : Softirqs W)
    → IsQueue s.tasklets (vec_of hi s.vecs) l
    → All (λ j. (s.tasklets j).sched ≡ true) l
    → length l < links
    → (s' : Softirqs W) × (tasklet_action func hi links s ≡ ok (tt, s'))
      × Ran func effect hi s.tasklets [] l s s'
unfolding tasklet_action
tasklet_action-Ran func effect passive hi links l s q sched enough =
    let s0 : Softirqs _ = record s { vecs = set_vec hi empty_queue s.vecs; irqs = true } in
    let (s', e, w) =
      run_list-Ran func effect passive hi s.tasklets links (vec_of hi s.vecs).head [] l s0
        (record {
          same = everywhere (λ j. SameBut s.tasklets s.tasklets j) (λ j. refl) l;
          sched = sched;
          chain = q.chain;
          distinct = q.distinct;
          queue =
              subst (λ v. IsQueue s.tasklets v []) (sym (vec_of-set hi empty_queue s.vecs))
                (record { chain = refl; tail = refl; distinct = tt });
          apart = everywhere (λ j. Unit {0}) (λ j. tt) l;
          enabled = refl;
        })
        enough in
    (
      s',
      e,
      record {
        called = w.called;
        queue = w.queue;
        each = w.each;
        others = w.others;
        pending = w.pending;
        enabled = w.enabled;
      },
    )
