-- ===== src/Softirq/Serve/Round.antt =====
-- The loop of `tasklet_action`: what it starts from, and what a round leaves of it.
use yaos.Prelude.{
  ℕ, suc, ◌≡◌, ◌≢◌, refl, sym, ap, ◌∙◌, subst, Bool, true, false, Option, none, some, List, [], ◌∷◌,
  ◌++◌, All, All-append, All-map, All-map₂, everywhere, Distinct, set,
}
use yaos.Prelude.Outcome.{Action, ok, >>-ok}
use yaos.Softirq.{Tasklet, Softirqs, vec_of, softirq_of}
use yaos.Softirq.Queue.{
  Chain, Chain-same, IsQueue, SameBut, link_last-IsQueue, link_last-SameBut, link_last-next,
  link_last-world, link_last-pending, SameBut-trans,
}
use yaos.Softirq.Serve.{requeue, run_tasklet, run_list}
use yaos.Softirq.Serve.Run.{Stepped, Stepped-next}

module _ {W : Type 0} (func : ℕ → ℕ → Action (Softirqs W) (Unit {0})) (effect : ℕ → ℕ → W → W) where
  -- what stands in the requeued state
  pub record Requeued (hi : Bool) (t : ℕ) (r : List ℕ) (s u : Softirqs W) : Type 0 where
    pub queue : IsQueue u.tasklets (vec_of hi u.vecs) (r ++ (t ∷ []))
    pub same : (j : ℕ) → SameBut s.tasklets u.tasklets j
    pub next : (j : ℕ) → All (λ i. i ≢ j) r → j ≢ t → (u.tasklets j).next ≡ (s.tasklets j).next
    pub world : u.world ≡ s.world
    pub pending : u.softirq_pending ≡ set s.softirq_pending (softirq_of hi) true

  pub requeue_lem :
      (hi : Bool) (t : ℕ) (r : List ℕ) (s : Softirqs W)
      → IsQueue s.tasklets (vec_of hi s.vecs) r
      → All (λ j. j ≢ t) r
      → Requeued hi t r s (requeue func hi t s)
  requeue_lem hi t r s q out =
      let s0 : Softirqs W = record s { irqs = false } in
      record {
        queue = link_last-IsQueue hi t s0 r q out;
        same = λ j. link_last-SameBut hi t s0 j;
        next = λ j no ne. link_last-next hi t s0 r q j no ne;
        world = link_last-world hi t s0;
        pending = ap (λ w. set w (softirq_of hi) true) (link_last-pending hi t s0);
      }

  -- what the loop starts from: the list `l` from `o` on, as it was in `f`, and `r` in the queue
  pub record Ready (hi : Bool) (f : ℕ → Tasklet) (o : Option ℕ) (r l : List ℕ) (s : Softirqs W)
      : Type 0 where
    pub same : All (λ j. SameBut f s.tasklets j) l
    pub sched : All (λ j. (f j).sched ≡ true) l
    pub chain : Chain s.tasklets o l
    pub distinct : Distinct l
    pub queue : IsQueue s.tasklets (vec_of hi s.vecs) r
    pub apart : All (λ j. All (λ i. i ≢ j) r) l
    pub enabled : s.irqs ≡ true

  pub run_list-none :
      (hi : Bool) (links : ℕ) (o : Option ℕ) (s : Softirqs W)
      → o ≡ none
      → run_list func hi (suc links) o s ≡ ok (tt, s)
  unfolding run_list
  run_list-none hi links o s e = rw e refl

  pub run_list-some :
      (hi : Bool) (links t : ℕ) (o : Option ℕ) (s u : Softirqs W)
      → o ≡ some t
      → run_tasklet func hi t s ≡ ok (tt, u)
      → run_list func hi (suc links) o s ≡ run_list func hi links (s.tasklets t).next u
  unfolding run_list
  run_list-some hi links t o s u e done =
      ap (λ p. run_list func hi (suc links) p s) e
      ∙ >>-ok (run_tasklet func hi t) (run_list func hi links (s.tasklets t).next) s u done

  -- the loop after a tasklet that has been run
  pub Ready-Stepped :
      (hi : Bool) (f : ℕ → Tasklet) (o : Option ℕ) (r l : List ℕ) (t : ℕ) (s u : Softirqs W)
      → Ready hi f o r (t ∷ l) s
      → Stepped func effect t s u
      → Ready hi f (s.tasklets t).next r l u
  Ready-Stepped hi f o r l t s u v st =
      let links : (j : ℕ) → (u.tasklets j).next ≡ (s.tasklets j).next =
        Stepped-next func effect t s u st in
      record {
        same =
            All-map₂
              (λ j ne b. subst (λ x. x ≡ record (f j) { next = x.next }) (sym (st.rest j ne)) b) l
              v.distinct.0 v.same.1;
        sched = v.sched.1;
        chain =
            Chain-same s.tasklets u.tasklets (s.tasklets t).next l
              (everywhere (λ j. (u.tasklets j).next ≡ (s.tasklets j).next) links l) v.chain.1;
        distinct = v.distinct.1;
        queue =
            subst (λ q. IsQueue u.tasklets (vec_of hi q) r) (sym st.vecs)
              (record {
                chain =
                    Chain-same s.tasklets u.tasklets (vec_of hi s.vecs).head r
                      (everywhere (λ j. (u.tasklets j).next ≡ (s.tasklets j).next) links r)
                      v.queue.chain;
                tail = v.queue.tail;
                distinct = v.queue.distinct;
              });
        apart = v.apart.1;
        enabled = st.irqs ∙ v.enabled;
      }

  -- the loop after a tasklet that was queued again
  pub Ready-Requeued :
      (hi : Bool) (f : ℕ → Tasklet) (o : Option ℕ) (r l : List ℕ) (t : ℕ) (s u : Softirqs W)
      → Ready hi f o r (t ∷ l) s
      → Requeued hi t r s u
      → u.irqs ≡ true
      → Ready hi f (s.tasklets t).next (r ++ (t ∷ [])) l u
  Ready-Requeued hi f o r l t s u v w on = record {
    same = All-map (λ j b. SameBut-trans f s.tasklets u.tasklets j b (w.same j)) l v.same.1;
    sched = v.sched.1;
    chain =
        Chain-same s.tasklets u.tasklets (s.tasklets t).next l
          (All-map₂ (λ j. w.next j) l v.apart.1 v.distinct.0) v.chain.1;
    distinct = v.distinct.1;
    queue = w.queue;
    apart =
        All-map₂ (λ j a ne. All-append (λ i. i ≢ j) r (t ∷ []) a ((λ e. ne (sym e)), tt)) l
          v.apart.1 v.distinct.0;
    enabled = on;
  }
