-- ===== src/Thread/Switch.antt =====
-- The switch to another thread: what it changes, and that control comes back.
use yaos.Prelude.{
  ℕ, ◌≡◌, ◌≢◌, refl, sym, ap, inl, inr, Bool, true, false, not, ◌||◌, arith, ◌==◌, if◌then◌else◌,
  Bool-cases, ◌∙◌,
}
use yaos.Prelude.Outcome.{ok, ◌>>=◌, ◌>>◌}
use yaos.Thread.{
  run, Thread, Cpu, is_ready, update, first_stack, thread_switch_first, thread_switch_to, enter,
}
use yaos.Thread.Chain.{CanRun, update_self, update_ne}

-- the thread that goes on
abbrev pub entered : Bool → Thread → Thread
entered mark t = record t { state = if is_ready t.state || mark then run else t.state }

-- What a switch from `old` to `p` has changed.
pub record Switched (mark : Bool) (p old sp : ℕ) (s t : Cpu) : Type 0 where
  pub current : t.current ≡ s.current
  pub at_old : t.threads old ≡ record (s.threads old) { rsp = sp }
  pub at_new : t.threads p ≡ entered mark (s.threads p)
  pub others : (j : ℕ) → j ≢ p → j ≢ old → t.threads j ≡ s.threads j

-- the state after the stack pointer is saved in `old`
abbrev saved : ℕ → ℕ → Cpu → Cpu
saved old sp s = record s { threads = update s.threads old (record (s.threads old) { rsp = sp }) }

-- Saving the stack pointer after `p` was made to go on.
saved-Switched :
    (mark : Bool) (p old sp : ℕ) (s u : Cpu)
    → p ≢ old
    → u.current ≡ s.current
    → u.threads p ≡ entered mark (s.threads p)
    → ((j : ℕ) → j ≢ p → u.threads j ≡ s.threads j)
    → Switched mark p old sp s (saved old sp u)
saved-Switched mark p old sp s u ne same at_p others = record {
  current = same;
  at_old =
      update_self u.threads old (record (u.threads old) { rsp = sp })
      ∙ ap (λ (t : Thread). record t { rsp = sp }) (others old (λ e. ne (sym e)));
  at_new = update_ne u.threads old (record (u.threads old) { rsp = sp }) p ne ∙ at_p;
  others =
      λ j np no. update_ne u.threads old (record (u.threads old) { rsp = sp }) j no ∙ others j np;
}

module _ (mapped : ℕ → Bool) where
  switch_first_lem :
      (p old sp : ℕ) (s : Cpu) (t : Thread)
      → s.threads p ≡ t
      → first_stack t ≢ 0
      → mapped (first_stack t) ≡ true
      → thread_switch_first mapped p old sp s ≡ ok (tt, saved old sp s)
  unfolding thread_switch_first
  switch_first_lem p old sp s t e ne ok_addr =
      let test : not (first_stack (s.threads p) == 0) ≡ true = rw e (ground (arith, ne)) in
      let ok' : mapped (first_stack (s.threads p)) ≡ true = rw e ok_addr in
      rw (◌>>◌, ◌>>=◌, test, ok') refl

  switch_to_lem :
      (p old sp : ℕ) (s : Cpu) (t : Thread)
      → s.threads p ≡ t
      → t.rsp ≢ 0
      → mapped t.rsp ≡ true
      → thread_switch_to mapped p old sp s ≡ ok (tt, saved old sp s)
  unfolding thread_switch_to
  switch_to_lem p old sp s t e ne ok_addr =
      let test : not ((s.threads p).rsp == 0) ≡ true = rw e (ground (arith, ne)) in
      let ok' : mapped (s.threads p).rsp ≡ true = rw e ok_addr in rw (◌>>◌, ◌>>=◌, test, ok') refl

  CanRun-ready :
      (t : Thread)
      → is_ready t.state ≡ true
      → CanRun mapped t
      → (first_stack t ≢ 0) × (mapped (first_stack t) ≡ true)
  CanRun-ready t r can = rw r at can

  CanRun-left :
      (t : Thread)
      → is_ready t.state ≡ false
      → CanRun mapped t
      → (t.rsp ≢ 0) × (mapped t.rsp ≡ true)
  CanRun-left t r can = rw r at can

  abbrev made_run : Cpu → ℕ → Cpu
  made_run s p = record s { threads = update s.threads p (record (s.threads p) { state = run }) }

  pub enter_lem :
      (mark : Bool) (p old sp : ℕ) (s : Cpu)
      → p ≢ old
      → CanRun mapped (s.threads p)
      → (t : Cpu) × (enter mapped mark p old sp s ≡ ok (tt, t)) × Switched mark p old sp s t
  unfolding enter
  enter_lem mark p old sp s ne can =
      let t = s.threads p in
      let self = update_self s.threads p (record t { state = run }) in
      let others = λ (j : ℕ) (nj : j ≢ p). update_ne s.threads p (record t { state = run }) j nj in
      elim (Bool-cases (is_ready t.state)) [
        | inl r ↦
            let (nonzero, in_memory) = CanRun-ready t r can in
            (
              _,
              rw (r, ◌>>◌, ◌>>=◌)
                  (switch_first_lem p old sp (made_run s p) (record t { state = run }) self nonzero
                    in_memory),
              saved-Switched mark p old sp s (made_run s p) ne refl (self ∙ rw r) others,
            )
        | inr r ↦
            let (nonzero, in_memory) = CanRun-left t r can in
            elim (Bool-cases mark) [
              | inl on ↦ (
                _,
                rw (r, on, ◌>>◌, ◌>>=◌)
                    (switch_to_lem p old sp (made_run s p) (record t { state = run }) self nonzero
                      in_memory),
                saved-Switched mark p old sp s (made_run s p) ne refl (self ∙ rw (r, on)) others,
              )
              | inr off ↦ (
                _,
                rw (r, off) (switch_to_lem p old sp s t refl nonzero in_memory),
                saved-Switched mark p old sp s s ne refl (rw (r, off)) (λ j nj. refl),
              )
            ]
      ]
