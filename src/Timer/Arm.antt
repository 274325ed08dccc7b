-- ===== src/Timer/Arm.antt =====
-- `set_timeout` arms one more timeout, or reports that there is no node for it.
use yaos.Prelude.{
  ℕ, ◌+◌, ◌≤◌, ◌%◌, ◌^◌, ◌≡◌, ◌≢◌, ◌⊎◌, refl, inl, inr, Bool, true, false, List, [], ◌∷◌, arith,
  Bool-cases, ◌==◌, count_if, none, some, ap, subst,
}
use yaos.Prelude.Outcome.{Outcome, ok, halt, spin, Action, ◌>>=◌, Returns}
use yaos.Timer.{Timeout, Timers, insert, take_node, arm, set_timeout, enomem}
use yaos.Timer.Order.{IsTimers, Sorted, count, is_node, count-insert, insert-Sorted}

module _ {W : Type 0} where
  -- One more timeout is armed, for the wrapped deadline; the others are as before.
  pub record Armed (msec pfunc : ℕ) (s t : Timers W) : Type 0 where
    pub timers : IsTimers t
    pub node : ℕ
    pub added :
        (f : Timeout → Bool)
        → count f t.ptimer
          ≡ count_if (
              f (record {
                node = node;
                deadline = (msec + s.msec_count) % 2 ^ 64;
                callback = pfunc;
              }))
            + count f s.ptimer
    pub inserted :
        t.ptimer
        ≡ insert
            (record { node = node; deadline = (msec + s.msec_count) % 2 ^ 64; callback = pfunc })
            s.ptimer
    pub clock : t.msec_count ≡ s.msec_count

  -- The timers are as they were.
  pub record Refused (s t : Timers W) : Type 0 where
    pub no_node : s.pfree ≡ []
    pub pfree : t.pfree ≡ []
    pub ptimer : t.ptimer ≡ s.ptimer
    pub clock : t.msec_count ≡ s.msec_count

  abbrev pub Replied : ℕ → ℕ → Timers W → ℕ × Timers W → Type 0
  Replied msec pfunc s (r, t) = ((r ≡ 0) × Armed msec pfunc s t) ⊎ ((r ≡ enomem) × Refused s t)

  pub Replied-IsTimers :
      (msec pfunc : ℕ) (s : Timers W) (r : ℕ × Timers W)
      → IsTimers s
      → Replied msec pfunc s r
      → IsTimers r.1
  Replied-IsTimers msec pfunc s r inv (inl (zero_returned, armed)) = armed.timers
  Replied-IsTimers msec pfunc s r inv (inr (error, same)) = record {
    sorted = rw same.ptimer inv.sorted;
    once = λ n.
        omega (
          arith,
          inv.once n,
          ap (count (is_node n)) same.pfree,
          ap (count (is_node n)) same.ptimer,
        );
  }

  module _ (yaos_malloc : ℕ → Action W ℕ) where
    -- `yaos_malloc` returns null or the address of a block that no timeout lies in.
    abbrev pub GivesFresh : Timers W → Type 0
    GivesFresh s =
        Returns (λ (r : ℕ × W). (n : ℕ) → r.0 ≡ n → n ≢ 0 → count (is_node n) s.ptimer ≡ 0)
          (yaos_malloc 24 s.world)

    arm-Armed :
        (msec pfunc : ℕ) (p : Timeout) (s t : Timers W)
        → Sorted s.ptimer
        → t.ptimer ≡ s.ptimer
        → t.msec_count ≡ s.msec_count
        → ((n : ℕ)
            → count (is_node n) t.pfree + count_if (is_node n p) + count (is_node n) t.ptimer ≤ 1)
        → Returns (Replied msec pfunc s) (arm yaos_malloc msec pfunc (some p) t)
    arm-Armed msec pfunc p s t ord same clock once = inl (
      refl,
      record {
        timers = record {
          sorted = insert-Sorted _ t.ptimer (rw same ord);
          once = λ n. omega (
            arith,
            once n,
            count-insert (is_node n)
                (record p { deadline = (msec + t.msec_count) % 2 ^ 64; callback = pfunc }) t.ptimer,
          );
        };
        node = p.node;
        added = λ f. rw (count-insert, same, clock) refl;
        inserted = rw (same, clock) refl;
        clock = clock;
      },
    )

    take_first :
        (s : Timers W) (p : Timeout) (rest : List Timeout)
        → s.pfree ≡ p ∷ rest
        → take_node yaos_malloc s ≡ ok (some p, record s { pfree = rest })
    unfolding take_node
    take_first s p rest e = rw e refl

    take_null :
        (s : Timers W) (a : ℕ) (w : W)
        → s.pfree ≡ []
        → yaos_malloc 24 s.world ≡ ok (a, w)
        → (a == 0) ≡ true
        → take_node yaos_malloc s ≡ ok (none, record s { world = w })
    unfolding take_node
    take_null s a w empty e null = rw (empty, take_node, e, null) (rw empty refl)

    take_new :
        (s : Timers W) (a : ℕ) (w : W)
        → s.pfree ≡ []
        → yaos_malloc 24 s.world ≡ ok (a, w)
        → (a == 0) ≡ false
        → take_node yaos_malloc s
          ≡ ok (some (record { node = a; deadline = 0; callback = 0 }), record s { world = w })
    unfolding take_node
    take_new s a w empty e here = rw (empty, take_node, e, here) (rw empty refl)

    set_timeout-malloc :
        (msec pfunc : ℕ) (s : Timers W) (r : Outcome (ℕ × W))
        → s.pfree ≡ []
        → IsTimers s
        → Returns (λ (r : ℕ × W). (n : ℕ) → r.0 ≡ n → n ≢ 0 → count (is_node n) s.ptimer ≡ 0) r
        → yaos_malloc 24 s.world ≡ r
        → Returns (Replied msec pfunc s) (set_timeout yaos_malloc msec pfunc s)
    unfolding set_timeout
    set_timeout-malloc msec pfunc s halt empty inv fresh e = absurd fresh
    set_timeout-malloc msec pfunc s spin empty inv fresh e = absurd fresh
    set_timeout-malloc msec pfunc s (ok (a, w)) empty inv fresh e = elim (Bool-cases (a == 0)) [
      | inl null ↦
          rw (Returns, ◌>>=◌, take_null s a w empty e null)
            (inr (refl, record { no_node = empty; pfree = empty; ptimer = refl; clock = refl }))
      | inr here ↦
          rw (Returns, ◌>>=◌, take_new s a w empty e here)
            (arm-Armed msec pfunc (record { node = a; deadline = 0; callback = 0 }) s
              (record s { world = w }) inv.sorted refl refl
              λ n.
                let unused : count (is_node n) s.pfree ≡ 0 = ap (count (is_node n)) empty in
                ground (arith, inv.once n, fresh n, here))
    ]

    -- On well-formed timers, if yaos_malloc returns null or a block in which no timeout lies, then
    -- set_timeout returns. Either it returns 0, one timeout more is armed, for the wrapped sum of the
    -- clock and the delay, and the timers stay well formed; or it returns ENOMEM, no node was free, and
    -- nothing about the timers has changed.
    pub set_timeout-Replied :
        (msec pfunc : ℕ) (s : Timers W)
        → IsTimers s
        → GivesFresh s
        → Returns (Replied msec pfunc s) (set_timeout yaos_malloc msec pfunc s)
    unfolding set_timeout
    set_timeout-Replied msec pfunc s inv fresh = go s.pfree refl
      where
        go :
            (l : List Timeout)
            → s.pfree ≡ l
            → Returns (Replied msec pfunc s) (set_timeout yaos_malloc msec pfunc s)
        go [] e = set_timeout-malloc msec pfunc s (yaos_malloc 24 s.world) e inv fresh refl
        go (p ∷ rest) e =
            rw (Returns, ◌>>=◌, take_first s p rest e)
              (arm-Armed msec pfunc p s (record s { pfree = rest }) inv.sorted refl refl
                λ n.
                  let o : count (is_node n) (p ∷ rest) + count (is_node n) s.ptimer ≤ 1 =
                    subst (λ l. count (is_node n) l + count (is_node n) s.ptimer ≤ 1) e
                      (inv.once n) in
                  omega (arith, o))
