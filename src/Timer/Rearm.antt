-- ===== src/Timer/Rearm.antt =====
-- A callback that arms itself again, as test_timeout of kernel/kthread.c does.
use yaos.Prelude.{
  ℕ, ◌+◌, ◌<◌, ◌%◌, ◌^◌, ◌≡◌, refl, inl, inr, false, List, [], ◌∷◌, arith, Bool-cases, ltb, leb,
  Option, none, some, ◌==◌, if◌then◌else◌, ap, ◌∙◌,
}
use yaos.Prelude.Outcome.{
  Outcome, ok, halt, spin, Action, pure, Returns, Returns-and, Returns->>=, WhenOk, WhenOk->>=,
}
use yaos.Timer.{Timeout, Timers, insert, insert_after, take_node, arm, set_timeout, test_timeout}
use yaos.Timer.Order.{IsTimers, count}
use yaos.Timer.Arm.{Replied, Replied-IsTimers, GivesFresh, set_timeout-Replied}
use yaos.Timer.Collect.{due}
use yaos.Timer.Expire.{Called}

due-insert_after :
    (now : ℕ) (p : Timeout) (l : List Timeout)
    → now < p.deadline
    → due now (insert_after p l) ≡ due now l
unfolding insert_after
due-insert_after now p [] lt =
    let late : leb p.deadline now ≡ false = ground (arith, lt) in rw late refl
due-insert_after now p (n ∷ rest) lt =
    let late : leb p.deadline now ≡ false = ground (arith, lt) in
    elim (Bool-cases (ltb n.deadline p.deadline)) [
      | inl on ↦ rw (on, due-insert_after now p rest lt) refl
      | inr here ↦ rw (here, late) refl
    ]

-- A timeout that is not due changes nothing about those that are.
due-insert :
    (now : ℕ) (p : Timeout) (l : List Timeout) → now < p.deadline → due now (insert p l) ≡ due now l
unfolding insert
due-insert now p [] lt = let late : leb p.deadline now ≡ false = ground (arith, lt) in rw late refl
due-insert now p (n ∷ rest) lt =
    let late : leb p.deadline now ≡ false = ground (arith, lt) in
    elim (Bool-cases (ltb p.deadline n.deadline)) [
      | inl front ↦ rw (front, late) refl
      | inr on ↦ rw (on, due-insert_after now p rest lt) refl
    ]

module _ {W V : Type 0} (yaos_malloc : ℕ → Action W ℕ) (seen : W → V)
    (unseen : (w : W) → WhenOk (λ (_, w'). seen w' ≡ seen w) (yaos_malloc 24 w)) where
  abbrev Seen : {A : Type 0} → Timers W → A × Timers W → Type 0
  Seen s (_, t) = seen t.world ≡ seen s.world

  take_node-Seen : (s : Timers W) → WhenOk (Seen s) (take_node yaos_malloc s)
  unfolding take_node
  take_node-Seen s = from s.pfree
    where
      new :
          (r : Outcome (ℕ × W))
          → WhenOk (λ (_, w'). seen w' ≡ seen s.world) r
          → WhenOk (Seen {A = Option Timeout} s) (elim r [
            | ok (p, w) ↦ ok (
              if p == 0 then none else some (record { node = p; deadline = 0; callback = 0 }),
              record s { world = w },
            )
            | halt ↦ halt
            | spin ↦ spin
          ])
      new (ok (p, w)) h = h
      new halt h = tt
      new spin h = tt

      from :
          (l : List Timeout)
          → WhenOk (Seen {A = Option Timeout} s) (elim l [
            | p ∷ rest ↦ ok (some p, record s { pfree = rest })
            | [] ↦ elim (yaos_malloc 24 s.world) [
              | ok (p, w) ↦ ok (
                if p == 0 then none else some (record { node = p; deadline = 0; callback = 0 }),
                record s { world = w },
              )
              | halt ↦ halt
              | spin ↦ spin
            ]
          ])
      from [] = new (yaos_malloc 24 s.world) (unseen s.world)
      from (p ∷ rest) = refl

  set_timeout-Seen :
      (msec pfunc : ℕ) (s : Timers W) → WhenOk (Seen s) (set_timeout yaos_malloc msec pfunc s)
  unfolding set_timeout
  set_timeout-Seen msec pfunc s =
      WhenOk->>= (Seen s) (Seen s) (take_node yaos_malloc) (arm yaos_malloc msec pfunc) s
        (take_node-Seen s) armed
    where
      armed :
          (o : Option Timeout) (t : Timers W)
          → Seen s (o, t)
          → WhenOk (Seen s) (arm yaos_malloc msec pfunc o t)
      armed none t h = h
      armed (some p) t h = h

  module _ (now : ℕ) (early : now + 10000 < 2 ^ 64) where
    Replied-Called :
        (pfunc : ℕ) (s : Timers W) (out : ℕ × Timers W)
        → IsTimers s
        → s.msec_count ≡ now
        → Replied 10000 pfunc s out
        → Seen s out
        → (call : ℕ → ℕ → Action (Timers W) (Unit {0}))
        → Called call seen (λ pfunc now v. v) now pfunc s out.1
    Replied-Called pfunc s (r, t) v at (inl (_, a)) same call = record {
      timers = a.timers;
      clock = a.clock;
      same_due =
          ap (due now) a.inserted
          ∙ due-insert now
              (record {
                node = a.node;
                deadline = (10000 + s.msec_count) % 2 ^ 64;
                callback = pfunc;
              })
              s.ptimer (omega (arith, at, early));
      kept = λ f. omega (arith, a.added f);
      done = same;
    }
    Replied-Called pfunc s (r, t) v at (inr (e, a)) same call = record {
      timers = Replied-IsTimers 10000 pfunc s (r, t) v (inr (e, a));
      clock = a.clock;
      same_due = ap (due now) a.ptimer;
      kept = λ f. omega (arith, ap (count f) a.ptimer);
      done = same;
    }

    -- test_timeout returns, whether or not there is a node for it, and what it arms is not due yet.
    pub test_timeout-Called :
        (call : ℕ → ℕ → Action (Timers W) (Unit {0})) (pfunc : ℕ) (s : Timers W)
        → IsTimers s
        → s.msec_count ≡ now
        → GivesFresh yaos_malloc s
        → Returns
            (λ (_, t). Called call seen (λ pfunc now v. v) now pfunc s t)
            (test_timeout yaos_malloc pfunc s)
    unfolding test_timeout
    test_timeout-Called call pfunc s v at fresh =
        Returns->>= _ (λ (_, t). Called call seen (λ pfunc now v. v) now pfunc s t)
          (set_timeout yaos_malloc 10000 pfunc) (λ _. pure tt) s
          (Returns-and (Replied 10000 pfunc s) (Seen s) (set_timeout yaos_malloc 10000 pfunc s)
            (set_timeout-Replied yaos_malloc 10000 pfunc s v fresh)
            (set_timeout-Seen 10000 pfunc s))
          (λ r t (replied, same). Replied-Called pfunc s (r, t) v at replied same call)
