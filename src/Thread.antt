-- ===== src/Thread.antt =====
-- Threads on one processor, kernel/kthread.c: who runs, and to whom control goes back.
--
-- An operation ends at the switch of the stacks: its result is the state in which the other thread
-- goes on. `sp` is the stack pointer that the switch saves, and `mapped` tells the addresses that the
-- assertions of the switch accept. A thread is known by a number, and `parent` is the thread that
-- control goes back to.
pub mod Chain
pub mod Moves
pub mod Switch
pub mod Wake
mod Tests
use yaos.Prelude.{
  ℕ, zero, suc, ◌+◌, ◌-◌, ◌%◌, ◌^◌, Bool, true, false, not, ◌||◌, Option, none, some, ltb, ◌==◌,
  if◌then◌else◌,
}
use yaos.Prelude.Outcome.{Outcome, ok, halt, spin, Action, ◌>>=◌, ◌>>◌, pure, assert}

pub data Status : Type 0 where
  init ready run done : Status

pub record Thread : Type 0 where
  pub stack_addr : ℕ
  pub stack_size : ℕ
  pub rsp : ℕ
  pub lvl : ℕ
  pub suspended : Bool  -- the bit THREAD_SUSPEND of `flag`
  pub state : Status
  pub parent : Option ℕ

pub record Cpu : Type 0 where
  pub threads : ℕ → Thread
  pub current : ℕ

abbrev pub is_ready : Status → Bool
is_ready ready = true
is_ready _ = false

abbrev pub is_init : Status → Bool
is_init init = true
is_init _ = false

abbrev pub is_done : Status → Bool
is_done done = true
is_done _ = false

abbrev pub update : (ℕ → Thread) → ℕ → Thread → ℕ → Thread
update f k t j = if k == j then t else f j

-- a write to fields of the thread `k`
abbrev pub change : ℕ → (Thread → Thread) → Action Cpu (Unit {0})
change k g s = ok (tt, record s { threads = update s.threads k (g (s.threads k)) })

abbrev pub set_current : ℕ → Action Cpu (Unit {0})
set_current k s = ok (tt, record s { current = k })

abbrev pub first_stack : Thread → ℕ
first_stack t = (t.stack_addr + t.stack_size + (2 ^ 64 - 8)) % 2 ^ 64

abbrev pub found_or : Bool → Outcome Bool → Outcome Bool
found_or b (ok c) = ok (b || c)
found_or b halt = halt
found_or b spin = spin

-- `while (pold) { pold = pold->parent; if (pold == p) found = true; }` from the thread `k` on; the
-- chain of parents has at most `links` links.
pub search_up : ℕ → Cpu → ℕ → ℕ → Outcome Bool
search_up zero s p k = spin
search_up (suc links) s p k = elim (s.threads k).parent [
  | none ↦ ok false
  | some q ↦ found_or (q == p) (search_up links s p q)
]

-- `ASSERT(!found);`, which `DEBUG` compiles in
abbrev pub check_absent : Outcome Bool → Action Cpu (Unit {0})
check_absent (ok found) s = assert (not found) s
check_absent halt s = halt
check_absent spin s = spin

module _ (mapped : ℕ → Bool) where
  -- Both save the old stack pointer in the old thread.
  pub thread_switch_first : ℕ → ℕ → ℕ → Action Cpu (Unit {0})
  thread_switch_first p old sp s =
      (do
        assert (not (first_stack (s.threads p) == 0))
        assert (mapped (first_stack (s.threads p)))
        change old (λ t. record t { rsp = sp }))
        s

  pub thread_switch_to : ℕ → ℕ → ℕ → Action Cpu (Unit {0})
  thread_switch_to p old sp s =
      (do
        assert (not ((s.threads p).rsp == 0))
        assert (mapped (s.threads p).rsp)
        change old (λ t. record t { rsp = sp }))
        s

  -- `if (p->state == THREAD_READY) …; else …`, where `mark` tells whether the other branch sets the
  -- state too
  pub enter : Bool → ℕ → ℕ → ℕ → Action Cpu (Unit {0})
  enter mark p old sp s =
      if is_ready (s.threads p).state
      then (change p (λ t. record t { state = run }) >> thread_switch_first p old sp) s
      else if mark
      then (change p (λ t. record t { state = run }) >> thread_switch_to p old sp) s
      else thread_switch_to p old sp s

  -- `p = pold->parent; ASSERT(p != pold); if (unlikely(!p)) panic(…);`
  abbrev pub leave : (ℕ → Action Cpu (Unit {0})) → ℕ → Option ℕ → Action Cpu (Unit {0})
  leave go old none s = halt
  leave go old (some p) s = (assert (not (p == old)) >> go p) s

  pub yield_thread : ℕ → Action Cpu (Unit {0})
  yield_thread sp s =
      leave (λ p. do set_current p; enter true p s.current sp) s.current
        (s.threads s.current).parent s

  pub suspend_thread : ℕ → Action Cpu (Unit {0})
  suspend_thread sp s =
      leave
        (λ p. do
          assert (not (s.threads s.current).suspended)
          change s.current (λ t. record t { suspended = true })
          set_current p
          enter true p s.current sp)
        s.current (s.threads s.current).parent s

  -- `false` is the result for a thread that is done.
  pub resume_thread : ℕ → ℕ → Action Cpu Bool
  resume_thread p sp s =
      if is_done (s.threads p).state
      then ok (false, s)
      else (do
        change p (λ t. record t { parent = some s.current })
        assert (not (s.current == p))
        set_current p
        enter false p s.current sp
        pure true)
          s

  -- `ASSERT(p != pold->parent); p->parent = pold->parent; pold->parent = p;`
  abbrev pub queue_behind : ℕ → ℕ → Option ℕ → Action Cpu (Unit {0})
  queue_behind p old none s =
      (do
        change p (λ t. record t { parent = none })
        change old (λ t. record t { parent = some p }))
        s
  queue_behind p old (some q) s =
      (do
        assert (not (p == q))
        change p (λ t. record t { parent = some q })
        change old (λ t. record t { parent = some p }))
        s

  pub wake_up_thread : ℕ → ℕ → ℕ → Action Cpu (Unit {0})
  wake_up_thread links p sp s =
      if p == s.current
      then ok (tt, s)
      else if is_init (s.threads p).state
      then ok (tt, s)
      else if not (s.threads p).suspended
      then check_absent (search_up links s p s.current) s
      else if ltb (s.threads s.current).lvl (s.threads p).lvl
      then queue_behind p s.current (s.threads s.current).parent s
      else (do
        change p (λ t. record t { suspended = false })
        set_current p
        change p (λ t. record t { parent = some s.current })
        enter false p s.current sp)
          s

  -- `if (unlikely(!p)) panic(…);` and the switch; `current_thread` is not set.
  abbrev pub exit_to : ℕ → Option ℕ → Action Cpu (Unit {0})
  exit_to sp none s = halt
  exit_to sp (some p) s = enter true p s.current sp s

  -- `p = pold->parent; pold->state = THREAD_DONE;`
  pub exit_thread : ℕ → Action Cpu (Unit {0})
  exit_thread sp s =
      (change s.current (λ t. record t { state = done }) >> exit_to sp (s.threads s.current).parent)
        s
