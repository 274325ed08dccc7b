-- ===== src/Timer.antt =====
-- Timeouts and the calendar, kernel/timer.c.
--
-- The state is one processor's `struct timer_manager` with the clock `msec_count`, and the rest of
-- the kernel as `world`. A callback is the address of a function; `call` runs it. A node is known by
-- its number: that of an element of `timerbuf`, or the address that `yaos_malloc` gave.
pub mod Arm
pub mod Calendar
pub mod Collect
pub mod Expire
pub mod Keep
pub mod Order
pub mod Rearm
mod Tests
use yaos.Prelude.{
  ℕ, zero, suc, ◌+◌, ◌-◌, ◌*◌, ◌/◌, ◌%◌, ◌^◌, Bool, true, false, ◌||◌, Option, none, some, List, [],
  ◌∷◌, ◌++◌, length, ltb, leb, ◌==◌, if◌then◌else◌,
}
use yaos.Prelude.Outcome.{Outcome, ok, halt, spin, Action, ◌>>=◌, ◌>>◌, pure}

pub record Timeout : Type 0 where
  pub node : ℕ
  pub deadline : ℕ
  pub callback : ℕ

pub record Timers (W : Type 0) : Type 0 where
  pub pfree : List Timeout
  pub ptimer : List Timeout
  pub msec_count : ℕ
  pub world : W

abbrev pub nr_timer_buf : ℕ
nr_timer_buf = 16

abbrev pub enomem : ℕ
enomem = 2 ^ 32 - 12

-- the elements `node .. node + count - 1` of `timerbuf`, each linked to the next
abbrev pub buffer : ℕ → ℕ → List Timeout
buffer node zero = []
buffer node (suc count) =
    record { node = node; deadline = 0; callback = 0 } ∷ buffer (node + 1) count

-- The walk `while (ptr->pnext && ptr->pnext->deadline < thedeadline)` behind the first timeout.
pub insert_after : Timeout → List Timeout → List Timeout
insert_after p [] = p ∷ []
insert_after p (n ∷ rest) =
    if ltb n.deadline p.deadline then n ∷ insert_after p rest else p ∷ n ∷ rest

pub insert : Timeout → List Timeout → List Timeout
insert p [] = p ∷ []
insert p (h ∷ rest) = if ltb p.deadline h.deadline then p ∷ h ∷ rest else h ∷ insert_after p rest

-- The loop that collects what is due behind the first timeout, with `callnr` places left in
-- `funcarr`: the timeouts taken, and the list from `ptr->pnext` on.
pub collect : ℕ → ℕ → List Timeout → List Timeout × List Timeout
collect now zero l = ([], l)
collect now (suc callnr) [] = ([], [])
collect now (suc callnr) (n ∷ rest) =
    let (due, left) = collect now callnr rest in
    if leb n.deadline now then (n ∷ due, left) else ([], n ∷ rest)

module _ {W : Type 0} where
  pub init_timer : Timers W → Timers W
  init_timer s = record s { pfree = buffer 0 nr_timer_buf; ptimer = [] }

  module _ (yaos_malloc : ℕ → Action W ℕ) where
    -- The first node of `pfree`, or a new one of 24 bytes.
    pub take_node : Action (Timers W) (Option Timeout)
    take_node s = elim s.pfree [
      | p ∷ rest ↦ ok (some p, record s { pfree = rest })
      | [] ↦ elim (yaos_malloc 24 s.world) [
        | ok (p, w) ↦ ok (
          if p == 0 then none else some (record { node = p; deadline = 0; callback = 0 }),
          record s { world = w },
        )
        | halt ↦ halt
        | spin ↦ spin
      ]
    ]

    -- `p->deadline = …; p->callback = pfunc;` and the link, or the error
    abbrev pub arm : ℕ → ℕ → Option Timeout → Action (Timers W) ℕ
    arm msec pfunc none s = ok (enomem, s)
    arm msec pfunc (some p) s =
        let p' : Timeout = record p {
          deadline = (msec + s.msec_count) % 2 ^ 64;
          callback = pfunc;
        } in
        ok (0, record s { ptimer = insert p' s.ptimer })

    pub set_timeout : ℕ → ℕ → Action (Timers W) ℕ
    set_timeout msec pfunc = do p ← take_node; arm msec pfunc p

    -- the callback of the idle threads, at the address `self`
    unfoldable pub test_timeout : ℕ → Action (Timers W) (Unit {0})
    test_timeout self = do r ← set_timeout 10000 self; pure tt

  module _ (call : ℕ → ℕ → Action (Timers W) (Unit {0})) where
    -- `(funcarr[i])(msec_count)` for each function collected
    pub call_all : List Timeout → Action (Timers W) (Unit {0})
    call_all [] s = ok (tt, s)
    call_all (p ∷ rest) s = (call p.callback s.msec_count >> call_all rest) s

    -- What was taken off the list goes to `pfree` before the calls; a full `funcarr` is followed by
    -- another run.
    abbrev pub fire :
        Action (Timers W) (Unit {0}) → List Timeout × List Timeout → Action (Timers W) (Unit {0})
    fire again (due, left) s =
        let s' : Timers W = record s { ptimer = left; pfree = due ++ s.pfree } in
        (call_all due >> (if length due == 10 then again else pure tt)) s'

    pub run_timer_softirq : ℕ → Action (Timers W) (Unit {0})
    run_timer_softirq zero s = spin
    run_timer_softirq (suc fuel) s = elim s.ptimer [
      | [] ↦ ok (tt, s)
      | p ∷ rest ↦
          if ltb s.msec_count p.deadline
          then ok (tt, s)
          else let (due, left) = collect s.msec_count 9 rest in
            fire (run_timer_softirq fuel) (p ∷ due, left) s
    ]

-- `if (0 >= (int)(mon -= 2)) { mon += 12; year -= 1; }` on 32 bits: the month and the year.
abbrev pub shift_month : ℕ → ℕ → ℕ × ℕ
shift_month year0 mon0 =
    let mon = (mon0 + (2 ^ 32 - 2)) % 2 ^ 32 in
    if mon == 0 || leb (2 ^ 31) mon
    then ((mon + 12) % 2 ^ 32, (year0 + (2 ^ 32 - 1)) % 2 ^ 32)
    else (mon, year0)

-- The days, in `unsigned int` up to `day`, then on 64 bits.
abbrev pub count_days : ℕ → ℕ → ℕ → ℕ
count_days year mon day =
    let n =
      (year / 4 + (2 ^ 32 - year / 100) + year / 400 + 367 * mon % 2 ^ 32 / 12 + day) % 2 ^ 32 in
    (n + year * 365 % 2 ^ 32 + (2 ^ 64 - 719499)) % 2 ^ 64

pub mktime64 : ℕ → ℕ → ℕ → ℕ → ℕ → ℕ → ℕ
mktime64 year0 mon0 day hour min sec =
    let (mon, year) = shift_month year0 mon0 in
    (((count_days year mon day * 24 + hour) * 60 + min) * 60 + sec) % 2 ^ 64
