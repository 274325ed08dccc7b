-- ===== src/Softirq.antt =====
-- Soft interrupts and tasklets on one processor, kernel/tasklet.c and include/yaos/tasklet.h.
--
-- A tasklet is known by a number. The queues are what the C code keeps: a head, and a tail that points
-- at the slot where the next tasklet is linked. `tasklet_count` is one more than the source's, which
-- starts at −1. `pending` has the lowest bit first. Parameters are the functions of the tasklets, the
-- handlers of other files, and `switch`: all that happens when `wake_up_thread` switches to the tasklet
-- thread, until control is back.

pub mod Queue
pub mod Schedule
pub mod Serve
use yaos.Prelude.{
  ℕ, zero, suc, ◌+◌, ◌-◌, ◌%◌, ◌^◌, Bool, true, false, not, ◌&&◌, ◌||◌, Option, none, some, List,
  [], ◌∷◌, length, get_or, set, replicate, ltb, ◌==◌, if◌then◌else◌,
}
use yaos.Prelude.Outcome.{Outcome, ok, halt, spin, Action, ◌>>=◌, ◌>>◌, pure, assert}
use yaos.Bitmap.{Word, nonzero, ffs}

pub record Tasklet : Type 0 where
  pub next : Option ℕ
  pub sched : Bool  -- the bit TASKLET_STATE_SCHED of `state`
  pub running : Bool  -- the bit TASKLET_STATE_RUN
  pub count : ℕ
  pub func : ℕ
  pub datum : ℕ

-- where a pointer to a link points
pub data Slot : Type 0 where
  head_slot : Slot
  next_of : ℕ → Slot

pub record TaskletHead : Type 0 where
  pub head : Option ℕ
  pub tail : Slot

-- `tasklet_vec` and `tasklet_hi_vec`
pub record TaskletVecs : Type 0 where
  pub low : TaskletHead
  pub hi : TaskletHead

-- what `open_softirq` registers
pub data Handler : Type 0 where
  on_tasklet on_hi_tasklet : Handler
  external : ℕ → Handler

pub record Softirqs (W : Type 0) : Type 0 where
  pub softirq_pending : Word
  pub irqs : Bool
  pub tasklet_count : ℕ
  pub suspended : Bool  -- THREAD_SUSPEND of the tasklet thread
  pub msec_count : ℕ
  pub softirq_vec : List (Option Handler)
  pub tasklets : ℕ → Tasklet
  pub vecs : TaskletVecs
  pub world : W

abbrev pub hi_softirq : ℕ
hi_softirq = 0

abbrev pub tasklet_softirq : ℕ
tasklet_softirq = 6

abbrev pub max_softirq_time : ℕ
max_softirq_time = 2

abbrev pub max_softirq_restart : ℕ
max_softirq_restart = 10

-- `pending >>= n`; what stands beyond the end of the list is 0.
abbrev pub shift_right : ℕ → Word → Word
shift_right zero w = w
shift_right (suc n) [] = []
shift_right (suc n) (b ∷ w) = shift_right n w

abbrev pub put : (ℕ → Tasklet) → ℕ → Tasklet → ℕ → Tasklet
put f k t j = if k == j then t else f j

-- a write to fields of the tasklet `t`
abbrev pub modify : {W : Type 0} → ℕ → (Tasklet → Tasklet) → Softirqs W → Softirqs W
modify t g s = record s { tasklets = put s.tasklets t (g (s.tasklets t)) }

abbrev pub softirq_of : Bool → ℕ
softirq_of false = tasklet_softirq
softirq_of true = hi_softirq

abbrev pub vec_of : Bool → TaskletVecs → TaskletHead
vec_of false q = q.low
vec_of true q = q.hi

abbrev pub set_vec : Bool → TaskletHead → TaskletVecs → TaskletVecs
set_vec false v q = record q { low = v }
set_vec true v q = record q { hi = v }

-- `*tail = t`: what it changes of the links, and of the heads
abbrev pub store_next : Slot → ℕ → (ℕ → Tasklet) → ℕ → Tasklet
store_next head_slot t f = f
store_next (next_of k) t f = put f k (record (f k) { next = some t })

abbrev pub store_head : Slot → ℕ → TaskletHead → TaskletHead
store_head head_slot t v = record v { head = some t }
store_head (next_of k) t v = v

abbrev pub empty_queue : TaskletHead
empty_queue = record { head = none; tail = head_slot }

module _ {W : Type 0} where
  abbrev pub in_tasklet : Softirqs W → Bool
  in_tasklet s = not (s.tasklet_count == 0)

  abbrev pub local_irq_disable : Softirqs W → Softirqs W
  local_irq_disable s = record s { irqs = false }

  abbrev pub local_irq_enable : Softirqs W → Softirqs W
  local_irq_enable s = record s { irqs = true }

  abbrev pub set_softirq_pending : Word → Softirqs W → Softirqs W
  set_softirq_pending w s = record s { softirq_pending = w }

  abbrev pub __raise_softirq_irqoff : ℕ → Softirqs W → Softirqs W
  __raise_softirq_irqoff nr s = set_softirq_pending (set s.softirq_pending nr true) s

  pub open_softirq : ℕ → Handler → Softirqs W → Softirqs W
  open_softirq nr action s = record s { softirq_vec = set s.softirq_vec nr (some action) }

  -- `t->next = NULL; *tail = t; tail = &(t->next);`
  pub link_last : Bool → ℕ → Softirqs W → Softirqs W
  link_last hi t s =
      let v : TaskletHead = vec_of hi s.vecs in
      let cleared : ℕ → Tasklet = put s.tasklets t (record (s.tasklets t) { next = none }) in
      record s {
        tasklets = store_next v.tail t cleared;
        vecs = set_vec hi (record (store_head v.tail t v) { tail = next_of t }) s.vecs;
      }

  pub tasklet_init : ℕ → ℕ → ℕ → Softirqs W → Softirqs W
  tasklet_init t func datum s =
      modify t
        (λ x. record {
          next = none;
          sched = false;
          running = false;
          count = 0;
          func = func;
          datum = datum;
        })
        s

  pub softirq_init : Softirqs W → Softirqs W
  softirq_init s =
      let s1 : Softirqs W = record s {
        vecs = record {
          low = record s.vecs.low { tail = head_slot };
          hi = record s.vecs.hi { tail = head_slot };
        };
      } in
      open_softirq hi_softirq on_hi_tasklet (open_softirq tasklet_softirq on_tasklet s1)

  -- `BUG_ON(!irqs_disabled())`, and the link before the head
  pub __tasklet_hi_schedule_first : ℕ → Action (Softirqs W) (Unit {0})
  __tasklet_hi_schedule_first t s =
      (do
        assert (not s.irqs)
        let s1 : Softirqs W = modify t (λ x. record x { next = s.vecs.hi.head }) s
        let s2 : Softirqs W = record s1 {
          vecs = record s1.vecs { hi = record s1.vecs.hi { head = some t } };
        }
        λ _. ok (tt, __raise_softirq_irqoff hi_softirq s2))
        s

  -- `if (!test_and_set_bit(TASKLET_STATE_SCHED, &t->state)) …`
  pub schedule_by : (ℕ → Action (Softirqs W) (Unit {0})) → ℕ → Action (Softirqs W) (Unit {0})
  schedule_by go t s =
      if (s.tasklets t).sched
      then ok (tt, s)
      else go t (modify t (λ x. record x { sched = true }) s)

  pub tasklet_hi_schedule_first : ℕ → Action (Softirqs W) (Unit {0})
  tasklet_hi_schedule_first t s = schedule_by __tasklet_hi_schedule_first t s

  pub tasklet_disable_nosync : ℕ → Softirqs W → Softirqs W
  tasklet_disable_nosync t s = modify t (λ x. record x { count = (x.count + 1) % 2 ^ 32 }) s

  -- The wait for a tasklet that runs does not end on one processor.
  pub tasklet_disable : ℕ → Action (Softirqs W) (Unit {0})
  tasklet_disable t s =
      let s1 = tasklet_disable_nosync t s in if (s1.tasklets t).running then spin else ok (tt, s1)

  pub tasklet_enable : ℕ → Softirqs W → Softirqs W
  tasklet_enable t s = modify t (λ x. record x { count = (x.count + (2 ^ 32 - 1)) % 2 ^ 32 }) s

  -- `flags = local_irq_save(); …; local_irq_restore(flags);`
  abbrev pub with_irqs_saved : Action (Softirqs W) (Unit {0}) → Action (Softirqs W) (Unit {0})
  with_irqs_saved m s = (m >> λ s'. ok (tt, record s' { irqs = s.irqs })) (local_irq_disable s)

  module _ (switch : Action (Softirqs W) (Unit {0})) where
    pub wakeup_taskletd : Action (Softirqs W) (Unit {0})
    wakeup_taskletd s = if s.suspended then switch s else ok (tt, s)

    pub raise_softirq_irqoff : ℕ → Action (Softirqs W) (Unit {0})
    raise_softirq_irqoff nr s =
        let s1 : Softirqs W = __raise_softirq_irqoff nr s in
        if in_tasklet s1 then ok (tt, s1) else wakeup_taskletd s1

    pub raise_softirq : ℕ → Action (Softirqs W) (Unit {0})
    raise_softirq nr s = with_irqs_saved (raise_softirq_irqoff nr) s

    -- `__tasklet_schedule` and, for `true`, `__tasklet_hi_schedule`
    pub __tasklet_schedule : Bool → ℕ → Action (Softirqs W) (Unit {0})
    __tasklet_schedule hi t s =
        with_irqs_saved (λ s'. raise_softirq_irqoff (softirq_of hi) (link_last hi t s')) s

    pub tasklet_schedule : Bool → ℕ → Action (Softirqs W) (Unit {0})
    tasklet_schedule hi t s = schedule_by (__tasklet_schedule hi) t s
