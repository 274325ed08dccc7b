-- ===== src/Thread/Tests.antt =====
-- Three threads: the idle thread 0, the running thread 1 that it resumed, and thread 2, which has not
-- run yet, is suspended and has a lower priority.
use yaos.Prelude.{ℕ, ◌≡◌, refl, Bool, true, false, none, some, [], ◌∷◌, arith, ◌==◌, if◌then◌else◌}
use yaos.Prelude.Outcome.{ok, halt, ◌>>=◌, ◌>>◌}
use yaos.Thread.{
  Thread, Cpu, ready, run, yield_thread, suspend_thread, resume_thread, wake_up_thread, exit_thread,
}
use yaos.Thread.Chain.{CanRun, IsRunning}
use yaos.Thread.Moves.{Back, suspend_thread-Back, resume-yield}
use yaos.Thread.Wake.{IsWaiting, wake_up-suspend-halts, exit-yield}

abbrev anywhere : ℕ → Bool
anywhere a = true

abbrev idle_thread : Thread
idle_thread = record {
  stack_addr = 4096;
  stack_size = 4096;
  rsp = 8000;
  lvl = 4096;
  suspended = false;
  state = run;
  parent = none;
}

abbrev worker_thread : Thread
worker_thread = record {
  stack_addr = 8192;
  stack_size = 4096;
  rsp = 12000;
  lvl = 512;
  suspended = false;
  state = run;
  parent = some 0;
}

abbrev new_thread : Thread
new_thread = record {
  stack_addr = 12288;
  stack_size = 4096;
  rsp = 0;
  lvl = 2048;
  suspended = true;
  state = ready;
  parent = none;
}

abbrev three_threads : ℕ → Thread
three_threads k = if k == 0 then idle_thread else if k == 1 then worker_thread else new_thread

abbrev small_cpu : Cpu
small_cpu = record { threads = three_threads; current = 1 }

small_cpu-IsRunning : IsRunning anywhere small_cpu (0 ∷ [])
small_cpu-IsRunning = record {
  parents = (refl, refl);
  distinct = ((omega arith, tt), (tt, tt));
  can_run = ((omega arith, refl), tt);
  running = refl;
}

new_thread-CanRun : CanRun anywhere new_thread
new_thread-CanRun = (omega arith, refl)

new_thread-IsWaiting : IsWaiting anywhere small_cpu 2
new_thread-IsWaiting = record {
  other = omega arith;
  begun = refl;
  suspended = refl;
  lower = omega arith;
}

suspend_thread_runs :
    (t : Cpu) × (suspend_thread anywhere 11000 small_cpu ≡ ok (tt, t))
    × Back anywhere 0 11000 [] small_cpu t
    × ((t.threads small_cpu.current).suspended ≡ true)
suspend_thread_runs = suspend_thread-Back anywhere 0 11000 [] small_cpu small_cpu-IsRunning refl

resume-yield_example :
    (t : Cpu) × ((resume_thread anywhere 2 11000 >>= λ alive. yield_thread anywhere 16000) small_cpu
      ≡ ok (tt, t))
    × (t.current ≡ small_cpu.current)
    × IsRunning anywhere t (0 ∷ [])
resume-yield_example =
    resume-yield anywhere 2 11000 (0 ∷ []) small_cpu small_cpu-IsRunning (omega arith) refl
      (omega arith, (omega arith, tt)) new_thread-CanRun refl 16000

wake_up-suspend-halts_example :
    (wake_up_thread anywhere 9 2 11000
        >> suspend_thread anywhere 11500
        >> suspend_thread anywhere 16000)
      small_cpu
    ≡ halt
wake_up-suspend-halts_example =
    wake_up-suspend-halts anywhere 2 0 [] small_cpu small_cpu-IsRunning new_thread-IsWaiting
      (omega arith, tt) new_thread-CanRun 9 11000 11500 16000 refl

exit-yield_example :
    (t : Cpu) × ((exit_thread anywhere 11000 >> yield_thread anywhere 7000) small_cpu ≡ ok (tt, t))
    × (t.current ≡ 0)
    × ((t.threads 0).rsp ≡ (small_cpu.threads 0).rsp)
exit-yield_example = exit-yield anywhere 0 11000 7000 [] small_cpu small_cpu-IsRunning refl
