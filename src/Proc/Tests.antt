-- ===== src/Proc/Tests.antt =====
-- Runs of the process layer, and its theorems at a small system: idle is task 1, kitoxD task 2, task
-- 3 runs with the zombie 4 as its child, task 5 sleeps until tick 70, task 6 is ready.
use kernel_legacy.Prelude.Int.{pos, negsuc}
use kernel_legacy.Proc.{Task, Sys, running, waiting, zombie, interruptible, sleep_wq}
use kernel_legacy.Proc.Sched.{ok, schedule}
use kernel_legacy.Proc.Sched.Safety.{Safe, schedule-Safe}
use kernel_legacy.Proc.Sched.Rounds.{IsArmed, rounds, rounds-current}
use kernel_legacy.Proc.WaitQueue.{wq_prepare, wq_wake_all}
use kernel_legacy.Proc.WaitQueue.Wake.{wq_wake_all-ready}
use kernel_legacy.Proc.Invariant.{IsValid, wq_prepare-IsValid}
use kernel_legacy.Proc.Timer.{task_wake_up_sleepers, is_due}
use kernel_legacy.Proc.Timer.Sleepers.{task_wake_up_sleepers-due}
use kernel_legacy.Proc.Signal.{signal_send, kill_pid}
use kernel_legacy.Proc.Signal.Wakes.{Kills, signal_send-wakes, kill_pid-checks}
use kernel_legacy.Proc.Exit.{waitpid}
use kernel_legacy.Proc.Exit.Reaping.{Sound, waitpid-Sound}
use kernel_legacy.Prelude.{
  ℕ, ◌≡◌, refl, true, false, not, ◌&&◌, ◌||◌, none, some, [], ◌∷◌, arith, elem, update,
}

abbrev base : Task
base = record {
  pid = pos 0;
  uid = 0;
  real_parent = 2;
  state = running;
  need_resched = false;
  exit_code = 0;
  signals_map = 0;
  canary = 0xABADBABE;
  wq_head = none;
  wq_state = interruptible;
  wq_link = none;
  tick_to_wake = 0;
  quantum_remaining = 0;
}

abbrev tasks : ℕ → Task
tasks =
    update
      (update
        (update (λ t. record base { pid = pos t }) 4
          (record base { pid = pos 4; state = zombie; exit_code = 512; real_parent = 3 }))
        5 (record base { pid = pos 5; state = waiting; wq_link = some 0; tick_to_wake = 70 }))
      3 (record base { pid = pos 3; signals_map = 20 })

abbrev sys : Sys
sys = record {
  task = tasks;
  ready_queue = 6 ∷ [];
  waiters = update (λ q. []) 0 (5 ∷ []);
  children = update (λ p. []) 3 (4 ∷ []);
  info_queue = 1 ∷ 2 ∷ 3 ∷ 4 ∷ 5 ∷ 6 ∷ [];
  current_task = 3;
  idle_task = 1;
  dummy_task = 7;
  kitoxd_task = 2;
  global_ticks = 70;
  pid_manager = none;
}

sys-IsValid : IsValid sys
sys-IsValid = record {
  runnable = λ t h. ground arith;
  once = refl;
  not_null = refl;
  queued = λ q t. ground arith;
  queued_once = λ q. ground arith;
  asleep = λ t h. ground arith;
  null_unlinked = refl;
  idle_unlinked = refl;
}

sys-IsArmed : IsArmed sys
sys-IsArmed = record { idle = omega arith; current = omega arith; canaries = λ t. ground arith }

wq_prepare-IsValid_example : IsValid (wq_prepare sys 4 6)
wq_prepare-IsValid_example = wq_prepare-IsValid 4 6 sys-IsValid (omega arith) (omega arith)

schedule-Safe_example : Safe (schedule sys)
schedule-Safe_example = schedule-Safe sys-IsValid

rounds-current_example : (s' : Sys) × (rounds 1 sys ≡ ok s') × (s'.current_task ≡ 6)
rounds-current_example = rounds-current [] 6 [] sys-IsValid sys-IsArmed refl

wq_wake_all-ready_example :
    IsValid (wq_wake_all sys 0)
    × ((wq_wake_all sys 0).waiters 0 ≡ [])
    × ((wq_wake_all sys 0).ready_queue ≡ 6 ∷ 5 ∷ [])
wq_wake_all-ready_example = wq_wake_all-ready 0 sys-IsValid

task_wake_up_sleepers-due_example :
    IsValid (task_wake_up_sleepers sys)
    × ((u : ℕ)
        → elem u ((task_wake_up_sleepers sys).waiters sleep_wq)
          ≡ (elem u (5 ∷ []) && not (is_due sys u)))
    × ((u : ℕ)
        → elem u (task_wake_up_sleepers sys).ready_queue
          ≡ (elem u (6 ∷ []) || (elem u (5 ∷ []) && is_due sys u)))
task_wake_up_sleepers-due_example = task_wake_up_sleepers-due sys-IsValid

signal_send-wakes_example :
    IsValid (signal_send sys 15 5)
    × ((signal_send sys 15 5).ready_queue ≡ 6 ∷ 5 ∷ [])
    × (((signal_send sys 15 5).task 5).state ≡ running)
signal_send-wakes_example =
    signal_send-wakes 5 15 sys-IsValid (omega arith) (omega arith) (omega arith) 0 refl refl

kill_pid-checks_example : Kills sys (pos 5) 9 (kill_pid sys (pos 5) 9)
kill_pid-checks_example = kill_pid-checks sys (pos 5) 9 refl

waitpid-Sound_example : Sound sys (negsuc 0) true true (waitpid sys (negsuc 0) true true)
waitpid-Sound_example = waitpid-Sound sys (negsuc 0) true true refl
