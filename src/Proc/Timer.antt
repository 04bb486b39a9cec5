-- ===== src/Proc/Timer.antt =====
-- src/proc/timer.c without the programming of the chip (`timer_set_cycle`).
pub mod Sleepers
use kernel_legacy.Proc.{Task, Sys, sleep_wq, put_task}
use kernel_legacy.Proc.Sched.{Outcome, ok, panic, schedule}
use kernel_legacy.Proc.WaitQueue.{wq_prepare, wq_finish}
use kernel_legacy.Prelude.{
  ℕ, zero, suc, ◌+◌, ◌-◌, ◌*◌, ◌/◌, ◌%◌, ◌^◌, ◌≤◌, ◌<◌, min, max, bit_and, bit_or, ◌≡◌, refl, sym,
  ap, ap₂, ◌∙◌, fun_ext, ◌≢◌, ◌↔◌, ◌⊎◌, inl, inr, Bool, true, false, not, ◌&&◌, ◌||◌, Option, none,
  some, List, [], ◌∷◌, ◌++◌, map, arith, ltb, leb, ◌==◌, if◌then◌else◌, ltb→lt, lt→ltb, ==→eq,
  eq→==, ne→==, Bool-cases, Option-cases, length, get_or, set, replicate, length-append, length-set,
  length-replicate, get_or-set_self, get_or-set_ne, elem, remove, elem-append, elem-remove,
  remove_of_not_elem, distinct, distinct-remove, distinct-append-one, update,
}

-- `TICKS_PER_SECOND`
abbrev pub ticks_per_second : ℕ
ticks_per_second = 100

-- `entry->task->tick_to_wake <= global_ticks`
abbrev pub is_due : Sys → ℕ → Bool
is_due s t = leb (s.task t).tick_to_wake s.global_ticks

-- The loop of `task_wake_up_sleepers` over the entries that are left. `list_for_each_safe` has read
-- the next entry before `wq_finish` takes this one off the list.
unfoldable pub wake_due : List ℕ → Sys → Sys
wake_due [] s = s
wake_due (t ∷ rest) s = wake_due rest (if is_due s t then wq_finish s t else s)

unfoldable pub task_wake_up_sleepers : Sys → Sys
task_wake_up_sleepers s = wake_due (s.waiters sleep_wq) s

-- `--current->quantum_remaining`, in 32 bits
abbrev pub less_quantum : Sys → Sys
less_quantum s =
    let cur = s.task s.current_task in
    put_task s s.current_task
      (record cur { quantum_remaining = (cur.quantum_remaining + 2 ^ 32 - 1) % 2 ^ 32 })

unfoldable pub timer_handle : Sys → Outcome
timer_handle s =
    let s1 = record s { global_ticks = (s.global_ticks + 1) % 2 ^ 32 } in
    let s2 = task_wake_up_sleepers s1 in
    if s2.current_task == s2.idle_task
    then schedule s2
    else (let s3 = less_quantum s2 in
        if ltb 0 (s3.task s3.current_task).quantum_remaining then ok s3 else schedule s3)

-- `cur->tick_to_wake = tick`
unfoldable pub set_deadline : Sys → ℕ → ℕ → Sys
set_deadline s t tick = put_task s t (record (s.task t) { tick_to_wake = tick })

-- `timer_ksleep` up to its call of `schedule`
unfoldable pub fall_asleep_for : Sys → ℕ → Sys
fall_asleep_for s seconds =
    let deadline = (s.global_ticks + seconds * ticks_per_second % 2 ^ 32) % 2 ^ 32 in
    wq_prepare (set_deadline s s.current_task deadline) sleep_wq s.current_task

unfoldable pub timer_ksleep : Sys → ℕ → Outcome
timer_ksleep s seconds = schedule (fall_asleep_for s seconds)

-- what the sleeper does once it is switched back to
unfoldable pub after_sleep : Sys → Sys
after_sleep s = set_deadline s s.current_task 0
