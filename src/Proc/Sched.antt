-- ===== src/Proc/Sched.antt =====
-- src/proc/scheduler.c. `schedule` runs up to `switch_to`; what follows it runs when the task is
-- switched back to.
pub mod Safety
pub mod Rounds
use kernel_legacy.Prelude.Int.{ℤ, pos, negsuc}
use kernel_legacy.Proc.{running, Task, Sys, null, is_running, put_task}
use kernel_legacy.Prelude.{
  ℕ, ◌-◌, Bool, not, ◌&&◌, ◌||◌, [], ◌∷◌, ◌++◌, ◌==◌, if◌then◌else◌, elem, update,
}

-- the reasons for `kpanic` in `schedule` and `do_exit`
pub data Panic : Type 0 where
  idle_not_init no_current exit_of_init : Panic
  stack_overflow not_running : ℕ → Panic

pub data Outcome : Type 0 where
  ok : Sys → Outcome
  panic : Panic → Outcome

abbrev pub einval : ℕ
einval = 22

abbrev pub default_quantum : ℕ
default_quantum = 10

abbrev pub canary_magic : ℕ
canary_magic = 0xABADBABE

-- the state in which `task` has been made runnable at the tail of the ready queue
abbrev pub enqueued : Sys → ℕ → Sys
enqueued s t = record s {
  task = update s.task t (record (s.task t) { state = running });
  ready_queue = s.ready_queue ++ (t ∷ []);
}

unfoldable pub sched_enqueue : Sys → ℕ → ℤ × Sys
sched_enqueue s t =
    if (t == null) || elem t s.ready_queue then (negsuc (einval - 1), s) else (pos 0, enqueued s t)

-- the next task, or NULL, and the state without it
unfoldable pub pick_next : Sys → ℕ × Sys
pick_next s = elim s.ready_queue [
  | [] ↦ (null, s)
  | t ∷ rest ↦ (t, record s { ready_queue = rest })
]

abbrev pub task_stack_overflow : Task → Bool
task_stack_overflow t = not (t.canary == canary_magic)

-- from `task_stack_overflow(next_task)` on
unfoldable pub switch : Sys → ℕ → Outcome
switch s next =
    if task_stack_overflow (s.task next)
    then panic (stack_overflow next)
    else ok (record s {
      current_task = next;
      task = update s.task next (record (s.task next) { quantum_remaining = default_quantum });
    })

-- what is done with the picked task
unfoldable pub dispatch : ℕ × Sys → Outcome
dispatch (next, s) =
    if next == null
    then (if s.current_task == s.idle_task
        then ok s
        else switch (put_task s s.idle_task (record (s.task s.idle_task) { state = running }))
            s.idle_task)
    else (if is_running (s.task next).state then switch s next else panic (not_running next))

-- the current task goes to the tail of the ready queue while it can run
unfoldable pub requeue : Sys → Sys
requeue s =
    let cur = s.current_task in
    if is_running (s.task cur).state && not (cur == s.idle_task) && not (cur == s.dummy_task)
    then (sched_enqueue s cur).1
    else s

unfoldable pub schedule : Sys → Outcome
schedule s =
    if s.idle_task == null
    then panic idle_not_init
    else if s.current_task == null
    then panic no_current
    else if task_stack_overflow (s.task s.current_task)
    then panic (stack_overflow s.current_task)
    else dispatch (pick_next (requeue s))
