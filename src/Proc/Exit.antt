-- ===== src/Proc/Exit.antt =====
-- src/syscalls/exit.c and waitpid.c, with `__task_reparent_children` and `task_release` of
-- src/proc/task.c. The memory that a task holds (its address space, stack and `struct task`) is
-- not part of this state.
pub mod Orphans
pub mod Reaping
use kernel_legacy.Prelude.Int.{ℤ, pos, negsuc}
use kernel_legacy.IdManager
use kernel_legacy.IdManager.{to_size}
use kernel_legacy.Proc.{TaskState, zombie, Task, Sys, null, is_zombie, child_wq, put_task}
use kernel_legacy.Proc.Sched.{Outcome, ok, panic, exit_of_init, schedule}
use kernel_legacy.Proc.WaitQueue.{leave_ready, wq_prepare, wq_wake_all}
use kernel_legacy.Proc.Signal.{eq_pid, minus, einval}
use kernel_legacy.Prelude.{
  ℕ, zero, suc, ◌+◌, ◌-◌, ◌*◌, ◌/◌, ◌%◌, ◌^◌, ◌≤◌, ◌<◌, min, max, bit_and, bit_or, ◌≡◌, refl, sym,
  ap, ap₂, ◌∙◌, fun_ext, ◌≢◌, ◌↔◌, ◌⊎◌, inl, inr, Bool, true, false, not, ◌&&◌, ◌||◌, Option, none,
  some, List, [], ◌∷◌, ◌++◌, map, arith, ltb, leb, ◌==◌, if◌then◌else◌, ltb→lt, lt→ltb, ==→eq,
  eq→==, ne→==, Bool-cases, Option-cases, length, get_or, set, replicate, length-append, length-set,
  length-replicate, get_or-set_self, get_or-set_ne, elem, remove, elem-append, elem-remove,
  remove_of_not_elem, distinct, distinct-remove, distinct-append-one, update,
}

abbrev pub echild : ℕ
echild = 10

abbrev pub efault : ℕ
efault = 14

-- one round of the loop: the first child becomes a child of kitoxD
unfoldable pub adopt : Sys → ℕ → ℕ → List ℕ → Sys
adopt s parent child rest =
    let s1 = put_task s child (record (s.task child) { real_parent = s.kitoxd_task }) in
    let left = update s1.children parent rest in
    record s1 { children = update left s1.kitoxd_task (child ∷ left s1.kitoxd_task) }

-- the loop, over the children that are left
unfoldable pub reparent_loop : List ℕ → Sys → ℕ → Sys
reparent_loop [] s parent = s
reparent_loop (child ∷ rest) s parent = reparent_loop rest (adopt s parent child rest) parent

unfoldable pub task_reparent_children : Sys → ℕ → Sys
task_reparent_children s parent =
    if (s.kitoxd_task == null) || (parent == s.kitoxd_task)
    then s
    else reparent_loop (s.children parent) s parent

-- `(status & 0xff) << 8`
abbrev pub exit_status : ℕ → ℕ
exit_status status = status % 256 * 256

-- `cur_task->exit_code = (status & 0xff) << 8`
unfoldable pub set_exit_code : Sys → ℕ → ℕ → Sys
set_exit_code s t status = put_task s t (record (s.task t) { exit_code = exit_status status })

-- `cur_task->state = TASK_ZOMBIE`
unfoldable pub set_zombie : Sys → ℕ → Sys
set_zombie s t = put_task s t (record (s.task t) { state = zombie })

-- `do_exit` up to its call of `schedule`
unfoldable pub leave : Sys → ℕ → Sys
leave s status =
    let cur = s.current_task in
    let parent = (s.task cur).real_parent in
    let s1 = leave_ready (set_exit_code s cur status) cur in
    wq_wake_all (set_zombie (task_reparent_children s1 cur) cur) (child_wq parent)

unfoldable pub do_exit : Sys → ℕ → Outcome
do_exit s status =
    if (s.current_task == s.idle_task) || (s.current_task == s.kitoxd_task)
    then panic exit_of_init
    else schedule (leave s status)

-- `pid == -1`
abbrev pub any_child : ℤ → Bool
any_child (pos n) = false
any_child (negsuc n) = n == 0

abbrev pub is_positive : ℤ → Bool
is_positive (pos n) = ltb 0 n
is_positive (negsuc n) = false

-- `pid == 0 || pid < -1`
abbrev pub bad_pid : ℤ → Bool
bad_pid (pos n) = n == 0
bad_pid (negsuc n) = ltb 0 n

-- `find_zombie_child`, over what is left of the children
unfoldable pub find_zombie_child : Sys → ℤ → List ℕ → ℕ
find_zombie_child s pid [] = null
find_zombie_child s pid (t ∷ rest) =
    let later = find_zombie_child s pid rest in
    if is_zombie (s.task t).state && (any_child pid || eq_pid (s.task t).pid pid) then t else later

-- `task_has_child_pid`, over what is left of the children
unfoldable pub task_has_child_pid : Sys → ℤ → List ℕ → Bool
task_has_child_pid s pid [] = false
task_has_child_pid s pid (t ∷ rest) =
    let later = task_has_child_pid s pid rest in if eq_pid (s.task t).pid pid then true else later

-- A task's `siblings` node is linked into the children of one task.
unfoldable pub task_release : Sys → ℕ → Sys
task_release s t = record s {
  children = λ p. remove t (s.children p);
  info_queue = remove t s.info_queue;
  pid_manager = IdManager.free s.pid_manager (to_size (s.task t).pid);
}

-- How a round of the loop of `waitpid` ends: it returns a code, it returns the pid of a reaped task
-- with the exit code stored for the caller, or it goes to sleep and starts over once it is woken.
pub data WaitEnd : Type 0 where
  fails : ℤ → Sys → WaitEnd
  reaps : (pid : ℤ) → (stored : Option ℕ) → Sys → WaitEnd
  sleeps : Outcome → WaitEnd

-- `wq_prepare(&cur_task->child_wq, cur_task); schedule();`
abbrev pub sleep_on_children : Sys → WaitEnd
sleep_on_children s = sleeps (schedule (wq_prepare s (child_wq s.current_task) s.current_task))

-- what is done with a zombie child; `copied` tells whether `copy_to_user` succeeds
unfoldable pub reap : Sys → (wants_status copied : Bool) → ℕ → WaitEnd
reap s wants_status copied t =
    let code = (s.task t).exit_code in
    if wants_status && not copied
    then fails (minus efault) s
    else reaps (s.task t).pid (if wants_status then some code else none) (task_release s t)

-- one round of the loop
unfoldable pub wait_round : Sys → ℤ → (wants_status copied : Bool) → WaitEnd
wait_round s pid wants_status copied = elim (s.children s.current_task) [
  | [] ↦ if s.current_task == s.kitoxd_task then sleep_on_children s else fails (minus echild) s
  | c ∷ rest ↦
      let children = c ∷ rest in
      if is_positive pid && not (task_has_child_pid s pid children)
      then fails (minus echild) s
      else (let t = find_zombie_child s pid children in
          if t == null then sleep_on_children s else reap s wants_status copied t)
]

unfoldable pub waitpid : Sys → ℤ → (wants_status copied : Bool) → WaitEnd
waitpid s pid wants_status copied =
    if bad_pid pid then fails (minus einval) s else wait_round s pid wants_status copied
