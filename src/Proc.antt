-- ===== src/Proc.antt =====
-- The process layer: include/proc/task.h and the queues of src/proc. A task is named by its
-- address, 0 is NULL. A `list_head` queue is the list of its members in `next` order, so
-- `list_node_is_linked` is membership. `wq_link` names the wait queue that `wq_data.node` is
-- linked into, which the C code has in the node's pointers.
pub mod Sched
pub mod WaitQueue
pub mod Invariant
pub mod Keeps
pub mod Timer
pub mod Signal
pub mod Exit
mod Tests
use kernel_legacy.Prelude.Int.{ℤ}
use kernel_legacy.IdManager.{IdManager}
use kernel_legacy.Prelude.{
  ℕ, zero, suc, ◌+◌, ◌-◌, ◌*◌, ◌/◌, ◌%◌, ◌^◌, ◌≤◌, ◌<◌, min, max, bit_and, bit_or, ◌≡◌, refl, sym,
  ap, ap₂, ◌∙◌, fun_ext, ◌≢◌, ◌↔◌, ◌⊎◌, inl, inr, Bool, true, false, not, ◌&&◌, ◌||◌, Option, none,
  some, List, [], ◌∷◌, ◌++◌, map, arith, ltb, leb, ◌==◌, if◌then◌else◌, ltb→lt, lt→ltb, ==→eq,
  eq→==, ne→==, Bool-cases, Option-cases, length, get_or, set, replicate, length-append, length-set,
  length-replicate, get_or-set_self, get_or-set_ne, elem, remove, elem-append, elem-remove,
  remove_of_not_elem, distinct, distinct-remove, distinct-append-one, update,
}

-- `enum process_states`
pub data TaskState : Type 0 where
  new running waiting zombie : TaskState

-- `enum wq_state`
pub data WaitState : Type 0 where
  interruptible uninterruptible : WaitState

-- the fields of `struct task` that the process layer reads and writes; `canary` is what stands at
-- `kernel_stack_pointer`
pub record Task : Type 0 where
  pub pid : ℤ
  pub uid : ℕ
  pub real_parent : ℕ
  pub state : TaskState
  pub need_resched : Bool
  pub exit_code : ℕ
  pub signals_map : ℕ
  pub canary : ℕ
  pub wq_head : Option ℕ
  pub wq_state : WaitState
  pub wq_link : Option ℕ
  pub tick_to_wake : ℕ
  pub quantum_remaining : ℕ

-- The globals: `ready_queue`, `info_queue`, every wait queue by its address, every task's
-- `children`, the distinguished tasks, `global_ticks` and `pid_manager`.
pub record Sys : Type 0 where
  pub task : ℕ → Task
  pub ready_queue : List ℕ
  pub waiters : ℕ → List ℕ
  pub children : ℕ → List ℕ
  pub info_queue : List ℕ
  pub current_task : ℕ
  pub idle_task : ℕ
  pub dummy_task : ℕ
  pub kitoxd_task : ℕ
  pub global_ticks : ℕ
  pub pid_manager : Option IdManager

abbrev pub null : ℕ
null = 0

-- The wait queues are numbered: `sleep_wq` of the timer, and the `child_wq` of each task.
abbrev pub sleep_wq : ℕ
sleep_wq = 0

abbrev pub child_wq : ℕ → ℕ
child_wq t = suc t

abbrev pub is_running : TaskState → Bool
is_running running = true
is_running _ = false

abbrev pub is_zombie : TaskState → Bool
is_zombie zombie = true
is_zombie _ = false

abbrev pub linked : Option ℕ → Bool
linked none = false
linked (some _) = true

-- whether a node's link leads into queue `q`
abbrev pub on_queue : Option ℕ → ℕ → Bool
on_queue none q = false
on_queue (some p) q = p == q

abbrev pub put_task : Sys → ℕ → Task → Sys
put_task s t a = record s { task = update s.task t a }
