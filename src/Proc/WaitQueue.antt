-- ===== src/Proc/WaitQueue.antt =====
-- src/proc/waitqueue.c and the inline functions of include/proc/waitqueue.h. No code of the
-- repository sets a finish handler: `wq_entry_init` writes NULL, so `wq_finish` calls none.
pub mod Wake
use kernel_legacy.Proc.{running, waiting, interruptible, uninterruptible, Sys, linked, put_task}
use kernel_legacy.Proc.Sched.{sched_enqueue}
use kernel_legacy.Prelude.{
  ℕ, zero, suc, true, none, some, [], ◌∷◌, if◌then◌else◌, length, elem, remove, update,
}

-- `pop_node(&task->wq_data.node)`
unfoldable pub unlink : Sys → ℕ → Sys
unlink s t = elim (s.task t).wq_link [
  | none ↦ s
  | some q ↦ record s {
    task = update s.task t (record (s.task t) { wq_link = none });
    waiters = update s.waiters q (remove t (s.waiters q));
  }
]

-- `list_add_head(&task->wq_data.node, &wq->head)`
unfoldable pub link : Sys → ℕ → ℕ → Sys
link s wq t = record s {
  task = update s.task t (record (s.task t) { wq_link = some wq });
  waiters = update s.waiters wq (t ∷ s.waiters wq);
}

-- the three assignments of `wq_prepare`
unfoldable pub fall_asleep : Sys → ℕ → ℕ → Sys
fall_asleep s wq t =
    put_task s t (record (s.task t) { wq_head = some wq; state = waiting; need_resched = true })

-- `if (list_node_is_linked(&task->sched_node)) pop_node(&task->sched_node);`
unfoldable pub leave_ready : Sys → ℕ → Sys
leave_ready s t =
    if elem t s.ready_queue then record s { ready_queue = remove t s.ready_queue } else s

-- the same for `wq_data.node`
unfoldable pub leave_wait : Sys → ℕ → Sys
leave_wait s t = if linked (s.task t).wq_link then unlink s t else s

unfoldable pub wq_prepare : Sys → ℕ → ℕ → Sys
wq_prepare s wq t = link (leave_wait (leave_ready (fall_asleep s wq t) t) t) wq t

-- `wq_entry_init(entry, entry->task, entry->state)`
unfoldable pub wq_entry_init : Sys → ℕ → Sys
wq_entry_init s t = put_task s t (record (s.task t) { wq_head = none; wq_link = none })

-- `entry->task->state = TASK_RUNNING`
unfoldable pub set_running : Sys → ℕ → Sys
set_running s t = put_task s t (record (s.task t) { state = running })

unfoldable pub wq_finish : Sys → ℕ → Sys
wq_finish s t =
    if linked (s.task t).wq_link
    then wq_entry_init (sched_enqueue (set_running (unlink s t) t) t).1 t
    else s

-- `wq_wake_specifiq`
abbrev pub wq_wake_specifiq : Sys → ℕ → Sys
wq_wake_specifiq s t = wq_finish s t

unfoldable pub wq_signal_wake_up : Sys → ℕ → Sys
wq_signal_wake_up s t = elim (s.task t).wq_state [
  | uninterruptible ↦ s
  | interruptible ↦ wq_wake_specifiq s t
]

unfoldable pub wq_wake_one : Sys → ℕ → Sys
wq_wake_one s wq = elim (s.waiters wq) [ [] ↦ s | t ∷ _ ↦ wq_finish s t ]

-- the loop of `wq_wake_all`, for at most so many rounds
unfoldable pub wake_all_loop : ℕ → Sys → ℕ → Sys
wake_all_loop zero s wq = s
wake_all_loop (suc n) s wq = elim (s.waiters wq) [
  | [] ↦ s
  | t ∷ _ ↦ wake_all_loop n (wq_finish s t) wq
]

-- Each round takes one task off the queue, so its length is enough rounds.
unfoldable pub wq_wake_all : Sys → ℕ → Sys
wq_wake_all s wq = wake_all_loop (length (s.waiters wq)) s wq
