-- ===== src/Proc/Invariant.antt =====
-- The invariant of the queues, and that enqueueing, sleeping and waking keep it.
use kernel_legacy.Proc.{running, waiting, Task, Sys, null, linked, on_queue, put_task}
use kernel_legacy.Proc.Sched.{enqueued, sched_enqueue}
use kernel_legacy.Proc.WaitQueue.{
  unlink, link, fall_asleep, leave_ready, leave_wait, set_running, wq_prepare, wq_entry_init,
  wq_finish,
}
use kernel_legacy.Prelude.{
  ℕ, ◌≡◌, refl, ◌∙◌, ◌≢◌, inl, inr, true, false, ◌||◌, none, some, [], ◌∷◌, ◌++◌, arith, ◌==◌,
  Bool-cases, Option-cases, elem, remove, elem-append, elem-remove, distinct, distinct-remove,
  distinct-append-one,
}

-- The ready queue holds running tasks, each once; a wait queue holds each task at most once, and
-- exactly the tasks that are linked into it; a task linked into a wait queue is waiting, and the
-- idle task never is.
pub record IsValid (s : Sys) : Type 0 where
  pub runnable : (t : ℕ) → elem t s.ready_queue ≡ true → (s.task t).state ≡ running
  pub once : distinct s.ready_queue ≡ true
  pub not_null : elem null s.ready_queue ≡ false
  pub queued : (q t : ℕ) → elem t (s.waiters q) ≡ on_queue (s.task t).wq_link q
  pub queued_once : (q : ℕ) → distinct (s.waiters q) ≡ true
  pub asleep : (t : ℕ) → linked (s.task t).wq_link ≡ true → (s.task t).state ≡ waiting
  pub null_unlinked : linked (s.task null).wq_link ≡ false
  pub idle_unlinked : linked (s.task s.idle_task).wq_link ≡ false

-- A task whose state is set to running while it is on no wait queue
put-running :
    {s : Sys} (t : ℕ) (a : Task)
    → IsValid s
    → a.state ≡ running
    → a.wq_link ≡ none
    → linked (s.task t).wq_link ≡ false
    → IsValid (put_task s t a)
put-running {s} t a v run out off = record {
  runnable = λ u h. ground (arith, v.runnable u);
  once = v.once;
  not_null = v.not_null;
  queued = λ q u. ground (arith, v.queued q u);
  queued_once = v.queued_once;
  asleep = λ u h. ground (arith, v.asleep u);
  null_unlinked = ground (arith, v.null_unlinked);
  idle_unlinked = ground (arith, v.idle_unlinked);
}

-- A task that changes neither its state nor its wait queue
pub put_task-IsValid :
    {s : Sys} (t : ℕ) (a : Task)
    → IsValid s
    → a.state ≡ (s.task t).state
    → a.wq_link ≡ (s.task t).wq_link
    → IsValid (put_task s t a)
put_task-IsValid {s} t a v same link = record {
  runnable = λ u h. ground (arith, v.runnable u);
  once = v.once;
  not_null = v.not_null;
  queued = λ q u. ground (arith, v.queued q u);
  queued_once = v.queued_once;
  asleep = λ u h. ground (arith, v.asleep u);
  null_unlinked = ground (arith, v.null_unlinked);
  idle_unlinked = ground (arith, v.idle_unlinked);
}

pub enqueued-IsValid :
    {s : Sys} (t : ℕ)
    → IsValid s
    → t ≢ null
    → elem t s.ready_queue ≡ false
    → linked (s.task t).wq_link ≡ false
    → IsValid (enqueued s t)
enqueued-IsValid {s} t v ne out off = record {
  runnable = λ u h. ground (arith, v.runnable u, elem-append u s.ready_queue (t ∷ []));
  once = distinct-append-one t s.ready_queue v.once out;
  not_null = ground (arith, v.not_null, elem-append null s.ready_queue (t ∷ []));
  queued = λ q u. ground (arith, v.queued q u);
  queued_once = v.queued_once;
  asleep = λ u h. ground (arith, v.asleep u);
  null_unlinked = ground (arith, v.null_unlinked);
  idle_unlinked = ground (arith, v.idle_unlinked);
}

-- Taking a linked task off its wait queue
pub unlink-IsValid :
    {s : Sys} (t q : ℕ) → IsValid s → (s.task t).wq_link ≡ some q → IsValid (unlink s t)
unfolding unlink
unlink-IsValid {s} t q v e =
    rw (e, unlink)
      (record {
        runnable = λ u h. ground (arith, v.runnable u);
        once = v.once;
        not_null = v.not_null;
        queued = λ p u. ground (arith, v.queued p u, elem-remove u t (s.waiters q));
        queued_once = λ p. ground (arith, v.queued_once p, distinct-remove t (s.waiters q));
        asleep = λ u h. ground (arith, v.asleep u);
        null_unlinked = ground (arith, v.null_unlinked);
        idle_unlinked = ground (arith, v.idle_unlinked);
      })

pub leave_wait-IsValid : {s : Sys} (t : ℕ) → IsValid s → IsValid (leave_wait s t)
unfolding leave_wait
leave_wait-IsValid {s} t v = elim (Option-cases (s.task t).wq_link) [
  | inl off ↦ rw (off, leave_wait) v
  | inr (q, on) ↦ rw (on, leave_wait) (unlink-IsValid t q v on)
]

-- A task that is set waiting and taken off the ready queue
drowsy-IsValid : {s : Sys} (wq t : ℕ) → IsValid s → IsValid (leave_ready (fall_asleep s wq t) t)
unfolding leave_ready fall_asleep
drowsy-IsValid {s} wq t v = elim (Bool-cases (elem t s.ready_queue)) [
  | inl here ↦ rw here (record {
    runnable = λ u h. ground (arith, v.runnable u, elem-remove u t s.ready_queue);
    once = distinct-remove t s.ready_queue v.once;
    not_null = ground (arith, v.not_null, elem-remove null t s.ready_queue);
    queued = λ q u. ground (arith, v.queued q u);
    queued_once = v.queued_once;
    asleep = λ u h. ground (arith, v.asleep u);
    null_unlinked = ground (arith, v.null_unlinked);
    idle_unlinked = ground (arith, v.idle_unlinked);
  })
  | inr away ↦ rw away (record {
    runnable = λ u h. ground (arith, v.runnable u);
    once = v.once;
    not_null = v.not_null;
    queued = λ q u. ground (arith, v.queued q u);
    queued_once = v.queued_once;
    asleep = λ u h. ground (arith, v.asleep u);
    null_unlinked = ground (arith, v.null_unlinked);
    idle_unlinked = ground (arith, v.idle_unlinked);
  })
]

link-IsValid :
    {s : Sys} (wq t : ℕ)
    → IsValid s
    → t ≢ null
    → t ≢ s.idle_task
    → (s.task t).wq_link ≡ none
    → (s.task t).state ≡ waiting
    → IsValid (link s wq t)
unfolding link
link-IsValid {s} wq t v ne busy off still = record {
  runnable = λ u h. ground (arith, v.runnable u);
  once = v.once;
  not_null = v.not_null;
  queued = λ q u. ground (arith, v.queued q u);
  queued_once = λ q. ground (arith, v.queued_once q, v.queued wq t);
  asleep = λ u h. ground (arith, v.asleep u);
  null_unlinked = ground (arith, v.null_unlinked);
  idle_unlinked = ground (arith, v.idle_unlinked);
}

state-drowsy : (s : Sys) (wq t : ℕ) → ((leave_ready (fall_asleep s wq t) t).task t).state ≡ waiting
unfolding leave_ready fall_asleep
state-drowsy s wq t = ground arith

leave_wait-task :
    (s : Sys) (t : ℕ)
    → (((leave_wait s t).task t).wq_link ≡ none)
      × (((leave_wait s t).task t).state ≡ (s.task t).state)
      × ((leave_wait s t).idle_task ≡ s.idle_task)
unfolding leave_wait unlink
leave_wait-task s t = elim (Option-cases (s.task t).wq_link) [
  | inl off ↦ rw (off, leave_wait) (off, refl, refl)
  | inr (q, on) ↦ rw (on, leave_wait, unlink) (ground arith)
]

idle-drowsy : (s : Sys) (wq t : ℕ) → (leave_ready (fall_asleep s wq t) t).idle_task ≡ s.idle_task
unfolding leave_ready fall_asleep
idle-drowsy s wq t = ground arith

-- `wq_prepare` of a task other than idle keeps the invariant, whatever queue it was on before.
pub wq_prepare-IsValid :
    {s : Sys} (wq t : ℕ) → IsValid s → t ≢ null → t ≢ s.idle_task → IsValid (wq_prepare s wq t)
unfolding wq_prepare
wq_prepare-IsValid {s} wq t v ne busy =
    let task = leave_wait-task (leave_ready (fall_asleep s wq t) t) t in
    link-IsValid wq t (leave_wait-IsValid t (drowsy-IsValid wq t v)) ne
      (rw (task.2, idle-drowsy s wq t) busy) task.0 (task.1 ∙ state-drowsy s wq t)

-- A linked task is not in the ready queue.
pub asleep-not-ready :
    {s : Sys} (t q : ℕ)
    → IsValid s
    → (s.task t).wq_link ≡ some q
    → (t ≢ null) × (elem t s.ready_queue ≡ false)
asleep-not-ready {s} t q v on =
    (ground (arith, v.null_unlinked), ground (arith, v.runnable t, v.asleep t))

pub sched_enqueue-IsValid :
    {s : Sys} (t : ℕ)
    → IsValid s
    → (s.task t).wq_link ≡ none
    → IsValid (sched_enqueue s t).1 × (((sched_enqueue s t).1.task t).wq_link ≡ none)
unfolding sched_enqueue
sched_enqueue-IsValid {s} t v off = elim (Bool-cases ((t == null) || elem t s.ready_queue)) [
  | inl refused ↦ rw refused (v, off)
  | inr fine ↦
      rw fine (enqueued-IsValid t v (ground arith) (ground arith) (rw off refl), ground arith)
]

set_running-IsValid :
    {s : Sys} (t : ℕ)
    → IsValid s
    → (s.task t).wq_link ≡ none
    → IsValid (set_running s t) × (((set_running s t).task t).wq_link ≡ none)
unfolding set_running
set_running-IsValid {s} t v off =
    (put-running t (record (s.task t) { state = running }) v refl off (rw off refl), ground arith)

wq_entry_init-IsValid :
    {s : Sys} (t : ℕ) → IsValid s → (s.task t).wq_link ≡ none → IsValid (wq_entry_init s t)
unfolding wq_entry_init
wq_entry_init-IsValid {s} t v off = record {
  runnable = λ u h. ground (arith, v.runnable u);
  once = v.once;
  not_null = v.not_null;
  queued = λ q u. ground (arith, v.queued q u);
  queued_once = v.queued_once;
  asleep = λ u h. ground (arith, v.asleep u);
  null_unlinked = ground (arith, v.null_unlinked);
  idle_unlinked = ground (arith, v.idle_unlinked);
}

wq_link-unlink : (s : Sys) (t : ℕ) → ((unlink s t).task t).wq_link ≡ none
unfolding unlink
wq_link-unlink s t = elim (Option-cases (s.task t).wq_link) [
  | inl off ↦ rw (off, unlink) off
  | inr (q, on) ↦ rw (on, unlink) (ground arith)
]

-- `wq_finish` keeps the invariant.
pub wq_finish-IsValid : {s : Sys} (t : ℕ) → IsValid s → IsValid (wq_finish s t)
unfolding wq_finish
wq_finish-IsValid {s} t v = elim (Option-cases (s.task t).wq_link) [
  | inl off ↦ rw (off, wq_finish) v
  | inr (q, on) ↦
      let up = set_running-IsValid t (unlink-IsValid t q v on) (wq_link-unlink s t) in
      let ready = sched_enqueue-IsValid t up.0 up.1 in
      rw (on, wq_finish) (wq_entry_init-IsValid t ready.0 ready.1)
]

-- `wq_finish` of a task on wait queue `q` moves it to the tail of the ready queue.
pub wq_finish-moves :
    {s : Sys} (t q : ℕ)
    → IsValid s
    → (s.task t).wq_link ≡ some q
    → ((wq_finish s t).ready_queue ≡ s.ready_queue ++ (t ∷ []))
      × ((wq_finish s t).waiters q ≡ remove t (s.waiters q))
      × (((wq_finish s t).task t).state ≡ running)
unfolding wq_finish wq_entry_init set_running sched_enqueue unlink
wq_finish-moves {s} t q v on =
    let (ne, out) = asleep-not-ready t q v on in
    let fine : ((t == null) || elem t s.ready_queue) ≡ false = ground arith in
    rw (on, unlink, fine) (refl {a = s.ready_queue ++ (t ∷ [])}, ground arith, ground arith)
