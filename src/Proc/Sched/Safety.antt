-- ===== src/Proc/Sched/Safety.antt =====
-- `schedule` keeps the invariant, and never finds a task in the ready queue that cannot run.
use kernel_legacy.Proc.{running, Sys, null, is_running, put_task}
use kernel_legacy.Proc.Sched.{
  Outcome, ok, panic, idle_not_init, no_current, exit_of_init, stack_overflow, not_running,
  pick_next, task_stack_overflow, switch, dispatch, requeue, schedule,
}
use kernel_legacy.Proc.Invariant.{IsValid, sched_enqueue-IsValid}
use kernel_legacy.Prelude.{
  ℕ, ◌≡◌, refl, ◌≢◌, inl, inr, true, false, not, ◌&&◌, none, List, [], ◌∷◌, arith, ◌==◌, ne→==,
  Bool-cases, Option-cases, elem, distinct,
}

-- what `schedule` may end in
abbrev pub Safe : Outcome → Type 0
Safe (ok s) = IsValid s
Safe (panic idle_not_init) = Unit {0}
Safe (panic no_current) = Unit {0}
Safe (panic exit_of_init) = Unit {0}
Safe (panic (stack_overflow t)) = Unit {0}
Safe (panic (not_running t)) = ⊥

pub unlinked_of_running :
    {s : Sys} (t : ℕ) → IsValid s → is_running (s.task t).state ≡ true → (s.task t).wq_link ≡ none
unlinked_of_running {s} t v h = elim (Option-cases (s.task t).wq_link) [
  | inl off ↦ off
  | inr (q, on) ↦ absurd (ground (arith, v.asleep t))
]

pub requeue-IsValid : {s : Sys} → IsValid s → IsValid (requeue s)
unfolding requeue
requeue-IsValid {s} v =
    elim (Bool-cases (
      is_running (s.task s.current_task).state
      && not (s.current_task == s.idle_task)
      && not (s.current_task == s.dummy_task))) [
        | inl again ↦ rw again (
            (sched_enqueue-IsValid s.current_task v
              (unlinked_of_running s.current_task v (ground arith))).0)
        | inr rests ↦ rw rests v
      ]

switch-Safe : {s : Sys} (next : ℕ) → IsValid s → Safe (switch s next)
unfolding switch
switch-Safe {s} next v = elim (Bool-cases (task_stack_overflow (s.task next))) [
  | inl over ↦ rw over tt
  | inr fine ↦ rw fine (record {
    runnable = λ u h. ground (arith, v.runnable u);
    once = v.once;
    not_null = v.not_null;
    queued = λ q u. ground (arith, v.queued q u);
    queued_once = v.queued_once;
    asleep = λ u h. ground (arith, v.asleep u);
    null_unlinked = ground (arith, v.null_unlinked);
    idle_unlinked = ground (arith, v.idle_unlinked);
  })
]

idle-IsValid :
    {s : Sys}
    → IsValid s
    → IsValid (put_task s s.idle_task (record (s.task s.idle_task) { state = running }))
idle-IsValid {s} v = record {
  runnable = λ u h. ground (arith, v.runnable u);
  once = v.once;
  not_null = v.not_null;
  queued = λ q u. ground (arith, v.queued q u);
  queued_once = v.queued_once;
  asleep = λ u h. ground (arith, v.asleep u, v.idle_unlinked);
  null_unlinked = ground (arith, v.null_unlinked);
  idle_unlinked = ground (arith, v.idle_unlinked);
}

dispatch-null-Safe : {s : Sys} → IsValid s → Safe (dispatch (null, s))
unfolding dispatch
dispatch-null-Safe {s} v = elim (Bool-cases (s.current_task == s.idle_task)) [
  | inl idle ↦ rw idle v
  | inr busy ↦ rw busy (switch-Safe s.idle_task (idle-IsValid v))
]

dispatch_task-Safe :
    {s : Sys} (t : ℕ) → IsValid s → t ≢ null → (s.task t).state ≡ running → Safe (dispatch (t, s))
unfolding dispatch
dispatch_task-Safe {s} t v ne e = rw (ne→== t null ne, e) (switch-Safe t v)

pub rest-IsValid :
    {s : Sys} (t : ℕ) (rest : List ℕ)
    → IsValid s
    → s.ready_queue ≡ t ∷ rest
    → IsValid (record s { ready_queue = rest }) × (t ≢ null) × ((s.task t).state ≡ running)
rest-IsValid {s} t rest v e =
    let once : distinct (t ∷ rest) ≡ true = rw e at v.once in
    let no_null : elem null (t ∷ rest) ≡ false = rw e at v.not_null in
    let here : elem t s.ready_queue ≡ true = rw e (ground arith) in
    (
      record {
        runnable = λ u h. v.runnable u (rw e (ground arith));
        once = ground arith;
        not_null = ground arith;
        queued = v.queued;
        queued_once = v.queued_once;
        asleep = v.asleep;
        null_unlinked = v.null_unlinked;
        idle_unlinked = v.idle_unlinked;
      },
      ground arith,
      v.runnable t here,
    )

dispatch-Safe : {s : Sys} → IsValid s → Safe (dispatch (pick_next s))
unfolding pick_next
dispatch-Safe {s} v = go s.ready_queue refl
  where
    go : (l : List ℕ) → s.ready_queue ≡ l → Safe (dispatch (pick_next s))
    go [] e = rw (e, pick_next) (dispatch-null-Safe v)
    go (t ∷ rest) e =
        let (valid, ne, runs) = rest-IsValid t rest v e in
        rw (e, pick_next) (dispatch_task-Safe t valid ne runs)

-- From a valid state `schedule` never panics over a task in the ready queue that is not running,
-- and if it does not panic the state that it leaves is valid.
pub schedule-Safe : {s : Sys} → IsValid s → Safe (schedule s)
unfolding schedule
schedule-Safe {s} v = elim (Bool-cases (s.idle_task == null)) [
  | inl none_idle ↦ rw none_idle tt
  | inr idle ↦ elim (Bool-cases (s.current_task == null)) [
    | inl none_current ↦ rw (idle, none_current) tt
    | inr cur ↦ elim (Bool-cases (task_stack_overflow (s.task s.current_task))) [
      | inl over ↦ rw (idle, cur, over) tt
      | inr fine ↦ rw (idle, cur, fine) (dispatch-Safe (requeue-IsValid v))
    ]
  ]
]
