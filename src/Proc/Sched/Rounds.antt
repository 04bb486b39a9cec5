-- ===== src/Proc/Sched/Rounds.antt =====
-- Round robin: `schedule` switches to the head of the ready queue, and every task of the queue gets
-- its turn within as many calls as its place in the queue.
use kernel_legacy.Proc.{Sys, null, is_running}
use kernel_legacy.Proc.Sched.{
  Outcome, ok, panic, sched_enqueue, pick_next, task_stack_overflow, switch, dispatch, requeue,
  schedule, default_quantum,
}
use kernel_legacy.Proc.Invariant.{IsValid}
use kernel_legacy.Proc.Sched.Safety.{requeue-IsValid, schedule-Safe, rest-IsValid}
use mathlib.Core.List.{append-nil, append_assoc}
use kernel_legacy.Prelude.{
  ℕ, zero, suc, ◌≡◌, refl, sym, ◌∙◌, ◌≢◌, inl, inr, Bool, false, not, ◌&&◌, List, [], ◌∷◌, ◌++◌,
  arith, ◌==◌, if◌then◌else◌, ne→==, Bool-cases, length, elem, update,
}

-- The scheduler is set up, and no kernel stack has lost its canary.
pub record IsArmed (s : Sys) : Type 0 where
  pub idle : s.idle_task ≢ null
  pub current : s.current_task ≢ null
  pub canaries : (t : ℕ) → task_stack_overflow (s.task t) ≡ false

-- the test by which `schedule` puts the current task back
abbrev goes_back : Sys → Bool
goes_back s =
    is_running (s.task s.current_task).state
    && not (s.current_task == s.idle_task)
    && not (s.current_task == s.dummy_task)

-- who goes back to the ready queue when `schedule` is called
abbrev pub again : Sys → List ℕ
again s =
    if goes_back s
    then (if elem s.current_task s.ready_queue then [] else s.current_task ∷ [])
    else []

record Requeued (s s' : Sys) : Type 0 where
  ready : s'.ready_queue ≡ s.ready_queue ++ again s
  current : s'.current_task ≡ s.current_task
  idle : s'.idle_task ≡ s.idle_task
  canaries : (t : ℕ) → (s'.task t).canary ≡ (s.task t).canary
  states : (t : ℕ) → (s'.task t).state ≡ (s.task t).state

requeue-Requeued : {s : Sys} → IsArmed s → Requeued s (requeue s)
unfolding requeue sched_enqueue
requeue-Requeued {s} armed = elim (Bool-cases (goes_back s)) [
  | inr rests ↦ rw rests (record {
    ready = rw (rests) (sym (append-nil s.ready_queue));
    current = refl;
    idle = refl;
    canaries = λ t. refl;
    states = λ t. refl;
  })
  | inl goes ↦ elim (Bool-cases (elem s.current_task s.ready_queue)) [
    | inl there ↦
        rw (goes, ne→== s.current_task null armed.current, there)
          (record {
            ready = rw (goes, there) (sym (append-nil s.ready_queue));
            current = refl;
            idle = refl;
            canaries = λ t. refl;
            states = λ t. refl;
          })
    | inr away ↦
        rw (goes, ne→== s.current_task null armed.current, away)
          (record {
            ready = rw (goes, away) refl;
            current = refl;
            idle = refl;
            canaries = λ t. ground arith;
            states = λ t. ground (arith, goes);
          })
  ]
]

-- the state after the switch to `t`, with `l` left in the ready queue
switched : Sys → ℕ → List ℕ → Sys
switched s t l = record s {
  ready_queue = l;
  current_task = t;
  task = update s.task t (record (s.task t) { quantum_remaining = default_quantum });
}

-- `schedule` switches to the head of the ready queue with a fresh quantum, and the task that was
-- current goes to the tail if it can still run.
pub schedule-head :
    {s : Sys} (t : ℕ) (rest : List ℕ)
    → IsValid s
    → IsArmed s
    → s.ready_queue ≡ t ∷ rest
    → (s' : Sys) × (schedule s ≡ ok s')
      × (s'.current_task ≡ t)
      × (s'.ready_queue ≡ rest ++ again s)
      × ((s'.task t).quantum_remaining ≡ default_quantum)
      × IsValid s'
      × IsArmed s'
unfolding schedule dispatch switch pick_next switched
schedule-head {s} t rest v armed e =
    let q = requeue-Requeued armed in
    let ready : (requeue s).ready_queue ≡ t ∷ (rest ++ again s) = q.ready ∙ rw e refl in
    let (valid, ne, runs) = rest-IsValid t (rest ++ again s) (requeue-IsValid v) ready in
    let sound : task_stack_overflow ((requeue s).task t) ≡ false =
      rw (q.canaries t) (armed.canaries t) in
    let done : schedule s ≡ ok (switched (requeue s) t (rest ++ again s)) =
      rw
        (
          ne→== s.idle_task null armed.idle,
          ne→== s.current_task null armed.current,
          armed.canaries s.current_task,
          ready,
          pick_next,
          ne→== t null ne,
          runs,
          sound,
        )
        refl in
    (
      switched (requeue s) t (rest ++ again s),
      done,
      refl,
      refl,
      ground arith,
      rw done at (schedule-Safe v),
      record {
        idle = rw q.idle armed.idle;
        current = ne;
        canaries = λ u. ground (arith, q.canaries u, armed.canaries u);
      },
    )

-- `n` calls of `schedule`
pub rounds : ℕ → Sys → Outcome
rounds zero s = ok s
rounds (suc n) s = elim (schedule s) [ ok s' ↦ rounds n s' | panic p ↦ panic p ]

-- Where the queues of the tasks are valid, and `schedule` can run - there are an idle task and a current
-- one, and the canary under every stack is whole -, a task with `l` before it in the ready queue is the
-- current one after one call of `schedule` for each of these and one for itself, and none of the calls
-- panics.
pub rounds-current :
    (l : List ℕ) {s : Sys} (t : ℕ) (r : List ℕ)
    → IsValid s
    → IsArmed s
    → s.ready_queue ≡ l ++ (t ∷ r)
    → (s' : Sys) × (rounds (suc (length l)) s ≡ ok s') × (s'.current_task ≡ t)
unfolding rounds
rounds-current [] {s} t r v armed e =
    let (s', runs, cur, ready, quantum, valid, armed') = schedule-head t r v armed e in
    (s', rw (runs, rounds) refl, cur)
rounds-current (x ∷ l) {s} t r v armed e =
    let (s', runs, cur, ready, quantum, valid, armed') = schedule-head x (l ++ (t ∷ r)) v armed e in
    let (s'', more, last) =
      rounds-current l {s = s'} t (r ++ again s) valid armed' (ready ∙ rw append_assoc refl) in
    (s'', rw (runs, rounds) more, last)
