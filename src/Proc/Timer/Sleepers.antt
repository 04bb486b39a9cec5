-- ===== src/Proc/Timer/Sleepers.antt =====
-- Who sleeps how long: `timer_ksleep` sets the deadline, the timer wakes whoever is due.
use kernel_legacy.Proc.{Sys, null, sleep_wq}
use kernel_legacy.Proc.WaitQueue.{link, wq_prepare, wq_finish}
use kernel_legacy.Proc.Invariant.{
  put_task-IsValid, IsValid, wq_prepare-IsValid, wq_finish-IsValid, wq_finish-moves,
  asleep-not-ready,
}
use kernel_legacy.Proc.Keeps.{Keeps, Keeps-refl, Keeps-trans, wq_finish-Keeps, wq_prepare-Keeps}
use kernel_legacy.Proc.WaitQueue.Wake.{link_of_queued}
use kernel_legacy.Proc.Timer.{
  set_deadline, ticks_per_second, is_due, wake_due, task_wake_up_sleepers, fall_asleep_for,
}
use kernel_legacy.Prelude.{
  ℕ, ◌+◌, ◌*◌, ◌%◌, ◌^◌, ◌<◌, ◌≡◌, refl, sym, ◌∙◌, ◌≢◌, inl, inr, Bool, true, false, not, ◌&&◌,
  ◌||◌, some, List, [], ◌∷◌, ◌++◌, arith, Bool-cases, elem, remove, elem-append, elem-remove,
  distinct,
}

-- waking one task of the sleep queue
wake_one :
    {s : Sys} (t : ℕ)
    → IsValid s
    → elem t (s.waiters sleep_wq) ≡ true
    → ((wq_finish s t).ready_queue ≡ s.ready_queue ++ (t ∷ []))
      × ((wq_finish s t).waiters sleep_wq ≡ remove t (s.waiters sleep_wq))
wake_one {s} t v h =
    let on = link_of_queued (s.task t).wq_link sleep_wq (sym (v.queued sleep_wq t) ∙ h) in
    let moved = wq_finish-moves t sleep_wq v on in (moved.0, moved.1)

record Woken (l : List ℕ) (s s' : Sys) : Type 0 where
  valid : IsValid s'
  keeps : Keeps s s'
  sleepers :
      (u : ℕ)
      → elem u (s'.waiters sleep_wq) ≡ (elem u (s.waiters sleep_wq) && not (elem u l && is_due s u))
  ready : (u : ℕ) → elem u s'.ready_queue ≡ (elem u s.ready_queue || (elem u l && is_due s u))

wake_due-Woken :
    (l : List ℕ) {s : Sys}
    → IsValid s
    → ((u : ℕ) → elem u l ≡ true → elem u (s.waiters sleep_wq) ≡ true)
    → distinct l ≡ true
    → Woken l s (wake_due l s)
unfolding wake_due
wake_due-Woken [] {s} v on once = record {
  valid = v;
  keeps = Keeps-refl s;
  sleepers = λ u. ground arith;
  ready = λ u. ground arith;
}
wake_due-Woken (t ∷ l) {s} v on once = elim (Bool-cases (is_due s t)) [
  | inl due ↦
      let s1 = wq_finish s t in
      let one = wake_one t v (on t (ground arith)) in
      let keep = wq_finish-Keeps s t in
      let same_due : (u : ℕ) → is_due s1 u ≡ is_due s u = λ u. rw (keep.ticks, keep.tick u) refl in
      let rest =
        wake_due-Woken l {s = s1} (wq_finish-IsValid t v)
          (λ u h. rw one.1 (ground (arith, on u, elem-remove u t (s.waiters sleep_wq))))
          (ground arith) in
      rw due (record {
        valid = rest.valid;
        keeps = Keeps-trans keep rest.keeps;
        sleepers = λ u.
            rest.sleepers u
            ∙ rw (one.1, same_due u) (ground (arith, elem-remove u t (s.waiters sleep_wq), due));
        ready = λ u.
            rest.ready u
            ∙ rw (one.0, same_due u) (ground (arith, elem-append u s.ready_queue (t ∷ []), due));
      })
  | inr early ↦
      let rest = wake_due-Woken l v (λ u h. on u (ground arith)) (ground arith) in
      rw early (record {
        valid = rest.valid;
        keeps = rest.keeps;
        sleepers = λ u. rest.sleepers u ∙ (ground (arith, early));
        ready = λ u. rest.ready u ∙ (ground (arith, early));
      })
]

-- A tick of the timer takes off the sleep queue exactly the tasks whose time has come, and puts
-- exactly these in the ready queue.
pub task_wake_up_sleepers-due :
    {s : Sys}
    → IsValid s
    → IsValid (task_wake_up_sleepers s)
      × ((u : ℕ)
          → elem u ((task_wake_up_sleepers s).waiters sleep_wq)
            ≡ (elem u (s.waiters sleep_wq) && not (is_due s u)))
      × ((u : ℕ)
          → elem u (task_wake_up_sleepers s).ready_queue
            ≡ (elem u s.ready_queue || (elem u (s.waiters sleep_wq) && is_due s u)))
unfolding task_wake_up_sleepers
task_wake_up_sleepers-due {s} v =
    let w = wake_due-Woken (s.waiters sleep_wq) v (λ u h. h) (v.queued_once sleep_wq) in
    (w.valid, λ u. w.sleepers u ∙ absorb (elem u (s.waiters sleep_wq)) (is_due s u), w.ready)
  where
    absorb : (a b : Bool) → (a && not (a && b)) ≡ (a && not b)
    absorb true b = refl
    absorb false b = refl

wq_link-prepare : (s : Sys) (wq t : ℕ) → ((wq_prepare s wq t).task t).wq_link ≡ some wq
unfolding wq_prepare link
wq_link-prepare s wq t = ground arith

set_deadline_lem :
    {s : Sys} (t tick : ℕ)
    → IsValid s
    → IsValid (set_deadline s t tick)
      × ((set_deadline s t tick).idle_task ≡ s.idle_task)
      × (((set_deadline s t tick).task t).tick_to_wake ≡ tick)
unfolding set_deadline
set_deadline_lem {s} t tick v =
    (put_task-IsValid t (record (s.task t) { tick_to_wake = tick }) v refl refl, refl, ground arith)

-- After `timer_ksleep` has prepared its sleep, the caller is on the sleep queue and not in the
-- ready queue, and unless the tick counter wraps before it, its deadline is so many seconds ahead.
pub fall_asleep_for-deadline :
    {s : Sys} (seconds : ℕ)
    → IsValid s
    → s.current_task ≢ null
    → s.current_task ≢ s.idle_task
    → s.global_ticks + seconds * ticks_per_second < 2 ^ 32
    → let s' = fall_asleep_for s seconds in
      IsValid s'
      × (elem s.current_task (s'.waiters sleep_wq) ≡ true)
      × (elem s.current_task s'.ready_queue ≡ false)
      × ((s'.task s.current_task).tick_to_wake ≡ s.global_ticks + seconds * ticks_per_second)
unfolding fall_asleep_for
fall_asleep_for-deadline {s} seconds v ne busy small =
    let cur = s.current_task in
    let deadline = (s.global_ticks + seconds * ticks_per_second % 2 ^ 32) % 2 ^ 32 in
    let (valid, idle, tick) = set_deadline_lem cur deadline v in
    let s1 = set_deadline s cur deadline in
    let sleeping = wq_prepare-IsValid sleep_wq cur valid ne (rw idle busy) in
    let on = wq_link-prepare s1 sleep_wq cur in
    (
      sleeping,
      rw (sleeping.queued sleep_wq cur, on) refl,
      (asleep-not-ready cur sleep_wq sleeping on).1,
      (wq_prepare-Keeps s1 sleep_wq cur).tick cur ∙ tick ∙ (omega arith),
    )
