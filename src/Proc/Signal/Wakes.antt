-- ===== src/Proc/Signal/Wakes.antt =====
-- Whom a signal wakes, and what `kill` answers.
use kernel_legacy.Prelude.Int.{ℤ, pos}
use kernel_legacy.Bits.{set_bit}
use kernel_legacy.Proc.{Sys, running, WaitState, interruptible, uninterruptible, null, linked}
use kernel_legacy.Proc.WaitQueue.{wq_signal_wake_up}
use kernel_legacy.Proc.Invariant.{IsValid, put_task-IsValid, wq_finish-IsValid, wq_finish-moves}
use kernel_legacy.Proc.Keeps.{wq_finish-unlinked}
use kernel_legacy.Proc.Signal.{
  sig_sentinel, esrch, einval, eperm, minus, put_signals, signal_send, signal_is_valid,
  signal_check_perm, find_by_pid, kill_pid, eq_pid,
}
use kernel_legacy.Prelude.{
  ℕ, ◌<◌, ◌≡◌, refl, sym, ap, ◌∙◌, ◌≢◌, ◌⊎◌, inl, inr, true, false, some, List, [], ◌∷◌, ◌++◌,
  arith, ◌==◌, if◌then◌else◌, lt→ltb, ==→eq, ne→==, ==→ne, Bool-cases, elem,
}

module _ {s : Sys} (t sig : ℕ) (v : IsValid s) (ne : t ≢ null) (low : 0 < sig)
    (high : sig < sig_sentinel) where
  marked : Sys
  marked = put_signals s t (set_bit (s.task t).signals_map sig)

  signal_send-eq : signal_send s sig t ≡ wq_signal_wake_up marked t
  unfolding signal_send marked
  signal_send-eq = rw (ne→== t null ne, lt→ltb _ _ low, lt→ltb _ _ high) refl

  marked-IsValid : IsValid marked
  unfolding marked
  marked-IsValid = put_task-IsValid t _ v refl refl

  marked_lem :
      ((marked.task t).wq_link ≡ (s.task t).wq_link)
      × ((marked.task t).wq_state ≡ (s.task t).wq_state)
      × (marked.ready_queue ≡ s.ready_queue)
      × ((marked.task t).state ≡ (s.task t).state)
  unfolding marked
  marked_lem = ground arith

  -- A valid signal to a task that sleeps on a wait queue and may be interrupted makes it runnable.
  pub signal_send-wakes :
      (q : ℕ)
      → (s.task t).wq_state ≡ interruptible
      → (s.task t).wq_link ≡ some q
      → IsValid (signal_send s sig t)
        × ((signal_send s sig t).ready_queue ≡ s.ready_queue ++ (t ∷ []))
        × (((signal_send s sig t).task t).state ≡ running)
  unfolding wq_signal_wake_up
  signal_send-wakes q may on =
      let (link, kind, ready, state) = marked_lem in
      let moved = wq_finish-moves t q marked-IsValid (link ∙ on) in
      rw (signal_send-eq, wq_signal_wake_up, kind, may)
        (wq_finish-IsValid t marked-IsValid, moved.0 ∙ rw ready refl, moved.2)

  -- A valid signal to a task that may not be interrupted, or that is on no wait queue, such as a
  -- zombie, changes neither its state nor the ready queue.
  pub signal_send-spares :
      ((s.task t).wq_state ≡ uninterruptible) ⊎ (linked (s.task t).wq_link ≡ false)
      → IsValid (signal_send s sig t)
        × ((signal_send s sig t).ready_queue ≡ s.ready_queue)
        × (((signal_send s sig t).task t).state ≡ (s.task t).state)
  unfolding wq_signal_wake_up
  signal_send-spares (inl deaf) =
      let (link, kind, ready, state) = marked_lem in
      rw (signal_send-eq, wq_signal_wake_up, kind, deaf) (marked-IsValid, ready, state)
  signal_send-spares (inr off) =
      let (link, kind, ready, state) = marked_lem in
      rw (signal_send-eq) (go (s.task t).wq_state refl)
    where
      go :
          (w : WaitState)
          → (s.task t).wq_state ≡ w
          → IsValid (wq_signal_wake_up marked t)
            × ((wq_signal_wake_up marked t).ready_queue ≡ s.ready_queue)
            × (((wq_signal_wake_up marked t).task t).state ≡ (s.task t).state)
      go uninterruptible e =
          let (link, kind, ready, state) = marked_lem in
          rw (wq_signal_wake_up, kind, e) (marked-IsValid, ready, state)
      go interruptible e =
          let (link, kind, ready, state) = marked_lem in
          let still = wq_finish-unlinked marked t (rw link off) in
          rw (wq_signal_wake_up, kind, e, still) (marked-IsValid, ready, state)

find_by_pid-cons :
    (s : Sys) (pid : ℤ) (t : ℕ) (l : List ℕ)
    → find_by_pid s pid (t ∷ l) ≡ (if eq_pid (s.task t).pid pid then t else find_by_pid s pid l)
unfolding find_by_pid
find_by_pid-cons s pid t l = refl

-- `task_find_by_pid` finds a member of the list that has the pid.
find_by_pid-matches :
    (s : Sys) (pid : ℤ) (l : List ℕ) (t : ℕ)
    → find_by_pid s pid l ≡ t
    → t ≢ null
    → (elem t l ≡ true) × (eq_pid (s.task t).pid pid ≡ true)
unfolding find_by_pid
find_by_pid-matches s pid [] t e h = absurd (h (sym e))
find_by_pid-matches s pid (x ∷ l) t e h = elim (Bool-cases (eq_pid (s.task x).pid pid)) [
  | inl hit ↦
      let at : x ≡ t = (sym (find_by_pid-cons s pid x l ∙ rw hit refl)) ∙ e in
      rw (← at) (ground arith, hit)
  | inr miss ↦
      let later : find_by_pid s pid l ≡ t = (sym (find_by_pid-cons s pid x l ∙ rw miss refl)) ∙ e in
      let found = find_by_pid-matches s pid l t later h in (ground (arith, found.0), found.1)
]

-- The search that returns NULL has seen no task with the pid.
find_by_pid-none :
    (s : Sys) (pid : ℤ) (l : List ℕ)
    → find_by_pid s pid l ≡ null
    → elem null l ≡ false
    → (u : ℕ) → elem u l ≡ true
    → eq_pid (s.task u).pid pid ≡ false
unfolding find_by_pid
find_by_pid-none s pid [] e sane u there = cc there
find_by_pid-none s pid (x ∷ l) e sane u there = elim (Bool-cases (eq_pid (s.task x).pid pid)) [
  | inl hit ↦
      let at : x ≡ null = (sym (find_by_pid-cons s pid x l ∙ rw hit refl)) ∙ e in
      absurd (ground (arith, sane, at))
  | inr miss ↦
      let later : find_by_pid s pid l ≡ null =
        (sym (find_by_pid-cons s pid x l ∙ rw miss refl)) ∙ e in
      elim (Bool-cases (u == x)) [
        | inl same ↦ ap (λ y. eq_pid (s.task y).pid pid) (==→eq u x same) ∙ miss
        | inr other ↦
            find_by_pid-none s pid l later (ground (arith, sane)) u (ground (arith, there, other))
      ]
]

-- how a call of `kill` for one task ends
abbrev Judged : Sys → (sig t : ℕ) → ℤ × Sys → Type 0
Judged s sig t r =
    ((signal_is_valid sig ≡ false) × (r ≡ (minus einval, s)))
    ⊎ (((signal_is_valid sig ≡ true) × (signal_check_perm s t ≡ false) × (r ≡ (minus eperm, s)))
        ⊎ ((signal_is_valid sig ≡ true)
            × (signal_check_perm s t ≡ true)
            × (r ≡ (pos 0, signal_send s sig t))))

-- how a call of `kill` ends: no registered task has the pid, or it is for one that has
abbrev pub Kills : Sys → ℤ → (sig : ℕ) → ℤ × Sys → Type 0
Kills s pid sig r =
    (((u : ℕ) → elem u s.info_queue ≡ true → eq_pid (s.task u).pid pid ≡ false)
      × (r ≡ (minus esrch, s)))
    ⊎ ((t : ℕ) × (elem t s.info_queue ≡ true)
        × (eq_pid (s.task t).pid pid ≡ true)
        × Judged s sig t r)

-- Where NULL is not registered, `kill` returns -ESRCH and changes nothing exactly where no registered
-- task has the pid. Else it judges a registered task that has it: -EINVAL without effect for a signal
-- that is not valid, else -EPERM without effect where the caller may not signal the task, else it sends
-- the signal to the task and returns 0.
pub kill_pid-checks :
    (s : Sys) (pid : ℤ) (sig : ℕ)
    → elem null s.info_queue ≡ false
    → Kills s pid sig (kill_pid s pid sig)
unfolding kill_pid
kill_pid-checks s pid sig sane =
    let t = find_by_pid s pid s.info_queue in
    elim (Bool-cases (t == null)) [
      | inl missing ↦ inl (
        find_by_pid-none s pid s.info_queue (==→eq _ _ missing) sane,
        rw (kill_pid, missing) refl,
      )
      | inr there ↦
          let found = find_by_pid-matches s pid s.info_queue t refl (==→ne _ _ there) in
          inr (
            t,
            found.0,
            found.1,
            elim (Bool-cases (signal_is_valid sig)) [
              | inr bad ↦ inl (bad, rw (kill_pid, there, bad) refl)
              | inl good ↦ elim (Bool-cases (signal_check_perm s t)) [
                | inr denied ↦ inr (inl (good, denied, rw (kill_pid, there, good, denied) refl))
                | inl allowed ↦ inr (inr (good, allowed, rw (kill_pid, there, good, allowed) refl))
              ]
            ],
          )
    ]
