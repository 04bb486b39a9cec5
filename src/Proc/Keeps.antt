-- ===== src/Proc/Keeps.antt =====
-- What waking a task leaves alone.
use kernel_legacy.Proc.{Task, Sys, null, linked, put_task}
use kernel_legacy.Proc.Sched.{sched_enqueue}
use kernel_legacy.Proc.WaitQueue.{
  fall_asleep, leave_ready, leave_wait, link, wq_prepare, unlink, set_running, wq_entry_init,
  wq_finish,
}
use kernel_legacy.Prelude.{
  List, remove, some, ℕ, ◌≡◌, refl, ◌∙◌, ◌≢◌, inl, inr, false, ◌||◌, arith, ◌==◌, ne→==, Bool-cases,
  Option-cases, elem,
}

-- the fields that no waking changes
pub record Keeps (s s' : Sys) : Type 0 where
  pub ticks : s'.global_ticks ≡ s.global_ticks
  pub current : s'.current_task ≡ s.current_task
  pub idle : s'.idle_task ≡ s.idle_task
  pub kitoxd : s'.kitoxd_task ≡ s.kitoxd_task
  pub children : s'.children ≡ s.children
  pub tick : (u : ℕ) → (s'.task u).tick_to_wake ≡ (s.task u).tick_to_wake
  pub signals : (u : ℕ) → (s'.task u).signals_map ≡ (s.task u).signals_map
  pub code : (u : ℕ) → (s'.task u).exit_code ≡ (s.task u).exit_code
  pub pid : (u : ℕ) → (s'.task u).pid ≡ (s.task u).pid
  pub parent : (u : ℕ) → (s'.task u).real_parent ≡ (s.task u).real_parent

pub Keeps-refl : (s : Sys) → Keeps s s
Keeps-refl s = record {
  ticks = refl;
  current = refl;
  idle = refl;
  kitoxd = refl;
  children = refl;
  tick = λ u. refl;
  signals = λ u. refl;
  code = λ u. refl;
  pid = λ u. refl;
  parent = λ u. refl;
}

pub Keeps-trans : {s t r : Sys} → Keeps s t → Keeps t r → Keeps s r
Keeps-trans a b = record {
  ticks = b.ticks ∙ a.ticks;
  current = b.current ∙ a.current;
  idle = b.idle ∙ a.idle;
  kitoxd = b.kitoxd ∙ a.kitoxd;
  children = b.children ∙ a.children;
  tick = λ u. b.tick u ∙ a.tick u;
  signals = λ u. b.signals u ∙ a.signals u;
  code = λ u. b.code u ∙ a.code u;
  pid = λ u. b.pid u ∙ a.pid u;
  parent = λ u. b.parent u ∙ a.parent u;
}

-- a task with the fields of `Keeps` as they are
record Alike (a b : Task) : Type 0 where
  tick : b.tick_to_wake ≡ a.tick_to_wake
  signals : b.signals_map ≡ a.signals_map
  code : b.exit_code ≡ a.exit_code
  pid : b.pid ≡ a.pid
  parent : b.real_parent ≡ a.real_parent

put_task-Keeps : (s : Sys) (t : ℕ) (b : Task) → Alike (s.task t) b → Keeps s (put_task s t b)
put_task-Keeps s t b h = record {
  ticks = refl;
  current = refl;
  idle = refl;
  kitoxd = refl;
  children = refl;
  tick = λ u. ground (arith, h.tick);
  signals = λ u. ground (arith, h.signals);
  code = λ u. ground (arith, h.code);
  pid = λ u. ground (arith, h.pid);
  parent = λ u. ground (arith, h.parent);
}

queues-Keeps :
    (s : Sys) (ready : List ℕ) (waiters : ℕ → List ℕ)
    → Keeps s (record s { ready_queue = ready; waiters = waiters })
queues-Keeps s ready waiters = record {
  ticks = refl;
  current = refl;
  idle = refl;
  kitoxd = refl;
  children = refl;
  tick = λ u. refl;
  signals = λ u. refl;
  code = λ u. refl;
  pid = λ u. refl;
  parent = λ u. refl;
}

module _ (s : Sys) (t : ℕ) where
  set_running-Keeps : Keeps s (set_running s t)
  unfolding set_running
  set_running-Keeps =
      put_task-Keeps s t _
        (record { tick = refl; signals = refl; code = refl; pid = refl; parent = refl })

  wq_entry_init-Keeps : Keeps s (wq_entry_init s t)
  unfolding wq_entry_init
  wq_entry_init-Keeps =
      put_task-Keeps s t _
        (record { tick = refl; signals = refl; code = refl; pid = refl; parent = refl })

  sched_enqueue-Keeps : Keeps s (sched_enqueue s t).1
  unfolding sched_enqueue
  sched_enqueue-Keeps = elim (Bool-cases ((t == null) || elem t s.ready_queue)) [
    | inl refused ↦ rw refused (Keeps-refl s)
    | inr fine ↦ rw fine (record {
      ticks = refl;
      current = refl;
      idle = refl;
      kitoxd = refl;
      children = refl;
      tick = λ u. ground arith;
      signals = λ u. ground arith;
      code = λ u. ground arith;
      pid = λ u. ground arith;
      parent = λ u. ground arith;
    })
  ]

  unlink-Keeps : Keeps s (unlink s t)
  unfolding unlink
  unlink-Keeps = elim (Option-cases (s.task t).wq_link) [
    | inl off ↦ rw (off, unlink) (Keeps-refl s)
    | inr (q, on) ↦
        rw (on, unlink)
          (record {
            ticks = refl;
            current = refl;
            idle = refl;
            kitoxd = refl;
            children = refl;
            tick = λ u. ground arith;
            signals = λ u. ground arith;
            code = λ u. ground arith;
            pid = λ u. ground arith;
            parent = λ u. ground arith;
          })
  ]

  leave_wait-Keeps : Keeps s (leave_wait s t)
  unfolding leave_wait
  leave_wait-Keeps = elim (Bool-cases (linked (s.task t).wq_link)) [
    | inl on ↦ rw on unlink-Keeps
    | inr off ↦ rw off (Keeps-refl s)
  ]

  leave_ready-Keeps : Keeps s (leave_ready s t)
  unfolding leave_ready
  leave_ready-Keeps = elim (Bool-cases (elem t s.ready_queue)) [
    | inl there ↦ rw there (queues-Keeps s (remove t s.ready_queue) s.waiters)
    | inr away ↦ rw away (Keeps-refl s)
  ]

  link-Keeps : (wq : ℕ) → Keeps s (link s wq t)
  unfolding link
  link-Keeps wq =
      Keeps-trans
        (put_task-Keeps s t (record (s.task t) { wq_link = some wq })
          (record { tick = refl; signals = refl; code = refl; pid = refl; parent = refl }))
        (queues-Keeps _ s.ready_queue _)

  fall_asleep-Keeps : (wq : ℕ) → Keeps s (fall_asleep s wq t)
  unfolding fall_asleep
  fall_asleep-Keeps wq =
      put_task-Keeps s t _
        (record { tick = refl; signals = refl; code = refl; pid = refl; parent = refl })

  -- Each of these changes the task itself at most.
  unlink-others : (u : ℕ) → t ≢ u → (unlink s t).task u ≡ s.task u
  unfolding unlink
  unlink-others u ne = elim (Option-cases (s.task t).wq_link) [
    | inl off ↦ rw (off, unlink) refl
    | inr (q, on) ↦ rw (on, unlink, ne→== t u ne) refl
  ]

  set_running-others : (u : ℕ) → t ≢ u → (set_running s t).task u ≡ s.task u
  unfolding set_running
  set_running-others u ne = rw (ne→== t u ne) refl

  wq_entry_init-others : (u : ℕ) → t ≢ u → (wq_entry_init s t).task u ≡ s.task u
  unfolding wq_entry_init
  wq_entry_init-others u ne = rw (ne→== t u ne) refl

  sched_enqueue-others : (u : ℕ) → t ≢ u → (sched_enqueue s t).1.task u ≡ s.task u
  unfolding sched_enqueue
  sched_enqueue-others u ne = elim (Bool-cases ((t == null) || elem t s.ready_queue)) [
    | inl refused ↦ rw refused refl
    | inr fine ↦ rw (fine, ne→== t u ne) refl
  ]

pub wq_finish-Keeps : (s : Sys) (t : ℕ) → Keeps s (wq_finish s t)
unfolding wq_finish
wq_finish-Keeps s t = elim (Bool-cases (linked (s.task t).wq_link)) [
  | inl on ↦ rw on (
      Keeps-trans (unlink-Keeps s t) (
        Keeps-trans (set_running-Keeps (unlink s t) t) (
          Keeps-trans (sched_enqueue-Keeps (set_running (unlink s t) t) t)
            (wq_entry_init-Keeps (sched_enqueue (set_running (unlink s t) t) t).1 t))))
  | inr off ↦ rw off (Keeps-refl s)
]

-- `wq_finish` changes no task but the one that it wakes.
pub wq_finish-others : (s : Sys) (t u : ℕ) → t ≢ u → (wq_finish s t).task u ≡ s.task u
unfolding wq_finish
wq_finish-others s t u ne = elim (Bool-cases (linked (s.task t).wq_link)) [
  | inl on ↦
      let s1 = unlink s t in
      let s2 = set_running s1 t in
      rw on (
        wq_entry_init-others (sched_enqueue s2 t).1 t u ne
        ∙ sched_enqueue-others s2 t u ne
        ∙ set_running-others s1 t u ne
        ∙ unlink-others s t u ne)
  | inr off ↦ rw off refl
]

-- `wq_finish` of a task on no wait queue does nothing.
pub wq_finish-unlinked : (s : Sys) (t : ℕ) → linked (s.task t).wq_link ≡ false → wq_finish s t ≡ s
unfolding wq_finish
wq_finish-unlinked s t off = rw off refl

-- So does `wq_prepare`.
pub wq_prepare-Keeps : (s : Sys) (wq t : ℕ) → Keeps s (wq_prepare s wq t)
unfolding wq_prepare
wq_prepare-Keeps s wq t =
    let s1 = fall_asleep s wq t in
    let s2 = leave_ready s1 t in
    Keeps-trans (fall_asleep-Keeps s t wq) (
      Keeps-trans (leave_ready-Keeps s1 t)
        (Keeps-trans (leave_wait-Keeps s2 t) (link-Keeps (leave_wait s2 t) t wq)))
