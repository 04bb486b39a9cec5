-- ===== src/Proc/Exit/Orphans.antt =====
-- What a task leaves behind when it exits: its children go to kitoxD, its parent is woken.
use mathlib.Core.List.{reverse, reverse-append, append_assoc}
use kernel_legacy.Proc.{Sys, running, zombie, null, linked, child_wq}
use kernel_legacy.Proc.WaitQueue.{leave_ready}
use kernel_legacy.Proc.WaitQueue.Wake.{wq_wake_all-ready, wq_wake_all-others}
use kernel_legacy.Proc.Invariant.{IsValid, put_task-IsValid}
use kernel_legacy.Proc.Sched.Safety.{unlinked_of_running}
use kernel_legacy.Proc.Exit.{
  adopt, reparent_loop, task_reparent_children, set_exit_code, set_zombie, exit_status, leave,
}
use kernel_legacy.Prelude.{
  ℕ, ◌≡◌, refl, sym, ap, ap₂, ◌∙◌, ◌≢◌, inl, inr, false, ◌||◌, none, List, [], ◌∷◌, ◌++◌, arith,
  ◌==◌, if◌then◌else◌, ne→==, Bool-cases, elem, remove, elem-remove, remove_of_not_elem,
  distinct-remove,
}

-- what is the same before and after the children are handed over
record Handed (s s' : Sys) : Type 0 where
  kitoxd : s'.kitoxd_task ≡ s.kitoxd_task
  current : s'.current_task ≡ s.current_task
  idle : s'.idle_task ≡ s.idle_task
  ready : s'.ready_queue ≡ s.ready_queue
  waiters : s'.waiters ≡ s.waiters
  state : (u : ℕ) → (s'.task u).state ≡ (s.task u).state
  link : (u : ℕ) → (s'.task u).wq_link ≡ (s.task u).wq_link
  code : (u : ℕ) → (s'.task u).exit_code ≡ (s.task u).exit_code

Handed-trans : {s t r : Sys} → Handed s t → Handed t r → Handed s r
Handed-trans a b = record {
  kitoxd = b.kitoxd ∙ a.kitoxd;
  current = b.current ∙ a.current;
  idle = b.idle ∙ a.idle;
  ready = b.ready ∙ a.ready;
  waiters = b.waiters ∙ a.waiters;
  state = λ u. b.state u ∙ a.state u;
  link = λ u. b.link u ∙ a.link u;
  code = λ u. b.code u ∙ a.code u;
}

Handed-refl : (s : Sys) → Handed s s
Handed-refl s = record {
  kitoxd = refl;
  current = refl;
  idle = refl;
  ready = refl;
  waiters = refl;
  state = λ u. refl;
  link = λ u. refl;
  code = λ u. refl;
}

Handed-IsValid : {s s' : Sys} → Handed s s' → IsValid s → IsValid s'
Handed-IsValid {s} {s'} h v = record {
  runnable = λ u e. h.state u ∙ v.runnable u ((rw h.ready refl) ∙ e);
  once = rw h.ready v.once;
  not_null = rw h.ready v.not_null;
  queued = λ q u. rw (h.waiters, h.link u) (v.queued q u);
  queued_once = λ q. rw h.waiters (v.queued_once q);
  asleep = λ u e. h.state u ∙ v.asleep u ((rw (h.link u) refl) ∙ e);
  null_unlinked = rw (h.link null) v.null_unlinked;
  idle_unlinked = rw (h.idle, h.link s.idle_task) v.idle_unlinked;
}

adopt-Handed : (s : Sys) (parent c : ℕ) (rest : List ℕ) → Handed s (adopt s parent c rest)
unfolding adopt
adopt-Handed s parent c rest = record {
  kitoxd = refl;
  current = refl;
  idle = refl;
  ready = refl;
  waiters = refl;
  state = λ u. ground arith;
  link = λ u. ground arith;
  code = λ u. ground arith;
}

module _ (s : Sys) (parent c : ℕ) (rest : List ℕ) (ne : parent ≢ s.kitoxd_task) where
  children-adopt :
      ((adopt s parent c rest).children parent ≡ rest)
      × ((adopt s parent c rest).children s.kitoxd_task ≡ c ∷ s.children s.kitoxd_task)
  unfolding adopt
  children-adopt = ground arith

  others-adopt :
      (p : ℕ) → p ≢ parent → p ≢ s.kitoxd_task → (adopt s parent c rest).children p ≡ s.children p
  unfolding adopt
  others-adopt p a b = ground arith

  parents-adopt :
      (u : ℕ)
      → ((adopt s parent c rest).task u).real_parent
        ≡ (if c == u then s.kitoxd_task else (s.task u).real_parent)
  unfolding adopt
  parents-adopt u = ground arith

-- who has which children, and which parent
record Adopted (parent : ℕ) (l : List ℕ) (s s' : Sys) : Type 0 where
  handed : Handed s s'
  bereft : s'.children parent ≡ []
  gained : s'.children s.kitoxd_task ≡ reverse l ++ s.children s.kitoxd_task
  others : (p : ℕ) → p ≢ parent → p ≢ s.kitoxd_task → s'.children p ≡ s.children p
  parents :
      (c : ℕ)
      → (s'.task c).real_parent ≡ (if elem c l then s.kitoxd_task else (s.task c).real_parent)

reparent_loop-Adopted :
    (parent : ℕ) (l : List ℕ) {s : Sys}
    → parent ≢ s.kitoxd_task
    → s.children parent ≡ l
    → Adopted parent l s (reparent_loop l s parent)
unfolding reparent_loop adopt
reparent_loop-Adopted parent [] {s} ne e = record {
  handed = Handed-refl s;
  bereft = e;
  gained = refl;
  others = λ p a b. refl;
  parents = λ c. refl;
}
reparent_loop-Adopted parent (x ∷ l) {s} ne e =
    let s1 = adopt s parent x l in
    let one = adopt-Handed s parent x l in
    let kids = children-adopt s parent x l ne in
    let rest = reparent_loop-Adopted parent l {s = s1} (rw one.kitoxd ne) kids.0 in
    record {
      handed = Handed-trans one rest.handed;
      bereft = rest.bereft;
      gained =
          (rw one.kitoxd at rest.gained)
          ∙ rw (kids.1, reverse-append (x ∷ []) l, append_assoc) refl;
      others = λ p a b. rest.others p a (rw one.kitoxd b) ∙ others-adopt s parent x l ne p a b;
      parents =
          λ c. rest.parents c ∙ rw (one.kitoxd, parents-adopt s parent x l ne c) (ground arith);
    }

-- When a task other than kitoxD hands over its children, kitoxD gets them all in front of its own,
-- the last one first, each with kitoxD as its parent; the task has none left, and no other task's
-- children change.
pub task_reparent_children-Adopted :
    (s : Sys) (parent : ℕ)
    → s.kitoxd_task ≢ null
    → parent ≢ s.kitoxd_task
    → let s' = task_reparent_children s parent in
      (s'.children parent ≡ [])
      × (s'.children s.kitoxd_task ≡ reverse (s.children parent) ++ s.children s.kitoxd_task)
      × ((p : ℕ) → p ≢ parent → p ≢ s.kitoxd_task → s'.children p ≡ s.children p)
      × ((c : ℕ)
          → (s'.task c).real_parent
            ≡ (if elem c (s.children parent) then s.kitoxd_task else (s.task c).real_parent))
unfolding task_reparent_children
task_reparent_children-Adopted s parent there ne =
    let all = reparent_loop-Adopted parent (s.children parent) {s = s} ne refl in
    rw (ne→== s.kitoxd_task null there, ne→== parent s.kitoxd_task ne)
      (all.bereft, all.gained, all.others, all.parents)

task_reparent_children-Handed : (s : Sys) (parent : ℕ) → Handed s (task_reparent_children s parent)
unfolding task_reparent_children
task_reparent_children-Handed s parent =
    elim (Bool-cases ((s.kitoxd_task == null) || (parent == s.kitoxd_task))) [
      | inl keeps ↦ rw keeps (Handed-refl s)
      | inr gives ↦
          rw gives
            ((reparent_loop-Adopted parent (s.children parent) {s = s} (ground arith) refl).handed)
    ]

leave_ready_lem :
    {s : Sys} (t : ℕ)
    → IsValid s
    → IsValid (leave_ready s t)
      × ((leave_ready s t).ready_queue ≡ remove t s.ready_queue)
      × ((leave_ready s t).waiters ≡ s.waiters)
      × ((leave_ready s t).task ≡ s.task)
unfolding leave_ready
leave_ready_lem {s} t v = elim (Bool-cases (elem t s.ready_queue)) [
  | inl there ↦ rw there (
    record {
      runnable = λ u h. ground (arith, v.runnable u, elem-remove u t s.ready_queue);
      once = distinct-remove t s.ready_queue v.once;
      not_null = ground (arith, v.not_null, elem-remove null t s.ready_queue);
      queued = v.queued;
      queued_once = v.queued_once;
      asleep = v.asleep;
      null_unlinked = v.null_unlinked;
      idle_unlinked = v.idle_unlinked;
    },
    refl,
    refl,
    refl,
  )
  | inr away ↦ rw away (v, sym (remove_of_not_elem t s.ready_queue away), refl, refl)
]

set_exit_code_lem :
    {s : Sys} (t status : ℕ)
    → IsValid s
    → IsValid (set_exit_code s t status)
      × ((set_exit_code s t status).ready_queue ≡ s.ready_queue)
      × ((set_exit_code s t status).waiters ≡ s.waiters)
      × (((set_exit_code s t status).task t).wq_link ≡ (s.task t).wq_link)
      × (((set_exit_code s t status).task t).exit_code ≡ exit_status status)
unfolding set_exit_code
set_exit_code_lem {s} t status v = (
  put_task-IsValid t (record (s.task t) { exit_code = exit_status status }) v refl refl,
  refl,
  refl,
  ground arith,
  ground arith,
)

set_zombie_lem :
    {s : Sys} (t : ℕ)
    → IsValid s
    → elem t s.ready_queue ≡ false
    → linked (s.task t).wq_link ≡ false
    → IsValid (set_zombie s t)
      × (((set_zombie s t).task t).state ≡ zombie)
      × (linked ((set_zombie s t).task t).wq_link ≡ false)
      × (((set_zombie s t).task t).exit_code ≡ (s.task t).exit_code)
      × ((set_zombie s t).ready_queue ≡ s.ready_queue)
      × ((set_zombie s t).waiters ≡ s.waiters)
unfolding set_zombie
set_zombie_lem {s} t v out off = (
  record {
    runnable = λ u h. ground (arith, v.runnable u, out);
    once = v.once;
    not_null = v.not_null;
    queued = λ q u. ground (arith, v.queued q u);
    queued_once = v.queued_once;
    asleep = λ u h. ground (arith, v.asleep u, off);
    null_unlinked = ground (arith, v.null_unlinked);
    idle_unlinked = ground (arith, v.idle_unlinked);
  },
  ground arith,
  ground arith,
  ground arith,
  refl,
  refl,
)

-- When the running task exits it becomes a zombie with its status as exit code, and is not in the
-- ready queue; every task that waits for children of its parent's queue is woken, in order, and
-- the queues stay valid.
pub leave-zombie :
    {s : Sys} (status : ℕ)
    → IsValid s
    → (s.task s.current_task).state ≡ running
    → let cur = s.current_task in
      let wq = child_wq (s.task cur).real_parent in
      let s' = leave s status in
      IsValid s'
      × ((s'.task cur).state ≡ zombie)
      × ((s'.task cur).exit_code ≡ exit_status status)
      × (s'.waiters wq ≡ [])
      × (s'.ready_queue ≡ remove cur s.ready_queue ++ s.waiters wq)
unfolding leave
leave-zombie {s} status v runs =
    let cur = s.current_task in
    let wq = child_wq (s.task cur).real_parent in
    let coded = set_exit_code s cur status in
    let c = set_exit_code_lem cur status v in
    let out = leave_ready coded cur in
    let o = leave_ready_lem cur c.0 in
    let handed = task_reparent_children-Handed out cur in
    let given = task_reparent_children out cur in
    let valid = Handed-IsValid handed o.0 in
    let ready : given.ready_queue ≡ remove cur s.ready_queue =
      handed.ready ∙ o.1 ∙ ap (remove cur) c.1 in
    let waiters : given.waiters ≡ s.waiters = handed.waiters ∙ o.2 ∙ c.2 in
    let link : (given.task cur).wq_link ≡ none =
      handed.link cur
      ∙ ap (λ f. (f cur).wq_link) o.3
      ∙ c.3
      ∙ unlinked_of_running cur v (rw runs refl) in
    let code : (given.task cur).exit_code ≡ exit_status status =
      handed.code cur ∙ ap (λ f. (f cur).exit_code) o.3 ∙ c.4 in
    let z =
      set_zombie_lem cur valid (rw ready (ground (arith, elem-remove cur cur s.ready_queue)))
        (rw link refl) in
    let dead = set_zombie given cur in
    let woken = wq_wake_all-ready wq z.0 in
    let same = wq_wake_all-others wq cur z.0 z.2 in
    (
      woken.0,
      ap (λ t. t.state) same ∙ z.1,
      ap (λ t. t.exit_code) same ∙ z.3 ∙ code,
      woken.1,
      woken.2 ∙ ap₂ ◌++◌ (z.4 ∙ ready) (ap (λ f. f wq) (z.5 ∙ waiters)),
    )
