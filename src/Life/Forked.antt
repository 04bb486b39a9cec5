-- ===== src/Life/Forked.antt =====
-- What `fork` takes, what it gives back where it fails, and what a child takes with it when it ends.
use kernel_legacy.IdManager
use kernel_legacy.IdManager.{IdManager, to_size, is_full}
use kernel_legacy.IdManager.Lowest.{IsValid, used, Leaves}
use kernel_legacy.Life.{default_stack_size}
use kernel_legacy.Life.Memory.{at, block_at, Allocator}
use kernel_legacy.Life.Userspace.{Machine, Step, take_block, give_block}
use kernel_legacy.Life.Balance.{
  table_pages, Holds, Holds-same, give_block-Holds, give_null-Holds, take_block-Holds,
  no_block-Holds, destroy_user_pd-Holds,
}
use kernel_legacy.Life.Ids.{Gives, free-Leaves}
use kernel_legacy.Life.Tasks.{Env, TaskMemory, task_release, task_exit_cleanup}
use kernel_legacy.Life.Creating.{task_blocks}
use kernel_legacy.Life.Lifetime.{task_exit_cleanup-Holds}
use kernel_legacy.Life.Fork.{
  Forked, no_child, half_copied, child, Parent, task_clone, copy_tables, fork_copy, fork,
}
use kernel_legacy.Life.Copying.{counts, copy_tables-Holds}
use kernel_legacy.Life.Cloning.{AsBefore, Clone, task_clone-Cloned}
use kernel_legacy.Prelude.{
  ℕ, ◌+◌, ◌≡◌, refl, ap, ◌∙◌, ◌≢◌, inl, inr, false, Option, some, List, arith, ◌==◌, if◌then◌else◌,
  eq→==, ne→==, Bool-cases, Option-cases, remove,
}

module _ (al : Allocator) (env : Env) (mg : IdManager) (ps ks : ℕ → ℕ) (qs : List ℕ)
    (current : TaskMemory) where
  -- a child has no pages in its sections but those of its parent's trampoline
  abbrev pub InheritsTrampoline : TaskMemory → Type 0
  InheritsTrampoline t =
      (t.image.text_sec.p_addr ≡ 0)
      × (t.image.data_sec.p_addr ≡ 0)
      × (t.image.stack_sec.p_addr ≡ 0)
      × (t.ring ≡ current.ring)
      × (t.image.sig_trampoline ≡ current.image.sig_trampoline)

  -- What is left where the copies are not finished: the copies, and one free of the kernel stack too many.
  abbrev pub HalfCopied : Machine al → TaskMemory → (copies : List ℕ) → Type 0
  HalfCopied m t copies =
      (t.kernel_stack_pointer ≢ 0)
      × ((a : ℕ) → m.pages_taken a ≡ m.pages_given a + (ps a + counts copies a))
      × ((a : ℕ) → m.blocks_taken a + block_at t.kernel_stack_pointer a ≡ m.blocks_given a + ks a)
      × ((ids : Option IdManager) × (m.pid_manager ≡ ids) × Leaves ids mg.bitmap.nb_bits (used mg))
      × (m.info_queue ≡ qs)

  -- what a call of `fork` leaves
  abbrev pub ForkLeaves : Step al Forked → Type 0
  ForkLeaves r = elim r.ret as (λ _. Type 0) [
    | no_child ↦ AsBefore al env mg ps ks qs current r.machine
    | half_copied t ↦ (copies : List ℕ) × HalfCopied r.machine t copies
    | child t copies ↦
        (ids : Option IdManager) × Gives ids mg.bitmap.nb_bits (used mg) t.pid
        × InheritsTrampoline t
        × Holds al r.machine
            (λ a. ps a + (at t.image.cr3 a + (table_pages t.image.tables a + counts copies a)))
            (λ a. ks a + task_blocks t a) ids qs
  ]

  -- `task_release` of a clone whose kernel stack is not held any more
  release_twice :
      (t : TaskMemory) (copies : List ℕ) {m : Machine al} {ids : Option IdManager}
      → t.listed ≡ false
      → t.kernel_stack_pointer ≢ 0
      → Gives ids mg.bitmap.nb_bits (used mg) t.pid
      → Holds al m (λ a. ps a + counts copies a) (λ a. ks a + block_at t.address a) ids qs
      → HalfCopied (task_release al env t m) t copies
  unfolding task_release give_block
  release_twice t copies {m} {ids} alone some_ gives h =
      let there : (t.kernel_stack_pointer == 0) ≡ false = ne→== _ 0 some_ in
      let freed : (x : Option IdManager) × (IdManager.free m.pid_manager (to_size t.pid) ≡ x)
          × Leaves x mg.bitmap.nb_bits (used mg) =
        (
          IdManager.free ids (to_size t.pid),
          ap (λ x. IdManager.free x (to_size t.pid)) h.ids,
          free-Leaves ids mg.bitmap.nb_bits (used mg) t.pid gives,
        ) in
      elim (Bool-cases (t.address == 0)) [
        | inl null ↦
            rw (task_release, give_block, there, null)
              (
                some_,
                h.pages,
                λ a. let held = rw null at (h.blocks a) in omega (arith, held),
                freed,
                rw alone h.queue,
              )
        | inr block ↦
            rw (task_release, give_block, there, block)
              (
                some_,
                h.pages,
                λ a. let held = rw block at (h.blocks a) in omega (arith, held),
                freed,
                rw alone h.queue,
              )
      ]

  fork_copy-Leaves :
      (parent : Parent) (t : TaskMemory) {m : Machine al} {ids : Option IdManager}
      → Clone al env mg ps ks qs current t
      → t.kernel_stack_pointer ≢ 0
      → Gives ids mg.bitmap.nb_bits (used mg) t.pid
      → Holds al m
          (λ a. ps a + at t.image.cr3 a)
          (λ a. (ks a + block_at t.address a) + block_at t.kernel_stack_pointer a)
          ids
          qs
      → ForkLeaves (fork_copy al env parent t m)
  unfolding fork_copy
  fork_copy-Leaves parent t {m} {ids} cl some_ gives h =
      let c = copy_tables al env parent m in
      let copied = copy_tables-Holds al env parent _ _ h in
      elim (Bool-cases c.ret.done) [
        | inl all ↦
            rw (fork_copy, all)
              (
                ids,
                gives,
                (refl, refl, refl, cl.ring, cl.trampoline),
                Holds-same al copied (λ a. omega arith) (λ a. rw cl.none_ (omega arith)),
              )
        | inr part ↦
            let freed = give_block-Holds al t.kernel_stack_pointer copied in
            let handed =
              destroy_user_pd-Holds al c.ret.tables t.image.cr3 (λ a. ps a + counts c.ret.copies a)
                (λ a. ks a + block_at t.address a)
                (Holds-same al freed (λ a. omega arith) (λ a. refl)) in
            rw (fork_copy, part)
              (c.ret.copies, release_twice _ c.ret.copies cl.unlisted some_ gives handed)
      ]

  -- `task_release` of a clone without a kernel stack
  task_release-Clone :
      (t : TaskMemory) {m : Machine al} {ids : Option IdManager}
      → Clone al env mg ps ks qs current t
      → t.kernel_stack_pointer ≡ 0
      → Gives ids mg.bitmap.nb_bits (used mg) t.pid
      → Holds al m ps (λ a. ks a + block_at t.address a) ids qs
      → AsBefore al env mg ps ks qs current (task_release al env t m)
  unfolding task_release
  task_release-Clone t {m} {ids} c zero_ gives h =
      let unlisted : Machine al = record m {
        info_queue = if t.listed then remove t.address m.info_queue else m.info_queue;
        pid_manager = IdManager.free m.pid_manager (to_size t.pid);
      } in
      let held : Holds al unlisted ps (λ a. ks a + block_at t.address a)
          (IdManager.free ids (to_size t.pid)) qs =
        record {
          pages = h.pages;
          blocks = h.blocks;
          ids = ap (λ x. IdManager.free x (to_size t.pid)) h.ids;
          queue = rw c.unlisted h.queue;
        } in
      (
        IdManager.free ids (to_size t.pid),
        free-Leaves ids mg.bitmap.nb_bits (used mg) t.pid gives,
        rw zero_ (give_block-Holds al t.address (give_null-Holds al held)),
      )

pub fork-ForkLeaves :
    (al : Allocator) (env : Env) (name : List ℕ) (parent : Parent) (current : TaskMemory)
    (mg : IdManager) (ps ks : ℕ → ℕ) (qs : List ℕ) (m : Machine al)
    → IsValid mg
    → Holds al m ps ks (some mg) qs
    → ForkLeaves al env mg ps ks qs current (fork al env name parent current m)
unfolding fork
fork-ForkLeaves al env name parent current mg ps ks qs m v h =
    let new = task_clone al env name current m in
    let cloned = task_clone-Cloned al env mg ps ks qs current name v h in
    elim (Option-cases new.ret) [
      | inl refused ↦ rw (fork, refused) (rw refused at cloned)
      | inr (t, made) ↦
          let (c, zero_, (ids, gives, held)) = rw made at cloned in
          elim (Option-cases (take_block al default_stack_size new.machine).ret) [
            | inl refused ↦
                rw (fork, made, refused)
                  (task_release-Clone al env mg ps ks qs current t c zero_ gives (
                    destroy_user_pd-Holds al t.image.tables t.image.cr3 ps _ (
                      Holds-same al (no_block-Holds al default_stack_size held refused)
                        (λ a. rw c.no_tables (omega arith)) (λ a. refl))))
            | inr (p, taken) ↦
                let (some_, both) = take_block-Holds al default_stack_size p held taken in
                rw (fork, made, taken)
                  (fork_copy-Leaves al env mg ps ks qs current parent
                    (record t { kernel_stack_pointer = p })
                    (record {
                      none_ = c.none_;
                      unlisted = c.unlisted;
                      no_tables = c.no_tables;
                      ring = c.ring;
                      trampoline = c.trampoline;
                    })
                    some_ gives both)
          ]
    ]

-- The end of a child gives back the page of its parent's trampoline: where the manager of ids is valid,
-- `fork` has made a child of a task of user space, the trampoline of the parent has a page, and that
-- page and those of `rest` are all that is held before the call, only those of `rest` and the copies
-- that `fork` has made are held after `task_exit_cleanup` of the child.
pub task_exit_cleanup-fork :
    (al : Allocator) (env : Env) (name : List ℕ) (parent : Parent) (current : TaskMemory)
    (mg : IdManager) (rest ks : ℕ → ℕ) (qs : List ℕ) (m : Machine al) (t : TaskMemory)
    (copies : List ℕ)
    → IsValid mg
    → current.ring ≡ 3
    → current.image.sig_trampoline.p_addr ≢ 0
    → Holds al m (λ a. rest a + at current.image.sig_trampoline.p_addr a) ks (some mg) qs
    → (fork al env name parent current m).ret ≡ child t copies
    → (let ended = (task_exit_cleanup al env t (fork al env name parent current m).machine).1 in
        (a : ℕ) → ended.pages_taken a ≡ ended.pages_given a + (rest a + counts copies a))
task_exit_cleanup-fork al env name parent current mg rest ks qs m t copies v user some_ h e =
    let (ids, gives, (e1, e2, e3, ring, same), held) =
      rw e at (fork-ForkLeaves al env name parent current mg _ ks qs m v h) in
    let there : (current.image.sig_trampoline.p_addr == 0) ≡ false = ne→== _ 0 some_ in
    let own : (t.ring == 0) ≡ false = ap (λ x. x == 0) (ring ∙ user) in
    let ended =
      task_exit_cleanup-Holds al env t (λ x. rest x + counts copies x) ks
        (Holds-same al held
          (λ x. rw (eq→== _ 0 e1, eq→== _ 0 e2, eq→== _ 0 e3, same, there, own) (omega arith))
          (λ x. refl)) in
    ended.pages
