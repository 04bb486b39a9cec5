-- ===== src/Life/Creating.antt =====
-- `task_get_new` gives back all that it has taken, at whatever step it fails.
use kernel_legacy.IdManager
use kernel_legacy.IdManager.{IdManager, to_size, is_full}
use kernel_legacy.IdManager.Lowest.{IsValid, used, Leaves}
use kernel_legacy.Life.{Section, default_stack_size, section_init_from_buffer}
use kernel_legacy.Life.Memory.{at, block_at, Allocator}
use kernel_legacy.Life.Userspace.{Machine, Step, take_block, userspace_create_new}
use kernel_legacy.Life.Balance.{
  owns, table_pages, Holds, Holds-same, give_block-Holds, take_block-Holds, no_block-Holds,
}
use kernel_legacy.Life.Mapped.{userspace_create_new-TakesImage}
use kernel_legacy.Life.Ids.{Gives, alloc-Gives, free-Leaves}
use kernel_legacy.Life.Tasks.{
  Env, MapsOf, TaskMemory, Created, panics, fails, makes, sizeof_section, sizeof_vm_area, template,
  free_task, free_pid, free_kstack, enlist, enter_ring, add_trampoline, add_kstack, add_pid,
  blank_task, task_get_new,
}
use kernel_legacy.Prelude.Int.{ℤ}
use kernel_legacy.Prelude.{
  ℕ, ◌+◌, ◌*◌, ◌≡◌, refl, ap, ◌∙◌, ◌⊎◌, inl, inr, true, false, not, ◌||◌, Option, none, some, List,
  [], ◌∷◌, ◌++◌, arith, ltb, ◌==◌, if◌then◌else◌, ==→eq, eq→==, Bool-cases, Option-cases,
}

-- the pages of a task; the directory of a task of the kernel is not its own
abbrev pub task_pages : TaskMemory → ℕ → ℕ
task_pages t a =
    owns t.image.text_sec a
    + (owns t.image.stack_sec a
        + (owns t.image.data_sec a
            + (owns t.image.sig_trampoline a
                + (if t.ring == 0 then 0 else at t.image.cr3 a + table_pages t.image.tables a))))

abbrev pub area_blocks : List ℕ → ℕ → ℕ
area_blocks [] a = 0
area_blocks (p ∷ rest) a = area_blocks rest a + block_at p a

-- its blocks: the structure, the stack and the areas
abbrev pub task_blocks : TaskMemory → ℕ → ℕ
task_blocks t a = block_at t.address a + (block_at t.kernel_stack_pointer a + area_blocks t.areas a)

module _ (al : Allocator) (mg : IdManager) (ps ks : ℕ → ℕ) (qs : List ℕ) where
  -- What a call leaves that had `ps` and `ks`, the ids of `mg` and the tasks `qs`: where it fails, the
  -- same pages, blocks, ids and tasks; where it makes a task, what belongs to the task beside them.
  abbrev pub NewTask : Step al Created → Type 0
  NewTask r = elim r.ret as (λ _. Type 0) [
    | panics ↦ Unit
    | fails ↦
        (ids : Option IdManager) × Leaves ids mg.bitmap.nb_bits (used mg)
        × Holds al r.machine ps ks ids qs
    | makes t ↦
        (ids : Option IdManager) × Gives ids mg.bitmap.nb_bits (used mg) t.pid
        × (t.listed ≡ true)
        × ((t.ring ≡ 3) ⊎ (t.areas ≡ []))
        × Holds al r.machine (λ a. ps a + task_pages t a) (λ a. ks a + task_blocks t a) ids
            (qs ++ (t.address ∷ []))
  ]

  -- an id that is taken, in a machine that holds these pages and blocks
  abbrev Taken : Machine al → ℤ → (ps' ks' : ℕ → ℕ) → Type 0
  Taken m pid ps' ks' =
      (ids : Option IdManager) × Gives ids mg.bitmap.nb_bits (used mg) pid
      × Holds al m ps' ks' ids qs

  module _ (env : Env) where
    free_task-NewTask :
        (new : ℕ) {m : Machine al} {ids : Option IdManager}
        → Leaves ids mg.bitmap.nb_bits (used mg)
        → Holds al m ps (λ a. ks a + block_at new a) ids qs
        → NewTask (free_task al env new m)
    unfolding free_task
    free_task-NewTask new {ids = ids} left h = (ids, left, give_block-Holds al new h)

    free_pid-NewTask :
        (new : ℕ) (pid : ℤ) {m : Machine al}
        → Taken m pid ps (λ a. ks a + block_at new a)
        → NewTask (free_pid al env new pid m)
    unfolding free_pid
    free_pid-NewTask new pid {m} (ids, gives, h) =
        free_task-NewTask new {ids = IdManager.free m.pid_manager (to_size pid)}
          (rw h.ids (free-Leaves ids mg.bitmap.nb_bits (used mg) pid gives))
          (record { pages = h.pages; blocks = h.blocks; ids = refl; queue = h.queue })

    free_kstack-NewTask :
        (new : ℕ) (pid : ℤ) (kstack : ℕ) {m : Machine al}
        → Taken m pid ps (λ a. (ks a + block_at new a) + block_at kstack a)
        → NewTask (free_kstack al env new pid kstack m)
    unfolding free_kstack
    free_kstack-NewTask new pid kstack (ids, gives, h) =
        free_pid-NewTask new pid (ids, gives, give_block-Holds al kstack h)

    -- the blocks of a task before it has areas
    abbrev started : TaskMemory → ℕ → ℕ
    started t a = (ks a + block_at t.address a) + block_at t.kernel_stack_pointer a

    enlist-NewTask :
        (t : TaskMemory) {m : Machine al}
        → t.areas ≡ []
        → Taken m t.pid (λ a. ps a + task_pages t a) (started t)
        → NewTask (enlist al env t m)
    unfolding enlist
    enlist-NewTask t {m} none_ (ids, gives, h) =
        let queued : Machine al = record m { info_queue = m.info_queue ++ (t.address ∷ []) } in
        let h' : Holds al queued (λ a. ps a + task_pages t a) (started t) ids
            (qs ++ (t.address ∷ [])) =
          record {
            pages = h.pages;
            blocks = h.blocks;
            ids = h.ids;
            queue = ap (λ q. q ++ (t.address ∷ [])) h.queue;
          } in
        elim (Bool-cases (t.ring == 3)) [
          | inl user ↦ elim (Option-cases (take_block al sizeof_vm_area queued).ret) [
            | inl refused ↦ rw (enlist, user, refused) tt
            | inr (p, taken) ↦
                let (_, held) = take_block-Holds al sizeof_vm_area p h' taken in
                rw (enlist, user, taken)
                  (
                    ids,
                    gives,
                    refl,
                    inl (==→eq t.ring 3 user),
                    Holds-same al held (λ a. refl) (λ a. omega arith),
                  )
          ]
          | inr kernel ↦
              rw (enlist, kernel)
                (
                  ids,
                  gives,
                  refl,
                  inr none_,
                  Holds-same al h' (λ a. refl) (λ a. rw none_ (omega arith)),
                )
        ]

    -- no section of the task has pages yet
    abbrev Unmapped : TaskMemory → Type 0
    Unmapped t =
        (t.image.text_sec.p_addr ≡ 0)
        × (t.image.data_sec.p_addr ≡ 0)
        × (t.image.stack_sec.p_addr ≡ 0)
        × (t.areas ≡ [])

    enter_ring-NewTask :
        (maps : MapsOf) (t : TaskMemory) {m : Machine al}
        → Unmapped t
        → t.image.sig_trampoline.p_addr ≡ 0
        → Taken m t.pid ps (started t)
        → NewTask (enter_ring al env maps t m)
    unfolding enter_ring
    enter_ring-NewTask maps t {m} (e1, e2, e3, none_) e4 (ids, gives, h) =
        let kernel = not (env.kernel_directory == 0) in
        let space =
          userspace_create_new al kernel maps.text maps.stack maps.dat maps.trampoline t.image m in
        elim (Bool-cases (t.ring == 3)) [
          | inl user ↦
              let high : (t.ring == 0) ≡ false = rw (==→eq t.ring 3 user) refl in
              elim (userspace_create_new-TakesImage al ids qs kernel maps.text maps.stack maps.dat
                maps.trampoline t.image m ps (started t) e1 e2 (inl e4) h) [
                  | inl (done, held) ↦
                      rw (enter_ring, user, done)
                        (enlist-NewTask (record t { image = space.ret.1 }) none_
                          (ids, gives, Holds-same al held (λ a. rw high refl) (λ a. refl)))
                  | inr (failed, held) ↦
                      rw (enter_ring, user, failed)
                        (free_kstack-NewTask t.address t.pid t.kernel_stack_pointer
                          (ids, gives, held))
                ]
          | inr other ↦ elim (Bool-cases (t.ring == 0)) [
            | inl kernel_task ↦
                rw (enter_ring, other, kernel_task)
                  (enlist-NewTask
                    (record t { image = record t.image { cr3 = env.kernel_directory } }) none_
                    (
                      ids,
                      gives,
                      Holds-same al h
                          (λ a.
                            rw (eq→== _ 0 e1, eq→== _ 0 e2, eq→== _ 0 e3, eq→== _ 0 e4, kernel_task)
                              (omega arith))
                          (λ a. refl),
                    ))
            | inr wrong ↦ rw (enter_ring, other, wrong) tt
          ]
        ]

    add_trampoline-NewTask :
        (maps : MapsOf) (t : TaskMemory) {m : Machine al}
        → Unmapped t
        → Taken m t.pid ps (started t)
        → NewTask (add_trampoline al env maps t m)
    unfolding add_trampoline section_init_from_buffer
    add_trampoline-NewTask maps t blank taken =
        elim (Bool-cases ((env.sig_trampoline_start == 0) || (env.sig_trampoline_size == 0))) [
          | inl empty ↦
              rw (add_trampoline, section_init_from_buffer, empty)
                (free_kstack-NewTask t.address t.pid t.kernel_stack_pointer taken)
          | inr some_ ↦
              rw (add_trampoline, section_init_from_buffer, some_)
                (enter_ring-NewTask maps _ blank refl taken)
        ]

    add_kstack-NewTask :
        (maps : MapsOf) (t : TaskMemory) {m : Machine al}
        → Unmapped t
        → Taken m t.pid ps (λ a. ks a + block_at t.address a)
        → NewTask (add_kstack al env maps t m)
    unfolding add_kstack
    add_kstack-NewTask maps t {m} blank (ids, gives, h) =
        elim (Option-cases (take_block al default_stack_size m).ret) [
          | inl refused ↦
              rw (add_kstack, refused)
                (free_pid-NewTask t.address t.pid
                  (ids, gives, no_block-Holds al default_stack_size h refused))
          | inr (p, taken) ↦
              let (_, held) = take_block-Holds al default_stack_size p h taken in
              rw (add_kstack, taken)
                (add_trampoline-NewTask maps (record t { kernel_stack_pointer = p }) blank
                  (ids, gives, held))
        ]

    add_pid-NewTask :
        (maps : MapsOf) (t : TaskMemory) {m : Machine al}
        → IsValid mg
        → Unmapped t
        → Holds al m ps (λ a. ks a + block_at t.address a) (some mg) qs
        → NewTask (add_pid al env maps t m)
    unfolding add_pid
    add_pid-NewTask maps t {m} v blank h =
        let r = IdManager.alloc m.pid_manager in
        let same : r ≡ IdManager.alloc (some mg) = ap IdManager.alloc h.ids in
        let held : Holds al (record m { pid_manager = r.1 }) ps (λ a. ks a + block_at t.address a)
            r.1 qs =
          record { pages = h.pages; blocks = h.blocks; ids = refl; queue = h.queue } in
        elim (alloc-Gives v) [
          | inl (full, left) ↦
              rw (add_pid, ap (λ x. is_full x.0) same ∙ full)
                (free_task-NewTask t.address {ids = r.1} (rw same left) held)
          | inr (room, gives) ↦
              rw (add_pid, ap (λ x. is_full x.0) same ∙ room)
                (add_kstack-NewTask maps (record t { pid = r.0 }) blank (r.1, rw same gives, held))
        ]

-- Where the manager of ids is valid and the templates have no pages, `task_get_new` holds, where it
-- makes a task, one id, the structure, the kernel stack and the area of the task, its sections' pages
-- and its page directory, beside what was held before, and the task is the last in the list of tasks.
-- Where it fails, at whatever step, the ids, pages, blocks and tasks are those from before. Nothing is
-- said of a call that panics.
pub task_get_new-NewTask :
    (al : Allocator) (env : Env) (maps : MapsOf) (name : Option ℕ) (ring : ℕ)
    (text dat : Option Section) (mg : IdManager) (ps ks : ℕ → ℕ) (qs : List ℕ) (m : Machine al)
    → IsValid mg
    → (template text).p_addr ≡ 0
    → (template dat).p_addr ≡ 0
    → Holds al m ps ks (some mg) qs
    → NewTask al mg ps ks qs (task_get_new al env maps name ring text dat m)
unfolding task_get_new
task_get_new-NewTask al env maps none ring text dat mg ps ks qs m v e1 e2 h =
    (some mg, (mg, refl, v, refl, λ j lt. refl), h)
task_get_new-NewTask al env maps (some name_len) ring text dat mg ps ks qs m v e1 e2 h =
    let size =
      env.sizeof_task + sizeof_section * 5 + (if ltb 16 name_len then 16 else name_len) + 1 in
    elim (Option-cases (take_block al size m).ret) [
      | inl refused ↦
          rw (task_get_new, h.ids, refused)
            (some mg, (mg, refl, v, refl, λ j lt. refl), no_block-Holds al size h refused)
      | inr (p, taken) ↦
          let (_, held) = take_block-Holds al size p h taken in
          rw (task_get_new, h.ids, taken)
            (add_pid-NewTask al mg ps ks qs env maps (blank_task al env p ring text dat) v
              (e1, e2, refl, refl) held)
    ]
