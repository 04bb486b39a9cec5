-- ===== src/Life/Leaks.antt =====
-- `execve` gives back nothing of the old program: neither its pages nor its areas.
use kernel_legacy.IdManager.{IdManager}
use kernel_legacy.Life.{section_init_from_buffer}
use kernel_legacy.Life.Memory.{block_at, Allocator}
use kernel_legacy.Life.Userspace.{Machine, Step, take_block, userspace_create_new}
use kernel_legacy.Life.Balance.{Holds, Holds-same, take_block-Holds}
use kernel_legacy.Life.Mapped.{image_pages, userspace_create_new-TakesImage}
use kernel_legacy.Life.Tasks.{Env, MapsOf, TaskMemory, sizeof_vm_area, task_exit_cleanup}
use kernel_legacy.Life.Creating.{area_blocks, task_pages, task_blocks}
use kernel_legacy.Life.Lifetime.{task_exit_cleanup-Holds}
use kernel_legacy.Life.Exec.{
  Program, Execve, refused, panics, enters_user, enters_kernel, new_area, load_program, execve,
}
use kernel_legacy.Prelude.Int.{ℤ, pos, negsuc}
use kernel_legacy.Prelude.{
  ℕ, ◌+◌, ◌-◌, ◌%◌, ◌≡◌, refl, sym, ap, ◌∙◌, ◌≢◌, inl, inr, Bool, true, false, not, ◌||◌, Option,
  List, [], arith, leb, ◌==◌, ne→==, Bool-cases, Option-cases, length, get_or,
}

module _ (al : Allocator) (env : Env) (is : Option IdManager) (qs : List ℕ) (ps ks : ℕ → ℕ)
    (old : TaskMemory) where
  -- What a call leaves that had `ps` and `ks`: all of it, and with it what the new program has.
  abbrev pub ExecveLeaves : Step al Execve → Type 0
  ExecveLeaves r = elim r.ret as (λ _. Type 0) [
    | refused code ↦ Holds al r.machine ps ks is qs
    | panics ↦ Unit
    | enters_user t ↦
        (t.address ≡ old.address)
        × (t.kernel_stack_pointer ≡ old.kernel_stack_pointer)
        × (t.ring ≡ old.ring)
        × Holds al r.machine (λ a. ps a + image_pages al is qs t.image a)
            (λ a. ks a + area_blocks t.areas a) is qs
    | enters_kernel t ↦ (t.areas ≡ []) × Holds al r.machine ps ks is qs
  ]

  new_area-ExecveLeaves :
      (t : TaskMemory) {m : Machine al}
      → (t.address ≡ old.address)
        × (t.kernel_stack_pointer ≡ old.kernel_stack_pointer)
        × (t.ring ≡ old.ring)
      → Holds al m (λ a. ps a + image_pages al is qs t.image a) ks is qs
      → ExecveLeaves (new_area al env t m)
  unfolding new_area
  new_area-ExecveLeaves t {m} (e1, e2, e3) h =
      elim (Option-cases (take_block al sizeof_vm_area m).ret) [
        | inl refused_ ↦ rw (new_area, refused_) tt
        | inr (p, taken) ↦
            let (_, held) = take_block-Holds al sizeof_vm_area p h taken in
            rw (new_area, taken) (e1, e2, e3, Holds-same al held (λ a. refl) (λ a. omega arith))
      ]

  load_program-ExecveLeaves :
      (is_user : Bool) (maps : MapsOf) (t : TaskMemory) {m : Machine al}
      → (t.address ≡ old.address)
        × (t.kernel_stack_pointer ≡ old.kernel_stack_pointer)
        × (t.ring ≡ old.ring)
      → t.image.text_sec.p_addr ≡ 0
      → t.image.data_sec.p_addr ≡ 0
      → (t.image.sig_trampoline.mapping_size == 0) ≡ false
      → Holds al m ps ks is qs
      → ExecveLeaves (load_program al env is_user maps t m)
  unfolding load_program
  load_program-ExecveLeaves true maps t {m} same e1 e2 sized h =
      let kernel = not (env.kernel_directory == 0) in
      let space =
        userspace_create_new al kernel maps.text maps.stack maps.dat maps.trampoline t.image m in
      elim (Bool-cases space.ret.0) [
        | inl done ↦
            elim (userspace_create_new-TakesImage al is qs kernel maps.text maps.stack maps.dat
              maps.trampoline t.image m ps ks e1 e2 (inr (sized, done)) h) [
                | inl (_, held) ↦
                    rw (load_program, done)
                      (new_area-ExecveLeaves (record t { image = space.ret.1 }) same held)
                | inr (failed, _) ↦ absurd (cc (sym done ∙ failed))
              ]
        | inr failed ↦ rw (load_program, failed) tt
      ]
  load_program-ExecveLeaves false maps t same e1 e2 sized h = (refl, h)

-- Where the task has no pages of data and its trampoline has a size, `execve` that returns changes
-- nothing. Where it enters a program, all pages and blocks from before are still held, those of the old
-- program among them; a program of user space holds its sections, page directory and area besides.
-- Nothing is said of a call that panics.
pub execve-ExecveLeaves :
    (al : Allocator) (env : Env) (registry : List Program) (maps : MapsOf) (index : ℤ)
    (t : TaskMemory) (is : Option IdManager) (qs : List ℕ) (ps ks : ℕ → ℕ) (m : Machine al)
    → t.image.data_sec.p_addr ≡ 0
    → t.image.sig_trampoline.mapping_size ≢ 0
    → Holds al m ps ks is qs
    → ExecveLeaves al env is qs ps ks t (execve al env registry maps index t m)
unfolding execve section_init_from_buffer
execve-ExecveLeaves al env registry maps (negsuc n) t is qs ps ks m none_ sized h = h
execve-ExecveLeaves al env registry maps (pos index) t is qs ps ks m none_ sized h =
    let p = get_or registry index (record { start = 0; end_ = 0; is_user = false }) in
    let fn_size = (p.end_ + (4294967296 - p.start)) % 4294967296 in
    elim (Bool-cases (leb (length registry) index)) [
      | inl out ↦ rw (execve, out) h
      | inr within ↦ elim (Bool-cases ((p.start == 0) || (fn_size == 0))) [
        | inl empty ↦ rw (execve, within, section_init_from_buffer, empty) h
        | inr full ↦
            rw (execve, within, section_init_from_buffer, full)
              (load_program-ExecveLeaves al env is qs ps ks t p.is_user maps _ (refl, refl, refl)
                refl none_ (ne→== _ 0 sized) h)
      ]
    ]

-- a task of user space keeps its structure and its kernel stack
ended-blocks :
    (al : Allocator) (env : Env) (t : TaskMemory) (m : Machine al) (a : ℕ)
    → (t.ring == 0) ≡ false
    → task_blocks (task_exit_cleanup al env t m).0 a
      ≡ block_at t.address a + block_at t.kernel_stack_pointer a
unfolding task_exit_cleanup
ended-blocks al env t m a user = rw (task_exit_cleanup, user) (omega arith)

-- Where a task of user space without pages of data, whose trampoline has a size, went through `execve`
-- into a program of user space, it gives back, where it ends, the pages and the areas of the new
-- program; those that the old one had stay held.
pub task_exit_cleanup-execve :
    (al : Allocator) (env : Env) (registry : List Program) (maps : MapsOf) (index : ℤ)
    (t new : TaskMemory) (is : Option IdManager) (qs : List ℕ) (ps ks : ℕ → ℕ) (m : Machine al)
    → t.ring ≡ 3
    → t.image.data_sec.p_addr ≡ 0
    → t.image.sig_trampoline.mapping_size ≢ 0
    → Holds al m (λ a. ps a + task_pages t a) (λ a. ks a + task_blocks t a) is qs
    → (execve al env registry maps index t m).ret ≡ enters_user new
    → (let ended = task_exit_cleanup al env new (execve al env registry maps index t m).machine in
        Holds al ended.1 (λ a. ps a + task_pages t a) (λ a. ks a + task_blocks t a) is qs)
task_exit_cleanup-execve al env registry maps index t new is qs ps ks m user none_ sized h e =
    let (e1, e2, e3, held) =
      rw e at (execve-ExecveLeaves al env registry maps index t is qs _ _ m none_ sized h) in
    let own : (new.ring == 0) ≡ false = ap (λ x. x == 0) (e3 ∙ user) in
    let made = (execve al env registry maps index t m).machine in
    let ended =
      task_exit_cleanup-Holds al env new (λ a. ps a + task_pages t a)
        (λ a. ks a + area_blocks t.areas a)
        (Holds-same al held (λ a. rw own refl) (λ a. rw (e1, e2) (omega arith))) in
    Holds-same al ended (λ a. refl)
      (λ a.
        let left = ended-blocks al env new made a own in
        let s1 : block_at new.address a ≡ block_at t.address a = ap (λ x. block_at x a) e1 in
        let s2 : block_at new.kernel_stack_pointer a ≡ block_at t.kernel_stack_pointer a =
          ap (λ x. block_at x a) e2 in
        omega (arith, left, s1, s2))
