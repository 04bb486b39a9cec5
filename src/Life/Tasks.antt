-- ===== src/Life/Tasks.antt =====
-- `task_get_new`, `task_clone`, `task_exit_cleanup` and `task_release` of src/proc/task.c, and what
-- src/syscalls/fork.c takes and gives back around the copies of the pages.
use kernel_legacy.IdManager
use kernel_legacy.IdManager.{to_size, is_full}
use kernel_legacy.Life.{
  Section, empty_section, default_stack_size, user_trampoline_vaddr, user_section_ro,
  section_init_from_buffer, Image,
}
use kernel_legacy.Life.Memory.{Allocator}
use kernel_legacy.Life.Userspace.{
  Machine, Step, Maps, take_block, give_block, give_section, destroy_user_pd, userspace_create_new,
}
use kernel_legacy.Prelude.Int.{ℤ, pos}
use kernel_legacy.Prelude.{
  ℕ, ◌+◌, ◌*◌, Bool, true, false, not, Option, none, some, List, [], ◌∷◌, ◌++◌, ltb, ◌==◌,
  if◌then◌else◌, remove,
}

-- what the linker and the compiler fix
pub record Env : Type 0 where
  pub sizeof_task : ℕ
  pub sig_trampoline_start : ℕ
  pub sig_trampoline_size : ℕ
  pub kernel_directory : ℕ

-- which pages of the sections can be mapped
pub record MapsOf : Type 0 where
  pub text : Maps
  pub stack : Maps
  pub dat : Maps
  pub trampoline : Maps

-- the fields of `struct task` for its memory; `areas` are the structures of `vma_areas`, and `listed` is
-- whether `info_node` is in `info_queue`, or alone
pub record TaskMemory : Type 0 where
  pub address : ℕ
  pub pid : ℤ
  pub kernel_stack_pointer : ℕ
  pub ring : ℕ
  pub image : Image
  pub areas : List ℕ
  pub listed : Bool

pub data Created : Type 0 where
  panics : Created
  fails : Created
  makes : TaskMemory → Created

-- `sizeof(struct section)`
abbrev pub sizeof_section : ℕ
sizeof_section = 24

-- `sizeof(struct vm_area)`
abbrev pub sizeof_vm_area : ℕ
sizeof_vm_area = 32

-- a template, where it is not `NULL`, in the zeroed memory of the task
abbrev pub template : Option Section → Section
template none = empty_section
template (some s) = s

module _ (al : Allocator) (env : Env) where
  abbrev pub with_ids : Machine al → Option IdManager.IdManager → Machine al
  with_ids m ids = record m { pid_manager = ids }

  -- the labels at the end of `task_get_new`
  unfoldable pub free_task : (new : ℕ) → Machine al → Step al Created
  free_task new m = record { ret = fails; machine = give_block al new m }

  unfoldable pub free_pid : (new : ℕ) → (pid : ℤ) → Machine al → Step al Created
  free_pid new pid m = free_task new (with_ids m (IdManager.free m.pid_manager (to_size pid)))

  unfoldable pub free_kstack : (new : ℕ) → (pid : ℤ) → (kstack : ℕ) → Machine al → Step al Created
  free_kstack new pid kstack m = free_pid new pid (give_block al kstack m)

  -- the end of `task_get_new`: the task goes to the queue of all tasks, and gets its first area
  unfoldable pub enlist : TaskMemory → Machine al → Step al Created
  enlist t m =
      let queued : Machine al = record m { info_queue = m.info_queue ++ (t.address ∷ []) } in
      let area = take_block al sizeof_vm_area queued in
      if t.ring == 3
      then elim area.ret [
        | none ↦ record { ret = panics; machine = area.machine }
        | some p ↦ record {
          ret = makes (record t { areas = p ∷ []; listed = true });
          machine = area.machine;
        }
      ]
      else record { ret = makes (record t { listed = true }); machine = queued }

  -- the `switch` over the ring
  unfoldable pub enter_ring : MapsOf → TaskMemory → Machine al → Step al Created
  enter_ring maps t m =
      let space =
        userspace_create_new al (not (env.kernel_directory == 0)) maps.text maps.stack maps.dat
          maps.trampoline t.image m in
      if t.ring == 3
      then (if space.ret.0
          then enlist (record t { image = space.ret.1 }) space.machine
          else free_kstack t.address t.pid t.kernel_stack_pointer space.machine)
      else if t.ring == 0
      then enlist (record t { image = record t.image { cr3 = env.kernel_directory } }) m
      else record { ret = panics; machine = m }

  -- behind the stack of the kernel
  unfoldable pub add_trampoline : MapsOf → TaskMemory → Machine al → Step al Created
  add_trampoline maps t m =
      elim (section_init_from_buffer user_trampoline_vaddr env.sig_trampoline_start
        env.sig_trampoline_size user_section_ro) [
          | none ↦ free_kstack t.address t.pid t.kernel_stack_pointer m
          | some sec ↦
              enter_ring maps (record t { image = record t.image { sig_trampoline = sec } }) m
        ]

  -- behind the id
  unfoldable pub add_kstack : MapsOf → TaskMemory → Machine al → Step al Created
  add_kstack maps t m =
      let kstack = take_block al default_stack_size m in
      elim kstack.ret [
        | none ↦ free_pid t.address t.pid kstack.machine
        | some p ↦ add_trampoline maps (record t { kernel_stack_pointer = p }) kstack.machine
      ]

  -- behind the memory of the task
  unfoldable pub add_pid : MapsOf → TaskMemory → Machine al → Step al Created
  add_pid maps t m =
      let r = IdManager.alloc m.pid_manager in
      let got = with_ids m r.1 in
      if is_full r.0 then free_task t.address got else add_kstack maps (record t { pid = r.0 }) got

  -- the task in its zeroed memory
  abbrev pub blank_task : (address ring : ℕ) → (text dat : Option Section) → TaskMemory
  blank_task address ring text dat = record {
    address = address;
    pid = pos 0;
    kernel_stack_pointer = 0;
    ring = ring;
    image = record {
      text_sec = template text;
      data_sec = template dat;
      stack_sec = empty_section;
      heap_sec = empty_section;
      sig_trampoline = empty_section;
      cr3 = 0;
      tables = [];
    };
    areas = [];
    listed = false;
  }

  -- `name` is the length of the name, where there is one
  unfoldable pub task_get_new :
      MapsOf
      → (name : Option ℕ) → (ring : ℕ) → (text dat : Option Section) → Machine al
      → Step al Created
  task_get_new maps none ring text dat m = record { ret = fails; machine = m }
  task_get_new maps (some name_len) ring text dat m =
      let kept = if ltb 16 name_len then 16 else name_len in
      let new = take_block al (env.sizeof_task + sizeof_section * 5 + kept + 1) m in
      elim m.pid_manager [
        | none ↦ record { ret = fails; machine = m }
        | some _ ↦ elim new.ret [
          | none ↦ record { ret = fails; machine = new.machine }
          | some p ↦ add_pid maps (blank_task p ring text dat) new.machine
        ]
      ]

  -- `vma_destroy_areas` for areas without pages
  unfoldable pub give_areas : List ℕ → Machine al → Machine al
  give_areas [] m = m
  give_areas (p ∷ rest) m = give_areas rest (give_block al p m)

  -- The page directory goes back as the last of the user space.
  unfoldable pub task_exit_cleanup : TaskMemory → Machine al → TaskMemory × Machine al
  task_exit_cleanup t m =
      let i = t.image in
      let given =
        give_section al i.sig_trampoline (
          give_section al i.stack_sec
            (give_section al i.data_sec (give_section al i.text_sec m))) in
      let cleared : Image = record i {
        text_sec = empty_section;
        data_sec = empty_section;
        stack_sec = empty_section;
        heap_sec = empty_section;
      } in
      if t.ring == 0 then (record t { image = cleared }, given) else (
        record t { image = record cleared { tables = [] }; areas = [] },
        destroy_user_pd al i.tables i.cr3 (give_areas t.areas given),
      )

  unfoldable pub task_release : TaskMemory → Machine al → Machine al
  task_release t m =
      let unlisted : Machine al = record m {
        info_queue = if t.listed then remove t.address m.info_queue else m.info_queue;
        pid_manager = IdManager.free m.pid_manager (to_size t.pid);
      } in
      give_block al t.address (give_block al t.kernel_stack_pointer unlisted)
