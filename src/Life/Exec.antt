-- ===== src/Life/Exec.antt =====
-- `execve` of src/syscalls/execve.c: what it takes for the new program, and what it gives back of the
-- old one. The new context of the task and the jump into it are left out.
use kernel_legacy.Proc.Exit.{efault}
use kernel_legacy.Proc.Sched.{einval}
use kernel_legacy.Life.{section_init_from_buffer}
use kernel_legacy.Life.Memory.{Allocator}
use kernel_legacy.Life.Userspace.{Machine, Step, take_block, userspace_create_new}
use kernel_legacy.Life.Tasks.{Env, MapsOf, TaskMemory, sizeof_vm_area}
use kernel_legacy.Prelude.Int.{ℤ, pos, negsuc}
use kernel_legacy.Prelude.{
  ℕ, ◌+◌, ◌-◌, ◌%◌, Bool, true, false, not, none, some, List, [], ◌∷◌, leb, ◌==◌, if◌then◌else◌,
  length, get_or,
}

-- an entry of `mok_registry`, whose addresses the linker fixes
pub record Program : Type 0 where
  pub start : ℕ
  pub end_ : ℕ
  pub is_user : Bool

-- What `execve` has come to: it returned the negated code, it panicked, or the task goes on in user
-- space or in the kernel.
pub data Execve : Type 0 where
  refused : (code : ℕ) → Execve
  panics : Execve
  enters_user : TaskMemory → Execve
  enters_kernel : TaskMemory → Execve

module _ (al : Allocator) (env : Env) where
  -- behind the user space: the area of the new heap
  unfoldable pub new_area : TaskMemory → Machine al → Step al Execve
  new_area t m =
      let area = take_block al sizeof_vm_area m in
      elim area.ret [
        | none ↦ record { ret = panics; machine = area.machine }
        | some p ↦ record {
          ret = enters_user (record t { areas = p ∷ [] });
          machine = area.machine;
        }
      ]

  -- with the section of the text in place
  unfoldable pub load_program : (is_user : Bool) → MapsOf → TaskMemory → Machine al → Step al Execve
  load_program true maps t m =
      let space =
        userspace_create_new al (not (env.kernel_directory == 0)) maps.text maps.stack maps.dat
          maps.trampoline t.image m in
      if space.ret.0
      then new_area (record t { image = space.ret.1 }) space.machine
      else record { ret = panics; machine = space.machine }
  load_program false maps t m = record {
    ret = enters_kernel (record t {
      image = record t.image { cr3 = env.kernel_directory; tables = [] };
      areas = [];
    });
    machine = m;
  }

  -- `registry` has as many programs as `MOK_SENTINEL` says
  unfoldable pub execve :
      (registry : List Program) → MapsOf → ℤ → TaskMemory → Machine al → Step al Execve
  execve registry maps (negsuc n) t m = record { ret = refused einval; machine = m }
  execve registry maps (pos index) t m =
      let p = get_or registry index (record { start = 0; end_ = 0; is_user = false }) in
      let fn_size = (p.end_ + (4294967296 - p.start)) % 4294967296 in
      if leb (length registry) index
      then record { ret = refused einval; machine = m }
      else elim (section_init_from_buffer 0 p.start fn_size 0) [
        | none ↦ record { ret = refused efault; machine = m }
        | some text ↦
            load_program p.is_user maps (record t { image = record t.image { text_sec = text } }) m
      ]
