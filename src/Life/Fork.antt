-- ===== src/Life/Fork.antt =====
-- `task_clone` of src/proc/task.c, and `fork` of src/syscalls/fork.c: what they take and give back.
-- The contents of the pages and of the stack, and the registers of the child, are left out.
use kernel_legacy.IdManager
use kernel_legacy.IdManager.{IdManager, to_size}
use kernel_legacy.Life.{Section, page_size, default_stack_size}
use kernel_legacy.Life.Memory.{Allocator, lowmem_zone, highmem_zone}
use kernel_legacy.Life.Userspace.{
  Machine, Step, Tables, take_block, take_pages, give_block, give_page, destroy_user_pd,
}
use kernel_legacy.Life.Tasks.{Env, TaskMemory, sizeof_section, with_ids, task_release}
use kernel_legacy.Prelude.Int.{ℤ, pos, negsuc}
use kernel_legacy.Prelude.{
  ℕ, ◌+◌, ◌*◌, ◌/◌, ◌%◌, Bool, true, false, Option, none, some, List, [], ◌∷◌, ◌++◌, leb,
  if◌then◌else◌, length, get_or,
}

-- The 32-bit word at byte `i` of a memory, over which the name and its 0 have been written from byte 0.
abbrev pub byte_under : (name : List ℕ) → (i word shift : ℕ) → ℕ
byte_under name i word shift = if leb i (length name) then get_or name i 0 else (word / shift) % 256

unfoldable pub word_under : (name : List ℕ) → (i word : ℕ) → ℕ
word_under name i word =
    byte_under name i word 1
    + 256 * byte_under name (i + 1) word 256
    + 65536 * byte_under name (i + 2) word 65536
    + 16777216 * byte_under name (i + 3) word 16777216

-- `new->name = (char *)(new->sig_trampoline + 1)`, which is where `heap_sec` is
unfoldable pub under_name : (name : List ℕ) → Section → Section
under_name name s = record {
  v_addr = word_under name 0 s.v_addr;
  p_addr = word_under name 4 s.p_addr;
  data_start = word_under name 8 s.data_start;
  data_size = word_under name 12 s.data_size;
  mapping_size = word_under name 16 s.mapping_size;
  flags = word_under name 20 s.flags;
}

-- `new->pid < 0`
abbrev pub is_negative : ℤ → Bool
is_negative (pos n) = false
is_negative (negsuc n) = true

-- a section of the child, which has no pages of its own
abbrev pub without_pages : Section → Section
without_pages s = record s { p_addr = 0 }

-- What `fork` has come to: there was no memory for the child, the copies were not finished, or there
-- is a child, with the copies that were made for it.
pub data Forked : Type 0 where
  no_child : Forked
  half_copied : TaskMemory → Forked
  child : TaskMemory → (copies : List ℕ) → Forked

-- the tables of the parent by their index, and of each of its pages whether it can be mapped
abbrev pub Parent : Type 0
Parent = List (ℕ × List Bool)

-- whether all was copied, and the tables and pages that were taken
pub record Copied : Type 0 where
  pub done : Bool
  pub tables : Tables
  pub copies : List ℕ

module _ (al : Allocator) (env : Env) where
  unfoldable pub clone_cr3 : TaskMemory → Machine al → Step al (Option TaskMemory)
  clone_cr3 t m =
      let pd = take_pages al lowmem_zone page_size m in
      elim pd.ret [
        | none ↦ record {
          ret = none;
          machine =
              give_block al t.address (
                with_ids al env pd.machine (IdManager.free pd.machine.pid_manager (to_size t.pid)));
        }
        | some p ↦ record {
          ret = some (record t { image = record t.image { cr3 = p } });
          machine = pd.machine;
        }
      ]

  unfoldable pub clone_pid : TaskMemory → Machine al → Step al (Option TaskMemory)
  clone_pid t m =
      let r = IdManager.alloc m.pid_manager in
      let got = with_ids al env m r.1 in
      if is_negative r.0
      then record { ret = none; machine = give_block al t.address got }
      else clone_cr3 (record t { pid = r.0 }) got

  -- the child has no areas yet, and is in no list
  unfoldable pub task_clone :
      (name : List ℕ) → TaskMemory → Machine al → Step al (Option TaskMemory)
  task_clone name t m =
      let new = take_block al (env.sizeof_task + sizeof_section * 5 + length name + 1) m in
      elim new.ret [
        | none ↦ record { ret = none; machine = new.machine }
        | some p ↦
            clone_pid
              (record t {
                address = p;
                kernel_stack_pointer = 0;
                image = record t.image { heap_sec = under_name name t.image.heap_sec; tables = [] };
                areas = [];
                listed = false;
              })
              new.machine
      ]

  -- the inner loop of `fork`
  unfoldable pub copy_pages : List Bool → Machine al → Step al (Bool × List ℕ)
  copy_pages [] m = record { ret = (true, []); machine = m }
  copy_pages (maps ∷ rest) m =
      let page = take_pages al highmem_zone page_size m in
      let later = copy_pages rest page.machine in
      elim page.ret [
        | none ↦ record { ret = (false, []); machine = page.machine }
        | some p ↦
            if maps
            then record { ret = (later.ret.0, p ∷ later.ret.1); machine = later.machine }
            else record { ret = (false, []); machine = give_page al p page.machine }
      ]

  -- the outer loop
  unfoldable pub copy_tables : Parent → Machine al → Step al Copied
  copy_tables [] m = record { ret = record { done = true; tables = []; copies = [] }; machine = m }
  copy_tables ((index, t) ∷ rest) m =
      let table = take_pages al lowmem_zone page_size m in
      let pages = copy_pages t table.machine in
      let later = copy_tables rest pages.machine in
      elim table.ret [
        | none ↦ record {
          ret = record { done = false; tables = []; copies = [] };
          machine = table.machine;
        }
        | some p ↦
            if pages.ret.0
            then record {
              ret = record {
                done = later.ret.done;
                tables = (index, p) ∷ later.ret.tables;
                copies = pages.ret.1 ++ later.ret.copies;
              };
              machine = later.machine;
            }
            else record {
              ret = record { done = false; tables = (index, p) ∷ []; copies = pages.ret.1 };
              machine = pages.machine;
            }
      ]

  -- behind the kernel stack
  unfoldable pub fork_copy : Parent → TaskMemory → Machine al → Step al Forked
  fork_copy parent t m =
      let i = t.image in
      let c = copy_tables parent m in
      let cleared : TaskMemory = record t {
        image = record i {
          text_sec = without_pages i.text_sec;
          data_sec = without_pages i.data_sec;
          heap_sec = without_pages i.heap_sec;
          stack_sec = without_pages i.stack_sec;
          tables = c.ret.tables;
        };
      } in
      if c.ret.done
      then record { ret = child cleared c.ret.copies; machine = c.machine }
      else record {
        ret = half_copied cleared;
        machine = task_release al env cleared (
            destroy_user_pd al c.ret.tables i.cr3 (give_block al t.kernel_stack_pointer c.machine));
      }

  unfoldable pub fork : (name : List ℕ) → Parent → TaskMemory → Machine al → Step al Forked
  fork name parent current m =
      let new = task_clone name current m in
      elim new.ret [
        | none ↦ record { ret = no_child; machine = new.machine }
        | some t ↦
            let kstack = take_block al default_stack_size new.machine in
            elim kstack.ret [
              | none ↦ record {
                ret = no_child;
                machine =
                    task_release al env t
                      (destroy_user_pd al t.image.tables t.image.cr3 kstack.machine);
              }
              | some p ↦ fork_copy parent (record t { kernel_stack_pointer = p }) kstack.machine
            ]
      ]
