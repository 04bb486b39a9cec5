-- ===== src/Life/Userspace.antt =====
-- `map_section` and `userspace_create_new`: which pages and blocks they take, and give back where a
-- step fails. The window of `vmm_kmap` is an argument; the table for it is in the part of the directory
-- that all tasks share.
use kernel_legacy.IdManager.{IdManager}
use kernel_legacy.Life.{Section, page_size, has_data, Image, place_sections}
use kernel_legacy.Life.Memory.{at, Allocator, lowmem_zone, highmem_zone, not_null}
use kernel_legacy.Prelude.{
  ℕ, zero, suc, ◌+◌, ◌*◌, ◌/◌, ◌%◌, Bool, true, false, not, ◌&&◌, ◌||◌, Option, none, some, List,
  [], ◌∷◌, leb, ◌==◌, if◌then◌else◌,
}

-- The memory, the ids and the list of all tasks; and for each address how often it has been taken from
-- the buddy allocator and from `kmalloc`, and how often it has been given back.
pub record Machine (al : Allocator) : Type 0 where
  pub memory : al.State
  pub pages_taken : ℕ → ℕ
  pub pages_given : ℕ → ℕ
  pub blocks_taken : ℕ → ℕ
  pub blocks_given : ℕ → ℕ
  pub pid_manager : Option IdManager
  pub info_queue : List ℕ

-- what a step returns, and what it leaves
pub record Step (al : Allocator) (A : Type 0) : Type 0 where
  pub ret : A
  pub machine : Machine al

-- for which pages of a section `vmm_kmap` finds a window
abbrev pub Maps : Type 0
Maps = ℕ → Bool

-- the tables of a page directory below the kernel, each with its index in the directory
abbrev pub Tables : Type 0
Tables = List (ℕ × ℕ)

abbrev pub has_table : ℕ → Tables → Bool
has_table index [] = false
has_table index ((i, p) ∷ rest) = (i == index) || has_table index rest

-- what the mapping of a section ends with: the section with its pages noted, and the tables
pub record Mapped : Type 0 where
  pub done : Bool
  pub sec : Section
  pub tables : Tables

-- `sizeof(struct io_stream) + sizeof(struct io_ops)`
abbrev pub sizeof_stream : ℕ
sizeof_stream = 36

-- one address more
abbrev pub count_in : Option ℕ → (ℕ → ℕ) → ℕ → ℕ
count_in none count a = count a
count_in (some p) count a = count a + at p a

module _ (al : Allocator) where
  unfoldable pub take_pages : (zone size : ℕ) → Machine al → Step al (Option ℕ)
  take_pages zone size m =
      let r = al.buddy_alloc_pages m.memory size zone in
      record {
        ret = not_null r.0;
        machine = record m { memory = r.1; pages_taken = count_in (not_null r.0) m.pages_taken };
      }

  unfoldable pub take_block : (size : ℕ) → Machine al → Step al (Option ℕ)
  take_block size m =
      let r = al.kmalloc m.memory size in
      record {
        ret = not_null r.0;
        machine = record m { memory = r.1; blocks_taken = count_in (not_null r.0) m.blocks_taken };
      }

  unfoldable pub give_page : (p : ℕ) → Machine al → Machine al
  give_page p m = record m {
    memory = al.buddy_free_block m.memory p;
    pages_given = count_in (some p) m.pages_given;
  }

  -- `kfree` does nothing to `NULL`
  unfoldable pub give_block : (p : ℕ) → Machine al → Machine al
  give_block p m = if p == 0 then m else record m {
    memory = al.kfree m.memory p;
    blocks_given = count_in (some p) m.blocks_given;
  }

  -- the table of an index in `vmm_map_page`, which is made where there is none; those of the kernel,
  -- from 768 on, are there
  unfoldable pub get_table : (index : ℕ) → Tables → Machine al → Step al (Bool × Tables)
  get_table index tables m =
      let page = take_pages lowmem_zone page_size m in
      if leb 768 index || has_table index tables
      then record { ret = (true, tables); machine = m }
      else elim page.ret [
        | none ↦ record { ret = (false, tables); machine = page.machine }
        | some p ↦ record { ret = (true, (index, p) ∷ tables); machine = page.machine }
      ]

  -- the loop of `map_section` over `n` pages from the `i`th on
  unfoldable pub map_pages : Maps → (v_addr i n : ℕ) → Tables → Machine al → Step al (Bool × Tables)
  map_pages maps v_addr i zero tables m = record { ret = (true, tables); machine = m }
  map_pages maps v_addr i (suc n) tables m =
      let table = get_table ((v_addr + i * page_size) % 4294967296 / 4194304) tables m in
      let later = map_pages maps v_addr (suc i) n table.ret.1 table.machine in
      if not (maps i)
      then record { ret = (false, tables); machine = m }
      else if table.ret.0
      then later
      else table

  -- `vmm_destroy_user_pd`: the tables of the directory, and the directory
  unfoldable pub destroy_user_pd : Tables → (pd : ℕ) → Machine al → Machine al
  destroy_user_pd [] pd m = give_page pd m
  destroy_user_pd ((i, p) ∷ rest) pd m = destroy_user_pd rest pd (give_page p m)

  -- the loop of `map_section` and what is behind it, with the pool and, where the section has data,
  -- its reader
  unfoldable pub fill_pool :
      Maps → Section → (pool stream : ℕ) → Tables → Machine al → Step al Mapped
  fill_pool maps sec pool stream tables m =
      let r = map_pages maps sec.v_addr 0 (sec.mapping_size / page_size) tables m in
      if r.ret.0
      then record {
        ret = record { done = true; sec = record sec { p_addr = pool }; tables = r.ret.1 };
        machine = give_block stream r.machine;
      }
      else record {
        ret = record { done = false; sec = sec; tables = r.ret.1 };
        machine = give_block stream (give_page pool r.machine);
      }

  unfoldable pub map_section : Maps → Section → Tables → Machine al → Step al Mapped
  map_section maps sec tables m =
      let got = take_pages highmem_zone sec.mapping_size m in
      let left : Mapped = record { done = false; sec = sec; tables = tables } in
      if sec.mapping_size == 0
      then record { ret = record left { done = true }; machine = m }
      else elim got.ret [
        | none ↦ record { ret = left; machine = got.machine }
        | some pool ↦
            let reader = take_block sizeof_stream got.machine in
            if not (sec.data_start == 0) && has_data sec
            then elim reader.ret [
              | none ↦ record { ret = left; machine = give_page pool reader.machine }
              | some stream ↦ fill_pool maps sec pool stream tables reader.machine
            ]
            else fill_pool maps sec pool 0 tables got.machine
      ]

  -- a section in a chain of `||`: it is mapped only if what is before it succeeded
  unfoldable pub map_next : Bool → Maps → Section → Tables → Machine al → Step al Mapped
  map_next go maps sec tables m =
      if go
      then map_section maps sec tables m
      else record { ret = record { done = false; sec = sec; tables = tables }; machine = m }

  -- `if (sec && sec->p_addr) buddy_free_block(...)`
  unfoldable pub give_section : Section → Machine al → Machine al
  give_section sec m = if sec.p_addr == 0 then m else give_page sec.p_addr m

  -- the data section, which may have nothing to map
  unfoldable pub map_data : Bool → Maps → Section → Tables → Machine al → Step al Mapped
  map_data go maps sec tables m =
      if has_data sec
      then map_next go maps sec tables m
      else record { ret = record { done = go; sec = sec; tables = tables }; machine = m }

  -- the end of `userspace_create_new`, and its label `bad`
  unfoldable pub finish :
      (done : Bool) → (cr3 : ℕ) → Tables → Image → Machine al → Step al (Bool × Image)
  finish done cr3 tables i m =
      let bad = destroy_user_pd tables cr3 (
        give_section i.sig_trampoline
          (give_section i.stack_sec (give_section i.data_sec (give_section i.text_sec m)))) in
      if done
      then record { ret = (true, record i { cr3 = cr3; tables = tables }); machine = m }
      else record { ret = (false, i); machine = bad }

  -- the chain of `||`; `kernel` is whether there is a directory of the kernel to copy from
  unfoldable pub map_all :
      (kernel : Bool)
      → (text stack dat trampoline : Maps) → (cr3 : ℕ) → Image
      → Machine al
      → Step al (Bool × Image)
  map_all kernel text stack dat trampoline cr3 i m =
      let r1 = map_next kernel text i.text_sec [] m in
      let r2 = map_next r1.ret.done stack i.stack_sec r1.ret.tables r1.machine in
      let r3 = map_data r2.ret.done dat i.data_sec r2.ret.tables r2.machine in
      let r4 = map_next r3.ret.done trampoline i.sig_trampoline r3.ret.tables r3.machine in
      let mapped : Image = record i {
        text_sec = r1.ret.sec;
        stack_sec = r2.ret.sec;
        data_sec = r3.ret.sec;
        sig_trampoline = r4.ret.sec;
      } in
      finish r4.ret.done cr3 r4.ret.tables mapped r4.machine

  -- `userspace_create_new` behind `place_sections`
  unfoldable pub map_sections :
      (kernel : Bool)
      → (text stack dat trampoline : Maps) → Image
      → Machine al
      → Step al (Bool × Image)
  map_sections kernel text stack dat trampoline i m =
      let pd = take_pages lowmem_zone page_size m in
      elim pd.ret [
        | none ↦ record { ret = (false, i); machine = pd.machine }
        | some cr3 ↦ map_all kernel text stack dat trampoline cr3 i pd.machine
      ]

  unfoldable pub userspace_create_new :
      (kernel : Bool)
      → (text stack dat trampoline : Maps) → Image
      → Machine al
      → Step al (Bool × Image)
  userspace_create_new kernel text stack dat trampoline i m = elim (place_sections i) [
    | none ↦ record { ret = (false, i); machine = m }
    | some placed ↦ map_sections kernel text stack dat trampoline placed m
  ]
