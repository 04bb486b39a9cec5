-- ===== src/Life.antt =====
-- The life of a task in memory: src/proc/task.c, src/proc/userspace.c, src/proc/section.c and the
-- sections of include/proc/section.h. `kmalloc` and the buddy allocator are an interface, Memory.
pub mod Memory
pub mod Userspace
pub mod Tasks
pub mod Balance
pub mod Mapped
pub mod Ids
pub mod Creating
pub mod Lifetime
pub mod Fork
mod Copying
mod Cloning
pub mod Forked
pub mod Exec
pub mod Leaks
pub mod Layout
pub mod Reader
mod Tests
use kernel_legacy.Boot.Take.{align_up}
use kernel_legacy.Prelude.{
  ℕ, zero, suc, ◌+◌, ◌-◌, ◌*◌, ◌/◌, ◌%◌, ◌^◌, ◌≤◌, ◌<◌, min, max, bit_and, bit_or, ◌≡◌, refl, sym,
  ap, ap₂, ◌∙◌, fun_ext, ◌≢◌, ◌↔◌, ◌⊎◌, inl, inr, Bool, true, false, not, ◌&&◌, ◌||◌, Option, none,
  some, List, [], ◌∷◌, ◌++◌, map, arith, ltb, leb, ◌==◌, if◌then◌else◌, ltb→lt, lt→ltb, ==→eq,
  eq→==, ne→==, ==→ne, Bool-cases, Option-cases, length, get_or, set, replicate, length-append,
  length-set, length-replicate, get_or-set_self, get_or-set_ne, elem, remove, elem-append,
  elem-remove, remove_of_not_elem, distinct, distinct-remove, distinct-append-one, update,
}

pub record Section : Type 0 where
  pub v_addr : ℕ
  pub p_addr : ℕ
  pub data_start : ℕ
  pub data_size : ℕ
  pub mapping_size : ℕ
  pub flags : ℕ

abbrev pub page_size : ℕ
page_size = 4096

-- `KERNEL_START`
abbrev pub kernel_start : ℕ
kernel_start = 0xC0000000

abbrev pub user_trampoline_vaddr : ℕ
user_trampoline_vaddr = kernel_start - page_size

abbrev pub user_stack_start : ℕ
user_stack_start = user_trampoline_vaddr - page_size

abbrev pub default_stack_size : ℕ
default_stack_size = page_size * 2

abbrev pub user_text_start : ℕ
user_text_start = 0x08048000

-- `USER_SECTION_RO` and `USER_SECTION_RW`
abbrev pub user_section_ro : ℕ
user_section_ro = 5

abbrev pub user_section_rw : ℕ
user_section_rw = 7

abbrev pub empty_section : Section
empty_section = record {
  v_addr = 0;
  p_addr = 0;
  data_start = 0;
  data_size = 0;
  mapping_size = 0;
  flags = 0;
}

abbrev pub page_align : ℕ → ℕ
page_align n = align_up n page_size

-- `ALIGN_DOWN` to pages
abbrev pub page_align_down : ℕ → ℕ
page_align_down n = bit_and n (4294967295 - 4095)

-- into a section that is there
unfoldable pub section_init_from_buffer : (v_addr start size flags : ℕ) → Option Section
section_init_from_buffer v_addr start size flags =
    if start == 0 || size == 0
    then none
    else some (record {
      v_addr = v_addr;
      p_addr = 0;
      data_start = start;
      data_size = size;
      mapping_size = page_align size;
      flags = flags;
    })

abbrev pub has_data : Section → Bool
has_data s = ltb 0 s.data_size

-- the sections of `userspace_create_new` that are given
unfoldable pub place_text : Section → Section
place_text text = record text {
  v_addr =
      if text.v_addr == 0
      then user_text_start
      else if page_align text.v_addr == text.v_addr
      then text.v_addr
      else page_align_down text.v_addr;
  flags = user_section_ro;
  mapping_size = page_align text.data_size;
}

-- behind a section, without and with a page between
abbrev pub next_section_start : (start size : ℕ) → ℕ
next_section_start start size = page_align ((start + size) % 4294967296)

abbrev pub next_section_start_after_page_guard : (start size : ℕ) → ℕ
next_section_start_after_page_guard start size =
    page_align ((start + (size + page_size)) % 4294967296)

-- `none` for an address of the kernel
unfoldable pub place_data : (text d : Section) → Option Section
place_data text d =
    let placed : Section = record d {
      v_addr = if d.v_addr == 0 then next_section_start text.v_addr text.mapping_size else d.v_addr;
      mapping_size = page_align d.data_size;
      flags = user_section_rw;
    } in
    if not (has_data d) then some d else if leb kernel_start d.v_addr then none else some placed

unfoldable pub init_heap_section : (prev : Section) → Section
init_heap_section prev = record {
  v_addr = next_section_start_after_page_guard prev.v_addr prev.mapping_size;
  p_addr = 0;
  data_start = 0;
  data_size = 0;
  mapping_size = 0;
  flags = user_section_rw;
}

unfoldable pub init_stack_section : Section
init_stack_section = record {
  v_addr = page_align_down (user_stack_start - default_stack_size);
  p_addr = 0;
  data_start = 0;
  data_size = 0;
  mapping_size = page_align default_stack_size;
  flags = user_section_rw;
}

-- the sections of a task, its page directory and the tables of it, each with its index
pub record Image : Type 0 where
  pub text_sec : Section
  pub data_sec : Section
  pub stack_sec : Section
  pub heap_sec : Section
  pub sig_trampoline : Section
  pub cr3 : ℕ
  pub tables : List (ℕ × ℕ)

-- The start of `userspace_create_new`: where the sections go, or `none` where it returns false
-- before it takes any page.
unfoldable pub place_sections : Image → Option Image
place_sections i =
    let text = place_text i.text_sec in
    if (i.text_sec.data_size == 0) || leb kernel_start i.text_sec.v_addr
    then none
    else elim (place_data text i.data_sec) [
      | none ↦ none
      | some d ↦ some (record i {
        text_sec = text;
        data_sec = d;
        heap_sec = init_heap_section (if has_data d then d else text);
        stack_sec = init_stack_section;
      })
    ]
