-- ===== src/Life/Tests.antt =====
-- Runs of the memory of tasks.
mod Heaps
mod Programs
use kernel_legacy.Life.Tests.Heaps.{heap, start}
use kernel_legacy.Bitmap.{Bitmap, check}
use kernel_legacy.Buddy
use kernel_legacy.Buddy.Free
use kernel_legacy.Slab
use kernel_legacy.IdManager.{IdManager, alloc}
use kernel_legacy.IdManager.Lowest.{IsValid, used, Leaves}
use kernel_legacy.Life.{
  Section, empty_section, section_init_from_buffer, place_sections, place_text, place_data,
  init_stack_section, init_heap_section,
}
use kernel_legacy.Life.Memory.{at, block_at}
use kernel_legacy.Life.Userspace.{
  Machine, userspace_create_new, map_sections, map_all, map_next, map_section, map_pages, get_table,
  destroy_user_pd, fill_pool, map_data, finish, take_pages, take_block, give_block, give_page,
  give_section,
}
use kernel_legacy.Life.Balance.{Holds, Holds-same}
use kernel_legacy.Life.Tasks.{
  Env, MapsOf, TaskMemory, fails, makes, task_get_new, task_exit_cleanup, task_release, add_pid,
  add_kstack, add_trampoline, enter_ring, enlist, free_kstack, free_pid, free_task,
}
use kernel_legacy.Life.Creating.{NewTask, task_pages, task_blocks, task_get_new-NewTask}
use kernel_legacy.Life.Lifetime.{task_release-task_get_new}
use kernel_legacy.Life.Fork.{
  child, fork, under_name, Parent, word_under, task_clone, clone_pid, clone_cr3, fork_copy,
  copy_tables, copy_pages,
}
use kernel_legacy.Life.Forked.{task_exit_cleanup-fork}
use kernel_legacy.Life.Copying.{counts}
use kernel_legacy.Life.Exec.{Program, Execve, enters_user, execve, load_program, new_area}
use kernel_legacy.Life.Leaks.{ExecveLeaves, execve-ExecveLeaves, task_exit_cleanup-execve}
use kernel_legacy.Life.Layout.{TaskLayouts, layouts-InOrder}
use kernel_legacy.Life.Reader.{load_pages, load_pages-Loads, byte_of}
use kernel_legacy.Prelude.Int.{pos}
use kernel_legacy.Prelude.{
  ℕ, zero, suc, ◌+◌, ◌-◌, ◌*◌, ◌/◌, ◌%◌, ◌^◌, ◌≤◌, ◌<◌, min, max, bit_and, bit_or, ◌≡◌, refl, sym,
  ap, ap₂, ◌∙◌, fun_ext, ◌≢◌, ◌↔◌, ◌⊎◌, inl, inr, Bool, true, false, not, ◌&&◌, ◌||◌, Option, none,
  some, List, [], ◌∷◌, ◌++◌, map, arith, ltb, leb, ◌==◌, if◌then◌else◌, ltb→lt, lt→ltb, ==→eq,
  eq→==, ne→==, ==→ne, Bool-cases, Option-cases, length, get_or, set, replicate, length-append,
  length-set, length-replicate, get_or-set_self, get_or-set_ne, elem, remove, elem-append,
  elem-remove, remove_of_not_elem, distinct, distinct-remove, distinct-append-one, update,
}

abbrev pub env : Env
env = record {
  sizeof_task = 200;
  sig_trampoline_start = 0x100000;
  sig_trampoline_size = 20;
  kernel_directory = 4096;
}

abbrev pub all_pages : MapsOf
all_pages = record { text = λ i. true; stack = λ i. true; dat = λ i. true; trampoline = λ i. true }

abbrev five : Bitmap
five = record { nb_bits = 5; bytes = some (1 ∷ []) }

abbrev pub mgr : IdManager
mgr = record { bitmap = five; next_free = pos 1 }

pub mgr-IsValid : IsValid mgr
unfolding check
mgr-IsValid = record {
  whole = record { d = 1 ∷ []; held = refl; size = refl; small = omega arith };
  lowest = (omega arith, omega arith, refl, low);
}
  where
    low : (j : ℕ) → 0 ≤ j → j < 1 → check five j ≡ true
    low zero p q = refl
    low (suc j) p q = absurd (omega arith)

-- the task at 50 is there, and the page at 70
abbrev pub machine : Machine heap
machine = record {
  memory = start;
  pages_taken = at 70;
  pages_given = λ a. 0;
  blocks_taken = at 50;
  blocks_given = λ a. 0;
  pid_manager = some mgr;
  info_queue = 50 ∷ [];
}

pub machine-Holds : Holds heap machine (at 70) (at 50) (some mgr) (50 ∷ [])
machine-Holds = record {
  pages = λ a. omega arith;
  blocks = λ a. omega arith;
  ids = refl;
  queue = refl;
}

abbrev pub text : Section
text = record empty_section { data_start = 0x200000; data_size = 5000 }

abbrev pub made : TaskMemory
made = record {
  address = 16777248;
  pid = pos 1;
  kernel_stack_pointer = 16908288;
  ring = 3;
  image = record {
    text_sec = record {
      v_addr = 0x08048000;
      p_addr = 939655168;
      data_start = 0x200000;
      data_size = 5000;
      mapping_size = 8192;
      flags = 5;
    };
    data_sec = empty_section;
    stack_sec = record {
      v_addr = 0xBFFFC000;
      p_addr = 939671552;
      data_start = 0;
      data_size = 0;
      mapping_size = 8192;
      flags = 7;
    };
    heap_sec = record {
      v_addr = 0x0804B000;
      p_addr = 0;
      data_start = 0;
      data_size = 0;
      mapping_size = 0;
      flags = 7;
    };
    sig_trampoline = record {
      v_addr = 0xBFFFF000;
      p_addr = 939524096;
      data_start = 0x100000;
      data_size = 20;
      mapping_size = 4096;
      flags = 5;
    };
    cr3 = 16785408;
    tables = (767, 16809984) ∷ (32, 16801792) ∷ [];
  };
  areas = 16818208 ∷ [];
  listed = true;
}

new_run : (task_get_new heap env all_pages (some 3) 3 (some text) none machine).ret ≡ makes made
unfolding task_get_new add_pid add_kstack add_trampoline enter_ring enlist userspace_create_new
    map_sections map_all map_next map_section map_pages get_table destroy_user_pd fill_pool map_data
    finish take_pages take_block give_block give_page place_sections place_text place_data
    init_stack_section init_heap_section section_init_from_buffer alloc Buddy.buddy_alloc_pages
    Buddy.size_to_order Buddy.order_from Buddy.filled_from Buddy.pop_first_block Buddy.split_popped
    Buddy.split_block_to_order Buddy.take_block Buddy.set_block_metadata Buddy.mark_pages
    Buddy.Free.buddy_free_block Buddy.Free.page_zone_flags_to_zone_type Buddy.Free.get_buddy_base
    Buddy.Free.is_free_block Buddy.Free.merge_from Buddy.Free.drop_block Buddy.Free.add_free
    Buddy.add_block Slab.size_to_cache_size Slab.size_to_cache_size_from Slab.slab_init
    Slab.objects_from Slab.slab_init_intrusive_freelist Slab.slab_create Slab.alloc_in_cache
    Slab.take_object Slab.slab_free
new_run = refl

-- There is no page for the trampoline.
new_fails_run :
    (task_get_new heap env
      (record all_pages { trampoline = λ i. false })
      (some 3)
      3
      (some text)
      none
      machine).ret
    ≡ fails
unfolding task_get_new add_pid add_kstack add_trampoline enter_ring enlist userspace_create_new
    map_sections map_all map_next map_section map_pages get_table destroy_user_pd fill_pool map_data
    finish take_pages take_block give_block give_page place_sections place_text place_data
    init_stack_section init_heap_section section_init_from_buffer alloc free_kstack free_pid
    free_task give_section Buddy.buddy_alloc_pages Buddy.size_to_order Buddy.order_from
    Buddy.filled_from Buddy.pop_first_block Buddy.split_popped Buddy.split_block_to_order
    Buddy.take_block Buddy.set_block_metadata Buddy.mark_pages Buddy.Free.buddy_free_block
    Buddy.Free.page_zone_flags_to_zone_type Buddy.Free.get_buddy_base Buddy.Free.is_free_block
    Buddy.Free.merge_from Buddy.Free.drop_block Buddy.Free.add_free Buddy.add_block
    Slab.size_to_cache_size Slab.size_to_cache_size_from Slab.slab_init Slab.objects_from
    Slab.slab_init_intrusive_freelist Slab.slab_create Slab.alloc_in_cache Slab.take_object
    Slab.slab_free
new_fails_run = refl

task_get_new-NewTask_example :
    NewTask heap mgr
      (at 70)
      (at 50)
      (50 ∷ [])
      (task_get_new heap env all_pages (some 3) 3 (some text) none machine)
task_get_new-NewTask_example =
    task_get_new-NewTask heap env all_pages (some 3) 3 (some text) none mgr (at 70) (at 50)
      (50 ∷ []) machine mgr-IsValid refl refl machine-Holds

task_release-task_get_new_example :
    (let gone =
        task_exit_cleanup heap env made
          (task_get_new heap env all_pages (some 3) 3 (some text) none machine).machine in
      (ids : Option IdManager) × Leaves ids 5 (used mgr)
      × Holds heap (task_release heap env gone.0 gone.1) (at 70) (at 50) ids (50 ∷ []))
task_release-task_get_new_example =
    task_release-task_get_new heap env all_pages (some 3) 3 (some text) none mgr (at 70) (at 50)
      (50 ∷ []) machine made mgr-IsValid refl refl refl machine-Holds new_run

-- the task at 50, whose trampoline is in the page at 70
abbrev pub parent : TaskMemory
parent = record made {
  address = 50;
  image = record made.image { sig_trampoline = record text { p_addr = 70 } };
}

abbrev name : List ℕ
name = 105 ∷ 110 ∷ 105 ∷ 116 ∷ []

-- A clone's heap starts where the first four letters of the name say.
abbrev born : TaskMemory
born = record parent {
  address = 16777248;
  kernel_stack_pointer = 16908288;
  image = record {
    text_sec = record made.image.text_sec { p_addr = 0 };
    data_sec = empty_section;
    stack_sec = record made.image.stack_sec { p_addr = 0 };
    heap_sec = record {
      v_addr = 0x74696E69;
      p_addr = 0;
      data_start = 0;
      data_size = 0;
      mapping_size = 0;
      flags = 7;
    };
    sig_trampoline = parent.image.sig_trampoline;
    cr3 = 16785408;
    tables = (32, 16793600) ∷ (767, 16801792) ∷ [];
  };
  areas = [];
  listed = false;
}

abbrev pages_of : Parent
pages_of = (32, true ∷ true ∷ []) ∷ (767, true ∷ []) ∷ []

abbrev copies : List ℕ
copies = 939524096 ∷ 939532288 ∷ 939540480 ∷ []

fork_run : (fork heap env name pages_of parent machine).ret ≡ child born copies
unfolding fork task_clone clone_pid clone_cr3 fork_copy copy_tables copy_pages under_name word_under
    take_pages take_block alloc Buddy.buddy_alloc_pages Buddy.size_to_order Buddy.order_from
    Buddy.filled_from Buddy.pop_first_block Buddy.split_popped Buddy.split_block_to_order
    Buddy.take_block Buddy.set_block_metadata Buddy.mark_pages Buddy.Free.buddy_free_block
    Buddy.Free.page_zone_flags_to_zone_type Buddy.Free.get_buddy_base Buddy.Free.is_free_block
    Buddy.Free.merge_from Buddy.Free.drop_block Buddy.Free.add_free Buddy.add_block
    Slab.size_to_cache_size Slab.size_to_cache_size_from Slab.slab_init Slab.objects_from
    Slab.slab_init_intrusive_freelist Slab.slab_create Slab.alloc_in_cache Slab.take_object
    Slab.slab_free
fork_run = refl

-- The page of the parent's trampoline has been given back once, as it was taken.
task_exit_cleanup-fork_example :
    (let ended =
        (task_exit_cleanup heap env born (fork heap env name pages_of parent machine).machine).1 in
      ended.pages_taken 70 ≡ ended.pages_given 70 + (0 + counts copies 70))
task_exit_cleanup-fork_example =
    task_exit_cleanup-fork heap env name pages_of parent mgr (λ a. 0) (at 50) (50 ∷ []) machine born
      copies mgr-IsValid refl (λ e. omega (arith, e))
      (Holds-same heap machine-Holds (λ a. omega arith) (λ a. refl)) fork_run 70

layouts-InOrder_example : TaskLayouts 1000 200 4
layouts-InOrder_example = layouts-InOrder 1000 200 4

-- the 5000 bytes of the text fill one page and a part of the next
load_pages-Loads_example :
    (l : List ℕ) × (load_pages (λ a. 7) text 0 2 ≡ some l)
    × (length l ≡ 8192)
    × ((i : ℕ) → i < 8192 → get_or l i 0 ≡ byte_of (λ a. 7) text i)
load_pages-Loads_example = load_pages-Loads (λ a. 7) text 2
