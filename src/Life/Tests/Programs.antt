-- ===== src/Life/Tests/Programs.antt =====
-- Runs of `execve`.
use kernel_legacy.Buddy
use kernel_legacy.Buddy.Free
use kernel_legacy.Slab
use kernel_legacy.Life.Tests.Heaps.{heap}
use kernel_legacy.Life.Tests.{env, all_pages, mgr, machine, machine-Holds, made, parent}
use kernel_legacy.Life.{
  empty_section, section_init_from_buffer, place_sections, place_text, place_data,
  init_stack_section, init_heap_section,
}
use kernel_legacy.Life.Memory.{at}
use kernel_legacy.Life.Userspace.{
  Machine, userspace_create_new, map_sections, map_all, map_next, map_section, map_pages, get_table,
  destroy_user_pd, fill_pool, map_data, finish, take_pages, take_block, give_block, give_page,
}
use kernel_legacy.Life.Balance.{Holds}
use kernel_legacy.Life.Tasks.{TaskMemory, task_exit_cleanup}
use kernel_legacy.Life.Creating.{task_pages, task_blocks}
use kernel_legacy.Life.Exec.{Program, enters_user, execve, load_program, new_area}
use kernel_legacy.Life.Leaks.{ExecveLeaves, execve-ExecveLeaves, task_exit_cleanup-execve}
use kernel_legacy.Prelude.Int.{pos}
use kernel_legacy.Prelude.{◌+◌, ◌≡◌, refl, true, some, List, [], ◌∷◌, arith}

abbrev cafe : List Program
cafe = record { start = 0x200000; end_ = 0x200010; is_user = true } ∷ []

-- the task at 50, which has the page at 70 and no other
abbrev shell : TaskMemory
shell = record parent {
  kernel_stack_pointer = 51;
  image = record {
    text_sec = empty_section;
    data_sec = empty_section;
    stack_sec = empty_section;
    heap_sec = empty_section;
    sig_trampoline = record made.image.sig_trampoline { p_addr = 70 };
    cr3 = 71;
    tables = [];
  };
  areas = [];
}

abbrev entered : TaskMemory
entered = record shell {
  image = record made.image {
    text_sec = record {
      v_addr = 0x08048000;
      p_addr = 939524096;
      data_start = 0x200000;
      data_size = 16;
      mapping_size = 4096;
      flags = 5;
    };
    stack_sec = record made.image.stack_sec { p_addr = 939655168 };
    heap_sec = record made.image.heap_sec { v_addr = 0x0804A000 };
    sig_trampoline = record made.image.sig_trampoline { p_addr = 939532288 };
    cr3 = 16777216;
    tables = (767, 16801792) ∷ (32, 16793600) ∷ [];
  };
  areas = 16810016 ∷ [];
}

execve_run : (execve heap env cafe all_pages (pos 0) shell machine).ret ≡ enters_user entered
unfolding execve load_program new_area userspace_create_new map_sections map_all map_next
    map_section map_pages get_table destroy_user_pd fill_pool map_data finish take_pages take_block
    give_block give_page place_sections place_text place_data init_stack_section init_heap_section
    section_init_from_buffer Buddy.buddy_alloc_pages Buddy.size_to_order Buddy.order_from
    Buddy.filled_from Buddy.pop_first_block Buddy.split_popped Buddy.split_block_to_order
    Buddy.take_block Buddy.set_block_metadata Buddy.mark_pages Buddy.Free.buddy_free_block
    Buddy.Free.page_zone_flags_to_zone_type Buddy.Free.get_buddy_base Buddy.Free.is_free_block
    Buddy.Free.merge_from Buddy.Free.drop_block Buddy.Free.add_free Buddy.add_block
    Slab.size_to_cache_size Slab.size_to_cache_size_from Slab.slab_init Slab.objects_from
    Slab.slab_init_intrusive_freelist Slab.slab_create Slab.alloc_in_cache Slab.take_object
    Slab.slab_free
execve_run = refl

execve-ExecveLeaves_example :
    ExecveLeaves heap env
      (some mgr)
      (50 ∷ [])
      (at 70)
      (at 50)
      shell
      (execve heap env cafe all_pages (pos 0) shell machine)
execve-ExecveLeaves_example =
    execve-ExecveLeaves heap env cafe all_pages (pos 0) shell (some mgr) (50 ∷ []) (at 70) (at 50)
      machine refl (λ e. omega (arith, e)) machine-Holds

-- the structure and the stack of the task, its trampoline and its page directory
abbrev busy : Machine heap
busy = record machine {
  pages_taken = λ a. at 70 a + at 71 a;
  blocks_taken = λ a. at 50 a + at 51 a;
}

busy-Holds :
    Holds heap busy
      (λ a. 0 + task_pages shell a)
      (λ a. 0 + task_blocks shell a)
      (some mgr)
      (50 ∷ [])
busy-Holds = record {
  pages = λ a. omega arith;
  blocks = λ a. omega arith;
  ids = refl;
  queue = refl;
}

busy_run : (execve heap env cafe all_pages (pos 0) shell busy).ret ≡ enters_user entered
unfolding execve load_program new_area userspace_create_new map_sections map_all map_next
    map_section map_pages get_table destroy_user_pd fill_pool map_data finish take_pages take_block
    give_block give_page place_sections place_text place_data init_stack_section init_heap_section
    section_init_from_buffer Buddy.buddy_alloc_pages Buddy.size_to_order Buddy.order_from
    Buddy.filled_from Buddy.pop_first_block Buddy.split_popped Buddy.split_block_to_order
    Buddy.take_block Buddy.set_block_metadata Buddy.mark_pages Buddy.Free.buddy_free_block
    Buddy.Free.page_zone_flags_to_zone_type Buddy.Free.get_buddy_base Buddy.Free.is_free_block
    Buddy.Free.merge_from Buddy.Free.drop_block Buddy.Free.add_free Buddy.add_block
    Slab.size_to_cache_size Slab.size_to_cache_size_from Slab.slab_init Slab.objects_from
    Slab.slab_init_intrusive_freelist Slab.slab_create Slab.alloc_in_cache Slab.take_object
    Slab.slab_free
busy_run = refl

task_exit_cleanup-execve_example :
    Holds heap
      (task_exit_cleanup heap env entered
        (execve heap env cafe all_pages (pos 0) shell busy).machine).1
      (λ a. 0 + task_pages shell a)
      (λ a. 0 + task_blocks shell a)
      (some mgr)
      (50 ∷ [])
task_exit_cleanup-execve_example =
    task_exit_cleanup-execve heap env cafe all_pages (pos 0) shell entered (some mgr) (50 ∷ [])
      (λ a. 0) (λ a. 0) busy refl refl (λ e. omega (arith, e)) busy-Holds busy_run
