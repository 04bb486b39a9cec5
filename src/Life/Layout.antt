-- ===== src/Life/Layout.antt =====
-- Where `task_get_new` and `task_clone` of src/proc/task.c put the sections and the name of a task: behind
-- the structure, in the block that they have asked for.
use kernel_legacy.Life.Tasks.{sizeof_section}
use kernel_legacy.Prelude.{ℕ, ◌+◌, ◌*◌, ◌≤◌, ◌≡◌, refl, List, [], ◌∷◌, arith}

-- the pointers of a task into its own block
pub record Layout : Type 0 where
  pub text_sec : ℕ
  pub data_sec : ℕ
  pub stack_sec : ℕ
  pub heap_sec : ℕ
  pub sig_trampoline : ℕ
  pub name : ℕ

-- `alloc_size`
unfoldable pub alloc_size : (sizeof_task name_len : ℕ) → ℕ
alloc_size sizeof_task name_len = sizeof_task + sizeof_section * 5 + name_len + 1

-- of `task_get_new`; `new + 1` and `sec + 1` step over a structure
unfoldable pub new_layout : (new sizeof_task : ℕ) → Layout
new_layout new sizeof_task =
    let text_sec = new + sizeof_task in
    let data_sec = text_sec + sizeof_section in
    let stack_sec = data_sec + sizeof_section in
    let heap_sec = stack_sec + sizeof_section in
    let sig_trampoline = heap_sec + sizeof_section in
    record {
      text_sec = text_sec;
      data_sec = data_sec;
      stack_sec = stack_sec;
      heap_sec = heap_sec;
      sig_trampoline = sig_trampoline;
      name = sig_trampoline + sizeof_section;
    }

-- of `task_clone`, where `heap_sec` is stepped on after each of the other sections
unfoldable pub clone_layout : (new sizeof_task : ℕ) → Layout
clone_layout new sizeof_task =
    let text_sec = new + sizeof_task in
    let data_sec = text_sec + sizeof_section in
    let stack_sec = data_sec + sizeof_section in
    let sig_trampoline = stack_sec + sizeof_section in
    record {
      text_sec = text_sec;
      data_sec = data_sec;
      stack_sec = stack_sec;
      heap_sec = sig_trampoline + sizeof_section;
      sig_trampoline = sig_trampoline;
      name = sig_trampoline + sizeof_section;
    }

-- the parts of a block, each with its size
abbrev Parts : Type 0
Parts = List (ℕ × ℕ)

-- Each part is in the block from `low` to `high`, and no part reaches into a later one.
abbrev InOrder : (low high : ℕ) → Parts → Type 0
InOrder low high [] = low ≤ high
InOrder low high ((start, size) ∷ rest) = (low ≤ start) × InOrder (start + size) high rest

-- both layouts, for a block of `alloc_size`
abbrev pub TaskLayouts : (new sizeof_task name_len : ℕ) → Type 0
TaskLayouts new sizeof_task name_len =
    let n = new_layout new sizeof_task in
    let c = clone_layout new sizeof_task in
    let end_ = new + alloc_size sizeof_task name_len in
    InOrder (new + sizeof_task) end_ (
      (n.text_sec, sizeof_section)
      ∷ (n.data_sec, sizeof_section)
      ∷ (n.stack_sec, sizeof_section)
      ∷ (n.heap_sec, sizeof_section)
      ∷ (n.sig_trampoline, sizeof_section)
      ∷ (n.name, name_len + 1)
      ∷ [])
    × InOrder (new + sizeof_task) end_ (
        (c.text_sec, sizeof_section)
        ∷ (c.data_sec, sizeof_section)
        ∷ (c.stack_sec, sizeof_section)
        ∷ (c.sig_trampoline, sizeof_section)
        ∷ (c.name, name_len + 1)
        ∷ [])
    × (c.heap_sec ≡ c.name)

-- The sections of a new task and its name are one behind the other, behind the structure and inside the
-- block. Those of a clone are too, but for the section of the heap, which is where the name is.
pub layouts-InOrder : (new sizeof_task name_len : ℕ) → TaskLayouts new sizeof_task name_len
unfolding new_layout clone_layout alloc_size
layouts-InOrder new sizeof_task name_len = (
  (
    omega arith,
    (omega arith, (omega arith, (omega arith, (omega arith, (omega arith, omega arith))))),
  ),
  (omega arith, (omega arith, (omega arith, (omega arith, (omega arith, omega arith))))),
  refl,
)
