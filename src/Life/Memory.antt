-- ===== src/Life/Memory.antt =====
-- What the life of a task calls of `kmalloc` and of the buddy allocator. Nothing is asked of them but
-- that an address of 0 says that there is no memory.
use kernel_legacy.Prelude.{ℕ, zero, suc, Option, none, some, ◌==◌, if◌then◌else◌}

-- whether an address is the one
abbrev pub at : ℕ → ℕ → ℕ
at p a = if p == a then 1 else 0

-- whether a block is the one; `NULL` is none
abbrev pub block_at : ℕ → ℕ → ℕ
block_at p a = if p == 0 then 0 else at p a

-- the memory of the kernel, and the four functions; `zone` is one of `enum zone_type`
pub record Allocator : Type 1 where
  pub State : Type 0
  pub buddy_alloc_pages : State → (size zone : ℕ) → ℕ × State
  pub buddy_free_block : State → (p : ℕ) → State
  pub kmalloc : State → (size : ℕ) → ℕ × State
  pub kfree : State → (p : ℕ) → State

abbrev pub lowmem_zone : ℕ
lowmem_zone = 0

abbrev pub highmem_zone : ℕ
highmem_zone = 2

-- `NULL` is none
abbrev pub not_null : ℕ → Option ℕ
not_null zero = none
not_null (suc p) = some (suc p)
