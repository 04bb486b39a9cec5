-- ===== src/Vmm/Range.antt =====
-- `vmm_verify_range_flags` and src/memory/usercopy.c: what the kernel checks before it reads or writes
-- the memory of a user.
use kernel_legacy.Vmm.{Tables, pde_index, pte_index, entry_addr}
use kernel_legacy.Vma.{page_size}
use kernel_legacy.Prelude.{
  ℕ, zero, suc, ◌+◌, ◌-◌, ◌*◌, ◌/◌, ◌%◌, ◌^◌, bit_and, bit_or, Bool, true, false, not, ◌||◌, Option,
  none, some, ltb, ◌==◌, if◌then◌else◌,
}

-- `(entry & flags) == flags`
abbrev pub has_flags : (entry flags : ℕ) → Bool
has_flags entry flags = bit_and entry flags == flags

-- the inner loop over `n` entries of a table from the j-th on: the pages that remain, or NULL where
-- an entry lacks a flag
unfoldable pub verify_ptes : (ℕ → ℕ) → (flags j n remaining : ℕ) → Option ℕ
verify_ptes pt flags j zero remaining = some remaining
verify_ptes pt flags j (suc n) remaining =
    let rest = verify_ptes pt flags (j + 1) n (remaining - 1) in
    if remaining == 0 then some 0 else if has_flags (pt j) flags then rest else none

-- the outer loop over `n` entries of the directory from the i-th of the range on
unfoldable pub verify_pdes : Tables → (pd vaddr pde_flags pte_flags i n remaining : ℕ) → Bool
verify_pdes t pd vaddr pde_flags pte_flags i zero remaining = true
verify_pdes t pd vaddr pde_flags pte_flags i (suc n) remaining =
    let pde = t pd (pde_index vaddr + i) in
    let j = if i == 0 then pte_index (vaddr + i * (1024 * page_size)) else 0 in
    if has_flags pde pde_flags
    then elim (verify_ptes (t (entry_addr pde)) pte_flags j (1024 - j) remaining) [
      | none ↦ false
      | some left ↦ verify_pdes t pd vaddr pde_flags pte_flags (i + 1) n left
    ]
    else false

-- `pages_to_verify` and `pde_range`, in 32 bits
abbrev pub pages_to_verify : (vaddr n : ℕ) → ℕ
pages_to_verify vaddr n = (vaddr % page_size + n + page_size - 1) % 2 ^ 32 / page_size

abbrev pub pde_range : (vaddr n : ℕ) → ℕ
pde_range vaddr n = (pde_index ((vaddr + n - 1) % 2 ^ 32) + 2 ^ 32 - pde_index vaddr + 1) % 2 ^ 32

-- whether `vmm_verify_range_flags` returns 0; else it returns -1
unfoldable pub vmm_verify_range_flags : Tables → (pd vaddr n pde_flags pte_flags : ℕ) → Bool
vmm_verify_range_flags t pd vaddr n pde_flags pte_flags =
    if n == 0
    then true
    else verify_pdes t pd vaddr (bit_or pde_flags 1) (bit_or pte_flags 1) 0 (pde_range vaddr n)
        (pages_to_verify vaddr n)

abbrev pub kernel_vaddr_base : ℕ
kernel_vaddr_base = 0xC0000000

unfoldable pub access_ok : (ptr size : ℕ) → Bool
access_ok ptr size =
    let end_ = (ptr + size) % 2 ^ 32 in not (ltb end_ ptr || ltb kernel_vaddr_base end_)

-- `usercopy` before it copies: 0 where it goes on, else what it returns. `pd` is the directory of the
-- current task, which is where the user's memory is looked up.
unfoldable pub usercopy : Tables → (pd user_buf n : ℕ) → (into_kernel : Bool) → ℕ
usercopy t pd user_buf n into_kernel =
    let flags = if into_kernel then 4 else bit_or 4 2 in
    if not (access_ok user_buf n)
    then n
    else if vmm_verify_range_flags t pd user_buf n flags flags
    then 0
    else 2 ^ 32 - 1
