-- ===== src/Vmm.antt =====
-- src/memory/vmm.c: page directories and page tables. A table is the physical address of its page,
-- and memory is the function from tables and indices to entries. The page that the buddy allocator
-- gives is a parameter, 0 for NULL; the pages that go back to it, and what is asked of the cache of
-- the processor, are results.
pub mod Words
pub mod Walk
pub mod Steps
pub mod Mapping
pub mod Detach
pub mod Unmapping
pub mod Range
pub mod Checked
mod Tests
use kernel_legacy.Bits.{bit}
use kernel_legacy.Prelude.{
  ℕ, zero, suc, ◌+◌, ◌-◌, ◌*◌, ◌/◌, ◌%◌, ◌^◌, ◌≤◌, ◌<◌, min, max, bit_and, bit_or, ◌≡◌, refl, sym,
  ap, ap₂, ◌∙◌, fun_ext, ◌≢◌, ◌↔◌, ◌⊎◌, inl, inr, Bool, true, false, not, ◌&&◌, ◌||◌, Option, none,
  some, List, [], ◌∷◌, ◌++◌, map, arith, ltb, leb, ◌==◌, if◌then◌else◌, ltb→lt, lt→ltb, ==→eq,
  eq→==, ne→==, Bool-cases, Option-cases, length, get_or, set, replicate, length-append, length-set,
  length-replicate, get_or-set_self, get_or-set_ne, elem, remove, elem-append, elem-remove,
  remove_of_not_elem, distinct, distinct-remove, distinct-append-one, update,
}

abbrev pub Tables : Type 0
Tables = ℕ → ℕ → ℕ

-- what the processor is told: nothing, to drop one address, or to load the directory again
pub data Flush : Type 0 where
  keep reload : Flush
  invalidate : ℕ → Flush

-- `GET_PDE_INDEX`, `GET_PTE_INDEX` and `GET_ENTRY_ADDR`
abbrev pub pde_index : ℕ → ℕ
pde_index v = v / 2 ^ 22

abbrev pub pte_index : ℕ → ℕ
pte_index v = v / 2 ^ 12 % 1024

abbrev pub entry_addr : ℕ → ℕ
entry_addr e = e / 4096 * 4096

-- the tests of `PDE_PRESENT_BIT`, `PTE_PRESENT_BIT` and `PDE_US_BIT`
abbrev pub is_present : ℕ → Bool
is_present e = bit e 0 == 1

abbrev pub is_user : ℕ → Bool
is_user e = bit e 2 == 1

abbrev pub put_entry : Tables → (table index entry : ℕ) → Tables
put_entry t table index entry = update t table (update (t table) index entry)

-- the answer of `vmm_map_page`
pub record Mapped : Type 0 where
  pub done : Bool
  pub tables : Tables
  pub flush : Flush

-- the entry of the directory: a new table, with the flags of the kernel and of the caller's user bit
abbrev pub new_pde : (pt flags : ℕ) → ℕ
new_pde pt flags = bit_or (bit_or (bit_or pt 1) 2) (bit_and flags 4)

-- `pt_virt[pte_idx] = p_addr | flags` and the end of `vmm_map_page`
unfoldable pub write_pte : Tables → (cr3 pd pt v p flags : ℕ) → (reloads : Bool) → Mapped
write_pte t cr3 pd pt v p flags reloads = record {
  done = true;
  tables = put_entry t pt (pte_index v) (bit_or p flags);
  flush = if cr3 == pd then (if reloads then reload else invalidate v) else keep;
}

-- the branch without a table: the new one is cleared
unfoldable pub map_new : Tables → (fresh cr3 pd v p flags : ℕ) → Mapped
map_new t fresh cr3 pd v p flags =
    let cleared = update t fresh (λ j. 0) in
    if fresh == 0
    then record { done = false; tables = t; flush = keep }
    else write_pte (put_entry cleared pd (pde_index v) (new_pde fresh flags)) cr3 pd fresh v p flags
        true

-- the branch with a table, whose entry gets the user bit where it is asked for and missing
unfoldable pub map_old : Tables → (cr3 pd v p flags : ℕ) → Mapped
map_old t cr3 pd v p flags =
    let pde = t pd (pde_index v) in
    let raised = is_user flags && not (is_user pde) in
    let entry = if raised then bit_or pde 4 else pde in
    write_pte (put_entry t pd (pde_index v) entry) cr3 pd (entry_addr entry) v p flags raised

unfoldable pub vmm_map_page : Tables → (fresh cr3 pd v p flags : ℕ) → Mapped
vmm_map_page t fresh cr3 pd v p flags =
    if is_present (t pd (pde_index v))
    then map_old t cr3 pd v p flags
    else map_new t fresh cr3 pd v p flags

-- the loop of `vmm_unmap_page` over `n` entries from the i-th on
unfoldable pub is_empty_from : (ℕ → ℕ) → (i n : ℕ) → Bool
is_empty_from pt i zero = true
is_empty_from pt i (suc n) =
    let rest = is_empty_from pt (i + 1) n in if is_present (pt i) then false else rest

-- the answer of `vmm_unmap_page`, with the tables that are given back
pub record Unmapped : Type 0 where
  pub done : Bool
  pub tables : Tables
  pub freed : List ℕ
  pub flushes : List Flush

-- from the write of the entry on
unfoldable pub clear_pte : Tables → (cr3 pd pt v : ℕ) → Unmapped
clear_pte t cr3 pd pt v =
    let cleared = put_entry t pt (pte_index v) 0 in
    if is_empty_from (cleared pt) 0 1024
    then record {
      done = true;
      tables = put_entry cleared pd (pde_index v) 0;
      freed = pt ∷ [];
      flushes = invalidate v ∷ (if pd == cr3 then reload ∷ [] else []);
    }
    else record { done = true; tables = cleared; freed = []; flushes = invalidate v ∷ [] }

-- `return false`
abbrev pub unmapped_nothing : Tables → Unmapped
unmapped_nothing t = record { done = false; tables = t; freed = []; flushes = [] }

unfoldable pub vmm_unmap_page : Tables → (cr3 pd v : ℕ) → Unmapped
vmm_unmap_page t cr3 pd v =
    let pde = t pd (pde_index v) in
    if not (is_present pde)
    then unmapped_nothing t
    else if not (is_present (t (entry_addr pde) (pte_index v)))
    then unmapped_nothing t
    else clear_pte t cr3 pd (entry_addr pde) v

unfoldable pub vmm_get_mapping : Tables → (pd v : ℕ) → ℕ
vmm_get_mapping t pd v =
    let pde = t pd (pde_index v) in
    let pte = t (entry_addr pde) (pte_index v) in
    if not (is_present pde)
    then 0
    else if not (is_present pte)
    then 0
    else entry_addr pte + v % 4096

abbrev pub kmap_vaddr : ℕ
kmap_vaddr = 0xFFFFE000

-- `vmm_kmap`: the address, or NULL; the flags are present and writable
unfoldable pub vmm_kmap : Tables → (fresh cr3 p : ℕ) → ℕ × Tables
vmm_kmap t fresh cr3 p =
    let m = vmm_map_page t fresh cr3 cr3 kmap_vaddr p 3 in
    if m.done then (kmap_vaddr, m.tables) else (0, m.tables)

abbrev pub vmm_kunmap : Tables → (cr3 : ℕ) → Unmapped
vmm_kunmap t cr3 = vmm_unmap_page t cr3 cr3 kmap_vaddr

-- `vmm_free_pt_range` over `n` entries from the i-th on: the tables that are given back
unfoldable pub vmm_free_pt_range : Tables → (pd i n : ℕ) → List ℕ × Tables
vmm_free_pt_range t pd i zero = ([], t)
vmm_free_pt_range t pd i (suc n) =
    if is_present (t pd i)
    then (let rest = vmm_free_pt_range (put_entry t pd i 0) pd (i + 1) n in
        (entry_addr (t pd i) ∷ rest.0, rest.1))
    else vmm_free_pt_range t pd (i + 1) n

-- the lower 3 GiB, and the directory itself
unfoldable pub vmm_destroy_user_pd : Tables → ℕ → List ℕ × Tables
vmm_destroy_user_pd t pd =
    let (freed, left) = vmm_free_pt_range t pd 0 768 in (freed ++ (pd ∷ []), left)
