-- ===== src/Vmm/Walk.antt =====
-- What the tables say of an index of the directory and an index of a table, and what separates them.
use kernel_legacy.Vmm.{
  Tables, pde_index, pte_index, entry_addr, is_present, put_entry, vmm_get_mapping,
}
use kernel_legacy.Prelude.{
  ℕ, ◌+◌, ◌%◌, ◌≡◌, refl, ◌≢◌, inl, inr, true, false, ◌==◌, if◌then◌else◌, eq→==, ne→==, Bool-cases,
}

-- The tables of a directory are pages of their own: no two of its entries name the same table, and
-- none names the directory.
pub record IsSeparate (t : Tables) (pd : ℕ) : Type 0 where
  pub apart :
      (i j : ℕ)
      → is_present (t pd i) ≡ true
      → is_present (t pd j) ≡ true
      → entry_addr (t pd i) ≡ entry_addr (t pd j)
      → i ≡ j
  pub outside : (i : ℕ) → is_present (t pd i) ≡ true → entry_addr (t pd i) ≢ pd

-- the entry of a page, 0 where there is no table for it
unfoldable pub walk : Tables → (pd i j : ℕ) → ℕ
walk t pd i j = if is_present (t pd i) then t (entry_addr (t pd i)) j else 0

pub walk-present :
    (t : Tables) (pd i j : ℕ)
    → is_present (t pd i) ≡ true
    → walk t pd i j ≡ t (entry_addr (t pd i)) j
unfolding walk
walk-present t pd i j h = rw (walk, h) refl

pub walk-absent : (t : Tables) (pd i j : ℕ) → is_present (t pd i) ≡ false → walk t pd i j ≡ 0
unfolding walk
walk-absent t pd i j h = rw (walk, h) refl

-- what an entry maps an address to
unfoldable pub target : (pte v : ℕ) → ℕ
target pte v = if is_present pte then entry_addr pte + v % 4096 else 0

pub vmm_get_mapping-walk :
    (t : Tables) (pd v : ℕ)
    → vmm_get_mapping t pd v ≡ target (walk t pd (pde_index v) (pte_index v)) v
unfolding vmm_get_mapping walk target
vmm_get_mapping-walk t pd v = elim (Bool-cases (is_present (t pd (pde_index v)))) [
  | inr absent ↦ rw (vmm_get_mapping, walk, absent) refl
  | inl there ↦ elim (Bool-cases (is_present (t (entry_addr (t pd (pde_index v))) (pte_index v)))) [
    | inl present ↦ rw (vmm_get_mapping, walk, there, target, present) refl
    | inr missing ↦ rw (vmm_get_mapping, walk, there, target, missing) refl
  ]
]

pub put_entry_self :
    (t : Tables) (p k e j : ℕ) → put_entry t p k e p j ≡ (if k == j then e else t p j)
put_entry_self t p k e j = rw (eq→== p p refl) refl

pub put_entry-other : (t : Tables) (p k e q : ℕ) → p ≢ q → put_entry t p k e q ≡ t q
put_entry-other t p k e q ne = rw (ne→== p q ne) refl

pub put_entry-here : (t : Tables) (p k e : ℕ) → put_entry t p k e p k ≡ e
put_entry-here t p k e = rw (eq→== p p refl, eq→== k k refl) refl

pub put_entry-there : (t : Tables) (p k e j : ℕ) → k ≢ j → put_entry t p k e p j ≡ t p j
put_entry-there t p k e j ne = rw (eq→== p p refl, ne→== k j ne) refl
