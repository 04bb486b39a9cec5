-- ===== src/Life/Copying.antt =====
-- The loops of `fork` hold the tables and the copies that they return, and nothing else.
use kernel_legacy.IdManager.{IdManager}
use kernel_legacy.Life.{page_size}
use kernel_legacy.Life.Memory.{at, Allocator, lowmem_zone, highmem_zone}
use kernel_legacy.Life.Userspace.{Machine, take_pages}
use kernel_legacy.Life.Balance.{
  table_pages, Holds, Holds-same, give_page-Holds, take_pages-Holds, no_pages-Holds,
}
use kernel_legacy.Life.Tasks.{Env}
use kernel_legacy.Life.Fork.{Parent, copy_pages, copy_tables}
use kernel_legacy.Prelude.{
  ℕ, ◌+◌, ◌≡◌, refl, inl, inr, Bool, Option, List, [], ◌∷◌, ◌++◌, arith, Bool-cases, Option-cases,
}

-- how often a page is in a list of pages
abbrev pub counts : List ℕ → ℕ → ℕ
counts [] a = 0
counts (p ∷ rest) a = at p a + counts rest a

counts-append : (xs ys : List ℕ) (a : ℕ) → counts (xs ++ ys) a ≡ counts xs a + counts ys a
counts-append [] ys a = omega arith
counts-append (x ∷ xs) ys a = omega (arith, counts-append xs ys a)

module _ (al : Allocator) (env : Env) {is : Option IdManager} {qs : List ℕ} where
  copy_pages-Holds :
      (l : List Bool) {m : Machine al} (ps ks : ℕ → ℕ)
      → Holds al m ps ks is qs
      → (let r = copy_pages al env l m in
          Holds al r.machine (λ a. ps a + counts r.ret.1 a) ks is qs)
  unfolding copy_pages
  copy_pages-Holds [] ps ks h = Holds-same al h (λ a. omega arith) (λ a. refl)
  copy_pages-Holds (maps ∷ rest) {m} ps ks h =
      elim (Option-cases (take_pages al highmem_zone page_size m).ret) [
        | inl refused ↦
            rw (copy_pages, refused)
              (Holds-same al (no_pages-Holds al highmem_zone page_size h refused) (λ a. omega arith)
                (λ a. refl))
        | inr (p, taken) ↦
            let (_, held) = take_pages-Holds al highmem_zone page_size p h taken in
            elim (Bool-cases maps) [
              | inl mapped ↦
                  rw (copy_pages, taken, mapped)
                    (Holds-same al (copy_pages-Holds rest (λ a. ps a + at p a) ks held)
                      (λ a. omega arith) (λ a. refl))
              | inr refused ↦
                  rw (copy_pages, taken, refused)
                    (Holds-same al (give_page-Holds al p held) (λ a. omega arith) (λ a. refl))
            ]
      ]

  pub copy_tables-Holds :
      (l : Parent) {m : Machine al} (ps ks : ℕ → ℕ)
      → Holds al m ps ks is qs
      → (let r = copy_tables al env l m in
          Holds al r.machine
            (λ a. (ps a + counts r.ret.copies a) + table_pages r.ret.tables a)
            ks
            is
            qs)
  unfolding copy_tables
  copy_tables-Holds [] ps ks h = Holds-same al h (λ a. omega arith) (λ a. refl)
  copy_tables-Holds ((index, t) ∷ rest) {m} ps ks h =
      let table = take_pages al lowmem_zone page_size m in
      let pages = copy_pages al env t table.machine in
      elim (Option-cases table.ret) [
        | inl refused ↦
            rw (copy_tables, refused)
              (Holds-same al (no_pages-Holds al lowmem_zone page_size h refused) (λ a. omega arith)
                (λ a. refl))
        | inr (p, taken) ↦
            let (_, held) = take_pages-Holds al lowmem_zone page_size p h taken in
            let copied = copy_pages-Holds t _ ks held in
            elim (Bool-cases pages.ret.0) [
              | inl all ↦
                  let later = copy_tables al env rest pages.machine in
                  rw (copy_tables, taken, all)
                    (Holds-same al (copy_tables-Holds rest _ ks copied)
                      (λ a. omega (arith, counts-append pages.ret.1 later.ret.copies a))
                      (λ a. refl))
              | inr some_ ↦
                  rw (copy_tables, taken, some_)
                    (Holds-same al copied (λ a. omega arith) (λ a. refl))
            ]
      ]
