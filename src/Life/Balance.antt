-- ===== src/Life/Balance.antt =====
-- Mapping the sections of a task takes the pages of the sections, and nothing where it fails.
use kernel_legacy.IdManager.{IdManager}
use kernel_legacy.Life.{Section}
use kernel_legacy.Life.Memory.{at, block_at, Allocator, not_null}
use kernel_legacy.Life.Userspace.{
  Machine, Tables, take_pages, take_block, give_page, give_block, give_section, destroy_user_pd,
}
use kernel_legacy.Prelude.{
  ℕ, zero, suc, ◌+◌, ◌≡◌, refl, ◌∙◌, ◌≢◌, inl, inr, false, Option, none, some, List, [], ◌∷◌, arith,
  ◌==◌, if◌then◌else◌, ne→==, Bool-cases,
}

-- the pages of a section, by their first one
abbrev pub owns : Section → ℕ → ℕ
owns sec a = if sec.p_addr == 0 then 0 else at sec.p_addr a

-- the pages of the tables of a directory
abbrev pub table_pages : Tables → ℕ → ℕ
table_pages [] a = 0
table_pages ((i, p) ∷ rest) a = table_pages rest a + at p a

not_null-some : (r p : ℕ) → not_null r ≡ some p → p ≢ 0
not_null-some zero p e z = cc e
not_null-some (suc r) zero e z = cc e
not_null-some (suc r) (suc p) e z = omega (arith, z)

module _ (al : Allocator) where
  -- What is held: what was taken and not given back, to the last page and block.
  pub record Holds (m : Machine al) (ps ks : ℕ → ℕ) (is : Option IdManager) (qs : List ℕ)
      : Type 0 where
    pub pages : (a : ℕ) → m.pages_taken a ≡ m.pages_given a + ps a
    pub blocks : (a : ℕ) → m.blocks_taken a ≡ m.blocks_given a + ks a
    pub ids : m.pid_manager ≡ is
    pub queue : m.info_queue ≡ qs

  module _ {is : Option IdManager} {qs : List ℕ} where
    -- the same, counted in another way
    pub Holds-same :
        {m : Machine al} {ps ps' ks ks' : ℕ → ℕ}
        → Holds m ps ks is qs
        → ((a : ℕ) → ps a ≡ ps' a)
        → ((a : ℕ) → ks a ≡ ks' a)
        → Holds m ps' ks' is qs
    Holds-same h e e' = record {
      pages = λ a. omega (arith, h.pages a, e a);
      blocks = λ a. omega (arith, h.blocks a, e' a);
      ids = h.ids;
      queue = h.queue;
    }

    -- a page or a block that is held can be given back
    pub give_page-Holds :
        {m : Machine al} (p : ℕ) {rest ks : ℕ → ℕ}
        → Holds m (λ a. rest a + at p a) ks is qs
        → Holds (give_page al p m) rest ks is qs
    unfolding give_page
    give_page-Holds {m} p {rest} h = record {
      pages = λ a. omega (arith, h.pages a);
      blocks = h.blocks;
      ids = h.ids;
      queue = h.queue;
    }

    pub give_block-Holds :
        {m : Machine al} (p : ℕ) {ps rest : ℕ → ℕ}
        → Holds m ps (λ a. rest a + block_at p a) is qs
        → Holds (give_block al p m) ps rest is qs
    unfolding give_block
    give_block-Holds {m} p {ps} {rest} h = elim (Bool-cases (p == 0)) [
      | inl null ↦
          rw (give_block, null)
            (record {
              pages = h.pages;
              blocks = λ a. rw null at (h.blocks a) ∙ omega arith;
              ids = h.ids;
              queue = h.queue;
            })
      | inr some_ ↦
          rw (give_block, some_)
            (record {
              pages = h.pages;
              blocks = λ a. let held = rw some_ at (h.blocks a) in omega (arith, held);
              ids = h.ids;
              queue = h.queue;
            })
    ]

    pub give_null-Holds :
        {m : Machine al} {ps ks : ℕ → ℕ}
        → Holds m ps ks is qs
        → Holds (give_block al 0 m) ps ks is qs
    unfolding give_block
    give_null-Holds {m} h = h

    pub give_section-Holds :
        {m : Machine al} (sec : Section) {rest ks : ℕ → ℕ}
        → Holds m (λ a. rest a + owns sec a) ks is qs
        → Holds (give_section al sec m) rest ks is qs
    unfolding give_section
    give_section-Holds {m} sec {rest} {ks} h = elim (Bool-cases (sec.p_addr == 0)) [
      | inl none_ ↦
          rw (give_section, none_) (Holds-same (rw none_ at h) (λ a. omega arith) (λ a. refl))
      | inr some_ ↦ rw (give_section, some_) (give_page-Holds sec.p_addr (rw some_ at h))
    ]

    -- what is taken is held
    pub take_pages-Holds :
        {m : Machine al} (zone size p : ℕ) {ps ks : ℕ → ℕ}
        → Holds m ps ks is qs
        → (take_pages al zone size m).ret ≡ some p
        → (p ≢ 0) × Holds (take_pages al zone size m).machine (λ a. ps a + at p a) ks is qs
    unfolding take_pages
    take_pages-Holds {m} zone size p h e = (
      not_null-some _ p e,
      rw (take_pages, e)
          (record {
            pages = λ a. omega (arith, h.pages a);
            blocks = h.blocks;
            ids = h.ids;
            queue = h.queue;
          }),
    )

    pub take_block-Holds :
        {m : Machine al} (size p : ℕ) {ps ks : ℕ → ℕ}
        → Holds m ps ks is qs
        → (take_block al size m).ret ≡ some p
        → (p ≢ 0) × Holds (take_block al size m).machine ps (λ a. ks a + block_at p a) is qs
    unfolding take_block
    take_block-Holds {m} size p h e =
        let some_ = not_null-some _ p e in
        let there : (p == 0) ≡ false = ne→== p 0 some_ in
        (
          some_,
          rw (take_block, e)
              (record {
                pages = h.pages;
                blocks = λ a. rw there (omega (arith, h.blocks a));
                ids = h.ids;
                queue = h.queue;
              }),
        )

    -- nothing is taken by a call that fails
    pub no_pages-Holds :
        {m : Machine al} (zone size : ℕ) {ps ks : ℕ → ℕ}
        → Holds m ps ks is qs
        → (take_pages al zone size m).ret ≡ none
        → Holds (take_pages al zone size m).machine ps ks is qs
    unfolding take_pages
    no_pages-Holds {m} zone size h e =
        rw (take_pages, e)
          (record { pages = h.pages; blocks = h.blocks; ids = h.ids; queue = h.queue })

    pub no_block-Holds :
        {m : Machine al} (size : ℕ) {ps ks : ℕ → ℕ}
        → Holds m ps ks is qs
        → (take_block al size m).ret ≡ none
        → Holds (take_block al size m).machine ps ks is qs
    unfolding take_block
    no_block-Holds {m} size h e =
        rw (take_block, e)
          (record { pages = h.pages; blocks = h.blocks; ids = h.ids; queue = h.queue })

    pub destroy_user_pd-Holds :
        (tables : Tables) (pd : ℕ) {m : Machine al} (ps ks : ℕ → ℕ)
        → Holds m (λ a. (ps a + table_pages tables a) + at pd a) ks is qs
        → Holds (destroy_user_pd al tables pd m) ps ks is qs
    unfolding destroy_user_pd
    destroy_user_pd-Holds [] pd ps ks h =
        give_page-Holds pd (Holds-same h (λ a. omega arith) (λ a. refl))
    destroy_user_pd-Holds ((i, p) ∷ rest) pd ps ks h =
        destroy_user_pd-Holds rest pd ps ks
          (give_page-Holds p (Holds-same h (λ a. omega arith) (λ a. refl)))
