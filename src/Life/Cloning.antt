-- ===== src/Life/Cloning.antt =====
-- `task_clone` holds one id, one block and one page for the clone, and nothing where it fails.
use kernel_legacy.IdManager
use kernel_legacy.IdManager.{IdManager, to_size, is_full}
use kernel_legacy.IdManager.Lowest.{IsValid, used, Leaves, alloc-lowest}
use kernel_legacy.Bitmap.Search.{NextZero}
use kernel_legacy.Life.{page_size}
use kernel_legacy.Life.Memory.{at, block_at, Allocator, lowmem_zone}
use kernel_legacy.Life.Userspace.{Machine, Step, take_block, take_pages}
use kernel_legacy.Life.Balance.{
  Holds, give_block-Holds, take_pages-Holds, take_block-Holds, no_pages-Holds, no_block-Holds,
}
use kernel_legacy.Life.Ids.{Gives, alloc-Gives, free-Leaves}
use kernel_legacy.Life.Tasks.{Env, TaskMemory, sizeof_section}
use kernel_legacy.Life.Fork.{is_negative, clone_cr3, clone_pid, task_clone}
use kernel_legacy.Prelude.Int.{ℤ, pos, negsuc}
use kernel_legacy.Prelude.{
  ℕ, zero, suc, ◌+◌, ◌*◌, ◌≡◌, refl, ap, ◌∙◌, inl, inr, false, Option, none, some, List, [], arith,
  Option-cases, length,
}

-- an id is negative where there is none, and only there
is_negative-is_full :
    {m : IdManager}
    → IsValid m
    → is_negative (IdManager.alloc (some m)).0 ≡ is_full (IdManager.alloc (some m)).0
is_negative-is_full {m} v = go (IdManager.alloc (some m)).0 (alloc-lowest v).0
  where
    go : (id : ℤ) → NextZero (used m) m.bitmap.nb_bits 0 id → is_negative id ≡ is_full id
    go (pos i) next = refl
    go (negsuc zero) next = refl
    go (negsuc (suc n)) (e, all) = absurd (omega (arith, e))

module _ (al : Allocator) (env : Env) (mg : IdManager) (ps ks : ℕ → ℕ) (qs : List ℕ)
    (current : TaskMemory) where
  -- the ids, pages, blocks and tasks of before
  abbrev pub AsBefore : Machine al → Type 0
  AsBefore m =
      (ids : Option IdManager) × Leaves ids mg.bitmap.nb_bits (used mg) × Holds al m ps ks ids qs

  -- a clone: its structure is a new block
  pub record Clone (t : TaskMemory) : Type 0 where
    pub none_ : t.areas ≡ []
    pub unlisted : t.listed ≡ false
    pub no_tables : t.image.tables ≡ []
    pub ring : t.ring ≡ current.ring
    pub trampoline : t.image.sig_trampoline ≡ current.image.sig_trampoline

  abbrev pub Cloned : Step al (Option TaskMemory) → Type 0
  Cloned r = elim r.ret as (λ _. Type 0) [
    | none ↦ AsBefore r.machine
    | some t ↦
        Clone t
        × (t.kernel_stack_pointer ≡ 0)
        × ((ids : Option IdManager) × Gives ids mg.bitmap.nb_bits (used mg) t.pid
            × Holds al r.machine (λ a. ps a + at t.image.cr3 a) (λ a. ks a + block_at t.address a)
                ids qs)
  ]

  clone_cr3-Cloned :
      (t : TaskMemory) {m : Machine al} {ids : Option IdManager}
      → Clone t
      → t.kernel_stack_pointer ≡ 0
      → Gives ids mg.bitmap.nb_bits (used mg) t.pid
      → Holds al m ps (λ a. ks a + block_at t.address a) ids qs
      → Cloned (clone_cr3 al env t m)
  unfolding clone_cr3
  clone_cr3-Cloned t {m} {ids} c zero_ gives h =
      elim (Option-cases (take_pages al lowmem_zone page_size m).ret) [
        | inl refused ↦
            let held = no_pages-Holds al lowmem_zone page_size h refused in
            rw (clone_cr3, refused)
              (
                IdManager.free ids (to_size t.pid),
                free-Leaves ids mg.bitmap.nb_bits (used mg) t.pid gives,
                give_block-Holds al t.address (record {
                  pages = held.pages;
                  blocks = held.blocks;
                  ids = ap (λ x. IdManager.free x (to_size t.pid)) held.ids;
                  queue = held.queue;
                }),
              )
        | inr (p, taken) ↦
            let (_, held) = take_pages-Holds al lowmem_zone page_size p h taken in
            rw (clone_cr3, taken)
              (
                record {
                  none_ = c.none_;
                  unlisted = c.unlisted;
                  no_tables = c.no_tables;
                  ring = c.ring;
                  trampoline = c.trampoline;
                },
                zero_,
                (ids, gives, held),
              )
      ]

  clone_pid-Cloned :
      (t : TaskMemory) {m : Machine al}
      → IsValid mg
      → Clone t
      → t.kernel_stack_pointer ≡ 0
      → Holds al m ps (λ a. ks a + block_at t.address a) (some mg) qs
      → Cloned (clone_pid al env t m)
  unfolding clone_pid
  clone_pid-Cloned t {m} v c zero_ h =
      let r = IdManager.alloc m.pid_manager in
      let same : r ≡ IdManager.alloc (some mg) = ap IdManager.alloc h.ids in
      let held : Holds al (record m { pid_manager = r.1 }) ps (λ a. ks a + block_at t.address a) r.1
          qs =
        record { pages = h.pages; blocks = h.blocks; ids = refl; queue = h.queue } in
      let negative : is_negative r.0 ≡ is_full (IdManager.alloc (some mg)).0 =
        ap (λ x. is_negative x.0) same ∙ is_negative-is_full v in
      elim (alloc-Gives v) [
        | inl (full, left) ↦
            rw (clone_pid, negative ∙ full) (r.1, rw same left, give_block-Holds al t.address held)
        | inr (room, gives) ↦
            rw (clone_pid, negative ∙ room)
              (clone_cr3-Cloned (record t { pid = r.0 })
                (record {
                  none_ = c.none_;
                  unlisted = c.unlisted;
                  no_tables = c.no_tables;
                  ring = c.ring;
                  trampoline = c.trampoline;
                })
                zero_ (rw same gives) held)
      ]

  pub task_clone-Cloned :
      (name : List ℕ) {m : Machine al}
      → IsValid mg
      → Holds al m ps ks (some mg) qs
      → Cloned (task_clone al env name current m)
  unfolding task_clone
  task_clone-Cloned name {m} v h =
      let size = env.sizeof_task + sizeof_section * 5 + length name + 1 in
      elim (Option-cases (take_block al size m).ret) [
        | inl refused ↦
            rw (task_clone, refused)
              (some mg, (mg, refl, v, refl, λ j lt. refl), no_block-Holds al size h refused)
        | inr (p, taken) ↦
            let (_, held) = take_block-Holds al size p h taken in
            rw (task_clone, taken)
              (clone_pid-Cloned _ v
                (record {
                  none_ = refl;
                  unlisted = refl;
                  no_tables = refl;
                  ring = refl;
                  trampoline = refl;
                })
                refl held)
      ]
