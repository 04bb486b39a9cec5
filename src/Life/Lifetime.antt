-- ===== src/Life/Lifetime.antt =====
-- The end of a task: `task_exit_cleanup` and `task_release` give back what `task_get_new` has taken.
use kernel_legacy.IdManager
use kernel_legacy.IdManager.{IdManager, to_size}
use kernel_legacy.IdManager.Lowest.{IsValid, used, Leaves}
use kernel_legacy.Life.{Section}
use kernel_legacy.Life.Memory.{at, block_at, Allocator}
use kernel_legacy.Life.Userspace.{Machine}
use kernel_legacy.Life.Balance.{
  owns, table_pages, Holds, Holds-same, give_block-Holds, give_section-Holds, destroy_user_pd-Holds,
}
use kernel_legacy.Life.Ids.{free-Leaves}
use kernel_legacy.Life.Tasks.{
  Env, MapsOf, TaskMemory, makes, template, task_get_new, give_areas, task_exit_cleanup,
  task_release,
}
use kernel_legacy.Life.Creating.{task_pages, area_blocks, task_blocks, task_get_new-NewTask}
use kernel_legacy.Prelude.{
  ℕ, ◌+◌, ◌≡◌, refl, ap, ◌∙◌, ◌⊎◌, inl, inr, true, false, Option, some, List, [], ◌∷◌, ◌++◌, arith,
  ◌==◌, if◌then◌else◌, Bool-cases, elem, remove,
}

module _ (al : Allocator) (env : Env) {is : Option IdManager} {qs : List ℕ} where
  give_areas-Holds :
      (l : List ℕ) {m : Machine al} {ps : ℕ → ℕ} (rest : ℕ → ℕ)
      → Holds al m ps (λ a. rest a + area_blocks l a) is qs
      → Holds al (give_areas al env l m) ps rest is qs
  unfolding give_areas
  give_areas-Holds [] rest h = Holds-same al h (λ a. refl) (λ a. omega arith)
  give_areas-Holds (p ∷ l) rest h =
      give_areas-Holds l rest
        (give_block-Holds al p (Holds-same al h (λ a. refl) (λ a. omega arith)))

  -- `task_exit_cleanup` gives back the pages of the task, those of its page directory among them, and
  -- the areas of a task of user space; the structure and the kernel stack stay.
  pub task_exit_cleanup-Holds :
      (t : TaskMemory) {m : Machine al} (ps ks : ℕ → ℕ)
      → Holds al m (λ a. ps a + task_pages t a) (λ a. ks a + task_blocks t a) is qs
      → Holds al
          (task_exit_cleanup al env t m).1
          ps
          (λ a. ks a + task_blocks (task_exit_cleanup al env t m).0 a)
          is
          qs
  unfolding task_exit_cleanup
  task_exit_cleanup-Holds t {m} ps ks h =
      let i = t.image in
      let own = λ (a : ℕ). if t.ring == 0 then 0 else at i.cr3 a + table_pages i.tables a in
      let h0 : Holds al m
          (λ a.
            ((((ps a + own a) + owns i.sig_trampoline a) + owns i.stack_sec a) + owns i.data_sec a)
            + owns i.text_sec a)
          (λ a. ks a + task_blocks t a) is qs =
        Holds-same al h (λ a. omega arith) (λ a. refl) in
      let h1 = give_section-Holds al i.text_sec h0 in
      let h2 = give_section-Holds al i.data_sec h1 in
      let h3 = give_section-Holds al i.stack_sec h2 in
      let h4 = give_section-Holds al i.sig_trampoline h3 in
      elim (Bool-cases (t.ring == 0)) [
        | inl kernel ↦
            rw (task_exit_cleanup, kernel)
              (Holds-same al h4 (λ a. rw kernel (omega arith)) (λ a. refl))
        | inr user ↦
            let rest =
              λ (a : ℕ). ks a + (block_at t.address a + (block_at t.kernel_stack_pointer a + 0)) in
            let h5 =
              give_areas-Holds t.areas rest (Holds-same al h4 (λ a. refl) (λ a. omega arith)) in
            rw (task_exit_cleanup, user)
              (destroy_user_pd-Holds al i.tables i.cr3 ps _
                (Holds-same al h5 (λ a. rw user (omega arith)) (λ a. refl)))
      ]

  -- `task_release` gives back the structure and the kernel stack, and takes the task off the list.
  pub task_release-Holds :
      (t : TaskMemory) {m : Machine al} (ps ks : ℕ → ℕ)
      → t.areas ≡ []
      → t.listed ≡ true
      → Holds al m ps (λ a. ks a + task_blocks t a) is qs
      → Holds al
          (task_release al env t m)
          ps
          ks
          (IdManager.free is (to_size t.pid))
          (remove t.address qs)
  unfolding task_release
  task_release-Holds t {m} ps ks none_ queued h = give_block-Holds al t.address (
      give_block-Holds al t.kernel_stack_pointer (record {
        pages = h.pages;
        blocks = λ a. h.blocks a ∙ rw none_ (omega arith);
        ids = ap (λ x. IdManager.free x (to_size t.pid)) h.ids;
        queue = rw queued (ap (remove t.address) h.queue);
      }))

-- what `task_exit_cleanup` keeps of a task, and what it leaves where the ring is one of the two
exit-areas :
    (al : Allocator) (env : Env) (t : TaskMemory) (m : Machine al)
    → (t.ring ≡ 3) ⊎ (t.areas ≡ [])
    → ((task_exit_cleanup al env t m).0.areas ≡ [])
      × ((task_exit_cleanup al env t m).0.address ≡ t.address)
      × ((task_exit_cleanup al env t m).0.pid ≡ t.pid)
      × ((task_exit_cleanup al env t m).0.listed ≡ t.listed)
unfolding task_exit_cleanup
exit-areas al env t m (inl user) =
    rw (task_exit_cleanup, ap (λ x. x == 0) user) (refl, refl, refl, refl)
exit-areas al env t m (inr none_) = elim (Bool-cases (t.ring == 0)) [
  | inl kernel ↦ rw (task_exit_cleanup, kernel) (none_, refl, refl, refl)
  | inr user ↦ rw (task_exit_cleanup, user) (refl, refl, refl, refl)
]

remove-append-fresh : (x : ℕ) (l : List ℕ) → elem x l ≡ false → remove x (l ++ (x ∷ [])) ≡ l
remove-append-fresh x [] h = ground arith
remove-append-fresh x (y ∷ l) h = ground (arith, remove-append-fresh x l)

-- A task that `task_get_new` has made and that ends leaves nothing behind: where the manager of ids is
-- valid, the templates have no pages, and the structure of the task is not that of a task in the list from
-- before, the ids, pages, blocks and tasks are after `task_exit_cleanup` and `task_release` those from
-- before `task_get_new`.
pub task_release-task_get_new :
    (al : Allocator) (env : Env) (maps : MapsOf) (name : Option ℕ) (ring : ℕ)
    (text dat : Option Section) (mg : IdManager) (ps ks : ℕ → ℕ) (qs : List ℕ) (m : Machine al)
    (t : TaskMemory)
    → IsValid mg
    → (template text).p_addr ≡ 0
    → (template dat).p_addr ≡ 0
    → elem t.address qs ≡ false
    → Holds al m ps ks (some mg) qs
    → (task_get_new al env maps name ring text dat m).ret ≡ makes t
    → (let made = (task_get_new al env maps name ring text dat m).machine in
        let ended = task_exit_cleanup al env t made in
        (ids : Option IdManager) × Leaves ids mg.bitmap.nb_bits (used mg)
        × Holds al (task_release al env ended.0 ended.1) ps ks ids qs)
task_release-task_get_new al env maps name ring text dat mg ps ks qs m t v e1 e2 absent h e =
    let r = task_get_new al env maps name ring text dat m in
    let (ids, gives, queued, areas, held) =
      rw e at (task_get_new-NewTask al env maps name ring text dat mg ps ks qs m v e1 e2 h) in
    let ended = task_exit_cleanup al env t r.machine in
    let (none_, same, pid, still) = exit-areas al env t r.machine areas in
    let released =
      task_release-Holds al env ended.0 ps ks none_ (still ∙ queued)
        (task_exit_cleanup-Holds al env t ps ks held) in
    (
      IdManager.free ids (to_size t.pid),
      free-Leaves ids mg.bitmap.nb_bits (used mg) t.pid gives,
      record {
        pages = released.pages;
        blocks = released.blocks;
        ids = released.ids ∙ ap (λ x. IdManager.free ids (to_size x)) pid;
        queue =
            released.queue
            ∙ ap (λ x. remove x (qs ++ (t.address ∷ []))) same
            ∙ remove-append-fresh t.address qs absent;
      },
    )
