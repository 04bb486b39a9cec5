-- ===== src/Proc/Exit/Reaping.antt =====
-- What `waitpid` returns, and what reaping a child does.
use kernel_legacy.Prelude.Int.{ℤ}
use kernel_legacy.Proc.{Sys, null, is_zombie}
use kernel_legacy.Proc.Signal.{eq_pid, minus, einval}
use kernel_legacy.Proc.Exit.{
  echild, efault, any_child, is_positive, bad_pid, find_zombie_child, task_has_child_pid,
  task_release, WaitEnd, fails, reaps, sleeps, sleep_on_children, reap, wait_round, waitpid,
}
use kernel_legacy.Prelude.{
  ℕ, ◌≡◌, refl, sym, ap, ◌∙◌, ◌≢◌, ◌⊎◌, inl, inr, Bool, true, false, not, ◌&&◌, ◌||◌, none, some,
  List, [], ◌∷◌, arith, ◌==◌, if◌then◌else◌, ==→eq, eq→==, ne→==, Bool-cases, elem,
}

-- whether `waitpid(pid)` may reap task `t`
abbrev pub is_match : Sys → ℤ → ℕ → Bool
is_match s pid t = is_zombie (s.task t).state && (any_child pid || eq_pid (s.task t).pid pid)

find-cons :
    (s : Sys) (pid : ℤ) (t : ℕ) (l : List ℕ)
    → find_zombie_child s pid (t ∷ l) ≡ (if is_match s pid t then t else find_zombie_child s pid l)
unfolding find_zombie_child
find-cons s pid t l = refl

-- The search finds a match of the list, and NULL only if there is none.
find_zombie_child-matches :
    (s : Sys) (pid : ℤ) (l : List ℕ) (r : ℕ)
    → find_zombie_child s pid l ≡ r
    → elem null l ≡ false
    → ((r ≡ null) × ((u : ℕ) → elem u l ≡ true → is_match s pid u ≡ false))
      ⊎ ((r ≢ null) × (elem r l ≡ true) × (is_match s pid r ≡ true))
unfolding find_zombie_child
find_zombie_child-matches s pid [] r e h = inl (sym e, λ u e. cc)
find_zombie_child-matches s pid (t ∷ l) r e h = elim (Bool-cases (is_match s pid t)) [
  | inl hit ↦
      let at : t ≡ r = sym (find-cons s pid t l ∙ rw hit refl) ∙ e in
      inr (rw (← at) (ground arith), rw (← at) (ground arith), rw (← at) hit)
  | inr miss ↦
      let at : find_zombie_child s pid l ≡ r = sym (find-cons s pid t l ∙ rw miss refl) ∙ e in
      elim (find_zombie_child-matches s pid l r at (ground arith)) [
        | inl (missing, all) ↦ inl (missing, later miss all)
        | inr (ne, there, match) ↦ inr (ne, ground arith, match)
      ]
]
  where
    later :
        is_match s pid t ≡ false
        → ((u : ℕ) → elem u l ≡ true → is_match s pid u ≡ false)
        → (u : ℕ) → elem u (t ∷ l) ≡ true
        → is_match s pid u ≡ false
    later miss all u e = elim (Bool-cases (u == t)) [
      | inl same ↦ let at : u ≡ t = ==→eq _ _ same in rw at miss
      | inr other ↦ all u (ground arith)
    ]

-- whether a child has the pid
task_has_child_pid-elem :
    (s : Sys) (pid : ℤ) (l : List ℕ)
    → ((task_has_child_pid s pid l ≡ false)
        → (u : ℕ) → elem u l ≡ true
        → eq_pid (s.task u).pid pid ≡ false)
      × ((task_has_child_pid s pid l ≡ true)
          → (u : ℕ) × (elem u l ≡ true) × (eq_pid (s.task u).pid pid ≡ true))
unfolding task_has_child_pid
task_has_child_pid-elem s pid [] = (λ e u there. cc there, λ e. cc e)
task_has_child_pid-elem s pid (t ∷ l) =
    let (none_, one) = task_has_child_pid-elem s pid l in
    elim (Bool-cases (eq_pid (s.task t).pid pid)) [
      | inl hit ↦ (λ e. cc (rw hit at e), λ e. (t, ground arith, hit))
      | inr miss ↦ (
        λ e u there. elim (Bool-cases (u == t)) [
          | inl same ↦ ap (λ x. eq_pid (s.task x).pid pid) (==→eq u t same) ∙ miss
          | inr other ↦ none_ (rw miss at e) u (ground (arith, there, other))
        ],
        λ e. let (u, there, hit) = one (rw miss at e) in (u, ground (arith, there), hit),
      )
    ]

-- there is no child to wait for: none at all, which is not asked of the first process, or none of a pid
-- above 0
abbrev pub Childless : Sys → ℤ → Type 0
Childless s pid =
    ((s.children s.current_task ≡ []) × ((s.current_task == s.kitoxd_task) ≡ false))
    ⊎ ((s.children s.current_task ≢ [])
        × (is_positive pid ≡ true)
        × ((u : ℕ) → elem u (s.children s.current_task) ≡ true → eq_pid (s.task u).pid pid ≡ false))

-- the child is a zombie that `pid` asks for
abbrev pub Reapable : Sys → ℤ → ℕ → Type 0
Reapable s pid t = (elem t (s.children s.current_task) ≡ true) × (is_match s pid t ≡ true)

-- How a call of `waitpid` may end. It fails without effect for one of three reasons, of which the first
-- counts; or it reaps a zombie child that `pid` asks for; or it sleeps while there is a child to wait
-- for, and none is such a zombie.
abbrev pub Sound : Sys → ℤ → (wants_status copied : Bool) → WaitEnd → Type 0
Sound s pid wants copied (fails code s') =
    (s' ≡ s)
    × (((code ≡ minus einval) × (bad_pid pid ≡ true))
        ⊎ (((code ≡ minus echild) × (bad_pid pid ≡ false) × Childless s pid)
            ⊎ ((code ≡ minus efault)
                × (bad_pid pid ≡ false)
                × ((t : ℕ) × Reapable s pid t)
                × (wants ≡ true)
                × (copied ≡ false))))
Sound s pid wants copied (reaps r stored s') =
    (bad_pid pid ≡ false)
    × ((wants && not copied) ≡ false)
    × ((t : ℕ) × Reapable s pid t
        × (r ≡ (s.task t).pid)
        × (stored ≡ (if wants then some (s.task t).exit_code else none))
        × (s' ≡ task_release s t))
Sound s pid wants copied (sleeps o) =
    (bad_pid pid ≡ false)
    × (¬ Childless s pid)
    × ((u : ℕ) → elem u (s.children s.current_task) ≡ true → is_match s pid u ≡ false)

module _ (s : Sys) (pid : ℤ) (wants copied : Bool) (good : bad_pid pid ≡ false)
    (sane : elem null (s.children s.current_task) ≡ false) where
  reap-Sound : (t : ℕ) → Reapable s pid t → Sound s pid wants copied (reap s wants copied t)
  unfolding reap
  reap-Sound t found = elim (Bool-cases (wants && not copied)) [
    | inl fault ↦ rw fault (refl, inr (inr (refl, good, (t, found), ground arith, ground arith)))
    | inr fine ↦ rw fine (good, fine, (t, found, refl, refl, refl))
  ]

  round-Sound :
      (l : List ℕ)
      → s.children s.current_task ≡ l
      → Sound s pid wants copied (wait_round s pid wants copied)
  unfolding wait_round
  round-Sound [] e = elim (Bool-cases (s.current_task == s.kitoxd_task)) [
    | inl init ↦ rw (e, wait_round, init) (good, awaited init, λ u h. cc (rw e at h))
    | inr other ↦ rw (e, wait_round, other) (refl, inr (inl (refl, good, inl (e, other))))
  ]
    where
      awaited : (s.current_task == s.kitoxd_task) ≡ true → ¬ Childless s pid
      awaited init (inl (_, other)) = absurd (cc (sym init ∙ other))
      awaited init (inr (some_, positive, none_)) = some_ e
  round-Sound (c ∷ rest) e =
      elim (Bool-cases (is_positive pid && not (task_has_child_pid s pid (c ∷ rest)))) [
        | inl stranger ↦
            let none_ = (task_has_child_pid-elem s pid (c ∷ rest)).0 (ground arith) in
            rw (e, wait_round, stranger)
              (
                refl,
                inr (
                    inl (
                      refl,
                      good,
                      inr (λ n. cc (sym e ∙ n), ground arith, λ u h. none_ u (rw e at h)),
                    )),
              )
        | inr known ↦ rw (e, wait_round, known) (search_known known)
      ]
    where
      awaited :
          (is_positive pid && not (task_has_child_pid s pid (c ∷ rest))) ≡ false → ¬ Childless s pid
      awaited known (inl (n, _)) = cc (sym e ∙ n)
      awaited known (inr (_, positive, none_)) =
          let has : task_has_child_pid s pid (c ∷ rest) ≡ true = ground (arith, known, positive) in
          let (u, there, hit) = (task_has_child_pid-elem s pid (c ∷ rest)).1 has in
          cc (sym hit ∙ none_ u (rw e there))

      search_known :
          (is_positive pid && not (task_has_child_pid s pid (c ∷ rest))) ≡ false
          → Sound s pid wants copied (
              if find_zombie_child s pid (c ∷ rest) == null
              then sleep_on_children s
              else reap s wants copied (find_zombie_child s pid (c ∷ rest)))
      search_known known = elim (find_zombie_child-matches s pid (c ∷ rest) _ refl (rw e at sane)) [
        | inl (missing, all) ↦
            rw (eq→== _ null missing) (good, awaited known, λ u h. all u (rw e at h))
        | inr (ne, there, match) ↦ rw (ne→== _ null ne) (reap-Sound _ (rw e there, match))
      ]

-- `waitpid` ends in one of three ways. It fails without effect, with the code of the first check that
-- fails: -EINVAL for a bad pid; -ECHILD where the task, which is not the first process, has no
-- children, or where it has children, the pid is above 0 and no child has it; -EFAULT where a zombie child that
-- the pid asks for was found and its status, which was asked for, cannot be stored. It reaps a zombie
-- child that `pid` asks for and returns its pid and exit code. Or it sleeps, and then the pid is not
-- bad, there is a child to wait for or the task
-- is the first process, and no child is such a zombie. (0 is no child's address.)
pub waitpid-Sound :
    (s : Sys) (pid : ℤ) (wants copied : Bool)
    → elem null (s.children s.current_task) ≡ false
    → Sound s pid wants copied (waitpid s pid wants copied)
unfolding waitpid
waitpid-Sound s pid wants copied sane = elim (Bool-cases (bad_pid pid)) [
  | inl bad ↦ rw bad (refl, inl (refl, bad))
  | inr good ↦ rw good (round-Sound s pid wants copied good sane (s.children s.current_task) refl)
]
