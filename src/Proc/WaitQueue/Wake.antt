-- ===== src/Proc/WaitQueue/Wake.antt =====
-- `wq_wake_all` and `wq_wake_one`: who is woken, and in what order.
use kernel_legacy.Proc.{linked, running, Sys, linked, on_queue}
use kernel_legacy.Proc.WaitQueue.{wq_finish, wake_all_loop, wq_wake_all, wq_wake_one}
use kernel_legacy.Proc.Keeps.{wq_finish-others}
use kernel_legacy.Proc.Invariant.{IsValid, wq_finish-IsValid, wq_finish-moves}
use mathlib.Core.List.{append-nil, append_assoc}
use kernel_legacy.Prelude.{
  ℕ, zero, suc, ◌≤◌, ◌≡◌, refl, sym, ap, ◌∙◌, ◌≢◌, ◌⊎◌, inl, inr, true, false, Option, none, some,
  List, [], ◌∷◌, ◌++◌, arith, ==→eq, length, elem, remove, remove_of_not_elem, distinct,
}

pub link_of_queued : (o : Option ℕ) (q : ℕ) → on_queue o q ≡ true → o ≡ some q
link_of_queued none q h = cc
link_of_queued (some p) q h = ap some (==→eq p q h)

remove-head : (t : ℕ) (l : List ℕ) → distinct (t ∷ l) ≡ true → remove t (t ∷ l) ≡ l
remove-head t l h = ground (arith, remove_of_not_elem t l)

-- the head of a wait queue, and what waking it leaves
wake-head :
    {s : Sys} (wq t : ℕ) (rest : List ℕ)
    → IsValid s
    → s.waiters wq ≡ t ∷ rest
    → ((wq_finish s t).ready_queue ≡ s.ready_queue ++ (t ∷ []))
      × ((wq_finish s t).waiters wq ≡ rest)
      × (((wq_finish s t).task t).state ≡ running)
wake-head {s} wq t rest v e =
    let here : elem t (s.waiters wq) ≡ true = rw e (ground arith) in
    let on = link_of_queued (s.task t).wq_link wq (sym (v.queued wq t) ∙ here) in
    let moved = wq_finish-moves t wq v on in
    let once : distinct (t ∷ rest) ≡ true = rw e at (v.queued_once wq) in
    (moved.0, moved.1 ∙ (rw e (remove-head t rest once)), moved.2)

loop :
    (n : ℕ) {s : Sys} (wq : ℕ) (l : List ℕ)
    → IsValid s
    → s.waiters wq ≡ l
    → length l ≤ n
    → IsValid (wake_all_loop n s wq)
      × ((wake_all_loop n s wq).waiters wq ≡ [])
      × ((wake_all_loop n s wq).ready_queue ≡ s.ready_queue ++ l)
unfolding wake_all_loop
loop zero {s} wq [] v e h = (v, e, sym (append-nil s.ready_queue))
loop zero {s} wq (t ∷ l) v e h = absurd (omega arith)
loop (suc n) {s} wq [] v e h = rw (e, wake_all_loop) (v, e, sym (append-nil s.ready_queue))
loop (suc n) {s} wq (t ∷ l) v e h =
    let head = wake-head wq t l v e in
    let (valid, empty, ready) =
      loop n {s = wq_finish s t} wq l (wq_finish-IsValid t v) head.1 (omega arith) in
    rw (e, wake_all_loop) (valid, empty, ready ∙ rw (head.0, append_assoc) refl)

-- `wq_wake_all` empties the wait queue and appends its tasks, in its order, to the ready queue; the
-- loop ends within the length of the queue.
pub wq_wake_all-ready :
    {s : Sys} (wq : ℕ)
    → IsValid s
    → IsValid (wq_wake_all s wq)
      × ((wq_wake_all s wq).waiters wq ≡ [])
      × ((wq_wake_all s wq).ready_queue ≡ s.ready_queue ++ s.waiters wq)
unfolding wq_wake_all
wq_wake_all-ready {s} wq v = loop (length (s.waiters wq)) wq (s.waiters wq) v refl (omega arith)

loop-others :
    (n : ℕ) {s : Sys} (wq u : ℕ)
    → IsValid s
    → linked (s.task u).wq_link ≡ false
    → (wake_all_loop n s wq).task u ≡ s.task u
unfolding wake_all_loop
loop-others zero {s} wq u v off = refl
loop-others (suc n) {s} wq u v off =
    go (λ r w o. loop-others n {s = r} wq u w o) (s.waiters wq) refl
  where
    apart : (t : ℕ) → elem t (s.waiters wq) ≡ true → t ≢ u
    apart t here eq =
        let on = link_of_queued (s.task t).wq_link wq (sym (v.queued wq t) ∙ here) in
        let gone : linked (s.task t).wq_link ≡ false = rw eq off in ground arith

    go :
        ((r : Sys)
          → IsValid r
          → linked (r.task u).wq_link ≡ false
          → (wake_all_loop n r wq).task u ≡ r.task u)
        → (l : List ℕ) → s.waiters wq ≡ l
        → (wake_all_loop (suc n) s wq).task u ≡ s.task u
    go ih [] e = rw (e, wake_all_loop) refl
    go ih (t ∷ rest) e =
        let same = wq_finish-others s t u (apart t (rw e (ground arith))) in
        rw (e, wake_all_loop) (ih (wq_finish s t) (wq_finish-IsValid t v) (rw same off) ∙ same)

-- `wq_wake_all` changes no task that is on no wait queue.
pub wq_wake_all-others :
    {s : Sys} (wq u : ℕ)
    → IsValid s
    → linked (s.task u).wq_link ≡ false
    → (wq_wake_all s wq).task u ≡ s.task u
unfolding wq_wake_all
wq_wake_all-others {s} wq u v off = loop-others (length (s.waiters wq)) wq u v off

-- `wq_wake_one` takes the task at the head of the wait queue, the last to have gone to sleep, and
-- makes it runnable at the tail of the ready queue; on an empty queue it does nothing.
pub wq_wake_one-head :
    {s : Sys} (wq : ℕ)
    → IsValid s
    → ((s.waiters wq ≡ []) × (wq_wake_one s wq ≡ s))
      ⊎ ((t : ℕ) × (rest : List ℕ) × (s.waiters wq ≡ t ∷ rest)
          × ((wq_wake_one s wq).waiters wq ≡ rest)
          × ((wq_wake_one s wq).ready_queue ≡ s.ready_queue ++ (t ∷ [])))
unfolding wq_wake_one
wq_wake_one-head {s} wq v = go (s.waiters wq) refl
  where
    go :
        (l : List ℕ)
        → s.waiters wq ≡ l
        → ((s.waiters wq ≡ []) × (wq_wake_one s wq ≡ s))
          ⊎ ((t : ℕ) × (rest : List ℕ) × (s.waiters wq ≡ t ∷ rest)
              × ((wq_wake_one s wq).waiters wq ≡ rest)
              × ((wq_wake_one s wq).ready_queue ≡ s.ready_queue ++ (t ∷ [])))
    go [] e = inl (e, rw (e, wq_wake_one) refl)
    go (t ∷ rest) e =
        let head = wake-head wq t rest v e in
        inr (t, rest, e, rw (e, wq_wake_one) head.1, rw (e, wq_wake_one) head.0)
