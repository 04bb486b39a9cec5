-- ===== src/Proc/Signal.antt =====
-- src/proc/signal.c and src/syscalls/kill.c: pending signals as bits of `signals_map`.
pub mod Pending
pub mod Wakes
use kernel_legacy.Bits.{bit, set_bit, clear_bit}
use kernel_legacy.Prelude.Int.{ℤ, pos, negsuc}
use kernel_legacy.Proc.{Task, Sys, null, put_task}
use kernel_legacy.Proc.WaitQueue.{wq_signal_wake_up}
use kernel_legacy.Prelude.{
  ℕ, zero, suc, ◌+◌, ◌-◌, ◌*◌, ◌/◌, ◌%◌, ◌^◌, ◌≤◌, ◌<◌, min, max, bit_and, bit_or, ◌≡◌, refl, sym,
  ap, ap₂, ◌∙◌, fun_ext, ◌≢◌, ◌↔◌, ◌⊎◌, inl, inr, Bool, true, false, not, ◌&&◌, ◌||◌, Option, none,
  some, List, [], ◌∷◌, ◌++◌, map, arith, ltb, leb, ◌==◌, if◌then◌else◌, ltb→lt, lt→ltb, ==→eq,
  eq→==, ne→==, Bool-cases, Option-cases, length, get_or, set, replicate, length-append, length-set,
  length-replicate, get_or-set_self, get_or-set_ne, elem, remove, elem-append, elem-remove,
  remove_of_not_elem, distinct, distinct-remove, distinct-append-one, update,
}

abbrev pub sig_sentinel : ℕ
sig_sentinel = 32

abbrev pub eperm : ℕ
eperm = 1

abbrev pub esrch : ℕ
esrch = 3

abbrev pub einval : ℕ
einval = 22

-- `-code`, for a positive code
abbrev pub minus : ℕ → ℤ
minus code = negsuc (code - 1)

unfoldable pub signal_is_valid : ℕ → Bool
signal_is_valid sig = ltb 0 sig && ltb sig sig_sentinel

unfoldable pub signal_check_perm : Sys → ℕ → Bool
signal_check_perm s target =
    let cur = s.current_task in
    if (cur == null) || (target == null)
    then false
    else if (s.task cur).uid == 0
    then true
    else (s.task cur).uid == (s.task target).uid

abbrev pub put_signals : Sys → ℕ → ℕ → Sys
put_signals s t m = put_task s t (record (s.task t) { signals_map = m })

unfoldable pub signal_send : Sys → ℕ → ℕ → Sys
signal_send s sig dst =
    if not (dst == null) && ltb 0 sig && ltb sig sig_sentinel
    then wq_signal_wake_up (put_signals s dst (set_bit (s.task dst).signals_map sig)) dst
    else s

unfoldable pub signal_is_set : Sys → ℕ → ℕ → Bool
signal_is_set s sig dst =
    if not (dst == null) && ltb sig sig_sentinel
    then bit (s.task dst).signals_map sig == 1
    else false

unfoldable pub signal_reset : Sys → ℕ → Sys
signal_reset s dst = if dst == null then s else put_signals s dst 0

unfoldable pub signal_dequeue : Sys → ℕ → ℕ → Sys
signal_dequeue s sig dst =
    if not (dst == null) && ltb 0 sig && ltb sig sig_sentinel
    then put_signals s dst (clear_bit 32 (s.task dst).signals_map sig)
    else s

-- the loop of `signal_dequeue_yield`, over `n` signals from `i` on
unfoldable pub yield_from : Sys → ℕ → (i n : ℕ) → ℤ × Sys
yield_from s t i zero = (pos 0, s)
yield_from s t i (suc n) =
    let rest = yield_from s t (i + 1) n in
    if bit (s.task t).signals_map i == 1 then (pos i, signal_dequeue s i t) else rest

unfoldable pub signal_dequeue_yield : Sys → ℕ → ℤ × Sys
signal_dequeue_yield s t =
    if t == null then (minus esrch, s) else yield_from s t 1 (sig_sentinel - 1)

-- equality of two `pid_t`
abbrev pub eq_pid : ℤ → ℤ → Bool
eq_pid (pos a) (pos b) = a == b
eq_pid (negsuc a) (negsuc b) = a == b
eq_pid (pos a) (negsuc b) = false
eq_pid (negsuc a) (pos b) = false

-- `task_find_by_pid`, over what is left of `info_queue`; NULL if no task has the pid
unfoldable pub find_by_pid : Sys → ℤ → List ℕ → ℕ
find_by_pid s pid [] = null
find_by_pid s pid (t ∷ rest) =
    let later = find_by_pid s pid rest in if eq_pid (s.task t).pid pid then t else later

unfoldable pub kill_pid : Sys → ℤ → ℕ → ℤ × Sys
kill_pid s pid sig =
    let target = find_by_pid s pid s.info_queue in
    if target == null
    then (minus esrch, s)
    else if not (signal_is_valid sig)
    then (minus einval, s)
    else if not (signal_check_perm s target)
    then (minus eperm, s)
    else (pos 0, signal_send s sig target)
