-- ===== src/Proc/Signal/Pending.antt =====
-- Which signals are pending after each operation on `signals_map`.
use kernel_legacy.Bits.{bit, set_bit, bit-set_bit, bit-clear_bit}
use kernel_legacy.Prelude.Int.{ℤ, pos}
use kernel_legacy.Proc.{WaitState, Sys, null, interruptible, uninterruptible}
use kernel_legacy.Proc.WaitQueue.{wq_signal_wake_up}
use kernel_legacy.Proc.Keeps.{Keeps, Keeps-refl, wq_finish-Keeps}
use kernel_legacy.Proc.Signal.{
  sig_sentinel, put_signals, signal_send, signal_is_set, signal_dequeue, yield_from,
  signal_dequeue_yield,
}
use kernel_legacy.Prelude.{
  ℕ, zero, suc, ◌+◌, ◌≤◌, ◌<◌, ◌≡◌, refl, ◌∙◌, ◌≢◌, ◌⊎◌, inl, inr, true, false, arith, ◌==◌,
  if◌then◌else◌, lt→ltb, ==→eq, ne→==, Bool-cases, set,
}

pub wq_signal_wake_up-Keeps : (s : Sys) (t : ℕ) → Keeps s (wq_signal_wake_up s t)
unfolding wq_signal_wake_up
wq_signal_wake_up-Keeps s t = go (s.task t).wq_state refl
  where
    go : (w : WaitState) → (s.task t).wq_state ≡ w → Keeps s (wq_signal_wake_up s t)
    go interruptible e = rw (e, wq_signal_wake_up) (wq_finish-Keeps s t)
    go uninterruptible e = rw (e, wq_signal_wake_up) (Keeps-refl s)

signal_is_set-bit :
    (s : Sys) (j t : ℕ)
    → t ≢ null
    → j < sig_sentinel
    → signal_is_set s j t ≡ (bit (s.task t).signals_map j == 1)
unfolding signal_is_set
signal_is_set-bit s j t ne lt = rw (ne→== t null ne, lt→ltb _ _ lt) refl

-- Sending a valid signal makes it pending and changes no other signal of the task.
pub signal_is_set-send :
    (s : Sys) (sig j t : ℕ)
    → t ≢ null
    → 0 < sig
    → sig < sig_sentinel
    → j < sig_sentinel
    → signal_is_set (signal_send s sig t) j t ≡ (if sig == j then true else signal_is_set s j t)
unfolding signal_send
signal_is_set-send s sig j t ne low high lt =
    let m = set_bit (s.task t).signals_map sig in
    let same = (wq_signal_wake_up-Keeps (put_signals s t m) t).signals t in
    rw (ne→== t null ne, lt→ltb _ _ low, lt→ltb _ _ high)
      (rw (signal_is_set-bit _ j t ne lt, signal_is_set-bit s j t ne lt, same)
        (ground (arith, bit-set_bit (s.task t).signals_map sig j)))

-- Taking a signal off makes it not pending and changes no other signal of the task.
pub signal_is_set-dequeue :
    (s : Sys) (sig j t : ℕ)
    → t ≢ null
    → 0 < sig
    → sig < sig_sentinel
    → j < sig_sentinel
    → signal_is_set (signal_dequeue s sig t) j t ≡ (if sig == j then false else signal_is_set s j t)
unfolding signal_dequeue
signal_is_set-dequeue s sig j t ne low high lt =
    rw (ne→== t null ne, lt→ltb _ _ low, lt→ltb _ _ high)
      (rw (signal_is_set-bit _ j t ne lt, signal_is_set-bit s j t ne lt)
        (ground (arith, bit-clear_bit 32 (s.task t).signals_map sig j high lt)))

-- what a search for a pending signal from `i` on returns, and leaves
abbrev pub Yields : Sys → ℕ → ℕ → ℤ × Sys → Type 0
Yields s t i (r, s') =
    ((r ≡ pos 0) × (s' ≡ s) × ((j : ℕ) → i ≤ j → j < sig_sentinel → signal_is_set s j t ≡ false))
    ⊎ ((k : ℕ) × (r ≡ pos k)
        × (i ≤ k)
        × (k < sig_sentinel)
        × (signal_is_set s k t ≡ true)
        × ((j : ℕ) → i ≤ j → j < k → signal_is_set s j t ≡ false)
        × (s' ≡ signal_dequeue s k t))

yield_from-Yields :
    (s : Sys) (t i n : ℕ) → t ≢ null → i + n ≡ sig_sentinel → Yields s t i (yield_from s t i n)
unfolding yield_from
yield_from-Yields s t i zero ne e = inl (refl, refl, λ j p q. absurd (omega arith))
yield_from-Yields s t i (suc n) ne e = elim (Bool-cases (bit (s.task t).signals_map i == 1)) [
  | inl set ↦ rw set (
      inr (
        i,
        refl,
        omega arith,
        omega arith,
        signal_is_set-bit s i t ne (omega arith) ∙ set,
        λ j p q. absurd (omega arith),
        refl,
      ))
  | inr clear ↦ rw clear (down clear (yield_from-Yields s t (i + 1) n ne (omega arith)))
]
  where
    none_here :
        (bit (s.task t).signals_map i == 1) ≡ false
        → (j : ℕ) → j < sig_sentinel
        → (i == j) ≡ true
        → signal_is_set s j t ≡ false
    none_here off j lt same =
        let at : i ≡ j = ==→eq _ _ same in
        rw (← at) (signal_is_set-bit s i t ne (omega arith) ∙ off)

    below :
        (bit (s.task t).signals_map i == 1) ≡ false
        → (top : ℕ) → top ≤ sig_sentinel
        → ((j : ℕ) → i + 1 ≤ j → j < top → signal_is_set s j t ≡ false)
        → (j : ℕ) → i ≤ j
        → j < top
        → signal_is_set s j t ≡ false
    below off top le h j p q = elim (Bool-cases (i == j)) [
      | inl same ↦ none_here off j (omega arith) same
      | inr other ↦ h j (ground arith) q
    ]

    down :
        (bit (s.task t).signals_map i == 1) ≡ false
        → Yields s t (i + 1) (yield_from s t (i + 1) n)
        → Yields s t i (yield_from s t (i + 1) n)
    down off (inl (e, same, h)) = inl (e, same, below off sig_sentinel (omega arith) h)
    down off (inr (k, e, p, q, is, h, same)) =
        inr (k, e, omega arith, q, is, below off k (omega arith) h, same)

-- `signal_dequeue_yield` returns the lowest pending signal and takes that off, or returns 0 and
-- changes nothing, exactly when none is pending.
pub signal_dequeue_yield-lowest :
    (s : Sys) (t : ℕ) → t ≢ null → Yields s t 1 (signal_dequeue_yield s t)
unfolding signal_dequeue_yield
signal_dequeue_yield-lowest s t ne = rw (ne→== t null ne) (yield_from-Yields s t 1 31 ne refl)
