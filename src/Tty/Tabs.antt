-- ===== src/Tty/Tabs.antt =====
-- A tab ends at a column that is a multiple of four, within four spaces.
use kernel_legacy.Tty.{
  Tty, vga_width, vga_height, byte, tty_history_disable, write_entry, tty_framebuffer_write, at,
  wrap_y, wrap_cursor, put_printable, put_tab,
}
use kernel_legacy.Tty.Screen.{
  OnScreen, wrap_y-stays, wrap_y-once, wrap_x-stays, wrap_x-once, put_printable-Puts,
}
use kernel_legacy.Prelude.{
  ℕ, zero, suc, ◌+◌, ◌-◌, ◌%◌, ◌≤◌, ◌<◌, ◌≡◌, ap, ◌∙◌, inl, inr, Bool, arith, leb, ◌==◌,
  if◌then◌else◌, ==→eq, Bool-cases,
}

wrap_y-column :
    (n : ℕ) (t : Tty) → t.cursor.y ≤ vga_height → (wrap_y (suc n) t).cursor.x ≡ t.cursor.x
wrap_y-column n t le = elim (Bool-cases (leb vga_height t.cursor.y)) [
  | inr on ↦ ap (λ u. u.cursor.x) (wrap_y-stays (suc n) t (ground arith))
  | inl over ↦ ap (λ u. u.cursor.x) (wrap_y-once n t (ground (arith, le)))
]

-- the screen has a multiple of four columns
wrap_cursor-column :
    (t : Tty)
    → t.cursor.x ≤ vga_width
    → t.cursor.y < vga_height
    → (wrap_cursor t).cursor.x % 4 ≡ t.cursor.x % 4
unfolding wrap_cursor
wrap_cursor-column t le lt = elim (Bool-cases (t.cursor.x == vga_width)) [
  | inl wide ↦
      let full : t.cursor.x ≡ vga_width = ==→eq _ _ wide in
      ap (λ u. (wrap_y 231 u).cursor.x % 4) (wrap_x-once t full lt)
      ∙ ap (λ k. k % 4) (wrap_y-column 230 (at t 0 (suc t.cursor.y)) (omega arith))
      ∙ omega arith
  | inr inside ↦
      ap (λ u. (wrap_y 231 u).cursor.x % 4) (wrap_x-stays 4 t (ground arith))
      ∙ ap (λ k. k % 4) (wrap_y-column 230 t (omega arith))
]

put_printable-column :
    (t : Tty) (c : ℕ) → OnScreen t → (put_printable t c).cursor.x % 4 ≡ (t.cursor.x + 1) % 4
unfolding put_printable tty_framebuffer_write write_entry tty_history_disable
put_printable-column t c on =
    let x = on.column in
    let y = on.line in
    let moved = λ (u : Tty). at (write_entry u c) (byte (t.cursor.x + 1)) t.cursor.y in
    let step : byte (t.cursor.x + 1) ≡ t.cursor.x + 1 = omega arith in
    let run = λ (b : Bool).
      let w = write_entry (if b then tty_history_disable t else t) c in
      (wrap_cursor (at w (byte (w.cursor.x + 1)) w.cursor.y)).cursor.x % 4 in
    elim (Bool-cases t.history.status) [
      | inl past ↦
          ap run past
          ∙ wrap_cursor-column (moved (tty_history_disable t)) (omega arith) y
          ∙ ap (λ k. k % 4) step
      | inr now ↦ ap run now ∙ wrap_cursor-column (moved t) (omega arith) y ∙ ap (λ k. k % 4) step
    ]

put_tab-stops :
    (n : ℕ) (t : Tty) → OnScreen t → 4 - t.cursor.x % 4 ≤ n → (put_tab n t).cursor.x % 4 ≡ 0
unfolding put_tab
put_tab-stops zero t on enough = absurd (omega arith)
put_tab-stops (suc n) t on enough =
    let spaced = put_printable t 32 in
    let step : spaced.cursor.x % 4 ≡ (t.cursor.x + 1) % 4 = put_printable-column t 32 on in
    elim (Bool-cases (spaced.cursor.x % 4 == 0)) [
      | inl done ↦ rw (put_tab, done) (==→eq _ _ done)
      | inr more ↦
          rw (put_tab, more)
            (put_tab-stops n spaced (put_printable-Puts t 32 on).0 (ground (arith, step, enough)))
    ]

-- From a cursor on the screen the loop for a tab ends within four rounds: the column behind it is a
-- multiple of four.
put_tab-column : (t : Tty) → OnScreen t → (put_tab 4 t).cursor.x % 4 ≡ 0
put_tab-column t on = put_tab-stops 4 t on (omega arith)
