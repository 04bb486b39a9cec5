-- ===== src/Tty/Shown.antt =====
-- A character stands where the cursor was, and the history shows older lines without changing any.
use kernel_legacy.Tty.{
  Tty, vga_width, vga_height, tty_hist_size, byte, tty_framebuffer_scroll_down, tty_history_enable,
  tty_history_disable, tty_history_scroll_up, tty_history_scroll_down, offset, write_entry,
  tty_framebuffer_write, at, wrap_y, wrap_cursor, put_printable,
}
use kernel_legacy.Tty.Screen.{OnScreen, wrap_y-stays, wrap_y-once, wrap_x-stays, wrap_x-once}
use kernel_legacy.Prelude.{
  ℕ, suc, ◌+◌, ◌*◌, ◌≤◌, ◌<◌, ◌≡◌, refl, ap, ◌∙◌, ◌≢◌, inl, inr, false, not, ◌&&◌, ◌||◌, List, [],
  ◌∷◌, arith, ltb, leb, ◌==◌, if◌then◌else◌, ==→eq, eq→==, Bool-cases,
}

-- the keys that move the view of the history
pub data Scroll : Type 0 where
  up down : Scroll

abbrev pub scroll : Scroll → Tty → Tty
scroll up t = tty_history_scroll_up t
scroll down t = tty_history_scroll_down t

abbrev pub scroll_all : List Scroll → Tty → Tty
scroll_all [] t = t
scroll_all (s ∷ rest) t = scroll_all rest (scroll s t)

-- the view differs from another one in its top line only, while it shows the history
abbrev Views : Tty → Tty → Type 0
Views t u =
    (u.framebuffer ≡ t.framebuffer)
    × (u.cursor ≡ t.cursor)
    × (u.history.top_line_save ≡ t.top_line_index)

scroll-Views : (s : Scroll) (t u : Tty) → Views t u → Views t (scroll s u)
unfolding tty_history_scroll_up tty_history_scroll_down
scroll-Views up t u v =
    elim (Bool-cases (
      not u.history.status
      || u.top_line_index
        == (if u.history.stop_scroll then 0 else byte (u.history.top_line_save + 1)))) [
          | inl stay ↦ rw (tty_history_scroll_up, stay) v
          | inr move ↦ rw (tty_history_scroll_up, move) v
        ]
scroll-Views down t u v =
    elim (Bool-cases (
      not u.history.status
      || byte (u.history.top_line_save + u.cursor.y) == byte (u.top_line_index + u.cursor.y))) [
        | inl stay ↦ rw (tty_history_scroll_down, stay) v
        | inr move ↦ rw (tty_history_scroll_down, move) v
      ]

scroll_all-Views : (l : List Scroll) (t u : Tty) → Views t u → Views t (scroll_all l u)
scroll_all-Views [] t u v = v
scroll_all-Views (s ∷ rest) t u v = scroll_all-Views rest t (scroll s u) (scroll-Views s t u v)

-- Where the top line is a byte, however the view is moved after the history is enabled, disabling it
-- gives back the lines, the cursor and the top line from before.
pub history_disable-scroll_all :
    (l : List Scroll) (t : Tty)
    → t.top_line_index < tty_hist_size
    → let after = tty_history_disable (scroll_all l (tty_history_enable t)) in
      (after.framebuffer ≡ t.framebuffer)
      × (after.cursor ≡ t.cursor)
      × (after.top_line_index ≡ t.top_line_index)
      × (after.history.status ≡ false)
unfolding tty_history_enable tty_history_disable
history_disable-scroll_all l t lt =
    let (lines, cursor, top) = scroll_all-Views l t (tty_history_enable t) (refl, refl, refl) in
    (lines, cursor, ap byte top ∙ omega arith, refl)

-- A line that is on the screen is not the one that scrolling clears.
line_kept :
    (top x y : ℕ)
    → x < vga_width
    → y < vga_height
    → let k = byte (top + y) * vga_width + x in
      (leb (byte (byte (top + 1) + 24) * vga_width) k
        && ltb k (byte (byte (top + 1) + 24) * vga_width + vga_width))
      ≡ false
line_kept top x y hx hy =
    let apart : byte (byte (top + 1) + 24) ≢ byte (top + y) = omega arith in ground (arith, apart)

wrap_y-keeps :
    (n : ℕ) (t : Tty) (x y : ℕ)
    → t.cursor.y ≤ vga_height
    → x < vga_width
    → y < vga_height
    → let k = byte (t.top_line_index + y) * vga_width + x in
      (wrap_y (suc n) t).framebuffer k ≡ t.framebuffer k
unfolding tty_framebuffer_scroll_down
wrap_y-keeps n t x y le hx hy =
    let k = byte (t.top_line_index + y) * vga_width + x in
    elim (Bool-cases (leb vga_height t.cursor.y)) [
      | inr on ↦ ap (λ u. u.framebuffer k) (wrap_y-stays (suc n) t (ground arith))
      | inl over ↦
          let low : t.cursor.y ≡ vga_height = ground (arith, le) in
          ap (λ u. u.framebuffer k) (wrap_y-once n t low)
          ∙ rw (line_kept t.top_line_index x y hx hy) refl
    ]

-- what is on the screen stays in its place of the frame buffer while the cursor wraps
wrap_cursor-keeps :
    (t : Tty) (x y : ℕ)
    → t.cursor.x ≤ vga_width
    → t.cursor.y < vga_height
    → x < vga_width
    → y < vga_height
    → let k = byte (t.top_line_index + y) * vga_width + x in
      (wrap_cursor t).framebuffer k ≡ t.framebuffer k
unfolding wrap_cursor
wrap_cursor-keeps t x y le lt hx hy =
    let k = byte (t.top_line_index + y) * vga_width + x in
    elim (Bool-cases (t.cursor.x == vga_width)) [
      | inl wide ↦
          ap (λ u. (wrap_y 231 u).framebuffer k) (wrap_x-once t (==→eq _ _ wide) lt)
          ∙ wrap_y-keeps 230 (at t 0 (suc t.cursor.y)) x y (omega arith) hx hy
      | inr inside ↦
          ap (λ u. (wrap_y 231 u).framebuffer k) (wrap_x-stays 4 t (ground arith))
          ∙ wrap_y-keeps 230 t x y (omega arith) hx hy
    ]

-- A character other than a new line, a carriage return and a tab, put while the history is not
-- shown, stands with the mode of the terminal in the frame buffer where the cursor was, also where
-- the screen scrolls behind it.
pub put_printable-shows :
    (t : Tty) (c : ℕ)
    → OnScreen t
    → t.history.status ≡ false
    → (put_printable t c).framebuffer (offset t) ≡ record { character = c; mode = t.mode }
unfolding put_printable tty_framebuffer_write write_entry
put_printable-shows t c on now =
    let x = on.column in
    let y = on.line in
    let moved = at (write_entry t c) (byte (t.cursor.x + 1)) t.cursor.y in
    ap
      (λ b.
        let w = write_entry (if b then tty_history_disable t else t) c in
        (wrap_cursor (at w (byte (w.cursor.x + 1)) w.cursor.y)).framebuffer (offset t))
      now
    ∙ wrap_cursor-keeps moved t.cursor.x t.cursor.y (omega arith) y x y
    ∙ rw (eq→== (offset t) (offset t) refl) refl
