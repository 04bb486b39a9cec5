-- ===== src/Tty/Screen.antt =====
-- The cursor stays on the screen and no write leaves the frame buffer.
use std.Path.{subst}
use kernel_legacy.Tty.{
  Tty, vga_width, vga_height, tty_hist_size, byte, tty_framebuffer_scroll_down, tty_history_disable,
  offset, write_entry, tty_framebuffer_write, at, wrap_x, wrap_y, wrap_cursor, put_printable,
  put_tab, ft_putchar, ft_putstr,
}
use kernel_legacy.Prelude.{
  ℕ, zero, suc, ◌+◌, ◌-◌, ◌*◌, ◌%◌, ◌≤◌, ◌<◌, ◌≡◌, refl, sym, ap, ap₂, ◌∙◌, inl, inr, true, false,
  ◌&&◌, List, [], ◌∷◌, arith, ltb, leb, ◌==◌, if◌then◌else◌, ==→eq, Bool-cases,
}

-- the cursor is on the screen, and the lines are bytes
pub record OnScreen (t : Tty) : Type 0 where
  pub column : t.cursor.x < vga_width
  pub line : t.cursor.y < vga_height
  pub top : t.top_line_index < tty_hist_size
  pub saved : t.history.top_line_save < tty_hist_size

-- the memory behind the frame buffer is as before
abbrev pub KeepsRest : Tty → Tty → Type 0
KeepsRest before after =
    (k : ℕ) → vga_width * tty_hist_size ≤ k → after.framebuffer k ≡ before.framebuffer k

-- the cursor may be one line below the screen, before it wraps
pub record NearScreen (t : Tty) : Type 0 where
  pub column : t.cursor.x < vga_width
  pub line : t.cursor.y ≤ vga_height
  pub top : t.top_line_index < tty_hist_size
  pub saved : t.history.top_line_save < tty_hist_size

-- what a step does that puts something on the screen
abbrev pub Puts : Tty → Tty → Type 0
Puts before after = OnScreen after × KeepsRest before after

behind_line :
    (top width k : ℕ)
    → vga_width * tty_hist_size ≤ k
    → (leb (byte (byte (top + 1) + 24) * vga_width) k
        && ltb k (byte (byte (top + 1) + 24) * vga_width + vga_width))
      ≡ false
behind_line top width k far = ground arith

scroll_down-KeepsRest : (t : Tty) → KeepsRest t (tty_framebuffer_scroll_down t)
unfolding tty_framebuffer_scroll_down
scroll_down-KeepsRest t k far = rw (behind_line t.top_line_index 0 k far) refl

pub wrap_y-stays : (n : ℕ) (t : Tty) → t.cursor.y < vga_height → wrap_y n t ≡ t
unfolding wrap_y
wrap_y-stays zero t lt = refl
wrap_y-stays (suc n) t lt =
    let on : leb vga_height t.cursor.y ≡ false = ground arith in rw (wrap_y, on) refl

-- one round of the second loop is enough
pub wrap_y-once :
    (n : ℕ) (t : Tty)
    → t.cursor.y ≡ vga_height
    → wrap_y (suc n) t ≡ at (tty_framebuffer_scroll_down t) t.cursor.x 24
unfolding wrap_y tty_framebuffer_scroll_down
wrap_y-once n t low =
    let over : leb vga_height t.cursor.y ≡ true = ground arith in
    let up : t.cursor.y - 1 ≡ 24 = omega arith in
    let scrolled = tty_framebuffer_scroll_down t in
    ap (λ b. if b then wrap_y n (at scrolled t.cursor.x (t.cursor.y - 1)) else t) over
    ∙ ap (λ k. wrap_y n (at scrolled t.cursor.x k)) up
    ∙ wrap_y-stays n (at scrolled t.cursor.x 24) (omega arith)

wrap_y-Puts : (n : ℕ) (t : Tty) → NearScreen t → Puts t (wrap_y (suc n) t)
unfolding tty_framebuffer_scroll_down
wrap_y-Puts n t near = elim (Bool-cases (leb vga_height t.cursor.y)) [
  | inr on ↦
      let same = wrap_y-stays (suc n) t (ground arith) in
      subst (Puts t) (sym same) (
        record { column = near.column; line = ground arith; top = near.top; saved = near.saved },
        λ k far. refl,
      )
  | inl over ↦
      let low : t.cursor.y ≡ vga_height = ground (arith, near.line) in
      subst (Puts t) (sym (wrap_y-once n t low)) (
        record { column = near.column; line = omega arith; top = omega arith; saved = near.saved },
        scroll_down-KeepsRest t,
      )
]

pub wrap_x-stays : (n : ℕ) (t : Tty) → t.cursor.x < vga_width → wrap_x n t ≡ t
unfolding wrap_x
wrap_x-stays zero t lt = refl
wrap_x-stays (suc n) t lt =
    let on : leb vga_width t.cursor.x ≡ false = ground arith in rw (wrap_x, on) refl

pub wrap_cursor-Puts : (t : Tty) → NearScreen t → Puts t (wrap_cursor t)
unfolding wrap_cursor
wrap_cursor-Puts t near =
    subst (λ u. Puts t (wrap_y 231 u)) (sym (wrap_x-stays 4 t near.column)) (wrap_y-Puts 230 t near)

-- a column behind the last one goes to the next line
pub wrap_x-once :
    (t : Tty)
    → t.cursor.x ≡ vga_width
    → t.cursor.y < vga_height
    → wrap_x 4 t ≡ at t 0 (suc t.cursor.y)
unfolding wrap_x
wrap_x-once t wide lt =
    let over : leb vga_width t.cursor.x ≡ true = ground arith in
    let first : t.cursor.x - vga_width ≡ 0 = omega arith in
    let next : byte (t.cursor.y + 1) ≡ suc t.cursor.y = omega arith in
    ap (λ b. if b then wrap_x 3 (at t (t.cursor.x - vga_width) (byte (t.cursor.y + 1))) else t) over
    ∙ ap₂ (λ x y. wrap_x 3 (at t x y)) first next
    ∙ wrap_x-stays 3 (at t 0 (suc t.cursor.y)) (omega arith)

pub wrap_cursor-wide :
    (t : Tty)
    → t.cursor.x ≤ vga_width
    → t.cursor.y < vga_height
    → t.top_line_index < tty_hist_size
    → t.history.top_line_save < tty_hist_size
    → Puts t (wrap_cursor t)
unfolding wrap_cursor
wrap_cursor-wide t le lt top saved = elim (Bool-cases (t.cursor.x == vga_width)) [
  | inl wide ↦
      subst (λ u. Puts t (wrap_y 231 u)) (sym (wrap_x-once t (==→eq _ _ wide) lt))
        (wrap_y-Puts 230 (at t 0 (suc t.cursor.y))
          (record { column = omega arith; line = omega arith; top = top; saved = saved }))
  | inr inside ↦
      wrap_cursor-Puts t
        (record { column = ground arith; line = omega arith; top = top; saved = saved })
]

KeepsRest-trans : (r s t : Tty) → KeepsRest r s → Puts s t → Puts r t
KeepsRest-trans r s t first (on, second) = (on, λ k far. second k far ∙ first k far)

write_entry-KeepsRest : (t : Tty) (c : ℕ) → OnScreen t → KeepsRest t (write_entry t c)
unfolding write_entry
write_entry-KeepsRest t c on k far =
    let x = on.column in let away : (offset t == k) ≡ false = ground arith in rw away refl

shown-Puts :
    (t : Tty) (c : ℕ)
    → OnScreen t
    → let written = write_entry t c in
      Puts t (wrap_cursor (at written (byte (written.cursor.x + 1)) written.cursor.y))
unfolding write_entry
shown-Puts t c on =
    let x = on.column in
    let y = on.line in
    let written = write_entry t c in
    let moved = at written (byte (t.cursor.x + 1)) t.cursor.y in
    KeepsRest-trans t moved _ (write_entry-KeepsRest t c on)
      (wrap_cursor-wide moved (omega arith) y on.top on.saved)

history_disable-OnScreen : (t : Tty) → OnScreen t → OnScreen (tty_history_disable t)
unfolding tty_history_disable
history_disable-OnScreen t on = record {
  column = on.column;
  line = on.line;
  top = omega arith;
  saved = on.saved;
}

history_disable-KeepsRest : (t : Tty) → KeepsRest t (tty_history_disable t)
unfolding tty_history_disable
history_disable-KeepsRest t k far = refl

pub put_printable-Puts : (t : Tty) (c : ℕ) → OnScreen t → Puts t (put_printable t c)
unfolding put_printable tty_framebuffer_write
put_printable-Puts t c on = elim (Bool-cases t.history.status) [
  | inl past ↦
      let run : put_printable t c
          ≡ wrap_cursor (
              at (write_entry (tty_history_disable t) c)
                (byte ((write_entry (tty_history_disable t) c).cursor.x + 1))
                (write_entry (tty_history_disable t) c).cursor.y) =
        ap
          (λ b.
            let w = write_entry (if b then tty_history_disable t else t) c in
            wrap_cursor (at w (byte (w.cursor.x + 1)) w.cursor.y))
          past in
      subst (Puts t) (sym run) (
        KeepsRest-trans t (tty_history_disable t) _ (history_disable-KeepsRest t)
          (shown-Puts (tty_history_disable t) c (history_disable-OnScreen t on)))
  | inr now ↦
      let run : put_printable t c
          ≡ wrap_cursor (
              at (write_entry t c) (byte ((write_entry t c).cursor.x + 1))
                (write_entry t c).cursor.y) =
        ap
          (λ b.
            let w = write_entry (if b then tty_history_disable t else t) c in
            wrap_cursor (at w (byte (w.cursor.x + 1)) w.cursor.y))
          now in
      subst (Puts t) (sym run) (shown-Puts t c on)
]

put_tab-Puts : (n : ℕ) (t : Tty) → OnScreen t → Puts t (put_tab n t)
unfolding put_tab
put_tab-Puts zero t on = (on, λ k far. refl)
put_tab-Puts (suc n) t on =
    let spaced = put_printable t 32 in
    let (on', rest) = put_printable-Puts t 32 on in
    elim (Bool-cases (spaced.cursor.x % 4 == 0)) [
      | inl done ↦ rw (put_tab, done) (on', rest)
      | inr more ↦ rw (put_tab, more) (KeepsRest-trans t spaced _ rest (put_tab-Puts n spaced on'))
    ]

ft_putchar-Puts : (t : Tty) (c : ℕ) → OnScreen t → Puts t (ft_putchar t c)
unfolding ft_putchar
ft_putchar-Puts t c on =
    let x = on.column in
    let y = on.line in
    elim (Bool-cases (c == 10)) [
      | inl new_line ↦
          rw (ft_putchar, new_line)
            (wrap_cursor-Puts (at t 0 (byte (t.cursor.y + 1)))
              (record { column = omega arith; line = omega arith; top = on.top; saved = on.saved }))
      | inr other ↦ elim (Bool-cases (c == 13)) [
        | inl back ↦
            rw (ft_putchar, other, back)
              (wrap_cursor-Puts (at t 0 t.cursor.y) (record {
                column = omega arith;
                line = omega arith;
                top = on.top;
                saved = on.saved;
              }))
        | inr other' ↦ elim (Bool-cases (c == 9)) [
          | inl tab ↦
              let (on', rest) = put_tab-Puts 4 t on in
              rw (ft_putchar, other, other', tab)
                (KeepsRest-trans t (put_tab 4 t) _ rest (wrap_cursor-Puts (put_tab 4 t) (near on')))
          | inr plain ↦ rw (ft_putchar, other, other', plain) (put_printable-Puts t c on)
        ]
      ]
    ]
  where
    near : {u : Tty} → OnScreen u → NearScreen u
    near on = record {
      column = on.column;
      line = (let lt = on.line in omega arith);
      top = on.top;
      saved = on.saved;
    }

-- From a terminal whose cursor is on the screen, every string leaves the cursor on the screen, and
-- writes nothing behind the lines of the frame buffer.
pub ft_putstr-Puts : (t : Tty) (str : List ℕ) → OnScreen t → Puts t (ft_putstr t str)
unfolding ft_putstr
ft_putstr-Puts t [] on = (on, λ k far. refl)
ft_putstr-Puts t (c ∷ str) on =
    let (on', rest) = ft_putchar-Puts t c on in
    KeepsRest-trans t (ft_putchar t c) _ rest (ft_putstr-Puts (ft_putchar t c) str on')
