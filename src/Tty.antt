-- ===== src/Tty.antt =====
-- src/drivers/tty/tty.c and src/drivers/vga/vga.c: the frame buffer of a terminal, its cursor and its
-- history, and the characters that are put on it. Bytes wrap at 256.
pub mod Screen
pub mod Shown
pub mod Tabs
pub mod Numbers
mod Tests
use kernel_legacy.Prelude.{
  ℕ, zero, suc, ◌+◌, ◌-◌, ◌*◌, ◌/◌, ◌%◌, ◌^◌, ◌≤◌, ◌<◌, min, max, bit_and, bit_or, ◌≡◌, refl, sym,
  ap, ap₂, ◌∙◌, fun_ext, ◌≢◌, ◌↔◌, ◌⊎◌, inl, inr, Bool, true, false, not, ◌&&◌, ◌||◌, Option, none,
  some, List, [], ◌∷◌, ◌++◌, map, arith, ltb, leb, ◌==◌, if◌then◌else◌, ltb→lt, lt→ltb, ==→eq,
  eq→==, ne→==, ==→ne, Bool-cases, Option-cases, length, get_or, set, replicate, length-append,
  length-set, length-replicate, get_or-set_self, get_or-set_ne, elem, remove, elem-append,
  elem-remove, remove_of_not_elem, distinct, distinct-remove, distinct-append-one, update,
}

pub record VgaEntry : Type 0 where
  pub character : ℕ
  pub mode : ℕ

pub record Cursor : Type 0 where
  pub x : ℕ
  pub y : ℕ

pub record History : Type 0 where
  pub status : Bool
  pub stop_scroll : Bool
  pub top_line_save : ℕ

pub record Tty : Type 0 where
  pub framebuffer : ℕ → VgaEntry
  pub cursor : Cursor
  pub top_line_index : ℕ
  pub mode : ℕ
  pub history : History

abbrev pub vga_width : ℕ
vga_width = 80

abbrev pub vga_height : ℕ
vga_height = 25

-- `TTY_HIST_SIZE`
abbrev pub tty_hist_size : ℕ
tty_hist_size = 256

abbrev pub byte : ℕ → ℕ
byte n = n % 256

-- the loop of `tty_framebuffer_clear` clears the lines of the frame buffer
unfoldable pub tty_framebuffer_clear : Tty → Tty
tty_framebuffer_clear t =
    let blank : VgaEntry = record { character = 0; mode = t.mode } in
    record t {
      framebuffer = λ k. if ltb k (vga_width * tty_hist_size) then blank else t.framebuffer k;
      cursor = record { x = 0; y = 0 };
      top_line_index = 0;
    }

unfoldable pub tty_history_enable : Tty → Tty
tty_history_enable t = record t {
  history = record t.history { status = true; top_line_save = t.top_line_index };
}

unfoldable pub tty_history_disable : Tty → Tty
tty_history_disable t = record t {
  history = record t.history { status = false };
  top_line_index = byte t.history.top_line_save;
}

unfoldable pub tty_history_scroll_up : Tty → Tty
tty_history_scroll_up t =
    let oldest_line = if t.history.stop_scroll then 0 else byte (t.history.top_line_save + 1) in
    if not t.history.status || t.top_line_index == oldest_line
    then t
    else record t { top_line_index = byte (t.top_line_index + 255) }

unfoldable pub tty_history_scroll_down : Tty → Tty
tty_history_scroll_down t =
    let real_y = byte (t.history.top_line_save + t.cursor.y) in
    let cur_y = byte (t.top_line_index + t.cursor.y) in
    if not t.history.status || real_y == cur_y
    then t
    else record t { top_line_index = byte (t.top_line_index + 1) }

-- the loop clears the line at the bottom
unfoldable pub tty_framebuffer_scroll_down : Tty → Tty
tty_framebuffer_scroll_down t =
    let top = byte (t.top_line_index + 1) in
    let bottom_line = byte (top + (vga_height - 1)) in
    let blank : VgaEntry = record { character = 0; mode = t.mode } in
    record t {
      framebuffer = λ k.
          if leb (bottom_line * vga_width) k && ltb k (bottom_line * vga_width + vga_width)
          then blank
          else t.framebuffer k;
      top_line_index = top;
      history = record t.history { stop_scroll = not (top == 0) && t.history.stop_scroll };
    }

-- where the cursor stands in the frame buffer
abbrev pub offset : Tty → ℕ
offset t = byte (t.top_line_index + t.cursor.y) * vga_width + t.cursor.x

-- behind the test for the history
unfoldable pub write_entry : Tty → ℕ → Tty
write_entry t c = record t {
  framebuffer = update t.framebuffer (offset t) (record { character = c; mode = t.mode });
}

unfoldable pub tty_framebuffer_write : Tty → ℕ → Tty
tty_framebuffer_write t c = write_entry (if t.history.status then tty_history_disable t else t) c

abbrev pub at : Tty → (x y : ℕ) → Tty
at t x y = record t { cursor = record { x = x; y = y } }

-- the first loop at the end of `ft_putchar`, for at most `n` rounds
unfoldable pub wrap_x : (n : ℕ) → Tty → Tty
wrap_x zero t = t
wrap_x (suc n) t =
    let next = wrap_x n (at t (t.cursor.x - vga_width) (byte (t.cursor.y + 1))) in
    if leb vga_width t.cursor.x then next else t

-- the second one
unfoldable pub wrap_y : (n : ℕ) → Tty → Tty
wrap_y zero t = t
wrap_y (suc n) t =
    let scrolled = tty_framebuffer_scroll_down t in
    let next = wrap_y n (at scrolled scrolled.cursor.x (scrolled.cursor.y - 1)) in
    if leb vga_height t.cursor.y then next else t

-- A byte is below 4 * 80, and below 231 + 25.
unfoldable pub wrap_cursor : Tty → Tty
wrap_cursor t = wrap_y 231 (wrap_x 4 t)

-- the `default` of `ft_putchar`
unfoldable pub put_printable : Tty → ℕ → Tty
put_printable t c =
    let written = tty_framebuffer_write t c in
    wrap_cursor (at written (byte (written.cursor.x + 1)) written.cursor.y)

-- the loop for a tab, for at most `n` rounds
unfoldable pub put_tab : (n : ℕ) → Tty → Tty
put_tab zero t = t
put_tab (suc n) t =
    let spaced = put_printable t 32 in
    let next = put_tab n spaced in if spaced.cursor.x % 4 == 0 then spaced else next

-- `ft_putchar`; 10, 13 and 9 are a new line, a carriage return and a tab
unfoldable pub ft_putchar : Tty → ℕ → Tty
ft_putchar t c =
    if c == 10
    then wrap_cursor (at t 0 (byte (t.cursor.y + 1)))
    else if c == 13
    then wrap_cursor (at t 0 t.cursor.y)
    else if c == 9
    then wrap_cursor (put_tab 4 t)
    else put_printable t c

unfoldable pub ft_putstr : Tty → List ℕ → Tty
ft_putstr t [] = t
ft_putstr t (c ∷ str) = ft_putstr (ft_putchar t c) str
