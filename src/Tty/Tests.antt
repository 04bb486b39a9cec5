-- ===== src/Tty/Tests.antt =====
-- Runs on a terminal whose cursor stands at the end of the last line, and of printed numbers.
use kernel_legacy.Tty.{
  Tty, at, wrap_x, wrap_y, wrap_cursor, ft_putchar, ft_putstr, put_printable, put_tab,
  tty_framebuffer_write, tty_framebuffer_scroll_down, write_entry,
}
use kernel_legacy.Tty.Screen.{OnScreen, Puts, ft_putstr-Puts}
use kernel_legacy.Tty.Shown.{up, down, scroll_all, history_disable-scroll_all}
use kernel_legacy.Tty.Numbers.{ft_putnbr_from, ft_putnbr}
use kernel_legacy.Tty.{tty_history_enable, tty_history_disable}
use kernel_legacy.Prelude.{◌≡◌, refl, true, false, [], ◌∷◌, arith}

abbrev corner : Tty
corner = record {
  framebuffer = λ k. record { character = 0; mode = 31 };
  cursor = record { x = 79; y = 24 };
  top_line_index = 250;
  mode = 31;
  history = record { status = false; stop_scroll = true; top_line_save = 0 };
}

corner-OnScreen : OnScreen corner
corner-OnScreen = record {
  column = omega arith;
  line = omega arith;
  top = omega arith;
  saved = omega arith;
}

-- the screen scrolls by one line
newline_run : (ft_putchar corner 65).top_line_index ≡ 251
unfolding ft_putchar put_printable tty_framebuffer_write write_entry wrap_cursor wrap_x wrap_y
    tty_framebuffer_scroll_down
newline_run = refl

tab_run : (ft_putchar (at corner 1 3) 9).cursor.x ≡ 4
unfolding ft_putchar put_tab put_printable tty_framebuffer_write write_entry wrap_cursor wrap_x
    wrap_y
tab_run = refl

-- -305
number_run : ft_putnbr 4294966991 ≡ 45 ∷ 51 ∷ 48 ∷ 53 ∷ []
unfolding ft_putnbr ft_putnbr_from
number_run = refl

-- the least number is put in two parts
least_run : ft_putnbr 2147483648 ≡ 45 ∷ 50 ∷ 49 ∷ 52 ∷ 55 ∷ 52 ∷ 56 ∷ 51 ∷ 54 ∷ 52 ∷ 56 ∷ []
unfolding ft_putnbr ft_putnbr_from
least_run = refl

ft_putstr-Puts_example : Puts corner (ft_putstr corner (75 ∷ 10 ∷ 9 ∷ []))
ft_putstr-Puts_example = ft_putstr-Puts corner (75 ∷ 10 ∷ 9 ∷ []) corner-OnScreen

history_disable-scroll_all_example :
    let after =
      tty_history_disable (scroll_all (up ∷ up ∷ down ∷ []) (tty_history_enable corner)) in
    (after.framebuffer ≡ corner.framebuffer)
    × (after.cursor ≡ corner.cursor)
    × (after.top_line_index ≡ corner.top_line_index)
    × (after.history.status ≡ false)
history_disable-scroll_all_example =
    history_disable-scroll_all (up ∷ up ∷ down ∷ []) corner (omega arith)
