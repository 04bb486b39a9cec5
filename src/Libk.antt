-- ===== src/Libk.antt =====
-- lib/libk: functions on memory and strings. What a pointer points at is a function from offsets to
-- bytes. A loop that ends at a terminator has a bound on its rounds.
pub mod Memory
pub mod Strings
mod Tests
use kernel_legacy.Prelude.Int.{ℤ, pos, negsuc}
use kernel_legacy.Prelude.{
  ℕ, zero, suc, ◌+◌, ◌-◌, ◌*◌, ◌/◌, ◌%◌, ◌^◌, ◌≤◌, ◌<◌, min, max, bit_and, bit_or, ◌≡◌, refl, sym,
  ap, ap₂, ◌∙◌, fun_ext, ◌≢◌, ◌↔◌, ◌⊎◌, inl, inr, Bool, true, false, not, ◌&&◌, ◌||◌, Option, none,
  some, List, [], ◌∷◌, ◌++◌, map, arith, ltb, leb, ◌==◌, if◌then◌else◌, ltb→lt, lt→ltb, ==→eq,
  eq→==, ne→==, Bool-cases, Option-cases, length, get_or, set, replicate, length-append, length-set,
  length-replicate, get_or-set_self, get_or-set_ne, elem, remove, elem-append, elem-remove,
  remove_of_not_elem, distinct, distinct-remove, distinct-append-one, update,
}

-- the difference of two bytes as an `int`
abbrev pub difference : ℕ → ℕ → ℤ
difference x y = if leb y x then pos (x - y) else negsuc (y - x - 1)

-- the loop of `ft_memcmp`, over `n` bytes from `i` on
unfoldable pub memcmp_from : (ℕ → ℕ) → (ℕ → ℕ) → (i n : ℕ) → ℤ
memcmp_from a b i zero = pos 0
memcmp_from a b i (suc n) =
    let rest = memcmp_from a b (i + 1) n in if a i == b i then rest else difference (a i) (b i)

unfoldable pub ft_memcmp : (ℕ → ℕ) → (ℕ → ℕ) → ℕ → ℤ
ft_memcmp a b n = memcmp_from a b 0 n

-- the loop of `ft_memchr`: the offset of the byte, or NULL
unfoldable pub memchr_from : (ℕ → ℕ) → (c i n : ℕ) → Option ℕ
memchr_from s c i zero = none
memchr_from s c i (suc n) =
    let rest = memchr_from s c (i + 1) n in if s i == c % 256 then some i else rest

unfoldable pub ft_memchr : (ℕ → ℕ) → (c n : ℕ) → Option ℕ
ft_memchr s c n = memchr_from s c 0 n

-- from the last byte to the first
unfoldable pub ft_memset : (ℕ → ℕ) → (c n : ℕ) → ℕ → ℕ
ft_memset s c zero = s
ft_memset s c (suc n) = ft_memset (update s n (c % 256)) c n

-- the loop of `ft_memcpy` between places that do not overlap, over `n` bytes from `i` on
unfoldable pub memcpy_from : (dest src : ℕ → ℕ) → (i n : ℕ) → ℕ → ℕ
memcpy_from dest src i zero = dest
memcpy_from dest src i (suc n) = memcpy_from (update dest i (src i)) src (i + 1) n

-- the loop of `ft_strlen` from `i` on, for at most `n` rounds
unfoldable pub strlen_from : (ℕ → ℕ) → (i n : ℕ) → ℕ
strlen_from s i zero = i
strlen_from s i (suc n) = let rest = strlen_from s (i + 1) n in if s i == 0 then i else rest

unfoldable pub ft_strlen : (bound : ℕ) → (ℕ → ℕ) → ℕ
ft_strlen bound s = strlen_from s 0 bound

-- `ft_memcmp(..) == 0`
abbrev pub is_zero : ℤ → Bool
is_zero (pos n) = n == 0
is_zero (negsuc n) = false

unfoldable pub ft_strequ : (bound : ℕ) → (s1 s2 : ℕ → ℕ) → Bool
ft_strequ bound s1 s2 =
    let len1 = ft_strlen bound s1 in
    if len1 == ft_strlen bound s2 then is_zero (ft_memcmp s1 s2 (len1 + 1)) else false

unfoldable pub ft_strchr : (bound : ℕ) → (ℕ → ℕ) → ℕ → Option ℕ
ft_strchr bound s c = ft_memchr s c (ft_strlen bound s + 1)
