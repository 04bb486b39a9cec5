-- ===== src/IdManager.antt =====
-- src/utils/id_manager.c: the manager of process ids, over the bitmap. A pointer to a manager is an
-- `Option`; a function that updates `*mgr` returns the new one.
pub mod Lowest
mod Tests
use kernel_legacy.Prelude.Int.{ℤ, pos, negsuc, signed32, ltb_ℤ}
use kernel_legacy.Bitmap
use kernel_legacy.Bitmap.{Bitmap, bits_to_bytes, find_next_zero, find_next_zero_from}
use kernel_legacy.Prelude.{
  ℕ, zero, suc, ◌+◌, ◌-◌, ◌*◌, ◌/◌, ◌%◌, ◌^◌, ◌≤◌, ◌<◌, min, max, bit_and, bit_or, ◌≡◌, refl, sym,
  ap, ap₂, ◌∙◌, fun_ext, ◌≢◌, ◌↔◌, ◌⊎◌, inl, inr, Bool, true, false, ◌&&◌, ◌||◌, Option, none, some,
  List, [], ◌∷◌, ◌++◌, arith, ltb, leb, ◌==◌, if◌then◌else◌, ltb→lt, lt→ltb, ==→eq, eq→==, ne→==,
  Bool-cases, Option-cases, length, get_or, replicate, length-append, length-set, length-replicate,
  get_or-set_self, get_or-set_ne, elem, remove, elem-append, elem-remove, remove_of_not_elem,
}

pub record IdManager : Type 0 where
  pub bitmap : Bitmap
  pub next_free : ℤ

-- `memory` is what `kmalloc` returns behind the struct: `none` for NULL, else bytes of any value.
unfoldable pub create : (memory : Option (List ℕ)) → (max_id : ℕ) → Option IdManager
unfolding Bitmap.clear
create none max_id = none
create (some memory) max_id = some (record {
  bitmap = Bitmap.clear (record { nb_bits = max_id; bytes = some memory });
  next_free = pos 0;
})

-- `mgr->next_free == -1`
abbrev pub is_full : ℤ → Bool
is_full (pos n) = false
is_full (negsuc n) = n == 0

-- the search for the next free id once `id` is taken
unfoldable pub search_from : Bitmap → ℕ → ℤ
unfolding find_next_zero_from find_next_zero
search_from map id =
    let next = find_next_zero_from map.nb_bits map.bytes (id + 1) in
    if is_full next then find_next_zero map.nb_bits map.bytes else next

-- `allocated` as the `size_t` that the calls convert it to
abbrev pub to_size : ℤ → ℕ
to_size (pos n) = n
to_size (negsuc n) = 2 ^ 32 - 1 - n

unfoldable pub alloc : Option IdManager → ℤ × Option IdManager
unfolding search_from Bitmap.set
alloc none = (negsuc 0, none)
alloc (some mgr) =
    if is_full mgr.next_free
    then (negsuc 0, some mgr)
    else let allocated = to_size mgr.next_free in
      let map = Bitmap.set mgr.bitmap allocated in
      (mgr.next_free, some (record { bitmap = map; next_free = search_from map allocated }))

unfoldable pub free : Option IdManager → ℕ → Option IdManager
unfolding Bitmap.unset
free none id = none
free (some mgr) id = some (record {
  bitmap = Bitmap.unset mgr.bitmap id;
  next_free =
      if is_full mgr.next_free || ltb_ℤ (signed32 id) mgr.next_free
      then signed32 id
      else mgr.next_free;
})

-- `(ssize_t)id == mgr->next_free`
abbrev pub is_next : ℤ → ℤ → Bool
is_next (pos a) (pos b) = a == b
is_next (negsuc a) (negsuc b) = a == b
is_next (pos a) (negsuc b) = false
is_next (negsuc a) (pos b) = false

unfoldable pub reserve_id : Option IdManager → ℕ → Bool × Option IdManager
unfolding search_from Bitmap.check Bitmap.set
reserve_id none id = (false, none)
reserve_id (some mgr) id =
    if Bitmap.check mgr.bitmap id || leb mgr.bitmap.nb_bits id
    then (false, some mgr)
    else let map = Bitmap.set mgr.bitmap id in
      let next =
        if is_next (signed32 id) mgr.next_free then search_from map id else mgr.next_free in
      (true, some (record { bitmap = map; next_free = next }))
