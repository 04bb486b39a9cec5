-- ===== src/Pages/Nearest.antt =====
-- `page_addr_to_usable` finds the nearest free page, and the counts add up.
use kernel_legacy.Buddy.{Page}
use kernel_legacy.Pages.{
  page_is_free, page_get_updated_page_free_count, page_get_updated_reserved_count,
  page_addr_to_page, Direction, next, prev, usable_up, usable_down, page_addr_to_usable,
}
use kernel_legacy.Prelude.{
  ℕ, zero, suc, ◌+◌, ◌-◌, ◌≤◌, ◌<◌, ◌≡◌, refl, sym, ap, ◌∙◌, ◌≢◌, ◌⊎◌, inl, inr, true, false,
  Option, none, some, arith, ltb, ◌==◌, ltb→lt, ==→eq, ==→ne, Bool-cases, Option-cases,
}

-- Every page is counted once.
pub free_count-reserved_count :
    (page : ℕ → Page) (total_pages : ℕ)
    → page_get_updated_page_free_count page total_pages
        + page_get_updated_reserved_count page total_pages
      ≡ total_pages
unfolding page_get_updated_page_free_count page_get_updated_reserved_count
free_count-reserved_count page zero = refl
free_count-reserved_count page (suc n) =
    let before = free_count-reserved_count page n in
    elim (Bool-cases (page_is_free (page n))) [
      | inl free ↦ rw free (omega (arith, before))
      | inr taken ↦ rw taken (omega (arith, before))
    ]

-- whether a page is on the way from one in a direction
abbrev pub OnWay : (total_pages from page : ℕ) → Direction → Type 0
OnWay total_pages from page next = (from ≤ page) × (page < total_pages)
OnWay total_pages from page prev = page ≤ from

-- whether a page comes before another one on the way
abbrev pub Nearer : (page other : ℕ) → Direction → Type 0
Nearer page other next = page < other
Nearer page other prev = other < page

-- The page is the first free one on the way, or there is none.
abbrev pub IsNearest : (page : ℕ → Page) → (total_pages from : ℕ) → Direction → Option ℕ → Type 0
IsNearest page total_pages from d none =
    (j : ℕ) → OnWay total_pages from j d → page_is_free (page j) ≡ false
IsNearest page total_pages from d (some k) =
    OnWay total_pages from k d
    × (page_is_free (page k) ≡ true)
    × ((j : ℕ) → OnWay total_pages from j d → Nearer j k d → page_is_free (page j) ≡ false)

-- a page that is not free, or another one
skip :
    (page : ℕ → Page) (ret j : ℕ)
    → page_is_free (page ret) ≡ false
    → (ret ≢ j → page_is_free (page j) ≡ false)
    → page_is_free (page j) ≡ false
skip page ret j taken others = elim (Bool-cases (ret == j)) [
  | inl same ↦ ap (λ x. page_is_free (page x)) (sym (==→eq ret j same)) ∙ taken
  | inr other ↦ others (==→ne ret j other)
]

usable_up-IsNearest :
    (page : ℕ → Page) (total_pages ret n : ℕ)
    → (n ≡ total_pages - ret)
    → IsNearest page total_pages ret next (usable_up page ret n)
unfolding usable_up
usable_up-IsNearest page total_pages ret zero e =
    λ j (low, high). absurd (omega (arith, e, low, high))
usable_up-IsNearest page total_pages ret (suc n) e = elim (Bool-cases (page_is_free (page ret))) [
  | inl free ↦
      rw (usable_up, free)
        (
          (omega arith, omega (arith, e)),
          free,
          λ j (low, high) less. absurd (omega (arith, low, less)),
        )
  | inr taken ↦
      let later = usable_up-IsNearest page total_pages (suc ret) n (omega (arith, e)) in
      elim (Option-cases (usable_up page (suc ret) n)) [
        | inl none_ ↦
            let all = rw none_ at later in
            rw (usable_up, taken, none_)
              (λ j (low, high). skip page ret j taken (λ ne. all j (omega (arith, low, ne), high)))
        | inr (k, found) ↦
            let ((low_k, high_k), free, first) = rw found at later in
            rw (usable_up, taken, found)
              (
                (omega (arith, low_k), high_k),
                free,
                λ j (low, high) less.
                    skip page ret j taken (λ ne. first j (omega (arith, low, ne), high) less),
              )
      ]
]

usable_down-IsNearest :
    (page : ℕ → Page) (total_pages ret : ℕ)
    → IsNearest page total_pages ret prev (usable_down page ret)
unfolding usable_down
usable_down-IsNearest page total_pages zero = elim (Bool-cases (page_is_free (page 0))) [
  | inl free ↦
      rw (usable_down, free) (omega arith, free, λ j low less. absurd (omega (arith, low, less)))
  | inr taken ↦
      rw (usable_down, taken) (λ j low. skip page 0 j taken (λ ne. absurd (omega (arith, low, ne))))
]
usable_down-IsNearest page total_pages (suc ret) =
    elim (Bool-cases (page_is_free (page (suc ret)))) [
      | inl free ↦
          rw (usable_down, free)
            (omega arith, free, λ j low less. absurd (omega (arith, low, less)))
      | inr taken ↦
          let later = usable_down-IsNearest page total_pages ret in
          elim (Option-cases (usable_down page ret)) [
            | inl none_ ↦
                let all = rw none_ at later in
                rw (usable_down, taken, none_)
                  (λ j low. skip page (suc ret) j taken (λ ne. all j (omega (arith, low, ne))))
            | inr (k, found) ↦
                let (low_k, free, first) = rw found at later in
                rw (usable_down, taken, found)
                  (
                    omega (arith, low_k),
                    free,
                    λ j low less.
                        skip page (suc ret) j taken (λ ne. first j (omega (arith, low, ne)) less),
                  )
          ]
    ]

-- what `page_addr_to_usable` returns for an address in page `from`
abbrev pub Usable : (page : ℕ → Page) → (total_pages from : ℕ) → Direction → Option ℕ → Type 0
Usable page total_pages from d r =
    ((total_pages ≤ from) × (r ≡ none))
    ⊎ ((from < total_pages) × IsNearest page total_pages from d r)

-- For an address behind the last page `page_addr_to_usable` returns NULL. For any other it finds the
-- first free page from the page of the address on, up to the last page or down to the first one, and
-- returns NULL exactly where none of these is free.
pub page_addr_to_usable-IsNearest :
    (page : ℕ → Page) (total_pages addr : ℕ) (d : Direction)
    → Usable page total_pages
        (page_addr_to_page addr)
        d
        (page_addr_to_usable page total_pages addr d)
unfolding page_addr_to_usable usable_up
page_addr_to_usable-IsNearest page total_pages addr next =
    elim (Bool-cases (ltb (page_addr_to_page addr) total_pages)) [
      | inl within ↦
          inr (
            ltb→lt _ _ within,
            usable_up-IsNearest page total_pages (page_addr_to_page addr) _ refl,
          )
      | inr out ↦
          let none_left : (total_pages - page_addr_to_page addr) ≡ 0 = ground (arith, out) in
          inl (ground (arith, out), rw (page_addr_to_usable, none_left) refl)
    ]
page_addr_to_usable-IsNearest page total_pages addr prev =
    elim (Bool-cases (ltb (page_addr_to_page addr) total_pages)) [
      | inl within ↦ inr (
        ltb→lt _ _ within,
        rw (page_addr_to_usable, within)
            (usable_down-IsNearest page total_pages (page_addr_to_page addr)),
      )
      | inr out ↦ inl (ground (arith, out), rw (page_addr_to_usable, out) refl)
    ]
