-- ===== src/Life/Mapped.antt =====
-- `map_section` and `userspace_create_new` take the pages of the sections they map, and leave nothing
-- behind where a step fails.
use kernel_legacy.IdManager.{IdManager}
use kernel_legacy.Life.{
  Section, page_size, kernel_start, has_data, Image, place_text, place_data, init_stack_section,
  place_sections,
}
use kernel_legacy.Life.Memory.{at, Allocator, lowmem_zone, highmem_zone}
use kernel_legacy.Life.Balance.{
  owns, table_pages, Holds, Holds-same, give_page-Holds, give_block-Holds, give_null-Holds,
  give_section-Holds, take_pages-Holds, take_block-Holds, no_pages-Holds, no_block-Holds,
  destroy_user_pd-Holds,
}
use kernel_legacy.Life.Userspace.{
  Machine, Step, Maps, Tables, has_table, Mapped, sizeof_stream, get_table, map_pages, take_pages,
  take_block, give_block, fill_pool, map_section, map_next, map_data, finish, map_all, map_sections,
  userspace_create_new,
}
use kernel_legacy.Prelude.{
  ℕ, zero, suc, ◌+◌, ◌*◌, ◌/◌, ◌%◌, ◌≡◌, refl, sym, ap, ◌∙◌, ◌≢◌, ◌⊎◌, inl, inr, Bool, true, false,
  not, ◌&&◌, ◌||◌, Option, some, List, [], arith, leb, ◌==◌, eq→==, ne→==, Bool-cases, Option-cases,
}

place_data-p_addr :
    (text d placed : Section) → place_data text d ≡ some placed → placed.p_addr ≡ d.p_addr
unfolding place_data
place_data-p_addr text d placed e = elim (Bool-cases (not (has_data d))) [
  | inl empty ↦ let same : d ≡ placed = cc (rw (place_data, empty) at e) in rw (← same) refl
  | inr some_ ↦ elim (Bool-cases (leb kernel_start d.v_addr)) [
    | inl high ↦ absurd (cc (rw (place_data, some_, high) at e))
    | inr low ↦ some_section _ placed (rw (place_data, some_, low) at e)
  ]
]
  where
    some_section : (x y : Section) → some x ≡ some y → y.p_addr ≡ x.p_addr
    some_section x y h = let same : x ≡ y = cc h in rw same refl

-- the sections behind `place_sections` have the pages from before
pub place_sections-p_addr :
    (i placed : Image)
    → place_sections i ≡ some placed
    → (placed.text_sec.p_addr ≡ i.text_sec.p_addr)
      × (placed.stack_sec.p_addr ≡ 0)
      × (placed.data_sec.p_addr ≡ i.data_sec.p_addr)
      × (placed.sig_trampoline ≡ i.sig_trampoline)
unfolding place_sections place_text init_stack_section
place_sections-p_addr i placed e =
    elim (Bool-cases ((i.text_sec.data_size == 0) || leb kernel_start i.text_sec.v_addr)) [
      | inl bad ↦ absurd (cc (rw (place_sections, bad) at e))
      | inr good ↦ elim (Option-cases (place_data (place_text i.text_sec) i.data_sec)) [
        | inl high ↦ absurd (cc (rw (place_sections, good, high) at e))
        | inr (d, low) ↦
            some_image _ placed (rw (place_sections, good, low) at e)
              (refl, refl, place_data-p_addr (place_text i.text_sec) i.data_sec d low, refl)
      ]
    ]
  where
    some_image :
        (x y : Image)
        → some x ≡ some y
        → (x.text_sec.p_addr ≡ i.text_sec.p_addr)
          × (x.stack_sec.p_addr ≡ 0)
          × (x.data_sec.p_addr ≡ i.data_sec.p_addr)
          × (x.sig_trampoline ≡ i.sig_trampoline)
        → (y.text_sec.p_addr ≡ i.text_sec.p_addr)
          × (y.stack_sec.p_addr ≡ 0)
          × (y.data_sec.p_addr ≡ i.data_sec.p_addr)
          × (y.sig_trampoline ≡ i.sig_trampoline)
    some_image x y h p = let same : x ≡ y = cc h in rw same at p

module _ (al : Allocator) (is : Option IdManager) (qs : List ℕ) where
  get_table-Holds :
      (index : ℕ) (tables : Tables) {m : Machine al} (ps ks : ℕ → ℕ)
      → Holds al m (λ a. ps a + table_pages tables a) ks is qs
      → (let r = get_table al index tables m in
          Holds al r.machine (λ a. ps a + table_pages r.ret.1 a) ks is qs)
  unfolding get_table
  get_table-Holds index tables {m} ps ks h =
      elim (Bool-cases (leb 768 index || has_table index tables)) [
        | inl there ↦ rw (get_table, there) h
        | inr new ↦ elim (Option-cases (take_pages al lowmem_zone page_size m).ret) [
          | inl refused ↦
              rw (get_table, new, refused) (no_pages-Holds al lowmem_zone page_size h refused)
          | inr (p, taken) ↦
              let (_, held) = take_pages-Holds al lowmem_zone page_size p h taken in
              rw (get_table, new, taken) (Holds-same al held (λ a. omega arith) (λ a. refl))
        ]
      ]

  map_pages-Holds :
      (maps : Maps) (v_addr i n : ℕ) (tables : Tables) {m : Machine al} (ps ks : ℕ → ℕ)
      → Holds al m (λ a. ps a + table_pages tables a) ks is qs
      → (let r = map_pages al maps v_addr i n tables m in
          Holds al r.machine (λ a. ps a + table_pages r.ret.1 a) ks is qs)
  unfolding map_pages
  map_pages-Holds maps v_addr i zero tables ps ks h = h
  map_pages-Holds maps v_addr i (suc n) tables {m} ps ks h =
      let table = get_table al ((v_addr + i * page_size) % 4294967296 / 4194304) tables m in
      let got = get_table-Holds _ tables ps ks h in
      elim (Bool-cases (not (maps i))) [
        | inl shut ↦ rw (map_pages, shut) h
        | inr shown ↦ elim (Bool-cases table.ret.0) [
          | inl there ↦
              rw (map_pages, shown, there)
                (map_pages-Holds maps v_addr (suc i) n table.ret.1 ps ks got)
          | inr failed ↦ rw (map_pages, shown, failed) got
        ]
      ]

  -- a step on a section that had no pages holds those of the section and of the tables behind it
  abbrev pub Owns : Step al Mapped → (ps ks : ℕ → ℕ) → Type 0
  Owns r ps ks =
      Holds al r.machine (λ a. (ps a + owns r.ret.sec a) + table_pages r.ret.tables a) ks is qs

  -- the end of the loop of `map_section`; where it is done the section needs no pages to start with
  pub fill_pool-Owns :
      (maps : Maps) (sec : Section) (pool stream : ℕ) (tables : Tables) {m : Machine al}
      (ps ks ks' : ℕ → ℕ)
      → (sec.p_addr ≡ 0) ⊎ ((fill_pool al maps sec pool stream tables m).ret.done ≡ true)
      → pool ≢ 0
      → Holds al m (λ a. (ps a + table_pages tables a) + at pool a) ks' is qs
      → ((n : Machine al) (ps' : ℕ → ℕ)
          → Holds al n ps' ks' is qs
          → Holds al (give_block al stream n) ps' ks is qs)
      → Owns (fill_pool al maps sec pool stream tables m) ps ks
  unfolding fill_pool
  fill_pool-Owns maps sec pool stream tables {m} ps ks ks' ok some_ h closes =
      let r = map_pages al maps sec.v_addr 0 (sec.mapping_size / page_size) tables m in
      let mapped =
        map_pages-Holds maps sec.v_addr 0 (sec.mapping_size / page_size) tables
          (λ a. ps a + at pool a) ks' (Holds-same al h (λ a. omega arith) (λ a. refl)) in
      elim (Bool-cases r.ret.0) [
        | inl all ↦
            let there : (pool == 0) ≡ false = ne→== pool 0 some_ in
            rw (fill_pool, all) (Holds-same al (closes _ _ mapped) (λ a. rw there refl) (λ a. refl))
        | inr bad ↦ elim ok [
          | inr done ↦ absurd (cc (rw (fill_pool, bad) at done))
          | inl none_ ↦
              let zero_ : (sec.p_addr == 0) ≡ true = eq→== sec.p_addr 0 none_ in
              let rest = λ (a : ℕ). ps a + table_pages r.ret.1 a in
              let freed =
                give_page-Holds al pool {rest = rest}
                  (Holds-same al mapped (λ a. omega arith) (λ a. refl)) in
              rw (fill_pool, bad)
                (Holds-same al (closes _ _ freed) (λ a. rw zero_ (omega arith)) (λ a. refl))
        ]
      ]

  -- Where it is done and the section has a size, the pages that the section had do not matter.
  abbrev pub Fresh : Section → Bool → Type 0
  Fresh sec done = (sec.p_addr ≡ 0) ⊎ (((sec.mapping_size == 0) ≡ false) × (done ≡ true))

  same-Fresh : (x y : Section) {done : Bool} → x ≡ y → Fresh y done → Fresh x done
  same-Fresh x y e (inl none_) = inl (ap (λ (s : Section). s.p_addr) e ∙ none_)
  same-Fresh x y e (inr (sized, done)) =
      inr (ap (λ (s : Section). s.mapping_size == 0) e ∙ sized, done)

  pub map_section-Owns :
      (maps : Maps) (sec : Section) (tables : Tables) {m : Machine al} (ps ks : ℕ → ℕ)
      → Fresh sec (map_section al maps sec tables m).ret.done
      → Holds al m (λ a. ps a + table_pages tables a) ks is qs
      → Owns (map_section al maps sec tables m) ps ks
  unfolding map_section
  map_section-Owns maps sec tables {m} ps ks fresh h =
      let got = take_pages al highmem_zone sec.mapping_size m in
      let ok = done_of fresh in
      elim (Bool-cases (sec.mapping_size == 0)) [
        | inl empty ↦ elim fresh [
          | inl none_ ↦
              rw (map_section, empty)
                (Holds-same al h (λ a. rw (eq→== sec.p_addr 0 none_) (omega arith)) (λ a. refl))
          | inr (sized, done) ↦ absurd (cc (sym empty ∙ sized))
        ]
        | inr sized ↦ elim (Option-cases got.ret) [
          | inl refused ↦
              rw (map_section, sized, refused)
                (kept (rw (map_section, sized, refused) at ok)
                  (no_pages-Holds al highmem_zone sec.mapping_size h refused))
          | inr (pool, taken) ↦
              let (some_, held) = take_pages-Holds al highmem_zone sec.mapping_size pool h taken in
              let reader = take_block al sizeof_stream got.machine in
              elim (Bool-cases (not (sec.data_start == 0) && has_data sec)) [
                | inr plain ↦
                    rw (map_section, sized, taken, plain)
                      (fill_pool-Owns maps sec pool 0 tables ps ks ks
                        (rw (map_section, sized, taken, plain) at ok) some_ held
                        (λ n ps' x. give_null-Holds al x))
                | inl data_ ↦ elim (Option-cases reader.ret) [
                  | inl no_reader ↦
                      rw (map_section, sized, taken, data_, no_reader)
                        (kept (rw (map_section, sized, taken, data_, no_reader) at ok) (
                          give_page-Holds al pool (no_block-Holds al sizeof_stream held no_reader)))
                  | inr (stream, opened) ↦
                      let (_, both) = take_block-Holds al sizeof_stream stream held opened in
                      rw (map_section, sized, taken, data_, opened)
                        (fill_pool-Owns maps sec pool stream tables ps ks _
                          (rw (map_section, sized, taken, data_, opened) at ok) some_ both
                          (λ n ps' x. give_block-Holds al stream x))
                ]
              ]
        ]
      ]
    where
      kept :
          {n : Machine al}
          → (sec.p_addr ≡ 0) ⊎ (false ≡ true)
          → Holds al n (λ a. ps a + table_pages tables a) ks is qs
          → Holds al n (λ a. (ps a + owns sec a) + table_pages tables a) ks is qs
      kept (inl none_) x =
          Holds-same al x (λ a. rw (eq→== sec.p_addr 0 none_) (omega arith)) (λ a. refl)
      kept (inr done) x = absurd (cc done)

      done_of : {done : Bool} → Fresh sec done → (sec.p_addr ≡ 0) ⊎ (done ≡ true)
      done_of (inl none_) = inl none_
      done_of (inr (sized, done)) = inr done

  pub map_next-Owns :
      (go : Bool) (maps : Maps) (sec : Section) (tables : Tables) {m : Machine al} (ps ks : ℕ → ℕ)
      → Fresh sec (map_next al go maps sec tables m).ret.done
      → Holds al m (λ a. ps a + table_pages tables a) ks is qs
      → Owns (map_next al go maps sec tables m) ps ks
  unfolding map_next
  map_next-Owns true maps sec tables ps ks fresh h = map_section-Owns maps sec tables ps ks fresh h
  map_next-Owns false maps sec tables ps ks (inl none_) h =
      let zero_ : (sec.p_addr == 0) ≡ true = eq→== sec.p_addr 0 none_ in
      Holds-same al h (λ a. rw zero_ (omega arith)) (λ a. refl)
  map_next-Owns false maps sec tables ps ks (inr (sized, done)) h = absurd (cc done)

  pub map_data-Owns :
      (go : Bool) (maps : Maps) (sec : Section) (tables : Tables) {m : Machine al} (ps ks : ℕ → ℕ)
      → sec.p_addr ≡ 0
      → Holds al m (λ a. ps a + table_pages tables a) ks is qs
      → Owns (map_data al go maps sec tables m) ps ks
  unfolding map_data
  map_data-Owns go maps sec tables ps ks none_ h = elim (Bool-cases (has_data sec)) [
    | inl some_ ↦ rw (map_data, some_) (map_next-Owns go maps sec tables ps ks (inl none_) h)
    | inr empty ↦
        let zero_ : (sec.p_addr == 0) ≡ true = eq→== sec.p_addr 0 none_ in
        rw (map_data, empty) (Holds-same al h (λ a. rw zero_ (omega arith)) (λ a. refl))
  ]

  -- the pages of the sections of a task, and of its page directory with the tables
  abbrev pub image_pages : Image → ℕ → ℕ
  image_pages i a =
      owns i.text_sec a
      + (owns i.stack_sec a
          + (owns i.data_sec a + (owns i.sig_trampoline a + (at i.cr3 a + table_pages i.tables a))))

  -- what a new user space has taken, and what is left where it fails
  abbrev pub TakesImage : Step al (Bool × Image) → (ps ks : ℕ → ℕ) → Type 0
  TakesImage r ps ks =
      ((r.ret.0 ≡ true) × Holds al r.machine (λ a. ps a + image_pages r.ret.1 a) ks is qs)
      ⊎ ((r.ret.0 ≡ false) × Holds al r.machine ps ks is qs)

  -- the four sections behind the chain of `||`
  abbrev Chain : Machine al → (cr3 : ℕ) → Tables → Image → (ps ks : ℕ → ℕ) → Type 0
  Chain m cr3 tables i ps ks =
      Holds al m
        (λ a.
          (((((ps a + at cr3 a) + owns i.text_sec a) + owns i.stack_sec a) + owns i.data_sec a)
            + owns i.sig_trampoline a)
          + table_pages tables a)
        ks is qs

  finish-TakesImage :
      (done : Bool) (cr3 : ℕ) (tables : Tables) (i : Image) {m : Machine al} (ps ks : ℕ → ℕ)
      → Chain m cr3 tables i ps ks
      → TakesImage (finish al done cr3 tables i m) ps ks
  unfolding finish
  finish-TakesImage true cr3 tables i ps ks h =
      inl (refl, Holds-same al h (λ a. omega arith) (λ a. refl))
  finish-TakesImage false cr3 tables i {m} ps ks h =
      let rest = λ (a : ℕ).
        ((((ps a + table_pages tables a) + at cr3 a) + owns i.sig_trampoline a)
          + owns i.stack_sec a)
        + owns i.data_sec a in
      let all : Holds al m (λ a. rest a + owns i.text_sec a) ks is qs =
        Holds-same al h (λ a. omega arith) (λ a. refl) in
      let h1 = give_section-Holds al i.text_sec all in
      let h2 = give_section-Holds al i.data_sec h1 in
      let h3 = give_section-Holds al i.stack_sec h2 in
      let h4 = give_section-Holds al i.sig_trampoline h3 in
      inr (refl, destroy_user_pd-Holds al tables cr3 ps ks h4)

  -- The trampoline may have had pages where the chain succeeds.
  abbrev pub FreshChain : Image → Bool → Type 0
  FreshChain i done =
      (i.text_sec.p_addr ≡ 0)
      × (i.stack_sec.p_addr ≡ 0)
      × (i.data_sec.p_addr ≡ 0)
      × Fresh i.sig_trampoline done

  -- where a chain is done, its last step is
  finish-done :
      (done : Bool) (cr3 : ℕ) (tables : Tables) (i : Image) (m : Machine al)
      → (finish al done cr3 tables i m).ret.0 ≡ done
  unfolding finish
  finish-done true cr3 tables i m = refl
  finish-done false cr3 tables i m = refl

  map_all-TakesImage :
      (kernel : Bool) (t1 t2 t3 t4 : Maps) (cr3 : ℕ) (i : Image) {m : Machine al} (ps ks : ℕ → ℕ)
      → FreshChain i (map_all al kernel t1 t2 t3 t4 cr3 i m).ret.0
      → Holds al m (λ a. ps a + at cr3 a) ks is qs
      → TakesImage (map_all al kernel t1 t2 t3 t4 cr3 i m) ps ks
  unfolding map_all
  map_all-TakesImage kernel t1 t2 t3 t4 cr3 i {m} ps ks (e1, e2, e3, e4) h0 =
      let r1 = map_next al kernel t1 i.text_sec [] m in
      let h1 =
        map_next-Owns kernel t1 i.text_sec [] _ ks (inl e1)
          (Holds-same al h0 (λ a. omega arith) (λ a. refl)) in
      let r2 = map_next al r1.ret.done t2 i.stack_sec r1.ret.tables r1.machine in
      let h2 = map_next-Owns r1.ret.done t2 i.stack_sec r1.ret.tables _ ks (inl e2) h1 in
      let r3 = map_data al r2.ret.done t3 i.data_sec r2.ret.tables r2.machine in
      let h3 = map_data-Owns r2.ret.done t3 i.data_sec r2.ret.tables _ ks e3 h2 in
      let r4 = map_next al r3.ret.done t4 i.sig_trampoline r3.ret.tables r3.machine in
      let mapped : Image = record i {
        text_sec = r1.ret.sec;
        stack_sec = r2.ret.sec;
        data_sec = r3.ret.sec;
        sig_trampoline = r4.ret.sec;
      } in
      let last : Fresh i.sig_trampoline r4.ret.done =
        rw (finish-done r4.ret.done cr3 r4.ret.tables mapped r4.machine) at e4 in
      let h4 = map_next-Owns r3.ret.done t4 i.sig_trampoline r3.ret.tables _ ks last h3 in
      finish-TakesImage r4.ret.done cr3 r4.ret.tables mapped ps ks h4

  -- Where the text and the data have no pages yet, and the trampoline has none or the call succeeds,
  -- `userspace_create_new` holds the pages of the four sections and of the page directory with its
  -- tables where it succeeds, and nothing more than before where it fails, at whatever step.
  pub userspace_create_new-TakesImage :
      (kernel : Bool) (t1 t2 t3 t4 : Maps) (i : Image) (m : Machine al) (ps ks : ℕ → ℕ)
      → i.text_sec.p_addr ≡ 0
      → i.data_sec.p_addr ≡ 0
      → Fresh i.sig_trampoline (userspace_create_new al kernel t1 t2 t3 t4 i m).ret.0
      → Holds al m ps ks is qs
      → TakesImage (userspace_create_new al kernel t1 t2 t3 t4 i m) ps ks
  unfolding userspace_create_new map_sections
  userspace_create_new-TakesImage kernel t1 t2 t3 t4 i m ps ks e1 e3 e4 h =
      elim (Option-cases (place_sections i)) [
        | inl bad ↦ rw (userspace_create_new, bad) (inr (refl, h))
        | inr (placed, good) ↦
            let (p1, p2, p3, p4) = place_sections-p_addr i placed good in
            let pd = take_pages al lowmem_zone page_size m in
            elim (Option-cases pd.ret) [
              | inl refused ↦
                  rw (userspace_create_new, good, map_sections, refused)
                    (inr (refl, no_pages-Holds al lowmem_zone page_size h refused))
              | inr (cr3, taken) ↦
                  let (some_, h0) = take_pages-Holds al lowmem_zone page_size cr3 h taken in
                  rw (userspace_create_new, good, map_sections, taken)
                    (map_all-TakesImage kernel t1 t2 t3 t4 cr3 placed ps ks
                      (
                        p1 ∙ e1,
                        p2,
                        p3 ∙ e3,
                        same-Fresh placed.sig_trampoline i.sig_trampoline p4
                            (rw (userspace_create_new, good, map_sections, taken) at e4),
                      )
                      h0)
            ]
      ]
