-- ===== src/Life/Reader.antt =====
-- The contents of the pages of a section: `fake_read` and `section_create_reader` of src/proc/section.c
-- and the loop of `map_section` in src/proc/userspace.c.
use kernel_legacy.Life.{Section, page_size, has_data}
use kernel_legacy.Prelude.{
  ℕ, zero, suc, ◌+◌, ◌-◌, ◌*◌, ◌≤◌, ◌<◌, ◌≡◌, refl, sym, ap, ◌∙◌, inl, inr, Bool, true, false, not,
  ◌&&◌, Option, none, some, List, [], ◌∷◌, ◌++◌, arith, ltb, leb, ◌==◌, if◌then◌else◌, ltb→lt,
  Bool-cases, length, get_or, replicate, length-append, length-replicate,
}

-- what a read returns, leaves in `dest`, and the position behind it; `none` stands for -1
pub record Read : Type 0 where
  pub ret : Option ℕ
  pub dest : List ℕ
  pub pos : ℕ

-- the `n` bytes from an address on
abbrev pub bytes_at : (memory : ℕ → ℕ) → (addr n : ℕ) → List ℕ
bytes_at memory addr zero = []
bytes_at memory addr (suc n) = memory addr ∷ bytes_at memory (suc addr) n

-- `ctx` and `dest` are not `NULL`
unfoldable pub fake_read : (memory : ℕ → ℕ) → Section → (pos size : ℕ) → (dest : List ℕ) → Read
fake_read memory ctx pos size dest =
    let available = ctx.data_size - pos in
    let bytes_read = if ltb size available then size else available in
    if ctx.data_start == 0
    then record { ret = none; dest = dest; pos = pos }
    else if leb ctx.data_size pos
    then record { ret = some 0; dest = replicate size 0; pos = pos }
    else record {
      ret = some bytes_read;
      dest = bytes_at memory (ctx.data_start + pos) bytes_read ++ replicate (size - bytes_read) 0;
      pos = pos + bytes_read;
    }

-- whether a section gets a reader, where there is memory for it
abbrev pub has_reader : Section → Bool
has_reader sec = not (sec.data_start == 0) && has_data sec

abbrev pub before : List ℕ → Option (List ℕ) → Option (List ℕ)
before page none = none
before page (some rest) = some (page ++ rest)

-- what the loop of `map_section` leaves in `n` pages that can all be mapped, from a position on;
-- `none` where a read fails
unfoldable pub load_pages : (memory : ℕ → ℕ) → Section → (pos n : ℕ) → Option (List ℕ)
load_pages memory sec pos zero = some []
load_pages memory sec pos (suc n) =
    let page = fake_read memory sec pos page_size (replicate page_size 0) in
    let later = load_pages memory sec (if has_reader sec then page.pos else pos) n in
    if has_reader sec
    then elim page.ret [ none ↦ none | some _ ↦ before page.dest later ]
    else before (replicate page_size 0) later

-- the byte of a section at an offset: its data, and 0 behind it
abbrev pub byte_of : (memory : ℕ → ℕ) → Section → ℕ → ℕ
byte_of memory sec i =
    if has_reader sec && ltb i sec.data_size then memory (sec.data_start + i) else 0

get_or-append :
    (xs ys : List ℕ) (i : ℕ)
    → get_or (xs ++ ys) i 0
      ≡ (if ltb i (length xs) then get_or xs i 0 else get_or ys (i - length xs) 0)
get_or-append [] ys i = ground arith
get_or-append (x ∷ xs) ys zero = ground arith
get_or-append (x ∷ xs) ys (suc i) = ground (arith, get_or-append xs ys i)

get_or-replicate : (n i : ℕ) → get_or {A = ℕ} (replicate n 0) i 0 ≡ 0
get_or-replicate zero i = refl
get_or-replicate (suc n) zero = refl
get_or-replicate (suc n) (suc i) = get_or-replicate n i

length-bytes_at : (memory : ℕ → ℕ) (addr n : ℕ) → length (bytes_at memory addr n) ≡ n
length-bytes_at memory addr zero = refl
length-bytes_at memory addr (suc n) = omega (arith, length-bytes_at memory (suc addr) n)

get_or-bytes_at :
    (memory : ℕ → ℕ) (addr n i : ℕ)
    → i < n
    → get_or (bytes_at memory addr n) i 0 ≡ memory (addr + i)
get_or-bytes_at memory addr zero i lt = absurd (omega arith)
get_or-bytes_at memory addr (suc n) zero lt = ap memory (omega arith)
get_or-bytes_at memory addr (suc n) (suc i) lt =
    get_or-bytes_at memory (suc addr) n i (omega arith) ∙ ap memory (omega arith)

-- bytes, padded with zeros
abbrev padded : (memory : ℕ → ℕ) → (addr n size : ℕ) → List ℕ
padded memory addr n size = bytes_at memory addr n ++ replicate (size - n) 0

length-padded :
    (memory : ℕ → ℕ) (addr n size : ℕ) → n ≤ size → length (padded memory addr n size) ≡ size
length-padded memory addr n size le =
    let pad : length (replicate {A = ℕ} (size - n) 0) ≡ size - n = length-replicate (size - n) 0 in
    omega (
      arith,
      length-append (bytes_at memory addr n) (replicate (size - n) 0),
      length-bytes_at memory addr n,
      pad,
    )

get_or-padded :
    (memory : ℕ → ℕ) (addr n size i : ℕ)
    → get_or (padded memory addr n size) i 0 ≡ (if ltb i n then memory (addr + i) else 0)
get_or-padded memory addr n size i =
    let split = get_or-append (bytes_at memory addr n) (replicate (size - n) 0) i in
    elim (Bool-cases (ltb i n)) [
      | inl lt ↦ rw lt (
          rw (length-bytes_at memory addr n, lt) at split
          ∙ get_or-bytes_at memory addr n i (ltb→lt _ _ lt))
      | inr ge ↦
          rw ge
            (rw (length-bytes_at memory addr n, ge) at split ∙ get_or-replicate (size - n) (i - n))
    ]

-- what a read leaves in a page, byte by byte
record Reads (memory : ℕ → ℕ) (sec : Section) (pos size : ℕ) (r : Read) : Type 0 where
  count : ℕ
  returns : r.ret ≡ some count
  whole : length r.dest ≡ size
  bytes : (i : ℕ) → i < size → get_or r.dest i 0 ≡ byte_of memory sec (pos + i)
  next : (i : ℕ) → byte_of memory sec (r.pos + i) ≡ byte_of memory sec (pos + size + i)

fake_read-Reads :
    (memory : ℕ → ℕ) (sec : Section) (pos size : ℕ) (dest : List ℕ)
    → has_reader sec ≡ true
    → Reads memory sec pos size (fake_read memory sec pos size dest)
unfolding fake_read
fake_read-Reads memory sec pos size dest reader =
    let there : (sec.data_start == 0) ≡ false = ground (arith, reader) in
    elim (Bool-cases (leb sec.data_size pos)) [
      | inl done ↦
          rw (fake_read, there, done)
            (record {
              count = 0;
              returns = refl;
              whole = length-replicate size 0;
              bytes = λ i lt. get_or-replicate size i ∙ ground (arith, done);
              next = λ i. ground (arith, done);
            })
      | inr more ↦
          let available = sec.data_size - pos in
          let assoc : (i : ℕ) → sec.data_start + pos + i ≡ sec.data_start + (pos + i) =
            λ i. omega arith in
          elim (Bool-cases (ltb size available)) [
            | inl full ↦
                rw (fake_read, there, more, full)
                  (record {
                    count = size;
                    returns = refl;
                    whole = length-padded memory (sec.data_start + pos) size size (omega arith);
                    bytes = λ i lt.
                        get_or-padded memory (sec.data_start + pos) size size i
                        ∙ rw (assoc i) (ground (arith, full, reader, lt));
                    next = λ i. ground arith;
                  })
            | inr part ↦
                rw (fake_read, there, more, part)
                  (record {
                    count = available;
                    returns = refl;
                    whole =
                        length-padded memory (sec.data_start + pos) available size
                          (ground (arith, part));
                    bytes = λ i lt.
                        get_or-padded memory (sec.data_start + pos) available size i
                        ∙ rw (assoc i) (ground (arith, part, more, reader, lt));
                    next = λ i. ground (arith, more, part);
                  })
          ]
    ]

-- one page of a section
abbrev PageBytes : (memory : ℕ → ℕ) → Section → (pos n : ℕ) → List ℕ → Type 0
PageBytes memory sec pos n page =
    (length page ≡ n) × ((i : ℕ) → i < n → get_or page i 0 ≡ byte_of memory sec (pos + i))

-- pages behind a page
append_bytes :
    (memory : ℕ → ℕ) (sec : Section) (pos n k total : ℕ) (page rest : List ℕ)
    → n + k ≡ total
    → PageBytes memory sec pos n page
    → PageBytes memory sec (pos + n) k rest
    → PageBytes memory sec pos total (page ++ rest)
append_bytes memory sec pos n k total page rest sum (e, h) (e', h') = (
  omega (arith, length-append page rest, e, e', sum),
  λ i lt. elim (Bool-cases (ltb i n)) [
    | inl low ↦ (rw (e, low) at (get_or-append page rest i)) ∙ h i (ltb→lt _ _ low)
    | inr high ↦
        let le : n ≤ i = ground (arith, high) in
        let there : pos + n + (i - n) ≡ pos + i = omega (arith, le) in
        (rw (e, high) at (get_or-append page rest i))
        ∙ h' (i - n) (omega (arith, lt, le, sum))
        ∙ ap (byte_of memory sec) there
  ],
)

-- The bytes that are left in `n` pages of a section from a position on.
abbrev Loads : (memory : ℕ → ℕ) → Section → (pos n : ℕ) → Option (List ℕ) → Type 0
Loads memory sec pos n r = (l : List ℕ) × (r ≡ some l) × PageBytes memory sec pos (n * page_size) l

load_pages_step :
    (memory : ℕ → ℕ) (sec : Section) (at n count : ℕ) (l : List ℕ)
    → has_reader sec ≡ true
    → (let page = fake_read memory sec at page_size (replicate page_size 0) in
        page.ret ≡ some count
        → load_pages memory sec page.pos n ≡ some l
        → load_pages memory sec at (suc n) ≡ some (page.dest ++ l))
unfolding load_pages
load_pages_step memory sec at n count l reader e e' =
    rw (load_pages, e) (rw reader (ap (before _) e'))

load_pages_zeros :
    (memory : ℕ → ℕ) (sec : Section) (at n : ℕ) (l : List ℕ)
    → has_reader sec ≡ false
    → load_pages memory sec at n ≡ some l
    → load_pages memory sec at (suc n) ≡ some (replicate page_size 0 ++ l)
unfolding load_pages
load_pages_zeros memory sec at n l plain e =
    rw (load_pages, plain) (ap (before (replicate page_size 0)) e)

no_reader :
    (memory : ℕ → ℕ) (sec : Section) (i : ℕ) → has_reader sec ≡ false → byte_of memory sec i ≡ 0
no_reader memory sec i plain = rw plain refl

load_pages_from :
    (memory : ℕ → ℕ) (sec : Section) (pos at n : ℕ)
    → ((i : ℕ) → byte_of memory sec (at + i) ≡ byte_of memory sec (pos + i))
    → Loads memory sec pos n (load_pages memory sec at n)
unfolding load_pages
load_pages_from memory sec pos at zero same = ([], refl, (refl, λ i lt. absurd (omega arith)))
load_pages_from memory sec pos at (suc n) same = elim (Bool-cases (has_reader sec)) [
  | inl reader ↦
      let page = fake_read memory sec at page_size (replicate page_size 0) in
      let r = fake_read-Reads memory sec at page_size (replicate page_size 0) reader in
      let (l, e, rest) =
        load_pages_from memory sec (pos + page_size) page.pos n (λ i. r.next i ∙ further i) in
      (
        page.dest ++ l,
        load_pages_step memory sec at n r.count l reader r.returns e,
        append_bytes memory sec pos page_size (n * page_size) (suc n * page_size) page.dest l
            (omega arith) (r.whole, λ i lt. r.bytes i lt ∙ same i) rest,
      )
  | inr plain ↦
      let (l, e, rest) =
        load_pages_from memory sec (pos + page_size) at n
          (λ i. no_reader memory sec _ plain ∙ sym (no_reader memory sec _ plain)) in
      (
        replicate page_size 0 ++ l,
        load_pages_zeros memory sec at n l plain e,
        append_bytes memory sec pos page_size (n * page_size) (suc n * page_size)
            (replicate page_size 0) l (omega arith)
            (
              length-replicate {A = ℕ} page_size 0,
              λ i lt. get_or-replicate page_size i ∙ sym (no_reader memory sec _ plain),
            )
            rest,
      )
]
  where
    further :
        (i : ℕ) → byte_of memory sec (at + page_size + i) ≡ byte_of memory sec (pos + page_size + i)
    further i =
        ap (byte_of memory sec) (omega arith)
        ∙ same (page_size + i)
        ∙ ap (byte_of memory sec) (omega arith)

-- Where all its pages can be mapped, no read of a section fails: the pages that `map_section` fills hold
-- its data from the first byte on, then zeros to the last byte, and only zeros where it has no data.
pub load_pages-Loads :
    (memory : ℕ → ℕ) (sec : Section) (n : ℕ)
    → (l : List ℕ) × (load_pages memory sec 0 n ≡ some l)
      × (length l ≡ n * page_size)
      × ((i : ℕ) → i < n * page_size → get_or l i 0 ≡ byte_of memory sec i)
load_pages-Loads memory sec n =
    let (l, e, (size, bytes)) = load_pages_from memory sec 0 0 n (λ i. refl) in
    (l, e, size, λ i lt. bytes i lt ∙ ap (byte_of memory sec) (omega arith))
