-- ===== src/Vmm/Checked.antt =====
-- A range that `vmm_verify_range_flags` accepts has its flags on every page.
use kernel_legacy.Vmm.{Tables, pde_index, pte_index, entry_addr}
use kernel_legacy.Vma.{page_size}
use kernel_legacy.Vmm.Range.{
  has_flags, verify_ptes, verify_pdes, pages_to_verify, pde_range, vmm_verify_range_flags,
  kernel_vaddr_base, access_ok, usercopy,
}
use kernel_legacy.Prelude.{
  ℕ, zero, suc, ◌+◌, ◌-◌, ◌*◌, ◌/◌, ◌%◌, ◌^◌, ◌≤◌, ◌<◌, bit_or, ◌≡◌, inl, inr, Bool, true, false,
  some, arith, ltb, ◌==◌, if◌then◌else◌, ==→eq, ne→==, Bool-cases, Option-cases,
}

-- A page of the address space has the flags in its directory's entry and in its own.
abbrev pub PageHas : Tables → (pd pde_flags pte_flags page : ℕ) → Type 0
PageHas t pd pde_flags pte_flags page =
    (has_flags (t pd (page / 1024)) pde_flags ≡ true)
    × (has_flags (t (entry_addr (t pd (page / 1024))) (page % 1024)) pte_flags ≡ true)

-- what the inner loop has checked when it goes on
verify_ptes-checked :
    (pt : ℕ → ℕ) (flags j n remaining left : ℕ)
    → verify_ptes pt flags j n remaining ≡ some left
    → (left ≡ remaining - n)
      × ((k : ℕ) → k < n → k < remaining → has_flags (pt (j + k)) flags ≡ true)
unfolding verify_ptes
verify_ptes-checked pt flags j zero remaining left e =
    let same : remaining ≡ left = cc in (rw (← same) (omega arith), λ k lt. absurd (omega arith))
verify_ptes-checked pt flags j (suc n) remaining left e = elim (Bool-cases (remaining == 0)) [
  | inl done ↦
      let same : 0 ≡ left = cc (rw done at e) in
      let none_ = ==→eq remaining 0 done in
      (rw (← same) (omega arith), λ k lt more. absurd (omega arith))
  | inr more ↦ elim (Bool-cases (has_flags (pt j) flags)) [
    | inr lacks ↦ absurd (cc (rw (more, lacks) at e))
    | inl here ↦
        let (ends, later) =
          verify_ptes-checked pt flags (j + 1) n (remaining - 1) left (rw (more, here) at e) in
        (
          omega arith,
          λ k lt lt'. elim (Bool-cases (k == 0)) [
            | inl first ↦ let at : j + k ≡ j = ground arith in rw at here
            | inr next ↦
                let at : j + 1 + (k - 1) ≡ j + k = ground arith in
                rw at at (later (k - 1) (ground arith) (ground arith))
          ],
        )
  ]
]

-- one table, from its j-th entry on
table-checked :
    (t : Tables) (pd pde_flags pte_flags d j remaining left : ℕ)
    → j < 1024
    → has_flags (t pd d) pde_flags ≡ true
    → verify_ptes (t (entry_addr (t pd d))) pte_flags j (1024 - j) remaining ≡ some left
    → (left ≡ remaining - (1024 - j))
      × ((k : ℕ)
          → j + k < 1024
          → k < remaining
          → PageHas t pd pde_flags pte_flags (1024 * d + (j + k)))
table-checked t pd pde_flags pte_flags d j remaining left inside here e =
    let (ends, all) =
      verify_ptes-checked (t (entry_addr (t pd d))) pte_flags j (1024 - j) remaining left e in
    (
      ends,
      λ k low lt.
          let high : (1024 * d + (j + k)) / 1024 ≡ d = omega arith in
          let rest : (1024 * d + (j + k)) % 1024 ≡ j + k = omega arith in
          rw (high, rest) (here, all k (omega arith) lt),
    )

-- the entries of the directory from the second of the range on: each table from its start
verify_pdes-checked :
    (t : Tables) (pd vaddr pde_flags pte_flags i n remaining : ℕ)
    → 0 < i
    → remaining ≤ 1024 * n
    → verify_pdes t pd vaddr pde_flags pte_flags i n remaining ≡ true
    → (k : ℕ) → k < remaining
    → PageHas t pd pde_flags pte_flags (1024 * (pde_index vaddr + i) + k)
unfolding verify_pdes
verify_pdes-checked t pd vaddr pde_flags pte_flags i zero remaining low fits e k lt =
    absurd (omega arith)
verify_pdes-checked t pd vaddr pde_flags pte_flags i (suc n) remaining low fits e k lt =
    let d = pde_index vaddr + i in
    let later : (i == 0) ≡ false = ne→== i 0 (omega arith) in
    elim (Bool-cases (has_flags (t pd d) pde_flags)) [
      | inr lacks ↦ absurd (cc (rw lacks at e))
      | inl here ↦
          elim (Option-cases
            (verify_ptes (t (entry_addr (t pd d))) pte_flags 0 (1024 - 0) remaining)) [
              | inl failed ↦ absurd (cc (rw (here, later, failed) at e))
              | inr (left, runs) ↦
                  let (ends, all) =
                    table-checked t pd pde_flags pte_flags d 0 remaining left (omega arith) here
                      runs in
                  elim (Bool-cases (ltb k 1024)) [
                    | inl in_table ↦
                        let at : 1024 * d + (0 + k) ≡ 1024 * d + k = omega arith in
                        rw at at (all k (ground arith) lt)
                    | inr beyond ↦
                        let ge : 1024 ≤ k = ground arith in
                        let at : 1024 * (pde_index vaddr + (i + 1)) + (k - 1024) ≡ 1024 * d + k =
                          omega arith in
                        rw at at (
                          verify_pdes-checked t pd vaddr pde_flags pte_flags (i + 1) n left
                            (omega arith) (omega arith) (rw (here, later, runs) at e) (k - 1024)
                            (omega arith))
                  ]
            ]
    ]

-- the whole range: the first table from the entry of the first page
first-checked :
    (t : Tables) (pd vaddr pde_flags pte_flags m remaining : ℕ)
    → remaining ≤ 1024 - pte_index vaddr + 1024 * m
    → verify_pdes t pd vaddr pde_flags pte_flags 0 (suc m) remaining ≡ true
    → (k : ℕ) → k < remaining
    → PageHas t pd pde_flags pte_flags (1024 * pde_index vaddr + (pte_index vaddr + k))
unfolding verify_pdes
first-checked t pd vaddr pde_flags pte_flags m remaining fits e k lt =
    let d = pde_index vaddr in
    let j = pte_index vaddr in
    let d_lem : pde_index vaddr + 0 ≡ d = omega arith in
    let j_lem : pte_index (vaddr + 0 * (1024 * page_size)) ≡ j = omega arith in
    let run = rw (d_lem, j_lem) at e in
    elim (Bool-cases (has_flags (t pd d) pde_flags)) [
      | inr lacks ↦ absurd (cc (rw lacks at run))
      | inl here ↦
          elim (Option-cases
            (verify_ptes (t (entry_addr (t pd d))) pte_flags j (1024 - j) remaining)) [
              | inl failed ↦ absurd (cc (rw (here, failed) at run))
              | inr (left, runs) ↦
                  let (ends, all) =
                    table-checked t pd pde_flags pte_flags d j remaining left (omega arith) here
                      runs in
                  elim (Bool-cases (ltb (j + k) 1024)) [
                    | inl in_table ↦ all k (ground arith) lt
                    | inr beyond ↦
                        let ge : 1024 ≤ j + k = ground arith in
                        let at : 1024 * (pde_index vaddr + 1) + (j + k - 1024)
                            ≡ 1024 * d + (j + k) =
                          omega arith in
                        rw at at (
                          verify_pdes-checked t pd vaddr pde_flags pte_flags 1 m left (omega arith)
                            (omega arith) (rw (here, runs) at run) (j + k - 1024) (omega arith))
                  ]
            ]
    ]

-- Where a range does not wrap and `vmm_verify_range_flags` returns 0, every page that it touches is
-- present and has the flags, in the directory and in its table.
pub vmm_verify_range_flags-PageHas :
    (t : Tables) (pd vaddr n pde_flags pte_flags : ℕ)
    → vaddr + n ≤ kernel_vaddr_base
    → vmm_verify_range_flags t pd vaddr n pde_flags pte_flags ≡ true
    → (a : ℕ) → vaddr ≤ a
    → a < vaddr + n
    → PageHas t pd (bit_or pde_flags 1) (bit_or pte_flags 1) (a / page_size)
unfolding vmm_verify_range_flags
vmm_verify_range_flags-PageHas t pd vaddr n pde_flags pte_flags low e a ge lt =
    let m = pde_index (vaddr + n - 1) - pde_index vaddr in
    let k = a / page_size - vaddr / page_size in
    let some_bytes : (n == 0) ≡ false = ne→== n 0 (omega arith) in
    let tables : pde_range vaddr n ≡ suc m = omega arith in
    let pages : pages_to_verify vaddr n ≤ 1024 - pte_index vaddr + 1024 * m = omega arith in
    let inside : k < pages_to_verify vaddr n = omega arith in
    let page : 1024 * pde_index vaddr + (pte_index vaddr + k) ≡ a / page_size = omega arith in
    rw page at (
      first-checked t pd vaddr (bit_or pde_flags 1) (bit_or pte_flags 1) m (pages_to_verify vaddr n)
        pages (rw (some_bytes, tables) at e) k inside)

-- Where `usercopy` goes on to copy, the bytes lie below the kernel, and each lies on a page that is
-- present for the user, and writable where the copy goes to the user.
pub usercopy-Safe :
    (t : Tables) (pd user_buf n : ℕ) (into_kernel : Bool)
    → n < 2 ^ 32
    → user_buf < 2 ^ 32
    → 0 < n
    → usercopy t pd user_buf n into_kernel ≡ 0
    → (user_buf + n ≤ kernel_vaddr_base)
      × ((a : ℕ)
          → user_buf ≤ a
          → a < user_buf + n
          → let flags = bit_or (if into_kernel then 4 else bit_or 4 2) 1 in
            PageHas t pd flags flags (a / page_size))
unfolding usercopy access_ok
usercopy-Safe t pd user_buf n into_kernel word ptr bytes e =
    elim (Bool-cases (access_ok user_buf n)) [
      | inr bad ↦ absurd (ground (arith, rw (usercopy, bad) at e))
      | inl good ↦
          let low : user_buf + n ≤ kernel_vaddr_base = ground (arith, good) in
          let flags = if into_kernel then 4 else bit_or 4 2 in
          elim (Bool-cases (vmm_verify_range_flags t pd user_buf n flags flags)) [
            | inr lacks ↦ absurd (cc (rw (usercopy, good, lacks) at e))
            | inl all ↦ (
              low,
              λ a ge lt. vmm_verify_range_flags-PageHas t pd user_buf n flags flags low all a ge lt,
            )
          ]
    ]
