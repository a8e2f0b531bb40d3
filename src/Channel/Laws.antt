-- ===== src/Channel/Laws.antt =====
-- The allocation of channels, and the control blocks that it hands out.
use libgloss_cpm68k.Prelude.{
  ℕ, zero, suc, ◌+◌, ◌<◌, ◌≤◌, ◌^◌, ◌≡◌, ◌≢◌, ◌⊎◌, inl, inr, refl, ◌∙◌, true, false, none, some,
  arith, Bool-cases, ltb, leb, ◌==◌, ◌&&◌, if◌then◌else◌, length, length-set, get_or-set_self,
  get_or-set_ne, get_or_beyond,
}
use libgloss_cpm68k.Prelude.Bits.{test_bit, set_bit, test_bit-clear_bit_self, test_bit-clear_bit_ne}
use libgloss_cpm68k.State.{World, Ccb, ebadf, emfile, maxccbs, failure, getccb, putccb}
use libgloss_cpm68k.Channel.{
  alloc_from, allocc, freec, init_ccb, chinit_one, chinit_from, chinit, chkc,
}

module _ {Os : Type 0} where
  -- a free channel, the lowest one, was found and marked, and nothing else changed
  pub record Took (w : World Os) (i : ℕ) (w' : World Os) : Type 0 where
    pub in_range : i < maxccbs
    pub was_free : test_bit w.chvec i ≡ false
    pub lowest : (j : ℕ) → j < i → test_bit w.chvec j ≡ true
    pub after : w' ≡ record w { chvec = set_bit w.chvec i }

  -- every channel was in use, and only `errno` changed
  pub record AllTaken (w : World Os) (i : ℕ) (w' : World Os) : Type 0 where
    pub full : (j : ℕ) → j < maxccbs → test_bit w.chvec j ≡ true
    pub code : i ≡ failure
    pub after : w' ≡ record w { errno = emfile }

  below_suc :
      (w : World Os) (i : ℕ)
      → ((j : ℕ) → j < i → test_bit w.chvec j ≡ true)
      → test_bit w.chvec i ≡ true
      → (j : ℕ) → j < i + 1
      → test_bit w.chvec j ≡ true
  below_suc w i low h j lt = elim (Bool-cases (ltb j i)) [
    | inl p ↦ low j (ground arith)
    | inr p ↦ let e : j ≡ i = ground arith in rw e h
  ]

  alloc_from_cases :
      (n i : ℕ) (w : World Os)
      → i + n ≡ maxccbs
      → ((j : ℕ) → j < i → test_bit w.chvec j ≡ true)
      → Took w (alloc_from n i w).0 (alloc_from n i w).1
        ⊎ AllTaken w (alloc_from n i w).0 (alloc_from n i w).1
  unfolding alloc_from
  alloc_from_cases zero i w e low =
      inr (record { full = λ j lt. low j (omega arith); code = refl; after = refl })
  alloc_from_cases (suc n) i w e low = elim (Bool-cases (test_bit w.chvec i)) [
    | inl used ↦ rw used (alloc_from_cases n (i + 1) w (omega arith) (below_suc w i low used))
    | inr free ↦
        rw free
          (inl (record { in_range = omega arith; was_free = free; lowest = low; after = refl }))
  ]

  -- `_allocc` takes the lowest free channel and marks its bit, or, when all 16 are in use, returns
  -- FAILURE with EMFILE.
  pub allocc_cases :
      (w : World Os) → Took w (allocc w).0 (allocc w).1 ⊎ AllTaken w (allocc w).0 (allocc w).1
  unfolding allocc
  allocc_cases w = alloc_from_cases maxccbs 0 w (omega arith) (λ j lt. elim lt [ ])

  -- A freed channel is free, and every other one as before.
  freec_lem :
      (w : World Os) (ch j : ℕ)
      → test_bit (freec ch w).1.chvec j
        ≡ (if ltb ch j then test_bit w.chvec j else if ltb j ch then test_bit w.chvec j else false)
  unfolding freec
  freec_lem w ch j = elim (Bool-cases (ltb ch j)) [
    | inl p ↦ rw p (test_bit-clear_bit_ne w.chvec ch j (ground arith))
    | inr p ↦ elim (Bool-cases (ltb j ch)) [
      | inl q ↦ rw (p, q) (test_bit-clear_bit_ne w.chvec ch j (ground arith))
      | inr q ↦
          rw (p, q) (let e : ch ≡ j = ground arith in rw e (test_bit-clear_bit_self w.chvec j))
    ]
  ]

  -- What is written to a block of the table is read back from it.
  pub getccb-putccb_self :
      (w : World Os) (i : ℕ) (c : Ccb) → i < length w.fds → getccb (putccb w i c) i ≡ c
  unfolding getccb putccb
  getccb-putccb_self w i c h = ground (arith, get_or-set_self w.fds i c w.outside h)

  pub getccb-putccb_ne :
      (w : World Os) (i j : ℕ) (c : Ccb)
      → i < length w.fds
      → i ≢ j
      → getccb (putccb w i c) j ≡ getccb w j
  unfolding getccb putccb
  getccb-putccb_ne w i j c h ne = ground (arith, get_or-set_ne w.fds i j c w.outside ne)

  pub length-putccb : (w : World Os) (i : ℕ) (c : Ccb) → length (putccb w i c).fds ≡ length w.fds
  unfolding putccb
  length-putccb w i c = ground (arith, length-set w.fds i c)

  pub putccb_frame :
      (w : World Os) (i : ℕ) (c : Ccb)
      → ((putccb w i c).chvec ≡ w.chvec)
        × ((putccb w i c).errno ≡ w.errno)
        × ((putccb w i c).os ≡ w.os)
  unfolding putccb
  putccb_frame w i c = ground arith

  getccb-chinit_one :
      (w : World Os) (i j : ℕ)
      → i < length w.fds
      → getccb (chinit_one i w) j ≡ (if j == i then init_ccb j (getccb w j) else getccb w j)
  unfolding chinit_one
  getccb-chinit_one w i j h = elim (Bool-cases (j == i)) [
    | inl p ↦
        let e : j ≡ i = ground arith in
        rw (p, e) (getccb-putccb_self w i (init_ccb i (getccb w i)) h)
    | inr p ↦ rw p (getccb-putccb_ne w i j (init_ccb i (getccb w i)) h (ground arith))
  ]

  pub length-chinit_one : (w : World Os) (i : ℕ) → length (chinit_one i w).fds ≡ length w.fds
  unfolding chinit_one
  length-chinit_one w i = length-putccb w i (init_ccb i (getccb w i))

  chinit_from_lem :
      (n i : ℕ) (w : World Os) (j : ℕ)
      → i + n ≤ length w.fds
      → getccb (chinit_from n i w) j
        ≡ (if leb i j && ltb j (i + n) then init_ccb j (getccb w j) else getccb w j)
  unfolding chinit_from
  chinit_from_lem zero i w j h = ground arith
  chinit_from_lem (suc n) i w j h = ground (
    arith,
    chinit_from_lem n (i + 1) (chinit_one i w) j,
    length-chinit_one w i,
    getccb-chinit_one w i j (omega arith),
  )

  -- `_chinit` gives each of the 16 blocks its initial contents and leaves all other storage. The
  -- table has its 16 blocks.
  pub chinit_lem :
      (w : World Os) (j : ℕ)
      → length w.fds ≡ maxccbs
      → getccb (chinit w) j ≡ (if ltb j maxccbs then init_ccb j (getccb w j) else getccb w j)
  unfolding chinit
  chinit_lem w j h = ground (arith, chinit_from_lem maxccbs 0 w j)

  -- A channel number from 0 to 15 passes `_chkc` exactly when its block is open; the block is
  -- returned, and only `errno` changes, on failure.
  pub chkc_lem :
      (w : World Os) (ch : ℕ)
      → ch < maxccbs
      → chkc ch w ≡ (
          if (getccb w ch).flags.opened
          then (some (getccb w ch), w)
          else (none, record w { errno = ebadf }))
  unfolding chkc
  chkc_lem w ch h = ground arith

  -- A negative channel number passes the range check of `_chkc`: what is read is storage outside of
  -- the table. Where that looks like an open block, it is what `_chkc` returns.
  pub chkc_negative :
      (w : World Os) (ch : ℕ)
      → length w.fds ≡ maxccbs
      → 2 ^ 31 ≤ ch
      → ch < 2 ^ 32
      → w.outside.flags.opened ≡ true
      → chkc ch w ≡ (some w.outside, w)
  unfolding chkc getccb
  chkc_negative w ch l lo hi o = ground (arith, get_or_beyond w.fds ch w.outside)

  -- the first three channels that are taken
  pub allocc_first :
      (w : World Os)
      → (w.chvec ≡ 0 → allocc w ≡ (0, record w { chvec = 1 }))
        × (w.chvec ≡ 1 → allocc w ≡ (1, record w { chvec = 3 }))
        × (w.chvec ≡ 3 → allocc w ≡ (2, record w { chvec = 7 }))
  unfolding allocc alloc_from test_bit set_bit
  allocc_first w = (λ e. rw e refl, λ e. rw e refl, λ e. rw e refl)

  chinit_from_frame :
      (n i : ℕ) (w : World Os)
      → ((chinit_from n i w).chvec ≡ w.chvec) × (length (chinit_from n i w).fds ≡ length w.fds)
  unfolding chinit_from chinit_one
  chinit_from_frame zero i w = (refl, refl)
  chinit_from_frame (suc n) i w =
      let r = chinit_from_frame n (i + 1) (chinit_one i w) in
      (r.0 ∙ (putccb_frame w i _).0, r.1 ∙ length-chinit_one w i)

  pub chinit_frame :
      (w : World Os) → ((chinit w).chvec ≡ w.chvec) × (length (chinit w).fds ≡ length w.fds)
  unfolding chinit
  chinit_frame w = chinit_from_frame maxccbs 0 w

  pub outside-putccb :
      (w : World Os) (i : ℕ) (c : Ccb) → i < length w.fds → (putccb w i c).outside ≡ w.outside
  unfolding putccb
  outside-putccb w i c lt = ground arith

  outside-chinit_from :
      (n i : ℕ) (w : World Os) → i + n ≤ length w.fds → (chinit_from n i w).outside ≡ w.outside
  unfolding chinit_from chinit_one
  outside-chinit_from zero i w h = refl
  outside-chinit_from (suc n) i w h =
      outside-chinit_from n (i + 1) (chinit_one i w) (omega (arith, length-chinit_one w i))
      ∙ outside-putccb w i (init_ccb i (getccb w i)) (omega arith)

  pub outside-chinit : (w : World Os) → length w.fds ≡ maxccbs → (chinit w).outside ≡ w.outside
  unfolding chinit
  outside-chinit w h = outside-chinit_from maxccbs 0 w (omega (arith, h))
