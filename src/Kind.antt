-- ===== src/Kind.antt =====
-- What the operations on a channel leave alone: its kind (all flags but ATEOF and DIRTY), its
-- number and its user, the other channels, and the allocation bits.
use libgloss_cpm68k.Prelude.{
  ℕ, ◌<◌, ◌≡◌, ◌⊎◌, refl, ◌∙◌, none, some, arith, ◌==◌, length, inl, inr, Bool-cases, ==_iff,
  ==_false,
}
use libgloss_cpm68k.Prelude.Words.{sub_long, add_long, lt_long}
use libgloss_cpm68k.Bdos.{Bdos}
use libgloss_cpm68k.State.{World, Ccb, Errno, ebadf, einval, getccb, putccb, maxccbs}
use libgloss_cpm68k.BlkIo.{Direction}
use libgloss_cpm68k.Channel.{chkc}
use libgloss_cpm68k.Channel.Laws.{getccb-putccb_self, getccb-putccb_ne, length-putccb, putccb_frame}
use libgloss_cpm68k.Handle.{Handle, buffer_io, clean, load, on_channel}
use libgloss_cpm68k.Seek.{ask_size, ascii_size, file_size, filesz, settle, settled, seek, lseek}

pub record SameKind (c c' : Ccb) : Type 0 where
  pub opened : c'.flags.opened ≡ c.flags.opened
  pub is_tty : c'.flags.is_tty ≡ c.flags.is_tty
  pub is_lpt : c'.flags.is_lpt ≡ c.flags.is_lpt
  pub is_read : c'.flags.is_read ≡ c.flags.is_read
  pub is_ascii : c'.flags.is_ascii ≡ c.flags.is_ascii
  pub chan : c'.chan ≡ c.chan
  pub user : c'.user ≡ c.user

pub SameKind-refl : (c : Ccb) → SameKind c c
SameKind-refl c = record {
  opened = refl;
  is_tty = refl;
  is_lpt = refl;
  is_read = refl;
  is_ascii = refl;
  chan = refl;
  user = refl;
}

module _ {Os : Type 0} (bdos : Bdos Os) where
  pub buffer_io-SameKind :
      (d : Direction) (n : ℕ) (h : Handle Os) → SameKind h.fp (buffer_io bdos d n h).1.fp
  unfolding buffer_io
  buffer_io-SameKind d n h = record {
    opened = refl;
    is_tty = refl;
    is_lpt = refl;
    is_read = refl;
    is_ascii = refl;
    chan = refl;
    user = refl;
  }

  pub clean-SameKind : (h : Handle Os) → SameKind h.fp (clean bdos h).1.fp
  unfolding clean buffer_io
  clean-SameKind h = ground arith

  pub load-SameKind : (n : ℕ) (h : Handle Os) → SameKind h.fp (load bdos n h).1.fp
  unfolding load buffer_io
  load-SameKind n h = ground (arith, clean-SameKind h)

  ask_size-SameKind : (h : Handle Os) → SameKind h.fp (ask_size bdos h).fp
  unfolding ask_size
  ask_size-SameKind h = ground arith

  ascii_size-SameKind : (n : ℕ) (h : Handle Os) → SameKind h.fp (ascii_size bdos n h).1.fp
  unfolding ascii_size
  ascii_size-SameKind n h = ground (arith, load-SameKind n h)

  pub file_size-SameKind : (h : Handle Os) → SameKind h.fp (file_size bdos h).1.fp
  unfolding file_size
  file_size-SameKind h = ground (
    arith,
    ask_size-SameKind h,
    ascii_size-SameKind (sub_long (ask_size bdos h).fp.fcb.recno 1) (ask_size bdos h),
  )

pub SameKind-fields :
    (c c' : Ccb) → c'.flags ≡ c.flags → c'.chan ≡ c.chan → c'.user ≡ c.user → SameKind c c'
SameKind-fields c c' p q r = ground arith

SameKind-settle : (c : Ccb) → SameKind c (settle c)
SameKind-settle c = ground arith

pub SameKind-trans : {a b c : Ccb} → SameKind a b → SameKind b c → SameKind a c
SameKind-trans p q = ground arith

-- from `w` to `w'` the allocation bits and every channel's kind stayed
pub record Keeps {Os : Type 0} (w w' : World Os) : Type 0 where
  pub chvec : w'.chvec ≡ w.chvec
  pub size : length w'.fds ≡ length w.fds
  pub kind : (i : ℕ) → i < length w.fds → SameKind (getccb w i) (getccb w' i)

module _ {Os : Type 0} where
  pub Keeps-refl : (w : World Os) → Keeps w w
  Keeps-refl w = record { chvec = refl; size = refl; kind = λ i lt. SameKind-refl (getccb w i) }

  pub Keeps-trans : {u v w : World Os} → Keeps u v → Keeps v w → Keeps u w
  Keeps-trans p q = record {
    chvec = q.chvec ∙ p.chvec;
    size = q.size ∙ p.size;
    kind = λ i lt. SameKind-trans (p.kind i lt) (q.kind i (omega (arith, p.size)));
  }

  pub machine-Keeps : (w : World Os) (e : Errno) (o : Os) → Keeps w (record w { errno = e; os = o })
  unfolding getccb
  machine-Keeps w e o = record {
    chvec = refl;
    size = refl;
    kind = λ i lt. SameKind-refl (getccb w i);
  }

  -- a channel is replaced by one of its kind
  pub putccb-Keeps :
      (w : World Os) (i : ℕ) (c : Ccb)
      → i < length w.fds
      → SameKind (getccb w i) c
      → Keeps w (putccb w i c)
  putccb-Keeps w i c lt k = record {
    chvec = (putccb_frame w i c).0;
    size = length-putccb w i c;
    kind = λ j below. elim (Bool-cases (i == j)) [
      | inl e ↦ let same : i ≡ j = (==_iff _ _).0 e in rw (← same, getccb-putccb_self w i c lt) k
      | inr e ↦ rw (getccb-putccb_ne w i j c lt (==_false _ _ e)) (SameKind-refl (getccb w j))
    ];
  }

  -- an operation that keeps the kind of its channel, run on channel `i`
  pub on_channel-Keeps :
      {A : Type 0} (w : World Os) (i : ℕ) (run : Handle Os → A × Handle Os)
      → i < length w.fds
      → ((h : Handle Os) → SameKind h.fp (run h).1.fp)
      → Keeps w (on_channel i run w).1
  unfolding getccb
  on_channel-Keeps w i run lt k =
      let h = run (record { fp = getccb w i; errno = w.errno; os = w.os }) in
      let w1 = record w { errno = h.1.errno; os = h.1.os } in
      Keeps-trans (machine-Keeps w h.1.errno h.1.os) (putccb-Keeps w1 i h.1.fp lt (k _))

  -- `_chkc` finds the block, or only sets `errno`
  pub chkc_cases :
      (fd : ℕ) (w : World Os)
      → (chkc fd w ≡ (some (getccb w fd), w)) ⊎ (chkc fd w ≡ (none, record w { errno = ebadf }))
  unfolding chkc
  chkc_cases fd w = elim (Bool-cases (lt_long fd maxccbs)) [
    | inl p ↦ elim (Bool-cases (getccb w fd).flags.opened) [
      | inl q ↦ inl (rw (p, q))
      | inr q ↦ inr (rw (p, q))
    ]
    | inr p ↦ inr (rw p)
  ]

module _ {Os : Type 0} (bdos : Bdos Os) where
  pub filesz-Keeps : (fd : ℕ) (w : World Os) → fd < length w.fds → Keeps w (filesz bdos fd w).1
  unfolding filesz
  filesz-Keeps fd w lt = elim (chkc_cases fd w) [
    | inl e ↦ simp (e, filesz) (on_channel-Keeps w fd (file_size bdos) lt (file_size-SameKind bdos))
    | inr e ↦ simp (e, filesz) (machine-Keeps w ebadf w.os)
  ]

  -- a block is given another position and high water mark, and ATEOF is cleared
  settled-Keeps :
      (fd size offset : ℕ) (w : World Os)
      → fd < length w.fds
      → Keeps w
          (settled fd (putccb w fd (record (getccb w fd) { hiwater = size; offset = offset }))).1
  settled-Keeps fd size offset w lt =
      let c = record (getccb w fd) { hiwater = size; offset = offset } in
      let w1 = putccb w fd c in
      let first : Keeps w w1 =
        putccb-Keeps w fd c lt (SameKind-fields (getccb w fd) c refl refl refl) in
      Keeps-trans first (
        putccb-Keeps w1 fd (settle (getccb w1 fd)) (omega (arith, length-putccb w fd c))
          (SameKind-settle (getccb w1 fd)))

  seek-Keeps :
      (fd offs sense : ℕ) (w : World Os) → fd < length w.fds → Keeps w (seek bdos fd offs sense w).1
  unfolding seek
  seek-Keeps fd offs sense w lt =
      let c = getccb w fd in
      let r = filesz bdos fd w in
      let kept : Keeps w r.1 = filesz-Keeps fd w lt in
      elim (Bool-cases (sense == 0)) [
        | inl p ↦ rw p (settled-Keeps fd c.hiwater offs w lt)
        | inr p ↦ elim (Bool-cases (sense == 1)) [
          | inl q ↦ rw (p, q) (settled-Keeps fd c.hiwater (add_long c.offset offs) w lt)
          | inr q ↦ elim (Bool-cases (sense == 2)) [
            | inl s ↦
                rw (p, q, s)
                  (Keeps-trans kept
                    (settled-Keeps fd r.0 (add_long r.0 offs) r.1 (omega (arith, kept.size))))
            | inr s ↦ rw (p, q, s) (machine-Keeps w einval w.os)
          ]
        ]
      ]

  -- `lseek` keeps the allocation of channels and every channel's kind, whatever it returns. The
  -- channel number is inside of the table.
  pub lseek-Keeps :
      (fd offs sense : ℕ) (w : World Os)
      → fd < length w.fds
      → Keeps w (lseek bdos fd offs sense w).1
  unfolding lseek
  lseek-Keeps fd offs sense w lt = elim (chkc_cases fd w) [
    | inl e ↦ simp (e, lseek) (seek-Keeps fd offs sense w lt)
    | inr e ↦ simp (e, lseek) (machine-Keeps w ebadf w.os)
  ]
