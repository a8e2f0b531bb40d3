-- ===== src/TestProgram/Count.antt =====
-- The loop of main.c that counts the bytes of a file, through `read`, on a binary channel.
use libgloss_cpm68k.Prelude.{
  ℕ, zero, suc, ◌+◌, ◌*◌, ◌-◌, ◌/◌, ◌^◌, ◌≤◌, ◌<◌, ◌≡◌, refl, sym, ap, ◌∙◌, Option, none, some,
  List, length, arith, true, false, dec_lt,
}
use mathlib.Core.Path.{subst}
use libgloss_cpm68k.Prelude.Words.{add_long}
use libgloss_cpm68k.Bdos.{Bdos, Fcb, secsiz}
use libgloss_cpm68k.Bdos.Laws.{UserLaws, FileLaws}
use libgloss_cpm68k.State.{World, Ccb, Flags, maxccbs, getccb, putccb}
use libgloss_cpm68k.Handle.{Handle}
use libgloss_cpm68k.Channel.Laws.{getccb-putccb_self, length-putccb, putccb_frame}
use libgloss_cpm68k.Files.Closing.{chkc-opened}
use libgloss_cpm68k.ReadBin.{rdbin}
use libgloss_cpm68k.Io.{stored_back, read}
use libgloss_cpm68k.Calls.Transfers.{kind_of}
use libgloss_cpm68k.Calls.Reading.{kind-rdbin}
use libgloss_cpm68k.TestProgram.{count_loop}
use libgloss_cpm68k.TestProgram.Byte.{IsAtByte, byte_found, byte_missing}

-- the channel as an operation on it finds it
abbrev pub handle_at : {Os : Type 0} → ℕ → World Os → Handle Os
handle_at fd w = record { fp = getccb w fd; errno = w.errno; os = w.os }

module _ {Os : Type 0} (bdos : Bdos Os) (current : Os → ℕ) (L : UserLaws bdos current)
    {Names : ℕ → Fcb → Type 0} {at : Os → ℕ → Option (List ℕ)}
    (F : FileLaws bdos current Names at) where
  -- channel `fd` is a binary file, at byte `k`
  pub record IsReading (file : ℕ → Option (List ℕ)) (fd k : ℕ) (w : World Os) : Type 0 where
    pub in_range : fd < maxccbs
    pub table : length w.fds ≡ maxccbs
    pub opened : (getccb w fd).flags.opened ≡ true
    pub is_tty : (getccb w fd).flags.is_tty ≡ false
    pub is_lpt : (getccb w fd).flags.is_lpt ≡ false
    pub is_ascii : (getccb w fd).flags.is_ascii ≡ false
    pub place : IsAtByte bdos current L F file k (handle_at fd w)

  -- what `read` of one byte does on it
  read_binary :
      (file : ℕ → Option (List ℕ)) (fd k : ℕ) (m : List ℕ) (w : World Os)
      → IsReading file fd k w
      → read bdos fd m 1 w ≡ some (stored_back bdos fd w (rdbin bdos m 1 (handle_at fd w)))
  unfolding read
  read_binary file fd k m w r =
      simp
        (chkc-opened fd w r.in_range r.opened, r.place.fresh, r.is_tty, r.is_lpt, r.is_ascii, read)
        refl

  IsReading-stored_back :
      (file : ℕ → Option (List ℕ)) (fd k next : ℕ) (m : List ℕ) (w : World Os)
      → IsReading file fd k w
      → let out = rdbin bdos m 1 (handle_at fd w) in
        IsAtByte bdos current L F file next out.handle
        → IsReading file fd next (stored_back bdos fd w out).2
  IsReading-stored_back file fd k next m w r a =
      let out = rdbin bdos m 1 (handle_at fd w) in
      let w1 : World Os = record w { errno = out.handle.errno; os = out.handle.os } in
      let got : getccb (putccb w1 fd out.handle.fp) fd ≡ out.handle.fp =
        getccb-putccb_self w1 fd out.handle.fp (omega (arith, r.in_range, r.table)) in
      let frame = putccb_frame w1 fd out.handle.fp in
      let kind : kind_of (getccb (putccb w1 fd out.handle.fp) fd) ≡ kind_of (getccb w fd) =
        ap kind_of got ∙ kind-rdbin bdos m 1 (handle_at fd w) in
      let same : out.handle ≡ handle_at fd (putccb w1 fd out.handle.fp) =
        sym (λ i. record { fp = got i; errno = frame.1 i; os = frame.2 i }) in
      record {
        in_range = r.in_range;
        table = length-putccb w1 fd out.handle.fp ∙ r.table;
        opened = ap (λ (t : Flags × ℕ × ℕ). t.0.opened) kind ∙ r.opened;
        is_tty = ap (λ (t : Flags × ℕ × ℕ). t.0.is_tty) kind ∙ r.is_tty;
        is_lpt = ap (λ (t : Flags × ℕ × ℕ). t.0.is_lpt) kind ∙ r.is_lpt;
        is_ascii = ap (λ (t : Flags × ℕ × ℕ). t.0.is_ascii) kind ∙ r.is_ascii;
        place = subst (IsAtByte bdos current L F file next) same a;
      }

  count_loop_from :
      (file : ℕ → Option (List ℕ)) (last fuel fd k : ℕ) (m : List ℕ) (w : World Os)
      → ((i : ℕ) → i < last → (s : List ℕ) × (file i ≡ some s))
      → file last ≡ none
      → last < 2 ^ 24
      → k ≤ secsiz * last
      → secsiz * last - k < fuel
      → IsReading file fd k w
      → (v : World Os) × (count_loop bdos fuel fd m k w ≡ some (secsiz * last, v))
        × ((getccb v fd).offset ≡ secsiz * last)
  unfolding count_loop
  count_loop_from file last zero fd k m w there end small le enough r = absurd (omega arith)
  count_loop_from file last (suc fuel) fd k m w there end small le enough r =
      let out = rdbin bdos m 1 (handle_at fd w) in
      let called = read_binary file fd k m w r in
      elim (dec_lt k (secsiz * last)) [
        | yes lt ↦
            let (s, e) = there (k / secsiz) (omega arith) in
            let (one, a) =
              byte_found bdos current L F file k m (handle_at fd w) s r.place (omega arith) e in
            let (v, rest, stays) =
              count_loop_from file last fuel fd (k + 1) out.memory (stored_back bdos fd w out).2
                there end small (omega arith) (omega arith)
                (IsReading-stored_back file fd k (k + 1) m w r a) in
            let counted : add_long k 1 ≡ k + 1 = omega arith in
            (v, simp (called, one, counted, count_loop) rest, stays)
        | no full ↦
            let at_end : k ≡ secsiz * last = omega arith in
            let n : k / secsiz ≡ last = omega arith in
            let (zero_bytes, stays) =
              byte_missing bdos current L F file k m (handle_at fd w) r.place (omega arith)
                (omega arith) (ap file n ∙ end) in
            let w1 : World Os = record w { errno = out.handle.errno; os = out.handle.os } in
            let got : getccb (putccb w1 fd out.handle.fp) fd ≡ out.handle.fp =
              getccb-putccb_self w1 fd out.handle.fp (omega (arith, r.in_range, r.table)) in
            (
              (stored_back bdos fd w out).2,
              simp (called, zero_bytes, count_loop)
                  (ap (λ (n : ℕ). some (n, (stored_back bdos fd w out).2)) at_end),
              ap (λ (c : Ccb). c.offset) got ∙ stays ∙ at_end,
            )
      ]

  -- The loop counts the bytes of a file: where channel `fd` has a binary file of `last` records open,
  -- from its first byte on, the count is 128 for each record, and the file offset is the count. The file is shorter than 2^24 records,
  -- the channel ready at offset 0, and one round more than the count is enough.
  pub count_loop-records :
      (file : ℕ → Option (List ℕ)) (last fuel fd : ℕ) (c : List ℕ) (w : World Os)
      → ((i : ℕ) → i < last → (s : List ℕ) × (file i ≡ some s))
      → file last ≡ none
      → last < 2 ^ 24
      → secsiz * last < fuel
      → IsReading file fd 0 w
      → (v : World Os) × (count_loop bdos fuel fd c 0 w ≡ some (secsiz * last, v))
        × ((getccb v fd).offset ≡ secsiz * last)
  count_loop-records file last fuel fd c w there end small enough r =
      count_loop_from file last fuel fd 0 c w there end small (omega arith) (omega arith) r
