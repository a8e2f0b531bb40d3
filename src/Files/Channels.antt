-- ===== src/Files/Channels.antt =====
-- The channels that opening, creating and closing take and give back.
use libgloss_cpm68k.Prelude.{
  ℕ, ◌<◌, ◌≡◌, ◌⊎◌, refl, ap, ◌∙◌, Bool, true, false, ◌||◌, List, arith, ◌==◌, length, inl, inr,
  Bool-cases,
}
use libgloss_cpm68k.Prelude.Bits.{clear_bit}
use libgloss_cpm68k.Bdos.{Bdos}
use libgloss_cpm68k.State.{World, Ccb, Flags, failure, getccb, putccb}
use libgloss_cpm68k.Channel.{freec, init_ccb, chinit_one}
use libgloss_cpm68k.Channel.Laws.{getccb-putccb_self, length-putccb, putccb_frame}
use libgloss_cpm68k.Handle.{Handle, on_channel}
use libgloss_cpm68k.Seek.{lseek}
use libgloss_cpm68k.Kind.{Keeps, Keeps-trans, lseek-Keeps}
use libgloss_cpm68k.Files.{
  OpenFn, opening, open_fcb, open_handle, find_hiwater, open_disk, set_flags, mark_kind,
  mark_opened,
}

pub ||-false : (b : Bool) → b || false ≡ b
||-false true = refl
||-false false = refl

-- what `__open` and the marking of flags leave of the library's state: the allocation bits and the
-- size of the table
pub record SameTable {Os : Type 0} (w w' : World Os) : Type 0 where
  pub chvec : w'.chvec ≡ w.chvec
  pub size : length w'.fds ≡ length w.fds

module _ {Os : Type 0} where
  pub SameTable-putccb : (w : World Os) (i : ℕ) (c : Ccb) → SameTable w (putccb w i c)
  SameTable-putccb w i c = record { chvec = (putccb_frame w i c).0; size = length-putccb w i c }

  pub SameTable-chinit_one : (w : World Os) (i : ℕ) → SameTable w (chinit_one i w)
  unfolding chinit_one
  SameTable-chinit_one w i = SameTable-putccb w i _

  -- the state in which `on_channel` puts the block back
  abbrev ran : {A : Type 0} → ℕ → (Handle Os → A × Handle Os) → World Os → Handle Os
  ran i run w = (run (record { fp = getccb w i; errno = w.errno; os = w.os })).1

  pub SameTable-on_channel :
      {A : Type 0} (i : ℕ) (run : Handle Os → A × Handle Os) (w : World Os)
      → SameTable w (on_channel i run w).1
  SameTable-on_channel i run w =
      let h = ran i run w in
      let w1 = record w { errno = h.errno; os = h.os } in
      record { chvec = (putccb_frame w1 i h.fp).0; size = length-putccb w1 i h.fp }

  pub getccb-on_channel :
      {A : Type 0} (i : ℕ) (run : Handle Os → A × Handle Os) (w : World Os)
      → i < length w.fds
      → getccb (on_channel i run w).1 i ≡ (ran i run w).fp
  getccb-on_channel i run w lt =
      let h = ran i run w in getccb-putccb_self (record w { errno = h.errno; os = h.os }) i h.fp lt

module _ {Os : Type 0} where
  -- the outcomes of opening channel `i`: it stays allocated and has number `i` and the access that
  -- was asked for, or it is free again
  pub record IsOpened (i : ℕ) (readonly : Bool) (w : World Os) (r : ℕ × World Os) : Type 0 where
    pub ret : r.0 ≡ i
    pub chvec : r.1.chvec ≡ w.chvec
    pub size : length r.1.fds ≡ length w.fds
    pub opened : (getccb r.1 i).flags.opened ≡ true
    pub is_read : (getccb r.1 i).flags.is_read ≡ readonly
    pub chan : (getccb r.1 i).chan ≡ i

  pub record IsRefused (i : ℕ) (w : World Os) (r : ℕ × World Os) : Type 0 where
    pub ret : r.0 ≡ failure
    pub chvec : r.1.chvec ≡ clear_bit w.chvec i
    pub size : length r.1.fds ≡ length w.fds

  -- the same out of a state with the same table
  pub IsOpened-SameTable :
      (i : ℕ) (b : Bool) {w w1 : World Os} {r : ℕ × World Os}
      → SameTable w w1
      → IsOpened i b w1 r
      → IsOpened i b w r
  IsOpened-SameTable i b t o = record {
    ret = o.ret;
    chvec = o.chvec ∙ t.chvec;
    size = o.size ∙ t.size;
    opened = o.opened;
    is_read = o.is_read;
    chan = o.chan;
  }

  pub IsRefused-SameTable :
      (i : ℕ) {w w1 : World Os} {r : ℕ × World Os}
      → SameTable w w1
      → IsRefused i w1 r
      → IsRefused i w r
  IsRefused-SameTable i t o = record {
    ret = o.ret;
    chvec = o.chvec ∙ ap (λ n. clear_bit n i) t.chvec;
    size = o.size ∙ t.size;
  }

  -- a device is opened on channel `i`
  pub device_opened :
      (i : ℕ) (f : Flags → Flags) (w : World Os)
      → i < length w.fds
      → (getccb w i).chan ≡ i
      → ((g : Flags) → ((f g).opened ≡ true) × ((f g).is_read ≡ g.is_read))
      → IsOpened i (getccb w i).flags.is_read w (i, set_flags f i w)
  device_opened i f w lt ch keeps =
      let c = record (getccb w i) { flags = f (getccb w i).flags } in
      let got : getccb (set_flags f i w) i ≡ c = getccb-putccb_self w i c lt in
      let t = SameTable-putccb w i c in
      record {
        ret = refl;
        chvec = t.chvec;
        size = t.size;
        opened = ap (λ c. c.flags.opened) got ∙ (keeps _).0;
        is_read = ap (λ c. c.flags.is_read) got ∙ (keeps _).1;
        chan = ap (λ c. c.chan) got ∙ ch;
      }

  -- a channel that has been initialised and given its kind
  pub prepared_channel :
      (i : ℕ) (readonly ascii : Bool) (w : World Os)
      → i < length w.fds
      → let w1 = set_flags (mark_kind readonly ascii) i (chinit_one i w) in
        SameTable w w1 × ((getccb w1 i).chan ≡ i) × ((getccb w1 i).flags.is_read ≡ readonly)
  unfolding chinit_one
  prepared_channel i readonly ascii w lt =
      let c0 = init_ccb i (getccb w i) in
      let w0 = putccb w i c0 in
      let lt0 : i < length w0.fds = omega (arith, length-putccb w i c0) in
      let c1 = record (getccb w0 i) { flags = mark_kind readonly ascii (getccb w0 i).flags } in
      let got0 : getccb w0 i ≡ c0 = getccb-putccb_self w i c0 lt in
      let got1 : getccb (putccb w0 i c1) i ≡ c1 = getccb-putccb_self w0 i c1 lt0 in
      let t0 = SameTable-putccb w i c0 in
      let t1 = SameTable-putccb w0 i c1 in
      (
        record { chvec = t1.chvec ∙ t0.chvec; size = t1.size ∙ t0.size },
        ap (λ c. c.chan) got1 ∙ ap (λ c. c.chan) got0,
        ap (λ c. c.flags.is_read) got1
            ∙ unfold init_ccb in ap (λ c. readonly || c.flags.is_read) got0 ∙ ||-false readonly,
      )

module _ {Os : Type 0} (bdos : Bdos Os) where
  pub open_fcb-SameTable :
      (ch : ℕ) (name : List ℕ) (fn : OpenFn) (w : World Os)
      → SameTable w (open_fcb bdos ch name fn w).1
  unfolding open_fcb
  open_fcb-SameTable ch name fn w = SameTable-on_channel ch (open_handle bdos name fn) w

  pub flags-open_handle :
      (name : List ℕ) (fn : OpenFn) (h : Handle Os)
      → (open_handle bdos name fn h).1.fp.flags ≡ h.fp.flags
  unfolding open_handle
  flags-open_handle name fn h = ground arith

  pub chan-open_handle :
      (name : List ℕ) (fn : OpenFn) (h : Handle Os)
      → (open_handle bdos name fn h).1.fp.chan ≡ h.fp.chan
  unfolding open_handle
  chan-open_handle name fn h = ground arith

  -- `__open` leaves the flags and the number of its channel.
  pub open_fcb_block :
      (ch : ℕ) (name : List ℕ) (fn : OpenFn) (w : World Os)
      → ch < length w.fds
      → ((getccb (open_fcb bdos ch name fn w).1 ch).flags ≡ (getccb w ch).flags)
        × ((getccb (open_fcb bdos ch name fn w).1 ch).chan ≡ (getccb w ch).chan)
  unfolding open_fcb
  open_fcb_block ch name fn w lt =
      let e = getccb-on_channel ch (open_handle bdos name fn) w lt in
      (
        ap (λ c. c.flags) e ∙ flags-open_handle name fn _,
        ap (λ c. c.chan) e ∙ chan-open_handle name fn _,
      )

  find_hiwater-Keeps :
      (i : ℕ) (w : World Os)
      → i < length w.fds
      → (getccb w i).chan ≡ i
      → Keeps w (find_hiwater bdos i w)
  unfolding find_hiwater
  find_hiwater-Keeps i w lt e =
      let w1 = (lseek bdos i 0 2 w).1 in
      let first : Keeps w w1 = lseek-Keeps bdos i 0 2 w lt in
      simp (e, find_hiwater)
        (Keeps-trans first (lseek-Keeps bdos i 0 0 w1 (omega (arith, first.size))))

  pub open_disk_cases :
      (i : ℕ) (name : List ℕ) (w : World Os)
      → i < length w.fds
      → (getccb w i).chan ≡ i
      → IsOpened i (getccb w i).flags.is_read w (open_disk bdos i name w)
        ⊎ IsRefused i w (open_disk bdos i name w)
  unfolding open_disk
  open_disk_cases i name w lt ch =
      let r = open_fcb bdos i name opening w in
      let t : SameTable w r.1 = open_fcb-SameTable i name opening w in
      let b = open_fcb_block i name opening w lt in
      let lt1 : i < length r.1.fds = omega (arith, t.size) in
      let c = record (getccb r.1 i) { flags = mark_opened (getccb r.1 i).flags } in
      let w2 = set_flags mark_opened i r.1 in
      let got : getccb w2 i ≡ c = getccb-putccb_self r.1 i c lt1 in
      let t2 : SameTable r.1 w2 = SameTable-putccb r.1 i c in
      let chan2 : (getccb w2 i).chan ≡ i = ap (λ c. c.chan) got ∙ b.1 ∙ ch in
      let lt2 : i < length w2.fds = omega (arith, t2.size) in
      let k : Keeps w2 (find_hiwater bdos i w2) = find_hiwater-Keeps i w2 lt2 chan2 in
      let same = k.kind i lt2 in
      elim (Bool-cases (r.0 == 0)) [
        | inl z ↦ inl (
            rw z (record {
              ret = refl;
              chvec = k.chvec ∙ t2.chvec ∙ t.chvec;
              size = k.size ∙ t2.size ∙ t.size;
              opened = same.opened ∙ ap (λ c. c.flags.opened) got;
              is_read = same.is_read ∙ ap (λ c. c.flags.is_read) got ∙ ap (λ f. f.is_read) b.0;
              chan = same.chan ∙ chan2;
            }))
        | inr z ↦ inr (
            rw z (record {
              ret = refl;
              chvec = unfold freec in ap (λ n. clear_bit n i) t.chvec;
              size = unfold freec in t.size;
            }))
      ]
