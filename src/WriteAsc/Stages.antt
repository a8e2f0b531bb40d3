-- ===== src/WriteAsc/Stages.antt =====
-- What a round of `_wrtasc` puts into the buffer, and what the rounds together store.
use libgloss_cpm68k.Prelude.{
  ℕ, zero, suc, ◌+◌, ◌*◌, ◌^◌, ◌≤◌, ◌<◌, ◌≡◌, ◌≢◌, ◌⊎◌, refl, ap, ◌∙◌, inl, inr, Option, List, [],
  ◌∷◌, ◌++◌, length, length-append, arith, true,
}
use libgloss_cpm68k.Bdos.{Bdos, Fcb}
use libgloss_cpm68k.Bdos.Laws.{UserLaws, FileLaws}
use libgloss_cpm68k.Handle.{Handle, update_fp, raise_hiwater}
use libgloss_cpm68k.WriteBin.Stored.{Stores, Stores-append}
use libgloss_cpm68k.WriteBin.Buffer.{view, IsOpen}
use libgloss_cpm68k.WriteBin.Stages.{raised, Fails}
use libgloss_cpm68k.WriteAsc.{Fill, fill}
use libgloss_cpm68k.WriteAsc.Newlines.{stored_as, out-fill, room-fill}

pub length-stored_as :
    (cc : ℕ) (src : List ℕ)
    → (length src ≤ length (stored_as cc src)) × (length (stored_as cc src) ≤ 2 * length src)
unfolding stored_as
length-stored_as cc [] = omega arith
length-stored_as cc (c ∷ src) = ground (arith, length-stored_as c src)

left-fill : (room cc : ℕ) (src : List ℕ) → length (fill room cc src).left ≤ length src
unfolding fill
left-fill zero cc src = omega arith
left-fill (suc room) cc [] = omega arith
left-fill (suc room) cc (c ∷ src) =
    ground (arith, left-fill room 0x0d (c ∷ src), left-fill room c src)

pub stored_none : (cc : ℕ) (src : List ℕ) → length src ≡ 0 → stored_as cc src ≡ []
unfolding stored_as
stored_none cc [] h = refl
stored_none cc (c ∷ src) h = absurd (omega arith)

-- the lengths in one filling of the buffer
pub record Lengths (room : ℕ) (src stored : List ℕ) (f : Fill) : Type 0 where
  pub total : length f.out + length (stored_as f.last f.left) ≡ length stored
  pub fits : length f.out ≤ room
  pub some_put : 0 < length f.out
  pub left_le : length f.left ≤ length src
  pub done : length f.out < room → length f.left ≡ 0

pub fill-Lengths :
    (room cc : ℕ) (src : List ℕ)
    → 0 < room
    → 0 < length src
    → Lengths room src (stored_as cc src) (fill room cc src)
fill-Lengths room cc src r s =
    let f = fill room cc src in
    let total : length f.out + length (stored_as f.last f.left) ≡ length (stored_as cc src) =
      omega
        (arith, ap length (out-fill room cc src), length-append f.out (stored_as f.last f.left)) in
    let bound = room-fill room cc src in
    let all = length-stored_as cc src in
    record {
      total = total;
      fits = bound.0;
      some_put = elim bound.1 [
        | inl e ↦ omega (arith, e)
        | inr e ↦
            let nothing = ap length (stored_none f.last f.left (ap length e)) in
            omega (arith, total, nothing, all.0)
      ];
      left_le = left-fill room cc src;
      done = λ lt. elim bound.1 [ inl e ↦ absurd (omega (arith, e)) | inr e ↦ ap length e ];
    }

module _ {Os : Type 0} (bdos : Bdos Os) (current : Os → ℕ) (L : UserLaws bdos current)
    {Names : ℕ → Fcb → Type 0} {at : Os → ℕ → Option (List ℕ)}
    (F : FileLaws bdos current Names at) where
  -- the characters were stored from the offset on, the offset and the high water mark were moved
  -- behind them, and the call returns `total`
  pub record WroteText (total : ℕ) (chars : List ℕ) (h : Handle Os) (out : ℕ × Handle Os)
      : Type 0 where
    pub ret : out.0 ≡ total
    pub offset : out.1.fp.offset ≡ h.fp.offset + length chars
    pub hiwater : out.1.fp.hiwater ≡ raised h.fp.hiwater (h.fp.offset + length chars)
    pub stores : Stores (view at h) (view at out.1) h.fp.offset chars
    pub channel : IsOpen bdos current L F out.1
    pub label_lt : out.1.fp.flags.dirty ≡ true → out.1.fp.sector < 2 ^ 24

  -- what a call that is to write `total` bytes may do
  abbrev pub Outcome : ℕ → List ℕ → Handle Os → ℕ × Handle Os → Type 0
  Outcome total chars h out =
      WroteText total chars h out ⊎ (Fails bdos current L F out ⊎ (out.0 < total))

  -- characters that went into the buffer of sector `n`: `g` is the channel behind them
  pub record IsPut (n : ℕ) (chars : List ℕ) (h g : Handle Os) : Type 0 where
    pub offset : g.fp.offset ≡ h.fp.offset + length chars
    pub hiwater : g.fp.hiwater ≡ h.fp.hiwater
    pub label_same : g.fp.sector ≡ n
    pub stores : Stores (view at h) (view at g) h.fp.offset chars
    pub other : (m : ℕ) → m ≢ n → view at g m ≡ view at h m
    pub channel : IsOpen bdos current L F g

  -- the last round
  pub WroteText-last :
      (n total : ℕ) (chars all : List ℕ) (h g : Handle Os)
      → n < 2 ^ 24
      → h.fp.offset + length chars < 2 ^ 23
      → chars ≡ all
      → IsPut n chars h g
      → WroteText total all h (total, update_fp raise_hiwater g)
  WroteText-last n total chars all h g lt room e p = rw (← e) (record {
    ret = refl;
    offset = p.offset;
    hiwater = rw (p.offset, p.hiwater) refl;
    stores = p.stores;
    channel = record { few = p.channel.few; names = p.channel.names; size = p.channel.size };
    label_lt = λ _. omega (arith, p.label_same);
  })

  -- a round before others
  pub WroteText-after :
      (n total : ℕ) (chars rest all : List ℕ) (h g : Handle Os) (out : ℕ × Handle Os)
      → chars ++ rest ≡ all
      → IsPut n chars h g
      → WroteText total rest g out
      → WroteText total all h out
  WroteText-after n total chars rest all h g out e p w =
      let size = length-append chars rest in
      let end : g.fp.offset + length rest ≡ h.fp.offset + length (chars ++ rest) =
        omega (arith, p.offset, size) in
      rw (← e) (record {
        ret = w.ret;
        offset = w.offset ∙ end;
        hiwater = rw (← end, ← p.hiwater) w.hiwater;
        stores =
            Stores-append (view at h) (view at g) (view at out.1) h.fp.offset g.fp.offset chars rest
              p.offset p.stores w.stores;
        channel = w.channel;
        label_lt = w.label_lt;
      })
