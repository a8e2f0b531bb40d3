-- ===== src/WriteAsc/RoundTrip.antt =====
-- Bytes that `_wrtasc` stored, once the buffer is written, and what `_rdasc` then reads.
use libgloss_cpm68k.Prelude.{
  ℕ, ◌+◌, ◌*◌, ◌-◌, ◌/◌, ◌%◌, ◌^◌, ◌≤◌, ◌<◌, ◌≡◌, refl, sym, ap, ◌∙◌, inl, inr, Option, none, some,
  List, [], ◌∷◌, ◌++◌, length, take, drop, get_elem?, get_elem?-drop, get_elem?-some,
  take-append-drop, arith, true, Bool-cases, dec_lt, ◌==◌,
}
use libgloss_cpm68k.Bdos.{Bdos, Fcb, secsiz}
use libgloss_cpm68k.Bdos.Laws.{UserLaws, FileLaws}
use libgloss_cpm68k.Handle.{Handle, clean}
use libgloss_cpm68k.ReadBin.Contents.{content}
use libgloss_cpm68k.ReadAsc.{rdasc}
use libgloss_cpm68k.ReadAsc.Text.{text, text-nil, text_eof, text_cr, text_plain}
use libgloss_cpm68k.ReadAsc.Round.{rest_of, IsReadAt}
use libgloss_cpm68k.ReadAsc.Refine.{rdasc-Reads}
use libgloss_cpm68k.WriteBin.Stored.{Records, byte_at, byte_of, record_of}
use libgloss_cpm68k.WriteBin.Buffer.{view, IsOpen, none-ne-some}
use libgloss_cpm68k.WriteBin.Sectors.{IsBelow}
use libgloss_cpm68k.WriteBin.Current.{IsCoherent}
use libgloss_cpm68k.WriteBin.RoundTrip.{take_ext, content_byte, at-clean}
use libgloss_cpm68k.WriteAsc.{wrtasc}
use libgloss_cpm68k.WriteAsc.Newlines.{stored_as, text-stored_as}
use libgloss_cpm68k.WriteAsc.Stages.{length-stored_as, WroteText}
use libgloss_cpm68k.WriteAsc.Refine.{wrtasc-Outcome}

-- what follows the bytes does not change their text
take-text : (xs ys : List ℕ) → take (length (text xs)) (text (xs ++ ys)) ≡ text xs
take-text [] ys = rw text-nil refl
take-text (c ∷ xs) ys = elim (Bool-cases (c == 0x1a)) [
  | inl e ↦ rw (text_eof c xs e) refl
  | inr e ↦ elim (Bool-cases (c == 0x0d)) [
    | inl r ↦ rw (text_cr c xs e r, text_cr c (xs ++ ys) e r) (take-text xs ys)
    | inr r ↦
        rw (text_plain c xs e r, text_plain c (xs ++ ys) e r)
          (ap (λ (t : List ℕ). c ∷ t) (take-text xs ys))
  ]
]

module _ (at : Records) (whole : (n : ℕ) (s : List ℕ) → at n ≡ some s → length s ≡ secsiz) where
  -- bytes that are in the file, in front of a missing record, are the first of those read there
  rest_bytes :
      (last offset : ℕ) (src : List ℕ)
      → at last ≡ none
      → offset ≤ secsiz * last
      → ((i : ℕ) → i < length src → byte_at at (offset + i) ≡ get_elem? src i)
      → take (length src) (rest_of at last offset) ≡ src
  rest_bytes last offset src end inside bytes = take_ext (rest_of at last offset) src λ i lt.
      let n = offset / secsiz in
      let pos = offset % secsiz in
      let k = last - n in
      let same : secsiz * n + (pos + i) ≡ offset + i = omega arith in
      get_elem?-drop pos i (content at n k)
      ∙ content_byte at whole k n (pos + i) (before i lt) (λ m le up. there i m lt le (omega arith))
      ∙ ap (λ (p : ℕ). byte_at at p) same
      ∙ bytes i lt
    where
      there :
          (i m : ℕ)
          → i < length src
          → offset / secsiz ≤ m
          → secsiz * m ≤ offset + i
          → (s : List ℕ) × (at m ≡ some s)
      there i m lt le up =
          let first = secsiz * m - offset in
          let (v, e) = get_elem?-some first src (omega arith) in
          let (s, found, _) = record_of at (offset + first) v (bytes first (omega arith) ∙ e) in
          let here : (offset + first) / secsiz ≡ m = omega arith in (s, ap at (sym here) ∙ found)

      before : (i : ℕ) → i < length src → offset % secsiz + i < secsiz * (last - offset / secsiz)
      before i lt = elim (dec_lt (offset + i) (secsiz * last)) [
        | yes p ↦ omega arith
        | no p ↦
            let (s, e) = there i last lt (omega arith) (omega arith) in
            absurd (none-ne-some (sym end ∙ e))
      ]

module _ {Os : Type 0} (bdos : Bdos Os) (current : Os → ℕ) (L : UserLaws bdos current)
    {Names : ℕ → Fcb → Type 0} {at : Os → ℕ → Option (List ℕ)}
    (F : FileLaws bdos current Names at) where
  stored_bytes :
      (src chars : List ℕ) (h g : Handle Os) (out : ℕ × Handle Os) (total : ℕ)
      → WroteText bdos current L F total chars h out
      → (clean bdos out.1).0 ≡ true
      → g.os ≡ (clean bdos out.1).1.os
      → g.fp.offset ≡ h.fp.offset
      → (i : ℕ) → i < length chars
      → byte_at (at g.os) (g.fp.offset + i) ≡ get_elem? chars i
  stored_bytes src chars h g out total w saved os off i lt =
      let disk : (m : ℕ) → at g.os m ≡ view at out.1 m = λ m.
        ap (λ (o : Os). at o m) os ∙ at-clean bdos current L F out.1 w.channel w.label_lt saved m in
      ap (λ (o : Option (List ℕ)). byte_of o ((g.fp.offset + i) % secsiz))
        (disk ((g.fp.offset + i) / secsiz))
      ∙ ap (λ (p : ℕ). byte_at (view at out.1) (p + i)) off
      ∙ w.stores.bytes i lt

  -- What `_wrtasc` wrote, `_rdasc` reads: where a write of at least one byte under the conditions of a
  -- write that stores its bytes returned their number, and the buffer was then written with success,
  -- a read of as many characters as their text has, at the same offset, through any ASCII channel that
  -- is ready to read the file up to a missing record, returns that number and puts their text in front
  -- of the caller's buffer: the bytes up to the first EOFCHAR without the carriage returns.
  pub rdasc-wrtasc :
      (src buff : List ℕ) (last : ℕ) (h g : Handle Os)
      → let out = wrtasc bdos src h in
        0 < length src
        → h.fp.offset + length (stored_as 0 src) < 2 ^ 23
        → IsOpen bdos current L F h
        → IsBelow bdos current L F (h.fp.offset / secsiz) h
        → IsCoherent bdos current L F h
        → out.0 ≡ length src
        → (clean bdos out.1).0 ≡ true
        → g.os ≡ (clean bdos out.1).1.os
        → g.fp.offset ≡ h.fp.offset
        → IsReadAt bdos current L F last g
        → let r = rdasc bdos buff (length (text src)) g in
          (r.ret ≡ length (text src)) × (r.memory ≡ text src ++ drop (length (text src)) buff)
  rdasc-wrtasc src buff last h g some_bytes room o below coherent all saved os off ready =
      let chars = stored_as 0 src in
      let rest = rest_of (at g.os) last g.fp.offset in
      elim (wrtasc-Outcome bdos current L F src h some_bytes room o below coherent) [
        | inr (inl f) ↦ absurd (omega (arith, f.ret, all, room, (length-stored_as 0 src).0))
        | inr (inr short) ↦ absurd (omega (arith, short, all))
        | inl w ↦
            let first : take (length chars) rest ≡ chars =
              rest_bytes (at g.os) (F.whole g.os) last g.fp.offset chars ready.end ready.inside
                (stored_bytes src chars h g (wrtasc bdos src h) (length src) w saved os off) in
            let split : chars ++ drop (length chars) rest ≡ rest =
              ap (λ (t : List ℕ). t ++ drop (length chars) rest) (sym first)
              ∙ take-append-drop (length chars) rest in
            let same = text-stored_as 0 src in
            let read : take (length (text src)) (text rest) ≡ text src =
              ap (λ (t : List ℕ). take (length (text src)) (text t)) (sym split)
              ∙ ap (λ (t : List ℕ). take (length t) (text (chars ++ drop (length chars) rest)))
                  (sym same)
              ∙ take-text chars (drop (length chars) rest)
              ∙ same in
            let r = rdasc-Reads bdos current L F last buff (length (text src)) g ready in
            (r.ret ∙ ap length read, r.memory ∙ ap (λ (t : List ℕ). t ++ drop (length t) buff) read)
      ]
