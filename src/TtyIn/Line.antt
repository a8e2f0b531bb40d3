-- ===== src/TtyIn/Line.antt =====
-- The line that a read of the console delivers, where it is neither RAW nor CBREAK.
use libgloss_cpm68k.Prelude.{
  ℕ, zero, suc, ◌+◌, ◌%◌, ◌^◌, ◌≤◌, ◌<◌, ◌≡◌, refl, sym, ap, ◌∙◌, Bool, false, true, List, [], ◌∷◌,
  ◌++◌, arith, ◌==◌, ◌&&◌, ltb, if◌then◌else◌, length, take, drop, Bool-cases, inl, inr,
  length-append, take-nil,
}
use libgloss_cpm68k.Bdos.{Bdos, conbuf, conout}
use libgloss_cpm68k.State.{Ccb}
use libgloss_cpm68k.Handle.{Handle, update_fp, mark_eof}
use libgloss_cpm68k.ReadAsc.{ends}
use libgloss_cpm68k.ReadBin.{ReadOut}
use libgloss_cpm68k.ReadAsc.Text.{before_eof}
use libgloss_cpm68k.TtyIn.{Copied, copy_line, read_cooked}

-- whether an EOFCHAR was typed
unfoldable pub has_eof : List ℕ → Bool
has_eof [] = false
has_eof (c ∷ s) = let rest = has_eof s in if c == 0x1a then true else rest

-- what a typed line means: the characters in front of an EOFCHAR, or all of them and a newline
abbrev pub entered : List ℕ → List ℕ
entered s = before_eof s ++ (if has_eof s then [] else 0x0a ∷ [])

-- the copied characters, a newline put in, and what was left of the request
abbrev delivered : Copied → List ℕ
delivered l = if l.ended then l.out else if ltb 0 l.left then l.out ++ (0x0a ∷ []) else l.out

delivered-ended : (l : Copied) {c : List ℕ} → l.ended ≡ true → delivered l ≡ c → l.out ≡ c
delivered-ended l t d = sym (rw t refl) ∙ d

delivered_more :
    (l : Copied) {c : List ℕ}
    → l.ended ≡ false
    → ltb 0 l.left ≡ true
    → delivered l ≡ c
    → l.out ++ (0x0a ∷ []) ≡ c
delivered_more l t m d = sym (rw (t, m) refl) ∙ d

delivered_full :
    (l : Copied) {c : List ℕ} → l.ended ≡ false → ltb 0 l.left ≡ false → delivered l ≡ c → l.out ≡ c
delivered_full l t m d = sym (rw (t, m) refl) ∙ d

copy_line-entered :
    (bytes : ℕ) (s junk : List ℕ)
    → delivered (copy_line bytes (length s) (s ++ junk)) ≡ take bytes (entered s)
unfolding copy_line before_eof has_eof
copy_line-entered zero [] junk = refl
copy_line-entered (suc bytes) [] junk =
    let t : ltb 0 (suc bytes) ≡ true = ground arith in rw (t, take-nil bytes) refl
copy_line-entered zero (c ∷ s) junk = ground arith
copy_line-entered (suc bytes) (c ∷ s) junk = ground (arith, copy_line-entered bytes s junk)

-- whether the request goes on behind an EOFCHAR
abbrev pub meets_eof : List ℕ → ℕ → Bool
meets_eof s bytes = has_eof s && ltb (length (before_eof s)) bytes

ended-copy_line :
    (bytes : ℕ) (s junk : List ℕ)
    → (copy_line bytes (length s) (s ++ junk)).ended ≡ meets_eof s bytes
unfolding copy_line before_eof has_eof
ended-copy_line zero [] junk = refl
ended-copy_line (suc bytes) [] junk = refl
ended-copy_line zero (c ∷ s) junk = ground arith
ended-copy_line (suc bytes) (c ∷ s) junk = ground (arith, ended-copy_line bytes s junk)

module _ {Os : Type 0} (bdos : Bdos Os) where
  -- the outcome of a read that delivers `c` and meets the end if `end` says so
  pub record Enters (c buff : List ℕ) (end : Bool) (h : Handle Os) (r : ReadOut Os) : Type 0 where
    pub ret : r.ret ≡ length c
    pub memory : r.memory ≡ c ++ drop (length c) buff
    pub eof : r.handle.fp.flags.at_eof ≡ (if end then true else h.fp.flags.at_eof)

  delivered-Enters :
      (l : Copied) (c buff : List ℕ) (end : Bool) (h h1 : Handle Os)
      → h1.fp ≡ h.fp
      → delivered l ≡ c
      → l.ended ≡ end
      → Enters c buff end h (
          if l.ended
          then ends (length l.out) l.out buff (update_fp (mark_eof true) h1)
          else if ltb 0 l.left
          then ends (length l.out + 1) (l.out ++ (0x0a ∷ [])) buff h1
          else ends (length l.out) l.out buff h1)
  delivered-Enters l c buff end h h1 same d e = elim (Bool-cases l.ended) [
    | inl t ↦
        let all : l.out ≡ c = delivered-ended l t d in
        let last : end ≡ true = sym e ∙ t in
        rw (t, last) (enters l.out (length l.out) true _ refl all refl)
    | inr t ↦
        let last : end ≡ false = sym e ∙ t in
        let stays = ap (λ (c : Ccb). c.flags.at_eof) same in
        elim (Bool-cases (ltb 0 l.left)) [
          | inl m ↦
              let all : l.out ++ (0x0a ∷ []) ≡ c = delivered_more l t m d in
              rw (t, m, last)
                (enters (l.out ++ (0x0a ∷ [])) (length l.out + 1) false h1
                  (omega (arith, length-append l.out (0x0a ∷ []))) all stays)
          | inr m ↦
              let all : l.out ≡ c = delivered_full l t m d in
              rw (t, m, last) (enters l.out (length l.out) false h1 refl all stays)
        ]
  ]
    where
      enters :
          (out : List ℕ) (n : ℕ) (b : Bool) (g : Handle Os)
          → n ≡ length out
          → out ≡ c
          → g.fp.flags.at_eof ≡ (if b then true else h.fp.flags.at_eof)
          → Enters c buff b h (ends n out buff g)
      enters out n b g size all eof = record {
        ret = size ∙ ap length all;
        memory = ap (λ (t : List ℕ). t ++ drop (length t) buff) all;
        eof = eof;
      }

  -- A read of the console in its usual mode delivers the line that was typed: the characters in front
  -- of an EOFCHAR, or all of them and a newline, as many as were asked for. It returns their number,
  -- puts them in front of the caller's buffer, and sets the mark of the end exactly if it met the
  -- EOFCHAR in front of the end of the request. At least 2 bytes are asked for; the line is what
  -- function 10 leaves behind its count: at most as many characters as were asked for, and 255.
  pub read_cooked-Enters :
      (s junk buff : List ℕ) (bytes : ℕ) (h : Handle Os)
      → 1 < bytes
      → length s ≤ (if ltb bytes 0xff then bytes else 0xff)
      → (bdos (conbuf (if ltb bytes 0xff then bytes else 0xff)) h.os).0.memory
        ≡ length s ∷ (s ++ junk)
      → Enters (take bytes (entered s)) buff (meets_eof s bytes) h (read_cooked bdos buff bytes h)
  unfolding read_cooked
  read_cooked-Enters s junk buff bytes h more fits typed =
      let nbs = if ltb bytes 0xff then bytes else 0xff in
      let many : (nbs == 1) ≡ false = ground arith in
      let count : length s % 2 ^ 8 ≡ length s = ground arith in
      let os1 = (bdos (conbuf nbs) h.os).1 in
      let h1 : Handle Os = record h {
        os = if ltb (length s) nbs then (bdos (conout 0x0a) os1).1 else os1;
      } in
      simp (many, typed, count, read_cooked)
        (delivered-Enters (copy_line bytes (length s) (s ++ junk)) _ buff _ h h1 refl
          (copy_line-entered bytes s junk) (ended-copy_line bytes s junk))
