-- ===== src/ReadAsc/Round.antt =====
-- A round of `_rdasc` against the text of the file, for a BDOS that keeps the laws of Bdos/Laws.antt.
use libgloss_cpm68k.Prelude.{
  ℕ, zero, suc, ◌+◌, ◌*◌, ◌-◌, ◌/◌, ◌%◌, ◌^◌, ◌≤◌, ◌<◌, ◌≡◌, refl, sym, ap, ◌∙◌, inl, inr, Option,
  none, some, List, [], ◌∷◌, ◌++◌, append_assoc, length, take, drop, drop-drop, length-drop,
  length-append, arith, true, Bool-cases, if◌then◌else◌, dec_lt,
}
use libgloss_cpm68k.Bdos.{Bdos, Fcb, secsiz}
use libgloss_cpm68k.Bdos.Laws.{UserLaws, FileLaws}
use libgloss_cpm68k.Handle.{Handle, mark_eof, raise_hiwater, update_fp}
use libgloss_cpm68k.ReadBin.{ReadOut, move_offset}
use libgloss_cpm68k.ReadBin.Contents.{content, content_present, drop-append}
use libgloss_cpm68k.ReadBin.Fetch.{IsReady, IsReady-update}
use libgloss_cpm68k.ReadAsc.{scan, ends, rdasc_loop}
use libgloss_cpm68k.ReadAsc.Text.{text, passed-scan}
use libgloss_cpm68k.ReadAsc.Stream.{length-scan, take-scan, take-scan_ended, scan_stops}

none-ne-some : {s : List ℕ} → ¬ (none ≡ some s)
none-ne-some h = cc

-- the bytes of the records below `last` from byte `offset` on, up to a missing record
abbrev pub rest_of : (ℕ → Option (List ℕ)) → ℕ → ℕ → List ℕ
rest_of file last offset =
    drop (offset % secsiz) (content file (offset / secsiz) (last - offset / secsiz))

pub drop_all : (n : ℕ) (xs : List ℕ) → length xs ≤ n → drop n xs ≡ []
drop_all zero [] h = refl
drop_all zero (x ∷ xs) h = elim h [ ]
drop_all (suc n) [] h = refl
drop_all (suc n) (x ∷ xs) h = drop_all n xs (omega arith)

-- the rest of the file at an offset inside record `n`, and behind `passed` more of its bytes
rest_present :
    (last n pos : ℕ) (s : List ℕ) (file : ℕ → Option (List ℕ)) (offset : ℕ)
    → offset ≡ secsiz * n + pos
    → pos < secsiz
    → n < last
    → file n ≡ some s
    → length s ≡ secsiz
    → rest_of file last offset ≡ drop pos s ++ content file (n + 1) (last - (n + 1))
rest_present last n pos s file offset o lt in_file e size =
    let a : offset / secsiz ≡ n = omega arith in
    let b : offset % secsiz ≡ pos = omega arith in
    let k : last - n ≡ suc (last - (n + 1)) = omega arith in
    rw (a, b, k, content_present file n (last - (n + 1)) s e)
      (drop-append pos s _ (omega (arith, size)))

rest_moved :
    (last n pos passed : ℕ) (s : List ℕ) (file : ℕ → Option (List ℕ)) (offset : ℕ)
    → offset ≡ secsiz * n + pos + passed
    → pos + passed ≤ secsiz
    → n < last
    → file n ≡ some s
    → length s ≡ secsiz
    → rest_of file last offset ≡ drop passed (drop pos s) ++ content file (n + 1) (last - (n + 1))
rest_moved last n pos passed s file offset o le in_file e size =
    let joined : drop passed (drop pos s) ≡ drop (pos + passed) s = drop-drop passed pos s in
    elim (dec_lt (pos + passed) secsiz) [
      | yes lt ↦
          rest_present last n (pos + passed) s file offset (omega arith) lt in_file e size
          ∙ ap (λ (t : List ℕ). t ++ content file (n + 1) (last - (n + 1))) (sym joined)
      | no full ↦
          let a : offset / secsiz ≡ n + 1 = omega arith in
          let b : offset % secsiz ≡ 0 = omega arith in
          let nothing : drop passed (drop pos s) ≡ [] =
            joined ∙ drop_all (pos + passed) s (omega (arith, size)) in
          rw (a, b, nothing) refl
    ]

module _ {Os : Type 0} (bdos : Bdos Os) (current : Os → ℕ) (L : UserLaws bdos current)
    {Names : ℕ → Fcb → Type 0} {at : Os → ℕ → Option (List ℕ)}
    (F : FileLaws bdos current Names at) where
  -- the outcome of a read of `bytes` characters that adds `c` to the `got` from before: their
  -- number, the characters in front of the caller's buffer, and the mark of the end where they are
  -- fewer; the file stays, and the channel is ready as before
  pub record Reads (file : ℕ → Option (List ℕ)) (c got buff : List ℕ) (bytes : ℕ) (out : ReadOut Os)
      : Type 0 where
    pub ret : out.ret ≡ length (got ++ c)
    pub memory : out.memory ≡ got ++ c ++ drop (length (got ++ c)) buff
    pub eof : length c < bytes → out.handle.fp.flags.at_eof ≡ true
    pub same : at out.handle.os ≡ file
    pub ready : IsReady bdos current L F out.handle

  -- a channel whose buffer has a sector, that of its label if the offset is in it
  pub record IsReadAt (last : ℕ) (h : Handle Os) : Type 0 where
    pub ready : IsReady bdos current L F h
    pub size : length h.fp.buffer ≡ secsiz
    pub held :
        h.fp.sector ≡ h.fp.offset / secsiz → at h.os (h.fp.offset / secsiz) ≡ some h.fp.buffer
    pub last_lt : last < 2 ^ 24
    pub end : at h.os last ≡ none
    pub inside : h.fp.offset ≤ secsiz * last

  -- what the rounds behind this one are to do
  abbrev pub Goes : ℕ → ℕ → List ℕ → Type 0
  Goes fuel last buff =
      (got : List ℕ) (bytes : ℕ) (h : Handle Os)
      → IsReadAt last h
      → 0 < fuel
      → (0 < bytes → last - h.fp.offset / secsiz + 1 < fuel)
      → Reads (at h.os) (take bytes (text (rest_of (at h.os) last h.fp.offset))) got buff bytes
          (rdasc_loop bdos fuel got buff bytes h)

  pub Reads-behind :
      (file : ℕ → Option (List ℕ)) (first c got buff : List ℕ) (bytes : ℕ) (out : ReadOut Os)
      → length first ≤ bytes
      → Reads file c (got ++ first) buff (bytes - length first) out
      → Reads file (first ++ c) got buff bytes out
  Reads-behind file first c got buff bytes out le r =
      let joined : got ++ first ++ c ≡ got ++ (first ++ c) = append_assoc got first c in
      record {
        ret = r.ret ∙ ap length joined;
        memory = r.memory ∙ ap (λ (t : List ℕ). t ++ drop (length t) buff) joined;
        eof = λ less. r.eof (omega (arith, less, length-append first c));
        same = r.same;
        ready = r.ready;
      }

  -- the inner loop and what follows it, for a sector that is in the buffer
  pub round-Reads :
      (fuel last : ℕ) (got buff : List ℕ) (bytes : ℕ) (h : Handle Os)
      → Goes fuel last buff
      → IsReadAt last h
      → h.fp.sector ≡ h.fp.offset / secsiz
      → last - h.fp.offset / secsiz + 1 < suc fuel
      → let s = scan (drop (h.fp.offset % secsiz) h.fp.buffer) bytes in
        let got' = got ++ s.out in
        let h4 = update_fp (move_offset s.passed) h in
        let ended =
          ends (length got') got' buff (update_fp (λ c. raise_hiwater (mark_eof true c)) h4) in
        let next = rdasc_loop bdos fuel got' buff (bytes - length s.out) h4 in
        Reads
          (at h.os)
          (take bytes (text (rest_of (at h.os) last h.fp.offset)))
          got
          buff
          bytes
          (if s.ended then ended else next)
  round-Reads fuel last got buff bytes h goes a here enough =
      let n = h.fp.offset / secsiz in
      let pos = h.fp.offset % secsiz in
      let s = scan (drop pos h.fp.buffer) bytes in
      let record_n : at h.os n ≡ some h.fp.buffer = a.held here in
      let in_file : n < last = below last n h.fp.buffer a record_n (omega (arith, a.inside)) in
      let behind = content (at h.os) (n + 1) (last - (n + 1)) in
      let all : rest_of (at h.os) last h.fp.offset ≡ drop pos h.fp.buffer ++ behind =
        rest_present last n pos h.fp.buffer (at h.os) h.fp.offset (omega arith) (omega arith)
          in_file record_n a.size in
      let size = length-drop pos h.fp.buffer in
      let few = passed-scan (drop pos h.fp.buffer) bytes in
      let short = length-scan (drop pos h.fp.buffer) bytes in
      elim (Bool-cases s.ended) [
        | inl e ↦
            let c = take-scan_ended (drop pos h.fp.buffer) behind bytes e in
            rw (all, c, e)
              (record {
                ret = refl;
                memory = refl;
                eof = λ _. refl;
                same = refl;
                ready = IsReady-update bdos current L F h _ a.ready refl refl refl refl;
              })
        | inr e ↦
            let h4 = update_fp (move_offset s.passed) h in
            let moved : h4.fp.offset ≡ h.fp.offset + s.passed =
              omega (arith, few, size, a.size, a.inside, a.last_lt) in
            let c = take-scan (drop pos h.fp.buffer) behind bytes e in
            let left : rest_of (at h.os) last h4.fp.offset
                ≡ drop s.passed (drop pos h.fp.buffer) ++ behind =
              rest_moved last n pos s.passed h.fp.buffer (at h.os) h4.fp.offset
                (omega (arith, moved)) (omega (arith, few, size, a.size)) in_file record_n a.size in
            let at_next : IsReadAt last h4 = record {
              ready = IsReady-update bdos current L F h h4 a.ready refl refl refl refl;
              size = a.size;
              held = λ q. ap (at h.os) (sym q ∙ here) ∙ record_n;
              last_lt = a.last_lt;
              end = a.end;
              inside = omega (arith, moved, few, size, a.size, in_file);
            } in
            let stops = scan_stops (drop pos h.fp.buffer) bytes e in
            let fuel_next : 0 < bytes - length s.out → last - h4.fp.offset / secsiz + 1 < fuel =
              λ more. omega (arith, stops, moved, size, a.size, enough, more, in_file) in
            let rest =
              goes (got ++ s.out) (bytes - length s.out) h4 at_next (omega (arith, enough))
                fuel_next in
            rw (all, c, e, ← left) (Reads-behind (at h.os) s.out _ got buff bytes _ short rest)
      ]
    where
      below : (last n : ℕ) (s : List ℕ) → IsReadAt last h → at h.os n ≡ some s → n ≤ last → n < last
      below last n s a e le = elim (dec_lt n last) [
        | yes lt ↦ lt
        | no ge ↦
            let same : last ≡ n = omega arith in
            absurd (none-ne-some (sym a.end ∙ ap (at h.os) same ∙ e))
      ]
