-- ===== src/WriteBin/Sectors.antt =====
-- The last two parts of `_wrtbin` together: whole sectors from the caller's buffer, and the rest.
use libgloss_cpm68k.Prelude.{
  ℕ, ◌+◌, ◌*◌, ◌/◌, ◌%◌, ◌^◌, ◌≤◌, ◌<◌, ◌≡◌, ◌⊎◌, refl, sym, ◌∙◌, inl, inr, Option, none, some,
  List, length, take, drop, length-drop, arith, true, false, Bool-cases, ==_iff, ◌==◌, ltb,
  ltb-true,
}
use libgloss_cpm68k.Bdos.{Bdos, Fcb, secsiz}
use libgloss_cpm68k.Bdos.Laws.{UserLaws, FileLaws}
use libgloss_cpm68k.State.{Ccb}
use libgloss_cpm68k.BlkIo.{writing, blkio}
use libgloss_cpm68k.BlkIo.Store.{chunk, blkio-IsWrite}
use libgloss_cpm68k.Handle.{Handle, update_fp}
use libgloss_cpm68k.ReadBin.{move_offset}
use libgloss_cpm68k.WriteBin.{past_hiwater, write_tail, write_sectors}
use libgloss_cpm68k.WriteBin.Stored.{Stores, Stores-sectors, Stores-take-drop}
use libgloss_cpm68k.WriteBin.Buffer.{false-ne-true, view, IsOpen}
use libgloss_cpm68k.WriteBin.Stages.{view_clean, Wrote, Fails, tail_empty, tail_some}

pub either {ℓ κ μ} : {A : Type ℓ} {B : Type κ} {C : Type μ} → (A → C) → A ⊎ B → C ⊎ B
either f (inl a) = inl (f a)
either f (inr b) = inr b

pub past-le :
    (c : Ccb)
    → c.hiwater < 2 ^ 31
    → c.offset < 2 ^ 23
    → past_hiwater c ≡ true
    → c.hiwater ≤ secsiz * (c.offset / secsiz)
past-le c small room h = let t = ltb-true _ _ h in omega (arith, t)

module _ {Os : Type 0} (bdos : Bdos Os) (current : Os → ℕ) (L : UserLaws bdos current)
    {Names : ℕ → Fcb → Type 0} {at : Os → ℕ → Option (List ℕ)}
    (F : FileLaws bdos current Names at) where
  -- no record from `x` on is there behind the high water mark
  pub record IsBelow (x : ℕ) (h : Handle Os) : Type 0 where
    pub small : h.fp.hiwater < 2 ^ 31
    pub beyond : (m : ℕ) → x ≤ m → h.fp.hiwater ≤ secsiz * m → view at h m ≡ none

  Stores-blkio :
      (h g : Handle Os) (x k : ℕ) (src : List ℕ)
      → h.fp.offset ≡ secsiz * x
      → secsiz * k ≤ length src
      → ((j : ℕ) → j < k → view at g (x + j) ≡ some (chunk j src))
      → ((m : ℕ) → (m < x) ⊎ (x + k ≤ m) → view at g m ≡ view at h m)
      → Stores (view at h) (view at g) h.fp.offset (take (secsiz * k) src)
  Stores-blkio h g x k src aligned enough new other =
      rw aligned (Stores-sectors (view at h) (view at g) x k src enough new other)

  pub Wrote-after :
      (src : List ℕ) (n written total : ℕ) (h g : Handle Os) (out : ℕ × Handle Os)
      → n ≤ length src
      → total ≡ written + n
      → g.fp.offset ≡ h.fp.offset + n
      → g.fp.hiwater ≡ h.fp.hiwater
      → Stores (view at h) (view at g) h.fp.offset (take n src)
      → Wrote bdos current L F (drop n src) total g out
      → Wrote bdos current L F src written h out
  Wrote-after src n written total h g out le sum moved high first rest =
      let left = length-drop n src in
      let end : g.fp.offset + length (drop n src) ≡ h.fp.offset + length src =
        omega (arith, left) in
      record {
        ret = omega (arith, rest.ret, left, sum);
        offset = rest.offset ∙ end;
        hiwater = rw (← end, ← high) rest.hiwater;
        stores = Stores-take-drop (view at h) (view at g) _ _ _ n src le moved first rest.stores;
        channel = rest.channel;
        label_lt = rest.label_lt;
      }

  pub write_tail-Wrote :
      (x : ℕ) (src : List ℕ) (written : ℕ) (h : Handle Os)
      → IsOpen bdos current L F h
      → IsBelow x h
      → h.fp.flags.dirty ≡ false
      → h.fp.offset ≡ secsiz * x
      → length src < secsiz
      → h.fp.offset + length src < 2 ^ 23
      → written + length src < 2 ^ 16
      → Wrote bdos current L F src written h (write_tail bdos x src written h)
        ⊎ Fails bdos current L F (write_tail bdos x src written h)
  write_tail-Wrote x src written h o below clean aligned small room count =
      elim (Bool-cases (length src == 0)) [
        | inl e ↦ inl (
            tail_empty bdos current L F x src written h o
              (λ d. absurd (false-ne-true (sym clean ∙ d))) ((==_iff _ 0).0 e))
        | inr e ↦
            tail_some bdos current L F x src written h o clean aligned (ground arith) small room
              count
              (λ past.
                sym (view_clean at h x clean)
                ∙ below.beyond x (omega arith)
                    (omega (arith, past-le h.fp below.small (omega arith) past)))
      ]

  pub write_sectors-Wrote :
      (x : ℕ) (src : List ℕ) (written : ℕ) (h : Handle Os)
      → IsOpen bdos current L F h
      → IsBelow x h
      → h.fp.flags.dirty ≡ false
      → h.fp.offset ≡ secsiz * x
      → h.fp.offset + length src < 2 ^ 23
      → written + length src < 2 ^ 16
      → Wrote bdos current L F src written h (write_sectors bdos x src written h)
        ⊎ Fails bdos current L F (write_sectors bdos x src written h)
  unfolding write_sectors
  write_sectors-Wrote x src written h o below clean aligned room count =
      elim (Bool-cases (ltb (length src) secsiz)) [
        | inl e ↦
            simp (e, write_sectors)
              (write_tail-Wrote x src written h o below clean aligned (ground arith) room count)
        | inr e ↦
            let k = length src / secsiz in
            let r = blkio bdos writing h.fp x src k h.os in
            let m =
              blkio-IsWrite bdos current L F h.fp x k src h.os (omega arith) (omega arith) o.few
                o.names in
            let wrap : length src / secsiz % 2 ^ 16 ≡ k = omega arith in
            let bytes : k * secsiz % 2 ^ 16 ≡ secsiz * k = omega arith in
            let next : (x + k) % 2 ^ 16 ≡ x + k = omega arith in
            let sum : (written + secsiz * k) % 2 ^ 16 ≡ written + secsiz * k = omega arith in
            let h1 : Handle Os = record h { fp = record (h.fp) { fcb = r.fcb }; os = r.os } in
            let g : Handle Os = update_fp (move_offset (secsiz * k)) h1 in
            elim (Bool-cases (r.done == k)) [
              | inr f ↦
                  simp (e, wrap, bytes, f, write_sectors)
                    (inr (record { ret = refl; errno = refl }))
              | inl f ↦
                  let done : r.done ≡ k = (==_iff _ k).0 f in
                  let left = length-drop (secsiz * k) src in
                  let first =
                    Stores-blkio h g x k src aligned (omega arith)
                      (λ j lt. view_clean at g (x + j) clean ∙ m.stored j (omega (arith, done)))
                      (λ i out.
                        view_clean at g i clean
                        ∙ m.outside i out
                        ∙ sym (view_clean at h i clean)) in
                  let moved : g.fp.offset ≡ h.fp.offset + secsiz * k = omega arith in
                  let below' : IsBelow (x + k) g = record {
                    small = below.small;
                    beyond = λ i le high.
                        view_clean at g i clean
                        ∙ m.outside i (omega arith)
                        ∙ sym (view_clean at h i clean)
                        ∙ below.beyond i (omega arith) high;
                  } in
                  let o' : IsOpen bdos current L F g = record {
                    few = o.few;
                    names = rw m.user_same m.names;
                    size = o.size;
                  } in
                  let rest =
                    write_tail-Wrote (x + k) (drop (secsiz * k) src) (written + secsiz * k) g o'
                      below' clean (omega arith) (omega (arith, left)) (omega (arith, left))
                      (omega (arith, left)) in
                  simp (e, wrap, bytes, next, sum, f, write_sectors)
                    (either
                      (Wrote-after src (secsiz * k) written (written + secsiz * k) h g _
                        (omega arith) refl moved refl first)
                      rest)
            ]
      ]
