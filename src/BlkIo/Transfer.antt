-- ===== src/BlkIo/Transfer.antt =====
-- What `_blkio` transfers, for a BDOS that keeps the laws of Bdos/Laws.antt.
use libgloss_cpm68k.Prelude.{
  ℕ, zero, suc, ◌+◌, ◌*◌, ◌%◌, ◌^◌, ◌≤◌, ◌<◌, ◌≡◌, ◌≢◌, refl, inl, inr, false, List, [], ◌∷◌, ◌++◌,
  Option, none, some, arith, ◌==◌, length, take, drop, Option-cases, append_assoc, drop-drop, ◌∙◌,
  ap,
}
use mathlib.Core.Path.{fun_ext}
use libgloss_cpm68k.Prelude.Words.{add_long}
use libgloss_cpm68k.Bdos.{Bdos, Fcb, Reply, b_read, secsiz}
use libgloss_cpm68k.Bdos.Laws.{UserLaws, FileLaws}
use libgloss_cpm68k.State.{Ccb}
use libgloss_cpm68k.User.{chkuser, word_of_byte}
use libgloss_cpm68k.User.Restore.{
  effective, current-chkuser, current-uchkuser, at-chkuser, at-uchkuser,
}
use libgloss_cpm68k.BlkIo.{Direction, reading, request, Moved, after_sector, transfer, blkio}

-- the records from `n` on, `k` of them or up to the first that is missing
unfoldable pub leading : (ℕ → Option (List ℕ)) → ℕ → ℕ → List (List ℕ)
leading at n zero = []
leading at n (suc k) =
    let rest = leading at (n + 1) k in elim (at n) [ none ↦ [] | some s ↦ s ∷ rest ]

pub leading_absent : (at : ℕ → Option (List ℕ)) (n k : ℕ) → at n ≡ none → leading at n (suc k) ≡ []
unfolding leading
leading_absent at n k e = rw (e, leading)

pub leading_present :
    (at : ℕ → Option (List ℕ)) (n k : ℕ) (s : List ℕ)
    → at n ≡ some s
    → leading at n (suc k) ≡ s ∷ leading at (n + 1) k
unfolding leading
leading_present at n k s e = rw (e, leading)

unfoldable pub concat : List (List ℕ) → List ℕ
concat [] = []
concat (s ∷ ss) = s ++ concat ss

module _ {Os : Type 0} (bdos : Bdos Os) where
  -- the machine and the reply after one call
  abbrev pub call : Direction → Fcb → ℕ → List ℕ → Os → Reply × Os
  call d f n memory os = bdos (request d (record f { recno = n }) (take secsiz memory)) os

  pub transfer_done :
      (d : Direction) (k n : ℕ) (f : Fcb) (memory : List ℕ) (os : Os)
      → (call d f n memory os).0.result ≡ 0
      → transfer bdos d (suc k) f n memory os
        ≡ after_sector (call d f n memory os).0.memory (
            transfer bdos d k
              (call d f n memory os).0.fcb
              (add_long n 1)
              (drop secsiz memory)
              (call d f n memory os).1)
  unfolding transfer
  transfer_done d k n f memory os e = rw e

  pub transfer_failed :
      (d : Direction) (k n : ℕ) (f : Fcb) (memory : List ℕ) (os : Os)
      → (call d f n memory os).0.result ≢ 0
      → transfer bdos d (suc k) f n memory os ≡ record {
        done = 0;
        fcb = (call d f n memory os).0.fcb;
        memory = (call d f n memory os).0.memory ++ drop secsiz memory;
        os = (call d f n memory os).1;
      }
  unfolding transfer
  transfer_failed d k n f memory os e =
      let t : ((call d f n memory os).0.result == 0) ≡ false = ground arith in rw t

module _ {Os : Type 0} (bdos : Bdos Os) (current : Os → ℕ) (L : UserLaws bdos current)
    {Names : ℕ → Fcb → Type 0} {at : Os → ℕ → Option (List ℕ)}
    (F : FileLaws bdos current Names at) where
  -- the outcome `m` of a read of `k` records from `n` on, out of the state `os`; the FCB still
  -- names the file for user `who`
  pub record IsRead (who n k : ℕ) (memory : List ℕ) (os : Os) (m : Moved Os) : Type 0 where
    pub count : m.done ≡ length (leading (at os) n k)
    pub tail : List ℕ
    pub bytes : m.memory ≡ concat (leading (at os) n k) ++ tail
    pub whole : m.done ≡ k → tail ≡ drop (secsiz * k) memory
    pub keeps : (i : ℕ) → at m.os i ≡ at os i
    pub user_same : current m.os ≡ current os
    pub names : Names who m.fcb

  IsRead-after_sector :
      (n k : ℕ) (memory : List ℕ) (os os1 : Os) (s : List ℕ) (m : Moved Os)
      → at os n ≡ some s
      → at os1 ≡ at os
      → current os1 ≡ current os
      → IsRead (current os1) (n + 1) k (drop secsiz memory) os1 m
      → IsRead (current os) n (suc k) memory os (after_sector s m)
  unfolding concat
  IsRead-after_sector n k memory os os1 s m e kept same r =
      let step = leading_present (at os) n k s e in
      let earlier : m.done ≡ length (leading (at os) (n + 1) k) = rw (← kept) r.count in
      record {
        count = rw step (omega (arith, earlier));
        tail = r.tail;
        bytes = rw step (rw append_assoc (ap (λ t. s ++ t) (rw (← kept) r.bytes)));
        whole = λ z.
            r.whole (omega arith)
            ∙ drop-drop (secsiz * k) secsiz memory
            ∙ ap (λ i. drop i memory) (omega arith);
        keeps = λ i. r.keeps i ∙ ap (λ f. f i) kept;
        user_same = r.user_same ∙ same;
        names = rw (← same) r.names;
      }

  read_fun_keeps :
      (f : Fcb) (m : List ℕ) (os : Os) → Names (current os) f → at (bdos (b_read f m) os).1 ≡ at os
  read_fun_keeps f m os h = fun_ext (λ i. F.read_keeps f m os i h)

  transfer-IsRead_absent :
      (k n : ℕ) (f : Fcb) (memory : List ℕ) (os : Os)
      → n < 2 ^ 24
      → Names (current os) f
      → at os n ≡ none
      → IsRead (current os) n (suc k) memory os (transfer bdos reading (suc k) f n memory os)
  unfolding concat
  transfer-IsRead_absent k n f memory os le h e =
      let g = record f { recno = n } in
      let named : Names (current os) g = F.names_record (current os) n f h in
      let small : n % 2 ^ 24 ≡ n = omega arith in
      let same : current (bdos (b_read g (take secsiz memory)) os).1 ≡ current os =
        L.others (b_read g (take secsiz memory)) os refl in
      rw
        (transfer_failed bdos reading k n f memory os
          (F.read_absent g (take secsiz memory) os named (rw small e)))
        (record {
          count = rw (leading_absent (at os) n k e);
          tail = (bdos (b_read g (take secsiz memory)) os).0.memory ++ drop secsiz memory;
          bytes = rw (leading_absent (at os) n k e);
          whole = λ z. absurd (omega arith);
          keeps = λ i. F.read_keeps g (take secsiz memory) os i named;
          user_same = same;
          names = F.read_names g (take secsiz memory) os named;
        })

  transfer-IsRead :
      (k n : ℕ) (f : Fcb) (memory : List ℕ) (os : Os)
      → n + k ≤ 2 ^ 24
      → Names (current os) f
      → IsRead (current os) n k memory os (transfer bdos reading k f n memory os)
  unfolding concat
  transfer-IsRead zero n f memory os le h =
      unfold transfer leading in
      (record {
        count = refl;
        tail = memory;
        bytes = refl;
        whole = λ _. refl;
        keeps = λ i. refl;
        user_same = refl;
        names = h;
      })
  transfer-IsRead (suc k) n f memory os le h = elim (Option-cases (at os n)) [
    | inl e ↦ transfer-IsRead_absent k n f memory os (omega arith) h e
    | inr (s, e) ↦
        let g = record f { recno = n } in
        let named : Names (current os) g = F.names_record (current os) n f h in
        let os1 = (bdos (b_read g (take secsiz memory)) os).1 in
        let small : n % 2 ^ 24 ≡ n = omega arith in
        let (zero_result, read) = F.read_present g (take secsiz memory) os s named (rw small e) in
        let same : current os1 ≡ current os = L.others (b_read g (take secsiz memory)) os refl in
        let next : add_long n 1 ≡ n + 1 = omega arith in
        rw (transfer_done bdos reading k n f memory os zero_result, read, next)
          (IsRead-after_sector n k memory os os1 s _ e
            (read_fun_keeps g (take secsiz memory) os named) same
            (transfer-IsRead k (n + 1) _ (drop secsiz memory) os1 (omega arith)
              (rw same (F.read_names g (take secsiz memory) os named))))
  ]

  -- `_blkio` reads the leading run of the records asked for that the file holds: it returns their
  -- number, puts their bytes one after the other at the buffer (the rest of the buffer stays if all
  -- were read), leaves the file, and restores the user number. The record numbers are below 2 ^ 24,
  -- the user byte is at most 16, and the FCB names the file for that user.
  pub blkio-IsRead :
      (c : Ccb) (n k : ℕ) (memory : List ℕ) (os : Os)
      → n + k ≤ 2 ^ 24
      → word_of_byte c.user ≤ 16
      → Names (effective bdos current L (word_of_byte c.user) os) c.fcb
      → IsRead
          (effective bdos current L (word_of_byte c.user) os)
          n
          k
          memory
          os
          (blkio bdos reading c n memory k os)
  unfolding blkio
  blkio-IsRead c n k memory os le few h =
      let u : ℕ = word_of_byte c.user in
      let os1 : Os = (chkuser bdos u os).1 in
      let who : current os1 ≡ effective bdos current L u os =
        current-chkuser bdos current L u os few in
      let kept : at os1 ≡ at os = fun_ext (at-chkuser bdos current L F u os) in
      let r : IsRead (current os1) n k memory os1 (transfer bdos reading k c.fcb n memory os1) =
        transfer-IsRead k n c.fcb memory os1 le (rw who h) in
      record {
        count = rw (← kept) r.count;
        tail = r.tail;
        bytes = rw (← kept) r.bytes;
        whole = r.whole;
        keeps = λ i. at-uchkuser bdos current L F u _ _ i ∙ r.keeps i ∙ ap (λ f. f i) kept;
        user_same = current-uchkuser bdos current L u os _ few (r.user_same ∙ who);
        names = rw (← who) r.names;
      }
