-- ===== src/BlkIo/Store.antt =====
-- What `_blkio` stores, for a BDOS that keeps the laws of Bdos/Laws.antt.
use libgloss_cpm68k.Prelude.{
  ℕ, zero, suc, ◌+◌, ◌*◌, ◌%◌, ◌^◌, ◌≤◌, ◌<◌, ◌≡◌, ◌≢◌, ◌⊎◌, refl, inl, inr, List, Option, some,
  arith, ◌==◌, length, take, drop, Bool-cases, ==_iff, ==_false, length-take, length-drop,
  drop-drop, take-append-drop, ◌∙◌, ap,
}
use libgloss_cpm68k.Prelude.Words.{add_long}
use libgloss_cpm68k.Bdos.{Bdos, Fcb, b_write, secsiz}
use libgloss_cpm68k.Bdos.Laws.{UserLaws, FileLaws}
use libgloss_cpm68k.State.{Ccb}
use libgloss_cpm68k.User.{chkuser, word_of_byte}
use libgloss_cpm68k.User.Restore.{
  effective, current-chkuser, current-uchkuser, at-chkuser, at-uchkuser,
}
use libgloss_cpm68k.BlkIo.{writing, Moved, after_sector, transfer, blkio}
use libgloss_cpm68k.BlkIo.Transfer.{transfer_done, transfer_failed}

-- the `j`th sector of a stretch of memory
abbrev pub chunk : ℕ → List ℕ → List ℕ
chunk j memory = take secsiz (drop (secsiz * j) memory)

module _ {Os : Type 0} (bdos : Bdos Os) (current : Os → ℕ) (L : UserLaws bdos current)
    {Names : ℕ → Fcb → Type 0} {at : Os → ℕ → Option (List ℕ)}
    (F : FileLaws bdos current Names at) where
  -- the outcome `m` of a write of `k` records from `n` on, out of the state `os`
  pub record IsWrite (who n k : ℕ) (memory : List ℕ) (os : Os) (m : Moved Os) : Type 0 where
    pub bound : m.done ≤ k
    pub stored : (j : ℕ) → j < m.done → at m.os (n + j) ≡ some (chunk j memory)
    pub outside : (i : ℕ) → (i < n) ⊎ (n + k ≤ i) → at m.os i ≡ at os i
    pub same_memory : m.memory ≡ memory
    pub user_same : current m.os ≡ current os
    pub names : Names who m.fcb

  IsWrite-after_sector :
      (n k : ℕ) (memory : List ℕ) (os os1 : Os) (s : List ℕ) (m : Moved Os)
      → s ≡ take secsiz memory
      → at os1 n ≡ some s
      → ((i : ℕ) → i ≢ n → at os1 i ≡ at os i)
      → current os1 ≡ current os
      → IsWrite (current os1) (n + 1) k (drop secsiz memory) os1 m
      → IsWrite (current os) n (suc k) memory os (after_sector s m)
  IsWrite-after_sector n k memory os os1 s m cut here else_same same r = record {
    bound = omega (arith, r.bound);
    stored = at_chunk;
    outside = λ i out. r.outside i (omega arith) ∙ else_same i (omega arith);
    same_memory = rw (r.same_memory, cut) (take-append-drop secsiz memory);
    user_same = r.user_same ∙ same;
    names = rw (← same) r.names;
  }
    where
      at_chunk : (j : ℕ) → j < m.done + 1 → at m.os (n + j) ≡ some (chunk j memory)
      at_chunk zero lt =
          let e : n + 0 ≡ n = omega arith in rw e (r.outside n (omega arith) ∙ here ∙ ap some cut)
      at_chunk (suc j) lt =
          let e : n + suc j ≡ n + 1 + j = omega arith in
          let d : secsiz + secsiz * j ≡ secsiz * suc j = omega arith in
          rw e (
            r.stored j (omega arith)
            ∙ ap (λ (t : List ℕ). some (take secsiz t))
                (drop-drop (secsiz * j) secsiz memory ∙ ap (λ (t : ℕ). drop t memory) d))

  transfer-IsWrite :
      (k n : ℕ) (f : Fcb) (memory : List ℕ) (os : Os)
      → n + k ≤ 2 ^ 24
      → secsiz * k ≤ length memory
      → Names (current os) f
      → IsWrite (current os) n k memory os (transfer bdos writing k f n memory os)
  transfer-IsWrite zero n f memory os le len h =
      unfold transfer in
      (record {
        bound = omega arith;
        stored = λ j lt. elim lt [ ];
        outside = λ i _. refl;
        same_memory = refl;
        user_same = refl;
        names = h;
      })
  transfer-IsWrite (suc k) n f memory os le len h =
      let g = record f { recno = n } in
      let s = take secsiz memory in
      let named : Names (current os) g = F.names_record (current os) n f h in
      let os1 = (bdos (b_write g s) os).1 in
      let small : n % 2 ^ 24 ≡ n = omega arith in
      let cut : length s ≡ secsiz = omega (arith, length-take secsiz memory) in
      let same : current os1 ≡ current os = L.others (b_write g s) os refl in
      let next : add_long n 1 ≡ n + 1 = omega arith in
      let other : (i : ℕ) → i ≢ n → at os1 i ≡ at os i =
        λ i ne. F.write_other g s os i named (rw small ne) in
      elim (Bool-cases ((bdos (b_write g s) os).0.result == 0)) [
        | inl z ↦
            let done : (bdos (b_write g s) os).0.result ≡ 0 = (==_iff _ 0).0 z in
            rw (transfer_done bdos writing k n f memory os done, next)
              (IsWrite-after_sector n k memory os os1 _ _ (F.write_memory g s os)
                (rw F.write_memory (rw small at (F.write_stored g s os named cut done))) other same
                (transfer-IsWrite k (n + 1) _ (drop secsiz memory) os1 (omega arith)
                  (omega (arith, length-drop secsiz memory))
                  (rw same (F.write_names g s os named))))
        | inr z ↦ rw (transfer_failed bdos writing k n f memory os (==_false _ 0 z)) (record {
          bound = omega arith;
          stored = λ j lt. elim lt [ ];
          outside = λ i out. other i (omega arith);
          same_memory = rw F.write_memory (take-append-drop secsiz memory);
          user_same = same;
          names = F.write_names g s os named;
        })
      ]

  -- `_blkio` writes sectors of the buffer to consecutive records: those it counts as done hold
  -- their bytes, no record outside of the range changes, the buffer stays, and the user number is
  -- restored. The record numbers are below 2 ^ 24, the buffer has the sectors, the user byte is at
  -- most 16, and the FCB names the file for that user.
  pub blkio-IsWrite :
      (c : Ccb) (n k : ℕ) (memory : List ℕ) (os : Os)
      → n + k ≤ 2 ^ 24
      → secsiz * k ≤ length memory
      → word_of_byte c.user ≤ 16
      → Names (effective bdos current L (word_of_byte c.user) os) c.fcb
      → IsWrite
          (effective bdos current L (word_of_byte c.user) os)
          n
          k
          memory
          os
          (blkio bdos writing c n memory k os)
  unfolding blkio
  blkio-IsWrite c n k memory os le len few h =
      let u : ℕ = word_of_byte c.user in
      let os1 : Os = (chkuser bdos u os).1 in
      let who : current os1 ≡ effective bdos current L u os =
        current-chkuser bdos current L u os few in
      let r : IsWrite (current os1) n k memory os1 (transfer bdos writing k c.fcb n memory os1) =
        transfer-IsWrite k n c.fcb memory os1 le len (rw who h) in
      record {
        bound = r.bound;
        stored = λ j lt. at-uchkuser bdos current L F u _ _ (n + j) ∙ r.stored j lt;
        outside = λ i out.
            at-uchkuser bdos current L F u _ _ i
            ∙ r.outside i out
            ∙ at-chkuser bdos current L F u os i;
        same_memory = r.same_memory;
        user_same = current-uchkuser bdos current L u os _ few (r.user_same ∙ who);
        names = rw (← who) r.names;
      }
