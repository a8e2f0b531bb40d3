-- ===== src/Elf2Cpm/Output/Copying.antt =====
-- `copy_bytes`: the rounds of at most `COPY_BUF` bytes against one read of all of them.
use libgloss_cpm68k.Prelude.{
  ℕ, ◌+◌, ◌-◌, ◌*◌, ◌/◌, ◌<◌, ◌≤◌, ◌≡◌, refl, sym, ap, ◌∙◌, List, [], ◌++◌, ◌==◌, take, drop,
  length, length-take, length-drop, take-add, drop-drop, arith, dec_lt, lt_wf, Acc, true, false,
  dite_ind,
}
use libgloss_cpm68k.Elf2Cpm.Outcome.{Outcome, ok, failed, stray, short_read, ◌>>=◌}
use libgloss_cpm68k.Elf2Cpm.Input.{read_at}
use libgloss_cpm68k.Elf2Cpm.Output.{
  Written, complete, put_read, copy_from, copy_bytes, copy_buf, resid, remaining-lt,
}

-- the bytes are all there, or the first read that misses some ends the program
pub read_at_room :
    (file : List ℕ) (offset count : ℕ)
    → offset + count ≤ length file
    → read_at file offset count ≡ ok (take count (drop offset file))
unfolding read_at
read_at_room file offset count h =
    let e : (length (take count (drop offset file)) == count) ≡ true =
      ground (arith, length-take count (drop offset file), length-drop offset file) in
    rw e refl

pub read_at_short :
    (file : List ℕ) (offset count : ℕ)
    → 0 < count
    → length file < offset + count
    → read_at file offset count ≡ failed short_read
unfolding read_at
read_at_short file offset count p h =
    let e : (length (take count (drop offset file)) == count) ≡ false =
      ground (arith, length-take count (drop offset file), length-drop offset file) in
    rw e refl

read_at-append :
    (file : List ℕ) (offset count n : ℕ)
    → (0 < n) × (n ≤ count)
    → (read_at file offset n >>= λ bytes.
        read_at file (offset + n) (count - n) >>= λ rest. ok (bytes ++ rest))
      ≡ read_at file offset count
read_at-append file offset count n (p, le) = elim (dec_lt (length file) (offset + count)) [
  | no room ↦
      let a = read_at_room file offset n (omega arith) in
      let b = read_at_room file (offset + n) (count - n) (omega arith) in
      let whole : count ≡ n + (count - n) = omega arith in
      rw (a, b, read_at_room file offset count (omega arith), ← drop-drop n offset file)
        (ap (λ (t : List ℕ). ok t)
          (sym (take-add n (count - n) (drop offset file))
            ∙ ap (λ (k : ℕ). take k (drop offset file)) (sym whole)))
  | yes short ↦ elim (dec_lt (length file) (offset + n)) [
    | yes now ↦
        rw (read_at_short file offset n p now, read_at_short file offset count (omega arith) short)
          refl
    | no later ↦
        let a = read_at_room file offset n (omega arith) in
        let b = read_at_short file (offset + n) (count - n) (omega arith) (omega arith) in
        rw (a, b, read_at_short file offset count (omega arith) short) refl
  ]
]

read_at_zero : (file : List ℕ) (offset : ℕ) → ok [] ≡ read_at file offset 0
unfolding read_at
read_at_zero file offset = refl

resid-le : (count : ℕ) → 0 < count → (0 < resid count) × (resid count ≤ count)
resid-le count p = ground arith

complete-put_read :
    (o : Outcome (List ℕ)) (w : Written)
    → complete (put_read o w) ≡ (o >>= λ bytes. complete w >>= λ rest. ok (bytes ++ rest))
complete-put_read stray w = refl
complete-put_read (failed why) w = refl
complete-put_read (ok bytes) w = ended w.ended
  where
    ended :
        (e : Outcome (Unit {0}))
        → (e >>= λ _. ok (bytes ++ w.out)) ≡ ((e >>= λ _. ok w.out) >>= λ rest. ok (bytes ++ rest))
    ended stray = refl
    ended (failed why) = refl
    ended (ok _) = refl

copy_from-read_at :
    (file : List ℕ) (offset count : ℕ) (w : Acc ◌<◌ count)
    → complete (copy_from file offset count w) ≡ read_at file offset count
unfolding copy_from
copy_from-read_at file offset count (Acc.intro _ smaller) =
    dite_ind (λ (o : Written). complete o ≡ read_at file offset count) (dec_lt 0 count)
      (λ p.
        rw
          (
            complete-put_read,
            copy_from-read_at file (offset + resid count) (count - resid count)
                (smaller (count - resid count) (remaining-lt count p)),
          )
          (read_at-append file offset count (resid count) (resid-le count p)))
      (λ none. let zero_count : count ≡ 0 = omega arith in rw zero_count (read_at_zero file offset))

-- Copying in rounds writes what one read of all the bytes gives, and fails exactly where that fails;
-- so every copy ends, whatever its length.
pub copy_bytes-read_at :
    (file : List ℕ) (offset count : ℕ)
    → complete (copy_bytes file offset count) ≡ read_at file offset count
unfolding copy_bytes
copy_bytes-read_at file offset count = copy_from-read_at file offset count (lt_wf.apply count)

-- Bytes that were copied were in the file.
pub copy_bytes_room :
    (file : List ℕ) (offset count : ℕ) (bytes : List ℕ)
    → complete (copy_bytes file offset count) ≡ ok bytes
    → 0 < count
    → offset + count ≤ length file
copy_bytes_room file offset count bytes h p = elim (dec_lt (length file) (offset + count)) [
  | no room ↦ omega arith
  | yes short ↦
      let e = sym (copy_bytes-read_at file offset count) ∙ h in
      let f = read_at_short file offset count p short in cc
]

-- a copy of more than the file has: all whole rounds are written, then the reading fails
unfoldable pub cut_copy : List ℕ → ℕ → Written
cut_copy file offset = record {
  out = take (copy_buf * ((length file - offset) / copy_buf)) (drop offset file);
  ended = failed short_read;
}

copy_from_short :
    (file : List ℕ) (offset count : ℕ) (w : Acc ◌<◌ count)
    → 0 < count
    → length file < offset + count
    → copy_from file offset count w ≡ cut_copy file offset
unfolding copy_from cut_copy
copy_from_short file offset count (Acc.intro _ smaller) p short =
    dite_ind (λ (o : Written). o ≡ cut_copy file offset) (dec_lt 0 count)
      (λ q. elim (dec_lt (length file) (offset + resid count)) [
        | yes now ↦
            let e = read_at_short file offset (resid count) (resid-le count p).0 now in
            let none_whole : copy_buf * ((length file - offset) / copy_buf) ≡ 0 = ground arith in
            rw (e, none_whole) refl
        | no later ↦
            let e = read_at_room file offset (resid count) (omega arith) in
            let full : resid count ≡ copy_buf = ground arith in
            let n = copy_buf * ((length file - (offset + copy_buf)) / copy_buf) in
            let rest =
              copy_from_short file (offset + resid count) (count - resid count)
                (smaller (count - resid count) (remaining-lt count q)) (omega (arith, full))
                (omega (arith, full)) in
            let rounds : copy_buf * ((length file - offset) / copy_buf) ≡ copy_buf + n =
              omega (arith, full) in
            rw (e, rest, full, rounds)
              (ap
                (λ (t : List ℕ).
                  let v : Written = record { out = t; ended = failed short_read } in v)
                (ap (λ (t : List ℕ). take copy_buf (drop offset file) ++ take n t)
                    (sym (drop-drop copy_buf offset file))
                  ∙ sym (take-add copy_buf n (drop offset file))))
      ])
      (λ none. absurd (omega arith))

pub copy_bytes_short :
    (file : List ℕ) (offset count : ℕ)
    → 0 < count
    → length file < offset + count
    → copy_bytes file offset count ≡ cut_copy file offset
unfolding copy_bytes
copy_bytes_short file offset count p short =
    copy_from_short file offset count (lt_wf.apply count) p short
