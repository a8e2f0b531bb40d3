-- ===== src/WriteBin/Stored.antt =====
-- A file as records of 128 bytes, its bytes, and what it is to store bytes in it.
use libgloss_cpm68k.Prelude.{
  ℕ, ◌+◌, ◌*◌, ◌-◌, ◌/◌, ◌%◌, ◌≤◌, ◌<◌, ◌≡◌, ◌≢◌, ◌⊎◌, refl, sym, ap, ◌∙◌, inl, inr, Option, none,
  some, List, ◌++◌, length, take, drop, get_elem?, get_elem?-take, get_elem?-drop,
  get_elem?-append_left, get_elem?-append_right, get_elem?-some, length-append, length-take,
  length-drop, take-append-drop, Option-cases, arith, dec_lt, Bool-cases, ==_iff, ==_false, ◌==◌,
}
use libgloss_cpm68k.Bdos.{secsiz}
use libgloss_cpm68k.WriteBin.{overlay}

abbrev pub Records : Type 0
Records = ℕ → Option (List ℕ)

abbrev pub byte_of : Option (List ℕ) → ℕ → Option ℕ
byte_of none i = none
byte_of (some s) i = get_elem? s i

-- byte `p` of the file, if its record is there
abbrev pub byte_at : Records → ℕ → Option ℕ
byte_at file p = byte_of (file (p / secsiz)) (p % secsiz)

-- `after` is `before` with `src` stored from byte `offset` on: the bytes of `src` are there, every
-- other byte that was there still is, and records apart from them are the same
pub record Stores (before after : Records) (offset : ℕ) (src : List ℕ) : Type 0 where
  pub bytes : (i : ℕ) → i < length src → byte_at after (offset + i) ≡ get_elem? src i
  pub kept :
      (p b : ℕ)
      → (p < offset) ⊎ (offset + length src ≤ p)
      → byte_at before p ≡ some b
      → byte_at after p ≡ some b
  pub apart :
      (m : ℕ)
      → (secsiz * m + secsiz ≤ offset) ⊎ (offset + length src ≤ secsiz * m)
      → after m ≡ before m

-- the bytes of a buffer with `src` moved to `pos`
overlay_inside :
    (pos i : ℕ) (src buffer : List ℕ)
    → pos + length src ≤ length buffer
    → i < length src
    → get_elem? (overlay pos src buffer) (pos + i) ≡ get_elem? src i
unfolding overlay
overlay_inside pos i src buffer room h =
    get_elem?-append_right (pos + i) i (take pos buffer) _ (omega (arith, length-take pos buffer))
    ∙ get_elem?-append_left i src _ h

overlay_outside :
    (pos j : ℕ) (src buffer : List ℕ)
    → pos + length src ≤ length buffer
    → (j < pos) ⊎ (pos + length src ≤ j)
    → get_elem? (overlay pos src buffer) j ≡ get_elem? buffer j
unfolding overlay
overlay_outside pos j src buffer room (inl h) =
    get_elem?-append_left j (take pos buffer) _ (omega (arith, length-take pos buffer))
    ∙ get_elem?-take pos j buffer h
overlay_outside pos j src buffer room (inr h) =
    let r = j - (pos + length src) in
    let e : pos + length src + r ≡ j = omega arith in
    get_elem?-append_right j (length src + r) (take pos buffer) _
      (omega (arith, length-take pos buffer))
    ∙ get_elem?-append_right (length src + r) r src _ refl
    ∙ get_elem?-drop (pos + length src) r buffer
    ∙ ap (λ (k : ℕ). get_elem? buffer k) e

pub length-overlay :
    (pos : ℕ) (src buffer : List ℕ)
    → pos + length src ≤ length buffer
    → length (overlay pos src buffer) ≡ length buffer
unfolding overlay
length-overlay pos src buffer room = omega (
  arith,
  length-append (take pos buffer) (src ++ drop (pos + length src) buffer),
  length-append src (drop (pos + length src) buffer),
  length-take pos buffer,
  length-drop (pos + length src) buffer,
)

pub Stores-nothing :
    (before after : Records) (offset : ℕ) (src : List ℕ)
    → length src ≡ 0
    → ((m : ℕ) → after m ≡ before m)
    → Stores before after offset src
Stores-nothing before after offset src h same = record {
  bytes = λ i lt. absurd (omega (arith, h));
  kept = λ p b _ e. ap (λ (o : Option (List ℕ)). byte_of o (p % secsiz)) (same (p / secsiz)) ∙ e;
  apart = λ m _. same m;
}

pub Stores-append :
    (before between after : Records) (offset next : ℕ) (xs ys : List ℕ)
    → next ≡ offset + length xs
    → Stores before between offset xs
    → Stores between after next ys
    → Stores before after offset (xs ++ ys)
Stores-append before between after offset next xs ys n a b = record {
  bytes = λ i lt. elim (dec_lt i (length xs)) [
    | yes l ↦
        let (v, e) = get_elem?-some i xs l in
        b.kept (offset + i) v (omega (arith, n)) (a.bytes i l ∙ e)
        ∙ sym e
        ∙ sym (get_elem?-append_left i xs ys l)
    | no g ↦
        let r = i - length xs in
        let e : offset + i ≡ next + r = omega (arith, n) in
        ap (λ (p : ℕ). byte_at after p) e
        ∙ b.bytes r (omega (arith, length-append xs ys))
        ∙ sym (get_elem?-append_right i r xs ys (omega arith))
  ];
  kept = λ p v out e.
      b.kept p v (omega (arith, length-append xs ys, n, out))
        (a.kept p v (omega (arith, length-append xs ys, n, out)) e);
  apart = λ m out.
      b.apart m (omega (arith, length-append xs ys, n, out))
      ∙ a.apart m (omega (arith, length-append xs ys, n, out));
}

-- a byte of record `n`
pub byte_in :
    (file : Records) (p n j : ℕ) (s : List ℕ)
    → p ≡ secsiz * n + j
    → j < secsiz
    → file n ≡ some s
    → byte_at file p ≡ get_elem? s j
byte_in file p n j s h lt e =
    let a : p / secsiz ≡ n = omega arith in
    let b : p % secsiz ≡ j = omega arith in rw (a, b, e) refl

pub record_of :
    (file : Records) (p b : ℕ)
    → byte_at file p ≡ some b
    → (s : List ℕ) × (file (p / secsiz) ≡ some s) × (get_elem? s (p % secsiz) ≡ some b)
record_of file p b h = elim (Option-cases (file (p / secsiz))) [
  | inl e ↦
      let gone : byte_at file p ≡ none = ap (λ (o : Option (List ℕ)). byte_of o (p % secsiz)) e in
      cc
  | inr (s, e) ↦ (s, e, ap (λ (o : Option (List ℕ)). byte_of o (p % secsiz)) (sym e) ∙ h)
]

-- bytes moved into one record, through a buffer that holds it if it was there
pub Stores-record :
    (before after : Records) (n pos : ℕ) (src buffer : List ℕ)
    → secsiz ≤ length buffer
    → 0 < length src
    → pos + length src ≤ secsiz
    → ((s : List ℕ) → before n ≡ some s → s ≡ take secsiz buffer)
    → after n ≡ some (take secsiz (overlay pos src buffer))
    → ((m : ℕ) → m ≢ n → after m ≡ before m)
    → Stores before after (secsiz * n + pos) src
Stores-record before after n pos src buffer size some_bytes room old new other = record {
  bytes = λ i lt.
      byte_in after _ n (pos + i) _ (omega arith) (omega arith) new
      ∙ get_elem?-take secsiz (pos + i) (overlay pos src buffer) (omega arith)
      ∙ overlay_inside pos i src buffer (omega arith) lt;
  kept = λ p b out e. elim (Bool-cases (p / secsiz == n)) [
    | inl same ↦
        let here : p / secsiz ≡ n = (==_iff _ n).0 same in
        let (s, there, v) = record_of before p b e in
        let whole : s ≡ take secsiz buffer = old s (rw (← here) there) in
        byte_in after p n (p % secsiz) _ (omega arith) (omega arith) new
        ∙ get_elem?-take secsiz (p % secsiz) (overlay pos src buffer) (omega arith)
        ∙ overlay_outside pos (p % secsiz) src buffer (omega arith) (omega arith)
        ∙ sym (get_elem?-take secsiz (p % secsiz) buffer (omega arith))
        ∙ ap (λ (t : List ℕ). get_elem? t (p % secsiz)) (sym whole)
        ∙ v
    | inr differs ↦
        ap (λ (o : Option (List ℕ)). byte_of o (p % secsiz))
          (other (p / secsiz) (==_false _ n differs))
        ∙ e
  ];
  apart = λ m out. other m (omega (arith, out));
}

-- whole records
pub Stores-sectors :
    (before after : Records) (n k : ℕ) (src : List ℕ)
    → secsiz * k ≤ length src
    → ((j : ℕ) → j < k → after (n + j) ≡ some (take secsiz (drop (secsiz * j) src)))
    → ((m : ℕ) → (m < n) ⊎ (n + k ≤ m) → after m ≡ before m)
    → Stores before after (secsiz * n) (take (secsiz * k) src)
Stores-sectors before after n k src enough new other =
    let size : length (take (secsiz * k) src) ≡ secsiz * k =
      omega (arith, length-take (secsiz * k) src) in
    record {
      bytes = λ i lt.
          let j = i / secsiz in
          let index : secsiz * j + i % secsiz ≡ i = omega arith in
          byte_in after _ (n + j) (i % secsiz) _ (omega arith) (omega arith) (new j (omega arith))
          ∙ get_elem?-take secsiz (i % secsiz) (drop (secsiz * j) src) (omega arith)
          ∙ get_elem?-drop (secsiz * j) (i % secsiz) src
          ∙ ap (λ (t : ℕ). get_elem? src t) index
          ∙ sym (get_elem?-take (secsiz * k) i src (omega arith));
      kept = λ p b out e.
          ap (λ (o : Option (List ℕ)). byte_of o (p % secsiz))
            (other (p / secsiz) (omega (arith, out, size)))
          ∙ e;
      apart = λ m out. other m (omega (arith, out, size));
    }

pub Stores-take-drop :
    (before between after : Records) (offset next n : ℕ) (src : List ℕ)
    → n ≤ length src
    → next ≡ offset + n
    → Stores before between offset (take n src)
    → Stores between after next (drop n src)
    → Stores before after offset src
Stores-take-drop before between after offset next n src le e a b =
    let s : Stores before after offset (take n src ++ drop n src) =
      Stores-append before between after offset next (take n src) (drop n src)
        (omega (arith, length-take n src)) a b in
    let same : take n src ++ drop n src ≡ src = take-append-drop n src in rw (← same) s

pub Stores-same :
    (before before' after : Records) (offset offset' : ℕ) (src : List ℕ)
    → before ≡ before'
    → offset ≡ offset'
    → Stores before after offset src
    → Stores before' after offset' src
Stores-same before before' after offset offset' src e f s = rw (← e, ← f) s
