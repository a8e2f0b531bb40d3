-- ===== src/Elf2Cpm/Relocs/InBounds.antt =====
-- `load_elf_relocs`: which files it reads without leaving its arrays.
use libgloss_cpm68k.Prelude.{
  ℕ, zero, suc, ◌+◌, ◌*◌, ◌/◌, ◌%◌, ◌<◌, ◌≤◌, ◌≡◌, ◌≢◌, refl, sym, ◌∙◌, Bool, true, false, ◌&&◌,
  ◌||◌, List, [], ltb, leb, ◌==◌, if◌then◌else◌, length, take, drop, arith, ltb-true, ==_iff,
}
use native.Mathlib.Nat.{div-mul-le_self}
use libgloss_cpm68k.Prelude.Words.{add_long}
use libgloss_cpm68k.Elf2Cpm.Outcome.{
  Error, Outcome, ok, failed, stray, ◌>>=◌, ◌>>◌, require, within, >>=-eq-ok, Gives, Gives-if,
  Gives-eq-ok, invalid_section, bad_target,
}
use libgloss_cpm68k.Elf2Cpm.Headers.{Section, section, rela, rel_sym, rel_type, symbol, st_bind}
use libgloss_cpm68k.Elf2Cpm.Input.{Sections, read_at, element, elf_section_header, elf_section_data}
use libgloss_cpm68k.Elf2Cpm.Relocs.{
  Layout, max_relocs, type_of, rel_type_data, rel_type_text, rel_type_bss, target_type,
  record_reloc, apply_type, relocate, relocate_from, load_rela, scan_section, scan_sections,
  is_sorted, load_elf_relocs,
}

-- a chain stays in its arrays if its parts do
module _ {ℓ} {A : Type ℓ} where
  ends->>= {κ} :
      {B : Type κ} (m : Outcome B) (f : B → Outcome A)
      → m ≢ stray
      → ((b : B) → m ≡ ok b → f b ≢ stray)
      → (m >>= f) ≢ stray
  ends->>= (ok b) f p h = h b refl
  ends->>= (failed e) f p h = λ s. cc
  ends->>= stray f p h = absurd (p refl)

  ends-require :
      (t : Bool) (e : Error) (k : Outcome A) → (t ≡ true → k ≢ stray) → (require t e >> k) ≢ stray
  ends-require true e k h = h refl
  ends-require false e k h = λ s. cc

  ends-if :
      (b : Bool) (m k : Outcome A)
      → (b ≡ true → m ≢ stray)
      → k ≢ stray
      → (if b then m else k) ≢ stray
  ends-if true m k p q = p refl
  ends-if false m k p q = q

  ends-ok : (a : A) → ok a ≢ stray
  ends-ok a = λ s. cc

  ends-failed : (e : Error) → let m : Outcome A = failed e in m ≢ stray
  ends-failed e = λ s. cc

ends-read_at : (file : List ℕ) (offset count : ℕ) → read_at file offset count ≢ stray
unfolding read_at
ends-read_at file offset count =
    ends-if (length (take count (drop offset file)) == count) _ _ (λ _. ends-ok _) (ends-failed _)

length-read_at :
    (file : List ℕ) (offset count : ℕ)
    → Gives (λ (s : List ℕ). length s ≡ count) (read_at file offset count)
unfolding read_at
length-read_at file offset count =
    Gives-if (λ (s : List ℕ). length s ≡ count) (length (take count (drop offset file)) == count) _
      _ (λ e. (==_iff _ count).0 e) (λ _. tt)

ends-element :
    (size : ℕ) (bytes : List ℕ) (i : ℕ)
    → size * i + size ≤ length bytes
    → element size bytes i ≢ stray
unfolding element
ends-element size bytes i h =
    let t : leb (size * i + size) (length bytes) ≡ true = ground arith in rw t (ends-ok _)

within-true : (t : Bool) (u : Unit {0}) → within t ≡ ok u → t ≡ true
within-true true u h = refl
within-true false u h = cc

require-true : (t : Bool) (e : Error) (u : Unit {0}) → require t e ≡ ok u → t ≡ true
require-true true e u h = refl
require-true false e u h = cc

-- an element that was read is in the array
pub element_inside :
    (size : ℕ) (bytes : List ℕ) (i : ℕ) (r : List ℕ)
    → element size bytes i ≡ ok r
    → size * i + size ≤ length bytes
unfolding element
element_inside size bytes i r h =
    let (u, e, _) = >>=-eq-ok (within (leb (size * i + size) (length bytes))) _ h in
    let t = within-true (leb (size * i + size) (length bytes)) u e in ground arith

pub header_inside :
    (ss : Sections) (index : ℕ) (sh : Section)
    → elf_section_header ss index ≡ ok sh
    → index < ss.number
unfolding elf_section_header
header_inside ss index sh h =
    let (u, e, _) = >>=-eq-ok (require (ltb index ss.number) invalid_section) _ h in
    ltb-true index ss.number (require-true (ltb index ss.number) invalid_section u e)

twelve_each : (q d n : ℕ) → 12 ≤ d → q * d ≤ n → 12 * q ≤ n
twelve_each q d n le h = grind arith

-- the table of sections has all of them
module _ (file : List ℕ) (ss : Sections) (table : length ss.bytes ≡ 40 * ss.number) where
  ends-elf_section_header : (index : ℕ) → elf_section_header ss index ≢ stray
  unfolding elf_section_header
  ends-elf_section_header index = ends-require (ltb index ss.number) _ _ λ t.
      let lt = ltb-true index ss.number t in
      ends->>= (element 40 ss.bytes index) _ (ends-element 40 ss.bytes index (omega arith))
        (λ b _. ends-ok _)

  ends-elf_section_data : (index : ℕ) → index < ss.number → elf_section_data file ss index ≢ stray
  unfolding elf_section_data
  ends-elf_section_data index lt =
      ends->>= (element 40 ss.bytes index) _ (ends-element 40 ss.bytes index (omega arith))
        (λ b _. ends-read_at file _ _)

  length-elf_section_data :
      (index : ℕ) (sh : Section) (d : List ℕ)
      → elf_section_header ss index ≡ ok sh
      → elf_section_data file ss index ≡ ok d
      → length d ≡ sh.sh_size
  unfolding elf_section_header elf_section_data
  length-elf_section_data index sh d h e =
      let (b, f, e1) = >>=-eq-ok (element 40 ss.bytes index) _ e in
      let (u, _, h1) = >>=-eq-ok (require (ltb index ss.number) invalid_section) _ h in
      let (b', f', h2) = >>=-eq-ok (element 40 ss.bytes index) _ h1 in
      let same : ok b ≡ ok b' = sym f ∙ f' in
      let size =
        Gives-eq-ok (λ (t : List ℕ). length t ≡ (section b).sh_size) _ d
          (length-read_at file (section b).sh_offset (section b).sh_size) e1 in
      cc

  -- a section of relocations: it is linked to a section, its entries have at least 12 bytes, and the
  -- symbols of its relocations are in the section that it is linked to
  pub record IsLinked (index : ℕ) (sh : Section) : Type 0 where
    pub link : sh.sh_link < ss.number
    pub entries : 12 ≤ sh.sh_entsize
    pub symbols :
        (rels symtab r : List ℕ) (i : ℕ)
        → elf_section_data file ss index ≡ ok rels
        → elf_section_data file ss sh.sh_link ≡ ok symtab
        → element 12 rels i ≡ ok r
        → 16 * rel_sym (rela r) + 16 ≤ length symtab

  module _ (l : Layout) where
    ends-target_type : (target : ℕ) → target_type l target ≢ stray
    unfolding target_type
    ends-target_type target =
        let data_end = add_long l.data_vmaddr l.data_filesize in
        ends-if (ltb target l.text_filesize) (ok rel_type_text) _ (λ _. ends-ok rel_type_text)
          (ends-if (leb l.data_vmaddr target && leb target data_end) (ok rel_type_data) _
            (λ _. ends-ok rel_type_data)
            (ends-if (leb target (add_long data_end l.bss_memsize)) (ok rel_type_bss)
              (failed bad_target) (λ _. ends-ok rel_type_bss) (ends-failed bad_target)))

    ends-apply_type :
        (type offset target : ℕ) (rel_data : List ℕ)
        → apply_type l type offset target rel_data ≢ stray
    unfolding apply_type record_reloc
    ends-apply_type type offset target rel_data =
        ends-if (type == 1) _ _
          (λ _. ends-require (ltb (length rel_data + 1) max_relocs) _ _ λ _.
            ends->>= (target_type l target) _ (ends-target_type target)
              λ t _. ends-require (type_of offset == 0) _ _ λ _. ends-ok _)
          (ends-if (type == 4 || type == 0) _ _ (λ _. ends-ok _) (ends-failed _))

    ends-relocate_from :
        (rels symtab : List ℕ) (n i : ℕ) (rel_data : List ℕ)
        → 12 * (i + n) ≤ length rels
        → ((r : List ℕ) (j : ℕ)
            → element 12 rels j ≡ ok r
            → 16 * rel_sym (rela r) + 16 ≤ length symtab)
        → relocate_from l rels symtab n i rel_data ≢ stray
    unfolding relocate_from relocate
    ends-relocate_from rels symtab zero i rel_data room found = ends-ok _
    ends-relocate_from rels symtab (suc n) i rel_data room found =
        ends->>= (relocate l rels symtab i rel_data) _
          (ends->>= (element 12 rels i) _ (ends-element 12 rels i (omega arith)) λ r e.
            ends->>= (element 16 symtab (rel_sym (rela r))) _
              (ends-element 16 symtab (rel_sym (rela r)) (found r i e))
              λ s _.
                ends-if ((symbol s).st_value == 0 && st_bind (symbol s) == 2) _ _ (λ _. ends-ok _)
                  (ends-apply_type (rel_type (rela r)) (rela r).rel_offset (symbol s).st_value
                    rel_data))
          (λ rel_data' _. ends-relocate_from rels symtab n (i + 1) rel_data' (omega arith) found)

    ends-load_rela :
        (index : ℕ) (sh : Section) (rel_data : List ℕ)
        → index < ss.number
        → elf_section_header ss index ≡ ok sh
        → IsLinked index sh
        → load_rela file ss l index sh rel_data ≢ stray
    unfolding load_rela
    ends-load_rela index sh rel_data lt header linked =
        ends->>= (elf_section_header ss sh.sh_info) _ (ends-elf_section_header sh.sh_info)
          λ target _.
            ends-if (target.sh_flags / 2 % 2 == 0) _ _ (λ _. ends-ok _)
              (ends->>= (elf_section_data file ss index) _ (ends-elf_section_data index lt)
                λ rels a.
                  ends->>= (elf_section_data file ss sh.sh_link) _
                    (ends-elf_section_data sh.sh_link linked.link)
                    λ symtab b. ends-require (ltb 0 sh.sh_entsize) _ _ λ _.
                      ends-relocate_from rels symtab (sh.sh_size / sh.sh_entsize) 0 rel_data
                        (omega (
                          arith,
                          twelve_each (sh.sh_size / sh.sh_entsize) sh.sh_entsize sh.sh_size
                              linked.entries (div-mul-le_self sh.sh_size sh.sh_entsize),
                          length-elf_section_data index sh rels header a,
                        ))
                        (λ r j e. linked.symbols rels symtab r j a b e))

    ends-scan_section :
        (index : ℕ) (rel_data : List ℕ)
        → index < ss.number
        → ((sh : Section)
            → elf_section_header ss index ≡ ok sh
            → sh.sh_type ≡ 4
            → IsLinked index sh)
        → scan_section file ss l index rel_data ≢ stray
    unfolding scan_section
    ends-scan_section index rel_data lt linked =
        ends->>= (elf_section_header ss index) _ (ends-elf_section_header index) λ sh e.
          ends-if (sh.sh_type == 4) _ _
            (λ t. ends-load_rela index sh rel_data lt e (linked sh e ((==_iff _ 4).0 t)))
            (ends-if (sh.sh_type == 9) _ _ (λ _. ends-failed _) (ends-ok _))

    ends-scan_sections :
        (n index : ℕ) (rel_data : List ℕ)
        → index + n ≤ ss.number
        → ((i : ℕ) (sh : Section)
            → elf_section_header ss i ≡ ok sh
            → sh.sh_type ≡ 4
            → IsLinked i sh)
        → scan_sections file ss l n index rel_data ≢ stray
    unfolding scan_sections
    ends-scan_sections zero index rel_data le linked = ends-ok _
    ends-scan_sections (suc n) index rel_data le linked =
        ends->>= (scan_section file ss l index rel_data) _
          (ends-scan_section index rel_data (omega arith) (linked index))
          λ rel_data' _. ends-scan_sections n (index + 1) rel_data' (omega arith) linked

  -- Where the table has all of the sections, and each section of relocations is linked to a section,
  -- has entries of at least 12 bytes, and its relocations' symbols are in the section that it is
  -- linked to, `load_elf_relocs` reads inside of its arrays only, whatever else the file has: it
  -- returns or calls `error`.
  pub load_elf_relocs-ne-stray :
      (l : Layout)
      → ((i : ℕ) (sh : Section) → elf_section_header ss i ≡ ok sh → sh.sh_type ≡ 4 → IsLinked i sh)
      → load_elf_relocs file ss l ≢ stray
  unfolding load_elf_relocs
  load_elf_relocs-ne-stray l linked =
      ends->>= (scan_sections file ss l ss.number 0 []) _
        (ends-scan_sections l ss.number 0 [] (omega arith) linked)
        λ rel_data _. ends-require (is_sorted rel_data) _ _ λ _. ends-ok _
