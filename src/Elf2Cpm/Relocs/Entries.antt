-- ===== src/Elf2Cpm/Relocs/Entries.antt =====
-- `load_elf_relocs`: what the recorded relocations are.
use libgloss_cpm68k.Prelude.{
  ℕ, zero, suc, ◌+◌, ◌*◌, ◌/◌, ◌%◌, ◌^◌, ◌<◌, ◌≤◌, ◌≡◌, ◌⊎◌, inl, inr, refl, false, ◌&&◌, ◌||◌,
  List, [], ◌∷◌, ◌++◌, ltb, leb, ◌==◌, length, length-append, ltb-true, ltb-false, arith, dec_lt,
}
use libgloss_cpm68k.Prelude.Words.{add_long}
use libgloss_cpm68k.Elf2Cpm.Outcome.{ok, Gives, Gives-if, Gives->>=, Gives-require, Gives-eq-ok}
use libgloss_cpm68k.Elf2Cpm.Headers.{Section, rela, rel_sym, rel_type, symbol, st_bind}
use libgloss_cpm68k.Elf2Cpm.Input.{Sections, element, elf_section_header, elf_section_data}
use libgloss_cpm68k.Elf2Cpm.Relocs.Order.{IsAscending, is_sorted-IsAscending}
use libgloss_cpm68k.Elf2Cpm.Relocs.{
  Layout, max_relocs, rel_type_data, rel_type_text, rel_type_bss, type_of, target_type,
  record_reloc, apply_type, relocate, relocate_from, load_rela, scan_section, scan_sections,
  is_sorted, load_elf_relocs,
}

-- the number `type` is that of the region of address `target`: text below the size of the text,
-- data from the start of the data to the byte behind its end, and bss for the rest up to the byte
-- behind the bss
pub data IsRegion (l : Layout) (target : ℕ) : ℕ → Type 0 where
  in_text : target < l.text_filesize → IsRegion l target rel_type_text
  in_data :
      l.text_filesize ≤ target
      → l.data_vmaddr ≤ target
      → target ≤ add_long l.data_vmaddr l.data_filesize
      → IsRegion l target rel_type_data
  in_bss :
      l.text_filesize ≤ target
      → (target < l.data_vmaddr) ⊎ (add_long l.data_vmaddr l.data_filesize < target)
      → target ≤ add_long (add_long l.data_vmaddr l.data_filesize) l.bss_memsize
      → IsRegion l target rel_type_bss

-- an element of `rel_data`: the address of a pointer with the number of its target's region
pub record IsEntry (R : ℕ → ℕ → Type 0) (l : Layout) (v : ℕ) : Type 0 where
  pub offset : ℕ
  pub target : ℕ
  pub source : R offset target
  pub clear : type_of offset ≡ 0
  pub region : IsRegion l target (type_of v)
  pub whole : v ≡ offset + type_of v * 2 ^ 28

abbrev pub AllEntries : (ℕ → ℕ → Type 0) → Layout → List ℕ → Type 0
AllEntries R l [] = Unit
AllEntries R l (v ∷ vs) = IsEntry R l v × AllEntries R l vs

pub record IsTable (R : ℕ → ℕ → Type 0) (l : Layout) (rel_data : List ℕ) : Type 0 where
  pub few : length rel_data < max_relocs
  pub entries : AllEntries R l rel_data

not_between : (a b x : ℕ) → (leb a x && leb x b) ≡ false → (x < a) ⊎ (b < x)
not_between a b x h = elim (dec_lt x a) [ yes lt ↦ inl lt | no ge ↦ inr (ground arith) ]

module _ (R : ℕ → ℕ → Type 0) (l : Layout) where
  target_type-IsRegion : (target : ℕ) → Gives (IsRegion l target) (target_type l target)
  unfolding target_type
  target_type-IsRegion target =
      Gives-if (IsRegion l target) (ltb target l.text_filesize) (ok rel_type_text) _
        (λ a. in_text (omega (arith, ltb-true target l.text_filesize a)))
        λ a.
          Gives-if (IsRegion l target)
            (leb l.data_vmaddr target && leb target (add_long l.data_vmaddr l.data_filesize))
            (ok rel_type_data) _
            (λ b.
              in_data (omega (arith, ltb-false target l.text_filesize a)) (ground arith)
                (ground arith))
            λ b.
              Gives-if (IsRegion l target)
                (leb target (add_long (add_long l.data_vmaddr l.data_filesize) l.bss_memsize))
                (ok rel_type_bss) _
                (λ c.
                  in_bss (omega (arith, ltb-false target l.text_filesize a))
                    (not_between l.data_vmaddr (add_long l.data_vmaddr l.data_filesize) target b)
                    (ground arith))
                λ c. tt

  AllEntries-append :
      (vs ws : List ℕ) → AllEntries R l vs → AllEntries R l ws → AllEntries R l (vs ++ ws)
  AllEntries-append [] ws a b = b
  AllEntries-append (v ∷ vs) ws (e, a) b = (e, AllEntries-append vs ws a b)

  region-lt : (target type : ℕ) → IsRegion l target type → type < 4
  region-lt target type (in_text a) = omega arith
  region-lt target type (in_data a b c) = omega arith
  region-lt target type (in_bss a b c) = omega arith

  record_reloc-IsTable :
      (offset target : ℕ) (rel_data : List ℕ)
      → R offset target
      → IsTable R l rel_data
      → Gives (IsTable R l) (record_reloc l offset target rel_data)
  unfolding record_reloc
  record_reloc-IsTable offset target rel_data source t =
      Gives-require (IsTable R l) (ltb (length rel_data + 1) max_relocs) _ _ λ a.
        Gives->>= (IsTable R l) (target_type l target) _ λ type e.
          Gives-require (IsTable R l) (type_of offset == 0) _ _ λ c.
            let r : IsRegion l target type =
              Gives-eq-ok (IsRegion l target) _ type (target_type-IsRegion target) e in
            let small = region-lt target type r in
            let none : type_of offset ≡ 0 = ground arith in
            let same : type_of (offset + type * 2 ^ 28) ≡ type = omega arith in
            record {
              few = omega (
                arith,
                ltb-true (length rel_data + 1) max_relocs a,
                length-append rel_data ((offset + type * 2 ^ 28) ∷ []),
              );
              entries = AllEntries-append rel_data _ t.entries (
                record {
                  source = source;
                  offset = offset;
                  target = target;
                  clear = none;
                  region = rw same r;
                  whole = rw same refl;
                },
                tt,
              );
            }

  apply_type-IsTable :
      (type offset target : ℕ) (rel_data : List ℕ)
      → (type ≡ 1 → R offset target)
      → IsTable R l rel_data
      → Gives (IsTable R l) (apply_type l type offset target rel_data)
  unfolding apply_type
  apply_type-IsTable type offset target rel_data source t =
      Gives-if (IsTable R l) (type == 1) _ _
        (λ e. record_reloc-IsTable offset target rel_data (source (ground arith)) t)
        (λ _. Gives-if (IsTable R l) (type == 4 || type == 0) _ _ (λ _. t) (λ _. tt))

-- relocation number `i` of a section, of type `R_68K_32`, with the value of its symbol
pub record IsReloc (rels symtab : List ℕ) (offset target : ℕ) : Type 0 where
  pub i : ℕ
  pub bytes : List ℕ
  pub symbol_bytes : List ℕ
  pub found : element 12 rels i ≡ ok bytes
  pub symbol_found : element 16 symtab (rel_sym (rela bytes)) ≡ ok symbol_bytes
  pub type_32 : rel_type (rela bytes) ≡ 1
  pub offset_same : offset ≡ (rela bytes).rel_offset
  pub target_same : target ≡ (symbol symbol_bytes).st_value

-- a relocation of a section of the file
pub record IsSource (file : List ℕ) (ss : Sections) (offset target : ℕ) : Type 0 where
  pub index : ℕ
  pub sh : Section
  pub rels : List ℕ
  pub symtab : List ℕ
  pub header : elf_section_header ss index ≡ ok sh
  pub rela_section : sh.sh_type ≡ 4
  pub rels_read : elf_section_data file ss index ≡ ok rels
  pub symtab_read : elf_section_data file ss sh.sh_link ≡ ok symtab
  pub reloc : IsReloc rels symtab offset target

module _ (R : ℕ → ℕ → Type 0) (l : Layout) (rels symtab : List ℕ)
    (source : (offset target : ℕ) → IsReloc rels symtab offset target → R offset target) where
  relocate-IsTable :
      (i : ℕ) (rel_data : List ℕ)
      → IsTable R l rel_data
      → Gives (IsTable R l) (relocate l rels symtab i rel_data)
  unfolding relocate
  relocate-IsTable i rel_data t = Gives->>= (IsTable R l) (element 12 rels i) _ λ r found.
      Gives->>= (IsTable R l) (element 16 symtab (rel_sym (rela r))) _ λ s symbol_found.
        Gives-if (IsTable R l) ((symbol s).st_value == 0 && st_bind (symbol s) == 2) _ _ (λ _. t)
          (λ _.
            apply_type-IsTable R l (rel_type (rela r)) (rela r).rel_offset (symbol s).st_value
              rel_data
              (λ type. source _ _ (record {
                i = i;
                bytes = r;
                symbol_bytes = s;
                found = found;
                symbol_found = symbol_found;
                type_32 = type;
                offset_same = refl;
                target_same = refl;
              }))
              t)

  relocate_from-IsTable :
      (n i : ℕ) (rel_data : List ℕ)
      → IsTable R l rel_data
      → Gives (IsTable R l) (relocate_from l rels symtab n i rel_data)
  unfolding relocate_from
  relocate_from-IsTable zero i rel_data t = t
  relocate_from-IsTable (suc n) i rel_data t =
      Gives->>= (IsTable R l) (relocate l rels symtab i rel_data) _ λ rel_data' e.
        relocate_from-IsTable n (i + 1) rel_data'
          (Gives-eq-ok (IsTable R l) _ rel_data' (relocate-IsTable i rel_data t) e)

module _ (l : Layout) (file : List ℕ) (ss : Sections) where
  load_rela-IsTable :
      (index : ℕ) (sh : Section) (rel_data : List ℕ)
      → elf_section_header ss index ≡ ok sh
      → sh.sh_type ≡ 4
      → IsTable (IsSource file ss) l rel_data
      → Gives (IsTable (IsSource file ss) l) (load_rela file ss l index sh rel_data)
  unfolding load_rela
  load_rela-IsTable index sh rel_data header rela_section t =
      Gives->>= (IsTable (IsSource file ss) l) (elf_section_header ss sh.sh_info) _ λ target _.
        Gives-if (IsTable (IsSource file ss) l) (target.sh_flags / 2 % 2 == 0) _ _ (λ _. t)
          λ _.
            Gives->>= (IsTable (IsSource file ss) l) (elf_section_data file ss index) _
              λ rels rels_read.
                Gives->>= (IsTable (IsSource file ss) l) (elf_section_data file ss sh.sh_link) _
                  λ symtab symtab_read.
                    Gives-require (IsTable (IsSource file ss) l) (ltb 0 sh.sh_entsize) _ _ λ _.
                      relocate_from-IsTable (IsSource file ss) l rels symtab
                        (λ offset target r. record {
                          index = index;
                          sh = sh;
                          rels = rels;
                          symtab = symtab;
                          header = header;
                          rela_section = rela_section;
                          rels_read = rels_read;
                          symtab_read = symtab_read;
                          reloc = r;
                        })
                        (sh.sh_size / sh.sh_entsize) 0 rel_data t

  scan_section-IsTable :
      (index : ℕ) (rel_data : List ℕ)
      → IsTable (IsSource file ss) l rel_data
      → Gives (IsTable (IsSource file ss) l) (scan_section file ss l index rel_data)
  unfolding scan_section
  scan_section-IsTable index rel_data t =
      Gives->>= (IsTable (IsSource file ss) l) (elf_section_header ss index) _ λ sh header.
        Gives-if (IsTable (IsSource file ss) l) (sh.sh_type == 4) _ _
          (λ e. load_rela-IsTable index sh rel_data header (ground arith) t)
          (λ _. Gives-if (IsTable (IsSource file ss) l) (sh.sh_type == 9) _ _ (λ _. tt) (λ _. t))

  scan_sections-IsTable :
      (n index : ℕ) (rel_data : List ℕ)
      → IsTable (IsSource file ss) l rel_data
      → Gives (IsTable (IsSource file ss) l) (scan_sections file ss l n index rel_data)
  unfolding scan_sections
  scan_sections-IsTable zero index rel_data t = t
  scan_sections-IsTable (suc n) index rel_data t =
      Gives->>= (IsTable (IsSource file ss) l) (scan_section file ss l index rel_data) _
        λ rel_data' e. scan_sections-IsTable n (index + 1) rel_data' (
          Gives-eq-ok (IsTable (IsSource file ss) l) _ rel_data'
            (scan_section-IsTable index rel_data t) e)

-- Where `load_elf_relocs` returns, it has recorded fewer than `MAX_RELOCS` relocations. Each is a
-- relocation of the file of type `R_68K_32` with its offset, bits 28 and 29 of which are clear, and
-- with the number of the region that its symbol's value lies in; and the addresses never fall.
pub load_elf_relocs-IsTable :
    (file : List ℕ) (ss : Sections) (l : Layout) (rel_data : List ℕ)
    → load_elf_relocs file ss l ≡ ok rel_data
    → IsTable (IsSource file ss) l rel_data × IsAscending rel_data
unfolding load_elf_relocs
load_elf_relocs-IsTable file ss l rel_data h =
    Gives-eq-ok (λ (vs : List ℕ). IsTable (IsSource file ss) l vs × IsAscending vs) _ rel_data
      (Gives->>= _ (scan_sections file ss l ss.number 0 []) _ λ vs e.
        Gives-require _ (is_sorted vs) _ _ λ o. (
          Gives-eq-ok (IsTable (IsSource file ss) l) _ vs
              (scan_sections-IsTable l file ss ss.number 0 []
                (record { few = omega arith; entries = tt }))
              e,
          is_sorted-IsAscending vs o,
        ))
      h
