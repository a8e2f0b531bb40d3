-- ===== src/Elf2Cpm/Output/Stream.antt =====
-- `write_cpm_relocs`: the relocation words, and a reading of them as CP/M-68K describes them: one
-- word for each word of the program, where 5 says that a long starts here, and the next word tells
-- to which region it points.
use libgloss_cpm68k.Prelude.{
  ℕ, zero, suc, ◌+◌, ◌-◌, ◌*◌, ◌/◌, ◌%◌, ◌^◌, ◌<◌, ◌≤◌, ◌≡◌, refl, ap, ◌∙◌, true, false, List, [],
  ◌∷◌, ◌++◌, ◌==◌, length, length-append, length-replicate, arith,
}
use libgloss_cpm68k.Prelude.Words.{add_long, sub_long}
use libgloss_cpm68k.Elf2Cpm.Field.{write16}
use libgloss_cpm68k.Elf2Cpm.Relocs.{Layout, addr_of, type_of}
use libgloss_cpm68k.Elf2Cpm.Output.{zerofill, write_reloc, write_relocs_from}

-- the relocations in the words from address `position` on
unfoldable pub relocations : ℕ → List ℕ → List ℕ
relocations position (a ∷ b ∷ c ∷ d ∷ rest) = elim (a * 256 + b == 5) [
  | true ↦ (position + (c * 256 + d) * 2 ^ 28) ∷ relocations (position + 4) rest
  | false ↦ relocations (position + 2) (c ∷ d ∷ rest)
]
relocations position _ = []

-- the relocations lie in order on even addresses from `current` to `end`, and do not overlap
abbrev pub IsSpaced : ℕ → ℕ → List ℕ → Type 0
IsSpaced current end [] = current ≤ end
IsSpaced current end (v ∷ vs) =
    (current ≤ addr_of v) × (addr_of v % 2 ≡ 0) × IsSpaced (addr_of v + 4) end vs

IsSpaced-le : (current end : ℕ) (vs : List ℕ) → IsSpaced current end vs → current ≤ end
IsSpaced-le current end [] h = h
IsSpaced-le current end (v ∷ vs) (a, b, h) =
    let r = IsSpaced-le (addr_of v + 4) end vs h in omega arith

skip_word :
    (position : ℕ) (rest : List ℕ)
    → relocations position (0 ∷ 0 ∷ rest) ≡ relocations (position + 2) rest
unfolding relocations
skip_word position [] = refl
skip_word position (c ∷ []) = refl
skip_word position (c ∷ d ∷ rest) = refl

relocations-zerofill :
    (n position : ℕ) (rest : List ℕ)
    → n % 2 ≡ 0
    → relocations position (zerofill n ++ rest) ≡ relocations (position + n) rest
relocations-zerofill zero position rest h =
    let e : position ≡ position + 0 = omega arith in ap (λ (p : ℕ). relocations p rest) e
relocations-zerofill (suc zero) position rest h = absurd (omega arith)
relocations-zerofill (suc (suc n)) position rest h =
    let e : position + 2 + n ≡ position + suc (suc n) = omega arith in
    skip_word position (zerofill n ++ rest)
    ∙ relocations-zerofill n (position + 2) rest (omega arith)
    ∙ ap (λ (p : ℕ). relocations p rest) e

relocations_padding : (n position : ℕ) → relocations position (zerofill n) ≡ []
unfolding relocations
relocations_padding zero position = refl
relocations_padding (suc zero) position = refl
relocations_padding (suc (suc n)) position =
    skip_word position (zerofill n) ∙ relocations_padding n (position + 2)

relocations-write_reloc :
    (v : ℕ) (rest : List ℕ)
    → relocations (addr_of v) (write_reloc v ++ rest) ≡ v ∷ relocations (addr_of v + 4) rest
unfolding relocations write_reloc write16
relocations-write_reloc v rest =
    let e : addr_of v + (type_of v / 2 ^ 8 % 256 * 256 + type_of v % 256) * 2 ^ 28 ≡ v =
      omega arith in
    ap (λ (u : ℕ). u ∷ relocations (addr_of v + 4) rest) e

-- the words written from address `current` on, with the wrap-around of their addresses gone
write_step :
    (l : Layout) (current v : ℕ) (vs : List ℕ)
    → current ≤ addr_of v
    → addr_of v + 4 < 2 ^ 32
    → write_relocs_from l current (v ∷ vs)
      ≡ zerofill (addr_of v - current) ++ (write_reloc v ++ write_relocs_from l (addr_of v + 4) vs)
unfolding write_relocs_from
write_step l current v vs le lt =
    let e : sub_long (addr_of v) current ≡ addr_of v - current = omega arith in
    let f : add_long (addr_of v) 4 ≡ addr_of v + 4 = omega arith in rw (e, f) refl

-- The words written for relocations that are in order, on even addresses and do not overlap are
-- read back as these relocations.
pub relocations-write_relocs_from :
    (l : Layout) (current : ℕ) (vs : List ℕ)
    → current % 2 ≡ 0
    → l.data_vmaddr + l.data_filesize < 2 ^ 32
    → IsSpaced current (l.data_vmaddr + l.data_filesize) vs
    → relocations current (write_relocs_from l current vs) ≡ vs
unfolding write_relocs_from
relocations-write_relocs_from l current [] even room h = relocations_padding _ current
relocations-write_relocs_from l current (v ∷ vs) even room (le, half, h) =
    let last = IsSpaced-le (addr_of v + 4) (l.data_vmaddr + l.data_filesize) vs h in
    let e : current + (addr_of v - current) ≡ addr_of v = omega arith in
    rw (write_step l current v vs le (omega arith)) (
      relocations-zerofill (addr_of v - current) current
        (write_reloc v ++ write_relocs_from l (addr_of v + 4) vs) (omega arith)
      ∙ ap (λ (p : ℕ). relocations p (write_reloc v ++ write_relocs_from l (addr_of v + 4) vs)) e
      ∙ relocations-write_reloc v (write_relocs_from l (addr_of v + 4) vs)
      ∙ ap (λ (t : List ℕ). v ∷ t)
          (relocations-write_relocs_from l (addr_of v + 4) vs (omega arith) room h))

pub length-write_relocs_from :
    (l : Layout) (current : ℕ) (vs : List ℕ)
    → l.data_vmaddr + l.data_filesize < 2 ^ 32
    → IsSpaced current (l.data_vmaddr + l.data_filesize) vs
    → current + length (write_relocs_from l current vs) ≡ l.data_vmaddr + l.data_filesize
unfolding write_relocs_from write_reloc write16
length-write_relocs_from l current [] room h =
    omega (
      arith,
      length-replicate {A = ℕ} (sub_long (add_long l.data_vmaddr l.data_filesize) current) 0,
    )
length-write_relocs_from l current (v ∷ vs) room (le, half, h) =
    let last = IsSpaced-le (addr_of v + 4) (l.data_vmaddr + l.data_filesize) vs h in
    let rest = length-write_relocs_from l (addr_of v + 4) vs room h in
    let pad =
      length-append (zerofill (addr_of v - current))
        (write_reloc v ++ write_relocs_from l (addr_of v + 4) vs) in
    let zeros = length-replicate {A = ℕ} (addr_of v - current) 0 in
    rw (write_step l current v vs le (omega arith)) (omega (arith, pad, zeros, rest))
