-- ===== src/Seek/Position.antt =====
-- `lseek` and `fstat`: the position that they leave, and what the next read finds.
use libgloss_cpm68k.Prelude.{ℕ, ◌^◌, ◌<◌, ◌≡◌, ◌⊎◌, false, ◌==◌, if◌then◌else◌}
use libgloss_cpm68k.Prelude.Words.{add_long, long_minus_one}
use libgloss_cpm68k.Bdos.{Bdos}
use libgloss_cpm68k.State.{World, getccb}

module _ {Os : Type 0} where
  -- channel `fd` stands at the offset that `lseek` returned, which is -1 or not negative, and is not
  -- at its end
  pub record IsAt (fd : ℕ) (r : ℕ × World Os) : Type 0 where
    pub offset : (getccb r.1 fd).offset ≡ r.0
    pub at_eof : (getccb r.1 fd).flags.at_eof ≡ false
    pub range : (r.0 < 2 ^ 31) ⊎ (r.0 ≡ long_minus_one)

-- the offset that a seek asks for: from the start, from where the channel stands, or from the end
unfoldable pub target : ℕ → ℕ → ℕ → ℕ → ℕ
target sense offs here end =
    if sense == 0 then offs else if sense == 1 then add_long here offs else add_long end offs
