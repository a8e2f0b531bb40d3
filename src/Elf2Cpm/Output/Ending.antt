-- ===== src/Elf2Cpm/Output/Ending.antt =====
-- A chain of writes that came to its end.
use libgloss_cpm68k.Prelude.{◌≡◌, refl, ap, ℕ, List}
use libgloss_cpm68k.Elf2Cpm.Outcome.{Outcome, ok, failed, stray, ◌>>=◌}
use libgloss_cpm68k.Elf2Cpm.Output.{Written, wrote, complete, go_on, ◌>+◌}

-- a writing that came to its end
pub complete-eq-ok : (w : Written) (out : List ℕ) → complete w ≡ ok out → w ≡ wrote out
complete-eq-ok w out h = ended w.ended w.out h
  where
    ended :
        (e : Outcome (Unit {0})) (t : List ℕ)
        → (e >>= λ _. ok t) ≡ ok out
        → (let v : Written = record { out = t; ended = e } in v) ≡ wrote out
    ended stray t h = cc
    ended (failed why) t h = cc
    ended (ok _) t h = let same : t ≡ out = cc in ap wrote same

-- the writes of a chain that came to its end
pub go_on_parts :
    (a b : Written) (out : List ℕ)
    → complete (a >+ b) ≡ ok out
    → (s t : List ℕ) × (complete a ≡ ok s) × (complete b ≡ ok t)
go_on_parts a b out h = ended a.ended b.ended h
  where
    ended :
        (e f : Outcome (Unit {0}))
        → complete (go_on a.out e (record { out = b.out; ended = f })) ≡ ok out
        → (s t : List ℕ) × ((e >>= λ _. ok a.out) ≡ ok s) × ((f >>= λ _. ok b.out) ≡ ok t)
    ended stray f h = cc
    ended (failed why) f h = cc
    ended (ok _) stray h = cc
    ended (ok _) (failed why) h = cc
    ended (ok _) (ok _) h = (a.out, b.out, refl, refl)
