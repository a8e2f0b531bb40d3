-- ===== src/Elf2Cpm/Relocs/Order.antt =====
-- The last loop of `load_elf_relocs`: the addresses of the recorded relocations never fall.
use libgloss_cpm68k.Prelude.{
  ℕ, zero, suc, ◌<◌, ◌≤◌, ◌≡◌, refl, true, List, [], ◌∷◌, length, get_or, arith,
}
use libgloss_cpm68k.Elf2Cpm.Relocs.{addr_of, in_order, is_sorted}

-- the addresses never fall
abbrev pub IsAscending : List ℕ → Type 0
IsAscending vs =
    (i j : ℕ) → i ≤ j → j < length vs → addr_of (get_or vs i 0) ≤ addr_of (get_or vs j 0)

in_order_parts :
    (prev v : ℕ) (vs : List ℕ)
    → in_order prev (v ∷ vs) ≡ true
    → (prev ≤ addr_of v) × (in_order (addr_of v) vs ≡ true)
unfolding in_order
in_order_parts prev v vs h = ground arith

is_sorted_tail : (v : ℕ) (vs : List ℕ) → is_sorted (v ∷ vs) ≡ true → is_sorted vs ≡ true
unfolding is_sorted
is_sorted_tail v [] h = refl
is_sorted_tail v (w ∷ vs) h = let (a, b) = in_order_parts (addr_of v) w vs h in b

in_order-le :
    (prev : ℕ) (vs : List ℕ)
    → in_order prev vs ≡ true
    → (j : ℕ) → j < length vs
    → prev ≤ addr_of (get_or vs j 0)
unfolding in_order
in_order-le prev [] h j lt = elim lt [ ]
in_order-le prev (v ∷ vs) h zero lt = let (a, b) = in_order_parts prev v vs h in a
in_order-le prev (v ∷ vs) h (suc j) lt =
    let (a, b) = in_order_parts prev v vs h in
    let rest = in_order-le (addr_of v) vs b j (omega arith) in omega arith

pub is_sorted-IsAscending : (vs : List ℕ) → is_sorted vs ≡ true → IsAscending vs
unfolding is_sorted
is_sorted-IsAscending [] h i j le lt = elim lt [ ]
is_sorted-IsAscending (v ∷ vs) h zero zero le lt = omega arith
is_sorted-IsAscending (v ∷ vs) h zero (suc j) le lt = in_order-le (addr_of v) vs h j (omega arith)
is_sorted-IsAscending (v ∷ vs) h (suc i) zero le lt = elim le [ ]
is_sorted-IsAscending (v ∷ vs) h (suc i) (suc j) le lt =
    is_sorted-IsAscending vs (is_sorted_tail v vs h) i j (omega arith) (omega arith)
