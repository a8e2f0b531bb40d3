-- ===== src/User/Restore.antt =====
-- `_chkuser` selects the channel's user, and `_uchkuser` restores the caller's.
use libgloss_cpm68k.Prelude.{ℕ, ◌+◌, ◌-◌, ◌%◌, ◌≤◌, ◌≡◌, Option, List, arith, ◌==◌, if◌then◌else◌}
use libgloss_cpm68k.Bdos.{Bdos, Fcb, user}
use libgloss_cpm68k.Bdos.Laws.{UserLaws, FileLaws}
use libgloss_cpm68k.User.{chkuser, uchkuser}

module _ {Os : Type 0} (bdos : Bdos Os) (current : Os → ℕ) (L : UserLaws bdos current) where
  -- the user whose files a channel with user byte `u` has
  abbrev pub effective : ℕ → Os → ℕ
  effective u os = if u == 0 then current os else u - 1

  pub current-chkuser : (u : ℕ) (os : Os) → u ≤ 16 → current (chkuser bdos u os).1 ≡ effective u os
  unfolding chkuser
  current-chkuser u os h =
      ground (
        arith,
        L.range os,
        L.get_user os,
        L.get_keeps os,
        L.set_user (u - 1) (bdos (user 0xff) os).1,
      )

  -- After a call under the channel's user, `_uchkuser` makes the caller's user current again. The
  -- user byte is at most 16, and the call left the user that was selected.
  pub current-uchkuser :
      (u : ℕ) (os os' : Os)
      → u ≤ 16
      → current os' ≡ effective u os
      → current (uchkuser bdos u (chkuser bdos u os).0 os') ≡ current os
  unfolding chkuser uchkuser
  current-uchkuser u os os' h e =
      ground (arith, L.range os, L.get_user os, L.get_keeps os, L.set_user (current os) os')

  module _ {Names : ℕ → Fcb → Type 0} {at : Os → ℕ → Option (List ℕ)}
      (F : FileLaws bdos current Names at) where
    pub at-chkuser : (u : ℕ) (os : Os) (i : ℕ) → at (chkuser bdos u os).1 i ≡ at os i
    unfolding chkuser
    at-chkuser u os i = ground (
      arith,
      F.user_keeps 0xff os i,
      F.user_keeps ((u + 65535) % 65536) (bdos (user 0xff) os).1 i,
    )

    pub at-uchkuser : (u p : ℕ) (os : Os) (i : ℕ) → at (uchkuser bdos u p os) i ≡ at os i
    unfolding uchkuser
    at-uchkuser u p os i = ground (arith, F.user_keeps ((p + 65535) % 65536) os i)
