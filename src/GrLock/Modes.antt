-- ===== src/GrLock/Modes.antt =====
-- The table of compatible modes and the test `is_compatible`.
use c_specx.Base.{◌<◌, ◌≤◌, ◌≡◌, refl, true, List, [], ◌∷◌, arith}
use c_specx.GrLock.{
  LockMode, lm_is, lm_ix, lm_s, lm_six, lm_x, compatible, same_mode, GrLock, check_modes,
  is_compatible, all_modes, get_parent_mode,
}

-- A request is granted beside a holder exactly if it would be the other way round.
pub compatible_comm : (a b : LockMode) → compatible a b ≡ compatible b a
unfolding compatible
compatible_comm a b = ground arith

pub same_mode_refl : (m : LockMode) → same_mode m m ≡ true
unfolding same_mode
same_mode_refl m = ground arith

pub same_mode→eq : (a b : LockMode) → same_mode a b ≡ true → a ≡ b
unfolding same_mode
same_mode→eq a b h = ground arith

-- `is_compatible` tells whether the mode goes with every mode that is held.
pub is_compatible_held :
    (l : GrLock) (mode m : LockMode)
    → is_compatible l mode ≡ true
    → 0 < l.holder_counts m
    → compatible mode m ≡ true
unfolding is_compatible check_modes compatible
is_compatible_held l lm_is m h held = ground arith
is_compatible_held l mode m h held = ground arith

check_modes_mono :
    (l l' : GrLock) (mode : LockMode) (ms : List LockMode)
    → ((m : LockMode) → l'.holder_counts m ≤ l.holder_counts m)
    → check_modes l mode ms ≡ true
    → check_modes l' mode ms ≡ true
unfolding check_modes
check_modes_mono l l' mode [] le h = refl
check_modes_mono l l' mode (m ∷ ms) le h = ground (arith, le m, check_modes_mono l l' mode ms le)

-- With fewer holders in each mode the test passes more often.
pub is_compatible_mono :
    (l l' : GrLock) (mode : LockMode)
    → ((m : LockMode) → l'.holder_counts m ≤ l.holder_counts m)
    → is_compatible l mode ≡ true
    → is_compatible l' mode ≡ true
unfolding is_compatible
is_compatible_mono l l' mode le h = check_modes_mono l l' mode all_modes le h

-- A lock with no holder grants every mode.
pub is_compatible_free :
    (l : GrLock) (mode : LockMode)
    → ((m : LockMode) → l.holder_counts m ≡ 0)
    → is_compatible l mode ≡ true
unfolding is_compatible check_modes
is_compatible_free l mode e = ground (arith, e lm_is, e lm_ix, e lm_s, e lm_six, e lm_x)

-- The mode that a parent node is locked in lets in the intention modes, and what it keeps out its
-- child's mode keeps out too.
pub get_parent_mode_weaker :
    (m other : LockMode)
    → (compatible (get_parent_mode m) lm_is ≡ true)
      × (compatible (get_parent_mode m) (get_parent_mode other) ≡ true)
      × (compatible m other ≡ true → compatible (get_parent_mode m) other ≡ true)
unfolding get_parent_mode compatible
get_parent_mode_weaker m other = ground arith
