-- ===== src/GrLock.antt =====
-- The multi-granularity lock of src/concurrency/gr_lock.c. Each function holds `l->mutex` from its
-- start to its end, `i_cond_wait` apart, so what it does between is one step here. A thread is a
-- number, and stands for the waiter on its stack. The mutex and the condition variables are
-- library calls: a waiter has a flag that tells whether it was signalled.
use c_specx.Base.{
  ℕ, ◌+◌, ◌-◌, Bool, true, false, not, ◌&&◌, List, [], ◌∷◌, ltb, ◌==◌, if◌then◌else◌,
}
use mathlib.Core.Path.{◌≡◌}
pub mod Modes
pub mod System
pub mod Invariant
pub mod Waiters
pub mod Line
pub mod Steps
pub mod Safety
mod Tests

-- `enum lock_mode`, without the count LM_COUNT.
pub data LockMode : Type 0 where
  lm_is lm_ix lm_s lm_six lm_x : LockMode

-- The table `compatible`: the row is the mode asked for, the column a mode held.
unfoldable pub compatible : LockMode → LockMode → Bool
compatible lm_is lm_x = false
compatible lm_is _ = true
compatible lm_ix lm_is = true
compatible lm_ix lm_ix = true
compatible lm_ix _ = false
compatible lm_s lm_is = true
compatible lm_s lm_s = true
compatible lm_s _ = false
compatible lm_six lm_is = true
compatible lm_six _ = false
compatible lm_x _ = false

-- `i == j` on modes, which are numbers in the source.
unfoldable pub same_mode : LockMode → LockMode → Bool
same_mode lm_is lm_is = true
same_mode lm_ix lm_ix = true
same_mode lm_s lm_s = true
same_mode lm_six lm_six = true
same_mode lm_x lm_x = true
same_mode _ _ = false

-- `struct gr_lock_waiter`; its place in the list stands for `prev` and `next`.
pub record Waiter : Type 0 where
  pub thread : ℕ
  pub mode : LockMode
  pub signalled : Bool

pub record GrLock : Type 0 where
  pub holder_counts : LockMode → ℕ
  pub waiters : List Waiter

unfoldable pub gr_lock_init : GrLock
gr_lock_init = record { holder_counts = λ m. 0; waiters = [] }

-- The loop of `is_compatible` over the modes.
unfoldable pub check_modes : GrLock → LockMode → List LockMode → Bool
check_modes l mode [] = true
check_modes l mode (i ∷ is) =
    let rest = check_modes l mode is in
    if ltb 0 (l.holder_counts i) && not (compatible mode i) then false else rest

abbrev pub all_modes : List LockMode
all_modes = lm_is ∷ lm_ix ∷ lm_s ∷ lm_six ∷ lm_x ∷ []

unfoldable pub is_compatible : GrLock → LockMode → Bool
is_compatible l mode = check_modes l mode all_modes

-- `i_cond_signal` for each waiter that could go on.
unfoldable pub signal_all : GrLock → List Waiter → List Waiter
signal_all l [] = []
signal_all l (w ∷ ws) =
    (if is_compatible l w.mode then record w { signalled = true } else w) ∷ signal_all l ws

unfoldable pub wake_waiters : GrLock → GrLock
wake_waiters l = record l { waiters = signal_all l l.waiters }

-- `gr_lock_waiter_append_unsafe` walks to the end of the list.
unfoldable pub append_waiter : List Waiter → Waiter → List Waiter
append_waiter [] w = w ∷ []
append_waiter (v ∷ vs) w = v ∷ append_waiter vs w

-- `gr_lock_waiter_remove_unsafe`: the waiter of a thread is one object.
unfoldable pub remove_waiter : List Waiter → ℕ → List Waiter
remove_waiter [] i = []
remove_waiter (v ∷ vs) i = let rest = remove_waiter vs i in if v.thread == i then rest else v ∷ rest

-- A return of `i_cond_wait` uses up the signal.
unfoldable pub clear_signal : List Waiter → ℕ → List Waiter
clear_signal [] i = []
clear_signal (v ∷ vs) i =
    (if v.thread == i then record v { signalled = false } else v) ∷ clear_signal vs i

-- `holder_counts[mode]++` and `holder_counts[mode]--`
unfoldable pub acquire : GrLock → LockMode → GrLock
acquire l mode = record l {
  holder_counts = λ m. if same_mode m mode then l.holder_counts m + 1 else l.holder_counts m;
}

unfoldable pub release : GrLock → LockMode → GrLock
release l mode = record l {
  holder_counts = λ m. if same_mode m mode then l.holder_counts m - 1 else l.holder_counts m;
}

-- Where a thread stands in `gr_lock`.
pub data Pc : Type 0 where
  out : Pc
  waiting : LockMode → Pc
  holding : LockMode → Pc

-- `gr_lock` up to its return or to its first `i_cond_wait`.
unfoldable pub lock_enter : GrLock → ℕ → LockMode → GrLock × Pc
lock_enter l i mode = if is_compatible l mode then (acquire l mode, holding mode) else (
  record l {
    waiters = append_waiter l.waiters (record { thread = i; mode = mode; signalled = false });
  },
  waiting mode,
)

-- `gr_lock` from a return of `i_cond_wait`, signalled or not, to the next one or to its return.
unfoldable pub lock_resume : GrLock → ℕ → LockMode → GrLock × Pc
lock_resume l i mode =
    if is_compatible l mode
    then (acquire (record l { waiters = remove_waiter l.waiters i }) mode, holding mode)
    else (record l { waiters = clear_signal l.waiters i }, waiting mode)

-- `gr_trylock`; `free` tells whether `i_mutex_try_lock` got the mutex.
unfoldable pub gr_trylock : GrLock → Bool → LockMode → GrLock × Bool
gr_trylock l free mode =
    if free
    then (if is_compatible l mode then (acquire l mode, true) else (l, false))
    else (l, false)

unfoldable pub gr_unlock : GrLock → LockMode → GrLock
gr_unlock l mode = let l' = release l mode in elim l'.waiters [ [] ↦ l' | _ ↦ wake_waiters l' ]

unfoldable pub get_parent_mode : LockMode → LockMode
get_parent_mode lm_is = lm_is
get_parent_mode lm_s = lm_is
get_parent_mode lm_ix = lm_ix
get_parent_mode lm_six = lm_ix
get_parent_mode lm_x = lm_ix
