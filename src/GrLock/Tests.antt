-- ===== src/GrLock/Tests.antt =====
-- Runs of the lock: thread 0 takes X, thread 1 asks for S and waits, thread 2 shares with it.
use c_specx.Base.{ℕ, zero, suc, ◌<◌, ◌≡◌, ◌≢◌, refl, true, arith}
use c_specx.GrLock.{
  compatible, same_mode, lm_x, lm_s, lm_is, gr_lock_init, out, holding, lock_enter, lock_resume,
  gr_unlock, acquire, append_waiter, is_compatible, check_modes, get_parent_mode, lm_ix, LockMode,
}
use c_specx.GrLock.Modes.{get_parent_mode_weaker}
use c_specx.GrLock.System.{update, System, enter, unlock, init, Reach, start, later, held}
use c_specx.GrLock.Waiters.{queued, signal_of}
use c_specx.GrLock.Safety.{
  holders_compatible, exclusive_alone, holder_counts_exact, no_lost_wakeup, waiter_proceeds,
}

abbrev entered : System → ℕ → LockMode → System
entered s i mode = record {
  lock = (lock_enter s.lock i mode).0;
  pc = update s.pc i (lock_enter s.lock i mode).1;
}

abbrev unlocked : System → ℕ → LockMode → System
unlocked s i mode = record { lock = gr_unlock s.lock mode; pc = update s.pc i out }

-- Thread 0 holds X and thread 1 waits for S.
abbrev one_waits : System
one_waits = entered (entered init 0 lm_x) 1 lm_s

-- Then thread 0 lets go.
abbrev one_woken : System
one_woken = unlocked one_waits 0 lm_x

-- Threads 0 and 2 hold S and IS.
abbrev shared : System
shared = entered (entered init 0 lm_s) 2 lm_is

one_waits-Reach : Reach 3 one_waits
unfolding lock_enter gr_lock_init is_compatible check_modes compatible acquire append_waiter
    same_mode
one_waits-Reach =
    later (later start (enter 0 lm_x (omega arith) refl)) (enter 1 lm_s (omega arith) refl)

one_woken-Reach : Reach 3 one_woken
unfolding lock_enter gr_lock_init is_compatible check_modes compatible acquire append_waiter
    same_mode
one_woken-Reach = later one_waits-Reach (unlock 0 lm_x (omega arith) refl)

shared-Reach : Reach 3 shared
unfolding lock_enter gr_lock_init is_compatible check_modes compatible acquire append_waiter
    same_mode
shared-Reach =
    later (later start (enter 0 lm_s (omega arith) refl)) (enter 2 lm_is (omega arith) refl)

holders_compatible_example : compatible lm_s lm_is ≡ true
unfolding lock_enter gr_lock_init is_compatible check_modes compatible acquire append_waiter
    same_mode
holders_compatible_example =
    holders_compatible 3 shared 0 2 lm_s lm_is shared-Reach (omega arith) (omega arith)
      (omega arith) refl refl

exclusive_alone_example : one_waits.pc 1 ≢ holding lm_s
unfolding lock_enter gr_lock_init is_compatible check_modes compatible acquire append_waiter
    same_mode
exclusive_alone_example =
    exclusive_alone 3 one_waits 0 1 lm_s one_waits-Reach (omega arith) (omega arith) (omega arith)
      refl

holder_counts_exact_example : one_waits.lock.holder_counts lm_x ≡ held lm_x 3 one_waits.pc
holder_counts_exact_example = holder_counts_exact 3 one_waits lm_x one_waits-Reach

no_lost_wakeup_example :
    (queued 1 one_woken.lock.waiters ≡ true)
    × (is_compatible one_woken.lock lm_s ≡ true → signal_of 1 one_woken.lock.waiters ≡ true)
unfolding lock_enter gr_lock_init is_compatible check_modes compatible acquire append_waiter
    same_mode
no_lost_wakeup_example = no_lost_wakeup 3 one_woken 1 lm_s one_woken-Reach (omega arith) refl

none_holds : (j : ℕ) (b : LockMode) → j < 3 → one_woken.pc j ≢ holding b
unfolding lock_enter gr_lock_init is_compatible check_modes compatible acquire append_waiter
    same_mode
none_holds zero b h = λ e. cc
none_holds (suc zero) b h = λ e. cc
none_holds (suc (suc zero)) b h = λ e. cc
none_holds (suc (suc (suc j))) b h = absurd (omega arith)

waiter_proceeds_example :
    (signal_of 1 one_woken.lock.waiters ≡ true)
    × ((lock_resume one_woken.lock 1 lm_s).1 ≡ holding lm_s)
unfolding lock_enter gr_lock_init is_compatible check_modes compatible acquire append_waiter
    same_mode
waiter_proceeds_example =
    waiter_proceeds 3 one_woken 1 lm_s one_woken-Reach (omega arith) refl none_holds

get_parent_mode_weaker_example :
    (compatible (get_parent_mode lm_s) lm_is ≡ true)
    × (compatible (get_parent_mode lm_s) (get_parent_mode lm_ix) ≡ true)
    × (compatible lm_s lm_is ≡ true → compatible (get_parent_mode lm_s) lm_is ≡ true)
get_parent_mode_weaker_example = (
  (get_parent_mode_weaker lm_s lm_is).0,
  (get_parent_mode_weaker lm_s lm_ix).1,
  (get_parent_mode_weaker lm_s lm_is).2,
)
