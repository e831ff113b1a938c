-- ===== src/GrLock/Safety.antt =====
-- The theorems of the lock: what holds in every reachable state of the threads.
use c_specx.Base.{ℕ, zero, suc, ◌<◌, ◌≡◌, ◌≢◌, refl, true, arith}
use c_specx.GrLock.{
  LockMode, compatible, lm_x, Pc, out, waiting, holding, lock_resume, is_compatible,
}
use c_specx.GrLock.System.{System, Reach, weight, held}
use c_specx.GrLock.Modes.{is_compatible_free}
use c_specx.GrLock.Waiters.{queued, signal_of, signal_of_ready}
use c_specx.GrLock.Steps.{Reach-Inv}

-- In every state that the threads reach, in any interleaving of their calls, two threads that hold
-- the lock hold modes that the table lets go together.
pub holders_compatible :
    (n : ℕ) (s : System) (i j : ℕ) (a b : LockMode)
    → Reach n s
    → i < n
    → j < n
    → i ≢ j
    → s.pc i ≡ holding a
    → s.pc j ≡ holding b
    → compatible a b ≡ true
holders_compatible n s i j a b r hi hj ne p q =
    (Reach-Inv n r).granted.together i j a b hi hj ne p q

-- In every reachable state a thread that holds mode X is the only holder.
pub exclusive_alone :
    (n : ℕ) (s : System) (i j : ℕ) (b : LockMode)
    → Reach n s
    → i < n
    → j < n
    → i ≢ j
    → s.pc i ≡ holding lm_x
    → s.pc j ≢ holding b
unfolding compatible
exclusive_alone n s i j b r hi hj ne p q =
    ground (arith, holders_compatible n s i j lm_x b r hi hj ne p q)

-- In every reachable state the counter of a mode is the number of the threads that hold it.
pub holder_counts_exact :
    (n : ℕ) (s : System) (m : LockMode) → Reach n s → s.lock.holder_counts m ≡ held m n s.pc
holder_counts_exact n s m r = (Reach-Inv n r).granted.counted m

-- No wake-up is lost: in every reachable state a thread that waits in `gr_lock` is in the list of
-- waiters, and if its mode goes with all that is held its condition variable has been signalled
-- since it last began to wait.
pub no_lost_wakeup :
    (n : ℕ) (s : System) (i : ℕ) (mode : LockMode)
    → Reach n s
    → i < n
    → s.pc i ≡ waiting mode
    → (queued i s.lock.waiters ≡ true)
      × (is_compatible s.lock mode ≡ true → signal_of i s.lock.waiters ≡ true)
no_lost_wakeup n s i mode r lt e =
    let q = (Reach-Inv n r).in_line in
    let line = q.listed i mode lt e in
    (line, λ fits. signal_of_ready s.lock s.pc i mode s.lock.waiters q.known line e fits)

none_held :
    (m : LockMode) (n : ℕ) (pc : ℕ → Pc)
    → ((j : ℕ) (b : LockMode) → j < n → pc j ≢ holding b)
    → held m n pc ≡ 0
unfolding held
none_held m zero pc h = refl
none_held m (suc n) pc h = omega (
  arith,
  none_held m n pc (λ j b lt. h j b (omega arith)),
  idle (pc n) (λ b. h n b (omega arith)),
)
  where
    idle : (p : Pc) → ((b : LockMode) → p ≢ holding b) → weight m p ≡ 0
    idle out h = refl
    idle (waiting _) h = refl
    idle (holding b) h = absurd (h b refl)

-- In a reachable state where no thread holds the lock, a thread that waits has been signalled, and
-- when it runs it gets its mode.
pub waiter_proceeds :
    (n : ℕ) (s : System) (i : ℕ) (mode : LockMode)
    → Reach n s
    → i < n
    → s.pc i ≡ waiting mode
    → ((j : ℕ) (b : LockMode) → j < n → s.pc j ≢ holding b)
    → (signal_of i s.lock.waiters ≡ true) × ((lock_resume s.lock i mode).1 ≡ holding mode)
unfolding lock_resume
waiter_proceeds n s i mode r lt e none =
    let fits =
      is_compatible_free s.lock mode
        (λ m. omega (arith, holder_counts_exact n s m r, none_held m n s.pc none)) in
    ((no_lost_wakeup n s i mode r lt e).1 fits, rw fits refl)
