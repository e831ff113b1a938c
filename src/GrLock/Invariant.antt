-- ===== src/GrLock/Invariant.antt =====
-- What holds in every reachable state: the counters count the holders, whose modes go together, and
-- the list of waiters is that of the waiting threads, with no signal lost.
use c_specx.Base.{
  ℕ, zero, suc, ◌+◌, ◌<◌, ◌≤◌, ◌≡◌, ◌≢◌, refl, ap, sym, inl, inr, true, if◌then◌else◌, arith,
  le_or_lt, ◌-◌,
}
use c_specx.GrLock.{
  LockMode, compatible, same_mode, GrLock, gr_lock_init, Pc, out, holding, is_compatible,
}
use c_specx.GrLock.Modes.{compatible_comm, same_mode_refl, is_compatible_held}
use c_specx.GrLock.System.{update, weight, held}

held-update_of_le :
    (m : LockMode) (n : ℕ) (pc : ℕ → Pc) (i : ℕ) (p : Pc)
    → n ≤ i
    → held m n (update pc i p) ≡ held m n pc
unfolding held
held-update_of_le m zero pc i p h = refl
held-update_of_le m (suc n) pc i p h = ground (arith, held-update_of_le m n pc i p)

held-update :
    (m : LockMode) (n : ℕ) (pc : ℕ → Pc) (i : ℕ) (p : Pc)
    → i < n
    → held m n (update pc i p) + weight m (pc i) ≡ held m n pc + weight m p
unfolding held
held-update m zero pc i p h = absurd (omega arith)
held-update m (suc n) pc i p h = elim (le_or_lt n i) [
  | inl last ↦ ground (arith, held-update_of_le m n pc i p)
  | inr below ↦ ground (arith, held-update m n pc i p)
]

weight-le-held :
    (m : LockMode) (n : ℕ) (pc : ℕ → Pc) (i : ℕ) → i < n → weight m (pc i) ≤ held m n pc
unfolding held
weight-le-held m zero pc i h = absurd (omega arith)
weight-le-held m (suc n) pc i h = elim (le_or_lt n i) [
  | inl last ↦ let e : i ≡ n = omega arith in rw e (omega arith)
  | inr below ↦ omega (arith, weight-le-held m n pc i below)
]

-- The counters count the holders, and the modes of two holders go together.
pub record Granted (n : ℕ) (l : GrLock) (pc : ℕ → Pc) : Type 0 where
  pub counted : (m : LockMode) → l.holder_counts m ≡ held m n pc
  pub together :
      (i j : ℕ) (a b : LockMode)
      → i < n
      → j < n
      → i ≢ j
      → pc i ≡ holding a
      → pc j ≡ holding b
      → compatible a b ≡ true

held-init : (m : LockMode) (n : ℕ) → held m n (λ i. out) ≡ 0
unfolding held
held-init m zero = refl
held-init m (suc n) = omega (arith, held-init m n)

pub init-Granted : (n : ℕ) → Granted n gr_lock_init (λ i. out)
unfolding gr_lock_init
init-Granted n = record {
  counted = λ m. sym (held-init m n);
  together = λ i j a b hi hj ne p q. cc;
}

weight-holding : (m : LockMode) {p : Pc} → p ≡ holding m → weight m p ≡ 1
weight-holding m e = rw (e, same_mode_refl m) refl

-- A mode that `is_compatible` lets in goes with the mode of every holder.
holder-compatible :
    (n : ℕ) (l : GrLock) (pc : ℕ → Pc) (mode : LockMode)
    → Granted n l pc
    → is_compatible l mode ≡ true
    → (j : ℕ) (b : LockMode) → j < n
    → pc j ≡ holding b
    → compatible mode b ≡ true
holder-compatible n l pc mode g fits j b hj e =
    is_compatible_held l mode b fits
      (omega (arith, g.counted b, weight-le-held b n pc j hj, weight-holding b e))

-- The new holder of a mode that `is_compatible` lets in.
pub Granted-acquire :
    (n : ℕ) (l l' : GrLock) (pc : ℕ → Pc) (i : ℕ) (mode : LockMode)
    → Granted n l pc
    → i < n
    → ((m : LockMode) → weight m (pc i) ≡ 0)
    → is_compatible l mode ≡ true
    → ((m : LockMode)
        → l'.holder_counts m ≡ l.holder_counts m + (if same_mode m mode then 1 else 0))
    → Granted n l' (update pc i (holding mode))
Granted-acquire n l l' pc i mode g lt idle fits counts = record {
  counted =
      λ m. omega (arith, counts m, g.counted m, idle m, held-update m n pc i (holding mode) lt);
  together = λ j k a b hj hk ne p q. ground (
    arith,
    holder-compatible n l pc mode g fits j a hj,
    holder-compatible n l pc mode g fits k b hk,
    compatible_comm a b,
    g.together j k a b hj hk ne,
  );
}

-- A thread that holds nothing before and after, over the same counters.
pub Granted-idle :
    (n : ℕ) (l l' : GrLock) (pc : ℕ → Pc) (i : ℕ) (p : Pc)
    → Granted n l pc
    → i < n
    → ((m : LockMode) → weight m (pc i) ≡ 0)
    → ((m : LockMode) → weight m p ≡ 0)
    → ((m : LockMode) → p ≢ holding m)
    → ((m : LockMode) → l'.holder_counts m ≡ l.holder_counts m)
    → Granted n l' (update pc i p)
Granted-idle n l l' pc i p g lt before after idle counts = record {
  counted = λ m. omega (arith, counts m, g.counted m, before m, after m, held-update m n pc i p lt);
  together = λ j k a b hj hk ne q r. ground (arith, idle a, idle b, g.together j k a b hj hk ne);
}

-- A holder that lets go.
pub Granted-release :
    (n : ℕ) (l l' : GrLock) (pc : ℕ → Pc) (i : ℕ) (mode : LockMode)
    → Granted n l pc
    → i < n
    → pc i ≡ holding mode
    → ((m : LockMode)
        → l'.holder_counts m ≡ l.holder_counts m - (if same_mode m mode then 1 else 0))
    → Granted n l' (update pc i out)
Granted-release n l l' pc i mode g lt e counts = record {
  counted = λ m. omega (arith, counts m, g.counted m, ap (weight m) e, held-update m n pc i out lt);
  together = λ j k a b hj hk ne p q. ground (arith, g.together j k a b hj hk ne);
}
