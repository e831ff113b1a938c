-- ===== src/GrLock/Steps.antt =====
-- Each step of the threads keeps the invariant of the lock.
use c_specx.Base.{
  ℕ, ◌-◌, ◌<◌, ◌≡◌, ◌≢◌, refl, Bool, true, false, Bool-cases, inl, inr, if◌then◌else◌,
}
use c_specx.GrLock.{
  LockMode, same_mode, GrLock, Pc, out, waiting, holding, lock_enter, lock_resume, gr_trylock,
  gr_unlock, acquire, remove_waiter, is_compatible, wake_waiters,
}
use c_specx.GrLock.System.{
  update, System, Step, enter, resume, try, unlock, Reach, start, later, weight,
}
use c_specx.GrLock.Invariant.{Granted, init-Granted, Granted-acquire, Granted-idle, Granted-release}
use c_specx.GrLock.Line.{
  Queued, acquire-counts, release-counts, init-Queued, Queued-acquire, Queued-idle, Queued-join,
  Queued-leave, Queued-wait, Queued-unlock, gr_unlock-eq-wake_waiters,
}

-- The counters count the holders, and the list of waiters is that of the waiting threads.
pub record Inv (n : ℕ) (s : System) : Type 0 where
  pub granted : Granted n s.lock s.pc
  pub in_line : Queued n s.lock s.pc

idle_out : {p : Pc} → p ≡ out → ((m : LockMode) → weight m p ≡ 0) × ((m : LockMode) → p ≢ waiting m)
idle_out e = (λ m. rw e refl, λ m. cc)

idle_waiting : (mode : LockMode) {p : Pc} → p ≡ waiting mode → (m : LockMode) → weight m p ≡ 0
idle_waiting mode e m = rw e refl

-- A call that takes the mode at once.
granted_now :
    (n : ℕ) (s : System) (i : ℕ) (mode : LockMode)
    → Inv n s
    → i < n
    → s.pc i ≡ out
    → is_compatible s.lock mode ≡ true
    → Inv n (record { lock = acquire s.lock mode; pc = update s.pc i (holding mode) })
granted_now n s i mode v lt e fits = record {
  granted =
      Granted-acquire n s.lock (acquire s.lock mode) s.pc i mode v.granted lt (idle_out e).0 fits
        (acquire-counts s.lock mode);
  in_line = Queued-acquire n s.lock s.pc i mode v.in_line (idle_out e).1;
}

enter-Inv :
    (n : ℕ) (s : System) (i : ℕ) (mode : LockMode)
    → Inv n s
    → i < n
    → s.pc i ≡ out
    → Inv n (record {
      lock = (lock_enter s.lock i mode).0;
      pc = update s.pc i (lock_enter s.lock i mode).1;
    })
unfolding lock_enter
enter-Inv n s i mode v lt e = elim (Bool-cases (is_compatible s.lock mode)) [
  | inl fits ↦ rw fits (granted_now n s i mode v lt e fits)
  | inr refused ↦ rw refused (record {
    granted =
        Granted-idle n s.lock _ s.pc i (waiting mode) v.granted lt (idle_out e).0 (λ m. refl)
          (λ m. cc) (λ m. refl);
    in_line = Queued-join n s.lock s.pc i mode v.in_line (idle_out e).1 refused;
  })
]

resume-Inv :
    (n : ℕ) (s : System) (i : ℕ) (mode : LockMode)
    → Inv n s
    → i < n
    → s.pc i ≡ waiting mode
    → Inv n (record {
      lock = (lock_resume s.lock i mode).0;
      pc = update s.pc i (lock_resume s.lock i mode).1;
    })
unfolding lock_resume
resume-Inv n s i mode v lt e =
    let left : GrLock = record s.lock { waiters = remove_waiter s.lock.waiters i } in
    elim (Bool-cases (is_compatible s.lock mode)) [
      | inl fits ↦ rw fits (record {
        granted =
            Granted-acquire n s.lock (acquire left mode) s.pc i mode v.granted lt
              (idle_waiting mode e) fits (acquire-counts left mode);
        in_line = Queued-leave n s.lock s.pc i mode v.in_line;
      })
      | inr refused ↦ rw refused (record {
        granted =
            Granted-idle n s.lock _ s.pc i (waiting mode) v.granted lt (idle_waiting mode e)
              (λ m. refl) (λ m. cc) (λ m. refl);
        in_line = Queued-wait n s.lock s.pc i mode v.in_line e refused;
      })
    ]

-- A call that changes nothing.
idle-Inv :
    (n : ℕ) (s : System) (i : ℕ)
    → Inv n s
    → i < n
    → s.pc i ≡ out
    → Inv n (record { lock = s.lock; pc = update s.pc i out })
idle-Inv n s i v lt e = record {
  granted =
      Granted-idle n s.lock s.lock s.pc i out v.granted lt (idle_out e).0 (λ m. refl) (λ m. cc)
        (λ m. refl);
  in_line = Queued-idle n s.lock s.pc i out v.in_line (idle_out e).1 (λ m. cc);
}

try-Inv :
    (n : ℕ) (s : System) (i : ℕ) (mode : LockMode) (free : Bool)
    → Inv n s
    → i < n
    → s.pc i ≡ out
    → Inv n (record {
      lock = (gr_trylock s.lock free mode).0;
      pc = update s.pc i (if (gr_trylock s.lock free mode).1 then holding mode else out);
    })
unfolding gr_trylock
try-Inv n s i mode false v lt e = idle-Inv n s i v lt e
try-Inv n s i mode true v lt e = elim (Bool-cases (is_compatible s.lock mode)) [
  | inl fits ↦ rw fits (granted_now n s i mode v lt e fits)
  | inr refused ↦ rw refused (idle-Inv n s i v lt e)
]

unlock-counts :
    (l : GrLock) (mode m : LockMode)
    → (gr_unlock l mode).holder_counts m ≡ l.holder_counts m - (if same_mode m mode then 1 else 0)
unfolding wake_waiters
unlock-counts l mode m = rw (gr_unlock-eq-wake_waiters l mode) (release-counts l mode m)

Step-Inv : (n : ℕ) {s t : System} → Inv n s → Step n s t → Inv n t
Step-Inv n {s} v (enter i mode lt e) = enter-Inv n s i mode v lt e
Step-Inv n {s} v (resume i mode lt e) = resume-Inv n s i mode v lt e
Step-Inv n {s} v (try i mode free lt e) = try-Inv n s i mode free v lt e
Step-Inv n {s} v (unlock i mode lt e) = record {
  granted =
      Granted-release n s.lock (gr_unlock s.lock mode) s.pc i mode v.granted lt e
        (unlock-counts s.lock mode);
  in_line = Queued-unlock n s.lock s.pc i mode v.in_line e;
}

pub Reach-Inv : (n : ℕ) {s : System} → Reach n s → Inv n s
Reach-Inv n start = record { granted = init-Granted n; in_line = init-Queued n }
Reach-Inv n (later r st) = Step-Inv n (Reach-Inv n r) st
