-- ===== src/GrLock/Line.antt =====
-- Each change of the lock keeps the list of waiters that of the waiting threads.
use c_specx.Base.{
  ℕ, ◌+◌, ◌-◌, ◌<◌, ◌≡◌, ◌≢◌, refl, ap, sym, true, false, ◌==◌, if◌then◌else◌, List, [], ◌∷◌,
  Bool-cases, inl, inr, arith, ◌≤◌, ◌∙◌,
}
use c_specx.GrLock.{
  LockMode, same_mode, GrLock, gr_lock_init, Waiter, Pc, out, waiting, holding, gr_unlock, acquire,
  release, append_waiter, remove_waiter, clear_signal, signal_all, wake_waiters, is_compatible,
}
use c_specx.GrLock.Modes.{is_compatible_mono}
use c_specx.GrLock.System.{update}
use c_specx.GrLock.Waiters.{
  Known, queued, Stays, Known-update, Known-append, Known-remove, Known-Stays, Known-clear,
  Known-signal, queued-append, queued-remove, queued-clear, queued-signal, is_compatible-waiters,
}

-- The list of waiters is that of the waiting threads.
pub record Queued (n : ℕ) (l : GrLock) (pc : ℕ → Pc) : Type 0 where
  pub known : Known l pc l.waiters
  pub listed : (i : ℕ) (m : LockMode) → i < n → pc i ≡ waiting m → queued i l.waiters ≡ true

pub acquire-counts :
    (l : GrLock) (mode m : LockMode)
    → (acquire l mode).holder_counts m ≡ l.holder_counts m + (if same_mode m mode then 1 else 0)
unfolding acquire
acquire-counts l mode m = ground arith

pub release-counts :
    (l : GrLock) (mode m : LockMode)
    → (release l mode).holder_counts m ≡ l.holder_counts m - (if same_mode m mode then 1 else 0)
unfolding release
release-counts l mode m = ground arith

acquire-Stays :
    (l l' : GrLock) (mode : LockMode)
    → ((m : LockMode) → l'.holder_counts m ≡ l.holder_counts m)
    → Stays l (acquire l' mode)
acquire-Stays l l' mode e m h = elim (Bool-cases (is_compatible (acquire l' mode) m)) [
  | inl fits ↦ ground (
    arith,
    is_compatible_mono (acquire l' mode) l m (λ k. omega (arith, acquire-counts l' mode k, e k))
        fits,
  )
  | inr refused ↦ refused
]

Stays-refl : (l : GrLock) (ws : List Waiter) → Stays l (record l { waiters = ws })
Stays-refl l ws m h = rw (is_compatible-waiters l ws m) h

release-Grants :
    (l : GrLock) (mode : LockMode) (m : LockMode)
    → (release l mode).holder_counts m ≤ l.holder_counts m
release-Grants l mode m = ground (arith, release-counts l mode m)

pub init-Queued : (n : ℕ) → Queued n gr_lock_init (λ i. out)
unfolding gr_lock_init
init-Queued n = record { known = tt; listed = λ i m h e. cc }

-- A thread that was not waiting takes a mode.
pub Queued-acquire :
    (n : ℕ) (l : GrLock) (pc : ℕ → Pc) (i : ℕ) (mode : LockMode)
    → Queued n l pc
    → ((m : LockMode) → pc i ≢ waiting m)
    → Queued n (acquire l mode) (update pc i (holding mode))
unfolding acquire
Queued-acquire n l pc i mode q idle = record {
  known =
      Known-update l (acquire l mode) pc i (holding mode) l.waiters
        (acquire-Stays l l mode (λ m. refl)) idle q.known;
  listed = λ j m h e. ground (arith, q.listed j m h);
}

-- A thread that was not waiting, and is not now, over the same lock.
pub Queued-idle :
    (n : ℕ) (l : GrLock) (pc : ℕ → Pc) (i : ℕ) (p : Pc)
    → Queued n l pc
    → ((m : LockMode) → pc i ≢ waiting m)
    → ((m : LockMode) → p ≢ waiting m)
    → Queued n l (update pc i p)
Queued-idle n l pc i p q before after = record {
  known = Known-update l l pc i p l.waiters (λ m h. h) before q.known;
  listed = λ j m h e. ground (arith, q.listed j m h, after m);
}

-- A thread that was not waiting joins the list.
pub Queued-join :
    (n : ℕ) (l : GrLock) (pc : ℕ → Pc) (i : ℕ) (mode : LockMode)
    → Queued n l pc
    → ((m : LockMode) → pc i ≢ waiting m)
    → is_compatible l mode ≡ false
    → Queued n
        (record l {
          waiters = append_waiter l.waiters (record { thread = i; mode = mode; signalled = false });
        })
        (update pc i (waiting mode))
Queued-join n l pc i mode q idle refused =
    let w : Waiter = record { thread = i; mode = mode; signalled = false } in
    let l' : GrLock = record l { waiters = append_waiter l.waiters w } in
    record {
      known =
          Known-append l' (update pc i (waiting mode)) l.waiters w
            (Known-update l l' pc i (waiting mode) l.waiters
              (Stays-refl l (append_waiter l.waiters w)) idle q.known)
            (ground arith) (Stays-refl l (append_waiter l.waiters w) mode refused);
      listed = λ j m h e. ground (arith, queued-append j l.waiters w, q.listed j m h);
    }

-- A waiting thread leaves the list and takes its mode.
pub Queued-leave :
    (n : ℕ) (l : GrLock) (pc : ℕ → Pc) (i : ℕ) (mode : LockMode)
    → Queued n l pc
    → Queued n
        (acquire (record l { waiters = remove_waiter l.waiters i }) mode)
        (update pc i (holding mode))
unfolding acquire
Queued-leave n l pc i mode q =
    let l' : GrLock = record l { waiters = remove_waiter l.waiters i } in
    record {
      known =
          Known-remove l (acquire l' mode) pc i (holding mode) l.waiters
            (acquire-Stays l l' mode (λ m. refl)) q.known;
      listed = λ j m h e. elim (Bool-cases (i == j)) [
        | inl same ↦ ground arith
        | inr other ↦ ground (arith, queued-remove i j l.waiters, q.listed j m h)
      ];
    }

-- A waiting thread wakes up and waits again.
pub Queued-wait :
    (n : ℕ) (l : GrLock) (pc : ℕ → Pc) (i : ℕ) (mode : LockMode)
    → Queued n l pc
    → pc i ≡ waiting mode
    → is_compatible l mode ≡ false
    → Queued n (record l { waiters = clear_signal l.waiters i }) (update pc i (waiting mode))
Queued-wait n l pc i mode q e refused =
    let l' : GrLock = record l { waiters = clear_signal l.waiters i } in
    record {
      known =
          Known-Stays l l' (update pc i (waiting mode)) (clear_signal l.waiters i)
            (Stays-refl l (clear_signal l.waiters i))
            (Known-clear l pc i mode l.waiters e refused q.known);
      listed = λ j m h e'. ground (arith, queued-clear i j l.waiters, q.listed j m h);
    }

-- With no waiter there is nothing to wake.
pub gr_unlock-eq-wake_waiters :
    (l : GrLock) (mode : LockMode) → gr_unlock l mode ≡ wake_waiters (release l mode)
unfolding gr_unlock wake_waiters release signal_all
gr_unlock-eq-wake_waiters l mode = either l.waiters refl
  where
    l' : GrLock
    l' = release l mode

    either :
        (ws : List Waiter)
        → ws ≡ l.waiters
        → (elim ws as (λ _. GrLock) [ [] ↦ l' | _ ↦ wake_waiters l' ]) ≡ wake_waiters l'
    either [] e = ap (λ ws. record l' { waiters = ws }) (sym e ∙ ap (signal_all l') e)
    either (w ∷ ws) e = refl

Queued-wake :
    (n : ℕ) (l : GrLock) (pc : ℕ → Pc) (i : ℕ) (mode : LockMode)
    → Queued n l pc
    → pc i ≡ holding mode
    → Queued n (wake_waiters (release l mode)) (update pc i out)
unfolding wake_waiters release
Queued-wake n l pc i mode q e =
    let l' : GrLock = release l mode in
    record {
      known =
          Known-Stays l' (wake_waiters l') (update pc i out) (signal_all l' l.waiters)
            (Stays-refl l' (signal_all l' l.waiters))
            (Known-update l' l' pc i out (signal_all l' l.waiters) (λ m h. h) (λ m. cc)
              (Known-signal l l' pc l.waiters q.known));
      listed = λ j m h e'. ground (arith, queued-signal l' j l.waiters, q.listed j m h);
    }

-- A holder lets go, and the waiters that can go on are signalled.
pub Queued-unlock :
    (n : ℕ) (l : GrLock) (pc : ℕ → Pc) (i : ℕ) (mode : LockMode)
    → Queued n l pc
    → pc i ≡ holding mode
    → Queued n (gr_unlock l mode) (update pc i out)
Queued-unlock n l pc i mode q e =
    rw (gr_unlock-eq-wake_waiters l mode) (Queued-wake n l pc i mode q e)
