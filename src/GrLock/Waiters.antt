-- ===== src/GrLock/Waiters.antt =====
-- The list of waiters is that of the waiting threads, and a waiter that has no signal cannot go on.
use c_specx.Base.{
  ℕ, ◌≡◌, ◌≢◌, refl, Bool, true, false, ◌==◌, ◌||◌, if◌then◌else◌, List, [], ◌∷◌, Bool-cases, arith,
  inl, inr,
}
use c_specx.GrLock.{
  LockMode, GrLock, Waiter, Pc, waiting, append_waiter, remove_waiter, clear_signal, signal_all,
  is_compatible, check_modes,
}
use c_specx.GrLock.System.{update}

-- The waiters of a list belong to waiting threads; one with no signal cannot go on.
abbrev pub Known : GrLock → (ℕ → Pc) → List Waiter → Type 0
Known l pc [] = Unit
Known l pc (w ∷ ws) =
    (pc w.thread ≡ waiting w.mode)
    × (w.signalled ≡ false → is_compatible l w.mode ≡ false)
    × Known l pc ws

unfoldable pub queued : ℕ → List Waiter → Bool
queued i [] = false
queued i (w ∷ ws) = w.thread == i || queued i ws

-- The counters alone decide.
pub is_compatible-waiters :
    (l : GrLock) (ws : List Waiter) (mode : LockMode)
    → is_compatible (record l { waiters = ws }) mode ≡ is_compatible l mode
unfolding is_compatible check_modes
is_compatible-waiters l ws mode = refl

-- What is refused stays refused.
abbrev pub Stays : GrLock → GrLock → Type 0
Stays l l' = (m : LockMode) → is_compatible l m ≡ false → is_compatible l' m ≡ false

-- A step of a thread that was not waiting.
pub Known-update :
    (l l' : GrLock) (pc : ℕ → Pc) (i : ℕ) (p : Pc) (ws : List Waiter)
    → Stays l l'
    → ((m : LockMode) → pc i ≢ waiting m)
    → Known l pc ws
    → Known l' (update pc i p) ws
Known-update l l' pc i p [] stays idle k = tt
Known-update l l' pc i p (w ∷ ws) stays idle k = (
  ground (arith, idle w.mode),
  λ h. stays w.mode (k.1 h),
  Known-update l l' pc i p ws stays idle k.2,
)

pub Known-Stays :
    (l l' : GrLock) (pc : ℕ → Pc) (ws : List Waiter) → Stays l l' → Known l pc ws → Known l' pc ws
Known-Stays l l' pc [] stays k = tt
Known-Stays l l' pc (w ∷ ws) stays k =
    (k.0, λ h. stays w.mode (k.1 h), Known-Stays l l' pc ws stays k.2)

pub Known-append :
    (l : GrLock) (pc : ℕ → Pc) (ws : List Waiter) (w : Waiter)
    → Known l pc ws
    → pc w.thread ≡ waiting w.mode
    → is_compatible l w.mode ≡ false
    → Known l pc (append_waiter ws w)
unfolding append_waiter
Known-append l pc [] w k e h = (e, λ _. h, tt)
Known-append l pc (v ∷ vs) w k e h = (k.0, k.1, Known-append l pc vs w k.2 e h)

pub Known-remove :
    (l l' : GrLock) (pc : ℕ → Pc) (i : ℕ) (p : Pc) (ws : List Waiter)
    → Stays l l'
    → Known l pc ws
    → Known l' (update pc i p) (remove_waiter ws i)
unfolding remove_waiter
Known-remove l l' pc i p [] stays k = tt
Known-remove l l' pc i p (w ∷ ws) stays k =
    let rest = Known-remove l l' pc i p ws stays k.2 in
    elim (Bool-cases (w.thread == i)) [
      | inl same ↦ rw same rest
      | inr other ↦ rw other (ground arith, λ h. stays w.mode (k.1 h), rest)
    ]

pub Known-clear :
    (l : GrLock) (pc : ℕ → Pc) (i : ℕ) (mode : LockMode) (ws : List Waiter)
    → pc i ≡ waiting mode
    → is_compatible l mode ≡ false
    → Known l pc ws
    → Known l (update pc i (waiting mode)) (clear_signal ws i)
unfolding clear_signal
Known-clear l pc i mode [] e h k = tt
Known-clear l pc i mode (w ∷ ws) e h k =
    let rest = Known-clear l pc i mode ws e h k.2 in
    elim (Bool-cases (w.thread == i)) [
      | inl same ↦ rw same (ground (arith, k.0), λ _. ground (arith, k.0), rest)
      | inr other ↦ rw other (ground (arith, k.0), k.1, rest)
    ]

-- After `wake_waiters` a waiter that could go on has a signal.
pub Known-signal :
    (l l' : GrLock) (pc : ℕ → Pc) (ws : List Waiter)
    → Known l pc ws
    → Known l' pc (signal_all l' ws)
unfolding signal_all
Known-signal l l' pc [] k = tt
Known-signal l l' pc (w ∷ ws) k =
    let rest = Known-signal l l' pc ws k.2 in
    elim (Bool-cases (is_compatible l' w.mode)) [
      | inl fits ↦ rw fits (k.0, λ h. cc, rest)
      | inr out_of ↦ rw out_of (k.0, λ h. out_of, rest)
    ]

pub queued-append :
    (j : ℕ) (ws : List Waiter) (w : Waiter)
    → queued j (append_waiter ws w) ≡ queued j ws || w.thread == j
unfolding queued append_waiter
queued-append j [] w = ground arith
queued-append j (v ∷ vs) w = ground (arith, queued-append j vs w)

pub queued-remove :
    (i j : ℕ) (ws : List Waiter) → i ≢ j → queued j (remove_waiter ws i) ≡ queued j ws
unfolding queued remove_waiter
queued-remove i j [] ne = refl
queued-remove i j (v ∷ vs) ne = ground (arith, queued-remove i j vs ne)

pub queued-clear : (i j : ℕ) (ws : List Waiter) → queued j (clear_signal ws i) ≡ queued j ws
unfolding queued clear_signal
queued-clear i j [] = refl
queued-clear i j (v ∷ vs) = ground (arith, queued-clear i j vs)

pub queued-signal :
    (l : GrLock) (j : ℕ) (ws : List Waiter) → queued j (signal_all l ws) ≡ queued j ws
unfolding queued signal_all
queued-signal l j [] = refl
queued-signal l j (v ∷ vs) = ground (arith, queued-signal l j vs)

-- The flag of a queued thread that could go on is set.
unfoldable pub signal_of : ℕ → List Waiter → Bool
signal_of i [] = false
signal_of i (w ∷ ws) = let rest = signal_of i ws in if w.thread == i then w.signalled else rest

pub signal_of_ready :
    (l : GrLock) (pc : ℕ → Pc) (i : ℕ) (mode : LockMode) (ws : List Waiter)
    → Known l pc ws
    → queued i ws ≡ true
    → pc i ≡ waiting mode
    → is_compatible l mode ≡ true
    → signal_of i ws ≡ true
unfolding signal_of queued
signal_of_ready l pc i mode [] k q e h = cc
signal_of_ready l pc i mode (w ∷ ws) k q e h = ground (arith, signal_of_ready l pc i mode ws k.2)
