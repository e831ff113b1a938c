-- ===== src/GrLock/System.antt =====
-- Threads over one lock, interleaved in any order.
use c_specx.Base.{ℕ, zero, suc, ◌+◌, ◌<◌, ◌≡◌, Bool, ◌==◌, if◌then◌else◌}
use c_specx.GrLock.{
  LockMode, same_mode, GrLock, gr_lock_init, Pc, out, waiting, holding, lock_enter, lock_resume,
  gr_trylock, gr_unlock,
}

abbrev pub update {ℓ} : {A : Type ℓ} → (ℕ → A) → ℕ → A → ℕ → A
update f i a j = if i == j then a else f j

pub record System : Type 0 where
  pub lock : GrLock
  pub pc : ℕ → Pc

-- One critical section of thread `i`, one of `n`. A waiter may return from `i_cond_wait` at any time,
-- also with no signal. A failing `gr_lock_waiter_init` and a failing `gr_trylock` change nothing.
pub data Step (n : ℕ) (s : System) : System → Type 0 where
  enter :
      (i : ℕ) (mode : LockMode)
      → i < n
      → s.pc i ≡ out
      → Step n s (record {
        lock = (lock_enter s.lock i mode).0;
        pc = update s.pc i (lock_enter s.lock i mode).1;
      })
  resume :
      (i : ℕ) (mode : LockMode)
      → i < n
      → s.pc i ≡ waiting mode
      → Step n s (record {
        lock = (lock_resume s.lock i mode).0;
        pc = update s.pc i (lock_resume s.lock i mode).1;
      })
  try :
      (i : ℕ) (mode : LockMode) (free : Bool)
      → i < n
      → s.pc i ≡ out
      → Step n s (record {
        lock = (gr_trylock s.lock free mode).0;
        pc = update s.pc i (if (gr_trylock s.lock free mode).1 then holding mode else out);
      })
  unlock :
      (i : ℕ) (mode : LockMode)
      → i < n
      → s.pc i ≡ holding mode
      → Step n s (record { lock = gr_unlock s.lock mode; pc = update s.pc i out })

abbrev pub init : System
init = record { lock = gr_lock_init; pc = λ i. out }

pub data Reach (n : ℕ) : System → Type 0 where
  start : Reach n init
  later : {s t : System} → Reach n s → Step n s t → Reach n t

-- The number of the first `n` threads that hold a mode.
abbrev pub weight : LockMode → Pc → ℕ
weight m out = 0
weight m (waiting _) = 0
weight m (holding m') = if same_mode m m' then 1 else 0

unfoldable pub held : LockMode → ℕ → (ℕ → Pc) → ℕ
held m zero pc = 0
held m (suc n) pc = held m n pc + weight m (pc n)
