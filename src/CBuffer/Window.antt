-- ===== src/CBuffer/Window.antt =====
-- The bytes of a ring of `cap` bytes from an index on, going round at `cap`, and what a write of a
-- contiguous piece does to them.
use c_specx.Base.{
  ℕ, zero, suc, ◌+◌, ◌-◌, ◌≤◌, ◌<◌, ◌≡◌, refl, sym, ap, ap₂, ◌∙◌, List, [], ◌∷◌, ◌++◌, append-nil,
  append_assoc, ltb, if◌then◌else◌, length, get_or, set, slice, splice, length-set, get_or-set_self,
  get_or-set_ne, arith,
}

-- The index `n` steps from `h`, for `n ≤ cap`.
abbrev pub ahead : ℕ → ℕ → ℕ → ℕ
ahead cap h n = if ltb (h + n) cap then h + n else h + n - cap

pub ahead_lt : (cap h n : ℕ) → h < cap → n ≤ cap → ahead cap h n < cap
ahead_lt cap h n hh hn = ground arith

pub ahead_zero : (cap h : ℕ) → h < cap → ahead cap h 0 ≡ h
ahead_zero cap h hh = ground arith

pub ahead_add :
    (cap h n m : ℕ) → h < cap → n + m ≤ cap → ahead cap (ahead cap h n) m ≡ ahead cap h (n + m)
ahead_add cap h n m hh hn = ground arith

module _ (buf : List ℕ) (cap : ℕ) where
  unfoldable pub window : ℕ → ℕ → List ℕ
  window h zero = []
  window h (suc n) = get_or buf h 0 ∷ window (ahead cap h 1) n

pub length-window : (buf : List ℕ) (cap h n : ℕ) → length (window buf cap h n) ≡ n
unfolding window
length-window buf cap h zero = refl
length-window buf cap h (suc n) = ap suc (length-window buf cap (ahead cap h 1) n)

pub window-zero : (buf : List ℕ) (cap h : ℕ) → window buf cap h 0 ≡ []
unfolding window
window-zero buf cap h = refl

-- A longer window is two windows, one behind the other.
pub window-add :
    (buf : List ℕ) (cap h n m : ℕ)
    → h < cap
    → n ≤ cap
    → window buf cap h (n + m) ≡ window buf cap h n ++ window buf cap (ahead cap h n) m
unfolding window
window-add buf cap h zero m hh hn =
    ap₂ (λ (i k : ℕ). window buf cap i k) (sym (ahead_zero cap h hh)) (omega arith)
window-add buf cap h (suc n) m hh hn =
    ap (λ (k : ℕ). window buf cap h k) {x = suc n + m} {y = suc (n + m)} (omega arith)
    ∙ ap (λ t. get_or buf h 0 ∷ t)
        (window-add buf cap (ahead cap h 1) n m (ahead_lt cap h 1 hh (omega arith)) (omega arith)
          ∙ ap (λ (i : ℕ). window buf cap (ahead cap h 1) n ++ window buf cap i m)
              (ahead_add cap h 1 n hh (omega arith) ∙ ap (λ (k : ℕ). ahead cap h k) (omega arith)))

slice-suc :
    (buf : List ℕ) (h n : ℕ)
    → h < length buf
    → slice buf h (suc n) ≡ get_or buf h 0 ∷ slice buf (suc h) n
slice-suc [] h n p = absurd (omega arith)
slice-suc (x ∷ buf) zero n p = refl
slice-suc (x ∷ buf) (suc h) n p = slice-suc buf h n (omega arith)

-- A window that does not reach past the end is a slice of the array.
pub window-eq-slice :
    (buf : List ℕ) (cap h n : ℕ)
    → cap ≤ length buf
    → h + n ≤ cap
    → window buf cap h n ≡ slice buf h n
unfolding window
window-eq-slice buf cap h zero hc hn = refl
window-eq-slice buf cap h (suc zero) hc hn = sym (slice-suc buf h zero (omega arith))
window-eq-slice buf cap h (suc (suc n)) hc hn =
    ap (λ (i : ℕ). get_or buf h 0 ∷ window buf cap i (suc n)) {y = suc h} (ground arith)
    ∙ ap (λ t. get_or buf h 0 ∷ t) (window-eq-slice buf cap (suc h) (suc n) hc (omega arith))
    ∙ sym (slice-suc buf h (suc n) (omega arith))

-- A write of one byte outside of a window leaves it alone.
pub window-set_outside :
    (buf : List ℕ) (cap h n k x : ℕ)
    → h < cap
    → n ≤ k
    → k < cap
    → window (set buf (ahead cap h k) x) cap h n ≡ window buf cap h n
unfolding window
window-set_outside buf cap h zero k x hh hn hk = refl
window-set_outside buf cap h (suc n) k x hh hn hk =
    ap₂ ◌∷◌ (get_or-set_ne buf (ahead cap h k) h x 0 (λ e. ground arith)) (
      ap (λ (i : ℕ). window (set buf i x) cap (ahead cap h 1) n) {x = ahead cap h k}
        {y = ahead cap (ahead cap h 1) (k - 1)} (ground arith)
      ∙ window-set_outside buf cap (ahead cap h 1) n (k - 1) x (ahead_lt cap h 1 hh (omega arith))
          (omega arith) (omega arith))

-- A write of one byte just behind a window extends it by that byte.
pub window-set :
    (buf : List ℕ) (cap h n x : ℕ)
    → cap ≤ length buf
    → h < cap
    → n < cap
    → window (set buf (ahead cap h n) x) cap h (n + 1) ≡ window buf cap h n ++ (x ∷ [])
unfolding window
window-set buf cap h n x hc hh hn =
    window-add (set buf (ahead cap h n) x) cap h n 1 hh (omega arith)
    ∙ ap₂ ◌++◌ (window-set_outside buf cap h n n x hh (omega arith) hn)
        (ap (λ (y : ℕ). y ∷ []) (get_or-set_self buf (ahead cap h n) x 0 (ground arith)))

-- A write of several bytes outside of a window leaves it alone.
pub window-splice_outside :
    (ys : List ℕ) (buf : List ℕ) (cap h n k : ℕ)
    → h < cap
    → n ≤ k
    → k + length ys ≤ cap
    → ahead cap h k + length ys ≤ cap
    → window (splice buf (ahead cap h k) ys) cap h n ≡ window buf cap h n
unfolding splice
window-splice_outside [] buf cap h n k hh hn hk hp = refl
window-splice_outside (y ∷ []) buf cap h n k hh hn hk hp =
    window-set_outside buf cap h n k y hh hn (omega arith)
window-splice_outside (y ∷ z ∷ ys) buf cap h n k hh hn hk hp =
    ap (λ (i : ℕ). window (splice (set buf (ahead cap h k) y) i (z ∷ ys)) cap h n)
      {y = ahead cap h (k + 1)} (ground arith)
    ∙ window-splice_outside (z ∷ ys) (set buf (ahead cap h k) y) cap h n (k + 1) hh (omega arith)
        (omega arith) (ground arith)
    ∙ window-set_outside buf cap h n k y hh hn (omega arith)

-- A write of several bytes just behind a window extends it by those bytes.
pub window-splice :
    (ys : List ℕ) (buf : List ℕ) (cap h n : ℕ)
    → cap ≤ length buf
    → h < cap
    → n + length ys ≤ cap
    → ahead cap h n + length ys ≤ cap
    → window (splice buf (ahead cap h n) ys) cap h (n + length ys) ≡ window buf cap h n ++ ys
unfolding splice
window-splice [] buf cap h n hc hh hn hp =
    ap (λ (k : ℕ). window buf cap h k) (omega arith) ∙ sym (append-nil (window buf cap h n))
window-splice (y ∷ []) buf cap h n hc hh hn hp = window-set buf cap h n y hc hh (omega arith)
window-splice (y ∷ z ∷ ys) buf cap h n hc hh hn hp =
    ap₂ (λ (i k : ℕ). window (splice (set buf (ahead cap h n) y) i (z ∷ ys)) cap h k)
      {y = ahead cap h (n + 1)} {v = n + 1 + length (z ∷ ys)} (ground arith) (omega arith)
    ∙ window-splice (z ∷ ys) (set buf (ahead cap h n) y) cap h (n + 1)
        (omega (arith, length-set buf (ahead cap h n) y)) hh (omega arith) (ground arith)
    ∙ ap (λ t. t ++ (z ∷ ys)) (window-set buf cap h n y hc hh (omega arith))
    ∙ append_assoc (window buf cap h n) (y ∷ []) (z ∷ ys)
