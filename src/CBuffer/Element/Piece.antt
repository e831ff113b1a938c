-- ===== src/CBuffer/Element/Piece.antt =====
-- An element in two pieces is the same stretch of the ring as in one.
use c_specx.Base.{
  ℕ, ◌+◌, ◌-◌, ◌≤◌, ◌<◌, ◌≡◌, sym, ap, ap₂, ◌∙◌, inl, inr, List, ◌++◌, leb, append_assoc, length,
  take, drop, splice, slice, length-splice, length-take, length-drop, take-append-drop, take_all,
  le_or_lt, add32_small, sub32_small, arith, if◌then◌else◌,
}
use c_specx.CBuffer.{CBuffer}
use c_specx.CBuffer.Window.{
  ahead, window, window-add, window-eq-slice, window-splice, window-splice_outside, ahead_lt,
}
use c_specx.CBuffer.Inv.{IsValid}
use c_specx.CBuffer.Element.{load, store}

-- `load` and `store` in plain arithmetic.
load_one :
    (offset size : ℕ) {b : CBuffer}
    → IsValid b
    → offset + size ≤ b.cap
    → load b offset size ≡ slice b.buf offset size
unfolding load
load_one offset size {b} v fits = ground (arith, add32_small offset size)

load_two :
    (offset size : ℕ) {b : CBuffer}
    → IsValid b
    → offset < b.cap
    → size ≤ b.cap
    → b.cap < offset + size
    → load b offset size
      ≡ slice b.buf offset (b.cap - offset) ++ slice b.buf 0 (size - (b.cap - offset))
unfolding load
load_two offset size {b} v ho hs splits =
    ground
      (arith, add32_small offset size, sub32_small b.cap offset, sub32_small size (b.cap - offset))

-- An element read in one piece or in two is one stretch of the ring.
pub load-eq-window :
    (offset size : ℕ) {b : CBuffer}
    → IsValid b
    → offset < b.cap
    → size ≤ b.cap
    → load b offset size ≡ window b.buf b.cap offset size
load-eq-window offset size {b} v ho hs = elim (le_or_lt (offset + size) b.cap) [
  | inl fits ↦
      load_one offset size v fits ∙ sym (window-eq-slice b.buf b.cap offset size v.storage fits)
  | inr splits ↦
      load_two offset size v ho hs splits
      ∙ sym (
          ap (λ (n : ℕ). window b.buf b.cap offset n)
            {y = b.cap - offset + (size - (b.cap - offset))} (omega arith)
          ∙ window-add b.buf b.cap offset (b.cap - offset) (size - (b.cap - offset)) ho
              (omega arith)
          ∙ ap₂ ◌++◌ (window-eq-slice b.buf b.cap offset (b.cap - offset) v.storage (omega arith)) (
              ap (λ (i : ℕ). window b.buf b.cap i (size - (b.cap - offset))) {y = 0} (ground arith)
              ∙ window-eq-slice b.buf b.cap 0 (size - (b.cap - offset)) v.storage (omega arith)))
]

pub put : List ℕ → ℕ → ℕ → List ℕ → List ℕ
put buf cap p ys =
    if leb (p + length ys) cap
    then splice buf p ys
    else splice (splice buf p (take (cap - p) ys)) 0 (drop (cap - p) ys)

pub store-eq-put :
    (offset : ℕ) (src : List ℕ) {b : CBuffer}
    → IsValid b
    → offset < b.cap
    → length src ≤ b.cap
    → store b offset src (length src) ≡ put b.buf b.cap offset src
unfolding store put
store-eq-put offset src {b} v ho hs = ground (
  arith,
  add32_small offset (length src),
  sub32_small b.cap offset,
  sub32_small (length src) (b.cap - offset),
  take_all (length src) src,
  take_all (length src - (b.cap - offset)) (drop (b.cap - offset) src),
  length-drop (b.cap - offset) src,
)

pub length-put : (buf : List ℕ) (cap p : ℕ) (ys : List ℕ) → length (put buf cap p ys) ≡ length buf
unfolding put
length-put buf cap p ys = ground (
  arith,
  length-splice buf p ys,
  length-splice buf p (take (cap - p) ys),
  length-splice (splice buf p (take (cap - p) ys)) 0 (drop (cap - p) ys),
)

put_one :
    (buf : List ℕ) (cap p : ℕ) (ys : List ℕ)
    → p + length ys ≤ cap
    → put buf cap p ys ≡ splice buf p ys
unfolding put
put_one buf cap p ys fits = ground arith

put_two :
    (buf : List ℕ) (cap p : ℕ) (ys : List ℕ)
    → cap < p + length ys
    → put buf cap p ys ≡ splice (splice buf p (take (cap - p) ys)) 0 (drop (cap - p) ys)
unfolding put
put_two buf cap p ys splits = ground arith

-- Two pieces, the first up to the end of the array and the second from its start, at distance `k`
-- from `h`.
module _ (xs zs : List ℕ) (buf : List ℕ) (cap h k : ℕ) (hh : h < cap)
    (first : ahead cap h k + length xs ≡ cap) (more : 0 < length zs)
    (room : k + length xs + length zs ≤ cap) where
  restart : 0 ≡ ahead cap h (k + length xs)
  restart = ground arith

  abbrev twice : List ℕ
  twice = splice (splice buf (ahead cap h k) xs) 0 zs

  abbrev twice' : ℕ → List ℕ
  twice' i = splice (splice buf (ahead cap h k) xs) i zs

  window-twice :
      cap ≤ length buf
      → window twice cap h (k + length xs + length zs) ≡ window buf cap h k ++ (xs ++ zs)
  window-twice hc =
      ap (λ (i : ℕ). window (twice' i) cap h (k + length xs + length zs)) restart
      ∙ window-splice zs (splice buf (ahead cap h k) xs) cap h (k + length xs)
          (omega (arith, length-splice buf (ahead cap h k) xs)) hh room (omega (arith, restart))
      ∙ ap (λ t. t ++ zs) (window-splice xs buf cap h k hc hh (omega arith) (omega arith))
      ∙ append_assoc (window buf cap h k) xs zs

  window-twice_outside : (n : ℕ) → n ≤ k → window twice cap h n ≡ window buf cap h n
  window-twice_outside n hn =
      ap (λ (i : ℕ). window (twice' i) cap h n) restart
      ∙ window-splice_outside zs (splice buf (ahead cap h k) xs) cap h n (k + length xs) hh
          (omega arith) room (omega (arith, restart))
      ∙ window-splice_outside xs buf cap h n k hh hn (omega arith) (omega arith)

-- Behind a window, it extends the window.
pub window-put :
    (ys : List ℕ) (buf : List ℕ) (cap h n : ℕ)
    → cap ≤ length buf
    → h < cap
    → n + length ys ≤ cap
    → n < cap
    → window (put buf cap (ahead cap h n) ys) cap h (n + length ys) ≡ window buf cap h n ++ ys
window-put ys buf cap h n hc hh hn hlt = elim (le_or_lt (ahead cap h n + length ys) cap) [
  | inl fits ↦
      ap (λ (m : List ℕ). window m cap h (n + length ys)) (put_one buf cap (ahead cap h n) ys fits)
      ∙ window-splice ys buf cap h n hc hh hn fits
  | inr splits ↦
      let room = cap - ahead cap h n in
      let inside = ahead_lt cap h n hh (omega arith) in
      let first = length-take room ys in
      let second = length-drop room ys in
      ap₂ (λ (m : List ℕ) (k : ℕ). window m cap h k)
        {v = n + length (take room ys) + length (drop room ys)}
        (put_two buf cap (ahead cap h n) ys splits) (omega (arith, first, second, inside))
      ∙ window-twice (take room ys) (drop room ys) buf cap h n hh (omega (arith, first, inside))
          (omega (arith, second, inside)) (omega (arith, first, second, inside)) hc
      ∙ ap (λ t. window buf cap h n ++ t) (take-append-drop room ys)
]

-- Outside of a window, it leaves the window alone.
pub window-put_outside :
    (ys : List ℕ) (buf : List ℕ) (cap h n k : ℕ)
    → h < cap
    → n ≤ k
    → k < cap
    → k + length ys ≤ cap
    → window (put buf cap (ahead cap h k) ys) cap h n ≡ window buf cap h n
window-put_outside ys buf cap h n k hh hn hlt hk = elim (le_or_lt (ahead cap h k + length ys) cap) [
  | inl fits ↦
      ap (λ (m : List ℕ). window m cap h n) (put_one buf cap (ahead cap h k) ys fits)
      ∙ window-splice_outside ys buf cap h n k hh hn hk fits
  | inr splits ↦
      let room = cap - ahead cap h k in
      let inside = ahead_lt cap h k hh (omega arith) in
      let first = length-take room ys in
      let second = length-drop room ys in
      ap (λ (m : List ℕ). window m cap h n) (put_two buf cap (ahead cap h k) ys splits)
      ∙ window-twice_outside (take room ys) (drop room ys) buf cap h k hh
          (omega (arith, first, inside)) (omega (arith, second, inside))
          (omega (arith, first, second, inside)) n hn
]
