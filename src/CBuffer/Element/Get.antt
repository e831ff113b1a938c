-- ===== src/CBuffer/Element/Get.antt =====
-- `cbuffer_get` and the peeks.
use c_specx.Base.{
  ℕ, ◌+◌, ◌-◌, ◌*◌, ◌≤◌, ◌<◌, ◌≡◌, refl, sym, ap, ◌∙◌, ◌⊎◌, inl, inr, true, false, List, none, some,
  length, arith, take, drop, slice, take-length-append, drop-length-append, Bool-cases, mul32_small,
  sub32, ◌≢◌, add32, ◌%◌, add32_small, sub32_small, length-take, length-drop,
}
use c_specx.CBuffer.{CBuffer, len}
use c_specx.CBuffer.Window.{ahead, window, window-add, ahead_lt, length-window}
use c_specx.CBuffer.Inv.{
  IsValid, contents, len_lem, len-le-cap, advance_lem, mod-eq-ahead, length-contents,
}
use c_specx.CBuffer.Element.{get, get_no_check, peek_back, peek_front}
use c_specx.CBuffer.Element.Piece.{load-eq-window}

-- A part of a window is a window.
slice-window :
    (buf : List ℕ) (cap h n k m : ℕ)
    → h < cap
    → n ≤ cap
    → k + m ≤ n
    → slice (window buf cap h n) k m ≡ window buf cap (ahead cap h k) m
slice-window buf cap h n k m hh hn hk =
    ap (λ (j : ℕ). slice (window buf cap h j) k m) {y = k + (m + (n - (k + m)))} (omega arith)
    ∙ ap (take m) (
        ap (drop k) (window-add buf cap h k (m + (n - (k + m))) hh (omega arith))
        ∙ drop-length-append (window buf cap h k) _ k (sym (length-window buf cap h k))
        ∙ window-add buf cap (ahead cap h k) m (n - (k + m)) (ahead_lt cap h k hh (omega arith))
            (omega arith))
    ∙ take-length-append (window buf cap (ahead cap h k) m) _ m
        (sym (length-window buf cap (ahead cap h k) m))

-- The number that `cbuffer_get` compares the index with is the length in bytes.
bound_lem :
    {b : CBuffer} → IsValid b → b.isfull ≡ false → sub32 (add32 b.head b.cap) b.tail % b.cap ≡ len b
bound_lem {b} v e =
    rw
      (
        add32_small b.head b.cap (omega arith),
        sub32_small (b.head + b.cap) b.tail (omega arith) (omega arith),
      )
      (ap (λ (k : ℕ). k % b.cap) {y = b.head + (b.cap - b.tail)} (omega arith)
        ∙ mod-eq-ahead b.cap b.head (b.cap - b.tail) v.head_in (omega arith)
        ∙ ground (arith, len_lem v))

module _ (size idx : ℕ) {b : CBuffer} (v : IsValid b) where
  get-some : (b.isfull ≡ true) ⊎ (idx < len b) → get size idx b ≡ some (get_no_check size idx b)
  unfolding get
  get-some h = elim (Bool-cases b.isfull) [
    | inl full ↦ rw full refl
    | inr open_ ↦ ground (arith, bound_lem v open_)
  ]

  get_no_check_lem :
      idx * size + size ≤ len b → get_no_check size idx b ≡ slice (contents b) (idx * size) size
  unfolding get_no_check
  get_no_check_lem fits =
      rw
        (
          mul32_small idx size (omega (arith, len-le-cap v)),
          advance_lem b b.tail (idx * size) v.small v.tail_in (omega (arith, len-le-cap v)),
        )
        (load-eq-window (ahead b.cap b.tail (idx * size)) size v
            (ahead_lt b.cap b.tail (idx * size) v.tail_in (omega (arith, len-le-cap v)))
            (omega (arith, len-le-cap v))
          ∙ sym (
              slice-window b.buf b.cap b.tail (len b) (idx * size) size v.tail_in (len-le-cap v)
                fits))

-- On a valid buffer, `cbuffer_get` of an element of a byte at least that lies within the contents
-- returns its bytes.
pub get_lem :
    (size idx : ℕ) {b : CBuffer}
    → IsValid b
    → 0 < size
    → idx * size + size ≤ len b
    → get size idx b ≡ some (slice (contents b) (idx * size) size)
get_lem size idx {b} v pos fits =
    get-some size idx v (inr (grind arith)) ∙ ap some (get_no_check_lem size idx v fits)

-- `cbuffer_get` compares the index of an element with a number of bytes, and on a full buffer with
-- nothing. So on a valid buffer that is full, or holds more bytes than the index, it returns true
-- for an element that does not lie within the contents.
pub get_out_of_range :
    (size idx : ℕ) {b : CBuffer}
    → IsValid b
    → 0 < size
    → len b < idx * size + size
    → (b.isfull ≡ true) ⊎ (idx < len b)
    → (get size idx b ≢ none) × (length (slice (contents b) (idx * size) size) < size)
get_out_of_range size idx {b} v pos past h = (
  rw (get-some size idx v h) (λ e. cc),
  omega (
    arith,
    length-take size (drop (idx * size) (contents b)),
    length-drop (idx * size) (contents b),
    length-contents b,
  ),
)

-- On a valid buffer that is empty or holds a whole element, of a byte at least, the two peeks
-- agree: they return false where the buffer is empty, and else the oldest element.
pub peek_lem :
    (size : ℕ) {b : CBuffer}
    → IsValid b
    → 0 < size
    → (size ≤ len b) ⊎ (len b ≡ 0)
    → (peek_back size b ≡ peek_front size b)
      × (((len b ≡ 0) × (peek_front size b ≡ none))
          ⊎ (peek_front size b ≡ some (take size (contents b))))
unfolding peek_back peek_front
peek_lem size {b} v pos (inr empty) = (refl, inl (empty, ground (arith, len_lem v)))
peek_lem size {b} v pos (inl fits) = (
  refl,
  inr (
      peeks
      ∙ get_lem size 0 v pos (omega arith)
      ∙ ap (λ (k : ℕ). some (slice (contents b) k size)) {y = 0} (omega arith)),
)
  where
    peeks : peek_front size b ≡ get size 0 b
    peeks = ground (arith, len_lem v)
