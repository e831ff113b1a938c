-- ===== src/CBuffer/Element/Push.antt =====
-- `cbuffer_push_back` and `cbuffer_push_front` on every branch.
use c_specx.Base.{
  ℕ, ◌+◌, ◌-◌, ◌≤◌, ◌<◌, ◌≡◌, refl, sym, ap, ap₂, ◌∙◌, ◌⊎◌, inl, inr, true, false, List, ◌++◌,
  length, add32_small, sub32_small, lt→ltb, le→ltb, le_or_lt, arith, sub32, add32, if◌then◌else◌,
  ◌%◌, ◌==◌,
}
use c_specx.CBuffer.{CBuffer, len, avail, advance}
use c_specx.CBuffer.Window.{ahead, window, window-add, ahead_zero, window-zero}
use c_specx.CBuffer.Inv.{
  IsValid, contents, Grown, grow, len_lem, avail_lem, head-eq-ahead, advance_lem, mod-eq-ahead,
}
use c_specx.CBuffer.Element.{push_back, push_front, store}
use c_specx.CBuffer.Element.Piece.{put, store-eq-put, length-put, window-put, window-put_outside}

module _ (src : List ℕ) {b : CBuffer} (v : IsValid b) (pos : 0 < length src) where
  push_back_refused : avail b < length src → push_back src (length src) b ≡ (false, b)
  unfolding push_back
  push_back_refused h = rw (lt→ltb (avail b) (length src) h)

  push_front_refused : avail b < length src → push_front src (length src) b ≡ (false, b)
  unfolding push_front
  push_front_refused h = rw (lt→ltb (avail b) (length src) h)

  module _ (fits : length src ≤ b.cap - len b) where
    -- The buffer that `push_back` leaves.
    abbrev appended : CBuffer
    appended = record b {
      buf = store b b.head src (length src);
      head = advance b b.head (length src);
      isfull = if advance b b.head (length src) == b.tail then true else b.isfull;
    }

    push_back_ok : push_back src (length src) b ≡ (true, appended)
    unfolding push_back
    push_back_ok = rw (le→ltb (avail b) (length src) (omega (arith, avail_lem v)))

    stored : store b b.head src (length src) ≡ put b.buf b.cap b.head src
    stored = store-eq-put b.head src v v.head_in (omega arith)

    appended-Grown : Grown b appended (length src)
    appended-Grown =
        grow appended (length src) v pos fits
          (omega (arith, v.storage, ap length stored, length-put b.buf b.cap b.head src)) refl refl
          (advance_lem b b.head (length src) v.small v.head_in (omega arith)) refl

    contents-appended : contents appended ≡ contents b ++ src
    contents-appended =
        ap (λ (n : ℕ). window appended.buf b.cap b.tail n) appended-Grown.longer
        ∙ ap (λ (m : List ℕ). window m b.cap b.tail (len b + length src))
            (stored ∙ ap (λ (i : ℕ). put b.buf b.cap i src) (head-eq-ahead v))
        ∙ window-put src b.buf b.cap b.tail (len b) v.storage v.tail_in (omega arith) (omega arith)

    -- `push_front` writes from `length src` before `tail`.
    new_tail : ℕ
    new_tail = sub32 (add32 b.tail b.cap) (length src) % b.cap

    new_tail_lem : new_tail ≡ ahead b.cap b.tail (b.cap - length src)
    unfolding new_tail
    new_tail_lem =
        rw
          (
            add32_small b.tail b.cap (omega arith),
            sub32_small (b.tail + b.cap) (length src) (omega arith) (omega arith),
          )
          (ap (λ (k : ℕ). k % b.cap) {y = b.tail + (b.cap - length src)} (omega arith)
            ∙ mod-eq-ahead b.cap b.tail (b.cap - length src) v.tail_in (omega arith))

    -- The buffer that `push_front` leaves.
    abbrev prepended : CBuffer
    prepended = record b {
      buf = store b new_tail src (length src);
      tail = new_tail;
      isfull = if b.head == new_tail then true else b.isfull;
    }

    push_front_ok : push_front src (length src) b ≡ (true, prepended)
    unfolding push_front new_tail
    push_front_ok = rw (le→ltb (avail b) (length src) (omega (arith, avail_lem v)))

    stored_front : store b new_tail src (length src) ≡ put b.buf b.cap new_tail src
    stored_front = store-eq-put new_tail src v (ground (arith, new_tail_lem)) (omega arith)

    prepended-IsValid : IsValid prepended
    prepended-IsValid = record {
      nonempty = v.nonempty;
      small = v.small;
      storage =
          omega (arith, v.storage, ap length stored_front, length-put b.buf b.cap new_tail src);
      head_in = v.head_in;
      tail_in = ground (arith, new_tail_lem);
      full_meets = ground (arith, new_tail_lem, len_lem v);
    }

    len-prepended : len prepended ≡ length src + len b
    len-prepended = ground (arith, new_tail_lem, len_lem v, len_lem prepended-IsValid)

    contents-prepended : contents prepended ≡ src ++ contents b
    contents-prepended =
        ap (λ (n : ℕ). window prepended.buf b.cap new_tail n) len-prepended
        ∙ ap (λ (m : List ℕ). window m b.cap new_tail (length src + len b)) stored_front
        ∙ window-add (put b.buf b.cap new_tail src) b.cap new_tail (length src) (len b)
            prepended-IsValid.tail_in (omega arith)
        ∙ ap₂ ◌++◌ front back
      where
        nt_in : new_tail < b.cap
        nt_in = prepended-IsValid.tail_in

        front : window (put b.buf b.cap new_tail src) b.cap new_tail (length src) ≡ src
        front =
            ap₂ (λ (i n : ℕ). window (put b.buf b.cap i src) b.cap new_tail n) {v = 0 + length src}
              (sym (ahead_zero b.cap new_tail nt_in)) (omega arith)
            ∙ window-put src b.buf b.cap new_tail 0 v.storage nt_in (omega arith) v.nonempty
            ∙ ap (λ t. t ++ src) (window-zero b.buf b.cap new_tail)

        back :
            window (put b.buf b.cap new_tail src) b.cap (ahead b.cap new_tail (length src)) (len b)
            ≡ contents b
        back =
            ap₂ (λ (i j : ℕ). window (put b.buf b.cap i src) b.cap j (len b)) {v = b.tail}
              new_tail_lem (ground (arith, new_tail_lem))
            ∙ window-put_outside src b.buf b.cap b.tail (len b) (b.cap - length src) v.tail_in
                (omega arith) (omega arith) (omega arith)

-- On a valid buffer, `cbuffer_push_back` of an element of a byte at least that does not fit
-- returns false and changes nothing; of one that fits it returns true, keeps the buffer valid, and
-- the element is at the end of the contents.
pub push_back_lem :
    (src : List ℕ) {b : CBuffer}
    → IsValid b
    → 0 < length src
    → let r = push_back src (length src) b in
      ((avail b < length src) × (r ≡ (false, b)))
      ⊎ ((length src ≤ avail b) × (r.0 ≡ true) × IsValid r.1 × (contents r.1 ≡ contents b ++ src))
push_back_lem src {b} v pos = elim (le_or_lt (length src) (avail b)) [
  | inl fits ↦
      let h : length src ≤ b.cap - len b = omega (arith, avail_lem v) in
      rw (push_back_ok src v pos h)
        (inr (fits, refl, (appended-Grown src v pos h).valid, contents-appended src v pos h))
  | inr full ↦ inl (full, push_back_refused src v pos full)
]

-- On a valid buffer, `cbuffer_push_front` of an element of a byte at least that does not fit
-- returns false and changes nothing; of one that fits it returns true, keeps the buffer valid, and
-- the element is in front of the contents.
pub push_front_lem :
    (src : List ℕ) {b : CBuffer}
    → IsValid b
    → 0 < length src
    → let r = push_front src (length src) b in
      ((avail b < length src) × (r ≡ (false, b)))
      ⊎ ((length src ≤ avail b) × (r.0 ≡ true) × IsValid r.1 × (contents r.1 ≡ src ++ contents b))
push_front_lem src {b} v pos = elim (le_or_lt (length src) (avail b)) [
  | inl fits ↦
      let h : length src ≤ b.cap - len b = omega (arith, avail_lem v) in
      rw (push_front_ok src v pos h)
        (inr (fits, refl, prepended-IsValid src v pos h, contents-prepended src v pos h))
  | inr full ↦ inl (full, push_front_refused src v pos full)
]
