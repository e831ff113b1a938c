-- ===== src/CBuffer/Element/Pop.antt =====
-- `cbuffer_pop_front` and `cbuffer_pop_back`: what they take, and the round trips with the pushes.
use c_specx.Base.{
  ℕ, ◌+◌, ◌-◌, ◌≤◌, ◌<◌, ◌≡◌, refl, sym, ap, ◌∙◌, ◌⊎◌, inl, inr, false, List, ◌++◌, none, some,
  length, arith, take, drop, take-length-append, drop-length-append, length-append, append_assoc,
}
use c_specx.CBuffer.{CBuffer, len, avail, advance}
use c_specx.CBuffer.Window.{ahead, length-window}
use c_specx.CBuffer.Inv.{
  IsValid, contents, len_lem, len-le-cap, advance_lem, Shrunk, shrink, contents-Shrunk,
  length-contents,
}
use c_specx.CBuffer.Element.{pop_back, pop_front, load, push_front, push_back}
use c_specx.CBuffer.Element.Push.{push_front_lem, push_back_lem}
use c_specx.CBuffer.Element.Piece.{load-eq-window}

-- The bodies of the two pops have one text.
pop_back-eq-pop_front : (size : ℕ) (b : CBuffer) → pop_back size b ≡ pop_front size b
unfolding pop_back pop_front
pop_back-eq-pop_front size b = refl

module _ (size : ℕ) {b : CBuffer} (v : IsValid b) where
  -- The buffer that a pop leaves.
  abbrev popped : CBuffer
  popped = record b { tail = advance b b.tail size; isfull = false }

  pop_front_empty : len b ≡ 0 → pop_front size b ≡ none
  unfolding pop_front
  pop_front_empty h = ground (arith, len_lem v)

  pop_front-some : 0 < len b → pop_front size b ≡ some (load b b.tail size, popped)
  unfolding pop_front
  pop_front-some h = ground (arith, len_lem v)

  module _ (pos : 0 < size) (fits : size ≤ len b) where
    moved : advance b b.tail size ≡ ahead b.cap b.tail size
    moved = advance_lem b b.tail size v.small v.tail_in (omega (arith, len-le-cap v))

    popped-Shrunk : Shrunk b popped size
    popped-Shrunk = shrink popped size v pos fits refl refl refl moved refl

    contents-popped : contents b ≡ load b b.tail size ++ contents popped
    contents-popped =
        contents-Shrunk size v popped-Shrunk moved
        ∙ ap (λ t. t ++ contents popped)
            (sym (load-eq-window b.tail size v v.tail_in (omega (arith, len-le-cap v))))

    length-load : length (load b b.tail size) ≡ size
    length-load =
        ap length (load-eq-window b.tail size v v.tail_in (omega (arith, len-le-cap v)))
        ∙ length-window b.buf b.cap b.tail size

-- On a valid buffer, for elements of a byte at least, `cbuffer_pop_front` returns false where the
-- buffer is empty; where it holds a whole element it returns the oldest `size` bytes, which leave
-- the contents, and keeps the buffer valid.
pub pop_front_lem :
    (size : ℕ) {b : CBuffer}
    → IsValid b
    → 0 < size
    → (size ≤ len b) ⊎ (len b ≡ 0)
    → ((len b ≡ 0) × (pop_front size b ≡ none))
      ⊎ ((out : List ℕ) × (b' : CBuffer) × (pop_front size b ≡ some (out, b'))
          × IsValid b'
          × (length out ≡ size)
          × (contents b ≡ out ++ contents b'))
pop_front_lem size {b} v pos (inr empty) = inl (empty, pop_front_empty size v empty)
pop_front_lem size {b} v pos (inl fits) = inr (
  load b b.tail size,
  popped size v,
  pop_front-some size v (omega arith),
  (popped-Shrunk size v pos fits).valid,
  length-load size v pos fits,
  contents-popped size v pos fits,
)

-- On a valid buffer that is not empty and has fewer bytes than an element, which is smaller than
-- the capacity, `cbuffer_pop_front` still returns true, and the buffer then counts as many bytes
-- as the capacity and those it had, less an element.
pub pop_front_short :
    (size : ℕ) {b : CBuffer}
    → IsValid b
    → 0 < len b
    → len b < size
    → size < b.cap
    → (out : List ℕ) × (b' : CBuffer) × (pop_front size b ≡ some (out, b'))
      × (len b' ≡ b.cap + len b - size)
pop_front_short size {b} v some_left short small =
    (load b b.tail size, popped size v, pop_front-some size v some_left, len-popped)
  where
    moved_past : advance b b.tail size ≡ ahead b.cap b.tail size
    moved_past = advance_lem b b.tail size v.small v.tail_in (omega arith)

    valid : IsValid (popped size v)
    valid = ground (arith, moved_past)

    len-popped : len (popped size v) ≡ b.cap + len b - size
    len-popped = ground (arith, moved_past, len_lem v, len_lem valid)

-- An element of a byte at least that fits in a valid buffer and is pushed on the front comes back
-- by `cbuffer_pop_front`; the buffer is then valid and holds what it held before.
pub pop_front-push_front :
    (src : List ℕ) {b : CBuffer}
    → IsValid b
    → 0 < length src
    → length src ≤ avail b
    → (b' : CBuffer) × (pop_front (length src) (push_front src (length src) b).1 ≡ some (src, b'))
      × IsValid b'
      × (contents b' ≡ contents b)
pop_front-push_front src {b} v pos fits = elim (push_front_lem src v pos) [
  | inl (full, _) ↦ absurd (omega arith)
  | inr (_, _, valid, bytes) ↦
      elim (pop_front_lem (length src) valid pos (inl (room valid bytes))) [
        | inl (empty, _) ↦ absurd (omega (arith, room valid bytes))
        | inr (out, b', e, valid', size_eq, split) ↦
            let same : src ++ contents b ≡ out ++ contents b' = sym bytes ∙ split in
            (
              b',
              e
                  ∙ ap (λ (t : List ℕ). some (t, b'))
                      (sym (take-length-append out (contents b') (length src) (sym size_eq))
                        ∙ ap (take (length src)) (sym same)
                        ∙ take-length-append src (contents b) (length src) refl),
              valid',
              sym (drop-length-append out (contents b') (length src) (sym size_eq))
                  ∙ ap (drop (length src)) (sym same)
                  ∙ drop-length-append src (contents b) (length src) refl,
            )
      ]
]
  where
    room : {b' : CBuffer} → IsValid b' → contents b' ≡ src ++ contents b → length src ≤ len b'
    room {b'} valid bytes =
        omega (arith, ap length bytes, length-append src (contents b), length-contents b')

-- Elements of one size, of a byte at least: `cbuffer_pop_back` after a `cbuffer_push_back` that fits
-- into a valid buffer that holds the element `old` and `rest` behind it returns `old`, the oldest, and
-- not the element that was pushed; the buffer is valid and holds `rest` and, behind it, that element.
pub pop_back-push_back :
    (old src rest : List ℕ) {b : CBuffer}
    → IsValid b
    → 0 < length src
    → length old ≡ length src
    → length src ≤ avail b
    → contents b ≡ old ++ rest
    → (b' : CBuffer) × (pop_back (length src) (push_back src (length src) b).1 ≡ some (old, b'))
      × IsValid b'
      × (contents b' ≡ rest ++ src)
pop_back-push_back old src rest {b} v pos same fits holds = elim (push_back_lem src v pos) [
  | inl (full, _) ↦ absurd (omega arith)
  | inr (_, _, valid, bytes) ↦
      let now : contents (push_back src (length src) b).1 ≡ old ++ (rest ++ src) =
        bytes ∙ ap (λ t. t ++ src) holds ∙ append_assoc old rest src in
      elim (pop_front_lem (length src) valid pos (inl (room valid now))) [
        | inl (empty, _) ↦ absurd (omega (arith, room valid now))
        | inr (out, b', e, valid', size_eq, split) ↦
            let both : old ++ (rest ++ src) ≡ out ++ contents b' = sym now ∙ split in
            (
              b',
              pop_back-eq-pop_front (length src) (push_back src (length src) b).1
                  ∙ e
                  ∙ ap (λ (t : List ℕ). some (t, b'))
                      (sym (take-length-append out (contents b') (length src) (sym size_eq))
                        ∙ ap (take (length src)) (sym both)
                        ∙ take-length-append old (rest ++ src) (length src) (sym same)),
              valid',
              sym (drop-length-append out (contents b') (length src) (sym size_eq))
                  ∙ ap (drop (length src)) (sym both)
                  ∙ drop-length-append old (rest ++ src) (length src) (sym same),
            )
      ]
]
  where
    room : {b' : CBuffer} → IsValid b' → contents b' ≡ old ++ (rest ++ src) → length src ≤ len b'
    room {b'} valid now =
        omega (arith, ap length now, same, length-append old (rest ++ src), length-contents b')
