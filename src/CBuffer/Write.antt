-- ===== src/CBuffer/Write.antt =====
-- `cbuffer_write`: how many bytes it takes, and which.
use c_specx.Base.{
  ℕ, zero, suc, ◌+◌, ◌-◌, ◌*◌, ◌/◌, ◌≤◌, ◌<◌, ◌≡◌, refl, sym, ap, ap₂, ◌∙◌, List, [], ◌++◌,
  append-nil, append_assoc, length, take, drop, splice, length-splice, length-take, length-drop,
  take-add, length-append, subst, lt→ltb, lt→ltb, sub32_small, arith, ◌*◌, min, mul32_small,
}
use c_specx.CBuffer.{CBuffer, len, write_loop, write_next, write_step, write, least}
use native.Mathlib.Nat.{le_trans, mul-le-mul_right}
use c_specx.CBuffer.Window.{window, window-splice}
use c_specx.CBuffer.Inv.{
  IsValid, contents, length-contents, len_lem, len-le-cap, head-eq-ahead, advance_lem, Grown, grow,
  least-mul-le, least-le, least_lem,
}

-- A round writes a piece that is not empty and that reaches neither the end of the array nor `tail`.
record IsPiece (b : CBuffer) (left next : ℕ) : Type 0 where
  some_left : 0 < next
  within : next ≤ left
  no_wrap : b.head + next ≤ b.cap

write_next-IsPiece :
    {b : CBuffer} (left : ℕ)
    → IsValid b
    → 0 < left
    → left ≤ b.cap - len b
    → IsPiece b left (write_next b left).1
unfolding write_next
write_next-IsPiece {b} left v pos fits =
    ground (arith, len_lem v, sub32_small b.cap b.head, sub32_small b.tail b.head)

-- `cap - head` is not 0, so the loop does not move `head` before it writes.
write_next_at : {b : CBuffer} (left : ℕ) → IsValid b → 0 < left → (write_next b left).0 ≡ b.head
unfolding write_next
write_next_at {b} left v pos = ground (arith, sub32_small b.cap b.head)

-- A write of a piece behind the contents, whatever operation makes it.
pub contents-splice :
    {b b' : CBuffer} (ys : List ℕ) (k : ℕ)
    → IsValid b
    → length ys ≡ k
    → Grown b b' k
    → b.head + k ≤ b.cap
    → b'.buf ≡ splice b.buf b.head ys
    → contents b' ≡ contents b ++ ys
contents-splice {b} {b'} ys k v e g fit buf_eq =
    ap₂ (λ (t n : ℕ). window b'.buf b'.cap t n) {v = len b + length ys} g.same_tail
      (omega (arith, g.longer))
    ∙ ap₂ (λ (m : List ℕ) (c : ℕ). window m c b.tail (len b + length ys))
        (buf_eq ∙ ap (λ (i : ℕ). splice b.buf i ys) (head-eq-ahead v)) g.same_cap
    ∙ window-splice ys b.buf b.cap b.tail (len b) v.storage v.tail_in
        (omega (arith, g.longer, g.same_cap, len-le-cap g.valid)) (omega (arith, head-eq-ahead v))

module _ {b : CBuffer} (v : IsValid b) (next : ℕ) (input : List ℕ) (pos : 0 < next)
    (fits : next ≤ b.cap - len b) where
  write_step-Grown : Grown b (write_step b b.head next input) next
  unfolding write_step
  write_step-Grown =
      grow _ next v pos fits
        (omega (arith, v.storage, length-splice b.buf b.head (take next input))) refl refl
        (advance_lem b b.head next v.small v.head_in (omega arith)) refl

  contents-write_step :
      b.head + next ≤ b.cap
      → next ≤ length input
      → contents (write_step b b.head next input) ≡ contents b ++ take next input
  unfolding write_step
  contents-write_step fit enough =
      contents-splice (take next input) next v (omega (arith, length-take next input))
        write_step-Grown fit refl

-- What the loop has done when it stops, started with `left` bytes of `input` to write.
pub record Wrote (b : CBuffer) (ys : List ℕ) (b' : CBuffer) : Type 0 where
  pub same_cap : b'.cap ≡ b.cap
  pub valid : IsValid b'
  pub bytes : contents b' ≡ contents b ++ ys

pub Wrote-trans :
    {a b c : CBuffer} (xs ys : List ℕ) → Wrote a xs b → Wrote b ys c → Wrote a (xs ++ ys) c
Wrote-trans {a} xs ys p q = record {
  same_cap = q.same_cap ∙ p.same_cap;
  valid = q.valid;
  bytes = q.bytes ∙ ap (λ t. t ++ ys) p.bytes ∙ append_assoc (contents a) xs ys;
}

pub Wrote-nil : {b : CBuffer} → IsValid b → Wrote b [] b
Wrote-nil {b} v = record { same_cap = refl; valid = v; bytes = sym (append-nil (contents b)) }

-- A round of the loop.
write_step-Wrote :
    {b : CBuffer} (next left : ℕ) (input : List ℕ)
    → IsValid b
    → IsPiece b left next
    → left ≤ b.cap - len b
    → left ≤ length input
    → Wrote b (take next input) (write_step b b.head next input)
write_step-Wrote {b} next left input v p fits enough = record {
  same_cap = g.same_cap;
  valid = g.valid;
  bytes =
      contents-write_step v next input p.some_left (omega (arith, p.within)) p.no_wrap
        (omega (arith, p.within));
}
  where
    g : Grown b (write_step b b.head next input) next
    g = write_step-Grown v next input p.some_left (omega (arith, p.within))

pub length-Wrote : {b b' : CBuffer} (ys : List ℕ) → Wrote b ys b' → len b' ≡ len b + length ys
length-Wrote {b} {b'} ys w =
    omega (
      arith,
      ap length w.bytes,
      length-append (contents b) ys,
      length-contents b,
      length-contents b',
    )

write_loop-suc :
    (b : CBuffer) (fuel : ℕ) (input : List ℕ) (left : ℕ)
    → 0 < left
    → (write_next b left).0 ≡ b.head
    → let next = (write_next b left).1 in
      write_loop (suc fuel) b input left
      ≡ write_loop fuel (write_step b b.head next input) (drop next input) (left - next)
unfolding write_loop
write_loop-suc b fuel input left pos e = rw (lt→ltb 0 left pos, e)

write_loop-zero : (b : CBuffer) (fuel : ℕ) (input : List ℕ) → write_loop fuel b input 0 ≡ b
unfolding write_loop
write_loop-zero b zero input = refl
write_loop-zero b (suc fuel) input = refl

-- One round, then the rest of the loop.
module _ (fuel : ℕ) {b : CBuffer} (input : List ℕ) (left next : ℕ) where
  next_round :
      IsValid b
      → IsPiece b left next
      → left ≤ b.cap - len b
      → left ≤ length input
      → Wrote
          (write_step b b.head next input)
          (take (left - next) (drop next input))
          (write_loop fuel (write_step b b.head next input) (drop next input) (left - next))
      → Wrote b
          (take left input)
          (write_loop fuel (write_step b b.head next input) (drop next input) (left - next))
  next_round v p fits enough rest =
      subst
        (λ ys.
          Wrote b ys
            (write_loop fuel (write_step b b.head next input) (drop next input) (left - next)))
        (sym (take-add next (left - next) input)
          ∙ ap (λ (k : ℕ). take k input) (omega (arith, p.within)))
        (Wrote-trans (take next input) (take (left - next) (drop next input))
          (write_step-Wrote next left input v p fits enough) rest)

write_loop-Wrote :
    (fuel : ℕ) {b : CBuffer} (input : List ℕ) (left : ℕ)
    → IsValid b
    → left ≤ fuel
    → left ≤ b.cap - len b
    → left ≤ length input
    → Wrote b (take left input) (write_loop fuel b input left)
write_loop-Wrote fuel {b} input zero v hf hr hi = rw (write_loop-zero b fuel input) (Wrote-nil v)
write_loop-Wrote zero {b} input (suc k) v hf hr hi = elim hf [ ]
write_loop-Wrote (suc fuel) {b} input (suc k) v hf hr hi =
    rw (write_loop-suc b fuel input (suc k) (omega arith) (write_next_at (suc k) v (omega arith))) (
      next_round fuel input (suc k) next v p hr hi (
        write_loop-Wrote fuel (drop next input) (suc k - next) s.valid (omega (arith, p.some_left))
          (omega (arith, p.within, s.same_cap, length-step))
          (omega (arith, p.within, length-drop next input))))
  where
    next : ℕ
    next = (write_next b (suc k)).1

    p : IsPiece b (suc k) next
    p = write_next-IsPiece (suc k) v (omega arith) hr

    s : Wrote b (take next input) (write_step b b.head next input)
    s = write_step-Wrote next (suc k) input v p hr hi

    length-step : len (write_step b b.head next input) ≡ len b + next
    length-step = omega (arith, length-Wrote (take next input) s, length-take next input, p.within)

-- To a valid buffer, `cbuffer_write` from a source of `n` elements at least takes as many whole
-- elements as fit, up to `n`, and appends exactly their bytes in order; the buffer stays valid.
pub write_lem :
    (src : List ℕ) (size n : ℕ) {b : CBuffer}
    → IsValid b
    → n * size ≤ length src
    → let (k, b') = write src size n b in
      (k ≡ min n ((b.cap - len b) / size))
      × (b'.cap ≡ b.cap)
      × IsValid b'
      × (contents b' ≡ contents b ++ take (k * size) src)
unfolding write
write_lem src size n {b} v enough =
    rw
      (
        sub32_small b.cap (len b) (len-le-cap v) (omega (arith, v.small)),
        mul32_small k size (omega (arith, fits, v.small)),
      )
      (least_lem n (room / size), w.same_cap, w.valid, w.bytes)
  where
    room : ℕ
    room = b.cap - len b

    k : ℕ
    k = least n (room / size)

    fits : k * size ≤ room
    fits = least-mul-le n room size

    w : Wrote b (take (k * size) src) (write_loop (k * size) b src (k * size))
    w =
        write_loop-Wrote (k * size) src (k * size) v (omega arith) fits
          (le_trans (mul-le-mul_right size (least-le n (room / size))) enough)
