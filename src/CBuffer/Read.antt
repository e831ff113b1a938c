-- ===== src/CBuffer/Read.antt =====
-- `cbuffer_read` and `cbuffer_copy`: how many bytes they hand out, and which.
use c_specx.Base.{
  inl, inr, ℕ, zero, suc, ◌+◌, ◌-◌, ◌*◌, ◌/◌, ◌≤◌, ◌<◌, min, ◌≡◌, refl, sym, ap, ◌∙◌, List, [],
  ◌++◌, append_assoc, length, slice, length-slice, length-append, lt→ltb, sub32_small, mul32,
  mul32_small, arith, Bool, Bool-cases, ltb, false,
}
use c_specx.CBuffer.{
  CBuffer, len, advance, least, read, copy, copy_loop, read_loop, read_next, read_step,
}
use c_specx.CBuffer.Window.{window-eq-slice, ahead}
use c_specx.CBuffer.Inv.{
  IsValid, contents, length-contents, len_lem, len-le-cap, advance_lem, Shrunk, shrink,
  contents-Shrunk, least_lem, least-mul-le,
}

-- A round reads a piece that is not empty and that does not reach past the end of the array.
record IsPiece (b : CBuffer) (left next : ℕ) : Type 0 where
  some_left : 0 < next
  within : next ≤ left
  no_wrap : b.tail + next ≤ b.cap

read_next-IsPiece :
    {b : CBuffer} (left : ℕ)
    → IsValid b
    → 0 < left
    → left ≤ len b
    → IsPiece b left (read_next b left)
unfolding read_next
read_next-IsPiece {b} left v pos fits =
    ground (arith, len_lem v, sub32_small b.head b.tail, sub32_small b.cap b.tail)

-- What a read that hands out `out` has done.
pub record Took (b : CBuffer) (out : List ℕ) (b' : CBuffer) : Type 0 where
  pub same_cap : b'.cap ≡ b.cap
  pub same_buf : b'.buf ≡ b.buf
  pub valid : IsValid b'
  pub bytes : contents b ≡ out ++ contents b'

pub Took-nil : {b : CBuffer} → IsValid b → Took b [] b
Took-nil v = record { same_cap = refl; same_buf = refl; valid = v; bytes = refl }

pub Took-trans :
    {a b c : CBuffer} (xs ys : List ℕ) → Took a xs b → Took b ys c → Took a (xs ++ ys) c
Took-trans {c = c} xs ys p q = record {
  same_cap = q.same_cap ∙ p.same_cap;
  same_buf = q.same_buf ∙ p.same_buf;
  valid = q.valid;
  bytes = p.bytes ∙ ap (λ t. xs ++ t) q.bytes ∙ sym (append_assoc xs ys (contents c));
}

-- A read of a piece from the front, whatever operation makes it.
pub Took-slice :
    {b b' : CBuffer} (k : ℕ)
    → IsValid b
    → Shrunk b b' k
    → b.tail + k ≤ b.cap
    → b'.tail ≡ ahead b.cap b.tail k
    → Took b (slice b.buf b.tail k) b'
Took-slice {b} {b'} k v s fit e = record {
  same_cap = s.same_cap;
  same_buf = s.same_buf;
  valid = s.valid;
  bytes =
      contents-Shrunk k v s e
      ∙ ap (λ t. t ++ contents b') (window-eq-slice b.buf b.cap b.tail k v.storage fit);
}

module _ {b : CBuffer} (v : IsValid b) (next : ℕ) (pos : 0 < next) (fits : next ≤ len b) where
  pub read_step-tail : (read_step b next).tail ≡ ahead b.cap b.tail next
  unfolding read_step
  read_step-tail = advance_lem b b.tail next v.small v.tail_in (omega (arith, len-le-cap v))

  pub read_step-Took : b.tail + next ≤ b.cap → Took b (slice b.buf b.tail next) (read_step b next)
  unfolding read_step
  read_step-Took fit =
      Took-slice next v (shrink _ next v pos fits refl refl refl read_step-tail refl) fit
        read_step-tail

pub length-Took : {b b' : CBuffer} (out : List ℕ) → Took b out b' → len b' + length out ≡ len b
length-Took {b} {b'} out t = omega (
  arith,
  ap length t.bytes,
  length-append out (contents b'),
  length-contents b,
  length-contents b',
)

-- The loop hands out `left` bytes.
abbrev Done : CBuffer → ℕ → List ℕ × CBuffer → Type 0
Done b left r = Took b r.0 r.1 × (length r.0 ≡ left)

read_loop-zero : (b : CBuffer) (fuel : ℕ) → read_loop fuel b 0 ≡ ([], b)
unfolding read_loop
read_loop-zero b zero = refl
read_loop-zero b (suc fuel) = refl

read_loop-suc :
    (b : CBuffer) (fuel left : ℕ)
    → 0 < left
    → let next = read_next b left in
      let rest = read_loop fuel (read_step b next) (left - next) in
      read_loop (suc fuel) b left ≡ (slice b.buf b.tail next ++ rest.0, rest.1)
unfolding read_loop
read_loop-suc b fuel left pos = rw (lt→ltb 0 left pos)

read_loop-Done :
    (fuel : ℕ) {b : CBuffer} (left : ℕ)
    → IsValid b
    → left ≤ fuel
    → left ≤ len b
    → Done b left (read_loop fuel b left)
read_loop-Done fuel {b} zero v hf hr = rw (read_loop-zero b fuel) (Took-nil v, refl)
read_loop-Done zero {b} (suc k) v hf hr = elim hf [ ]
read_loop-Done (suc fuel) {b} (suc k) v hf hr =
    let rest =
      read_loop-Done fuel (suc k - next) first.valid (omega (arith, p.some_left))
        (omega (arith, length-Took (slice b.buf b.tail next) first, length-first)) in
    rw (read_loop-suc b fuel (suc k) (omega arith)) (
      Took-trans (slice b.buf b.tail next) _ first rest.0,
      omega (
        arith,
        p.within,
        rest.1,
        length-first,
        length-append (slice b.buf b.tail next)
            (read_loop fuel (read_step b next) (suc k - next)).0,
      ),
    )
  where
    next : ℕ
    next = read_next b (suc k)

    p : IsPiece b (suc k) next
    p = read_next-IsPiece (suc k) v (omega arith) hr

    first : Took b (slice b.buf b.tail next) (read_step b next)
    first = read_step-Took v next p.some_left (omega (arith, p.within)) p.no_wrap

    length-first : length (slice b.buf b.tail next) ≡ next
    length-first = length-slice b.buf b.tail next (omega (arith, p.no_wrap, v.storage))

-- Of a valid buffer, `cbuffer_read` hands out as many whole elements as there are, up to `n`,
-- oldest first; they leave the buffer, its capacity stays, and it stays valid.
pub read_lem :
    (size n : ℕ) {b : CBuffer}
    → IsValid b
    → let (k, out, b') = read size n b in
      (k ≡ min n (len b / size)) × (length out ≡ k * size) × Took b out b'
unfolding read
read_lem size n {b} v =
    rw (mul32_small k size (omega (arith, least-mul-le n (len b) size, len-le-cap v, v.small)))
      (least_lem n (len b / size), done.1, done.0)
  where
    k : ℕ
    k = least n (len b / size)

    done : Done b (k * size) (read_loop (k * size) b (k * size))
    done = read_loop-Done (k * size) (k * size) v (omega arith) (least-mul-le n (len b) size)

copy_loop-eq-read_loop :
    (fuel : ℕ) (b : CBuffer) (tail : ℕ) (isfull : Bool) (left : ℕ)
    → copy_loop fuel b tail isfull left
      ≡ (read_loop fuel (record b { tail = tail; isfull = isfull }) left).0
unfolding copy_loop read_loop read_step read_next advance
copy_loop-eq-read_loop zero b tail isfull left = refl
copy_loop-eq-read_loop (suc fuel) b tail isfull left = elim (Bool-cases (ltb 0 left)) [
  | inl more ↦ rw (more, copy_loop-eq-read_loop fuel b _ false _) refl
  | inr done ↦ rw done refl
]

-- From a valid buffer, `cbuffer_copy` hands out the same elements as `cbuffer_read` would, and
-- their bytes are a prefix of the contents.
pub copy_lem :
    (size n : ℕ) {b : CBuffer}
    → IsValid b
    → let (k, out) = copy size n b in
      let (k', out', b') = read size n b in
      (k ≡ k') × (out ≡ out') × (contents b ≡ out ++ contents b')
unfolding copy read
copy_lem size n {b} v =
    let btoread = mul32 (least n (len b / size)) size in
    let same = copy_loop-eq-read_loop btoread b b.tail b.isfull btoread in
    (refl, same, rw same (read_lem size n v).2.bytes)
