-- ===== src/CBuffer/Inv.antt =====
-- The representation invariant of `struct cbuffer` (its DBG_ASSERT, and what the callers promise),
-- and the bytes that a buffer holds.
use c_specx.Base.{
  ◌*◌, ◌/◌, min, ℕ, ◌+◌, ◌-◌, ◌%◌, ◌^◌, ◌≤◌, ◌<◌, ◌≡◌, ap, ap₂, sym, ◌∙◌, true, false, List, ◌++◌,
  leb, ◌==◌, if◌then◌else◌, length, add32_small, sub32_small, arith, [],
}
use native.Mathlib.Nat.{mod-eq_of_lt, mod-eq-sub-mod, div-mul-le_self, le_trans, mul-le-mul_right}
use c_specx.CBuffer.{CBuffer, len, least, avail, advance}
use c_specx.CBuffer.Window.{ahead, window, length-window, window-add, window-zero}

-- `cap` is limited to half of the range of uint32_t, so that no sum of two indices wraps.
abbrev pub max_cap : ℕ
max_cap = 2 ^ 31

pub record IsValid (b : CBuffer) : Type 0 where
  pub nonempty : 0 < b.cap
  pub small : b.cap ≤ max_cap
  pub storage : b.cap ≤ length b.buf
  pub head_in : b.head < b.cap
  pub tail_in : b.tail < b.cap
  pub full_meets : b.isfull ≡ true → b.head ≡ b.tail

-- The bytes in the buffer, oldest first.
abbrev pub contents : CBuffer → List ℕ
contents b = window b.buf b.cap b.tail (len b)

-- `cbuffer_len` in plain arithmetic.
pub len_lem :
    {b : CBuffer}
    → IsValid b
    → len b ≡ (
        if b.isfull
        then b.cap
        else (if leb b.tail b.head then b.head - b.tail else b.cap - (b.tail - b.head)))
unfolding len
len_lem {b} v = ground (
  arith,
  sub32_small b.head b.tail,
  sub32_small b.tail b.head,
  sub32_small b.cap (b.tail - b.head),
)

pub len-le-cap : {b : CBuffer} → IsValid b → len b ≤ b.cap
len-le-cap v = ground (arith, len_lem v)

pub avail_lem : {b : CBuffer} → IsValid b → avail b ≡ b.cap - len b
unfolding avail
avail_lem {b} v = sub32_small b.cap (len b) (len-le-cap v) (omega arith)

pub length-contents : (b : CBuffer) → length (contents b) ≡ len b
length-contents b = length-window b.buf b.cap b.tail (len b)

-- The write cursor stands just behind the bytes in the buffer.
pub head-eq-ahead : {b : CBuffer} → IsValid b → b.head ≡ ahead b.cap b.tail (len b)
head-eq-ahead v = ground (arith, len_lem v)

-- `% cap` of a sum of two indices.
pub mod-eq-ahead : (cap h n : ℕ) → h < cap → n ≤ cap → (h + n) % cap ≡ ahead cap h n
mod-eq-ahead cap h n hh hn = ground (
  arith,
  λ (p : h + n < cap). mod-eq_of_lt {n = h + n} {m = cap} p,
  λ (p : cap ≤ h + n). mod-eq-sub-mod {n = h + n} {m = cap} p,
  λ (p : h + n - cap < cap). mod-eq_of_lt {n = h + n - cap} {m = cap} p,
)

pub advance_lem :
    (b : CBuffer) (h n : ℕ)
    → b.cap ≤ max_cap
    → h < b.cap
    → n ≤ b.cap
    → advance b h n ≡ ahead b.cap h n
unfolding advance
advance_lem b h n hs hh hn =
    ground (arith, add32_small h n (omega arith), mod-eq-ahead b.cap h n hh hn)

-- The two records that follow say what a write of `k` bytes behind the contents, and a read of `k`
-- bytes from their front, do to the cursors.
pub record Grown (b b' : CBuffer) (k : ℕ) : Type 0 where
  pub same_cap : b'.cap ≡ b.cap
  pub same_tail : b'.tail ≡ b.tail
  pub valid : IsValid b'
  pub longer : len b' ≡ len b + k

pub record Shrunk (b b' : CBuffer) (k : ℕ) : Type 0 where
  pub same_cap : b'.cap ≡ b.cap
  pub same_buf : b'.buf ≡ b.buf
  pub valid : IsValid b'
  pub shorter : len b' + k ≡ len b

pub grow :
    {b : CBuffer} (b' : CBuffer) (k : ℕ)
    → IsValid b
    → 0 < k
    → k ≤ b.cap - len b
    → b.cap ≤ length b'.buf
    → b'.cap ≡ b.cap
    → b'.tail ≡ b.tail
    → b'.head ≡ ahead b.cap b.head k
    → b'.isfull ≡ (if b'.head == b.tail then true else b.isfull)
    → Grown b b' k
grow {b} b' k v pos fits room cap_eq tail_eq head_eq full_eq = record {
  same_cap = cap_eq;
  same_tail = tail_eq;
  valid = valid;
  longer = ground (arith, len_lem v, len_lem valid);
}
  where
    valid : IsValid b'
    valid = ground (arith, len_lem v)

pub shrink :
    {b : CBuffer} (b' : CBuffer) (k : ℕ)
    → IsValid b
    → 0 < k
    → k ≤ len b
    → b'.buf ≡ b.buf
    → b'.cap ≡ b.cap
    → b'.head ≡ b.head
    → b'.tail ≡ ahead b.cap b.tail k
    → b'.isfull ≡ false
    → Shrunk b b' k
shrink {b} b' k v pos fits buf_eq cap_eq head_eq tail_eq full_eq = record {
  same_cap = cap_eq;
  same_buf = buf_eq;
  valid = valid;
  shorter = ground (arith, len_lem v, len_lem valid);
}
  where
    valid : IsValid b'
    valid = record {
      nonempty = ground arith;
      small = ground arith;
      storage = ground (arith, ap length buf_eq);
      head_in = ground arith;
      tail_in = ground (arith, len_lem v);
      full_meets = ground arith;
    }

-- What a read of `k` bytes takes from the front, and what it leaves.
pub contents-Shrunk :
    {b b' : CBuffer} (k : ℕ)
    → IsValid b
    → Shrunk b b' k
    → b'.tail ≡ ahead b.cap b.tail k
    → contents b ≡ window b.buf b.cap b.tail k ++ contents b'
contents-Shrunk {b} {b'} k v s e =
    ap (λ (n : ℕ). window b.buf b.cap b.tail n) {y = k + len b'} (omega (arith, s.shorter))
    ∙ window-add b.buf b.cap b.tail k (len b') v.tail_in (omega (arith, s.shorter, len-le-cap v))
    ∙ ap (λ t. window b.buf b.cap b.tail k ++ t)
        (ap (λ (i : ℕ). window b.buf b.cap i (len b')) (sym e)
          ∙ ap₂ (λ (m : List ℕ) (c : ℕ). window m c b'.tail (len b')) (sym s.same_buf)
              (sym s.same_cap))

-- `n` elements of `size` bytes, or as many as `total` bytes hold.
pub least_lem : (n m : ℕ) → least n m ≡ min n m
unfolding least
least_lem n m = ground arith

pub least-mul-le : (n total size : ℕ) → least n (total / size) * size ≤ total
least-mul-le n total size =
    le_trans
      (mul-le-mul_right {m = least n (total / size)} {n = total / size} size
        (omega (arith, least_lem n (total / size))))
      (div-mul-le_self total size)

pub least-le : (n m : ℕ) → least n m ≤ n
least-le n m = omega (arith, least_lem n m)

pub contents-nil : (b : CBuffer) → len b ≡ 0 → contents b ≡ []
contents-nil b e = ap (λ (n : ℕ). window b.buf b.cap b.tail n) e ∙ window-zero b.buf b.cap b.tail
