-- ===== src/CBuffer/FileIo/WriteTo.antt =====
-- `cbuffer_write_to_file`: the file gets the oldest bytes.
use c_specx.Base.{
  ℕ, zero, suc, ◌+◌, ◌-◌, ◌≤◌, ◌<◌, min, ◌≡◌, refl, sym, ap, ap₂, ◌∙◌, ◌⊎◌, inl, inr, Bool, true,
  false, List, ◌++◌, Option, none, some, arith, take, drop, Bool-cases, take-length-append,
  sub32_small, ◌≢◌, ◌==◌, ==_iff, ◌^◌,
}
use c_specx.CBuffer.{CBuffer, len, fakeread}
use c_specx.CBuffer.Window.{
  ahead, window, window-add, length-window, ahead_zero, window-zero, window-eq-slice, ahead_add,
  ahead_lt,
}
use c_specx.CBuffer.Inv.{IsValid, contents, len_lem, len-le-cap}
use c_specx.CBuffer.Cursor.{fakeread_lem}
use c_specx.CBuffer.FileIo.{
  gather, drain_next, drain_iov, write_to_file_1, write_to_file_2, write_to_file, commit_write,
}
use c_specx.CBuffer.FileIo.ReadFrom.{as_result_small}
use c_specx.CBuffer.FileIo.Vector.{
  advance-ahead, drain_iov-zero, drain_iov-suc, gather-nil, gather-cons,
}

write_to_file_2-eq-fakeread : (b : CBuffer) (k : ℕ) → write_to_file_2 b k ≡ fakeread b k
unfolding write_to_file_2 fakeread
write_to_file_2-eq-fakeread b k = refl

module _ {b : CBuffer} (v : IsValid b) where
  drain_next_lem :
      (n left : ℕ)
      → 0 < left
      → n + left ≤ len b
      → let next = drain_next b (ahead b.cap b.tail n) left in
        (0 < next) × (next ≤ left) × (ahead b.cap b.tail n + next ≤ b.cap)
  unfolding drain_next
  drain_next_lem n left pos room = ground (
    arith,
    len_lem v,
    sub32_small b.cap (ahead b.cap b.tail n),
    sub32_small b.head (ahead b.cap b.tail n),
  )

  -- The regions, one behind the other, are a stretch of the contents.
  gather-drain :
      (fuel n left : ℕ)
      → left ≤ fuel
      → n + left ≤ len b
      → gather b.buf (drain_iov fuel b (ahead b.cap b.tail n) left)
        ≡ window b.buf b.cap (ahead b.cap b.tail n) left
  gather-drain fuel n zero hf room =
      ap (gather b.buf) (drain_iov-zero b fuel (ahead b.cap b.tail n))
      ∙ gather-nil b.buf
      ∙ sym (window-zero b.buf b.cap (ahead b.cap b.tail n))
  gather-drain zero n (suc k) hf room = elim hf [ ]
  gather-drain (suc fuel) n (suc k) hf room =
      ap (gather b.buf) (drain_iov-suc b fuel h (suc k) (omega arith))
      ∙ gather-cons b.buf h next _
      ∙ ap₂ ◌++◌ (sym (window-eq-slice b.buf b.cap h next v.storage p.2)) (
          ap (λ (i : ℕ). gather b.buf (drain_iov fuel b i (suc k - next)))
            (advance-ahead v n next (omega (arith, p, len-le-cap v)))
          ∙ gather-drain fuel (n + next) (suc k - next) (omega (arith, p)) (omega (arith, p))
          ∙ ap (λ (i : ℕ). window b.buf b.cap i (suc k - next))
              (sym (ahead_add b.cap b.tail n next v.tail_in (omega (arith, p, len-le-cap v)))))
      ∙ sym (
          window-add b.buf b.cap h next (suc k - next)
            (ahead_lt b.cap b.tail n v.tail_in (omega (arith, len-le-cap v)))
            (omega (arith, p, len-le-cap v)))
      ∙ ap (λ (m : ℕ). window b.buf b.cap h m) (omega (arith, p))
    where
      h : ℕ
      h = ahead b.cap b.tail n

      next : ℕ
      next = drain_next b h (suc k)

      p : (0 < next) × (next ≤ suc k) × (h + next ≤ b.cap)
      p = drain_next_lem n (suc k) (omega arith) room

  -- What is handed to the file.
  gathered : (k : ℕ) → k ≤ len b → gather b.buf (drain_iov k b b.tail k) ≡ take k (contents b)
  gathered k fits =
      ap (λ (i : ℕ). gather b.buf (drain_iov k b i k)) (sym (ahead_zero b.cap b.tail v.tail_in))
      ∙ gather-drain k 0 k (omega arith) (omega arith)
      ∙ ap (λ (i : ℕ). window b.buf b.cap i k) (ahead_zero b.cap b.tail v.tail_in)
      ∙ sym (
          ap (λ (n : ℕ). take k (window b.buf b.cap b.tail n)) {y = k + (len b - k)} (omega arith)
          ∙ ap (take k)
              (window-add b.buf b.cap b.tail k (len b - k) v.tail_in (omega (arith, len-le-cap v)))
          ∙ take-length-append (window b.buf b.cap b.tail k) _ k
              (sym (length-window b.buf b.cap b.tail k)))

-- The branches of the first half.
module _ (writev : List ℕ → Bool) (n : ℕ) {b : CBuffer} (v : IsValid b) where
  abbrev k : ℕ
  k = min (len b) n

  handed : gather b.buf (drain_iov k b b.tail k) ≡ take k (contents b)
  handed = gathered v k (omega arith)

  idle_branch : (k == 0) ≡ true → write_to_file_1 writev b n ≡ some 0
  unfolding write_to_file_1
  idle_branch e = rw e refl

  taken_branch :
      (k == 0) ≡ false
      → writev (take k (contents b)) ≡ true
      → b.cap < 2 ^ 31
      → write_to_file_1 writev b n ≡ some k
  unfolding write_to_file_1
  taken_branch e h narrow = rw (e, handed, h, as_result_small k (omega (arith, len-le-cap v))) refl

  refused_branch :
      (k == 0) ≡ false → writev (take k (contents b)) ≡ false → write_to_file_1 writev b n ≡ none
  unfolding write_to_file_1
  refused_branch e h = rw (e, handed, h) refl

  committed :
      (r : Option ℕ × CBuffer)
      → r ≡ (some k, write_to_file_2 b k)
      → (r.0 ≡ some k) × IsValid r.1 × (contents r.1 ≡ drop k (contents b))
  committed r e =
      let (valid, rest) = fakeread_lem k v (omega arith) in
      rw (e, write_to_file_2-eq-fakeread b k) (refl, valid, rest)

-- `cbuffer_write_to_file` from a valid buffer hands the oldest bytes to the file, as many as there
-- are, up to `n`. If the file takes them, or there are none, they leave the buffer, which stays
-- valid, and their number is returned; if it does not, the buffer stays as it is. The capacity is less than
-- 2^31, so that the count fits the int32_t that is returned.
pub write_to_file_lem :
    (writev : List ℕ → Bool) (n : ℕ) {b : CBuffer}
    → IsValid b
    → b.cap < 2 ^ 31
    → let k = min (len b) n in
      let r = write_to_file writev b n in
      ((k ≢ 0) × (writev (take k (contents b)) ≡ false) × (r ≡ (none, b)))
      ⊎ (((k ≡ 0) ⊎ (writev (take k (contents b)) ≡ true))
          × (r.0 ≡ some k)
          × IsValid r.1
          × (contents r.1 ≡ drop k (contents b)))
unfolding write_to_file
write_to_file_lem writev n {b} v narrow = elim (Bool-cases (min (len b) n == 0)) [
  | inl none_left ↦
      let e : min (len b) n ≡ 0 = (==_iff _ 0).0 none_left in
      let c =
        committed writev n v _
          (ap (commit_write b) (idle_branch writev n v none_left ∙ ap some (sym e))) in
      inr (inl e, c.0, c.1, c.2)
  | inr some_left ↦ elim (Bool-cases (writev (take (min (len b) n) (contents b)))) [
    | inl h ↦
        let c =
          committed writev n v _
            (ap (commit_write b) (taken_branch writev n v some_left h narrow)) in
        inr (inr h, c.0, c.1, c.2)
    | inr h ↦ inl (ground arith, h, ap (commit_write b) (refused_branch writev n v some_left h))
  ]
]
