-- ===== src/CBuffer/FileIo/ReadFrom.antt =====
-- `cbuffer_read_from_file`: what the file delivers joins the end of the contents.
use c_specx.Base.{
  ℕ, ◌+◌, ◌-◌, ◌≤◌, ◌<◌, min, ◌≡◌, refl, sym, ap, ◌∙◌, inl, inr, true, false, List, ◌++◌, Option,
  none, some, length, arith, take, Bool-cases, take-length-append, ◌==◌, ==_iff, ◌^◌, u32_mod,
  lt→ltb, ◌%◌,
}
use c_specx.CBuffer.{CBuffer, len, avail, fakewrite}
use c_specx.CBuffer.Window.{window, window-add, length-window}
use c_specx.CBuffer.Inv.{
  IsValid, contents, len_lem, len-le-cap, avail_lem, head-eq-ahead, length-contents,
}
use c_specx.CBuffer.Cursor.{fakewrite_lem, fakewrite-zero}
use c_specx.CBuffer.FileIo.{
  Reply, scatter, fill_iov, as_result, read_from_file_1, read_from_file_2, read_from_file,
  commit_read,
}
use c_specx.CBuffer.FileIo.Vector.{window-fill, length-scatter}

pub as_result_small : (n : ℕ) → n < 2 ^ 31 → as_result n ≡ some n
unfolding as_result
as_result_small n h =
    let whole : n % u32_mod ≡ n = omega arith in rw (whole, lt→ltb n (2 ^ 31) h) refl

-- The second half of the read moves the cursor as `cbuffer_fakewrite` does.
read_from_file_2-eq-fakewrite : (b : CBuffer) (k : ℕ) → read_from_file_2 b k ≡ fakewrite b k
unfolding read_from_file_2 fakewrite
read_from_file_2-eq-fakewrite b k = ground arith

module _ {b : CBuffer} (v : IsValid b) (want : ℕ) (room : want ≤ b.cap - len b) (bytes : List ℕ)
    (few : length bytes ≤ want) where
  -- The buffer over the array that the read has filled.
  abbrev filled : CBuffer
  filled = record b { buf = scatter b.buf (fill_iov want b b.head want) bytes }

  filled-IsValid : IsValid filled
  filled-IsValid = record {
    nonempty = v.nonempty;
    small = v.small;
    storage = omega (arith, v.storage, length-scatter (fill_iov want b b.head want) b.buf bytes);
    head_in = v.head_in;
    tail_in = v.tail_in;
    full_meets = v.full_meets;
  }

  len-filled : len filled ≡ len b
  len-filled = ground (arith, len_lem v, len_lem filled-IsValid)

  window-filled : window filled.buf b.cap b.tail (len b + length bytes) ≡ contents b ++ bytes
  window-filled =
      ap
        (λ (h : ℕ).
          window (scatter b.buf (fill_iov want b h want) bytes) b.cap b.tail (len b + length bytes))
        (head-eq-ahead v)
      ∙ window-fill v want bytes b.buf (len b) want v.storage (omega arith) (omega arith)
          (omega (arith, len-le-cap v)) few

  window-split :
      window filled.buf b.cap b.tail (len b) ++ window filled.buf b.cap b.head (length bytes)
      ≡ contents b ++ bytes
  window-split =
      ap
        (λ (i : ℕ).
          window filled.buf b.cap b.tail (len b) ++ window filled.buf b.cap i (length bytes))
        (head-eq-ahead v)
      ∙ sym (window-add filled.buf b.cap b.tail (len b) (length bytes) v.tail_in (len-le-cap v))
      ∙ window-filled

  contents-filled : contents filled ≡ contents b
  contents-filled =
      ap (λ (n : ℕ). window filled.buf b.cap b.tail n) len-filled
      ∙ sym (
          take-length-append (window filled.buf b.cap b.tail (len b)) _ (len b)
            (sym (length-window filled.buf b.cap b.tail (len b))))
      ∙ ap (take (len b)) window-split
      ∙ take-length-append (contents b) bytes (len b) (sym (length-contents b))

  contents-committed :
      let b' = read_from_file_2 filled (length bytes) in
      IsValid b' × (contents b' ≡ contents b ++ bytes)
  contents-committed =
      let (valid, e) =
        fakewrite_lem (length bytes) filled-IsValid
          (omega (arith, avail_lem filled-IsValid, len-filled)) in
      rw (read_from_file_2-eq-fakewrite filled (length bytes)) (
        valid,
        e
            ∙ ap
                (λ (n : ℕ).
                  window filled.buf b.cap b.tail n ++ window filled.buf b.cap b.head (length bytes))
                len-filled
            ∙ window-split,
      )

-- What a read from a file leaves: nothing to do, an error, or `bytes` behind the contents.
pub data Outcome (b : CBuffer) (want : ℕ) (reply : Reply) : Option ℕ × CBuffer → Type 0 where
  idle : want ≡ 0 → Outcome b want reply (some 0, b)
  failed :
      {b' : CBuffer}
      → 0 < want
      → reply.ok ≡ false
      → contents b' ≡ contents b
      → Outcome b want reply (none, b')
  filled_by :
      {b' : CBuffer} {n : ℕ}
      → 0 < want
      → reply.ok ≡ true
      → n ≡ length reply.bytes
      → contents b' ≡ contents b ++ reply.bytes
      → Outcome b want reply (some n, b')

-- The branches of the code.
module _ (readv : ℕ → Reply) (b : CBuffer) (n : ℕ) where
  abbrev want : ℕ
  want = min (avail b) n

  abbrev reply : Reply
  reply = readv want

  abbrev buf' : List ℕ
  buf' = scatter b.buf (fill_iov want b b.head want) reply.bytes

  idle_branch : (want == 0) ≡ true → read_from_file readv b n ≡ (some 0, read_from_file_2 b 0)
  unfolding read_from_file
  idle_branch e = ap (commit_read b) first_half
    where
      first_half : read_from_file_1 readv b n ≡ (some 0, b.buf)
      first_half = unfold read_from_file_1 in rw e refl

  failed_branch :
      (want == 0) ≡ false
      → reply.ok ≡ false
      → read_from_file readv b n ≡ (none, record b { buf = buf' })
  unfolding read_from_file
  failed_branch e h = ap (commit_read b) first_half
    where
      first_half : read_from_file_1 readv b n ≡ (none, buf')
      first_half = unfold read_from_file_1 in rw (e, h) refl

  filled_branch :
      (want == 0) ≡ false
      → reply.ok ≡ true
      → length reply.bytes < 2 ^ 31
      → read_from_file readv b n ≡ (
        some (length reply.bytes),
        read_from_file_2 (record b { buf = buf' }) (length reply.bytes),
      )
  unfolding read_from_file
  filled_branch e h few = ap (commit_read b) first_half
    where
      first_half : read_from_file_1 readv b n ≡ (some (length reply.bytes), buf')
      first_half =
          unfold read_from_file_1 in rw (e, h, as_result_small (length reply.bytes) few) refl

-- `cbuffer_read_from_file` into a valid buffer asks the file for as many bytes as fit, up to `n`.
-- If the file delivers no more than it is asked for, the buffer stays valid; the bytes of a
-- successful read join the end of the contents and their number is returned, and a failing one
-- leaves the contents alone. The capacity is less than 2^31, so that the count fits the int32_t that
-- is returned.
pub read_from_file_lem :
    (readv : ℕ → Reply) (n : ℕ) {b : CBuffer}
    → ((k : ℕ) → length (readv k).bytes ≤ k)
    → IsValid b
    → b.cap < 2 ^ 31
    → let want = min (avail b) n in
      let r = read_from_file readv b n in IsValid r.1 × Outcome b want (readv want) r
read_from_file_lem readv n {b} honest v narrow = elim (Bool-cases (min (avail b) n == 0)) [
  | inl none_wanted ↦
      rw (idle_branch readv b n none_wanted, read_from_file_2-eq-fakewrite b 0, fakewrite-zero v)
        (v, idle ((==_iff _ 0).0 none_wanted))
  | inr some_wanted ↦
      let want = min (avail b) n in
      let room : want ≤ b.cap - len b = omega (arith, avail_lem v) in
      let pos : 0 < want = ground arith in
      elim (Bool-cases (readv want).ok) [
        | inl h ↦
            let done = contents-committed v want room (readv want).bytes (honest want) in
            rw (filled_branch readv b n some_wanted h (omega (arith, honest want)))
              (done.0, filled_by pos h refl done.1)
        | inr h ↦ rw (failed_branch readv b n some_wanted h) (
          filled-IsValid v want room (readv want).bytes (honest want),
          failed pos h (contents-filled v want room (readv want).bytes (honest want)),
        )
      ]
]
