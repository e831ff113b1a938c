-- ===== src/CBuffer/Transfer/Laws.antt =====
-- A transfer appends to `dest` the bytes that it takes from the front of `src`.
use c_specx.Base.{
  ℕ, ◌-◌, ◌*◌, ◌≤◌, ◌<◌, ◌≡◌, refl, sym, ap, ◌∙◌, inl, inr, false, List, [], ◌++◌, length, arith,
  take, sub32_small, le_or_lt, le→ltb, lt→ltb, mul32, sub32, ◌==◌, mul32_small, take-length-append,
}
use c_specx.CBuffer.{CBuffer, len, read_step}
use c_specx.CBuffer.Inv.{IsValid, contents, len-le-cap}
use c_specx.CBuffer.Write.{Wrote-nil}
use c_specx.CBuffer.Read.{Took-nil}
use c_specx.CBuffer.Transfer.Pieces.{
  sendable, transfer_count_lem, sendable-mul-le, IsFirst, first_chunk-IsFirst, Moved, part, one,
  length-part, both,
}
use c_specx.CBuffer.Transfer.{cbuffer_move, cbuffer_copy, transfer_count, first_chunk, write_from}

-- The branches of the two functions, for `n` elements of which the first piece holds `first` bytes.
module _ (sz cnt : ℕ) {dest src : CBuffer} (vd : IsValid dest) (vs : IsValid src) where
  abbrev n : ℕ
  n = sendable dest sz cnt src

  abbrev first : ℕ
  first = first_chunk src (n * sz)

  count : transfer_count dest sz cnt src ≡ n
  count = transfer_count_lem sz cnt dest src vd

  bytes : mul32 n sz ≡ n * sz
  bytes =
      mul32_small n sz (omega (arith, (sendable-mul-le sz cnt dest src).0, len-le-cap vs, vs.small))

  none_moved :
      n ≡ 0
      → (cbuffer_move dest sz cnt src ≡ (0, dest, src)) × (cbuffer_copy dest sz cnt src ≡ (0, dest))
  unfolding cbuffer_move cbuffer_copy
  none_moved e = (rw (count, e) refl, rw (count, e) refl)

  module _ (pos : 0 < n) (p : IsFirst src (n * sz) first) where
    some_moved : (n == 0) ≡ false
    some_moved = ground arith

    remaining : sub32 (n * sz) first ≡ n * sz - first
    remaining =
        sub32_small (n * sz) first p.within
          (omega (arith, (sendable-mul-le sz cnt dest src).0, len-le-cap vs, vs.small))

    one_moved :
        first ≡ n * sz
        → (cbuffer_move dest sz cnt src
            ≡ (n, write_from src src.tail first dest, read_step src first))
          × (cbuffer_copy dest sz cnt src ≡ (n, write_from src src.tail first dest))
    unfolding cbuffer_move cbuffer_copy read_step
    one_moved e = (
      rw (count, bytes, some_moved, remaining, le→ltb 0 (n * sz - first) (omega arith)) refl,
      rw (count, bytes, some_moved, remaining, le→ltb 0 (n * sz - first) (omega arith)) refl,
    )

    two_moved :
        first < n * sz
        → let dest1 = write_from src src.tail first dest in
          let src1 = read_step src first in
          let dest2 = write_from src1 src1.tail (n * sz - first) dest1 in
          (cbuffer_move dest sz cnt src ≡ (n, dest2, read_step src1 (n * sz - first)))
          × (cbuffer_copy dest sz cnt src ≡ (n, dest2))
    unfolding cbuffer_move cbuffer_copy read_step write_from
    two_moved h = (
      rw (count, bytes, some_moved, remaining, lt→ltb 0 (n * sz - first) (omega arith)) refl,
      rw (count, bytes, some_moved, remaining, lt→ltb 0 (n * sz - first) (omega arith)) refl,
    )

-- What either function has done: the count and the new `dest` are those of a transfer.
transfer_lem :
    (sz cnt : ℕ) {dest src : CBuffer}
    → 0 < sz
    → IsValid dest
    → IsValid src
    → let r = cbuffer_move dest sz cnt src in
      (r.0 ≡ sendable dest sz cnt src)
      × Moved dest src (r.0 * sz) (r.1, r.2)
      × (cbuffer_copy dest sz cnt src ≡ (r.0, r.1))
transfer_lem sz cnt {dest} {src} hs vd vs = elim (le_or_lt (sendable dest sz cnt src) 0) [
  | inl none_left ↦
      let (e, e') = none_moved sz cnt vd vs (omega arith) in
      rw (e, e')
        (omega arith, ([], omega arith, record { put = Wrote-nil vd; taken = Took-nil vs }), refl)
  | inr more ↦ go more (first_chunk-IsFirst (n' * sz) vs (grind arith) there)
]
  where
    n' : ℕ
    n' = sendable dest sz cnt src

    there : n' * sz ≤ len src
    there = (sendable-mul-le sz cnt dest src).0

    room : n' * sz ≤ dest.cap - len dest
    room = (sendable-mul-le sz cnt dest src).1

    go :
        0 < n'
        → IsFirst src (n' * sz) (first_chunk src (n' * sz))
        → let r = cbuffer_move dest sz cnt src in
          (r.0 ≡ n')
          × Moved dest src (r.0 * sz) (r.1, r.2)
          × (cbuffer_copy dest sz cnt src ≡ (r.0, r.1))
    go more p = elim (le_or_lt (n' * sz) (first_chunk src (n' * sz))) [
      | inl all ↦
          let (e, e') = one_moved sz cnt vd vs more p (omega (arith, p.within)) in
          rw (e, e')
            (
              refl,
              (
                part (n' * sz) (first_chunk src (n' * sz)) vd vs there room p,
                omega (
                  arith,
                  length-part (n' * sz) (first_chunk src (n' * sz)) vd vs there room p,
                  p.within,
                ),
                one (n' * sz) (first_chunk src (n' * sz)) vd vs there room p,
              ),
              refl,
            )
      | inr splits ↦
          let (e, e') = two_moved sz cnt vd vs more p splits in
          rw (e, e')
            (refl, both (n' * sz) (first_chunk src (n' * sz)) vd vs there room p splits, refl)
    ]

-- Between valid buffers, and for elements of a byte at least, `cbuffer_cbuffer_move` moves as many
-- whole elements as it can, up to `cnt`: their bytes leave the front of `src` and join the end of
-- `dest`, in order, and both stay valid.
pub cbuffer_move_lem :
    (sz cnt : ℕ) {dest src : CBuffer}
    → 0 < sz
    → IsValid dest
    → IsValid src
    → let r = cbuffer_move dest sz cnt src in
      (r.0 ≡ sendable dest sz cnt src)
      × ((out : List ℕ) × (length out ≡ r.0 * sz)
          × IsValid r.1
          × IsValid r.2
          × (contents r.1 ≡ contents dest ++ out)
          × (contents src ≡ out ++ contents r.2))
cbuffer_move_lem sz cnt hs vd vs =
    let (count, (out, size_eq, s), _) = transfer_lem sz cnt hs vd vs in
    (count, (out, size_eq, s.put.valid, s.taken.valid, s.put.bytes, s.taken.bytes))

-- Between valid buffers, and for elements of a byte at least, `cbuffer_cbuffer_copy` appends to
-- `dest` as many whole elements from the front of the contents of `src` as it can, up to `cnt`,
-- and `dest` stays valid.
pub cbuffer_copy_lem :
    (sz cnt : ℕ) {dest src : CBuffer}
    → 0 < sz
    → IsValid dest
    → IsValid src
    → let r = cbuffer_copy dest sz cnt src in
      (r.0 ≡ sendable dest sz cnt src)
      × IsValid r.1
      × (contents r.1 ≡ contents dest ++ take (r.0 * sz) (contents src))
cbuffer_copy_lem sz cnt {dest} {src} hs vd vs =
    let (count, (out, size_eq, s), e) = transfer_lem sz cnt hs vd vs in
    let r = cbuffer_move dest sz cnt src in
    rw e (
      count,
      s.put.valid,
      s.put.bytes
          ∙ ap (λ t. contents dest ++ t)
              (sym (
                ap (take (r.0 * sz)) s.taken.bytes
                ∙ take-length-append out (contents r.2) (r.0 * sz) (sym size_eq))),
    )
