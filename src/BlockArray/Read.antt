-- ===== src/BlockArray/Read.antt =====
-- `block_array_read` reads the elements of the contents that the stride names.
use native.Mathlib.Nat.{mul-le-mul_right, mul-le-mul_left}
use c_specx.Base.{
  ℕ, zero, suc, ◌+◌, ◌-◌, ◌*◌, ◌≤◌, ◌<◌, min, ◌≡◌, refl, sym, ap, ap₂, ◌∙◌, ◌⊎◌, inl, inr, Bool,
  true, false, Option, none, some, List, [], ◌∷◌, ◌++◌, ltb, leb, ◌==◌, if◌then◌else◌, length, take,
  drop, slice, length-slice, u32_mod, append_assoc, append-nil, le_or_lt, lt→ltb, le→ltb, lt→leb,
  le→leb, Bool-cases, length-append, length-drop, length-take, take-append-drop, drop-drop,
  slice-take, arith, drop_all, subst, take_all, nil_of_length, sub32, mul32, sub32_small,
  mul32_small, take-append_of_ge, drop-append_of_ge, take-length-append, drop-length-append,
  drop-append_of_le,
}
use c_specx.Stride.{Stride}
use c_specx.BlockArray.{
  Block, BlockArray, Place, StrideState, seek, advance, after_element, with_next, and_read,
  read_blocks, block_array_read, total_len,
}
use c_specx.BlockArray.Inv.{IsBlock, AllBlocks, IsValid, live, bytes, length-live, length-bytes}
use c_specx.ExtArray.Strided.{elements}
use c_specx.Memory.Serial.RoundTrip.{joined}
use c_specx.BlockArray.Read.Places.{remaining, blocks_left, IsPlace, IsPast, advance-IsPast}
use c_specx.BlockArray.Read.Wholes.{Reads, whole-elements, elements-drop, elements_none}
use c_specx.BlockArray.Read.States.{
  expected, Reads-nothing, after_element-next, step_element, step_part, step_skip, step_skipped,
}
mod Places
pub mod Wholes
pub mod Seek
mod States
use c_specx.BlockArray.Read.Seek.{seek-IsSought}

-- The bytes of a round, and where it ends.
abbrev room : Place → StrideState → ℕ
room p s = min s.next (p.cur.len - p.bidx)

abbrev next_place : Place → StrideState → Option Place
next_place p s = advance p.cur p.rest (p.bidx + room p s)

module _ (cap size stride : ℕ) (some_size : 0 < size) (some_stride : 0 < stride)
    (small : stride * size < u32_mod) (le : size ≤ stride * size) where
  -- A round of the loop.
  round-IsPast :
      (p : Place) (s : StrideState)
      → IsPlace cap (some p)
      → 0 < s.next
      → IsPast cap (some p) (next_place p s) (slice p.cur.mem p.bidx (room p s))
  round-IsPast p s ok nz =
      let n = room p s in
      advance-IsPast cap p.cur p.rest p.bidx n ok.0 ok.1 (omega (arith, ok.2))
        (elim (le_or_lt n 0) [ inl nothing ↦ inr (omega (arith, ok.2)) | inr more ↦ inl more ])

  -- The rounds: the end of an element, a part of one, the end of a gap, a part of one.
  round_element :
      (fuel left : ℕ) (p : Place) (s : StrideState)
      → s.active ≡ true
      → (s.next - room p s == 0) ≡ true
      → read_blocks (suc fuel) size stride (suc left) (some p) s
        ≡ and_read 1
            (slice p.cur.mem p.bidx (room p s))
            (read_blocks fuel size stride left (next_place p s) (after_element size stride))
  unfolding read_blocks
  round_element fuel left p s a done = rw (a, done) refl

  round_part :
      (fuel left : ℕ) (p : Place) (s : StrideState)
      → s.active ≡ true
      → (s.next - room p s == 0) ≡ false
      → read_blocks (suc fuel) size stride (suc left) (some p) s
        ≡ and_read 0 (slice p.cur.mem p.bidx (room p s)) (
            read_blocks fuel size stride
              (suc left)
              (next_place p s)
              (with_next s (s.next - room p s)))
  unfolding read_blocks
  round_part fuel left p s a more = rw (a, more) refl

  round_skipped :
      (fuel left : ℕ) (p : Place) (s : StrideState)
      → s.active ≡ false
      → (s.next - room p s == 0) ≡ true
      → read_blocks (suc fuel) size stride (suc left) (some p) s
        ≡ read_blocks fuel size stride
            (suc left)
            (next_place p s)
            (record { next = size; active = true })
  unfolding read_blocks
  round_skipped fuel left p s a done = rw (a, done) refl

  round_skip :
      (fuel left : ℕ) (p : Place) (s : StrideState)
      → s.active ≡ false
      → (s.next - room p s == 0) ≡ false
      → read_blocks (suc fuel) size stride (suc left) (some p) s
        ≡ read_blocks fuel size stride (suc left) (next_place p s) (with_next s (s.next - room p s))
  unfolding read_blocks
  round_skip fuel left p s a more = rw (a, more) refl

  -- The elements and the result of a round, from those of the next.
  from_round :
      (left : ℕ) (p : Place) (s : StrideState) (part : List ℕ) (p' : Option Place)
      {res res' : ℕ × List ℕ}
      → remaining (some p) ≡ part ++ remaining p'
      → res ≡ res'
      → Reads (expected size (stride * size) (suc left) s (part ++ remaining p')) res'
      → Reads (expected size (stride * size) (suc left) s (remaining (some p))) res
  from_round left p s part p' {res} split e r =
      subst (λ t. Reads (expected size (stride * size) (suc left) s t) res) (sym split)
        (subst (λ x. Reads (expected size (stride * size) (suc left) s (part ++ remaining p')) x)
          (sym e) r)

  read_blocks-Reads :
      (fuel left : ℕ) (p : Option Place) (s : StrideState)
      → IsPlace cap p
      → length (remaining p) + blocks_left p ≤ fuel
      → 0 < s.next
      → Reads
          (expected size (stride * size) left s (remaining p))
          (read_blocks fuel size stride left p s)
  unfolding read_blocks
  read_blocks-Reads fuel zero p s ok enough nz = record {
    count_eq = refl;
    partial = [];
    out_eq = refl;
  }
  read_blocks-Reads fuel (suc left) none s ok enough nz =
      Reads-nothing size stride some_size some_stride small le (suc left) s nz
  read_blocks-Reads zero (suc left) (some p) s ok enough nz = absurd (omega arith)
  read_blocks-Reads (suc fuel) (suc left) (some p) s ok enough nz =
      let past = round-IsPast p s ok nz in
      let p' = next_place p s in
      let part = slice p.cur.mem p.bidx (room p s) in
      let len : length part ≡ room p s =
        length-slice p.cur.mem p.bidx (room p s) (omega (arith, ok.0.within, ok.0.storage, ok.2)) in
      let enough' : length (remaining p') + blocks_left p' ≤ fuel = omega (arith, past.fewer) in
      elim (Bool-cases (s.next - room p s == 0)) [
        | inl done ↦ elim (Bool-cases s.active) [
          | inl a ↦ from_round left p s part p' past.split (round_element fuel left p s a done) (
              step_element size stride some_size some_stride small le left s part (remaining p') _ a
                (ground (arith, len))
                (read_blocks-Reads fuel left p' (after_element size stride) past.valid enough'
                  (after_element-next size stride some_size some_stride small le)))
          | inr a ↦ from_round left p s part p' past.split (round_skipped fuel left p s a done) (
              step_skipped size stride some_size some_stride small le left s part (remaining p') _ a
                (ground (arith, len))
                (read_blocks-Reads fuel (suc left) p' (record { next = size; active = true })
                  past.valid enough' some_size))
        ]
        | inr more ↦
            let nz' : 0 < s.next - length part = ground (arith, len) in
            let next_eq : with_next s (s.next - room p s) ≡ with_next s (s.next - length part) =
              ap (λ (k : ℕ). with_next s (s.next - k)) (sym len) in
            elim (Bool-cases s.active) [
              | inl a ↦
                  from_round left p s part p' past.split
                    (round_part fuel left p s a more
                      ∙ ap (λ t. and_read 0 part (read_blocks fuel size stride (suc left) p' t))
                          next_eq)
                    (step_part size stride some_size some_stride small le left s part (remaining p')
                      _ a (omega (arith, len))
                      (read_blocks-Reads fuel (suc left) p' (with_next s (s.next - length part))
                        past.valid enough' (nz')))
              | inr a ↦
                  from_round left p s part p' past.split
                    (round_skip fuel left p s a more
                      ∙ ap (λ t. read_blocks fuel size stride (suc left) p' t) next_eq)
                    (step_skip size stride some_size some_stride small le left s part (remaining p')
                      _ a (omega (arith, len))
                      (read_blocks-Reads fuel (suc left) p' (with_next s (s.next - length part))
                        past.valid enough' (nz')))
            ]
      ]

expected-elements :
    (xs : List ℕ) (size step left at : ℕ)
    → 0 < size
    → size ≤ step
    → expected size step left (record { next = size; active = true }) (drop at xs)
      ≡ elements xs size step left at
expected-elements xs size step zero at pos le = sym (elements_none xs size step at)
expected-elements xs size step (suc left) at pos le =
    whole-elements (drop at xs) size step left pos le
    ∙ sym (elements-drop xs size step (suc left) at 0 pos)
    ∙ ap (λ (k : ℕ). elements xs size step (suc left) k) {x = at + 0} {y = at} (omega arith)

pub block_array_read_lem :
    (r : BlockArray) (str : Stride) (size : ℕ)
    → IsValid r
    → 0 < size
    → 0 < str.stride
    → str.start * size < u32_mod
    → str.stride * size < u32_mod
    → Reads
        (elements (bytes r.blocks) size (str.stride * size) str.nelems (str.start * size))
        (block_array_read r str size)
unfolding block_array_read
block_array_read_lem r str size v pos some_stride here small =
    let wide : 1 * size ≤ str.stride * size =
      mul-le-mul_right {m = 1} {n = str.stride} size some_stride in
    let at = str.start * size in
    let sought = seek-IsSought r.cap_per_node r.blocks at v.blocks_valid in
    let first : StrideState = record { next = size; active = true } in
    rw (mul32_small str.start size here) (
      subst
        (λ es. Reads es (
          read_blocks (total_len r.blocks + length r.blocks) size str.stride str.nelems
            (seek r.blocks at) first))
        (ap (λ t. expected size (str.stride * size) str.nelems first t) sought.rest_eq
          ∙ expected-elements (bytes r.blocks) size (str.stride * size) str.nelems at pos
              (omega (arith, wide)))
        (read_blocks-Reads r.cap_per_node size str.stride pos some_stride small
          (omega (arith, wide)) (total_len r.blocks + length r.blocks) str.nelems (seek r.blocks at)
          first sought.valid
          (omega (
            arith,
            ap length sought.rest_eq,
            length-drop at (bytes r.blocks),
            length-bytes r.cap_per_node r.blocks v.blocks_valid,
            sought.fewer,
          ))
          pos))
