-- ===== src/Memory/Serial/Laws.antt =====
-- What the two streams do on each branch, and that what is written is read back.
use c_specx.Base.{
  ℕ, ◌+◌, ◌≤◌, ◌<◌, ◌≡◌, refl, ◌⊎◌, inl, inr, true, false, List, ◌++◌, length, splice, take,
  take_all, take-splice_end, length-splice, u32_mod, add32, add32_small, le_or_lt, arith, lt→ltb,
  le→ltb,
}
use c_specx.Memory.Serial.{Serializer, srlizr_write}

-- `DBG_ASSERT (serializer, s)`, and what the types and the storage give.
pub record IsValid (d : Serializer) : Type 0 where
  pub within : d.dlen ≤ d.dcap
  pub small : d.dcap < u32_mod
  pub storage : d.dcap ≤ length d.mem

pub grown-IsValid :
    (src : List ℕ) {d : Serializer}
    → IsValid d
    → d.dlen + length src ≤ d.dcap
    → IsValid (record d { mem = splice d.mem d.dlen src; dlen = d.dlen + length src })
grown-IsValid src {d} v fits = record {
  within = fits;
  small = v.small;
  storage = omega (arith, v.storage, length-splice d.mem d.dlen src);
}

pub srlizr_write_fits :
    (src : List ℕ) {d : Serializer}
    → IsValid d
    → d.dlen + length src ≤ d.dcap
    → srlizr_write d src (length src)
      ≡ (true, record d { mem = splice d.mem d.dlen src; dlen = d.dlen + length src })
unfolding srlizr_write
srlizr_write_fits src {d} v fits =
    rw
      (
        add32_small d.dlen (length src) (omega (arith, v.small)),
        le→ltb d.dcap (d.dlen + length src) fits,
        take_all (length src) src (omega arith),
      )
      refl

-- `srlizr_write` of bytes that do not fit returns false and changes nothing; else it returns true,
-- and the bytes stand behind those written before. The sum of the lengths is less than 2^32.
pub srlizr_write_lem :
    (src : List ℕ) {d : Serializer}
    → IsValid d
    → d.dlen + length src < u32_mod
    → let r = srlizr_write d src (length src) in
      ((d.dcap < d.dlen + length src) × (r ≡ (false, d)))
      ⊎ ((d.dlen + length src ≤ d.dcap)
          × (r.0 ≡ true)
          × IsValid r.1
          × (take r.1.dlen r.1.mem ≡ take d.dlen d.mem ++ src))
unfolding srlizr_write
srlizr_write_lem src {d} v small = elim (le_or_lt (d.dlen + length src) d.dcap) [
  | inl fits ↦ rw (srlizr_write_fits src v fits) (
      inr (
        fits,
        refl,
        grown-IsValid src v fits,
        take-splice_end d.mem d.dlen src (omega (arith, v.storage)),
      ))
  | inr full ↦
      rw (add32_small d.dlen (length src) small, lt→ltb d.dcap (d.dlen + length src) full)
        (inl (full, refl))
]

-- The sum that `srlizr_write` compares with the capacity wraps round: on a valid serializer, for a
-- length whose sum with that of the bytes written is 2^32 or more, the call returns true, though
-- there is no room for so many bytes.
pub srlizr_write_wraps :
    (src : List ℕ) (n : ℕ) {d : Serializer}
    → IsValid d
    → u32_mod ≤ d.dlen + n
    → n < u32_mod
    → (d.dcap < d.dlen + n) × ((srlizr_write d src n).0 ≡ true)
unfolding srlizr_write add32
srlizr_write_wraps src n {d} v over small =
    (omega (arith, v.small, v.within), ground (arith, v.small, v.within))
