-- ===== src/BlockArray/Read/Seek.antt =====
-- The search of `block_array_read` for its first byte.
use c_specx.Base.{
  ℕ, ◌-◌, ◌≤◌, ◌≡◌, sym, ap, ◌∙◌, inl, inr, Option, List, [], ◌∷◌, length, drop, le_or_lt, lt→leb,
  le→leb, arith, drop_all, drop-append_of_ge, drop-append_of_le,
}
use c_specx.BlockArray.{Block, Place, seek}
use c_specx.BlockArray.Inv.{AllBlocks, live, bytes, length-live}
use c_specx.BlockArray.Read.Places.{remaining, blocks_left, IsPlace}

pub record IsSought (cap : ℕ) (bs : List Block) (bidx : ℕ) (p : Option Place) : Type 0 where
  pub valid : IsPlace cap p
  pub rest_eq : remaining p ≡ drop bidx (bytes bs)
  pub fewer : blocks_left p ≤ length bs

pub seek-IsSought :
    (cap : ℕ) (bs : List Block) (bidx : ℕ) → AllBlocks cap bs → IsSought cap bs bidx (seek bs bidx)
unfolding seek
seek-IsSought cap [] bidx v = record {
  valid = tt;
  rest_eq = sym (drop_all bidx [] (omega arith));
  fewer = omega arith;
}
seek-IsSought cap (cur ∷ rest) bidx v =
    let len = length-live cur v.0 in
    elim (le_or_lt cur.len bidx) [
      | inl past ↦
          let later = seek-IsSought cap rest (bidx - cur.len) v.1 in
          rw (le→leb cur.len bidx past) (record {
            valid = later.valid;
            rest_eq =
                later.rest_eq
                ∙ ap (λ (k : ℕ). drop (bidx - k) (bytes rest)) (sym len)
                ∙ sym (drop-append_of_ge bidx (live cur) (bytes rest) (omega (arith, len)));
            fewer = omega (arith, later.fewer);
          })
      | inr here ↦ rw (lt→leb bidx cur.len here) (record {
        valid = (v.0, v.1, omega arith);
        rest_eq = sym (drop-append_of_le bidx (live cur) (bytes rest) (omega (arith, len)));
        fewer = omega arith;
      })
    ]
