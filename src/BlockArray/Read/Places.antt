-- ===== src/BlockArray/Read/Places.antt =====
-- Where `block_array_read` stands, and the bytes from there on.
use c_specx.Base.{
  ℕ, suc, ◌+◌, ◌≤◌, ◌<◌, ◌≡◌, sym, ap, ap₂, ◌∙◌, ◌⊎◌, inl, inr, Option, none, some, List, [], ◌∷◌,
  ◌++◌, ◌==◌, length, drop, slice, append_assoc, append-nil, Bool-cases, length-append, length-drop,
  take-append-drop, drop-drop, slice-take, arith, drop_all,
}
use c_specx.BlockArray.{Block, Place, advance}
use c_specx.BlockArray.Inv.{IsBlock, AllBlocks, live, bytes, length-live}

-- The bytes from a place on, and the blocks.
abbrev pub remaining : Option Place → List ℕ
remaining none = []
remaining (some p) = drop p.bidx (live p.cur) ++ bytes p.rest

abbrev pub blocks_left : Option Place → ℕ
blocks_left none = 0
blocks_left (some p) = suc (length p.rest)

abbrev pub IsPlace : ℕ → Option Place → Type 0
IsPlace cap none = Unit
IsPlace cap (some p) = IsBlock cap p.cur × AllBlocks cap p.rest × (p.bidx ≤ p.cur.len)

-- A place behind `part`, which is shorter by what was read or by a block.
pub record IsPast (cap : ℕ) (p p' : Option Place) (part : List ℕ) : Type 0 where
  pub valid : IsPlace cap p'
  pub split : remaining p ≡ part ++ remaining p'
  pub fewer : length (remaining p') + blocks_left p' < length (remaining p) + blocks_left p

drop-live :
    {cap : ℕ} (cur : Block) (bidx n : ℕ)
    → IsBlock cap cur
    → bidx + n ≤ cur.len
    → drop bidx (live cur) ≡ slice cur.mem bidx n ++ drop (bidx + n) (live cur)
drop-live cur bidx n ok fits =
    sym (take-append-drop n (drop bidx (live cur)))
    ∙ ap₂ (λ (a b : List ℕ). a ++ b) (slice-take cur.mem cur.len bidx n fits)
        (drop-drop n bidx (live cur))

stay-IsPast :
    (cap : ℕ) (cur : Block) (rest : List Block) (bidx n : ℕ)
    → IsBlock cap cur
    → AllBlocks cap rest
    → bidx + n ≤ cur.len
    → 0 < n
    → IsPast cap
        (some (record { cur = cur; rest = rest; bidx = bidx }))
        (some (record { cur = cur; rest = rest; bidx = bidx + n }))
        (slice cur.mem bidx n)
stay-IsPast cap cur rest bidx n ok oks fits more =
    let len = length-live cur ok in
    record {
      valid = (ok, oks, fits);
      split =
          ap (λ t. t ++ bytes rest) (drop-live cur bidx n ok fits)
          ∙ append_assoc (slice cur.mem bidx n) (drop (bidx + n) (live cur)) (bytes rest);
      fewer = omega (
        arith,
        len,
        length-append (drop bidx (live cur)) (bytes rest),
        length-append (drop (bidx + n) (live cur)) (bytes rest),
        length-drop bidx (live cur),
        length-drop (bidx + n) (live cur),
      );
    }

-- The rest of a block.
end_eq :
    {cap : ℕ} (cur : Block) (bidx n : ℕ)
    → IsBlock cap cur
    → bidx + n ≡ cur.len
    → drop bidx (live cur) ≡ slice cur.mem bidx n
end_eq cur bidx n ok end =
    drop-live cur bidx n ok (omega arith)
    ∙ ap (λ t. slice cur.mem bidx n ++ t)
        (drop_all (bidx + n) (live cur) (omega (arith, length-live cur ok)))
    ∙ append-nil (slice cur.mem bidx n)

pub advance-IsPast :
    (cap : ℕ) (cur : Block) (rest : List Block) (bidx n : ℕ)
    → IsBlock cap cur
    → AllBlocks cap rest
    → bidx + n ≤ cur.len
    → (0 < n) ⊎ (bidx + n ≡ cur.len)
    → IsPast cap
        (some (record { cur = cur; rest = rest; bidx = bidx }))
        (advance cur rest (bidx + n))
        (slice cur.mem bidx n)
unfolding advance
advance-IsPast cap cur [] bidx n ok oks fits more = elim (Bool-cases (bidx + n == cur.len)) [
  | inl end ↦ rw end (record {
    valid = tt;
    split = ap (λ t. t ++ []) (end_eq cur bidx n ok (ground arith));
    fewer = omega arith;
  })
  | inr within ↦ rw within (stay-IsPast cap cur [] bidx n ok oks fits (ground arith))
]
advance-IsPast cap cur (b ∷ rest) bidx n ok oks fits more =
    elim (Bool-cases (bidx + n == cur.len)) [
      | inl end ↦
          let e = end_eq cur bidx n ok (ground arith) in
          rw end (record {
            valid = (oks.0, oks.1, omega arith);
            split = ap (λ t. t ++ bytes (b ∷ rest)) e;
            fewer = omega (
              arith,
              length-append (drop bidx (live cur)) (bytes (b ∷ rest)),
              length-append (live b) (bytes rest),
            );
          })
      | inr within ↦ rw within (stay-IsPast cap cur (b ∷ rest) bidx n ok oks fits (ground arith))
    ]
