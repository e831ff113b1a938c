-- ===== src/Memory/Lalloc/Laws.antt =====
-- The invariant of the linear allocator, and what each call does on each branch.
use c_specx.Base.{
  ℕ, ◌+◌, ◌-◌, ◌*◌, ◌≤◌, ◌<◌, ◌≡◌, refl, sym, ◌⊎◌, inl, inr, none, some, List, length, replicate,
  splice, slice, take, drop, length-splice, u32_mod, mul32_small, le_or_lt, arith, lt→ltb, le→ltb,
  sub32_small, add32_small, le→leb, lt→leb, length-replicate, slice-splice, take-splice,
  drop-splice_end,
}
use c_specx.Memory.Lalloc.{safe_mul_u32, Lalloc, lmalloc, lcalloc, take_total, zero_block}

-- `DBG_ASSERT (lalloc, a)`, and what the types and the storage give.
pub record IsValid (a : Lalloc) : Type 0 where
  pub within : a.used ≤ a.limit
  pub small : a.limit < u32_mod
  pub storage : a.limit ≤ length a.mem

-- What a call of `lmalloc` for `n` bytes has done when it returned the block at `a.used`.
pub record Served (a a' : Lalloc) (n : ℕ) : Type 0 where
  pub used_eq : a'.used ≡ a.used + n
  pub limit_eq : a'.limit ≡ a.limit
  pub mem_eq : a'.mem ≡ a.mem
  pub valid : IsValid a'

take_total_fits :
    (a : Lalloc) (n : ℕ)
    → IsValid a
    → a.used + n < a.limit
    → take_total a (some n) ≡ (some a.used, record a { used = a.used + n })
unfolding take_total
take_total_fits a n v fits =
    rw
      (
        sub32_small a.limit a.used v.within v.small,
        add32_small a.used n (omega (arith, v.small)),
        lt→leb n (a.limit - a.used) (omega arith),
      )
      refl

take_total_full :
    (a : Lalloc) (n : ℕ) → IsValid a → a.limit ≤ a.used + n → take_total a (some n) ≡ (none, a)
unfolding take_total
take_total_full a n v full =
    rw (sub32_small a.limit a.used v.within v.small, le→leb (a.limit - a.used) n (omega arith)) refl

pub lmalloc_fits :
    (a : Lalloc) (req size : ℕ)
    → IsValid a
    → a.used + req * size < a.limit
    → lmalloc a req size ≡ (some a.used, record a { used = a.used + req * size })
unfolding lmalloc safe_mul_u32
lmalloc_fits a req size v fits =
    rw (lt→ltb (req * size) u32_mod (omega (arith, v.small)))
      (take_total_fits a (req * size) v fits)

pub lmalloc_full :
    (a : Lalloc) (req size : ℕ)
    → IsValid a
    → a.limit ≤ a.used + req * size
    → lmalloc a req size ≡ (none, a)
unfolding lmalloc safe_mul_u32 take_total
lmalloc_full a req size v full = elim (le_or_lt u32_mod (req * size)) [
  | inl big ↦ rw (le→ltb (req * size) u32_mod big) refl
  | inr small ↦ rw (lt→ltb (req * size) u32_mod small) (take_total_full a (req * size) v full)
]

-- On a valid allocator, `lmalloc` returns NULL and changes nothing if the product of its
-- arguments, taken without overflow, is at least what is left; else it returns the first free
-- byte, the bytes of the block are taken from what is left, and the allocator stays valid.
pub lmalloc_lem :
    (req size : ℕ) {a : Lalloc}
    → IsValid a
    → let r = lmalloc a req size in
      ((a.limit ≤ a.used + req * size) × (r ≡ (none, a)))
      ⊎ ((a.used + req * size < a.limit) × (r.0 ≡ some a.used) × Served a r.1 (req * size))
lmalloc_lem req size {a} v = elim (le_or_lt a.limit (a.used + req * size)) [
  | inl full ↦ inl (full, lmalloc_full a req size v full)
  | inr fits ↦ rw (lmalloc_fits a req size v fits) (
      inr (
        fits,
        refl,
        record {
          used_eq = refl;
          limit_eq = refl;
          mem_eq = refl;
          valid = record { within = omega arith; small = v.small; storage = v.storage };
        },
      ))
]

memset_lem :
    (xs : List ℕ) (i n : ℕ) (ys : List ℕ)
    → length ys ≡ n
    → i + n ≤ length xs
    → (slice (splice xs i ys) i n ≡ ys)
      × (take i (splice xs i ys) ≡ take i xs)
      × (drop (i + n) (splice xs i ys) ≡ drop (i + n) xs)
memset_lem xs i n ys e h = rw (sym e) (
  slice-splice xs i ys (omega arith),
  take-splice xs i ys (omega arith),
  drop-splice_end xs i ys (omega arith),
)

-- On a valid allocator, `lcalloc` returns NULL and changes nothing if what is left is no more than
-- the request; else it returns a block whose bytes are zero, the bytes outside it are as they
-- were, and the allocator stays valid.
pub lcalloc_lem :
    (req size : ℕ) {a : Lalloc}
    → IsValid a
    → let r = lcalloc a req size in
      let n = req * size in
      ((a.limit ≤ a.used + n) × (r ≡ (none, a)))
      ⊎ ((a.used + n < a.limit)
          × (r.0 ≡ some a.used)
          × IsValid r.1
          × (r.1.used ≡ a.used + n)
          × (slice r.1.mem a.used n ≡ replicate n 0)
          × (take a.used r.1.mem ≡ take a.used a.mem)
          × (drop (a.used + n) r.1.mem ≡ drop (a.used + n) a.mem))
unfolding lcalloc zero_block
lcalloc_lem req size {a} v = elim (le_or_lt a.limit (a.used + req * size)) [
  | inl full ↦ rw (lmalloc_full a req size v full) (inl (full, refl))
  | inr fits ↦
      let zeros : List ℕ = replicate (req * size) 0 in
      let m =
        memset_lem a.mem a.used (req * size) zeros (length-replicate (req * size) 0)
          (omega (arith, v.storage)) in
      let v' : IsValid (record {
        used = a.used + req * size;
        limit = a.limit;
        mem = splice a.mem a.used zeros;
      }) =
        record {
          within = omega arith;
          small = v.small;
          storage = omega (arith, v.storage, length-splice a.mem a.used zeros);
        } in
      rw (lmalloc_fits a req size v fits, mul32_small req size (omega (arith, v.small)))
        (inr (fits, refl, v', refl, m.0, m.1, m.2))
]
