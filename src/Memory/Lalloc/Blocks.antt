-- ===== src/Memory/Lalloc/Blocks.antt =====
-- The blocks that a run of `lmalloc` calls hands out.
use c_specx.Base.{
  ℕ, ◌+◌, ◌*◌, ◌≤◌, ◌≡◌, refl, inl, inr, Option, none, some, List, [], ◌∷◌, arith, le_or_lt, ap₂,
}
use c_specx.Memory.Lalloc.{Lalloc, lmalloc, lalloc_get_state, lalloc_reset_to_state}
use c_specx.Memory.Lalloc.Laws.{IsValid, lmalloc_fits, lmalloc_full}

-- A block is its first index and its length.
abbrev pub Block : Type 0
Block = ℕ × ℕ

-- What a call adds to the blocks.
unfoldable pub block_of : Option ℕ → ℕ → List Block → List Block
block_of none n bs = bs
block_of (some p) n bs = (p, n) ∷ bs

-- A run of calls, each a pair of arguments; the block of a later call stands behind.
unfoldable pub serve : Lalloc → List (ℕ × ℕ) → List Block × Lalloc
serve a [] = ([], a)
serve a ((req, size) ∷ reqs) =
    let (p, a') = lmalloc a req size in
    let (bs, a'') = serve a' reqs in (block_of p (req * size) bs, a'')

-- Blocks from index `lo` on, below `hi`, none of which overlaps a later one.
abbrev pub Disjoint : ℕ → ℕ → List Block → Type 0
Disjoint lo hi [] = lo ≤ hi
Disjoint lo hi ((p, n) ∷ bs) = (lo ≤ p) × Disjoint (p + n) hi bs

record Run (a : Lalloc) (bs : List Block) (a' : Lalloc) : Type 0 where
  apart : Disjoint a.used a'.used bs
  valid : IsValid a'
  limit_eq : a'.limit ≡ a.limit
  mem_eq : a'.mem ≡ a.mem

serve-Run :
    (reqs : List (ℕ × ℕ)) {a : Lalloc} → IsValid a → let (bs, a') = serve a reqs in Run a bs a'
unfolding serve block_of
serve-Run [] {a} v = record { apart = omega arith; valid = v; limit_eq = refl; mem_eq = refl }
serve-Run ((req, size) ∷ reqs) {a} v = elim (le_or_lt a.limit (a.used + req * size)) [
  | inl full ↦ rw (lmalloc_full a req size v full) (serve-Run reqs v)
  | inr fits ↦
      let v' : IsValid (record a { used = a.used + req * size }) = record {
        within = omega arith;
        small = v.small;
        storage = v.storage;
      } in
      let r = serve-Run reqs v' in
      rw (lmalloc_fits a req size v fits) (record {
        apart = (omega arith, r.apart);
        valid = r.valid;
        limit_eq = r.limit_eq;
        mem_eq = r.mem_eq;
      })
]

-- The blocks that a run of `lmalloc` calls on a valid allocator hands out do not overlap each
-- other, nor what was in use before; what is in use behind the run is within the limit, and the
-- allocator is valid.
pub serve-Disjoint :
    (reqs : List (ℕ × ℕ)) {a : Lalloc}
    → IsValid a
    → let (bs, a') = serve a reqs in Disjoint a.used a'.used bs × (a'.used ≤ a.limit) × IsValid a'
serve-Disjoint reqs {a} v =
    let r = serve-Run reqs v in (r.apart, omega (arith, r.valid.within, r.limit_eq), r.valid)

-- `lalloc_reset_to_state` undoes a run of `lmalloc` calls on a valid allocator: with the state
-- that `lalloc_get_state` gave before the run it gives back the allocator as it was.
pub reset_to_state-serve :
    (reqs : List (ℕ × ℕ)) {a : Lalloc}
    → IsValid a
    → lalloc_reset_to_state (serve a reqs).1 (lalloc_get_state a) ≡ a
unfolding lalloc_reset_to_state lalloc_get_state
reset_to_state-serve reqs {a} v =
    let r = serve-Run reqs v in
    ap₂ (λ (l : ℕ) (m : List ℕ). record { used = a.used; limit = l; mem = m }) r.limit_eq r.mem_eq
