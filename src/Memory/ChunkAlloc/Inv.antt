-- ===== src/Memory/ChunkAlloc/Inv.antt =====
-- The invariant of the chunk allocator: the counters count what the list of chunks holds.
use c_specx.Base.{
  ℕ, ◌+◌, ◌≤◌, ◌<◌, ◌≡◌, refl, sym, ◌∙◌, ◌⊎◌, inr, List, [], ◌∷◌, length, u32_mod, map, arith,
}
use c_specx.Memory.Lalloc.{Lalloc, lalloc_reset}
use c_specx.Memory.Lalloc.Laws as Linear
use c_specx.Memory.ChunkAlloc.{
  Settings, ChunkAlloc, chunk_alloc_create, chunk_alloc_free_all, chunk_alloc_reset_all,
}

unfoldable pub allocated : List Lalloc → ℕ
allocated [] = 0
allocated (c ∷ cs) = c.limit + allocated cs

unfoldable pub in_use : List Lalloc → ℕ
in_use [] = 0
in_use (c ∷ cs) = c.used + in_use cs

abbrev pub AllValid : List Lalloc → Type 0
AllValid [] = Unit
AllValid (c ∷ cs) = Linear.IsValid c × AllValid cs

-- `DBG_ASSERT (chunk_alloc, ca)`, with the number of chunks up to `max_chunks`. A limit of 0 is none.
pub record IsValid (ca : ChunkAlloc) : Type 0 where
  pub chunk_count : ca.num_chunks ≡ length ca.chunks
  pub allocated_count : ca.total_allocated ≡ allocated ca.chunks
  pub used_count : ca.total_used ≡ in_use ca.chunks
  pub chunks_valid : AllValid ca.chunks
  pub few : (ca.settings.max_chunks ≡ 0) ⊎ (ca.num_chunks ≤ ca.settings.max_chunks)
  pub bounded : (ca.settings.max_total_size ≡ 0) ⊎ (ca.total_allocated ≤ ca.settings.max_total_size)
  pub small : ca.total_allocated < u32_mod

pub in_use-le-allocated : (cs : List Lalloc) → AllValid cs → in_use cs ≤ allocated cs
unfolding in_use allocated
in_use-le-allocated [] v = omega arith
in_use-le-allocated (c ∷ cs) v = omega (arith, v.0.within, in_use-le-allocated cs v.1)

length-reset : (cs : List Lalloc) → length (map lalloc_reset cs) ≡ length cs
length-reset [] = refl
length-reset (c ∷ cs) = omega (arith, length-reset cs)

allocated-reset : (cs : List Lalloc) → allocated (map lalloc_reset cs) ≡ allocated cs
unfolding allocated lalloc_reset
allocated-reset [] = refl
allocated-reset (c ∷ cs) = omega (arith, allocated-reset cs)

in_use-reset : (cs : List Lalloc) → in_use (map lalloc_reset cs) ≡ 0
unfolding in_use lalloc_reset
in_use-reset [] = refl
in_use-reset (c ∷ cs) = omega (arith, in_use-reset cs)

reset-AllValid : (cs : List Lalloc) → AllValid cs → AllValid (map lalloc_reset cs)
unfolding lalloc_reset
reset-AllValid [] v = tt
reset-AllValid (c ∷ cs) v = (
  record { within = omega arith; small = v.0.small; storage = v.0.storage },
  reset-AllValid cs v.1,
)

-- A new allocator is valid, and has no chunk.
pub chunk_alloc_create-IsValid : (s : Settings) → IsValid (chunk_alloc_create s)
unfolding chunk_alloc_create allocated in_use
chunk_alloc_create-IsValid s = record {
  chunk_count = refl;
  allocated_count = refl;
  used_count = refl;
  chunks_valid = tt;
  few = inr (omega arith);
  bounded = inr (omega arith);
  small = omega arith;
}

-- `chunk_alloc_reset_all` keeps all chunks and all that they hold room for, with nothing in use;
-- `chunk_alloc_free_all` leaves what `chunk_alloc_create` makes. Both keep the invariant.
pub chunk_alloc_reset_all-IsValid :
    {ca : ChunkAlloc}
    → IsValid ca
    → let r = chunk_alloc_reset_all ca in
      IsValid r
      × (length r.chunks ≡ length ca.chunks)
      × (allocated r.chunks ≡ allocated ca.chunks)
      × (in_use r.chunks ≡ 0)
      × (chunk_alloc_free_all ca ≡ chunk_alloc_create ca.settings)
unfolding chunk_alloc_reset_all chunk_alloc_free_all chunk_alloc_create
chunk_alloc_reset_all-IsValid {ca} v = (
  record {
    chunk_count = v.chunk_count ∙ sym (length-reset ca.chunks);
    allocated_count = v.allocated_count ∙ sym (allocated-reset ca.chunks);
    used_count = sym (in_use-reset ca.chunks);
    chunks_valid = reset-AllValid ca.chunks v.chunks_valid;
    few = v.few;
    bounded = v.bounded;
    small = v.small;
  },
  length-reset ca.chunks,
  allocated-reset ca.chunks,
  in_use-reset ca.chunks,
  refl,
)
