-- ===== src/Memory/ChunkAlloc/Malloc.antt =====
-- What a call of `chunk_malloc` does.
use c_specx.Base.{
  ℕ, ◌+◌, ◌-◌, ◌*◌, ◌/◌, ◌≤◌, ◌<◌, ◌≡◌, refl, sym, ap, inl, inr, Bool, ◌&&◌, Option, none, some,
  List, [], ◌∷◌, length, drop, u32_mod, mul32, ltb, Bool-cases, le_or_lt, subst, arith,
}
use c_specx.Memory.Lalloc.{Lalloc}
use c_specx.Memory.ChunkAlloc.{
  chunk_header, ChunkAlloc, compute_new_chunk_size, malloc_in_head, malloc_in_new, retry,
  chunk_malloc, Ptr,
}
use c_specx.Memory.ChunkAlloc.Inv.{AllValid, IsValid}
use c_specx.Memory.ChunkAlloc.Grow.{
  with_taken, head_fits, head_full, taken_small, with_taken-IsValid, with_chunk, Added, not_added,
  added, add_new_chunk-Added,
}

-- The outcomes of a request for `n` bytes: refused, with no change or with a new chunk that stays
-- unused; a block of the newest chunk, behind what is in use there; a block at the start of a new one.
pub data Outcome (i_malloc : ℕ → Option (List ℕ)) (ca : ChunkAlloc) (n size : ℕ)
    : Option Ptr × ChunkAlloc → Type 0 where
  refused : Outcome i_malloc ca n size (none, ca)
  new_too_small :
      (block : List ℕ)
      → i_malloc (chunk_header + size) ≡ some block
      → size ≤ n
      → Outcome i_malloc ca n size (none, with_chunk ca size (drop chunk_header block))
  in_head :
      (c : Lalloc) (rest : List Lalloc)
      → ca.chunks ≡ c ∷ rest
      → c.used + n < c.limit
      → Outcome i_malloc ca n size (some (length rest, c.used), with_taken ca c rest n)
  in_new :
      (block : List ℕ)
      → i_malloc (chunk_header + size) ≡ some block
      → n < size
      → Outcome i_malloc ca n size (
        some (length ca.chunks, 0),
        with_taken
            (with_chunk ca size (drop chunk_header block))
            (record { used = 0; limit = size; mem = drop chunk_header block })
            ca.chunks
            n,
      )

module _ (i_malloc : ℕ → Option (List ℕ))
    (gives : (n : ℕ) (mem : List ℕ) → i_malloc n ≡ some mem → n ≤ length mem) where
  from_new :
      {ca : ChunkAlloc} (req size chunk : ℕ) (r : Bool × ChunkAlloc)
      → IsValid ca
      → Added i_malloc ca chunk r
      → IsValid (malloc_in_new r req size).1
        × Outcome i_malloc ca (req * size) chunk (malloc_in_new r req size)
  unfolding malloc_in_new
  from_new {ca} req size chunk _ v not_added = (v, refused)
  from_new {ca} req size chunk _ v (added block e v') =
      let mem = drop chunk_header block in
      let c : Lalloc = record { used = 0; limit = chunk; mem = mem } in
      elim (le_or_lt chunk (req * size)) [
        | inl full ↦
            rw
              (head_full (with_chunk ca chunk mem) c ca.chunks req size v'.chunks_valid.0
                (omega arith))
              (v', new_too_small block e full)
        | inr fits ↦
            rw
              (head_fits (with_chunk ca chunk mem) c ca.chunks req size v'.chunks_valid.0
                (omega arith) (taken_small c ca.chunks (req * size) v' refl (omega arith)))
              (
                with_taken-IsValid c ca.chunks (req * size) v' refl (omega arith),
                in_new block e fits,
              )
      ]

  from_head :
      {ca : ChunkAlloc} (cs : List Lalloc) (req size : ℕ)
      → ca.chunks ≡ cs
      → IsValid ca
      → ca.num_chunks + 1 < u32_mod
      → ca.total_allocated + compute_new_chunk_size ca.settings (mul32 req size) < u32_mod
      → chunk_header + compute_new_chunk_size ca.settings (mul32 req size) < u32_mod
      → let r = retry i_malloc req size (malloc_in_head ca cs req size) in
        IsValid r.1
        × Outcome i_malloc ca (req * size) (compute_new_chunk_size ca.settings (mul32 req size)) r
  unfolding retry malloc_in_head
  from_head {ca} [] req size e v count total narrow =
      from_new req size _ _ v (add_new_chunk-Added i_malloc _ gives v count total narrow)
  from_head {ca} (c ∷ rest) req size e v count total narrow =
      let ok = (subst AllValid e v.chunks_valid).0 in
      elim (le_or_lt c.limit (c.used + req * size)) [
        | inl full ↦
            let same : record ca { chunks = c ∷ rest } ≡ ca =
              ap (λ cs. record ca { chunks = cs }) (sym e) in
            rw (head_full ca c rest req size ok full, same)
              (from_new req size _ _ v (add_new_chunk-Added i_malloc _ gives v count total narrow))
        | inr fits ↦
            rw (head_fits ca c rest req size ok fits (taken_small c rest (req * size) v e fits))
              (with_taken-IsValid c rest (req * size) v e fits, in_head c rest e fits)
      ]

  -- `chunk_malloc` keeps the allocator valid, and has one of these outcomes: NULL with nothing
  -- changed; NULL with a new chunk of no more bytes than were asked for; a block behind what is in
  -- use in the newest chunk; a block at the start of a new chunk, of more bytes than were asked
  -- for. A new chunk has the bytes behind the header of a block of `i_malloc`, which gives no less than
  -- it is asked for; the counters, and the size of a chunk with its header, are less than 2^32.
  pub chunk_malloc-IsValid :
      (req size : ℕ) {ca : ChunkAlloc}
      → IsValid ca
      → ca.num_chunks + 1 < u32_mod
      → ca.total_allocated + compute_new_chunk_size ca.settings (mul32 req size) < u32_mod
      → chunk_header + compute_new_chunk_size ca.settings (mul32 req size) < u32_mod
      → let r = chunk_malloc i_malloc ca req size in
        IsValid r.1
        × Outcome i_malloc ca (req * size) (compute_new_chunk_size ca.settings (mul32 req size)) r
  unfolding chunk_malloc
  chunk_malloc-IsValid req size {ca} v count total narrow =
      elim (Bool-cases (ltb 0 req && ltb ((u32_mod - 1) / req) size)) [
        | inl stop ↦ rw stop (v, refused)
        | inr go ↦
            rw go
              (elim (Bool-cases (
                ltb 0 ca.settings.max_alloc_size
                && ltb ca.settings.max_alloc_size (mul32 req size))) [
                  | inl stop ↦ rw stop (v, refused)
                  | inr fits ↦ rw fits (from_head ca.chunks req size refl v count total narrow)
                ])
      ]
