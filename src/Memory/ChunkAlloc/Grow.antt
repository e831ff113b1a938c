-- ===== src/Memory/ChunkAlloc/Grow.antt =====
-- The newest chunk serves a request, or a new one is put in front of it.
use c_specx.Base.{
  ℕ, ◌+◌, ◌*◌, ◌≤◌, ◌<◌, ◌≡◌, refl, ap, ◌∙◌, ◌⊎◌, inl, inr, Bool, true, false, ◌&&◌, Option, none,
  some, List, ◌∷◌, length, u32_mod, add32_small, mul32_small, ltb, leb, Bool-cases, le_or_lt, subst,
  Option-cases, arith, Option-cases, subst, drop, length-drop,
}
use c_specx.Memory.Lalloc.{Lalloc, lalloc_create}
use c_specx.Memory.Lalloc.Laws as Linear
use c_specx.Memory.ChunkAlloc.{
  chunk_header, created, chunk_create, ChunkAlloc, add_chunk, chunk_alloc_add_new_chunk,
  malloc_in_head, commit,
}
use c_specx.Memory.ChunkAlloc.Inv.{allocated, in_use, AllValid, IsValid, in_use-le-allocated}

-- `n` bytes are taken from the newest chunk.
abbrev pub with_taken : ChunkAlloc → Lalloc → List Lalloc → ℕ → ChunkAlloc
with_taken ca c rest n = record ca {
  chunks = record c { used = c.used + n } ∷ rest;
  total_used = ca.total_used + n;
}

pub head_fits :
    (ca : ChunkAlloc) (c : Lalloc) (rest : List Lalloc) (req size : ℕ)
    → Linear.IsValid c
    → c.used + req * size < c.limit
    → ca.total_used + req * size < u32_mod
    → malloc_in_head ca (c ∷ rest) req size
      ≡ (some (length rest, c.used), with_taken ca c rest (req * size))
unfolding malloc_in_head commit
head_fits ca c rest req size v fits small =
    rw
      (
        Linear.lmalloc_fits c req size v fits,
        mul32_small req size (omega (arith, v.small)),
        add32_small ca.total_used (req * size) small,
      )
      refl

pub head_full :
    (ca : ChunkAlloc) (c : Lalloc) (rest : List Lalloc) (req size : ℕ)
    → Linear.IsValid c
    → c.limit ≤ c.used + req * size
    → malloc_in_head ca (c ∷ rest) req size ≡ (none, record ca { chunks = c ∷ rest })
unfolding malloc_in_head commit
head_full ca c rest req size v full = rw (Linear.lmalloc_full c req size v full) refl

-- What the newest chunk has room for, the counters have room for.
pub taken_small :
    {ca : ChunkAlloc} (c : Lalloc) (rest : List Lalloc) (n : ℕ)
    → IsValid ca
    → ca.chunks ≡ c ∷ rest
    → c.used + n < c.limit
    → ca.total_used + n < u32_mod
unfolding allocated in_use
taken_small {ca} c rest n v e fits = omega (
  arith,
  v.used_count,
  v.allocated_count,
  v.small,
  ap in_use e,
  ap allocated e,
  in_use-le-allocated rest (subst AllValid e v.chunks_valid).1,
)

pub with_taken-IsValid :
    {ca : ChunkAlloc} (c : Lalloc) (rest : List Lalloc) (n : ℕ)
    → IsValid ca
    → ca.chunks ≡ c ∷ rest
    → c.used + n < c.limit
    → IsValid (with_taken ca c rest n)
unfolding allocated in_use
with_taken-IsValid {ca} c rest n v e fits =
    let all = subst AllValid e v.chunks_valid in
    record {
      chunk_count = v.chunk_count ∙ ap length e;
      allocated_count = v.allocated_count ∙ ap allocated e;
      used_count = omega (arith, v.used_count, ap in_use e);
      chunks_valid =
          (record { within = omega arith; small = all.0.small; storage = all.0.storage }, all.1);
      few = v.few;
      bounded = v.bounded;
      small = v.small;
    }

-- A chunk of `size` bytes in front.
abbrev pub with_chunk : ChunkAlloc → ℕ → List ℕ → ChunkAlloc
with_chunk ca size mem = record ca {
  chunks = record { used = 0; limit = size; mem = mem } ∷ ca.chunks;
  num_chunks = ca.num_chunks + 1;
  total_allocated = ca.total_allocated + size;
}

-- `chunk_alloc_add_new_chunk` fails and changes nothing, or adds one chunk.
pub data Added (i_malloc : ℕ → Option (List ℕ)) (ca : ChunkAlloc) (size : ℕ)
    : Bool × ChunkAlloc → Type 0 where
  not_added : Added i_malloc ca size (false, ca)
  added :
      (block : List ℕ)
      → i_malloc (chunk_header + size) ≡ some block
      → IsValid (with_chunk ca size (drop chunk_header block))
      → Added i_malloc ca size (true, with_chunk ca size (drop chunk_header block))

add_chunk-Added :
    (i_malloc : ℕ → Option (List ℕ)) {ca : ChunkAlloc} (size : ℕ)
    → ((n : ℕ) (mem : List ℕ) → i_malloc n ≡ some mem → n ≤ length mem)
    → IsValid ca
    → ca.num_chunks + 1 < u32_mod
    → ca.total_allocated + size < u32_mod
    → (ca.settings.max_chunks ≡ 0) ⊎ (ca.num_chunks < ca.settings.max_chunks)
    → (ca.settings.max_total_size ≡ 0) ⊎ (ca.total_allocated + size ≤ ca.settings.max_total_size)
    → Added i_malloc ca size (add_chunk ca size (created size (i_malloc (chunk_header + size))))
unfolding add_chunk created lalloc_create allocated in_use
add_chunk-Added i_malloc {ca} size gives v count total few bounded =
    elim (Option-cases (i_malloc (chunk_header + size))) [
      | inl e ↦ rw e not_added
      | inr (block, e) ↦
          rw (e, add32_small ca.num_chunks 1 count, add32_small ca.total_allocated size total)
            (added block e (
              valid (drop chunk_header block) (
                omega
                  (arith, length-drop chunk_header block, gives (chunk_header + size) block e))))
    ]
  where
    valid : (mem : List ℕ) → size ≤ length mem → IsValid (with_chunk ca size mem)
    valid mem room = record {
      chunk_count = omega (arith, v.chunk_count);
      allocated_count = omega (arith, v.allocated_count);
      used_count = omega (arith, v.used_count);
      chunks_valid =
          (record { within = omega arith; small = omega arith; storage = room }, v.chunks_valid);
      few = elim few [ inl e ↦ inl e | inr h ↦ inr (omega arith) ];
      bounded = bounded;
      small = total;
    }

under_count : (a b : ℕ) → (ltb 0 a && leb a b) ≡ false → (a ≡ 0) ⊎ (b < a)
under_count a b h = elim (le_or_lt a b) [ inl le ↦ inl (ground arith) | inr lt ↦ inr lt ]

under_total : (a b : ℕ) → (ltb 0 a && ltb a b) ≡ false → (a ≡ 0) ⊎ (b ≤ a)
under_total a b h = elim (le_or_lt b a) [ inl le ↦ inr le | inr lt ↦ inl (ground arith) ]

pub add_new_chunk-Added :
    (i_malloc : ℕ → Option (List ℕ)) {ca : ChunkAlloc} (size : ℕ)
    → ((n : ℕ) (mem : List ℕ) → i_malloc n ≡ some mem → n ≤ length mem)
    → IsValid ca
    → ca.num_chunks + 1 < u32_mod
    → ca.total_allocated + size < u32_mod
    → chunk_header + size < u32_mod
    → Added i_malloc ca size (chunk_alloc_add_new_chunk i_malloc ca size)
unfolding chunk_alloc_add_new_chunk chunk_create
add_new_chunk-Added i_malloc {ca} size gives v count total narrow =
    elim (Bool-cases (ltb 0 ca.settings.max_chunks && leb ca.settings.max_chunks ca.num_chunks)) [
      | inl stop ↦ rw stop not_added
      | inr go ↦
          rw (go, add32_small ca.total_allocated size total, add32_small chunk_header size narrow)
            (elim (Bool-cases (
              ltb 0 ca.settings.max_total_size
              && ltb ca.settings.max_total_size (ca.total_allocated + size))) [
                | inl stop ↦ rw stop not_added
                | inr fits ↦ rw fits (
                    add_chunk-Added i_malloc size gives v count total
                      (under_count ca.settings.max_chunks ca.num_chunks go)
                      (under_total ca.settings.max_total_size (ca.total_allocated + size) fits))
              ])
    ]
