-- ===== src/Memory/ChunkAlloc/Serve.antt =====
-- When `chunk_malloc` does not return NULL.
use c_specx.Base.{
  ℕ, ◌+◌, ◌-◌, ◌*◌, ◌/◌, ◌≤◌, ◌<◌, ◌≡◌, ◌≢◌, refl, sym, ap, ◌∙◌, ◌⊎◌, inl, inr, true, false, Option,
  none, some, List, [], ◌∷◌, length, drop, u32_mod, add32_small, mul32_small, mul32, ltb, le_or_lt,
  subst, le→ltb, arith, length-drop,
}
use native.Mathlib.Nat.{le-div_iff_mul-le, mul_comm}
use c_specx.Memory.Lalloc.{Lalloc, lalloc_create}
use c_specx.Memory.Lalloc.Laws as Linear
use c_specx.Memory.ChunkAlloc.{
  chunk_header, created, chunk_create, Settings, ChunkAlloc, compute_new_chunk_size,
  chunk_alloc_add_new_chunk, add_chunk, malloc_in_head, malloc_in_new, retry, chunk_malloc,
}
use c_specx.Memory.ChunkAlloc.Inv.{AllValid, IsValid, in_use-le-allocated}
use c_specx.Memory.ChunkAlloc.Grow.{head_fits, head_full, taken_small, with_chunk}

-- A request that the first two tests of `chunk_malloc` let through.
pub record Asked (s : Settings) (req size : ℕ) : Type 0 where
  pub positive : 0 < req
  pub product : req * size < u32_mod
  pub allowed : (s.max_alloc_size ≡ 0) ⊎ (req * size ≤ s.max_alloc_size)

quotient_test :
    (req size : ℕ) → 0 < req → req * size < u32_mod → ltb ((u32_mod - 1) / req) size ≡ false
quotient_test req size pos h =
    le→ltb ((u32_mod - 1) / req) size ((le-div_iff_mul-le pos).1 (omega (arith, mul_comm req size)))

asked_lem :
    (i_malloc : ℕ → Option (List ℕ)) (req size : ℕ) (ca : ChunkAlloc)
    → Asked ca.settings req size
    → chunk_malloc i_malloc ca req size
      ≡ retry i_malloc req size (malloc_in_head ca ca.chunks req size)
unfolding chunk_malloc
asked_lem i_malloc req size ca a =
    rw (quotient_test req size a.positive a.product, mul32_small req size a.product)
      (elim a.allowed [ inl e ↦ ground arith | inr h ↦ ground arith ])

-- The newest chunk has room for `n` bytes and one more.
abbrev pub HasRoom : List Lalloc → ℕ → Type 0
HasRoom [] n = ⊥
HasRoom (c ∷ cs) n = c.used + n < c.limit

-- A new chunk of `chunk` bytes is within the limits, and `i_malloc` gives it.
pub record CanGrow (i_malloc : ℕ → Option (List ℕ)) (ca : ChunkAlloc) (chunk : ℕ) : Type 0 where
  pub count_left : (ca.settings.max_chunks ≡ 0) ⊎ (ca.num_chunks < ca.settings.max_chunks)
  pub total_left :
      (ca.settings.max_total_size ≡ 0) ⊎ (ca.total_allocated + chunk ≤ ca.settings.max_total_size)
  pub total_small : ca.total_allocated + chunk < u32_mod
  pub request_small : chunk_header + chunk < u32_mod
  pub block : List ℕ
  pub given : i_malloc (chunk_header + chunk) ≡ some block
  pub storage : chunk_header + chunk ≤ length block
  pub nonempty : ca.num_chunks + 1 < u32_mod

-- The bytes of the new chunk: those of the block behind its header.
abbrev pub bytes :
    {i_malloc : ℕ → Option (List ℕ)} {ca : ChunkAlloc} {chunk : ℕ}
    → CanGrow i_malloc ca chunk
    → List ℕ
bytes g = drop chunk_header g.block

bytes-storage :
    {i_malloc : ℕ → Option (List ℕ)} {ca : ChunkAlloc} {chunk : ℕ}
    → (g : CanGrow i_malloc ca chunk) → chunk ≤ length (bytes g)
bytes-storage g = omega (arith, length-drop chunk_header g.block, g.storage)

grow_lem :
    (i_malloc : ℕ → Option (List ℕ)) (ca : ChunkAlloc) (chunk : ℕ)
    → (g : CanGrow i_malloc ca chunk)
    → chunk_alloc_add_new_chunk i_malloc ca chunk ≡ (true, with_chunk ca chunk (bytes g))
unfolding chunk_alloc_add_new_chunk add_chunk chunk_create created lalloc_create
grow_lem i_malloc ca chunk g =
    rw
      (
        add32_small chunk_header chunk g.request_small,
        g.given,
        add32_small ca.total_allocated chunk g.total_small,
        add32_small ca.num_chunks 1 g.nonempty,
      )
      (ground (arith, g.count_left, g.total_left))

used-le-allocated : {ca : ChunkAlloc} → IsValid ca → ca.total_used ≤ ca.total_allocated
used-le-allocated {ca} v =
    omega (arith, v.used_count, v.allocated_count, in_use-le-allocated ca.chunks v.chunks_valid)

new_lem :
    (i_malloc : ℕ → Option (List ℕ)) (req size chunk : ℕ) {ca : ChunkAlloc}
    → IsValid ca
    → CanGrow i_malloc ca chunk
    → req * size < chunk
    → (malloc_in_new (chunk_alloc_add_new_chunk i_malloc ca chunk) req size).0
      ≡ some (length ca.chunks, 0)
unfolding malloc_in_new
new_lem i_malloc req size chunk {ca} v g fits =
    let c : Lalloc = record { used = 0; limit = chunk; mem = bytes g } in
    let ok : Linear.IsValid c = record {
      within = omega arith;
      small = omega (arith, g.total_small);
      storage = bytes-storage g;
    } in
    rw
      (
        grow_lem i_malloc ca chunk g,
        head_fits (with_chunk ca chunk (bytes g)) c ca.chunks req size ok (omega arith)
            (omega (arith, used-le-allocated v, g.total_small)),
      )
      refl

retry_lem :
    (i_malloc : ℕ → Option (List ℕ)) (req size : ℕ) {ca : ChunkAlloc} (cs : List Lalloc)
    → ca.chunks ≡ cs
    → IsValid ca
    → let chunk = compute_new_chunk_size ca.settings (mul32 req size) in
      HasRoom cs (req * size) ⊎ (CanGrow i_malloc ca chunk × (req * size < chunk))
      → (retry i_malloc req size (malloc_in_head ca cs req size)).0 ≢ none
unfolding retry malloc_in_head
retry_lem i_malloc req size {ca} [] e v (inr g) =
    rw (new_lem i_malloc req size _ v g.0 g.1) (λ h. cc)
retry_lem i_malloc req size {ca} [] e v (inl room) = elim room [ ]
retry_lem i_malloc req size {ca} (c ∷ rest) e v can =
    let ok = (subst AllValid e v.chunks_valid).0 in
    elim (le_or_lt c.limit (c.used + req * size)) [
      | inl full ↦
          let same : record ca { chunks = c ∷ rest } ≡ ca =
            ap (λ cs. record ca { chunks = cs }) (sym e) in
          elim can [
            | inl room ↦ absurd (omega arith)
            | inr g ↦
                rw
                  (
                    head_full ca c rest req size ok full,
                    same,
                    new_lem i_malloc req size _ v g.0 g.1,
                  )
                  (λ h. cc)
          ]
      | inr fits ↦
          rw (head_fits ca c rest req size ok fits (taken_small c rest (req * size) v e fits))
            (λ h. cc)
    ]

-- On a valid allocator, `chunk_malloc` of a request of less than 2^32 bytes, with a count that is
-- not 0, within the limit on a single allocation, does not return NULL if the newest chunk has
-- room for it and one byte more, or if a new chunk, of the size that `compute_new_chunk_size`
-- gives, is within the limits, can be had and has more bytes than were asked for.
pub chunk_malloc_serves :
    (i_malloc : ℕ → Option (List ℕ)) (req size : ℕ) {ca : ChunkAlloc}
    → IsValid ca
    → Asked ca.settings req size
    → let chunk = compute_new_chunk_size ca.settings (mul32 req size) in
      HasRoom ca.chunks (req * size) ⊎ (CanGrow i_malloc ca chunk × (req * size < chunk))
      → (chunk_malloc i_malloc ca req size).0 ≢ none
chunk_malloc_serves i_malloc req size {ca} v a can =
    rw (asked_lem i_malloc req size ca a) (retry_lem i_malloc req size ca.chunks refl v can)

too_small :
    (i_malloc : ℕ → Option (List ℕ)) (req size : ℕ) {ca : ChunkAlloc}
    → (g : CanGrow i_malloc ca (req * size))
    → malloc_in_new (chunk_alloc_add_new_chunk i_malloc ca (req * size)) req size
      ≡ (none, with_chunk ca (req * size) (bytes g))
unfolding malloc_in_new
too_small i_malloc req size {ca} g =
    let n = req * size in
    let c : Lalloc = record { used = 0; limit = n; mem = bytes g } in
    let ok : Linear.IsValid c = record {
      within = omega arith;
      small = omega (arith, g.total_small);
      storage = bytes-storage g;
    } in
    rw
      (
        grow_lem i_malloc ca n g,
        head_full (with_chunk ca n (bytes g)) c ca.chunks req size ok (omega arith),
      )
      refl

-- A new chunk of just the size of the request does not serve it, as `lmalloc` wants one byte more:
-- on a valid allocator with no chunk, where a new chunk can be had and its size is that of the
-- request, a request that passes the limits, `chunk_malloc` adds the chunk and returns NULL.
pub chunk_malloc_exact :
    (i_malloc : ℕ → Option (List ℕ)) (req size : ℕ) {ca : ChunkAlloc}
    → IsValid ca
    → Asked ca.settings req size
    → ca.chunks ≡ []
    → compute_new_chunk_size ca.settings (req * size) ≡ req * size
    → (g : CanGrow i_malloc ca (req * size))
    → chunk_malloc i_malloc ca req size ≡ (none, with_chunk ca (req * size) (bytes g))
unfolding retry malloc_in_head
chunk_malloc_exact i_malloc req size {ca} v a none_yet same g =
    let n = req * size in
    asked_lem i_malloc req size ca a
    ∙ ap (λ cs. retry i_malloc req size (malloc_in_head ca cs req size)) none_yet
    ∙ ap (λ (k : ℕ). malloc_in_new (chunk_alloc_add_new_chunk i_malloc ca k) req size)
        (ap (compute_new_chunk_size ca.settings) (mul32_small req size a.product) ∙ same)
    ∙ too_small i_malloc req size g
