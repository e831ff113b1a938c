-- ===== src/Memory/ChunkAlloc.antt =====
-- The chunk allocator of src/memory/chunk_alloc.c and include/c_specx/memory/chunk_alloc.h. The list
-- of chunks has the newest first, as `head` does; the header of a chunk is its linear allocator. A
-- pointer is the number of its chunk, the oldest being 0, and an index. The product of a size and
-- the float `target_chunk_mult`, as `u32`, is the parameter `scale`; `i_malloc n` is `i_malloc (n, 1)`,
-- the bytes of a chunk with its header, `none` where it returns NULL.
use c_specx.Base.{
  ℕ, zero, ◌+◌, ◌-◌, ◌*◌, ◌/◌, Bool, true, false, not, ◌&&◌, Option, none, some, List, [], ◌∷◌, ltb,
  leb, if◌then◌else◌, length, replicate, splice, take, drop, u32_mod, add32, mul32, map, ◌==◌,
}
use c_specx.Memory.Lalloc.{Lalloc, lalloc_create, lmalloc, lalloc_reset}
pub mod Inv
pub mod Grow
pub mod Malloc
pub mod Serve

pub record Settings : Type 0 where
  pub max_alloc_size : ℕ
  pub max_total_size : ℕ
  pub scale : ℕ → ℕ
  pub min_chunk_size : ℕ
  pub max_chunk_size : ℕ
  pub max_chunks : ℕ

pub record ChunkAlloc : Type 0 where
  pub settings : Settings
  pub chunks : List Lalloc
  pub num_chunks : ℕ
  pub total_allocated : ℕ
  pub total_used : ℕ

unfoldable pub chunk_alloc_create : Settings → ChunkAlloc
chunk_alloc_create settings = record {
  settings = settings;
  chunks = [];
  num_chunks = 0;
  total_allocated = 0;
  total_used = 0;
}

unfoldable pub compute_new_chunk_size : Settings → ℕ → ℕ
compute_new_chunk_size s alloc_size =
    let target = s.scale alloc_size in
    let least = if ltb target s.min_chunk_size then s.min_chunk_size else target in
    let clamped =
      if ltb 0 s.max_chunk_size && ltb s.max_chunk_size least then s.max_chunk_size else least in
    if ltb clamped alloc_size then alloc_size else clamped

unfoldable pub chunk_alloc_free_all : ChunkAlloc → ChunkAlloc
chunk_alloc_free_all ca = record ca {
  chunks = [];
  num_chunks = 0;
  total_allocated = 0;
  total_used = 0;
}

unfoldable pub chunk_alloc_reset_all : ChunkAlloc → ChunkAlloc
chunk_alloc_reset_all ca = record ca { chunks = map lalloc_reset ca.chunks; total_used = 0 }

-- `sizeof (struct chunk)`, the header in front of the bytes of a chunk.
abbrev pub chunk_header : ℕ
chunk_header = 32

-- `chunk_create`: the linear allocator over the bytes behind the header.
unfoldable pub created : ℕ → Option (List ℕ) → Option Lalloc
created size none = none
created size (some block) = some (lalloc_create (drop chunk_header block) size)

unfoldable pub chunk_create : (ℕ → Option (List ℕ)) → ℕ → Option Lalloc
unfolding created
chunk_create i_malloc size = created size (i_malloc (add32 chunk_header size))

-- The insertion of a new chunk at the front.
unfoldable pub add_chunk : ChunkAlloc → ℕ → Option Lalloc → Bool × ChunkAlloc
add_chunk ca size none = (false, ca)
add_chunk ca size (some c) = (
  true,
  record ca {
    chunks = c ∷ ca.chunks;
    num_chunks = add32 ca.num_chunks 1;
    total_allocated = add32 ca.total_allocated size;
  },
)

unfoldable pub chunk_alloc_add_new_chunk :
    (ℕ → Option (List ℕ)) → ChunkAlloc → ℕ → Bool × ChunkAlloc
unfolding add_chunk chunk_create
chunk_alloc_add_new_chunk i_malloc ca size =
    if ltb 0 ca.settings.max_chunks && leb ca.settings.max_chunks ca.num_chunks
    then (false, ca)
    else (if ltb 0 ca.settings.max_total_size
          && ltb ca.settings.max_total_size (add32 ca.total_allocated size)
        then (false, ca)
        else add_chunk ca size (chunk_create i_malloc size))

abbrev pub Ptr : Type 0
Ptr = ℕ × ℕ

-- What `chunk_malloc` makes of the answer of `lmalloc` on the newest chunk.
unfoldable pub commit : ChunkAlloc → List Lalloc → ℕ → Option ℕ × Lalloc → Option Ptr × ChunkAlloc
commit ca rest alloc_size (none, c) = (none, record ca { chunks = c ∷ rest })
commit ca rest alloc_size (some p, c) = (
  some (length rest, p),
  record ca { chunks = c ∷ rest; total_used = add32 ca.total_used alloc_size },
)

-- `lmalloc (&ca->head->alloc, req, size)`; a NULL `head` gives NULL.
unfoldable pub malloc_in_head : ChunkAlloc → List Lalloc → ℕ → ℕ → Option Ptr × ChunkAlloc
unfolding commit
malloc_in_head ca [] req size = (none, ca)
malloc_in_head ca (c ∷ rest) req size = commit ca rest (mul32 req size) (lmalloc c req size)

-- The allocation from a new chunk, if there is one.
unfoldable pub malloc_in_new : Bool × ChunkAlloc → ℕ → ℕ → Option Ptr × ChunkAlloc
malloc_in_new (false, ca) req size = (none, ca)
malloc_in_new (true, ca) req size = malloc_in_head ca ca.chunks req size

-- A new chunk where the newest one has not served.
unfoldable pub retry :
    (ℕ → Option (List ℕ)) → ℕ → ℕ → Option Ptr × ChunkAlloc → Option Ptr × ChunkAlloc
retry i_malloc req size (some p, ca) = (some p, ca)
retry i_malloc req size (none, ca) =
    malloc_in_new
      (chunk_alloc_add_new_chunk i_malloc ca (compute_new_chunk_size ca.settings (mul32 req size)))
      req size

unfoldable pub chunk_malloc : (ℕ → Option (List ℕ)) → ChunkAlloc → ℕ → ℕ → Option Ptr × ChunkAlloc
unfolding retry
chunk_malloc i_malloc ca req size =
    if ltb 0 req && ltb ((u32_mod - 1) / req) size
    then (none, ca)
    else (if ltb 0 ca.settings.max_alloc_size && ltb ca.settings.max_alloc_size (mul32 req size)
        then (none, ca)
        else retry i_malloc req size (malloc_in_head ca ca.chunks req size))

-- A `memcpy` to a pointer: the chunk with that number is written.
unfoldable pub store : List Lalloc → Ptr → List ℕ → List Lalloc
store [] p bytes = []
store (c ∷ cs) p bytes =
    let rest = store cs p bytes in
    if length cs == p.0 then record c { mem = splice c.mem p.1 bytes } ∷ cs else c ∷ rest

unfoldable pub store_at : Option Ptr × ChunkAlloc → List ℕ → Option Ptr × ChunkAlloc
store_at (none, ca) bytes = (none, ca)
store_at (some p, ca) bytes = (some p, record ca { chunks = store ca.chunks p bytes })

unfoldable pub chunk_calloc : (ℕ → Option (List ℕ)) → ChunkAlloc → ℕ → ℕ → Option Ptr × ChunkAlloc
unfolding store_at
chunk_calloc i_malloc ca req size =
    store_at (chunk_malloc i_malloc ca req size) (replicate (mul32 req size) 0)

unfoldable pub chunk_alloc_move_mem :
    (ℕ → Option (List ℕ)) → ChunkAlloc → List ℕ → ℕ → Option Ptr × ChunkAlloc
unfolding store_at
chunk_alloc_move_mem i_malloc ca src size =
    store_at (chunk_malloc i_malloc ca size 1) (take size src)
