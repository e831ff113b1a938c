-- ===== src/Memory/Tests.antt =====
-- Runs of the allocators and streams, and the theorems at inputs that meet their hypotheses.
use c_specx.Base.{
  ℕ, ◌+◌, ◌*◌, ◌≤◌, ◌<◌, ◌≡◌, ◌≢◌, refl, ◌⊎◌, inl, inr, true, false, Option, none, some, List, [],
  ◌∷◌, length, take, drop, slice, replicate, u32_mod, map, arith, mul32, ap, length-replicate,
}
use c_specx.Memory.Lalloc.{Lalloc, lmalloc, lcalloc, lalloc_reset_to_state, lalloc_get_state}
use c_specx.Memory.Lalloc.Laws as Linear
use c_specx.Memory.Lalloc.Laws.{lmalloc_lem, lcalloc_lem, Served}
use c_specx.Memory.Lalloc.Blocks.{serve, Disjoint, serve-Disjoint, reset_to_state-serve}
use c_specx.Memory.Serial.{Serializer, srlizr_create, srlizr_write, dsrlizr_create}
use c_specx.Memory.Serial.Laws as Stream
use c_specx.Memory.Serial.Laws.{srlizr_write_lem, srlizr_write_wraps}
use c_specx.Memory.Serial.RoundTrip.{write_all, read_all, read_all-write_all}
use c_specx.Memory.MallocPlan.{mp_planning, malloc_plan_create, malloc_plan_alloc}
use c_specx.Memory.MallocPlan.Laws.{memcpy_all, plan-alloc-fill_lem}
use c_specx.Memory.ChunkAlloc.{
  Settings, ChunkAlloc, chunk_alloc_create, chunk_malloc, chunk_alloc_reset_all,
  chunk_alloc_free_all, compute_new_chunk_size, chunk_header,
}
use c_specx.Memory.ChunkAlloc.Inv as Chunked
use c_specx.Memory.ChunkAlloc.Inv.{
  allocated, in_use, chunk_alloc_create-IsValid, chunk_alloc_reset_all-IsValid,
}
use c_specx.Memory.ChunkAlloc.Grow.{with_chunk}
use c_specx.Memory.ChunkAlloc.Malloc.{Outcome, chunk_malloc-IsValid}
use c_specx.Memory.ChunkAlloc.Serve.{Asked, CanGrow, chunk_malloc_serves, chunk_malloc_exact}

-- Eight bytes, of which two are in use.
abbrev arena : Lalloc
arena = record { used = 2; limit = 8; mem = 1 ∷ 2 ∷ 3 ∷ 4 ∷ 5 ∷ 6 ∷ 7 ∷ 8 ∷ [] }

arena-IsValid : Linear.IsValid arena
arena-IsValid = record { within = omega arith; small = omega arith; storage = omega arith }

lmalloc_lem_example :
    ((8 ≤ 2 + 2 * 2) × (lmalloc arena 2 2 ≡ (none, arena)))
    ⊎ ((2 + 2 * 2 < 8) × ((lmalloc arena 2 2).0 ≡ some 2) × Served arena (lmalloc arena 2 2).1 4)
lmalloc_lem_example = lmalloc_lem 2 2 arena-IsValid

lcalloc_lem_example :
    let r = lcalloc arena 2 2 in
    ((8 ≤ 6) × (r ≡ (none, arena)))
    ⊎ ((6 < 8)
        × (r.0 ≡ some 2)
        × Linear.IsValid r.1
        × (r.1.used ≡ 6)
        × (slice r.1.mem 2 4 ≡ replicate 4 0)
        × (take 2 r.1.mem ≡ take 2 arena.mem)
        × (drop 6 r.1.mem ≡ drop 6 arena.mem))
lcalloc_lem_example = lcalloc_lem 2 2 arena-IsValid

serve-Disjoint_example :
    let (bs, a') = serve arena ((1, 2) ∷ (9, 9) ∷ (3, 1) ∷ []) in
    Disjoint 2 a'.used bs × (a'.used ≤ 8) × Linear.IsValid a'
serve-Disjoint_example = serve-Disjoint ((1, 2) ∷ (9, 9) ∷ (3, 1) ∷ []) arena-IsValid

reset_to_state-serve_example :
    lalloc_reset_to_state (serve arena ((1, 2) ∷ (3, 1) ∷ [])).1 (lalloc_get_state arena) ≡ arena
reset_to_state-serve_example = reset_to_state-serve ((1, 2) ∷ (3, 1) ∷ []) arena-IsValid

abbrev stream : Serializer
stream = record { mem = 1 ∷ 2 ∷ 0 ∷ 0 ∷ []; dlen = 2; dcap = 4 }

stream-IsValid : Stream.IsValid stream
stream-IsValid = record { within = omega arith; small = omega arith; storage = omega arith }

srlizr_write_lem_example :
    let r = srlizr_write stream (7 ∷ 8 ∷ []) 2 in
    ((4 < 2 + 2) × (r ≡ (false, stream)))
    ⊎ ((2 + 2 ≤ 4)
        × (r.0 ≡ true)
        × Stream.IsValid r.1
        × (take r.1.dlen r.1.mem ≡ 1 ∷ 2 ∷ 7 ∷ 8 ∷ []))
srlizr_write_lem_example = srlizr_write_lem (7 ∷ 8 ∷ []) stream-IsValid (omega arith)

srlizr_write_wraps_example : (4 < 2 + 4294967294) × ((srlizr_write stream [] 4294967294).0 ≡ true)
srlizr_write_wraps_example =
    srlizr_write_wraps [] 4294967294 stream-IsValid (omega arith) (omega arith)

abbrev pieces : List (List ℕ)
pieces = (1 ∷ []) ∷ (2 ∷ 3 ∷ []) ∷ []

read_all-write_all_example :
    let (ok, d) = write_all (srlizr_create (0 ∷ 0 ∷ 0 ∷ 0 ∷ []) 4) pieces in
    (ok ≡ true) × (read_all (dsrlizr_create d.mem d.dlen) (map length pieces) ≡ some pieces)
read_all-write_all_example =
    read_all-write_all (0 ∷ 0 ∷ 0 ∷ 0 ∷ []) 4 pieces (omega arith) (omega arith) (omega arith)

-- An `i_malloc` that always has zeroed memory.
abbrev zeroed : ℕ → Option (List ℕ)
zeroed n = some (replicate n 0)

zeroed_gives : (n : ℕ) (mem : List ℕ) → zeroed n ≡ some mem → n ≤ length mem
zeroed_gives n mem e =
    let same : replicate n 0 ≡ mem = cc in
    let count : length (replicate n 0) ≡ length mem = ap length same in
    omega (arith, length-replicate {A = ℕ} n 0, count)

plan-alloc-fill_lem_example :
    let planned = (memcpy_all malloc_plan_create pieces).1 in
    let (ok, ready) = malloc_plan_alloc zeroed planned in
    let (ptrs, filled) = memcpy_all ready pieces in
    ((ok ≡ false) × (zeroed 3 ≡ none) × (ready.mode ≡ mp_planning))
    ⊎ ((ok ≡ true)
        × (ptrs ≡ some 0 ∷ some 1 ∷ [])
        × (filled.blen ≡ filled.size)
        × (take filled.blen filled.buffer ≡ 1 ∷ 2 ∷ 3 ∷ []))
plan-alloc-fill_lem_example = plan-alloc-fill_lem zeroed pieces zeroed_gives (omega arith)

-- No limits; a new chunk has twice the size of the request.
abbrev doubling : Settings
doubling = record {
  max_alloc_size = 0;
  max_total_size = 0;
  scale = λ n. n * 2;
  min_chunk_size = 1;
  max_chunk_size = 0;
  max_chunks = 0;
}

-- A new chunk has the size of the request.
abbrev exact : Settings
exact = record doubling { scale = λ n. n }

chunk_alloc_create-IsValid_example : Chunked.IsValid (chunk_alloc_create doubling)
chunk_alloc_create-IsValid_example = chunk_alloc_create-IsValid doubling

abbrev none_yet : Settings → ChunkAlloc
none_yet s = record {
  settings = s;
  chunks = [];
  num_chunks = 0;
  total_allocated = 0;
  total_used = 0;
}

none_yet-IsValid : (s : Settings) → Chunked.IsValid (none_yet s)
unfolding chunk_alloc_create
none_yet-IsValid s = chunk_alloc_create-IsValid s

chunk_alloc_reset_all-IsValid_example :
    let ca = none_yet doubling in
    let r = chunk_alloc_reset_all ca in
    Chunked.IsValid r
    × (length r.chunks ≡ 0)
    × (allocated r.chunks ≡ allocated [])
    × (in_use r.chunks ≡ 0)
    × (chunk_alloc_free_all ca ≡ chunk_alloc_create doubling)
chunk_alloc_reset_all-IsValid_example = chunk_alloc_reset_all-IsValid (none_yet-IsValid doubling)

chunk_malloc-IsValid_example :
    let r = chunk_malloc zeroed (none_yet doubling) 2 3 in
    Chunked.IsValid r.1
    × Outcome zeroed (none_yet doubling) 6 (compute_new_chunk_size doubling (mul32 2 3)) r
unfolding compute_new_chunk_size mul32
chunk_malloc-IsValid_example =
    chunk_malloc-IsValid zeroed zeroed_gives 2 3 (none_yet-IsValid doubling) (omega arith)
      (omega arith) (omega arith)

abbrev can_grow :
    (s : Settings) (n : ℕ)
    → chunk_header + n < u32_mod
    → s.max_chunks ≡ 0
    → s.max_total_size ≡ 0
    → CanGrow zeroed (none_yet s) n
can_grow s n small count total = record {
  count_left = inl count;
  total_left = inl total;
  total_small = omega arith;
  request_small = omega arith;
  block = replicate (chunk_header + n) 0;
  given = refl;
  storage = omega (arith, length-replicate {A = ℕ} (chunk_header + n) 0);
  nonempty = omega arith;
}

asked : (s : Settings) → s.max_alloc_size ≡ 0 → Asked s 2 3
asked s e = record { positive = omega arith; product = omega arith; allowed = inl e }

chunk_malloc_serves_example : (chunk_malloc zeroed (none_yet doubling) 2 3).0 ≢ none
unfolding compute_new_chunk_size mul32
chunk_malloc_serves_example =
    chunk_malloc_serves zeroed 2 3 (none_yet-IsValid doubling) (asked doubling refl)
      (inr (can_grow doubling 12 (omega arith) refl refl, omega arith))

chunk_malloc_exact_example :
    chunk_malloc zeroed (none_yet exact) 2 3
    ≡ (none, with_chunk (none_yet exact) 6 (0 ∷ 0 ∷ 0 ∷ 0 ∷ 0 ∷ 0 ∷ []))
unfolding compute_new_chunk_size mul32
chunk_malloc_exact_example =
    chunk_malloc_exact zeroed 2 3 (none_yet-IsValid exact) (asked exact refl) refl refl
      (can_grow exact 6 (omega arith) refl refl)
