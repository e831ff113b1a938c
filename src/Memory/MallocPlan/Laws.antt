-- ===== src/Memory/MallocPlan/Laws.antt =====
-- The second pass of a client's calls fits in what the first pass planned.
use c_specx.Base.{
  inl, inr, ◌⊎◌, Option-cases, ℕ, ◌+◌, ◌≤◌, ◌<◌, ◌≡◌, refl, sym, ap, ◌∙◌, true, false, Option, none,
  some, List, [], ◌∷◌, ◌++◌, length, splice, take, take_all, take-splice_end, length-splice,
  u32_mod, add32_small, arith, append_assoc, append-nil, length-append, ◌⊎◌, Option-cases,
}
use c_specx.Memory.Serial.RoundTrip.{joined}
use c_specx.Memory.MallocPlan.{
  mp_planning, mp_allocing, MallocPlan, malloc_plan_create, malloc_plan_head, head_in,
  malloc_plan_memcpy, memcpy_in, malloc_plan_alloc, alloc_with,
}

-- The calls of a client, each of a whole list: the pointers it gets and the plan behind them.
unfoldable pub memcpy_all : MallocPlan → List (List ℕ) → List (Option ℕ) × MallocPlan
memcpy_all p [] = ([], p)
memcpy_all p (c ∷ cs) =
    let (q, p') = malloc_plan_memcpy p c (length c) in
    let (qs, p'') = memcpy_all p' cs in (q ∷ qs, p'')

-- Where the pieces stand, one behind the other from index `i` on.
abbrev pub offsets : ℕ → List (List ℕ) → List (Option ℕ)
offsets i [] = []
offsets i (c ∷ cs) = some i ∷ offsets (i + length c) cs

plan_all :
    (cs : List (List ℕ)) (size blen : ℕ) (buf : List ℕ)
    → size + length (joined cs) < u32_mod
    → (memcpy_all (record { size = size; blen = blen; buffer = buf; mode = mp_planning }) cs).1
      ≡ record { size = size + length (joined cs); blen = blen; buffer = buf; mode = mp_planning }
unfolding memcpy_all malloc_plan_memcpy memcpy_in
plan_all [] size blen buf small =
    ap (λ (n : ℕ). record { size = n; blen = blen; buffer = buf; mode = mp_planning }) {x = size}
      {y = size + 0} (omega arith)
plan_all (c ∷ cs) size blen buf small =
    let n = length-append c (joined cs) in
    rw (add32_small size (length c) (omega (arith, n))) (
      plan_all cs (size + length c) blen buf (omega (arith, n))
      ∙ ap (λ (n : ℕ). record { size = n; blen = blen; buffer = buf; mode = mp_planning })
          (omega (arith, n)))

planned_lem :
    (cs : List (List ℕ))
    → length (joined cs) < u32_mod
    → (memcpy_all malloc_plan_create cs).1
      ≡ record { size = length (joined cs); blen = 0; buffer = []; mode = mp_planning }
unfolding malloc_plan_create
planned_lem cs small =
    plan_all cs 0 0 [] (omega arith)
    ∙ ap (λ (n : ℕ). record { size = n; blen = 0; buffer = []; mode = mp_planning })
        {x = 0 + length (joined cs)} (omega arith)

-- What the second pass has done from index `p.blen` on.
record Filled (p : MallocPlan) (cs : List (List ℕ)) (r : List (Option ℕ) × MallocPlan)
    : Type 0 where
  pointers : r.0 ≡ offsets p.blen cs
  blen_eq : r.1.blen ≡ p.blen + length (joined cs)
  size_eq : r.1.size ≡ p.size
  bytes : take r.1.blen r.1.buffer ≡ take p.blen p.buffer ++ joined cs
  room : length r.1.buffer ≡ length p.buffer

fill_all :
    (cs : List (List ℕ)) (size blen : ℕ) (buf : List ℕ)
    → blen + length (joined cs) < u32_mod
    → blen + length (joined cs) ≤ length buf
    → let p : MallocPlan = record { size = size; blen = blen; buffer = buf; mode = mp_allocing } in
      Filled p cs (memcpy_all p cs)
unfolding memcpy_all malloc_plan_memcpy memcpy_in malloc_plan_head head_in
fill_all [] size blen buf small fits = record {
  pointers = refl;
  blen_eq = omega arith;
  size_eq = refl;
  bytes = sym (append-nil (take blen buf));
  room = refl;
}
fill_all (c ∷ cs) size blen buf small fits =
    let n = length-append c (joined cs) in
    let rest =
      fill_all cs size (blen + length c) (splice buf blen c) (omega (arith, n))
        (omega (arith, n, length-splice buf blen c)) in
    rw (add32_small blen (length c) (omega (arith, n)), take_all (length c) c (omega arith))
      (record {
        pointers = ap (λ t. some blen ∷ t) rest.pointers;
        blen_eq = omega (arith, rest.blen_eq, n);
        size_eq = rest.size_eq;
        bytes =
            rest.bytes
            ∙ ap (λ t. t ++ joined cs) (take-splice_end buf blen c (omega (arith, n)))
            ∙ append_assoc (take blen buf) c (joined cs);
        room = omega (arith, rest.room, length-splice buf blen c);
      })

-- A client plans its pieces, of less than 2^32 bytes in all, allocates, and makes the same calls
-- again; `i_malloc` gives no less than it is asked for. Then a failing `i_malloc` is reported and
-- the plan stays in its first pass, or each piece gets its place in the buffer, one behind the
-- other, the planned size is met exactly, and the buffer holds the pieces joined.
pub plan-alloc-fill_lem :
    (i_malloc : ℕ → Option (List ℕ)) (cs : List (List ℕ))
    → ((n : ℕ) (mem : List ℕ) → i_malloc n ≡ some mem → n ≤ length mem)
    → length (joined cs) < u32_mod
    → let planned = (memcpy_all malloc_plan_create cs).1 in
      let (ok, ready) = malloc_plan_alloc i_malloc planned in
      let (ptrs, filled) = memcpy_all ready cs in
      ((ok ≡ false) × (i_malloc (length (joined cs)) ≡ none) × (ready.mode ≡ mp_planning))
      ⊎ ((ok ≡ true)
          × (ptrs ≡ offsets 0 cs)
          × (filled.blen ≡ filled.size)
          × (take filled.blen filled.buffer ≡ joined cs))
unfolding malloc_plan_alloc alloc_with
plan-alloc-fill_lem i_malloc cs gives small =
    rw (planned_lem cs small) (elim (Option-cases (i_malloc (length (joined cs)))) [
      | inl e ↦ rw e (inl (refl, refl, refl))
      | inr (mem, e) ↦
          let f =
            fill_all cs (length (joined cs)) 0 mem (omega arith)
              (omega (arith, gives (length (joined cs)) mem e)) in
          rw e (inr (refl, f.pointers, omega (arith, f.blen_eq, f.size_eq), f.bytes))
    ])
