-- ===== src/Memory/SlabAlloc/Separate.antt =====
-- The pointers that a client holds, in every state that calls lead to.
use native.Mathlib.Nat.{mul-le-mul_left}
use mathlib.Core.Option.{some-injective}
use c_specx.Base.{
  ℕ, ◌+◌, ◌*◌, ◌/◌, ◌≤◌, ◌<◌, ◌≡◌, sym, ap, ◌∙◌, subst, inl, inr, Bool, true, false, refl, ◌||◌,
  if◌then◌else◌, ==_refl, Option, none, some, List, [], ◌∷◌, ◌==◌, Bool-cases, u32_mod, arith,
  add32, add32_small,
}
use c_specx.Memory.SlabAlloc.{
  SlabAlloc, header_size, slab_alloc_init, slab_alloc_alloc, slab_alloc_free,
}
use c_specx.Memory.SlabAlloc.Slots.{mem, Distinct}
use c_specx.Memory.SlabAlloc.Slabs.{IsValid, allocated}
use c_specx.Memory.SlabAlloc.Change.{is_allocated, Handed}
use c_specx.Memory.SlabAlloc.Alloc.{Outcome, no_memory, hands, Clear, slab_alloc_alloc_lem}
use c_specx.Memory.SlabAlloc.Size.{size-slab_alloc_alloc, size-slab_alloc_free}
use c_specx.Memory.SlabAlloc.Free.{TakenBack, slab_alloc_free_lem}
use c_specx.Memory.SlabAlloc.Apart.{Disjoint, allocated-Disjoint}

-- What `malloc` may return does not overlap the slabs.
abbrev pub IsFresh : (ℕ → Option ℕ) → SlabAlloc → Type 0
IsFresh malloc a =
    (block : ℕ)
    → malloc (a.cap_per_slab * a.size + header_size) ≡ some block
    → Clear block (a.cap_per_slab * a.size + header_size) (a.cap_per_slab * a.size) a.slabs

-- One occurrence of `p` less.
unfoldable pub without : ℕ → List ℕ → List ℕ
without p [] = []
without p (x ∷ xs) = if x == p then xs else x ∷ without p xs

-- The history of an allocator from `slab_alloc_init` on: `live` are the pointers that
-- `slab_alloc_alloc` has returned and that have not come back, the last one first. A client frees a
-- pointer that it has, and `malloc` returns memory that does not overlap the slabs.
pub data Reachable (size cap : ℕ) : List ℕ → SlabAlloc → Type 0 where
  start : Reachable size cap [] (slab_alloc_init size cap)
  served :
      (malloc : ℕ → Option ℕ) (live : List ℕ) (a a' : SlabAlloc) (p : ℕ)
      → Reachable size cap live a
      → IsFresh malloc a
      → slab_alloc_alloc malloc a ≡ (some p, a')
      → Reachable size cap (p ∷ live) a'
  not_served :
      (malloc : ℕ → Option ℕ) (live : List ℕ) (a a' : SlabAlloc)
      → Reachable size cap live a
      → IsFresh malloc a
      → slab_alloc_alloc malloc a ≡ (none, a')
      → Reachable size cap live a'
  freed :
      (live : List ℕ) (a a' : SlabAlloc) (p : ℕ)
      → Reachable size cap live a
      → mem p live ≡ true
      → slab_alloc_free a p ≡ some a'
      → Reachable size cap (without p live) a'

mem-without :
    (p q : ℕ) (xs : List ℕ)
    → Distinct xs
    → mem q (without p xs) ≡ (if q == p then false else mem q xs)
unfolding mem without
mem-without p q [] d = ground arith
mem-without p q (x ∷ xs) d = elim (Bool-cases (x == p)) [
  | inl e ↦ rw e (elim (Bool-cases (q == p)) [
    | inl same ↦ let eq : q ≡ x = ground arith in rw same (ap (λ (k : ℕ). mem k xs) eq ∙ d.0)
    | inr other ↦ rw other (ground arith)
  ])
  | inr ne ↦ rw ne (ground (arith, mem-without p q xs d.1))
]

without-Distinct : (p : ℕ) (xs : List ℕ) → Distinct xs → Distinct (without p xs)
unfolding without
without-Distinct p [] d = tt
without-Distinct p (x ∷ xs) d = elim (Bool-cases (x == p)) [
  | inl e ↦ rw e d.1
  | inr ne ↦
      let absent : mem x (without p xs) ≡ false = mem-without p x xs d.1 ∙ rw ne d.0 in
      rw ne (absent, without-Distinct p xs d.1)
]

init-IsValid :
    (size cap : ℕ)
    → 0 < size
    → 0 < cap
    → size + 7 < u32_mod
    → cap * (size + 7) + header_size < u32_mod
    → IsValid (slab_alloc_init size cap)
unfolding slab_alloc_init
init-IsValid size cap pos some_slot narrow small =
    let rounded : add32 size 7 / 8 * 8 ≤ size + 7 = rw (add32_small size 7 narrow) (omega arith) in
    let some : 0 < add32 size 7 / 8 * 8 = rw (add32_small size 7 narrow) (omega arith) in
    let le : cap * (add32 size 7 / 8 * 8) ≤ cap * (size + 7) =
      mul-le-mul_left {m = add32 size 7 / 8 * 8} {n = size + 7} cap rounded in
    record {
      some_size = some;
      some_slot = some_slot;
      small = omega (arith, le, small);
      slabs_valid = tt;
      apart = tt;
      current_in = tt;
    }

-- The live pointers are the slots that the state has handed out, each once, and a slot has the size
-- that was asked for.
record Agrees (size : ℕ) (live : List ℕ) (a : SlabAlloc) : Type 0 where
  valid : IsValid a
  wide : size ≤ a.size
  distinct : Distinct live
  same : (q : ℕ) → is_allocated a q ≡ mem q live

init-Agrees :
    (size cap : ℕ)
    → size + 7 < u32_mod
    → IsValid (slab_alloc_init size cap)
    → Agrees size [] (slab_alloc_init size cap)
unfolding slab_alloc_init allocated mem
init-Agrees size cap narrow v = record {
  valid = v;
  wide = rw (add32_small size 7 narrow) (omega arith);
  distinct = tt;
  same = λ q. refl;
}

module _ {size : ℕ} where
  served-Agrees :
      (p : ℕ) (live : List ℕ) {a a' : SlabAlloc}
      → Agrees size live a
      → a'.size ≡ a.size
      → Handed a p a'
      → Agrees size (p ∷ live) a'
  unfolding mem
  served-Agrees p live {a} {a'} g keeps h = record {
    valid = h.valid;
    wide = omega (arith, g.wide, keeps);
    distinct = (sym (g.same p) ∙ h.was_free, g.distinct);
    same = λ q.
        h.allocated_eq q
        ∙ ap (λ b. if q == p then true else b) (g.same q)
        ∙ either p q (mem q live);
  }
    where
      either : (p q : ℕ) (b : Bool) → (if q == p then true else b) ≡ (p == q || b)
      either p q b = ground arith

  freed-Agrees :
      (p : ℕ) (live : List ℕ) {a a' : SlabAlloc}
      → Agrees size live a
      → a'.size ≡ a.size
      → TakenBack a p a'
      → Agrees size (without p live) a'
  freed-Agrees p live g keeps back = record {
    valid = back.valid;
    wide = omega (arith, g.wide, keeps);
    distinct = without-Distinct p live g.distinct;
    same = λ q.
        back.allocated_eq q
        ∙ ap (λ b. if q == p then false else b) (g.same q)
        ∙ sym (mem-without p q live g.distinct);
  }

  answer-Agrees :
      (malloc : ℕ → Option ℕ) (live : List ℕ) {a a' : SlabAlloc} (p : ℕ)
      (res : Option ℕ × SlabAlloc)
      → Agrees size live a
      → res.1.size ≡ a.size
      → Outcome malloc a res
      → res ≡ (some p, a')
      → Agrees size (p ∷ live) a'
  answer-Agrees malloc live p _ g keeps (no_memory f e) h = cc (ap (λ t. t.0) h)
  answer-Agrees malloc live {a} {a'} p _ g keeps (hands p1 a1 handed) h =
      let same : p1 ≡ p = some-injective p1 p (ap (λ t. t.0) h) in
      subst (λ k. Agrees size (k ∷ live) a') same
        (subst (Agrees size (p1 ∷ live)) (ap (λ t. t.1) h) (served-Agrees p1 live g keeps handed))

  refusal-Agrees :
      (malloc : ℕ → Option ℕ) (live : List ℕ) {a a' : SlabAlloc} (res : Option ℕ × SlabAlloc)
      → Agrees size live a
      → Outcome malloc a res
      → res ≡ (none, a')
      → Agrees size live a'
  refusal-Agrees malloc live _ g (no_memory f e) h = subst (Agrees size live) (ap (λ t. t.1) h) g
  refusal-Agrees malloc live _ g (hands p a1 handed) h = cc (ap (λ t. t.0) h)

-- No two of the `size` bytes from each pointer on overlap; in particular no pointer stands twice.
abbrev pub ApartFrom : ℕ → ℕ → List ℕ → Type 0
ApartFrom size p [] = Unit
ApartFrom size p (q ∷ qs) = Disjoint size p q × ApartFrom size p qs

abbrev pub AllDisjoint : ℕ → List ℕ → Type 0
AllDisjoint size [] = Unit
AllDisjoint size (p ∷ ps) = ApartFrom size p ps × AllDisjoint size ps

Disjoint-narrow : (size n p q : ℕ) → size ≤ n → Disjoint n p q → Disjoint size p q
Disjoint-narrow size n p q le (inl h) = inl (omega arith)
Disjoint-narrow size n p q le (inr h) = inr (omega arith)

module _ {a : SlabAlloc} (v : IsValid a) (size : ℕ) (wide : size ≤ a.size) where
  all-ApartFrom :
      (p : ℕ) (qs : List ℕ)
      → is_allocated a p ≡ true
      → mem p qs ≡ false
      → ((q : ℕ) → mem q qs ≡ true → is_allocated a q ≡ true)
      → ApartFrom size p qs
  unfolding mem
  all-ApartFrom p [] hp out all = tt
  all-ApartFrom p (q ∷ qs) hp out all = (
    Disjoint-narrow size a.size p q wide (
        allocated-Disjoint a.size a.cap_per_slab p q a.slabs v.some_size v.apart hp
          (all q (rw (==_refl q) refl)) (ground arith)),
    all-ApartFrom p qs hp (ground arith) (λ r h. all r (ground arith)),
  )

  all-AllDisjoint :
      (ps : List ℕ)
      → Distinct ps
      → ((q : ℕ) → mem q ps ≡ true → is_allocated a q ≡ true)
      → AllDisjoint size ps
  unfolding mem
  all-AllDisjoint [] d all = tt
  all-AllDisjoint (p ∷ ps) d all = (
    all-ApartFrom p ps (all p (rw (==_refl p) refl)) d.0 (λ r h. all r (ground arith)),
    all-AllDisjoint ps d.1 (λ r h. all r (ground arith)),
  )

module _ (size cap : ℕ) (pos : 0 < size) (some_slot : 0 < cap) (narrow : size + 7 < u32_mod)
    (small : cap * (size + 7) + header_size < u32_mod) where
  Reachable-Agrees :
      (live : List ℕ) (a : SlabAlloc) → Reachable size cap live a → Agrees size live a
  Reachable-Agrees _ _ start =
      init-Agrees size cap narrow (init-IsValid size cap pos some_slot narrow small)
  Reachable-Agrees _ _ (served malloc live a a' p before fresh e) =
      let g = Reachable-Agrees live a before in
      answer-Agrees malloc live p (slab_alloc_alloc malloc a) g (size-slab_alloc_alloc malloc a)
        (slab_alloc_alloc_lem malloc g.valid fresh) e
  Reachable-Agrees _ _ (not_served malloc live a a' before fresh e) =
      let g = Reachable-Agrees live a before in
      refusal-Agrees malloc live (slab_alloc_alloc malloc a) g
        (slab_alloc_alloc_lem malloc g.valid fresh) e
  Reachable-Agrees _ _ (freed live a a' p before h e) =
      let g = Reachable-Agrees live a before in
      let (a1, e1, back) = slab_alloc_free_lem p g.valid (g.same p ∙ h) in
      subst (Agrees size (without p live)) (some-injective a1 a' (sym e1 ∙ e))
        (freed-Agrees p live g (size-slab_alloc_free p a a1 e1) back)

  -- After any calls of `slab_alloc_alloc` and `slab_alloc_free` on an allocator of `slab_alloc_init`, the
  -- pointers that were returned and have not come back are apart: no two of the `size` bytes from each
  -- of them on, as asked for, overlap, and none stands twice. They are just the slots that the state counts as handed out. A client frees
  -- a pointer that it has, `malloc` returns memory that does not overlap the slabs, the size and the
  -- number of slots in a slab are not 0, and the size of a slab is less than 2^32.
  pub Reachable-AllDisjoint :
      (live : List ℕ) (a : SlabAlloc)
      → Reachable size cap live a
      → AllDisjoint size live × ((q : ℕ) → is_allocated a q ≡ mem q live)
  Reachable-AllDisjoint live a r =
      let g = Reachable-Agrees live a r in
      (all-AllDisjoint g.valid size g.wide live g.distinct (λ q h. g.same q ∙ h), g.same)
