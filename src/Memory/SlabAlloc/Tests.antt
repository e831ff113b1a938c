-- ===== src/Memory/SlabAlloc/Tests.antt =====
-- Runs of the slab allocator, and the theorems about it where their hypotheses hold.
use c_specx.Base.{
  ℕ, ◌+◌, ◌*◌, ◌≡◌, refl, inr, true, Option, none, some, [], ◌∷◌, arith, add32, mul32, sub32,
}
use c_specx.Memory.SlabAlloc.{
  SlabAlloc, header_size, slab_alloc_init, slab_alloc_alloc, slab_alloc_free, slab_alloc_extend,
  new_slab, all_slots, find_slab, update_slab, has_space, with_space, cached, search, pop, from_new,
  from_found, from_cached, slab_from_ptr, from_cache, slab_contains, put_back, recached, drop_empty,
  has_others,
}
use c_specx.Memory.SlabAlloc.Slots.{taken_in, is_slot, mem, taken_count}
use c_specx.Memory.SlabAlloc.Slabs.{IsValid, allocated, has_base}
use c_specx.Memory.SlabAlloc.Change.{is_allocated}
use c_specx.Memory.SlabAlloc.Alloc.{Outcome, Clear, slab_alloc_alloc_lem}
use c_specx.Memory.SlabAlloc.Free.{TakenBack, slab_alloc_free_lem}
use c_specx.Memory.SlabAlloc.Separate.{
  Reachable, start, served, freed, without, AllDisjoint, Reachable-AllDisjoint,
}

abbrev at_100 : ℕ → Option ℕ
at_100 n = some 100

abbrev no_more : ℕ → Option ℕ
no_more n = none

-- A slab of two slots of eight bytes, of which the second is handed out.
abbrev one_slab : SlabAlloc
one_slab = record {
  slabs = record { base = 32; freelist = 32 ∷ []; used = 1 } ∷ [];
  current = some 32;
  size = 8;
  cap_per_slab = 2;
}

one_slab-IsValid : IsValid one_slab
unfolding taken_count mem is_slot has_base
one_slab-IsValid = record {
  some_size = omega arith;
  some_slot = omega arith;
  small = omega arith;
  slabs_valid = (record { distinct = (refl, tt); slots = (refl, tt); counted = refl }, tt);
  apart = (tt, tt);
  current_in = refl;
}

at_100-Clear :
    (block : ℕ)
    → at_100 (2 * 8 + header_size) ≡ some block
    → Clear block (2 * 8 + header_size) (2 * 8) one_slab.slabs
at_100-Clear block h = (inr (ground arith), tt)

slab_alloc_alloc_lem_example : Outcome at_100 one_slab (slab_alloc_alloc at_100 one_slab)
slab_alloc_alloc_lem_example = slab_alloc_alloc_lem at_100 one_slab-IsValid at_100-Clear

second_slot : is_allocated one_slab 40 ≡ true
unfolding allocated taken_in is_slot mem
second_slot = refl

slab_alloc_free_lem_example :
    (a' : SlabAlloc) × (slab_alloc_free one_slab 40 ≡ some a') × TakenBack one_slab 40 a'
slab_alloc_free_lem_example = slab_alloc_free_lem 40 one_slab-IsValid second_slot

-- Two calls after `slab_alloc_init`.
abbrev first_call : SlabAlloc
first_call = (slab_alloc_alloc at_100 (slab_alloc_init 8 2)).1

abbrev second_call : SlabAlloc
second_call = (slab_alloc_alloc no_more first_call).1

first_call_run : first_call ≡ record {
  slabs = record { base = 132; freelist = 140 ∷ []; used = 1 } ∷ [];
  current = some 132;
  size = 8;
  cap_per_slab = 2;
}
unfolding slab_alloc_alloc slab_alloc_init from_cached with_space cached from_found search from_new
    slab_alloc_extend new_slab all_slots pop update_slab add32 mul32 has_space find_slab
first_call_run = refl

-- The slot that comes back is returned once more.
abbrev after_free : SlabAlloc
after_free = record {
  slabs = record { base = 132; freelist = 132 ∷ []; used = 1 } ∷ [];
  current = some 132;
  size = 8;
  cap_per_slab = 2;
}

abbrev full_again : SlabAlloc
full_again = record after_free { slabs = record { base = 132; freelist = []; used = 2 } ∷ [] }

first_served : slab_alloc_alloc at_100 (slab_alloc_init 8 2) ≡ (some 132, first_call)
unfolding slab_alloc_alloc slab_alloc_init from_cached with_space cached from_found search from_new
    slab_alloc_extend new_slab all_slots pop update_slab add32 mul32 has_space find_slab
first_served = refl

second_served : slab_alloc_alloc no_more first_call ≡ (some 140, full_again)
unfolding slab_alloc_alloc slab_alloc_init from_cached with_space cached from_found search from_new
    slab_alloc_extend new_slab all_slots pop update_slab add32 mul32 has_space find_slab
second_served = refl

first_back : slab_alloc_free full_again 132 ≡ some after_free
unfolding slab_alloc_free slab_from_ptr from_cache cached find_slab slab_contains put_back sub32
    update_slab recached has_space drop_empty has_others mul32
first_back = refl

served_again : slab_alloc_alloc no_more after_free ≡ (some 132, full_again)
unfolding slab_alloc_alloc from_cached with_space cached pop update_slab add32 has_space find_slab
served_again = refl

full_again-Reachable : Reachable 8 2 (132 ∷ 140 ∷ []) full_again
unfolding without slab_alloc_init
full_again-Reachable =
    served no_more (140 ∷ []) after_free full_again 132
      (freed (140 ∷ 132 ∷ []) full_again after_free 132
        (served no_more (132 ∷ []) first_call full_again 140
          (served at_100 [] (slab_alloc_init 8 2) first_call 132 start (λ block h. tt) first_served)
          (λ block h. absurd (ground arith)) second_served)
        (unfold mem in refl) first_back)
      (λ block h. absurd (ground arith)) served_again

Reachable-AllDisjoint_example :
    AllDisjoint 8 (132 ∷ 140 ∷ []) × ((q : ℕ) → is_allocated full_again q ≡ mem q (132 ∷ 140 ∷ []))
Reachable-AllDisjoint_example =
    Reachable-AllDisjoint 8 2 (omega arith) (omega arith) (omega arith) (omega arith)
      (132 ∷ 140 ∷ []) full_again full_again-Reachable
