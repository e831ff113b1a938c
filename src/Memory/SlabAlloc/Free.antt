-- ===== src/Memory/SlabAlloc/Free.antt =====
-- `slab_alloc_free` takes back a slot that is handed out.
use c_specx.Base.{
  ℕ, ◌+◌, ◌*◌, ◌≤◌, ◌<◌, ◌≡◌, refl, sym, ap, ◌∙◌, subst, inl, inr, Bool, true, false, ◌&&◌, ◌||◌,
  Option, none, some, List, ◌∷◌, ◌++◌, ◌==◌, if◌then◌else◌, Bool-cases, arith, sub32,
}
use c_specx.Memory.SlabAlloc.{
  Slab, SlabAlloc, cached, from_cache, slab_from_ptr, update_slab, remove_slab, recached, has_space,
  has_others, uncached, drop_empty, put_back, back, slab_alloc_free,
}
use c_specx.Memory.SlabAlloc.Slots.{taken_in, unused-taken_in}
use c_specx.Memory.SlabAlloc.SlabStep.{push-Pushed}
use c_specx.Memory.SlabAlloc.Slabs.{
  IsValid, allocated, AllSlabs, AllApart, CurrentIn, remove-mid, Away-others, apart-less,
  has_base-mid, slabs-less, allocated-mid, allocated-Away,
}
use c_specx.Memory.SlabAlloc.Change.{
  is_allocated, Split, cap_small, some_bytes, change-Changed, slab_of,
}
use c_specx.Memory.SlabAlloc.Alloc.{recached-IsValid}
use c_specx.Memory.SlabAlloc.Search.{cached-Pointed}
use c_specx.Memory.SlabAlloc.Owner.{Owner, from_cache-Owner, owner}

-- `p` is taken back, and nothing else changes.
pub record TakenBack (a : SlabAlloc) (p : ℕ) (a' : SlabAlloc) : Type 0 where
  pub valid : IsValid a'
  pub allocated_eq : (q : ℕ) → is_allocated a' q ≡ (if q == p then false else is_allocated a q)

-- The end of the call, for a slab of the list.
uncached-CurrentIn :
    (c : Option ℕ) (bytes : ℕ) (pos : 0 < bytes) (s : Slab) (xs ys : List Slab)
    → CurrentIn c (xs ++ (s ∷ ys))
    → CurrentIn (uncached c s.base) (xs ++ ys)
unfolding uncached
uncached-CurrentIn none bytes pos s xs ys h = tt
uncached-CurrentIn (some c) bytes pos s xs ys h = elim (Bool-cases (c == s.base)) [
  | inl e ↦ rw e tt
  | inr e ↦
      let other : (s.base == c) ≡ false = ground arith in
      rw e (rw (has_base-mid bytes pos s ys c xs, other) at h)
]

record Emptied (a a' : SlabAlloc) : Type 0 where
  valid : IsValid a'
  same : (q : ℕ) → is_allocated a' q ≡ is_allocated a q

remove-Emptied :
    (s : Slab) {a : SlabAlloc}
    → IsValid a
    → Split a.slabs s
    → s.used ≡ 0
    → Emptied a
        (record a { slabs = remove_slab s.base a.slabs; current = uncached a.current s.base })
remove-Emptied s {a} v sp unused =
    let bytes = a.cap_per_slab * a.size in
    let pos = some_bytes v in
    let ok = subst (AllSlabs a.size a.cap_per_slab) sp.eq v.slabs_valid in
    let apart = subst (AllApart bytes) sp.eq v.apart in
    let now : remove_slab s.base a.slabs ≡ sp.before ++ sp.after =
      ap (remove_slab s.base) sp.eq ∙ remove-mid bytes pos s sp.after sp.before apart in
    record {
      valid = record {
        some_size = v.some_size;
        some_slot = v.some_slot;
        small = v.small;
        slabs_valid =
            subst (AllSlabs a.size a.cap_per_slab) (sym now)
              (slabs-less a.size a.cap_per_slab s sp.after sp.before ok);
        apart = subst (AllApart bytes) (sym now) (apart-less bytes pos s sp.after sp.before apart);
        current_in = subst (CurrentIn (uncached a.current s.base)) (sym now) (
            uncached-CurrentIn a.current bytes pos s sp.before sp.after
              (subst (CurrentIn a.current) sp.eq v.current_in));
      };
      same = λ q.
          ap (λ l. allocated a.size a.cap_per_slab l q) now
          ∙ ap (λ b. b || allocated a.size a.cap_per_slab (sp.before ++ sp.after) q)
              (sym (unused-taken_in a.size a.cap_per_slab s q (slab_of s v sp) unused))
          ∙ sym (allocated-mid a.size a.cap_per_slab s sp.after q sp.before)
          ∙ ap (λ l. allocated a.size a.cap_per_slab l q) (sym sp.eq);
    }

drop_empty-Emptied :
    (s : Slab) {a : SlabAlloc} → IsValid a → Split a.slabs s → Emptied a (drop_empty a s)
unfolding drop_empty
drop_empty-Emptied s {a} v sp = elim (Bool-cases (s.used == 0 && has_others a.slabs)) [
  | inr keep ↦ rw keep (record { valid = v; same = λ q. refl })
  | inl empty ↦ rw empty (remove-Emptied s v sp (ground arith))
]

-- The cache after the slot has come back.
recached-choice-IsValid :
    (s : Slab) {a : SlabAlloc} (c : Option Slab)
    → IsValid a
    → Split a.slabs s
    → IsValid (record a { current = recached a s c })
unfolding recached
recached-choice-IsValid s none v sp = recached-IsValid s v sp
recached-choice-IsValid s {a} (some c) v sp = elim (Bool-cases (has_space c)) [
  | inl e ↦ rw e v
  | inr e ↦ rw e (recached-IsValid s v sp)
]

if_or_not :
    (b x y z : Bool)
    → x ≡ (if b then false else y)
    → (b ≡ true → z ≡ false)
    → (x || z) ≡ (if b then false else y || z)
if_or_not true x y z h out = rw (h, out refl) refl
if_or_not false x y z h out = rw h refl

-- The slab where `p` lies has handed it out.
owner-taken :
    (s : Slab) (p : ℕ) {a : SlabAlloc}
    → IsValid a
    → is_allocated a p ≡ true
    → Split a.slabs s
    → s.base ≤ p
    → p < s.base + a.cap_per_slab * a.size
    → taken_in a.size a.cap_per_slab s p ≡ true
owner-taken s p {a} v h sp low high =
    let bytes = a.cap_per_slab * a.size in
    let away =
      Away-others bytes (some_bytes v) s sp.after sp.before
        (subst (AllApart bytes) sp.eq v.apart) in
    let out =
      allocated-Away a.size a.cap_per_slab p s (sp.before ++ sp.after) v.some_size low high away in
    let split : is_allocated a p ≡ (
        taken_in a.size a.cap_per_slab s p
        || allocated a.size a.cap_per_slab (sp.before ++ sp.after) p) =
      ap (λ l. allocated a.size a.cap_per_slab l p) sp.eq
      ∙ allocated-mid a.size a.cap_per_slab s sp.after p sp.before in
    ground (arith, out, split)

put_back-TakenBack :
    (s : Slab) (p : ℕ) {a : SlabAlloc}
    → IsValid a
    → is_allocated a p ≡ true
    → Split a.slabs s
    → s.base ≤ p
    → p < s.base + a.cap_per_slab * a.size
    → TakenBack a p (put_back a p s)
unfolding put_back
put_back-TakenBack s p {a} v h sp low high =
    let s' : Slab = record s { freelist = p ∷ s.freelist; used = sub32 s.used 1 } in
    let a' : SlabAlloc = record a { slabs = update_slab s' a.slabs } in
    let taken = owner-taken s p v h sp low high in
    let pushed =
      push-Pushed a.size a.cap_per_slab p s (slab_of s v sp) taken v.some_size (cap_small v) in
    let change = change-Changed s s' v sp refl pushed.valid in
    let emptied =
      drop_empty-Emptied s' (recached-choice-IsValid s' (cached a') change.valid change.split)
        change.split in
    record {
      valid = emptied.valid;
      allocated_eq = λ q.
          emptied.same q
          ∙ change.after_eq q
          ∙ if_or_not (q == p) (taken_in a.size a.cap_per_slab s' q)
              (taken_in a.size a.cap_per_slab s q) (allocated a.size a.cap_per_slab change.others q)
              (pushed.taken_eq q)
              (λ e.
                ap (allocated a.size a.cap_per_slab change.others) {x = q} {y = p} (ground arith)
                ∙ allocated-Away a.size a.cap_per_slab p s change.others v.some_size low high
                    change.away)
          ∙ ap (λ b. if q == p then false else b) (sym (change.before_eq q));
    }

from_Owner :
    (p : ℕ) {a : SlabAlloc} (r : Option Slab)
    → IsValid a
    → is_allocated a p ≡ true
    → Owner (a.cap_per_slab * a.size) p a.slabs r
    → (a' : SlabAlloc) × (back a p r ≡ some a') × TakenBack a p a'
unfolding back
from_Owner p {a} _ v h (owner s sp low high) =
    (put_back a p s, refl, put_back-TakenBack s p v h sp low high)

-- `slab_alloc_free` of a slot that a valid allocator has handed out reaches no UNREACHABLE, and leaves
-- a valid allocator that has handed out the other slots of before, and this one no more: a slab that it
-- frees had nothing else handed out, and is not the cached one.
pub slab_alloc_free_lem :
    (p : ℕ) {a : SlabAlloc}
    → IsValid a
    → is_allocated a p ≡ true
    → (a' : SlabAlloc) × (slab_alloc_free a p ≡ some a') × TakenBack a p a'
unfolding slab_alloc_free slab_from_ptr
slab_alloc_free_lem p {a} v h =
    from_Owner p (from_cache a (cached a) p) v h
      (from_cache-Owner a p (cached a) v h (cached-Pointed a))
