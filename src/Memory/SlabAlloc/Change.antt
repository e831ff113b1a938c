-- ===== src/Memory/SlabAlloc/Change.antt =====
-- One slab of an allocator changes: the others keep what they have handed out. The first free slot goes.
use native.Mathlib.Nat.{mul-le-mul_left}
use c_specx.Base.{
  ℕ, ◌*◌, ◌≤◌, ◌<◌, ◌≡◌, refl, sym, ap, ◌∙◌, subst, Bool, true, false, ◌||◌, Option, none, some,
  List, ◌∷◌, ◌++◌, ◌==◌, if◌then◌else◌, u32_mod, arith, add32,
}
use c_specx.Memory.SlabAlloc.{Slab, SlabAlloc, update_slab, pop}
use c_specx.Memory.SlabAlloc.Slots.{taken_in, is_slot-range, IsSlab}
use c_specx.Memory.SlabAlloc.SlabStep.{pop-Popped}
use c_specx.Memory.SlabAlloc.Slabs.{
  IsValid, allocated, has_base, AllSlabs, Away, AllApart, CurrentIn, update-mid, Away-others,
  apart-same, has_base-mid, slab-mid, slabs-same, allocated-mid, allocated-Away,
}

-- If the allocator has handed out `p`, and not got it back.
abbrev pub is_allocated : SlabAlloc → ℕ → Bool
is_allocated a p = allocated a.size a.cap_per_slab a.slabs p

pub record Split (slabs : List Slab) (s : Slab) : Type 0 where
  pub before : List Slab
  pub after : List Slab
  pub eq : slabs ≡ before ++ (s ∷ after)

pub Split-later : {slabs : List Slab} {s : Slab} (x : Slab) → Split slabs s → Split (x ∷ slabs) s
Split-later x sp = record { before = x ∷ sp.before; after = sp.after; eq = ap (λ t. x ∷ t) sp.eq }

pub cap_small : {a : SlabAlloc} → IsValid a → a.cap_per_slab < u32_mod
cap_small {a} v =
    let le : a.cap_per_slab * 1 ≤ a.cap_per_slab * a.size =
      mul-le-mul_left {m = 1} {n = a.size} a.cap_per_slab v.some_size in
    omega (arith, v.small)

pub some_bytes : {a : SlabAlloc} → IsValid a → 0 < a.cap_per_slab * a.size
some_bytes {a} v =
    let le : a.cap_per_slab * 1 ≤ a.cap_per_slab * a.size =
      mul-le-mul_left {m = 1} {n = a.size} a.cap_per_slab v.some_size in
    omega (arith, v.some_slot)

-- What a change of the slab `s` into `s'` in its place does to the allocator.
pub record Changed (a : SlabAlloc) (s s' : Slab) : Type 0 where
  pub valid : IsValid (record a { slabs = update_slab s' a.slabs })
  pub split : Split (update_slab s' a.slabs) s'
  pub others : List Slab
  pub away : Away (a.cap_per_slab * a.size) s others
  pub before_eq :
      (q : ℕ)
      → is_allocated a q
        ≡ (taken_in a.size a.cap_per_slab s q || allocated a.size a.cap_per_slab others q)
  pub after_eq :
      (q : ℕ)
      → allocated a.size a.cap_per_slab (update_slab s' a.slabs) q
        ≡ (taken_in a.size a.cap_per_slab s' q || allocated a.size a.cap_per_slab others q)

has_base-same :
    (bytes : ℕ) (pos : 0 < bytes) (s s' : Slab) (c : ℕ) (xs ys : List Slab)
    → s'.base ≡ s.base
    → has_base c (xs ++ (s ∷ ys)) ≡ has_base c (xs ++ (s' ∷ ys))
has_base-same bytes pos s s' c xs ys e =
    has_base-mid bytes pos s ys c xs
    ∙ ap (λ (b : ℕ). b == c || has_base c (xs ++ ys)) (sym e)
    ∙ sym (has_base-mid bytes pos s' ys c xs)

current-same :
    (bytes : ℕ) (pos : 0 < bytes) (s s' : Slab) (c : Option ℕ) (xs ys : List Slab)
    → s'.base ≡ s.base
    → CurrentIn c (xs ++ (s ∷ ys))
    → CurrentIn c (xs ++ (s' ∷ ys))
current-same bytes pos s s' none xs ys e h = tt
current-same bytes pos s s' (some c) xs ys e h = sym (has_base-same bytes pos s s' c xs ys e) ∙ h

pub change-Changed :
    (s s' : Slab) {a : SlabAlloc}
    → IsValid a
    → Split a.slabs s
    → s'.base ≡ s.base
    → IsSlab a.size a.cap_per_slab s'
    → Changed a s s'
change-Changed s s' {a} v sp e ok =
    let bytes = a.cap_per_slab * a.size in
    let pos = some_bytes v in
    let apart = subst (AllApart bytes) sp.eq v.apart in
    let now : update_slab s' a.slabs ≡ sp.before ++ (s' ∷ sp.after) =
      ap (update_slab s') sp.eq ∙ update-mid bytes pos s sp.after s' sp.before e apart in
    record {
      valid = record {
        some_size = v.some_size;
        some_slot = v.some_slot;
        small = v.small;
        slabs_valid = subst (AllSlabs a.size a.cap_per_slab) (sym now) (
            slabs-same a.size a.cap_per_slab s sp.after s' sp.before ok
              (subst (AllSlabs a.size a.cap_per_slab) sp.eq v.slabs_valid));
        apart =
            subst (AllApart bytes) (sym now) (apart-same bytes pos s sp.after s' sp.before e apart);
        current_in = subst (CurrentIn a.current) (sym now) (
            current-same bytes pos s s' a.current sp.before sp.after e
              (subst (CurrentIn a.current) sp.eq v.current_in));
      };
      split = record { before = sp.before; after = sp.after; eq = now };
      others = sp.before ++ sp.after;
      away = Away-others bytes pos s sp.after sp.before apart;
      before_eq = λ q.
          ap (λ l. allocated a.size a.cap_per_slab l q) sp.eq
          ∙ allocated-mid a.size a.cap_per_slab s sp.after q sp.before;
      after_eq = λ q.
          ap (λ l. allocated a.size a.cap_per_slab l q) now
          ∙ allocated-mid a.size a.cap_per_slab s' sp.after q sp.before;
    }

pub slab_of :
    (s : Slab) {a : SlabAlloc} → IsValid a → Split a.slabs s → IsSlab a.size a.cap_per_slab s
slab_of s {a} v sp =
    slab-mid a.size a.cap_per_slab s sp.after sp.before
      (subst (AllSlabs a.size a.cap_per_slab) sp.eq v.slabs_valid)

-- `p` is handed out, and nothing else changes.
pub record Handed (a : SlabAlloc) (p : ℕ) (a' : SlabAlloc) : Type 0 where
  pub valid : IsValid a'
  pub was_free : is_allocated a p ≡ false
  pub allocated_eq : (q : ℕ) → is_allocated a' q ≡ (if q == p then true else is_allocated a q)

if_or : (b x y z : Bool) → x ≡ (if b then true else y) → (x || z) ≡ (if b then true else y || z)
if_or true x y z h = rw h refl
if_or false x y z h = rw h refl

pub pop-Handed :
    (p : ℕ) (rest : List ℕ) (s : Slab) {a : SlabAlloc}
    → IsValid a
    → Split a.slabs s
    → s.freelist ≡ p ∷ rest
    → Handed a p (pop a s (p ∷ rest)).1
unfolding pop
pop-Handed p rest s {a} v sp e =
    let s' : Slab = record s { freelist = rest; used = add32 s.used 1 } in
    let popped =
      pop-Popped a.size a.cap_per_slab p rest s (slab_of s v sp) e v.some_size (cap_small v) in
    let change = change-Changed s s' v sp refl popped.valid in
    let (low, high) = is_slot-range s.base a.size a.cap_per_slab p v.some_size popped.slot in
    record {
      valid = change.valid;
      was_free =
          change.before_eq p
          ∙ rw
              (
                popped.was_free,
                allocated-Away a.size a.cap_per_slab p s change.others v.some_size low
                    (omega (arith, v.some_size, high)) change.away,
              )
              refl;
      allocated_eq = λ q.
          change.after_eq q
          ∙ if_or (q == p) (taken_in a.size a.cap_per_slab s' q)
              (taken_in a.size a.cap_per_slab s q) (allocated a.size a.cap_per_slab change.others q)
              (popped.taken_eq q)
          ∙ ap (λ b. if q == p then true else b) (sym (change.before_eq q));
    }
