-- ===== src/Memory/SlabAlloc/Slabs.antt =====
-- Lists of slabs: apart from one another, and which slots they have handed out.
use c_specx.Base.{
  ℕ, ◌+◌, ◌*◌, ◌≤◌, ◌<◌, ◌≡◌, refl, sym, ap, ◌∙◌, subst, inl, inr, ◌⊎◌, Bool, true, false, ◌||◌,
  Option, none, some, List, [], ◌∷◌, ◌++◌, ◌==◌, Bool-cases, ==_refl, u32_mod, arith,
}
use c_specx.Memory.SlabAlloc.{header_size, Slab, SlabAlloc, find_slab, update_slab, remove_slab}
use c_specx.Memory.SlabAlloc.Slots.{taken_in, taken_in-range, IsSlab}

-- If `p` is a slot that one of the slabs has handed out.
unfoldable pub allocated : ℕ → ℕ → List Slab → ℕ → Bool
allocated size cap [] p = false
allocated size cap (s ∷ rest) p = taken_in size cap s p || allocated size cap rest p

unfoldable pub has_base : ℕ → List Slab → Bool
has_base c [] = false
has_base c (s ∷ rest) = s.base == c || has_base c rest

abbrev pub AllSlabs : ℕ → ℕ → List Slab → Type 0
AllSlabs size cap [] = Unit
AllSlabs size cap (s ∷ rest) = IsSlab size cap s × AllSlabs size cap rest

-- The data of the slabs, of `bytes` bytes each, do not overlap.
abbrev pub Apart : ℕ → Slab → Slab → Type 0
Apart bytes s t = (s.base + bytes ≤ t.base) ⊎ (t.base + bytes ≤ s.base)

abbrev pub Away : ℕ → Slab → List Slab → Type 0
Away bytes s [] = Unit
Away bytes s (t ∷ rest) = Apart bytes s t × Away bytes s rest

abbrev pub AllApart : ℕ → List Slab → Type 0
AllApart bytes [] = Unit
AllApart bytes (s ∷ rest) = Away bytes s rest × AllApart bytes rest

abbrev pub CurrentIn : Option ℕ → List Slab → Type 0
CurrentIn none slabs = Unit
CurrentIn (some c) slabs = has_base c slabs ≡ true

-- The cached slab is one of the slabs.
pub record IsValid (a : SlabAlloc) : Type 0 where
  pub some_size : 0 < a.size
  pub some_slot : 0 < a.cap_per_slab
  pub small : a.cap_per_slab * a.size + header_size < u32_mod
  pub slabs_valid : AllSlabs a.size a.cap_per_slab a.slabs
  pub apart : AllApart (a.cap_per_slab * a.size) a.slabs
  pub current_in : CurrentIn a.current a.slabs

differ : (bytes : ℕ) (s t : Slab) → 0 < bytes → Apart bytes s t → (s.base == t.base) ≡ false
differ bytes s t pos h = ground arith

Away-mid :
    (bytes : ℕ) (t s : Slab) (xs ys : List Slab) → Away bytes t (xs ++ (s ∷ ys)) → Apart bytes t s
Away-mid bytes t s [] ys h = h.0
Away-mid bytes t s (x ∷ xs) ys h = Away-mid bytes t s xs ys h.1

Away-less :
    (bytes : ℕ) (t s : Slab) (xs ys : List Slab)
    → Away bytes t (xs ++ (s ∷ ys))
    → Away bytes t (xs ++ ys)
Away-less bytes t s [] ys h = h.1
Away-less bytes t s (x ∷ xs) ys h = (h.0, Away-less bytes t s xs ys h.1)

swap : (a b c : Bool) → (a || (b || c)) ≡ (b || (a || c))
swap true true c = refl
swap true false c = refl
swap false b c = refl

-- A slab has one place, `s` between `xs` and `ys`.
module _ (bytes : ℕ) (pos : 0 < bytes) (s : Slab) (ys : List Slab) where
  pub find-mid :
      (xs : List Slab)
      → AllApart bytes (xs ++ (s ∷ ys))
      → find_slab s.base (xs ++ (s ∷ ys)) ≡ some s
  unfolding find_slab
  find-mid [] h = rw (==_refl s.base) refl
  find-mid (x ∷ xs) h = rw (differ bytes x s pos (Away-mid bytes x s xs ys h.0)) (find-mid xs h.1)

  pub update-mid :
      (s' : Slab) (xs : List Slab)
      → s'.base ≡ s.base
      → AllApart bytes (xs ++ (s ∷ ys))
      → update_slab s' (xs ++ (s ∷ ys)) ≡ xs ++ (s' ∷ ys)
  unfolding update_slab
  update-mid s' [] e h = let same : (s.base == s'.base) ≡ true = ground arith in rw same refl
  update-mid s' (x ∷ xs) e h =
      let other : (x.base == s'.base) ≡ false =
        ap (λ (b : ℕ). x.base == b) e ∙ differ bytes x s pos (Away-mid bytes x s xs ys h.0) in
      rw other (ap (λ t. x ∷ t) (update-mid s' xs e h.1))

  pub remove-mid :
      (xs : List Slab)
      → AllApart bytes (xs ++ (s ∷ ys))
      → remove_slab s.base (xs ++ (s ∷ ys)) ≡ xs ++ ys
  unfolding remove_slab
  remove-mid [] h = rw (==_refl s.base) refl
  remove-mid (x ∷ xs) h =
      rw (differ bytes x s pos (Away-mid bytes x s xs ys h.0)) (ap (λ t. x ∷ t) (remove-mid xs h.1))

  pub Away-others : (xs : List Slab) → AllApart bytes (xs ++ (s ∷ ys)) → Away bytes s (xs ++ ys)
  Away-others [] h = h.0
  Away-others (x ∷ xs) h = (flip (Away-mid bytes x s xs ys h.0), Away-others xs h.1)
    where
      flip : Apart bytes x s → Apart bytes s x
      flip (inl a) = inr a
      flip (inr a) = inl a

  pub apart-less : (xs : List Slab) → AllApart bytes (xs ++ (s ∷ ys)) → AllApart bytes (xs ++ ys)
  apart-less [] h = h.1
  apart-less (x ∷ xs) h = (Away-less bytes x s xs ys h.0, apart-less xs h.1)

  Away-same :
      (t s' : Slab) (xs : List Slab)
      → s'.base ≡ s.base
      → Away bytes t (xs ++ (s ∷ ys))
      → Away bytes t (xs ++ (s' ∷ ys))
  Away-same t s' [] e h =
      (subst (λ (b : ℕ). (t.base + bytes ≤ b) ⊎ (b + bytes ≤ t.base)) (sym e) h.0, h.1)
  Away-same t s' (x ∷ xs) e h = (h.0, Away-same t s' xs e h.1)

  Away-base : (s' : Slab) (zs : List Slab) → s'.base ≡ s.base → Away bytes s zs → Away bytes s' zs
  Away-base s' [] e h = tt
  Away-base s' (z ∷ zs) e h = (
    subst (λ (b : ℕ). (b + bytes ≤ z.base) ⊎ (z.base + bytes ≤ b)) (sym e) h.0,
    Away-base s' zs e h.1,
  )

  pub apart-same :
      (s' : Slab) (xs : List Slab)
      → s'.base ≡ s.base
      → AllApart bytes (xs ++ (s ∷ ys))
      → AllApart bytes (xs ++ (s' ∷ ys))
  apart-same s' [] e h = (Away-base s' ys e h.0, h.1)
  apart-same s' (x ∷ xs) e h = (Away-same x s' xs e h.0, apart-same s' xs e h.1)

  pub has_base-mid :
      (c : ℕ) (xs : List Slab)
      → has_base c (xs ++ (s ∷ ys)) ≡ (s.base == c || has_base c (xs ++ ys))
  unfolding has_base
  has_base-mid c [] = refl
  has_base-mid c (x ∷ xs) =
      ap (λ b. x.base == c || b) (has_base-mid c xs)
      ∙ swap (x.base == c) (s.base == c) (has_base c (xs ++ ys))

module _ (size cap : ℕ) (s : Slab) (ys : List Slab) where
  pub slab-mid : (xs : List Slab) → AllSlabs size cap (xs ++ (s ∷ ys)) → IsSlab size cap s
  slab-mid [] h = h.0
  slab-mid (x ∷ xs) h = slab-mid xs h.1

  pub slabs-less :
      (xs : List Slab) → AllSlabs size cap (xs ++ (s ∷ ys)) → AllSlabs size cap (xs ++ ys)
  slabs-less [] h = h.1
  slabs-less (x ∷ xs) h = (h.0, slabs-less xs h.1)

  pub slabs-same :
      (s' : Slab) (xs : List Slab)
      → IsSlab size cap s'
      → AllSlabs size cap (xs ++ (s ∷ ys))
      → AllSlabs size cap (xs ++ (s' ∷ ys))
  slabs-same s' [] v h = (v, h.1)
  slabs-same s' (x ∷ xs) v h = (h.0, slabs-same s' xs v h.1)

  pub allocated-mid :
      (p : ℕ) (xs : List Slab)
      → allocated size cap (xs ++ (s ∷ ys)) p
        ≡ (taken_in size cap s p || allocated size cap (xs ++ ys) p)
  unfolding allocated
  allocated-mid p [] = refl
  allocated-mid p (x ∷ xs) =
      ap (λ b. taken_in size cap x p || b) (allocated-mid p xs)
      ∙ swap (taken_in size cap x p) (taken_in size cap s p) (allocated size cap (xs ++ ys) p)

-- What lies within one slab is no slot of the others.
pub allocated-Away :
    (size cap p : ℕ) (s : Slab) (zs : List Slab)
    → 0 < size
    → s.base ≤ p
    → p < s.base + cap * size
    → Away (cap * size) s zs
    → allocated size cap zs p ≡ false
unfolding allocated
allocated-Away size cap p s [] pos low high h = refl
allocated-Away size cap p s (z ∷ zs) pos low high h = elim (Bool-cases (taken_in size cap z p)) [
  | inl e ↦ let (a, b) = taken_in-range size cap z p pos e in absurd (ground (arith, a, b, h.0))
  | inr e ↦ rw (e, allocated-Away size cap p s zs pos low high h.1) refl
]
