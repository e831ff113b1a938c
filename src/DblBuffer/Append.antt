-- ===== src/DblBuffer/Append.antt =====
-- `dblb_append` puts its elements behind those of the buffer.
use native.Mathlib.Nat.{mul-le-mul_right, mul_comm}
use c_specx.Base.{
  ℕ, ◌+◌, ◌*◌, ◌≤◌, ◌<◌, ◌≡◌, refl, sym, ap, ◌∙◌, subst, inl, inr, Bool, true, false, Option, none,
  some, List, ◌++◌, le→leb, lt→leb, length, take, splice, mul32, add32_small, mul32_small, take_all,
  take-take_of_le, take-splice_end, length-splice, le_or_lt, u32_mod, arith,
}
use c_specx.DblBuffer.{
  DblBuffer, grown, dblb_ensure_space, append_in, dblb_append_alloc, fill_in, dblb_append,
}

pub record IsValid (d : DblBuffer) : Type 0 where
  pub some_size : 0 < d.size
  pub within : d.nelem ≤ d.nelem_cap
  pub storage : d.nelem_cap * d.size ≤ length d.mem

-- The bytes of the elements.
abbrev pub contents : DblBuffer → List ℕ
contents d = take (d.nelem * d.size) d.mem

-- `i_realloc_right` to a size that is not less returns memory of this size that starts with the old bytes.
abbrev pub Reallocates : (List ℕ → ℕ → ℕ → ℕ → Option (List ℕ)) → Type 0
Reallocates realloc =
    (m m' : List ℕ) (old new size : ℕ)
    → old * size ≤ length m
    → old ≤ new
    → realloc m old new size ≡ some m'
    → (new * size ≤ length m') × (take (old * size) m' ≡ take (old * size) m)

-- No memory, and the buffer is as it was; or a valid buffer with the new elements behind the others.
pub data Outcome (d : DblBuffer) (src : List ℕ) : Bool × DblBuffer → Type 0 where
  no_memory : Outcome d src (false, d)
  appended :
      (d' : DblBuffer) → IsValid d' → contents d' ≡ contents d ++ src → Outcome d src (true, d')

-- The buffer with room for `total` elements.
data Room (d : DblBuffer) (total : ℕ) : Bool × DblBuffer → Type 0 where
  no_room : Room d total (false, d)
  room :
      (d' : DblBuffer)
      → IsValid d'
      → d'.size ≡ d.size
      → d'.nelem ≡ d.nelem
      → total ≤ d'.nelem_cap
      → contents d' ≡ contents d
      → Room d total (true, d')

grown-Room :
    (realloc : List ℕ → ℕ → ℕ → ℕ → Option (List ℕ)) (total : ℕ) {d : DblBuffer}
    (m : Option (List ℕ))
    → Reallocates realloc
    → IsValid d
    → d.nelem_cap ≤ total
    → 2 * total < u32_mod
    → realloc d.mem d.nelem_cap (mul32 2 total) d.size ≡ m
    → Room d total (grown m d total)
unfolding grown
grown-Room realloc total none law v le small e = no_room
grown-Room realloc total {d} (some m') law v le small e =
    let twice = mul32_small 2 total small in
    let (big, same) =
      law d.mem m' d.nelem_cap (mul32 2 total) d.size v.storage (omega (arith, twice)) e in
    let used : d.nelem * d.size ≤ d.nelem_cap * d.size =
      mul-le-mul_right {m = d.nelem} {n = d.nelem_cap} d.size v.within in
    room (record d { mem = m'; nelem_cap = mul32 2 total })
      (record { some_size = v.some_size; within = omega (arith, twice); storage = big }) refl refl
      (omega (arith, twice))
      (sym (take-take_of_le (d.nelem * d.size) (d.nelem_cap * d.size) m' used)
        ∙ ap (take (d.nelem * d.size)) same
        ∙ take-take_of_le (d.nelem * d.size) (d.nelem_cap * d.size) d.mem used)

ensure_space-Room :
    (realloc : List ℕ → ℕ → ℕ → ℕ → Option (List ℕ)) (total : ℕ) {d : DblBuffer}
    → Reallocates realloc
    → IsValid d
    → d.nelem ≤ total
    → 2 * total < u32_mod
    → Room d total (dblb_ensure_space realloc d total)
unfolding dblb_ensure_space
ensure_space-Room realloc total {d} law v le small = elim (le_or_lt d.nelem_cap total) [
  | inl grow ↦ rw (le→leb d.nelem_cap total grow) (
      grown-Room realloc total (realloc d.mem d.nelem_cap (mul32 2 total) d.size) law v grow small
        refl)
  | inr fits ↦ rw (lt→leb total d.nelem_cap fits) (room d v refl refl (omega arith) refl)
]

room-Outcome :
    (n : ℕ) (src : List ℕ) {d : DblBuffer} (r : Bool × DblBuffer)
    → length src ≡ d.size * n
    → d.nelem + n < u32_mod
    → (d.nelem + n) * d.size < u32_mod
    → Room d (d.nelem + n) r
    → Outcome d src (fill_in src n (append_in n r))
unfolding fill_in append_in
room-Outcome n src _ len small wide no_room = no_memory
room-Outcome n src {d} _ len small wide (room d' v s_eq n_eq fits same) =
    let k = d'.nelem in
    let s = d'.size in
    let total : (k + n) * s ≡ k * s + n * s = omega arith in
    let wide' : (k + n) * s < u32_mod =
      subst (λ (t : ℕ). (k + n) * t < u32_mod) (sym s_eq)
        (subst (λ (t : ℕ). (t + n) * d.size < u32_mod) (sym n_eq) wide) in
    let turn : s * n ≡ n * s = mul_comm s n in
    let len' : length src ≡ n * s = len ∙ ap (λ (t : ℕ). t * n) (sym s_eq) ∙ turn in
    let head : mul32 k s ≡ k * s = mul32_small k s (omega (arith, total, wide')) in
    let part : take (mul32 s n) src ≡ src =
      take_all (mul32 s n) src
        (omega (arith, len', turn, mul32_small s n (omega (arith, total, wide', turn)))) in
    let most : (k + n) * s ≤ d'.nelem_cap * s =
      mul-le-mul_right {m = k + n} {n = d'.nelem_cap} s (omega (arith, fits, n_eq)) in
    let enough : k * s + length src ≤ length d'.mem = omega (arith, len', most, total, v.storage) in
    rw (head, part, add32_small k n (omega (arith, n_eq, small)))
      (appended (record d' { mem = splice d'.mem (k * s) src; nelem = k + n })
        (record {
          some_size = v.some_size;
          within = omega (arith, fits, n_eq);
          storage = omega (arith, v.storage, length-splice d'.mem (k * s) src);
        })
        (ap (λ (t : ℕ). take t (splice d'.mem (k * s) src)) {x = (k + n) * s}
            {y = k * s + length src} (omega (arith, total, len'))
          ∙ take-splice_end d'.mem (k * s) src enough
          ∙ ap (λ xs. xs ++ src) same))

-- `dblb_append` of `n` elements to a valid buffer fails and leaves it as it was, or leaves a valid buffer
-- that holds the bytes of before with those of the new elements behind them. The reallocation keeps the
-- old bytes, and the numbers that the call computes are less than 2^32.
pub dblb_append_lem :
    (realloc : List ℕ → ℕ → ℕ → ℕ → Option (List ℕ)) (n : ℕ) (src : List ℕ) {d : DblBuffer}
    → Reallocates realloc
    → IsValid d
    → length src ≡ d.size * n
    → 2 * (d.nelem + n) < u32_mod
    → (d.nelem + n) * d.size < u32_mod
    → Outcome d src (dblb_append realloc d src n)
unfolding dblb_append dblb_append_alloc
dblb_append_lem realloc n src {d} law v len small wide =
    rw (add32_small d.nelem n (omega (arith, small))) (
      room-Outcome n src (dblb_ensure_space realloc d (d.nelem + n)) len (omega (arith, small)) wide
        (ensure_space-Room realloc (d.nelem + n) law v (omega arith) small))
