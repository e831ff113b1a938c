-- ===== src/CBuffer/FileIo/Vector.antt =====
-- The vectors of regions that the transfers with a file build.
use c_specx.Base.{
  ℕ, zero, suc, ◌+◌, ◌-◌, ◌≤◌, ◌<◌, ◌≡◌, refl, sym, ap, ap₂, ◌∙◌, inl, inr, List, [], ◌++◌, length,
  arith, take, drop, slice, splice, length-take, length-drop, take-append-drop, sub32_small,
  append-nil, ◌∷◌, append_assoc, le_or_lt, length-splice, lt→ltb, take-nil, take_all, drop_all,
  splice-nil,
}
use c_specx.CBuffer.{CBuffer, len, advance}
use c_specx.CBuffer.Window.{ahead, window, window-splice, ahead_lt, ahead_add}
use c_specx.CBuffer.Inv.{IsValid, len_lem, advance_lem}
use c_specx.CBuffer.FileIo.{Iov, scatter, gather, fill_next, fill_iov, drain_next, drain_iov}

scatter-nil : (iov : Iov) (buf : List ℕ) → scatter buf iov [] ≡ buf
unfolding scatter
scatter-nil [] buf = refl
scatter-nil ((i, n) ∷ iov) buf =
    ap₂ (λ (xs ys : List ℕ). scatter (splice buf i xs) iov ys) (take-nil n)
      (drop_all n [] (omega arith))
    ∙ ap (λ (m : List ℕ). scatter m iov []) (splice-nil buf i)
    ∙ scatter-nil iov buf

scatter-cons :
    (buf : List ℕ) (i n : ℕ) (iov : Iov) (bytes : List ℕ)
    → scatter buf ((i, n) ∷ iov) bytes ≡ scatter (splice buf i (take n bytes)) iov (drop n bytes)
unfolding scatter
scatter-cons buf i n iov bytes = refl

pub length-scatter : (iov : Iov) (buf bytes : List ℕ) → length (scatter buf iov bytes) ≡ length buf
unfolding scatter
length-scatter [] buf bytes = refl
length-scatter ((i, n) ∷ iov) buf bytes =
    length-scatter iov (splice buf i (take n bytes)) (drop n bytes)
    ∙ length-splice buf i (take n bytes)

fill_iov-zero : (b : CBuffer) (fuel h : ℕ) → fill_iov fuel b h 0 ≡ []
unfolding fill_iov
fill_iov-zero b zero h = refl
fill_iov-zero b (suc fuel) h = refl

fill_iov-suc :
    (b : CBuffer) (fuel h left : ℕ)
    → 0 < left
    → let next = fill_next b h left in
      fill_iov (suc fuel) b h left ≡ (h, next) ∷ fill_iov fuel b (advance b h next) (left - next)
unfolding fill_iov
fill_iov-suc b fuel h left pos = rw (lt→ltb 0 left pos)

pub drain_iov-zero : (b : CBuffer) (fuel h : ℕ) → drain_iov fuel b h 0 ≡ []
unfolding drain_iov
drain_iov-zero b zero h = refl
drain_iov-zero b (suc fuel) h = refl

pub drain_iov-suc :
    (b : CBuffer) (fuel h left : ℕ)
    → 0 < left
    → let next = drain_next b h left in
      drain_iov (suc fuel) b h left ≡ (h, next) ∷ drain_iov fuel b (advance b h next) (left - next)
unfolding drain_iov
drain_iov-suc b fuel h left pos = rw (lt→ltb 0 left pos)

pub gather-nil : (buf : List ℕ) → gather buf [] ≡ []
unfolding gather
gather-nil buf = refl

pub gather-cons :
    (buf : List ℕ) (i n : ℕ) (iov : Iov)
    → gather buf ((i, n) ∷ iov) ≡ slice buf i n ++ gather buf iov
unfolding gather
gather-cons buf i n iov = refl

-- The regions of the vector take the bytes one behind the other, from `n` steps behind `tail` on.
module _ {b : CBuffer} (v : IsValid b) where
  fill_next_lem :
      (n left : ℕ)
      → len b ≤ n
      → 0 < left
      → n + left ≤ b.cap
      → let next = fill_next b (ahead b.cap b.tail n) left in
        (0 < next) × (next ≤ left) × (ahead b.cap b.tail n + next ≤ b.cap)
  unfolding fill_next
  fill_next_lem n left held pos room = ground (
    arith,
    len_lem v,
    sub32_small b.cap (ahead b.cap b.tail n),
    sub32_small b.tail (ahead b.cap b.tail n),
  )

  -- Where the next region starts.
  pub advance-ahead :
      (n next : ℕ)
      → n + next ≤ b.cap
      → advance b (ahead b.cap b.tail n) next ≡ ahead b.cap b.tail (n + next)
  advance-ahead n next room =
      advance_lem b (ahead b.cap b.tail n) next v.small
        (ahead_lt b.cap b.tail n v.tail_in (omega arith)) (omega arith)
      ∙ ahead_add b.cap b.tail n next v.tail_in room

  abbrev pub Filled : ℕ → ℕ → ℕ → List ℕ → List ℕ → Type 0
  Filled fuel n left buf bytes =
      window (scatter buf (fill_iov fuel b (ahead b.cap b.tail n) left) bytes) b.cap b.tail
        (n + length bytes)
      ≡ window buf b.cap b.tail n ++ bytes

  -- The first region takes all of the bytes.
  fill_last :
      (fuel n left next : ℕ) (buf bytes : List ℕ) (iov : Iov)
      → b.cap ≤ length buf
      → n + next ≤ b.cap
      → ahead b.cap b.tail n + next ≤ b.cap
      → length bytes ≤ next
      → window
          (scatter buf ((ahead b.cap b.tail n, next) ∷ iov) bytes)
          b.cap
          b.tail
          (n + length bytes)
        ≡ window buf b.cap b.tail n ++ bytes
  fill_last fuel n left next buf bytes iov hs room fit few =
      ap (λ (m : List ℕ). window m b.cap b.tail (n + length bytes))
        (scatter-cons buf (ahead b.cap b.tail n) next iov bytes
          ∙ ap₂ (λ (xs ys : List ℕ). scatter (splice buf (ahead b.cap b.tail n) xs) iov ys)
              (take_all next bytes few) (drop_all next bytes few)
          ∙ scatter-nil iov (splice buf (ahead b.cap b.tail n) bytes))
      ∙ window-splice bytes buf b.cap b.tail n hs v.tail_in (omega arith) (omega arith)

  -- The first region is filled, and the others take the rest.
  fill_more :
      (n next : ℕ) (buf bytes : List ℕ) (iov : Iov)
      → b.cap ≤ length buf
      → n + next ≤ b.cap
      → ahead b.cap b.tail n + next ≤ b.cap
      → next ≤ length bytes
      → (window
            (scatter (splice buf (ahead b.cap b.tail n) (take next bytes)) iov (drop next bytes))
            b.cap
            b.tail
            (n + next + length (drop next bytes))
          ≡ window (splice buf (ahead b.cap b.tail n) (take next bytes)) b.cap b.tail (n + next)
            ++ drop next bytes)
      → window
          (scatter buf ((ahead b.cap b.tail n, next) ∷ iov) bytes)
          b.cap
          b.tail
          (n + length bytes)
        ≡ window buf b.cap b.tail n ++ bytes
  fill_more n next buf bytes iov hs room fit many rest =
      ap₂ (λ (m : List ℕ) (k : ℕ). window m b.cap b.tail k)
        {v = n + next + length (drop next bytes)}
        (scatter-cons buf (ahead b.cap b.tail n) next iov bytes)
        (omega (arith, length-drop next bytes))
      ∙ rest
      ∙ ap (λ t. t ++ drop next bytes)
          (ap
              (λ (k : ℕ).
                window (splice buf (ahead b.cap b.tail n) (take next bytes)) b.cap b.tail k)
              {y = n + length (take next bytes)} (omega (arith, length-take next bytes))
            ∙ window-splice (take next bytes) buf b.cap b.tail n hs v.tail_in
                (omega (arith, length-take next bytes)) (omega (arith, length-take next bytes)))
      ∙ append_assoc (window buf b.cap b.tail n) (take next bytes) (drop next bytes)
      ∙ ap (λ t. window buf b.cap b.tail n ++ t) (take-append-drop next bytes)

  pub window-fill :
      (fuel : ℕ) (bytes buf : List ℕ) (n left : ℕ)
      → b.cap ≤ length buf
      → left ≤ fuel
      → len b ≤ n
      → n + left ≤ b.cap
      → length bytes ≤ left
      → Filled fuel n left buf bytes
  window-fill fuel [] buf n left hs hf held room enough =
      ap₂ (λ (m : List ℕ) (k : ℕ). window m b.cap b.tail k) {v = n}
        (scatter-nil (fill_iov fuel b (ahead b.cap b.tail n) left) buf) (omega arith)
      ∙ sym (append-nil (window buf b.cap b.tail n))
  window-fill zero (x ∷ xs) buf n left hs hf held room enough = absurd (omega arith)
  window-fill (suc fuel) (x ∷ xs) buf n left hs hf held room enough =
      ap (λ (iov : Iov). window (scatter buf iov (x ∷ xs)) b.cap b.tail (n + length (x ∷ xs)))
        (fill_iov-suc b fuel (ahead b.cap b.tail n) left (omega arith))
      ∙ elim (le_or_lt (length (x ∷ xs)) next) [
        | inl few ↦ fill_last fuel n left next buf (x ∷ xs) _ hs (omega (arith, p)) p.2 few
        | inr many ↦ fill_more n next buf (x ∷ xs) _ hs (omega (arith, p)) p.2 (omega arith) (
            ap
              (λ (h : ℕ).
                window
                  (scatter (splice buf (ahead b.cap b.tail n) (take next (x ∷ xs)))
                    (fill_iov fuel b h (left - next)) (drop next (x ∷ xs)))
                  b.cap b.tail (n + next + length (drop next (x ∷ xs))))
              (advance-ahead n next (omega (arith, p)))
            ∙ window-fill fuel (drop next (x ∷ xs))
                (splice buf (ahead b.cap b.tail n) (take next (x ∷ xs))) (n + next) (left - next)
                (omega (arith, length-splice buf (ahead b.cap b.tail n) (take next (x ∷ xs))))
                (omega (arith, p)) (omega arith) (omega (arith, p))
                (omega (arith, length-drop next (x ∷ xs))))
      ]
    where
      next : ℕ
      next = fill_next b (ahead b.cap b.tail n) left

      p : (0 < next) × (next ≤ left) × (ahead b.cap b.tail n + next ≤ b.cap)
      p = fill_next_lem n left held (omega arith) room
