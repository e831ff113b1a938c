-- ===== src/BlockArray/Fill.antt =====
-- The loop that writes bytes behind a block, with new blocks as it needs them.
use c_specx.Base.{
  ℕ, zero, suc, ◌+◌, ◌-◌, ◌≤◌, ◌<◌, min, ◌≡◌, refl, sym, ap, ◌∙◌, inl, inr, Option, none, some,
  List, ◌∷◌, ◌++◌, ◌==◌, length, take, drop, splice, sub32_small, add32_small, u32_mod,
  take-splice_end, length-splice, append_assoc, append-nil, Bool-cases, le_or_lt, lt→ltb, le→ltb,
  Option-cases, arith, length-take, take-append-drop, nil_of_length, length-drop,
}
use c_specx.BlockArray.{Block, room_for, append_to, Filled, behind, fill, block_alloc_empty}
use c_specx.BlockArray.Inv.{IsBlock, AllBlocks, live, bytes}

-- Some bytes of `src`, from `cur` on.
pub data Outcome (alloc : ℕ → Option (List ℕ)) (cap : ℕ) (cur : Block) (src : List ℕ)
    : Option Filled → Type 0 where
  panic : (j : ℕ) → alloc j ≡ none → Outcome alloc cap cur src none
  filled :
      (f : Filled)
      → AllBlocks cap f.before
      → IsBlock cap f.cur
      → bytes f.before ++ live f.cur ≡ live cur ++ src
      → Outcome alloc cap cur src (some f)

room_lem :
    (cap left : ℕ) (b : Block)
    → IsBlock cap b
    → cap < u32_mod
    → room_for cap b left ≡ min (cap - b.len) left
unfolding room_for
room_lem cap left b v small = rw (sub32_small cap b.len v.within small) refl

-- Bytes that fit in a block.
record IsAppended (cap : ℕ) (b b' : Block) (part : List ℕ) : Type 0 where
  valid : IsBlock cap b'
  live_eq : live b' ≡ live b ++ part

append_to_lem :
    (cap n : ℕ) (b : Block) (src : List ℕ)
    → IsBlock cap b
    → cap < u32_mod
    → b.len + n ≤ cap
    → n ≤ length src
    → IsAppended cap b (append_to b src n) (take n src)
unfolding append_to
append_to_lem cap n b src v small fits enough =
    let count : length (take n src) ≡ n = omega (arith, length-take n src) in
    rw (add32_small b.len n (omega arith)) (record {
      valid = record {
        within = fits;
        storage = omega (arith, v.storage, length-splice b.mem b.len (take n src));
      };
      live_eq =
          ap (λ (k : ℕ). take k (splice b.mem b.len (take n src))) {x = b.len + n}
            {y = b.len + length (take n src)} (omega (arith, count))
          ∙ take-splice_end b.mem b.len (take n src) (omega (arith, count, v.storage));
    })

-- More bytes behind an outcome.
after :
    (alloc : ℕ → Option (List ℕ)) (cap n : ℕ) {cur next : Block} (src : List ℕ) {r : Option Filled}
    → live next ≡ live cur ++ take n src
    → Outcome alloc cap next (drop n src) r
    → Outcome alloc cap cur src r
after alloc cap n src e (panic j h) = panic j h
after alloc cap n {cur} src e (filled f v w b) = filled f v w (
    b
    ∙ ap (λ t. t ++ drop n src) e
    ∙ append_assoc (live cur) (take n src) (drop n src)
    ∙ ap (λ t. live cur ++ t) (take-append-drop n src))

after_new :
    (alloc : ℕ → Option (List ℕ)) (cap n : ℕ) {cur next : Block} (src : List ℕ) {r : Option Filled}
    → IsBlock cap cur
    → live next ≡ take n src
    → Outcome alloc cap next (drop n src) r
    → Outcome alloc cap cur src (behind cur r)
unfolding behind
after_new alloc cap n src ok e (panic j h) = panic j h
after_new alloc cap n {cur} src ok e (filled f v w b) =
    filled (record f { before = cur ∷ f.before }) (ok, v) w
      (append_assoc (live cur) (bytes f.before) (live f.cur)
        ∙ ap (λ t. live cur ++ t) (b ∙ ap (λ t. t ++ drop n src) e ∙ take-append-drop n src))

pub fill-Outcome :
    (fuel : ℕ) (alloc : ℕ → Option (List ℕ)) (cap k : ℕ) (cur : Block) (src : List ℕ) (left : ℕ)
    → ((j : ℕ) (mem : List ℕ) → alloc j ≡ some mem → cap ≤ length mem)
    → 0 < cap
    → cap < u32_mod
    → IsBlock cap cur
    → left ≡ length src
    → left ≤ fuel
    → Outcome alloc cap cur src (fill fuel alloc cap k cur src left)
unfolding fill block_alloc_empty
fill-Outcome zero alloc cap k cur src left gives pos small v n enough =
    filled _ tt v (
      sym (append-nil (live cur)) ∙ ap (λ t. live cur ++ t) (sym (nil_of_length src (omega arith))))
fill-Outcome (suc fuel) alloc cap k cur src left gives pos small v n enough =
    elim (le_or_lt left 0) [
      | inl none_left ↦ rw (le→ltb 0 left none_left) (
          filled _ tt v (
            sym (append-nil (live cur))
            ∙ ap (λ t. live cur ++ t) (sym (nil_of_length src (omega arith)))))
      | inr more ↦ elim (Bool-cases (cur.len == cap)) [
        | inl full ↦ elim (Option-cases (alloc k)) [
          | inl e ↦ rw (lt→ltb 0 left more, full, e) (panic k e)
          | inr (mem, e) ↦
              rw (lt→ltb 0 left more, full, e)
                (let b : Block = record { len = 0; mem = mem } in
                  let ok : IsBlock cap b = record {
                    within = omega arith;
                    storage = gives k mem e;
                  } in
                  let d = room_for cap b left in
                  let d_eq = room_lem cap left b ok small in
                  let a =
                    append_to_lem cap d b src ok small (omega (arith, d_eq))
                      (omega (arith, d_eq)) in
                  after_new alloc cap d src v a.live_eq (
                    fill-Outcome fuel alloc cap (suc k) (append_to b src d) (drop d src) (left - d)
                      gives pos small a.valid (omega (arith, length-drop d src, d_eq))
                      (ground (arith, d_eq))))
        ]
        | inr room ↦
            let d = room_for cap cur left in
            let d_eq = room_lem cap left cur v small in
            let a =
              append_to_lem cap d cur src v small (omega (arith, d_eq)) (omega (arith, d_eq)) in
            rw (lt→ltb 0 left more, room)
              (after alloc cap d src a.live_eq (
                fill-Outcome fuel alloc cap k (append_to cur src d) (drop d src) (left - d) gives
                  pos small a.valid (omega (arith, length-drop d src, d_eq))
                  (ground (arith, d_eq, v.within))))
      ]
    ]
