-- ===== src/ExtArray/Insert.antt =====
-- `ext_array_insert` puts its bytes into the contents, or leaves them alone.
use c_specx.Base.{
  ℕ, ◌+◌, ◌-◌, ◌*◌, ◌≤◌, ◌<◌, min, ◌≡◌, refl, sym, ap, ap₂, ◌∙◌, inl, inr, Bool, true, false,
  Option, none, some, List, ◌++◌, length, take, slice, splice, add32_small, sub32_small,
  mul32_small, u32_mod, take_all, length-slice, length-splice, take-splice_end, slice-splice,
  append_assoc, append-nil, le_or_lt, lt→ltb, le→ltb, arith, drop_all, length-take, subst, inserted,
  take-take_of_le, drop-take,
}
use c_specx.ExtArray.{ExtArray, ext_array_reserve, grow_with, shift, insert_in, ext_array_insert}

pub record IsValid (r : ExtArray) : Type 0 where
  pub within : r.len ≤ r.cap
  pub small : r.cap < u32_mod
  pub storage : r.cap ≤ length r.mem

abbrev pub contents : ExtArray → List ℕ
contents r = take r.len r.mem

-- The two copies of an insertion, on the bytes.
moved_lem :
    (mem src : List ℕ) (len ofst : ℕ)
    → ofst ≤ len
    → len + length src ≤ length mem
    → take
        (len + length src)
        (splice (splice mem ofst src) (ofst + length src) (slice mem ofst (len - ofst)))
      ≡ inserted (take len mem) ofst src
moved_lem mem src len ofst h fits =
    let tail = slice mem ofst (len - ofst) in
    let n : length tail ≡ len - ofst = length-slice mem ofst (len - ofst) (omega arith) in
    ap (λ (k : ℕ). take k (splice (splice mem ofst src) (ofst + length src) tail))
      {x = len + length src} {y = ofst + length src + length tail} (omega (arith, n))
    ∙ take-splice_end (splice mem ofst src) (ofst + length src) tail
        (omega (arith, n, length-splice mem ofst src))
    ∙ ap (λ t. t ++ tail) (take-splice_end mem ofst src (omega arith))
    ∙ append_assoc (take ofst mem) src tail
    ∙ ap₂ (λ (a b : List ℕ). a ++ (src ++ b)) (sym (take-take_of_le ofst len mem h))
        (sym (drop-take ofst len mem))

-- The outcomes of an insertion, for an array with the contents `xs`: a failure leaves the contents
-- alone, a success puts `src` in.
pub data Outcome (xs : List ℕ) (ofst : ℕ) (src : List ℕ) : Bool × ExtArray → Type 0 where
  failed : (r' : ExtArray) → IsValid r' → contents r' ≡ xs → Outcome xs ofst src (false, r')
  done :
      (r' : ExtArray)
      → IsValid r'
      → contents r' ≡ inserted xs ofst src
      → Outcome xs ofst src (true, r')

shift-Outcome :
    (src : List ℕ) (ofst : ℕ) (saved : Option (List ℕ)) {r : ExtArray}
    → ((tail : List ℕ) → saved ≡ some tail → r.len - ofst ≤ length tail)
    → IsValid r
    → ofst ≤ r.len
    → r.len + length src ≤ r.cap
    → Outcome (contents r) ofst src (shift saved r ofst src (length src) (r.len - ofst))
unfolding shift
shift-Outcome src ofst none {r} gives v h fits = failed r v refl
shift-Outcome src ofst (some buf) {r} gives v h fits =
    rw
      (
        take_all (length src) src (omega arith),
        saved_eq,
        add32_small ofst (length src) (omega (arith, v.small)),
        add32_small r.len (length src) (omega (arith, v.small)),
      )
      (done _ valid (moved_lem r.mem src r.len ofst h (omega (arith, v.storage))))
  where
    tail : List ℕ
    tail = slice r.mem ofst (r.len - ofst)

    n : length tail ≡ r.len - ofst
    n = length-slice r.mem ofst (r.len - ofst) (omega (arith, v.storage, v.within))

    saved_eq : take (r.len - ofst) (splice buf 0 tail) ≡ tail
    saved_eq =
        ap (λ (k : ℕ). take k (splice buf 0 tail)) (sym n)
        ∙ slice-splice buf 0 tail (omega (arith, n, gives buf refl))

    valid : IsValid (record r {
      mem = splice (splice r.mem ofst src) (ofst + length src) tail;
      len = r.len + length src;
    })
    valid = record {
      within = fits;
      small = v.small;
      storage = omega (
        arith,
        v.storage,
        length-splice (splice r.mem ofst src) (ofst + length src) tail,
        length-splice r.mem ofst src,
      );
    }

insert_in-Outcome :
    (malloc : ℕ → Option (List ℕ)) (src : List ℕ) (ofst : ℕ) {r : ExtArray}
    → ((n : ℕ) (mem : List ℕ) → malloc n ≡ some mem → n ≤ length mem)
    → IsValid r
    → ofst ≤ r.len
    → r.len + length src ≤ r.cap
    → Outcome (contents r) ofst src (insert_in malloc (true, r) ofst src (length src))
unfolding insert_in
insert_in-Outcome malloc src ofst {r} gives v h fits = elim (le_or_lt r.len ofst) [
  | inl at_end ↦
      rw
        (
          sub32_small r.len ofst h (omega (arith, v.within, v.small)),
          le→ltb 0 (r.len - ofst) (omega arith),
          take_all (length src) src (omega arith),
          add32_small r.len (length src) (omega (arith, v.small)),
        )
        (done _ valid (appended at_end))
  | inr before ↦
      rw
        (
          sub32_small r.len ofst h (omega (arith, v.within, v.small)),
          lt→ltb 0 (r.len - ofst) (omega arith),
        )
        (shift-Outcome src ofst (malloc (r.len - ofst)) (gives (r.len - ofst)) v h fits)
]
  where
    valid : IsValid (record r { mem = splice r.mem ofst src; len = r.len + length src })
    valid = record {
      within = fits;
      small = v.small;
      storage = omega (arith, v.storage, length-splice r.mem ofst src);
    }

    appended :
        r.len ≤ ofst
        → take (r.len + length src) (splice r.mem ofst src) ≡ inserted (contents r) ofst src
    appended at_end =
        ap (λ (k : ℕ). take k (splice r.mem ofst src)) {x = r.len + length src}
          {y = ofst + length src} (omega arith)
        ∙ take-splice_end r.mem ofst src (omega (arith, v.storage))
        ∙ ap₂ (λ (a b : List ℕ). a ++ b) (sym (take-take_of_le ofst r.len r.mem h))
            (sym (append-nil src)
              ∙ ap (λ t. src ++ t)
                  (sym (drop_all ofst (contents r) (omega (arith, length-take r.len r.mem)))))

reserve_fits :
    (realloc : List ℕ → ℕ → ℕ → Option (List ℕ)) (need : ℕ) {r : ExtArray}
    → need ≤ r.cap
    → ext_array_reserve realloc r need ≡ (true, r)
unfolding ext_array_reserve
reserve_fits realloc need {r} h = rw (le→ltb r.cap need h) refl

reserve_grows :
    (realloc : List ℕ → ℕ → ℕ → Option (List ℕ)) (need : ℕ) (r : ExtArray)
    → r.cap < need
    → need * 2 < u32_mod
    → ext_array_reserve realloc r need ≡ grow_with (realloc r.mem r.cap (need * 2)) r need
unfolding ext_array_reserve
reserve_grows realloc need r h small = rw (lt→ltb r.cap need h, mul32_small need 2 small) refl

grow-Outcome :
    (malloc : ℕ → Option (List ℕ)) (src : List ℕ) (ofst : ℕ) {r : ExtArray}
    → ((n : ℕ) (mem : List ℕ) → malloc n ≡ some mem → n ≤ length mem)
    → (grown : Option (List ℕ))
    → let need = r.len + length src in
      ((m' : List ℕ)
        → grown ≡ some m'
        → (need * 2 ≤ length m')
          × (take (min r.cap (need * 2)) m' ≡ take (min r.cap (need * 2)) r.mem))
      → IsValid r
      → ofst ≤ r.len
      → r.cap < need
      → need * 2 < u32_mod
      → Outcome
          (contents r)
          ofst
          src
          (insert_in malloc (grow_with grown r need) ofst src (length src))
unfolding grow_with insert_in
grow-Outcome malloc src ofst {r} gives none moves v h grows small = failed r v refl
grow-Outcome malloc src ofst {r} gives (some mem) moves v h grows small =
    let need = r.len + length src in
    let r' : ExtArray = record { mem = mem; len = r.len; cap = need * 2 } in
    let v' : IsValid r' = record {
      within = omega arith;
      small = small;
      storage = (moves mem refl).0;
    } in
    let same : contents r' ≡ contents r =
      sym (take-take_of_le r.len (min r.cap (need * 2)) mem (omega (arith, v.within)))
      ∙ ap (take r.len) (moves mem refl).1
      ∙ take-take_of_le r.len (min r.cap (need * 2)) r.mem (omega (arith, v.within)) in
    rw (mul32_small need 2 small) (
      subst (λ xs. Outcome xs ofst src (insert_in malloc (true, r') ofst src (length src))) same
        (insert_in-Outcome malloc src ofst gives v' h (omega arith)))

-- `ext_array_insert` into a valid array at an offset within the contents either fails and leaves
-- the contents as they were, or puts the bytes in there, the rest of the contents behind them; the
-- array stays valid. The new block of `i_realloc_right` is as long as asked for and starts with
-- the bytes of the old one, `i_malloc` gives no less than it is asked for, and twice the new
-- length is less than 2^32.
pub ext_array_insert_lem :
    (realloc : List ℕ → ℕ → ℕ → Option (List ℕ)) (malloc : ℕ → Option (List ℕ)) (src : List ℕ)
    (ofst : ℕ) {r : ExtArray}
    → ((m : List ℕ) (old n : ℕ) (m' : List ℕ)
        → old ≤ length m
        → realloc m old n ≡ some m'
        → (n ≤ length m') × (take (min old n) m' ≡ take (min old n) m))
    → ((n : ℕ) (mem : List ℕ) → malloc n ≡ some mem → n ≤ length mem)
    → IsValid r
    → ofst ≤ r.len
    → (r.len + length src) * 2 < u32_mod
    → Outcome (contents r) ofst src (ext_array_insert realloc malloc r ofst src (length src))
unfolding ext_array_insert
ext_array_insert_lem realloc malloc src ofst {r} moves gives v h small =
    elim (le_or_lt (r.len + length src) r.cap) [
      | inl fits ↦
          rw
            (
              add32_small r.len (length src) (omega arith),
              reserve_fits realloc (r.len + length src) {r = r} fits,
            )
            (insert_in-Outcome malloc src ofst gives v h fits)
      | inr grows ↦
          rw
            (
              add32_small r.len (length src) (omega arith),
              reserve_grows realloc (r.len + length src) r grows small,
            )
            (grow-Outcome malloc src ofst gives (realloc r.mem r.cap ((r.len + length src) * 2))
              (λ m'. moves r.mem r.cap ((r.len + length src) * 2) m' v.storage) v h grows small)
    ]
