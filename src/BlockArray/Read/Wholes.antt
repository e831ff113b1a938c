-- ===== src/BlockArray/Read/Wholes.antt =====
-- The elements behind a point within an element.
use c_specx.Base.{
  ℕ, zero, suc, ◌+◌, ◌-◌, ◌≤◌, ◌<◌, ◌≡◌, refl, sym, ap, ap₂, ◌∙◌, inl, inr, List, [], ◌∷◌, ◌++◌,
  ltb, if◌then◌else◌, length, take, drop, append_assoc, le_or_lt, lt→ltb, le→ltb, length-append,
  length-drop, drop-drop, arith, subst, take-append_of_ge, drop-append_of_ge, take-length-append,
  drop-length-append,
}
use c_specx.BlockArray.{StrideState, and_read}
use c_specx.ExtArray.Strided.{elements}
use c_specx.Memory.Serial.RoundTrip.{joined}

pub elements-drop :
    (xs : List ℕ) (size step left m at : ℕ)
    → 0 < size
    → elements xs size step left (m + at) ≡ elements (drop m xs) size step left at
unfolding elements
elements-drop xs size step zero m at pos = refl
elements-drop xs size step (suc left) m at pos = elim (le_or_lt (m + at + size) (length xs)) [
  | inl fits ↦
      rw
        (
          le→ltb (length xs) (m + at + size) fits,
          le→ltb (length (drop m xs)) (at + size) (omega (arith, length-drop m xs)),
        )
        (ap₂ (λ (a : List ℕ) (b : List (List ℕ)). a ∷ b) (ap (take size) (sym (drop-drop at m xs)))
          (ap (λ (k : ℕ). elements xs size step left k) {x = m + at + step} {y = m + (at + step)}
              (omega arith)
            ∙ elements-drop xs size step left m (at + step) pos))
  | inr past ↦
      rw
        (
          lt→ltb (length xs) (m + at + size) past,
          lt→ltb (length (drop m xs)) (at + size) (omega (arith, length-drop m xs)),
        )
        refl
]

-- The elements from within one of which `next` bytes are left.
unfoldable pub whole : List ℕ → ℕ → ℕ → ℕ → ℕ → List (List ℕ)
whole xs size step left next =
    if ltb (length xs) next
    then []
    else take next xs ∷ elements (drop next xs) size step left (step - size)

pub whole-elements :
    (xs : List ℕ) (size step left : ℕ)
    → 0 < size
    → size ≤ step
    → whole xs size step left size ≡ elements xs size step (suc left) 0
unfolding whole elements
whole-elements xs size step left pos le = elim (le_or_lt size (length xs)) [
  | inl fits ↦
      rw (le→ltb (length xs) size fits, le→ltb (length xs) (0 + size) (omega arith))
        (ap (λ t. take size xs ∷ t)
          (sym (elements-drop xs size step left size (step - size) pos)
            ∙ ap (λ (k : ℕ). elements xs size step left k) {x = size + (step - size)} {y = 0 + step}
                (omega arith)))
  | inr out ↦ rw (lt→ltb (length xs) size out, lt→ltb (length xs) (0 + size) (omega arith)) refl
]

-- A count and bytes that are those of `es`, with bytes behind them of an element that is not whole.
pub record Reads (es : List (List ℕ)) (res : ℕ × List ℕ) : Type 0 where
  pub count_eq : res.0 ≡ length es
  pub partial : List ℕ
  pub out_eq : res.1 ≡ joined es ++ partial

-- The elements behind a state.
abbrev pub expected : ℕ → ℕ → ℕ → StrideState → List ℕ → List (List ℕ)
expected size step zero s xs = []
expected size step (suc left) s xs =
    if s.active then whole xs size step left s.next else elements xs size step (suc left) s.next

whole_within :
    (xs : List ℕ) (size step left next : ℕ)
    → next ≤ length xs
    → whole xs size step left next
      ≡ take next xs ∷ elements (drop next xs) size step left (step - size)
unfolding whole
whole_within xs size step left next h = rw (le→ltb (length xs) next h) refl

whole_short :
    (xs : List ℕ) (size step left next : ℕ) → length xs < next → whole xs size step left next ≡ []
unfolding whole
whole_short xs size step left next h = rw (lt→ltb (length xs) next h) refl

whole-append :
    (part ys : List ℕ) (size step left next : ℕ)
    → length part ≤ next
    → next - length part ≤ length ys
    → whole (part ++ ys) size step left next
      ≡ (part ++ take (next - length part) ys)
        ∷ elements (drop (next - length part) ys) size step left (step - size)
whole-append part ys size step left next le fits =
    whole_within (part ++ ys) size step left next (omega (arith, length-append part ys))
    ∙ ap₂ (λ (a b : List ℕ). a ∷ elements b size step left (step - size))
        (take-append_of_ge next part ys le) (drop-append_of_ge next part ys le)

joined_rest :
    (part e es partial : List ℕ) → part ++ ((e ++ es) ++ partial) ≡ ((part ++ e) ++ es) ++ partial
joined_rest part e es partial =
    ap (λ t. part ++ t) (append_assoc e es partial)
    ∙ sym (append_assoc part e (es ++ partial))
    ∙ sym (append_assoc (part ++ e) es partial)

pub Reads-more :
    (part ys : List ℕ) (size step left next : ℕ) (res : ℕ × List ℕ)
    → length part ≤ next
    → Reads (whole ys size step left (next - length part)) res
    → Reads (whole (part ++ ys) size step left next) (and_read 0 part res)
unfolding and_read
Reads-more part ys size step left next res le r = elim (le_or_lt (next - length part) (length ys)) [
  | inl fits ↦
      let k = next - length part in
      let es = elements (drop k ys) size step left (step - size) in
      let r' : Reads (take k ys ∷ es) res =
        subst (λ t. Reads t res) (whole_within ys size step left k fits) r in
      rw (whole-append part ys size step left next le fits) (record {
        count_eq = omega (arith, r'.count_eq);
        partial = r'.partial;
        out_eq =
            ap (λ t. part ++ t) r'.out_eq ∙ joined_rest part (take k ys) (joined es) r'.partial;
      })
  | inr out ↦
      let r' : Reads [] res =
        subst (λ t. Reads t res) (whole_short ys size step left (next - length part) out) r in
      rw (whole_short (part ++ ys) size step left next (omega (arith, length-append part ys)))
        (record {
          count_eq = omega (arith, r'.count_eq);
          partial = part ++ r'.partial;
          out_eq = ap (λ t. part ++ t) r'.out_eq;
        })
]

pub Reads-element :
    (part ys : List ℕ) (size step left next : ℕ) (res : ℕ × List ℕ)
    → next ≡ length part
    → Reads (elements ys size step left (step - size)) res
    → Reads (whole (part ++ ys) size step left next) (and_read 1 part res)
unfolding and_read
Reads-element part ys size step left next res n r =
    rw
      (
        whole_within (part ++ ys) size step left next (omega (arith, length-append part ys)),
        take-length-append part ys next n,
        drop-length-append part ys next n,
      )
      (record {
        count_eq = omega (arith, r.count_eq);
        partial = r.partial;
        out_eq =
            ap (λ t. part ++ t) r.out_eq
            ∙ sym (append_assoc part (joined (elements ys size step left (step - size))) r.partial);
      })

pub elements_none : (xs : List ℕ) (size step at : ℕ) → elements xs size step 0 at ≡ []
unfolding elements
elements_none xs size step at = refl
