-- ===== src/ExtArray/Remove.antt =====
-- `ext_array_remove` splits the elements of the array into those it hands out and those it keeps.
use native.Mathlib.Nat.{mul-le-mul_right, mul_comm}
use c_specx.Base.{
  ℕ, zero, suc, ◌+◌, ◌-◌, ◌*◌, ◌≤◌, ◌<◌, ◌≡◌, refl, sym, ap, ap₂, ◌∙◌, inl, inr, ◌&&◌, List, [],
  ◌∷◌, ◌++◌, ltb, ◌==◌, if◌then◌else◌, Bool-cases, length, take, drop, slice, splice, add32_small,
  mul32_small, u32_mod, lt→ltb, le→ltb, arith, ◌%◌, append-nil, drop-drop, take-add,
  take-length-append, append_assoc, drop-length-append, drop-splice_end, take-splice_end,
  length-splice, length-append, length-take, take-append-drop,
}
use c_specx.Stride.{Stride}
use c_specx.ExtArray.{ExtArray, Removal, with_out, move_down, remove_loop, ext_array_remove}
use c_specx.ExtArray.Insert.{IsValid, contents}
use c_specx.Memory.Serial.RoundTrip.{joined}

-- Elements of `size` bytes each.
abbrev pub AllSized : ℕ → List (List ℕ) → Type 0
AllSized size [] = Unit
AllSized size (e ∷ es) = (length e ≡ size) × AllSized size es

-- Of elements from index `i` on, those at the indexes `next`, `next + step` and so on, `left` of
-- them at most.
unfoldable pub selected : ℕ → ℕ → ℕ → ℕ → List (List ℕ) → List (List ℕ)
selected step i left next [] = []
selected step i left next (e ∷ es) =
    let hit = selected step (suc i) (left - 1) (next + step) es in
    let miss = selected step (suc i) left next es in
    if ltb 0 left && i == next then e ∷ hit else miss

-- The others.
unfoldable pub unselected : ℕ → ℕ → ℕ → ℕ → List (List ℕ) → List (List ℕ)
unselected step i left next [] = []
unselected step i left next (e ∷ es) =
    let hit = unselected step (suc i) (left - 1) (next + step) es in
    let miss = unselected step (suc i) left next es in
    if ltb 0 left && i == next then hit else e ∷ miss

pub length-joined :
    (size : ℕ) (es : List (List ℕ)) → AllSized size es → length (joined es) ≡ length es * size
length-joined size [] sized = omega arith
length-joined size (e ∷ es) sized =
    omega (arith, length-append e (joined es), sized.0, length-joined size es sized.1)

length-unselected-le :
    (step i left next : ℕ) (es : List (List ℕ))
    → length (unselected step i left next es) ≤ length es
unfolding unselected
length-unselected-le step i left next [] = omega arith
length-unselected-le step i left next (e ∷ es) = elim (Bool-cases (ltb 0 left && i == next)) [
  | inl hit ↦ rw hit (omega (arith, length-unselected-le step (suc i) (left - 1) (next + step) es))
  | inr miss ↦ rw miss (omega (arith, length-unselected-le step (suc i) left next es))
]

drop-splice_past :
    (xs : List ℕ) (i : ℕ) (ys : List ℕ) (k : ℕ)
    → i + length ys ≤ length xs
    → i + length ys ≤ k
    → drop k (splice xs i ys) ≡ drop k xs
drop-splice_past xs i ys k fits past =
    let n = i + length ys in
    ap (λ (m : ℕ). drop m (splice xs i ys)) {x = k} {y = n + (k - n)} (omega arith)
    ∙ sym (drop-drop (k - n) n (splice xs i ys))
    ∙ ap (drop (k - n)) (drop-splice_end xs i ys fits)
    ∙ drop-drop (k - n) n xs
    ∙ ap (λ (m : ℕ). drop m xs) {x = n + (k - n)} {y = k} (omega arith)

-- The element at `rpos`, and what stands behind it.
record IsNext (mem : List ℕ) (size r : ℕ) (e rest : List ℕ) : Type 0 where
  here : slice mem (r * size) size ≡ e
  behind : drop (suc r * size) mem ≡ rest

next_lem :
    (mem : List ℕ) (size r : ℕ) (e rest : List ℕ)
    → length e ≡ size
    → drop (r * size) mem ≡ e ++ rest
    → IsNext mem size r e rest
next_lem mem size r e rest n at = record {
  here = ap (take size) at ∙ take-length-append e rest size (sym n);
  behind =
      ap (λ (m : ℕ). drop m mem) {x = suc r * size} {y = r * size + size} (omega arith)
      ∙ sym (drop-drop size (r * size) mem)
      ∙ ap (drop size) at
      ∙ drop-length-append e rest size (sym n);
}

-- The bytes behind the move of an element from `r` down to `w`.
record IsMoved (mem mem' : List ℕ) (size w r : ℕ) (e rest : List ℕ) : Type 0 where
  low : take (suc w * size) mem' ≡ take (w * size) mem ++ e
  high : drop (suc r * size) mem' ≡ rest
  room : length mem' ≡ length mem

move_down_lem :
    (mem : List ℕ) (size w r : ℕ) (e rest : List ℕ)
    → length e ≡ size
    → drop (r * size) mem ≡ e ++ rest
    → w ≤ r
    → r * size + size ≤ length mem
    → r * size < u32_mod
    → IsMoved mem (move_down mem size w r) size w r e rest
unfolding move_down
move_down_lem mem size w r e rest n at le fits small = elim (Bool-cases (w == r)) [
  | inl same ↦
      let eq : w ≡ r = ground arith in
      rw same (record {
        low =
            ap (λ (m : ℕ). take m mem) {x = suc w * size} {y = w * size + size} (omega arith)
            ∙ take-add (w * size) size mem
            ∙ ap (λ (m : ℕ). take (w * size) mem ++ slice mem (m * size) size) eq
            ∙ ap (λ t. take (w * size) mem ++ t) (next_lem mem size r e rest n at).here;
        high = (next_lem mem size r e rest n at).behind;
        room = refl;
      })
  | inr other ↦
      let below : w * size ≤ r * size = mul-le-mul_right {m = w} {n = r} size le in
      let apart : suc w * size ≤ r * size =
        mul-le-mul_right {m = suc w} {n = r} size (ground arith) in
      rw
        (
          other,
          mul32_small w size (omega (arith, below)),
          mul32_small r size small,
          (next_lem mem size r e rest n at).here,
        )
        (record {
          low =
              ap (λ (m : ℕ). take m (splice mem (w * size) e)) {x = suc w * size}
                {y = w * size + length e} (omega (arith, n))
              ∙ take-splice_end mem (w * size) e (omega (arith, n, below));
          high =
              drop-splice_past mem (w * size) e (suc r * size) (omega (arith, n, below))
                (omega (arith, n, apart))
              ∙ (next_lem mem size r e rest n at).behind;
          room = length-splice mem (w * size) e;
        })
]

-- What the loop leaves behind, with `kept` laid down already.
record Removes (x : Removal) (size w : ℕ) (kept mem : List ℕ) (hits misses : List (List ℕ))
    : Type 0 where
  out_eq : x.out ≡ joined hits
  count_eq : x.count ≡ length hits
  wpos_eq : x.wpos ≡ w + length misses
  bytes : take (x.wpos * size) x.mem ≡ kept ++ joined misses
  room : length x.mem ≡ length mem

remove_loop-Removes :
    (es : List (List ℕ)) (fuel len size step : ℕ) (mem : List ℕ) (w r left next : ℕ) (post : List ℕ)
    → AllSized size es
    → length es ≤ fuel
    → 0 < size
    → len ≡ (r + length es) * size
    → len + step < u32_mod
    → len ≤ length mem
    → w ≤ r
    → drop (r * size) mem ≡ joined es ++ post
    → Removes
        (remove_loop fuel len size step mem w r left next)
        size
        w
        (take (w * size) mem)
        mem
        (selected step r left next es)
        (unselected step r left next es)
unfolding remove_loop selected unselected with_out
remove_loop-Removes [] zero len size step mem w r left next post sized enough pos total small fits
      le at =
    record {
      out_eq = refl;
      count_eq = refl;
      wpos_eq = omega arith;
      bytes = sym (append-nil (take (w * size) mem));
      room = refl;
    }
remove_loop-Removes [] (suc fuel) len size step mem w r left next post sized enough pos total small
      fits le at =
    rw (mul32_small r size (omega (arith, small)), le→ltb (r * size) len (omega arith))
      (record {
        out_eq = refl;
        count_eq = refl;
        wpos_eq = omega arith;
        bytes = sym (append-nil (take (w * size) mem));
        room = refl;
      })
remove_loop-Removes (e ∷ es) zero len size step mem w r left next post sized enough pos total small
      fits le at =
    absurd (omega arith)
remove_loop-Removes (e ∷ es) (suc fuel) len size step mem w r left next post sized enough pos total
      small fits le at =
    let at' : drop (r * size) mem ≡ e ++ (joined es ++ post) =
      at ∙ append_assoc e (joined es) post in
    let n = next_lem mem size r e (joined es ++ post) sized.0 at' in
    let total' : len ≡ (suc r + length es) * size =
      total ∙ ap (λ (k : ℕ). k * size) (omega arith) in
    let part : suc r * size ≤ len =
      rw total' (mul-le-mul_right {m = suc r} {n = suc r + length es} size (omega arith)) in
    let more : r * size < len = omega (arith, part) in
    rw (mul32_small r size (omega (arith, more)), lt→ltb (r * size) len more)
      (elim (Bool-cases (ltb 0 left && r == next)) [
        | inl hit ↦
            let index : r ≤ r * size =
              omega (arith, mul-le-mul_right {m = 1} {n = size} r pos, mul_comm size r) in
            let rest =
              remove_loop-Removes es fuel len size step mem w (suc r) (left - 1) (next + step) post
                sized.1 (omega arith) pos total' small fits (omega arith) n.behind in
            rw (hit, add32_small next step (ground (arith, more, index)))
              (record {
                out_eq = ap₂ (λ (a b : List ℕ). a ++ b) n.here rest.out_eq;
                count_eq = ap suc rest.count_eq;
                wpos_eq = rest.wpos_eq;
                bytes = rest.bytes;
                room = rest.room;
              })
        | inr miss ↦
            let m =
              move_down_lem mem size w r e (joined es ++ post) sized.0 at' le (omega (arith, part))
                (omega (arith, more)) in
            let rest =
              remove_loop-Removes es fuel len size step (move_down mem size w r) (suc w) (suc r)
                left next post sized.1 (omega arith) pos total' small (omega (arith, m.room))
                (omega arith) m.high in
            rw miss (record {
              out_eq = rest.out_eq;
              count_eq = rest.count_eq;
              wpos_eq = omega (arith, rest.wpos_eq);
              bytes =
                  rest.bytes
                  ∙ ap (λ t. t ++ joined (unselected step (suc r) left next es)) m.low
                  ∙ append_assoc (take (w * size) mem) e
                      (joined (unselected step (suc r) left next es));
              room = rest.room ∙ m.room;
            })
      ])

-- `ext_array_remove` from a valid array that holds the elements `es`, of `size` bytes each and one
-- byte at least, hands out those that the stride selects, in order, and their number, and the array
-- then holds the others; it stays valid. The length and the step together are less than 2^32, and so
-- is the start.
pub ext_array_remove_lem :
    (str : Stride) (size : ℕ) (es : List (List ℕ)) {r : ExtArray}
    → IsValid r
    → 0 < size
    → AllSized size es
    → contents r ≡ joined es
    → r.len + str.stride < u32_mod
    → str.start < u32_mod
    → let (k, out, r') = ext_array_remove r str size in
      IsValid r'
      × (k ≡ length (selected str.stride 0 str.nelems str.start es))
      × (out ≡ joined (selected str.stride 0 str.nelems str.start es))
      × (contents r' ≡ joined (unselected str.stride 0 str.nelems str.start es))
unfolding ext_array_remove
ext_array_remove_lem str size es {r} v pos sized e small narrow =
    let n : r.len ≡ length es * size = omega (
      arith,
      ap length e,
      length-take r.len r.mem,
      v.within,
      v.storage,
      length-joined size es sized,
    ) in
    let split : r.mem ≡ joined es ++ drop r.len r.mem =
      sym (take-append-drop r.len r.mem) ∙ ap (λ t. t ++ drop r.len r.mem) e in
    let many : length es ≤ r.len =
      omega (
        arith,
        n,
        mul-le-mul_right {m = 1} {n = size} (length es) pos,
        mul_comm size (length es),
      ) in
    let done =
      remove_loop-Removes es r.len r.len size str.stride r.mem 0 0 str.nelems str.start
        (drop r.len r.mem) sized many pos (n ∙ ap (λ (k : ℕ). k * size) (omega arith)) small
        (omega (arith, v.within, v.storage)) (omega arith)
        (ap (λ (m : ℕ). drop m r.mem) {x = 0 * size} {y = 0} (omega arith) ∙ split) in
    let others = unselected str.stride 0 str.nelems str.start es in
    let x = remove_loop r.len r.len size str.stride r.mem 0 0 str.nelems str.start in
    let few : x.wpos ≤ length es =
      omega (arith, done.wpos_eq, length-unselected-le str.stride 0 str.nelems str.start es) in
    let fits : x.wpos * size ≤ r.len =
      omega (arith, n, mul-le-mul_right {m = x.wpos} {n = length es} size few) in
    let v' : IsValid (record { mem = x.mem; len = x.wpos * size; cap = r.cap }) = record {
      within = omega (arith, v.within);
      small = v.small;
      storage = omega (arith, v.storage, done.room);
    } in
    let whole : str.start % u32_mod ≡ str.start = omega arith in
    rw (whole, mul32_small x.wpos size (omega (arith, small)))
      (
        v',
        done.count_eq,
        done.out_eq,
        done.bytes
            ∙ ap (λ (m : ℕ). take m r.mem ++ joined others) {x = 0 * size} {y = 0} (omega arith),
      )
