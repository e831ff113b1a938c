-- ===== src/RobinHood/Get.antt =====
-- What `ht_get` finds.
use native.Mathlib.Nat.{mod-lt}
use c_specx.Base.{
  ℕ, zero, suc, ◌+◌, ◌%◌, ◌≤◌, ◌<◌, ◌≡◌, refl, sym, ap, ◌∙◌, subst, inl, inr, ◌⊎◌, true, false,
  ◌||◌, not, Option, none, some, ltb, ◌==◌, Bool-cases, le_or_lt, le→ltb, arith,
}
use c_specx.RobinHood.{HData, Table, at, get_loop, ht_get}
use c_specx.RobinHood.Inv.{Passed, IsValid, Holds, Absent}

-- The entry of the key, or none where there is none.
pub data Got (ht : Table) (key : ℕ) : Option HData → Type 0 where
  got : (item : HData) → Holds ht item → item.key ≡ key → Got ht key (some item)
  no_such : Absent ht key → Got ht key none

-- The entry at slot `i` of a valid table lies on the probe for its key.
pub entry-Passed :
    (r i key : ℕ) {ht : Table}
    → IsValid ht
    → i < ht.cap
    → (at ht i).present ≡ true
    → (at ht i).item.key ≡ key
    → r ≤ (at ht i).dib
    → Passed ht ((key + r) % ht.cap) r
entry-Passed r i key {ht} v within p k far = elim (le_or_lt (at ht i).dib r) [
  | inr before ↦ subst (λ (h : ℕ). Passed ht ((h + r) % ht.cap) r) k (v.path i within p r before)
  | inl here ↦
      let same : i ≡ (key + r) % ht.cap =
        sym (v.slot_eq i within p) ∙ ap (λ (h : ℕ). h % ht.cap) {y = key + r} (omega (arith, k)) in
      subst (λ (j : ℕ). Passed ht j r) same (record { present = p; near = omega arith })
]

-- Two entries of one key are one.
pub same_slot :
    (i j key : ℕ) {ht : Table}
    → IsValid ht
    → i < ht.cap
    → j < ht.cap
    → (at ht i).present ≡ true
    → (at ht j).present ≡ true
    → (at ht i).item.key ≡ key
    → (at ht j).item.key ≡ key
    → i ≡ j
same_slot i j key v a b p q k h = v.unique i j a b p q (k ∙ sym h)

-- A probe that finds another key in its slot is not at the entry's distance.
pub not_here :
    (r i key : ℕ) {ht : Table}
    → IsValid ht
    → i < ht.cap
    → (at ht i).present ≡ true
    → (at ht i).item.key ≡ key
    → ((at ht ((key + r) % ht.cap)).item.key == key) ≡ false
    → (suc r ≤ (at ht i).dib) ⊎ ((at ht i).dib < suc r)
    → r ≤ (at ht i).dib
    → suc r ≤ (at ht i).dib
not_here r i key v within p k miss (inl le) far = le
not_here r i key {ht} v within p k miss (inr past) far =
    let same : (key + r) % ht.cap ≡ i =
      ap (λ (h : ℕ). h % ht.cap) {x = key + r} (omega (arith, k, far, past))
      ∙ v.slot_eq i within p in
    let here : (at ht ((key + r) % ht.cap)).item.key ≡ key =
      ap (λ (s : ℕ). (at ht s).item.key) same ∙ k in
    absurd (ground (arith, here))

-- A probe from round `r` on finds the entry, which is as far or farther.
pub probe-finds :
    (left r i key : ℕ) {ht : Table}
    → IsValid ht
    → i < ht.cap
    → (at ht i).present ≡ true
    → (at ht i).item.key ≡ key
    → r ≤ (at ht i).dib
    → r + left ≡ ht.cap
    → get_loop left ht key r ≡ some (at ht i).item
unfolding get_loop
probe-finds zero r i key v within p k far n = absurd (omega (arith, v.bound i within p))
probe-finds (suc left) r i key {ht} v within p k far n =
    let j = (key + r) % ht.cap in
    let j_within : j < ht.cap = mod-lt (key + r) v.some_slot in
    let passed = entry-Passed r i key v within p k far in
    let near = le→ltb (at ht j).dib r passed.near in
    elim (Bool-cases ((at ht j).item.key == key)) [
      | inl hit ↦
          let j_key : (at ht j).item.key ≡ key = ground arith in
          let same = same_slot j i key v j_within within passed.present p j_key k in
          rw (passed.present, near, hit) (ap (λ (s : ℕ). some (at ht s).item) same)
      | inr miss ↦
          let before : suc r ≤ (at ht i).dib =
            not_here r i key v within p k miss (le_or_lt (suc r) (at ht i).dib) far in
          rw (passed.present, near, miss)
            (probe-finds left (suc r) i key v within p k before (omega arith))
    ]

-- What a probe returns is in the table, whether this is valid or not.
data Sound (ht : Table) (key : ℕ) : Option HData → Type 0 where
  sound : (item : HData) → Holds ht item → item.key ≡ key → Sound ht key (some item)
  nothing : Sound ht key none

get_loop-Sound : (left r key : ℕ) {ht : Table} → 0 < ht.cap → Sound ht key (get_loop left ht key r)
unfolding get_loop
get_loop-Sound zero r key pos = nothing
get_loop-Sound (suc left) r key {ht} pos =
    let j = (key + r) % ht.cap in
    elim (Bool-cases (not (at ht j).present || ltb (at ht j).dib r)) [
      | inl stop ↦ rw stop nothing
      | inr go ↦ elim (Bool-cases ((at ht j).item.key == key)) [
        | inl hit ↦
            rw (go, hit)
              (sound (at ht j).item
                (record {
                  index = j;
                  within = mod-lt (key + r) pos;
                  present = ground arith;
                  item_eq = refl;
                })
                (ground arith))
        | inr miss ↦ rw (go, miss) (get_loop-Sound left (suc r) key pos)
      ]
    ]

Sound-Got :
    {ht : Table} {key : ℕ} (r : Option HData)
    → (r ≡ none → Absent ht key)
    → Sound ht key r
    → Got ht key r
Sound-Got _ none_of nothing = no_such (none_of refl)
Sound-Got _ none_of (sound item h e) = got item h e

-- `ht_get` in a valid table returns the entry of the key, and none only where no entry of the table has
-- the key.
pub ht_get_lem : (key : ℕ) {ht : Table} → IsValid ht → Got ht key (ht_get ht key)
unfolding ht_get
ht_get_lem key {ht} v =
    Sound-Got (get_loop ht.cap ht key 0) none_of (get_loop-Sound ht.cap 0 key v.some_slot)
  where
    none_of : get_loop ht.cap ht key 0 ≡ none → Absent ht key
    none_of e i within p k =
        let found : some (at ht i).item ≡ none =
          sym (probe-finds ht.cap 0 i key v within p k (omega arith) (omega arith)) ∙ e in
        absurd (ground (arith, found))
