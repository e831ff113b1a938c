-- ===== src/HashTable/Walk.antt =====
-- The walk of `htable_foreach` and the choice of `htable_random`.
use c_specx.Base.{
  ℕ, zero, suc, ◌+◌, ◌-◌, ◌<◌, ◌≡◌, refl, sym, ap, ◌∙◌, inl, inr, Option, some, List, [], ◌∷◌, ◌++◌,
  length, get_or, get_elem?, le_or_lt, lt→ltb, le→ltb, length-append, arith, ◌≤◌,
}
use c_specx.HashTable.{
  HNode, HTable, From, node_at, walk, walk_chain, htable_foreach, pick, htable_random,
}
use c_specx.HashTable.Inv.{nodes}

get-append_left :
    (xs ys : List HNode) (i : ℕ) → i < length xs → get_elem? (xs ++ ys) i ≡ get_elem? xs i
get-append_left [] ys i h = absurd (omega arith)
get-append_left (x ∷ xs) ys zero h = refl
get-append_left (x ∷ xs) ys (suc i) h = get-append_left xs ys i (omega arith)

get-append_right :
    (xs ys : List HNode) (i : ℕ)
    → length xs ≤ i
    → get_elem? (xs ++ ys) i ≡ get_elem? ys (i - length xs)
get-append_right [] ys i h = ap (λ (k : ℕ). get_elem? ys k) {x = i} {y = i - 0} (omega arith)
get-append_right (x ∷ xs) ys zero h = absurd (omega arith)
get-append_right (x ∷ xs) ys (suc i) h =
    get-append_right xs ys i (omega arith)
    ∙ ap (λ (k : ℕ). get_elem? ys k) {x = i - length xs} {y = suc i - suc (length xs)} (omega arith)

record IsPick (first : ℕ) (table : List (List HNode)) (target : ℕ) (r : Option From) : Type 0 where
  from : From
  index : ℕ
  eq : r ≡ some from
  pos_eq : from.pos ≡ first + index
  node_eq : get_elem? (get_or table index []) from.index ≡ get_elem? (nodes table) target

pick-IsPick :
    (first : ℕ) (table : List (List HNode)) (target : ℕ)
    → target < length (nodes table)
    → IsPick first table target (pick first table target)
unfolding pick
pick-IsPick first [] target h = absurd (omega arith)
pick-IsPick first (chain ∷ chains) target h = elim (le_or_lt (length chain) target) [
  | inl past ↦
      let rest =
        pick-IsPick (suc first) chains (target - length chain)
          (omega (arith, length-append chain (nodes chains))) in
      rw (le→ltb target (length chain) past) (record {
        from = rest.from;
        index = suc rest.index;
        eq = rest.eq;
        pos_eq = omega (arith, rest.pos_eq);
        node_eq = rest.node_eq ∙ sym (get-append_right chain (nodes chains) target past);
      })
  | inr here ↦ rw (lt→ltb target (length chain) here) (record {
    from = record { pos = first; index = target };
    index = 0;
    eq = refl;
    pos_eq = omega arith;
    node_eq = sym (get-append_left chain (nodes chains) target here);
  })
]

-- `htable_random` with a number less than that of the nodes returns where the node of this number
-- stands, in the order of the chains: every node has one number and can be chosen.
pub htable_random_lem :
    (t : HTable) (target : ℕ)
    → target < length (nodes t.table)
    → (from : From) × (htable_random t target ≡ some from)
      × (node_at t.table from ≡ get_elem? (nodes t.table) target)
unfolding htable_random
htable_random_lem t target h =
    let p = pick-IsPick 0 t.table target h in
    (
      p.from,
      p.eq,
      ap (λ (k : ℕ). get_elem? (get_or t.table k []) p.from.index) {x = p.from.pos} {y = p.index}
            (omega (arith, p.pos_eq))
          ∙ p.node_eq,
    )

walk_chain-append :
    {S : Type 0} (action : HNode → S → S) (xs ys : List HNode) (ctx : S)
    → walk_chain action (xs ++ ys) ctx ≡ walk_chain action ys (walk_chain action xs ctx)
unfolding walk_chain
walk_chain-append action [] ys ctx = refl
walk_chain-append action (x ∷ xs) ys ctx = walk_chain-append action xs ys (action x ctx)

walk-nodes :
    {S : Type 0} (action : HNode → S → S) (table : List (List HNode)) (ctx : S)
    → walk action table ctx ≡ walk_chain action (nodes table) ctx
unfolding walk walk_chain
walk-nodes action [] ctx = refl
walk-nodes action (chain ∷ chains) ctx =
    walk-nodes action chains (walk_chain action chain ctx)
    ∙ sym (walk_chain-append action chain (nodes chains) ctx)

-- `htable_foreach` applies the action to each node of the table once, in the order of the chains.
pub htable_foreach_lem :
    {S : Type 0} (t : HTable) (action : HNode → S → S) (ctx : S)
    → htable_foreach t action ctx ≡ walk_chain action (nodes t.table) ctx
unfolding htable_foreach
htable_foreach_lem t action ctx = walk-nodes action t.table ctx
