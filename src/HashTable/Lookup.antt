-- ===== src/HashTable/Lookup.antt =====
-- What `htable_lookup` finds, and `htable_random`.
use c_specx.Base.{
  ℕ, zero, suc, ◌+◌, ◌%◌, ◌<◌, ◌≡◌, ◌≢◌, refl, sym, ap, ◌∙◌, inl, inr, Bool, true, false, ◌&&◌,
  Option, none, some, List, [], ◌∷◌, ◌++◌, ◌==◌, get_or, get_elem?, Bool-cases, arith,
}
use c_specx.HashTable.{HNode, HTable, From, find_from, in_chain, htable_lookup, node_at}
use c_specx.HashTable.Inv.{nodes, InChain, AllChains, IsValid}

-- No node of the list has the key's hash code and is equal to the key.
abbrev pub NoMatch : (HNode → HNode → Bool) → HNode → List HNode → Type 0
NoMatch eq key [] = Unit
NoMatch eq key (n ∷ ns) = ((n.hcode == key.hcode && eq n key) ≡ false) × NoMatch eq key ns

-- A node of the table that has the key's hash code and is equal to the key, or none where there is none.
pub data Lookup (eq : HNode → HNode → Bool) (key : HNode) (table : List (List HNode))
    : Option From → Type 0 where
  missing : NoMatch eq key (nodes table) → Lookup eq key table none
  found :
      (from : From) (n : HNode)
      → node_at table from ≡ some n
      → n.hcode ≡ key.hcode
      → eq n key ≡ true
      → Lookup eq key table (some from)

append-NoMatch :
    (eq : HNode → HNode → Bool) (key : HNode) (xs ys : List HNode)
    → NoMatch eq key xs
    → NoMatch eq key ys
    → NoMatch eq key (xs ++ ys)
append-NoMatch eq key [] ys v w = w
append-NoMatch eq key (x ∷ xs) ys v w = (v.0, append-NoMatch eq key xs ys v.1 w)

-- The nodes of another chain.
other_chain :
    (eq : HNode → HNode → Bool) (key : HNode) (cap pos : ℕ) (chain : List HNode)
    → InChain cap pos chain
    → key.hcode % cap ≢ pos
    → NoMatch eq key chain
other_chain eq key cap pos [] v ne = tt
other_chain eq key cap pos (n ∷ ns) v ne = (miss, other_chain eq key cap pos ns v.1 ne)
  where
    miss : (n.hcode == key.hcode && eq n key) ≡ false
    miss = elim (Bool-cases (n.hcode == key.hcode)) [
      | inl same ↦
          let e : n.hcode ≡ key.hcode = ground arith in
          absurd (ne (ap (λ (h : ℕ). h % cap) (sym e) ∙ v.0))
      | inr other ↦ rw other refl
    ]

other_chains :
    (eq : HNode → HNode → Bool) (key : HNode) (cap first : ℕ) (table : List (List HNode))
    → AllChains cap first table
    → key.hcode % cap < first
    → NoMatch eq key (nodes table)
other_chains eq key cap first [] v lt = tt
other_chains eq key cap first (chain ∷ chains) v lt =
    append-NoMatch eq key chain (nodes chains)
      (other_chain eq key cap first chain v.0 (λ e. omega arith))
      (other_chains eq key cap (suc first) chains v.1 (omega arith))

-- The chain of the key decides.
chain_decides :
    (eq : HNode → HNode → Bool) (key : HNode) (cap first k : ℕ) (table : List (List HNode))
    → AllChains cap first table
    → key.hcode % cap ≡ first + k
    → NoMatch eq key (get_or table k [])
    → NoMatch eq key (nodes table)
chain_decides eq key cap first k [] v e none_here = tt
chain_decides eq key cap first zero (chain ∷ chains) v e none_here =
    append-NoMatch eq key chain (nodes chains) none_here
      (other_chains eq key cap (suc first) chains v.1 (omega arith))
chain_decides eq key cap first (suc k) (chain ∷ chains) v e none_here =
    append-NoMatch eq key chain (nodes chains)
      (other_chain eq key cap first chain v.0 (λ e'. omega arith))
      (chain_decides eq key cap (suc first) k chains v.1 (omega arith) none_here)

-- The same of the walk down one chain.
data Found (eq : HNode → HNode → Bool) (key : HNode) (chain : List HNode) (i : ℕ)
    : Option ℕ → Type 0 where
  absent : NoMatch eq key chain → Found eq key chain i none
  present :
      (k j : ℕ) (n : HNode)
      → j ≡ i + k
      → get_elem? chain k ≡ some n
      → n.hcode ≡ key.hcode
      → eq n key ≡ true
      → Found eq key chain i (some j)

skip-Found :
    (eq : HNode → HNode → Bool) (key n : HNode) (chain : List HNode) (i : ℕ) (r : Option ℕ)
    → (n.hcode == key.hcode && eq n key) ≡ false
    → Found eq key chain (suc i) r
    → Found eq key (n ∷ chain) i r
skip-Found eq key n chain i _ miss (absent v) = absent (miss, v)
skip-Found eq key n chain i _ miss (present k j m e get h q) =
    present (suc k) j m (omega arith) get h q

find_from-Found :
    (eq : HNode → HNode → Bool) (key : HNode) (chain : List HNode) (i : ℕ)
    → Found eq key chain i (find_from eq key chain i)
unfolding find_from
find_from-Found eq key [] i = absent tt
find_from-Found eq key (n ∷ ns) i = elim (Bool-cases (n.hcode == key.hcode && eq n key)) [
  | inl hit ↦ rw hit (present 0 i n (omega arith) refl (ground arith) (ground arith))
  | inr miss ↦ rw miss (
      skip-Found eq key n ns i (find_from eq key ns (suc i)) miss
        (find_from-Found eq key ns (suc i)))
]

in_chain-Lookup :
    (eq : HNode → HNode → Bool) (key : HNode) {t : HTable} (r : Option ℕ)
    → IsValid t
    → Found eq key (get_or t.table (key.hcode % t.cap) []) 0 r
    → Lookup eq key t.table (in_chain (key.hcode % t.cap) r)
unfolding in_chain
in_chain-Lookup eq key {t} _ v (absent w) =
    missing (chain_decides eq key t.cap 0 (key.hcode % t.cap) t.table v.hashed (omega arith) w)
in_chain-Lookup eq key {t} _ v (present k j n e get h q) =
    found (record { pos = key.hcode % t.cap; index = j }) n
      (ap (λ (m : ℕ). get_elem? (get_or t.table (key.hcode % t.cap) []) m) {x = j} {y = k}
          (omega arith)
        ∙ get)
      h q

-- `htable_lookup` in a valid table returns where a node stands that has the key's hash code and is
-- equal to the key by `eq`, and NULL only where no node of the whole table is such.
pub htable_lookup_lem :
    (eq : HNode → HNode → Bool) (key : HNode) {t : HTable}
    → IsValid t
    → Lookup eq key t.table (htable_lookup t key eq)
unfolding htable_lookup
htable_lookup_lem eq key {t} v =
    in_chain-Lookup eq key (find_from eq key (get_or t.table (key.hcode % t.cap) []) 0) v
      (find_from-Found eq key (get_or t.table (key.hcode % t.cap) []) 0)
