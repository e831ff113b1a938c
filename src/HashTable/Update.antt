-- ===== src/HashTable/Update.antt =====
-- What `htable_insert` and `htable_delete` do to the nodes of a table.
use native.Mathlib.Nat.{mod-lt}
use mathlib.Core.Option.{some-injective}
use c_specx.Base.{
  ℕ, zero, suc, ◌+◌, ◌%◌, ◌≤◌, ◌<◌, ◌≡◌, refl, sym, ap, subst, ◌∙◌, inl, inr, Bool, true, some,
  List, [], ◌∷◌, ◌++◌, ◌==◌, length, get_or, get_elem?, set, get_or-set_self, length-set,
  length-append, append_assoc, add32_small, sub32_small, u32_mod, le_or_lt, arith,
}
use c_specx.HashTable.{
  HNode, HTable, From, find_from, in_chain, htable_lookup, node_at, htable_insert, unlink,
  htable_delete,
}
use c_specx.HashTable.Inv.{
  nodes, InChain, AllChains, IsValid, Around, around, chain-InChain, set-AllChains,
}

-- The nodes of `more` are those of `less` and `n`, the others in the same order.
pub record OneMore (n : HNode) (more less : List HNode) : Type 0 where
  pub before : List HNode
  pub after : List HNode
  pub more_eq : more ≡ before ++ (n ∷ after)
  pub less_eq : less ≡ before ++ after

unlink-OneMore :
    (chain : List HNode) (i : ℕ) (n : HNode)
    → get_elem? chain i ≡ some n
    → OneMore n chain (unlink chain i)
unfolding unlink
unlink-OneMore [] i n h = absurd (ground arith)
unlink-OneMore (x ∷ xs) zero n h = record {
  before = [];
  after = xs;
  more_eq = ap (λ t. t ∷ xs) (some-injective x n h);
  less_eq = refl;
}
unlink-OneMore (x ∷ xs) (suc i) n h =
    let rest = unlink-OneMore xs i n h in
    record {
      before = x ∷ rest.before;
      after = rest.after;
      more_eq = ap (λ t. x ∷ t) rest.more_eq;
      less_eq = ap (λ t. x ∷ t) rest.less_eq;
    }

unlink-InChain :
    (cap pos : ℕ) (chain : List HNode) (i : ℕ)
    → InChain cap pos chain
    → InChain cap pos (unlink chain i)
unfolding unlink
unlink-InChain cap pos [] i v = tt
unlink-InChain cap pos (x ∷ xs) zero v = v.1
unlink-InChain cap pos (x ∷ xs) (suc i) v = (v.0, unlink-InChain cap pos xs i v.1)

-- One node more or less in a chain is one in the table.
in_table :
    (table : List (List HNode)) (pos : ℕ) (n : HNode) (more less : List HNode)
    (a : Around table pos)
    → OneMore n more less
    → OneMore n (a.before ++ (more ++ a.after)) (a.before ++ (less ++ a.after))
in_table table pos n more less a o = record {
  before = a.before ++ o.before;
  after = o.after ++ a.after;
  more_eq =
      ap (λ t. a.before ++ (t ++ a.after)) o.more_eq
      ∙ ap (λ t. a.before ++ t) (append_assoc o.before (n ∷ o.after) a.after)
      ∙ sym (append_assoc a.before o.before (n ∷ (o.after ++ a.after)));
  less_eq =
      ap (λ t. a.before ++ (t ++ a.after)) o.less_eq
      ∙ ap (λ t. a.before ++ t) (append_assoc o.before o.after a.after)
      ∙ sym (append_assoc a.before o.before (o.after ++ a.after));
}

length-OneMore :
    {n : HNode} {more less : List HNode} → OneMore n more less → length more ≡ suc (length less)
length-OneMore {n} o = omega (
  arith,
  ap length o.more_eq,
  ap length o.less_eq,
  length-append o.before (n ∷ o.after),
  length-append o.before o.after,
)

bucket-InChain : (pos : ℕ) {t : HTable} → IsValid t → InChain t.cap pos (get_or t.table pos [])
bucket-InChain pos {t} v =
    subst (λ (k : ℕ). InChain t.cap k (get_or t.table pos [])) {x = 0 + pos} {y = pos} (omega arith)
      (chain-InChain t.cap 0 pos t.table v.hashed)

set_bucket-AllChains :
    (pos : ℕ) (chain : List HNode) {t : HTable}
    → IsValid t
    → InChain t.cap pos chain
    → AllChains t.cap 0 (set t.table pos chain)
set_bucket-AllChains pos chain {t} v w =
    set-AllChains t.cap 0 pos t.table chain v.hashed
      (subst (λ (k : ℕ). InChain t.cap k chain) {x = pos} {y = 0 + pos} (omega arith) w)

-- `htable_insert` into a valid table of fewer than 2^32 - 1 nodes leaves a valid table with the node and
-- those of before, in the same order.
pub htable_insert_lem :
    (node : HNode) {t : HTable}
    → IsValid t
    → length (nodes t.table) + 1 < u32_mod
    → let t' = htable_insert t node in IsValid t' × OneMore node (nodes t'.table) (nodes t.table)
unfolding htable_insert
htable_insert_lem node {t} v small =
    let pos = node.hcode % t.cap in
    let here : pos < length t.table = omega (arith, mod-lt node.hcode v.some_chain, v.chains) in
    let a = around t.table pos here in
    let chain = get_or t.table pos [] in
    let o : OneMore node (node ∷ chain) chain = record {
      before = [];
      after = chain;
      more_eq = refl;
      less_eq = refl;
    } in
    let one : OneMore node (nodes (set t.table pos (node ∷ chain))) (nodes t.table) =
      subst (λ xs. OneMore node (nodes (set t.table pos (node ∷ chain))) xs) (sym a.now)
        (subst (λ xs. OneMore node xs (a.before ++ (chain ++ a.after)))
          (sym (a.then_eq (node ∷ chain))) (in_table t.table pos node (node ∷ chain) chain a o)) in
    let count = length-OneMore one in
    (
      record {
        some_chain = v.some_chain;
        chains = length-set t.table pos (node ∷ chain) ∙ v.chains;
        hashed = set_bucket-AllChains pos (node ∷ chain) v (omega arith, bucket-InChain pos v);
        counted = add32_small t.size 1 (omega (arith, v.counted)) ∙ omega (arith, v.counted, count);
        small = omega (arith, count);
      },
      one,
    )

get_or_past : (table : List (List HNode)) (pos : ℕ) → length table ≤ pos → get_or table pos [] ≡ []
get_or_past [] pos h = refl
get_or_past (c ∷ cs) zero h = absurd (omega arith)
get_or_past (c ∷ cs) (suc pos) h = get_or_past cs pos (omega arith)

within :
    (table : List (List HNode)) (from : From) (n : HNode)
    → node_at table from ≡ some n
    → from.pos < length table
within table from n h = elim (le_or_lt (length table) from.pos) [
  | inl past ↦
      let e : get_elem? [] from.index ≡ some n =
        ap (λ c. get_elem? c from.index) (sym (get_or_past table from.pos past)) ∙ h in
      absurd (ground arith)
  | inr here ↦ here
]

-- `htable_delete` of a place where a valid table has a node returns the node, and leaves a valid table
-- with the others, in the same order.
pub htable_delete_lem :
    (from : From) (node : HNode) {t : HTable}
    → IsValid t
    → node_at t.table from ≡ some node
    → let (deleted, t') = htable_delete t from in
      (deleted ≡ some node) × IsValid t' × OneMore node (nodes t.table) (nodes t'.table)
unfolding htable_delete
htable_delete_lem from node {t} v get =
    let here = within t.table from node get in
    let a = around t.table from.pos here in
    let chain = get_or t.table from.pos [] in
    let less = unlink chain from.index in
    let o = unlink-OneMore chain from.index node get in
    let one : OneMore node (nodes t.table) (nodes (set t.table from.pos less)) =
      subst (λ xs. OneMore node xs (nodes (set t.table from.pos less))) (sym a.now)
        (subst (λ xs. OneMore node (a.before ++ (chain ++ a.after)) xs) (sym (a.then_eq less))
          (in_table t.table from.pos node chain less a o)) in
    let count = length-OneMore one in
    (
      get,
      record {
        some_chain = v.some_chain;
        chains = length-set t.table from.pos less ∙ v.chains;
        hashed =
            set_bucket-AllChains from.pos less v
              (unlink-InChain t.cap from.pos chain from.index (bucket-InChain from.pos v));
        counted =
            sub32_small t.size 1 (omega (arith, v.counted, count))
              (omega (arith, v.counted, v.small))
            ∙ omega (arith, v.counted, count);
        small = omega (arith, count, v.small);
      },
      one,
    )

find_from-first :
    (eq : HNode → HNode → Bool) (node key : HNode) (chain : List HNode)
    → node.hcode ≡ key.hcode
    → eq node key ≡ true
    → find_from eq key (node ∷ chain) 0 ≡ some 0
unfolding find_from
find_from-first eq node key chain h e =
    let same : (node.hcode == key.hcode) ≡ true = ground arith in rw (same, e) refl

-- After `htable_insert` of a node into a valid table, `htable_lookup` of a key with the node's hash code
-- that is equal to the node returns where this node stands, whatever nodes the table has.
pub htable_lookup-htable_insert :
    (eq : HNode → HNode → Bool) (node key : HNode) {t : HTable}
    → IsValid t
    → node.hcode ≡ key.hcode
    → eq node key ≡ true
    → (from : From) × (htable_lookup (htable_insert t node) key eq ≡ some from)
      × (node_at (htable_insert t node).table from ≡ some node)
unfolding htable_lookup htable_insert in_chain
htable_lookup-htable_insert eq node key {t} v h e =
    let pos = node.hcode % t.cap in
    let chain = get_or t.table pos [] in
    let table = set t.table pos (node ∷ chain) in
    let self : get_or table pos [] ≡ node ∷ chain =
      get_or-set_self t.table pos (node ∷ chain) []
        (omega (arith, mod-lt node.hcode v.some_chain, v.chains)) in
    (
      record { pos = pos; index = 0 },
      ap (λ (k : ℕ). in_chain (k % t.cap) (find_from eq key (get_or table (k % t.cap) []) 0))
            (sym h)
          ∙ ap (λ c. in_chain pos (find_from eq key c 0)) self
          ∙ ap (in_chain pos) (find_from-first eq node key chain h e),
      ap (λ c. get_elem? c 0) self,
    )
