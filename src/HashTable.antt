-- ===== src/HashTable.antt =====
-- The chained hash table of src/ds/hash_table.c and include/c_specx/ds/hash_table.h: creation,
-- insertion, lookup, deletion, the choice of an entry and the walk. A chain of nodes is a list. A node
-- has `item`, which stands for the structure that it is embedded in. A `struct hnode **` into a chain is
-- the index of the chain and that in it. An `eq` of NULL is
-- `default_equals`. `htable_random` has its number as an argument.
use c_specx.Base.{
  ℕ, zero, suc, ◌+◌, ◌-◌, ◌%◌, Bool, true, false, ◌&&◌, Option, none, some, List, [], ◌∷◌, ◌++◌,
  ltb, ◌==◌, if◌then◌else◌, length, get_or, get_elem?, set, replicate, add32, sub32,
}
pub mod Inv
pub mod Lookup
pub mod Update
pub mod Walk
mod Tests

pub record HNode : Type 0 where
  pub hcode : ℕ
  pub item : ℕ

pub record HTable : Type 0 where
  pub cap : ℕ
  pub size : ℕ
  pub table : List (List HNode)

-- Where a `struct hnode **` points.
pub record From : Type 0 where
  pub pos : ℕ
  pub index : ℕ

unfoldable pub default_equals : HNode → HNode → Bool
default_equals left right = left.hcode == right.hcode

-- The flag tells if `i_malloc` has returned memory.
unfoldable pub htable_create : Bool → ℕ → Option HTable
htable_create false n = none
htable_create true n = some (record { cap = n; size = 0; table = replicate n [] })

unfoldable pub htable_insert : HTable → HNode → HTable
htable_insert t node =
    let pos = node.hcode % t.cap in
    record t { table = set t.table pos (node ∷ get_or t.table pos []); size = add32 t.size 1 }

-- The walk down a chain.
unfoldable pub find_from : (HNode → HNode → Bool) → HNode → List HNode → ℕ → Option ℕ
find_from eq key [] i = none
find_from eq key (cur ∷ rest) i =
    let later = find_from eq key rest (suc i) in
    if cur.hcode == key.hcode && eq cur key then some i else later

unfoldable pub in_chain : ℕ → Option ℕ → Option From
in_chain pos none = none
in_chain pos (some i) = some (record { pos = pos; index = i })

unfoldable pub htable_lookup : HTable → HNode → (HNode → HNode → Bool) → Option From
unfolding in_chain
htable_lookup t key eq =
    let pos = key.hcode % t.cap in in_chain pos (find_from eq key (get_or t.table pos []) 0)

-- The node that a `struct hnode **` points to.
abbrev pub node_at : List (List HNode) → From → Option HNode
node_at table from = get_elem? (get_or table from.pos []) from.index

-- `*from = node->next`
unfoldable pub unlink : List HNode → ℕ → List HNode
unlink [] i = []
unlink (node ∷ next) zero = next
unlink (node ∷ next) (suc i) = node ∷ unlink next i

unfoldable pub htable_delete : HTable → From → Option HNode × HTable
htable_delete t from = (
  node_at t.table from,
  record t {
    table = set t.table from.pos (unlink (get_or t.table from.pos []) from.index);
    size = sub32 t.size 1;
  },
)

unfoldable pub htable_size : HTable → ℕ
htable_size t = t.size

-- The entry of number `target` over the chains from `pos` on.
unfoldable pub pick : ℕ → List (List HNode) → ℕ → Option From
pick pos [] target = none
pick pos (chain ∷ chains) target =
    let later = pick (suc pos) chains (target - length chain) in
    if ltb target (length chain) then some (record { pos = pos; index = target }) else later

unfoldable pub htable_random : HTable → ℕ → Option From
unfolding pick
htable_random t target = pick 0 t.table target

-- The two loops of `htable_foreach`.
unfoldable pub walk_chain {ℓ} : {S : Type ℓ} → (HNode → S → S) → List HNode → S → S
walk_chain action [] ctx = ctx
walk_chain action (cur ∷ next) ctx = walk_chain action next (action cur ctx)

unfoldable pub walk {ℓ} : {S : Type ℓ} → (HNode → S → S) → List (List HNode) → S → S
unfolding walk_chain
walk action [] ctx = ctx
walk action (chain ∷ chains) ctx = walk action chains (walk_chain action chain ctx)

unfoldable pub htable_foreach {ℓ} : {S : Type ℓ} → HTable → (HNode → S → S) → S → S
unfolding walk
htable_foreach t action ctx = walk action t.table ctx
