-- ===== src/HashTable/Inv.antt =====
-- What a valid table is: its chains, and the nodes that it holds.
use c_specx.Base.{
  ℕ, zero, suc, ◌+◌, ◌%◌, ◌<◌, ◌≡◌, refl, sym, ap, ◌∙◌, subst, List, [], ◌∷◌, ◌++◌, length, get_or,
  set, append_assoc, u32_mod, arith,
}
use c_specx.HashTable.{HNode, HTable}

-- The nodes of the chains, in order.
abbrev pub nodes : List (List HNode) → List HNode
nodes [] = []
nodes (chain ∷ chains) = chain ++ nodes chains

-- The nodes whose hash codes belong to chain `pos`.
abbrev pub InChain : ℕ → ℕ → List HNode → Type 0
InChain cap pos [] = Unit
InChain cap pos (n ∷ ns) = (n.hcode % cap ≡ pos) × InChain cap pos ns

abbrev pub AllChains : ℕ → ℕ → List (List HNode) → Type 0
AllChains cap pos [] = Unit
AllChains cap pos (chain ∷ chains) = InChain cap pos chain × AllChains cap (suc pos) chains

pub record IsValid (t : HTable) : Type 0 where
  pub some_chain : 0 < t.cap
  pub chains : length t.table ≡ t.cap
  pub hashed : AllChains t.cap 0 t.table
  pub counted : t.size ≡ length (nodes t.table)
  pub small : length (nodes t.table) < u32_mod

-- The nodes around one chain, whatever is in it.
pub record Around (table : List (List HNode)) (pos : ℕ) : Type 0 where
  pub before : List HNode
  pub after : List HNode
  pub now : nodes table ≡ before ++ (get_or table pos [] ++ after)
  pub then_eq : (chain : List HNode) → nodes (set table pos chain) ≡ before ++ (chain ++ after)

pub around : (table : List (List HNode)) (pos : ℕ) → pos < length table → Around table pos
around [] pos h = absurd (omega arith)
around (chain ∷ chains) zero h = record {
  before = [];
  after = nodes chains;
  now = refl;
  then_eq = λ c. refl;
}
around (chain ∷ chains) (suc pos) h =
    let rest = around chains pos (omega arith) in
    record {
      before = chain ++ rest.before;
      after = rest.after;
      now =
          ap (λ t. chain ++ t) rest.now
          ∙ sym (append_assoc chain rest.before (get_or chains pos [] ++ rest.after));
      then_eq = λ c.
          ap (λ t. chain ++ t) (rest.then_eq c)
          ∙ sym (append_assoc chain rest.before (c ++ rest.after));
    }

pub chain-InChain :
    (cap first pos : ℕ) (table : List (List HNode))
    → AllChains cap first table
    → InChain cap (first + pos) (get_or table pos [])
chain-InChain cap first pos [] v = tt
chain-InChain cap first zero (chain ∷ chains) v =
    subst (λ (k : ℕ). InChain cap k chain) {x = first} {y = first + 0} (omega arith) v.0
chain-InChain cap first (suc pos) (chain ∷ chains) v =
    subst (λ (k : ℕ). InChain cap k (get_or chains pos [])) {x = suc first + pos}
      {y = first + suc pos} (omega arith) (chain-InChain cap (suc first) pos chains v.1)

pub set-AllChains :
    (cap first pos : ℕ) (table : List (List HNode)) (chain : List HNode)
    → AllChains cap first table
    → InChain cap (first + pos) chain
    → AllChains cap first (set table pos chain)
set-AllChains cap first pos [] chain v w = tt
set-AllChains cap first zero (c ∷ cs) chain v w =
    (subst (λ (k : ℕ). InChain cap k chain) {x = first + 0} {y = first} (omega arith) w, v.1)
set-AllChains cap first (suc pos) (c ∷ cs) chain v w = (
  v.0,
  set-AllChains cap (suc first) pos cs chain v.1 (
      subst (λ (k : ℕ). InChain cap k chain) {x = first + suc pos} {y = suc first + pos}
        (omega arith) w),
)
