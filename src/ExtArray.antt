-- ===== src/ExtArray.antt =====
-- The extendable array of src/ds/ext_array.c and include/c_specx/ds/ext_array.h: its creation, growth,
-- insertion, and its reads and writes by stride. The allocation is a list of bytes, `mem`. The
-- parameter `realloc m old new` is `i_realloc_right`, and `malloc n` is `i_malloc (n, 1)`; `none` is NULL.
use c_specx.Base.{
  ℕ, zero, suc, ◌-◌, ◌==◌, ◌&&◌, ◌++◌, Bool, true, false, Option, none, some, List, [], ◌∷◌, ltb,
  if◌then◌else◌, take, drop, slice, splice, add32, sub32, mul32, u32_mod, ◌%◌,
}
use c_specx.Stride.{Stride}
pub mod Insert
pub mod Strided
pub mod Remove
pub mod Agree
mod Tests

pub record ExtArray : Type 0 where
  pub mem : List ℕ
  pub len : ℕ
  pub cap : ℕ

unfoldable pub ext_array_create : ExtArray
ext_array_create = record { mem = []; len = 0; cap = 0 }

-- What `ext_array_reserve` does with the answer of `i_realloc_right`; the flag tells of success.
unfoldable pub grow_with : Option (List ℕ) → ExtArray → ℕ → Bool × ExtArray
grow_with none r cap = (false, r)
grow_with (some mem) r cap = (true, record r { mem = mem; cap = mul32 cap 2 })

unfoldable pub ext_array_reserve :
    (List ℕ → ℕ → ℕ → Option (List ℕ)) → ExtArray → ℕ → Bool × ExtArray
unfolding grow_with
ext_array_reserve realloc r cap =
    if ltb r.cap cap then grow_with (realloc r.mem r.cap (mul32 cap 2)) r cap else (true, r)

-- The insertion before a tail of `tlen` bytes, by way of a copy of the tail.
unfoldable pub shift : Option (List ℕ) → ExtArray → ℕ → List ℕ → ℕ → ℕ → Bool × ExtArray
shift none r ofst src slen tlen = (false, r)
shift (some tail) r ofst src slen tlen =
    let saved = splice tail 0 (slice r.mem ofst tlen) in
    (
      true,
      record r {
        mem = splice (splice r.mem ofst (take slen src)) (add32 ofst slen) (take tlen saved);
        len = add32 r.len slen;
      },
    )

-- `ext_array_insert` behind its call of `ext_array_reserve`.
unfoldable pub insert_in :
    (ℕ → Option (List ℕ)) → Bool × ExtArray → ℕ → List ℕ → ℕ → Bool × ExtArray
insert_in malloc (false, r) ofst src slen = (false, r)
insert_in malloc (true, r) ofst src slen =
    let tlen = sub32 r.len ofst in
    if ltb 0 tlen
    then shift (malloc tlen) r ofst src slen tlen
    else (true, record r { mem = splice r.mem ofst (take slen src); len = add32 r.len slen })

unfoldable pub ext_array_insert :
    (List ℕ → ℕ → ℕ → Option (List ℕ))
    → (ℕ → Option (List ℕ))
    → ExtArray
    → ℕ
    → List ℕ
    → ℕ
    → Bool × ExtArray
unfolding insert_in
ext_array_insert realloc malloc r ofst src slen =
    insert_in malloc (ext_array_reserve realloc r (add32 r.len slen)) ofst src slen

-- The loops of `ext_array_read` and `ext_array_write`, on fuel: `none` where it runs out. The counter
-- `total` is a uint32_t, `nelems` a uint64_t. The callers give `nelems` rounds. A loop of more rounds is
-- one whose counter has wrapped, which needs 2^32 rounds; so many rounds have met an index twice, and
-- the loop never ends.
unfoldable pub with_element : List ℕ → Option (List (List ℕ)) → Option (List (List ℕ))
with_element e none = none
with_element e (some es) = some (e ∷ es)

-- The elements read.
unfoldable pub read_loop : ℕ → ExtArray → ℕ → ℕ → ℕ → ℕ → ℕ → Option (List (List ℕ))
read_loop zero r size step nelems total bidx = if ltb total nelems then none else some []
read_loop (suc fuel) r size step nelems total bidx =
    let rest = read_loop fuel r size step nelems (add32 total 1) (add32 bidx (mul32 step size)) in
    if ltb total nelems
    then (if ltb r.len (add32 bidx size)
        then some []
        else with_element (slice r.mem bidx size) rest)
    else some []

unfoldable pub ext_array_read : ExtArray → Stride → ℕ → Option (List (List ℕ))
ext_array_read r str size =
    read_loop str.nelems r size str.stride str.nelems 0 (mul32 str.start size)

-- The number of elements written and the array.
unfoldable pub write_loop : ℕ → ExtArray → ℕ → ℕ → ℕ → ℕ → ℕ → List ℕ → Option (ℕ × ExtArray)
write_loop zero r size step nelems total bidx src =
    if ltb total nelems then none else some (total, r)
write_loop (suc fuel) r size step nelems total bidx src =
    let next = record r { mem = splice r.mem bidx (take size src) } in
    let rest =
      write_loop fuel next size step nelems (add32 total 1) (add32 bidx (mul32 step size))
        (drop size src) in
    if ltb total nelems
    then (if ltb r.len (add32 bidx size) then some (total, r) else rest)
    else some (total, r)

unfoldable pub ext_array_write : ExtArray → Stride → ℕ → List ℕ → Option (ℕ × ExtArray)
ext_array_write r str size src =
    write_loop str.nelems r size str.stride str.nelems 0 (mul32 str.start size) src

unfoldable pub ext_array_get_len : ExtArray → ℕ
ext_array_get_len r = r.len

-- The loop of `ext_array_remove`: the bytes that go to `dest`, their number of elements, the bytes of
-- the array and `wpos`. A round moves `rpos`, so that `r->len` rounds are enough where the array holds
-- whole elements of a byte at least; over elements of no bytes the loop does not end.
pub record Removal : Type 0 where
  pub out : List ℕ
  pub count : ℕ
  pub mem : List ℕ
  pub wpos : ℕ

unfoldable pub with_out : List ℕ → Removal → Removal
with_out bytes r = record r { out = bytes ++ r.out; count = suc r.count }

-- The `memmove` of an element to its new place.
unfoldable pub move_down : List ℕ → ℕ → ℕ → ℕ → List ℕ
move_down mem size wpos rpos =
    if wpos == rpos then mem else splice mem (mul32 wpos size) (slice mem (mul32 rpos size) size)

unfoldable pub remove_loop : ℕ → ℕ → ℕ → ℕ → List ℕ → ℕ → ℕ → ℕ → ℕ → Removal
remove_loop zero len size step mem wpos rpos left next = record {
  out = [];
  count = 0;
  mem = mem;
  wpos = wpos;
}
remove_loop (suc fuel) len size step mem wpos rpos left next =
    let removed = remove_loop fuel len size step mem wpos (suc rpos) (left - 1) (add32 next step) in
    let kept =
      remove_loop fuel len size step (move_down mem size wpos rpos) (suc wpos) (suc rpos) left
        next in
    if ltb (mul32 rpos size) len
    then (if ltb 0 left && rpos == next
        then with_out (slice mem (mul32 rpos size) size) removed
        else kept)
    else record { out = []; count = 0; mem = mem; wpos = wpos }

-- `ext_array_remove`, where `next_remove` is a uint32_t: the number of elements, their bytes and the array.
unfoldable pub ext_array_remove : ExtArray → Stride → ℕ → ℕ × List ℕ × ExtArray
ext_array_remove r str size =
    let next = str.start % u32_mod in
    let done = remove_loop r.len r.len size str.stride r.mem 0 0 str.nelems next in
    (done.count, done.out, record r { mem = done.mem; len = mul32 done.wpos size })
