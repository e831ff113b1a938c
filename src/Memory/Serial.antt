-- ===== src/Memory/Serial.antt =====
-- The byte streams of src/memory/serializer.c and src/memory/deserializer.c. `data` is the list
-- `mem`; what a read copies to `dest` is a list, and `none` is the result `false`.
use c_specx.Base.{
  ℕ, Bool, true, false, Option, none, some, List, ltb, if◌then◌else◌, take, slice, splice, add32,
}
pub mod Laws
pub mod RoundTrip

pub record Serializer : Type 0 where
  pub mem : List ℕ
  pub dlen : ℕ
  pub dcap : ℕ

unfoldable pub srlizr_create : List ℕ → ℕ → Serializer
srlizr_create mem dcap = record { mem = mem; dlen = 0; dcap = dcap }

unfoldable pub srlizr_write : Serializer → List ℕ → ℕ → Bool × Serializer
srlizr_write d src n =
    if ltb d.dcap (add32 d.dlen n)
    then (false, d)
    else (true, record d { mem = splice d.mem d.dlen (take n src); dlen = add32 d.dlen n })

pub record Deserializer : Type 0 where
  pub mem : List ℕ
  pub head : ℕ
  pub dlen : ℕ

unfoldable pub dsrlizr_create : List ℕ → ℕ → Deserializer
dsrlizr_create mem dlen = record { mem = mem; head = 0; dlen = dlen }

unfoldable pub dsrlizr_read : ℕ → Deserializer → Option (List ℕ) × Deserializer
dsrlizr_read n s =
    if ltb s.dlen (add32 s.head n)
    then (none, s)
    else (some (slice s.mem s.head n), record s { head = add32 s.head n })
