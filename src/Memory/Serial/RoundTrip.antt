-- ===== src/Memory/Serial/RoundTrip.antt =====
-- What a run of writes lays down, a run of reads of the same lengths gives back.
use c_specx.Base.{
  ℕ, ◌+◌, ◌≤◌, ◌<◌, ◌≡◌, refl, sym, ap, ap₂, ◌∙◌, Bool, true, false, Option, none, some, List, [],
  ◌∷◌, ◌++◌, map, length, slice, take, drop, take-splice_end, u32_mod, add32_small, arith, le→ltb,
  append_assoc, append-nil, take-append-drop, drop-length-append, take-length-append, length-append,
  if◌then◌else◌,
}
use c_specx.Memory.Serial.{
  Serializer, srlizr_create, srlizr_write, Deserializer, dsrlizr_create, dsrlizr_read,
}
use c_specx.Memory.Serial.Laws.{IsValid, grown-IsValid, srlizr_write_fits}

abbrev pub joined : List (List ℕ) → List ℕ
joined [] = []
joined (c ∷ cs) = c ++ joined cs

-- A run of writes, each of a whole list; it stops where one fails.
unfoldable pub write_all : Serializer → List (List ℕ) → Bool × Serializer
write_all d [] = (true, d)
write_all d (c ∷ cs) =
    let (ok, d') = srlizr_write d c (length c) in
    let rest = write_all d' cs in if ok then rest else (false, d')

cons_read : Option (List ℕ) → Option (List (List ℕ)) → Option (List (List ℕ))
cons_read (some bytes) (some more) = some (bytes ∷ more)
cons_read _ _ = none

-- A run of reads of the given lengths.
unfoldable pub read_all : Deserializer → List ℕ → Option (List (List ℕ))
unfolding cons_read
read_all s [] = some []
read_all s (n ∷ ns) = let (out, s') = dsrlizr_read n s in cons_read out (read_all s' ns)

record Written (d : Serializer) (cs : List (List ℕ)) (r : Bool × Serializer) : Type 0 where
  ok : r.0 ≡ true
  dlen_eq : r.1.dlen ≡ d.dlen + length (joined cs)
  valid : IsValid r.1
  bytes : take r.1.dlen r.1.mem ≡ take d.dlen d.mem ++ joined cs

write_all-Written :
    (cs : List (List ℕ)) {d : Serializer}
    → IsValid d
    → d.dlen + length (joined cs) ≤ d.dcap
    → Written d cs (write_all d cs)
unfolding write_all
write_all-Written [] {d} v fits = record {
  ok = refl;
  dlen_eq = omega arith;
  valid = v;
  bytes = sym (append-nil (take d.dlen d.mem));
}
write_all-Written (c ∷ cs) {d} v fits =
    let here : d.dlen + length c ≤ d.dcap = omega (arith, length-append c (joined cs)) in
    let rest =
      write_all-Written cs (grown-IsValid c v here) (omega (arith, length-append c (joined cs))) in
    rw (srlizr_write_fits c v here) (record {
      ok = rest.ok;
      dlen_eq = omega (arith, rest.dlen_eq, length-append c (joined cs));
      valid = rest.valid;
      bytes =
          rest.bytes
          ∙ ap (λ t. t ++ joined cs) (take-splice_end d.mem d.dlen c (omega (arith, v.storage)))
          ∙ append_assoc (take d.dlen d.mem) c (joined cs);
    })

dsrlizr_read_fits :
    (mem : List ℕ) (head dlen n : ℕ)
    → head + n ≤ dlen
    → dlen < u32_mod
    → dsrlizr_read n (record { mem = mem; head = head; dlen = dlen })
      ≡ (some (slice mem head n), record { mem = mem; head = head + n; dlen = dlen })
unfolding dsrlizr_read
dsrlizr_read_fits mem head dlen n fits small =
    rw (add32_small head n (omega arith), le→ltb dlen (head + n) fits) refl

slice-append :
    (mem pre c post : List ℕ) → mem ≡ pre ++ (c ++ post) → slice mem (length pre) (length c) ≡ c
slice-append mem pre c post e =
    ap (λ m. slice m (length pre) (length c)) e
    ∙ ap (take (length c)) (drop-length-append pre (c ++ post) (length pre) refl)
    ∙ take-length-append c post (length c) refl

read_all_lem :
    (mem : List ℕ) (dlen : ℕ) (cs : List (List ℕ)) (pre post : List ℕ)
    → mem ≡ pre ++ (joined cs ++ post)
    → length pre + length (joined cs) ≤ dlen
    → dlen < u32_mod
    → read_all (record { mem = mem; head = length pre; dlen = dlen }) (map length cs) ≡ some cs
unfolding read_all cons_read
read_all_lem mem dlen [] pre post e fits small = refl
read_all_lem mem dlen (c ∷ cs) pre post e fits small =
    rw
      (dsrlizr_read_fits mem (length pre) dlen (length c)
        (omega (arith, length-append c (joined cs))) small)
      (ap₂ cons_read (ap some (slice-append mem pre c (joined cs ++ post) at_c)) (
        ap (λ (h : ℕ). read_all (record { mem = mem; head = h; dlen = dlen }) (map length cs))
          (sym (length-append pre c))
        ∙ read_all_lem mem dlen cs (pre ++ c) post
            (at_c ∙ sym (append_assoc pre c (joined cs ++ post)))
            (omega (arith, length-append pre c, length-append c (joined cs))) small))
  where
    at_c : mem ≡ pre ++ (c ++ (joined cs ++ post))
    at_c = e ∙ ap (λ t. pre ++ t) (append_assoc c (joined cs) post)

-- A run of writes to a new serializer, whose capacity is less than 2^32 and within its storage,
-- succeeds if the bytes fit in the capacity, and a deserializer over what was written reads back
-- the same pieces.
pub read_all-write_all :
    (mem : List ℕ) (dcap : ℕ) (cs : List (List ℕ))
    → dcap ≤ length mem
    → dcap < u32_mod
    → length (joined cs) ≤ dcap
    → let (ok, d) = write_all (srlizr_create mem dcap) cs in
      (ok ≡ true) × (read_all (dsrlizr_create d.mem d.dlen) (map length cs) ≡ some cs)
unfolding srlizr_create dsrlizr_create
read_all-write_all mem dcap cs storage small fits =
    let d : Serializer = record { mem = mem; dlen = 0; dcap = dcap } in
    let w =
      write_all-Written cs {d = d}
        (record { within = omega arith; small = small; storage = storage }) (omega arith) in
    let d' = (write_all d cs).1 in
    (
      w.ok,
      read_all_lem d'.mem d'.dlen cs [] (drop d'.dlen d'.mem)
          (sym (take-append-drop d'.dlen d'.mem) ∙ ap (λ t. t ++ drop d'.dlen d'.mem) w.bytes)
          (omega (arith, w.dlen_eq)) (omega (arith, w.valid.small, w.valid.within)),
    )
