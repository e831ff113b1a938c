-- ===== src/CBuffer/Tests.antt =====
-- Runs of the buffer on small inputs, and the theorems at inputs that meet their hypotheses.
use c_specx.Base.{
  ℕ, ◌+◌, ◌*◌, ◌/◌, ◌≤◌, ◌<◌, min, ◌≡◌, refl, ◌≢◌, ◌↔◌, ◌⊎◌, inl, Bool, true, false, none, some,
  List, [], ◌∷◌, ◌++◌, length, take, drop, slice, splice, sub32, add32, mul32, length-take, arith,
  ◌-◌,
}
use c_specx.CBuffer.{
  read_loop, read_next, read_step, write_loop, write_next, write_step, advance, CBuffer, create,
  create_with, len, isempty, avail, get_next_data_bytes, get_next_avail_bytes, fakewrite, fakeread,
  read, copy, write,
}
use c_specx.CBuffer.Window.{window}
use c_specx.CBuffer.Inv.{IsValid, contents}
use c_specx.CBuffer.Read.{read_lem, copy_lem, Took}
use c_specx.CBuffer.Write.{write_lem}
use c_specx.CBuffer.Cursor.{
  create-IsValid, create_with-IsValid, avail-add-len, fakewrite_lem, fakeread_lem,
  get_next_data_bytes_lem, get_next_avail_bytes_lem,
}
use c_specx.CBuffer.Element.{
  load, store, get_no_check, get, peek_back, peek_front, push_back, push_front, pop_back, pop_front,
}
use c_specx.CBuffer.Element.Push.{push_back_lem, push_front_lem}
use c_specx.CBuffer.Element.Pop.{
  pop_back-push_back, pop_front_lem, pop_front_short, pop_front-push_front,
}
use c_specx.CBuffer.Element.Get.{get_lem, get_out_of_range, peek_lem}
use c_specx.CBuffer.Transfer.{transfer_count, first_chunk, cbuffer_move, cbuffer_copy}
use c_specx.CBuffer.Transfer.Pieces.{sendable}
use c_specx.CBuffer.Transfer.Laws.{cbuffer_move_lem, cbuffer_copy_lem}
use c_specx.CBuffer.FileIo.{
  Reply, as_result, read_from_file, write_to_file, write_to_file_1, write_to_file_2,
}
use c_specx.CBuffer.FileIo.ReadFrom.{Outcome, read_from_file_lem}
use c_specx.CBuffer.FileIo.WriteTo.{write_to_file_lem}

-- The bytes 7, 8, 9 round the end of an array of four.
abbrev wrapped : CBuffer
wrapped = record { buf = 9 ∷ 0 ∷ 7 ∷ 8 ∷ []; cap = 4; head = 1; tail = 2; isfull = false }

abbrev full : CBuffer
full = record { buf = 3 ∷ 4 ∷ 1 ∷ 2 ∷ []; cap = 4; head = 2; tail = 2; isfull = true }

abbrev fresh : CBuffer
fresh = record { buf = 0 ∷ 0 ∷ 0 ∷ 0 ∷ []; cap = 4; head = 0; tail = 0; isfull = false }

wrapped-IsValid : IsValid wrapped
wrapped-IsValid = ground arith

full-IsValid : IsValid full
full-IsValid = ground arith

fresh-IsValid : IsValid fresh
fresh-IsValid = ground arith

contents-wrapped : contents wrapped ≡ 7 ∷ 8 ∷ 9 ∷ []
unfolding len window sub32
contents-wrapped = refl

-- Two elements of two bytes do not fit; two of one byte do not either, so one is taken.
write_runs :
    ((write (5 ∷ 6 ∷ 7 ∷ 8 ∷ []) 2 2 wrapped).0 ≡ 0)
    × (write (5 ∷ 6 ∷ []) 1 2 wrapped ≡ (1, record full { buf = 9 ∷ 5 ∷ 7 ∷ 8 ∷ [] }))
unfolding write write_loop write_next write_step len sub32 mul32 advance add32 splice
write_runs = (refl, refl)

read_runs : read 1 9 wrapped ≡ (3, 7 ∷ 8 ∷ 9 ∷ [], record wrapped { tail = 1 })
unfolding read read_loop read_next read_step len sub32 mul32 advance add32
read_runs = refl

push_front_runs :
    (push_front (6 ∷ []) 1 wrapped).1
    ≡ record wrapped { buf = 9 ∷ 6 ∷ 7 ∷ 8 ∷ []; tail = 1; isfull = true }
unfolding push_front store avail len sub32 add32 splice
push_front_runs = refl

get_runs : get 2 1 full ≡ some (3 ∷ 4 ∷ [])
unfolding get get_no_check load advance add32 sub32 mul32
get_runs = refl

-- A move takes the bytes 1 to 4 out of the full ring and stops when the other is full.
move_runs : (cbuffer_move wrapped 1 9 full).0 ≡ 1
unfolding cbuffer_move transfer_count first_chunk len avail sub32 mul32
move_runs = refl

abbrev file : ℕ → Reply
file n = record { ok = true; bytes = take n (1 ∷ 2 ∷ 3 ∷ []) }

abbrev accepting : List ℕ → Bool
accepting bytes = true

write_to_file_runs : write_to_file accepting wrapped 2 ≡ (some 2, record wrapped { tail = 0 })
unfolding write_to_file write_to_file_1 write_to_file_2 as_result len sub32 advance add32
write_to_file_runs = refl

-- The theorems at these inputs.
create-IsValid_example : IsValid (create (0 ∷ 0 ∷ []) 2) × (contents (create (0 ∷ 0 ∷ []) 2) ≡ [])
create-IsValid_example = create-IsValid (0 ∷ 0 ∷ []) 2 (omega arith) (omega arith) (omega arith)

create_with-IsValid_example :
    IsValid (create_with (1 ∷ 2 ∷ []) 2 2) × (contents (create_with (1 ∷ 2 ∷ []) 2 2) ≡ 1 ∷ 2 ∷ [])
create_with-IsValid_example =
    create_with-IsValid (1 ∷ 2 ∷ []) 2 2 (omega arith) (omega arith) (omega arith) (omega arith)

avail-add-len_example :
    (avail wrapped + len wrapped ≡ 4)
    × ((isempty wrapped ≡ true) ↔ (len wrapped ≡ 0))
    × (len wrapped ≤ 4)
avail-add-len_example = avail-add-len wrapped-IsValid

write_lem_example :
    let (k, b') = write (5 ∷ 6 ∷ []) 1 2 wrapped in
    (k ≡ min 2 ((4 - len wrapped) / 1))
    × (b'.cap ≡ 4)
    × IsValid b'
    × (contents b' ≡ contents wrapped ++ take (k * 1) (5 ∷ 6 ∷ []))
write_lem_example = write_lem (5 ∷ 6 ∷ []) 1 2 wrapped-IsValid (omega arith)

read_lem_example :
    let (k, out, b') = read 1 2 wrapped in
    (k ≡ min 2 (len wrapped / 1)) × (length out ≡ k * 1) × Took wrapped out b'
read_lem_example = read_lem 1 2 wrapped-IsValid

copy_lem_example :
    let (k, out) = copy 1 2 wrapped in
    let (k', out', b') = read 1 2 wrapped in
    (k ≡ k') × (out ≡ out') × (contents wrapped ≡ out ++ contents b')
copy_lem_example = copy_lem 1 2 wrapped-IsValid

fakewrite_lem_example :
    IsValid (fakewrite fresh 3)
    × (contents (fakewrite fresh 3) ≡ contents fresh ++ window fresh.buf 4 0 3)
fakewrite_lem_example = fakewrite_lem 3 fresh-IsValid fits
  where
    fits : 3 ≤ avail fresh
    fits = unfold avail len sub32 in omega arith

fakeread_lem_example :
    IsValid (fakeread wrapped 2) × (contents (fakeread wrapped 2) ≡ drop 2 (contents wrapped))
fakeread_lem_example = fakeread_lem 2 wrapped-IsValid fits
  where
    fits : 2 ≤ len wrapped
    fits = unfold len sub32 in omega arith

get_next_data_bytes_lem_example :
    let w = get_next_data_bytes wrapped in
    (((w.start ≡ none) × (w.size ≡ 0) × (len wrapped ≡ 0))
      ⊎ ((w.start ≡ some 2)
          × (0 < w.size)
          × (2 + w.size ≤ 4)
          × (take w.size (contents wrapped) ≡ slice wrapped.buf 2 w.size)))
get_next_data_bytes_lem_example = get_next_data_bytes_lem wrapped-IsValid

get_next_avail_bytes_lem_example :
    let w = get_next_avail_bytes wrapped in
    (((w.start ≡ none) × (w.size ≡ 0) × (avail wrapped ≡ 0))
      ⊎ ((w.start ≡ some 1) × (0 < w.size) × (w.size ≤ avail wrapped) × (1 + w.size ≤ 4)))
get_next_avail_bytes_lem_example = get_next_avail_bytes_lem wrapped-IsValid

push_back_lem_example :
    let r = push_back (6 ∷ []) 1 wrapped in
    ((avail wrapped < 1) × (r ≡ (false, wrapped)))
    ⊎ ((1 ≤ avail wrapped)
        × (r.0 ≡ true)
        × IsValid r.1
        × (contents r.1 ≡ contents wrapped ++ (6 ∷ [])))
push_back_lem_example = push_back_lem (6 ∷ []) wrapped-IsValid (omega arith)

push_front_lem_example :
    let r = push_front (6 ∷ []) 1 wrapped in
    ((avail wrapped < 1) × (r ≡ (false, wrapped)))
    ⊎ ((1 ≤ avail wrapped) × (r.0 ≡ true) × IsValid r.1 × (contents r.1 ≡ 6 ∷ contents wrapped))
push_front_lem_example = push_front_lem (6 ∷ []) wrapped-IsValid (omega arith)

len-wrapped : len wrapped ≡ 3
unfolding len sub32
len-wrapped = refl

pop_front_lem_example :
    ((len wrapped ≡ 0) × (pop_front 2 wrapped ≡ none))
    ⊎ ((out : List ℕ) × (b' : CBuffer) × (pop_front 2 wrapped ≡ some (out, b'))
        × IsValid b'
        × (length out ≡ 2)
        × (contents wrapped ≡ out ++ contents b'))
pop_front_lem_example =
    pop_front_lem 2 wrapped-IsValid (omega arith) (inl (omega (arith, len-wrapped)))

abbrev one_byte : CBuffer
one_byte = record { buf = 9 ∷ 0 ∷ 7 ∷ 8 ∷ []; cap = 4; head = 1; tail = 0; isfull = false }

one_byte-IsValid : IsValid one_byte
one_byte-IsValid = ground arith

len-one_byte : len one_byte ≡ 1
unfolding len sub32
len-one_byte = refl

pop_front_short_example :
    (out : List ℕ) × (b' : CBuffer) × (pop_front 2 one_byte ≡ some (out, b'))
    × (len b' ≡ 4 + len one_byte - 2)
pop_front_short_example =
    pop_front_short 2 one_byte-IsValid (omega (arith, len-one_byte)) (omega (arith, len-one_byte))
      (omega arith)

avail-wrapped : avail wrapped ≡ 1
unfolding avail sub32
avail-wrapped = refl

pop_front-push_front_example :
    (b' : CBuffer) × (pop_front 1 (push_front (6 ∷ []) 1 wrapped).1 ≡ some (6 ∷ [], b'))
    × IsValid b'
    × (contents b' ≡ contents wrapped)
pop_front-push_front_example =
    pop_front-push_front (6 ∷ []) wrapped-IsValid (omega arith) (omega (arith, avail-wrapped))

pop_back-push_back_example :
    (b' : CBuffer) × (pop_back 1 (push_back (6 ∷ []) 1 wrapped).1 ≡ some (7 ∷ [], b'))
    × IsValid b'
    × (contents b' ≡ 8 ∷ 9 ∷ 6 ∷ [])
pop_back-push_back_example =
    pop_back-push_back (7 ∷ []) (6 ∷ []) (8 ∷ 9 ∷ []) wrapped-IsValid (omega arith) refl
      (omega (arith, avail-wrapped)) contents-wrapped

get_lem_example : get 1 2 wrapped ≡ some (slice (contents wrapped) 2 1)
get_lem_example = get_lem 1 2 wrapped-IsValid (omega arith) (omega (arith, len-wrapped))

get_out_of_range_example : (get 1 7 full ≢ none) × (length (slice (contents full) 7 1) < 1)
get_out_of_range_example = get_out_of_range 1 7 full-IsValid (omega arith) past (inl refl)
  where
    past : len full < 7 * 1 + 1
    past = unfold len in omega arith

peek_lem_example :
    (peek_back 1 wrapped ≡ peek_front 1 wrapped)
    × (((len wrapped ≡ 0) × (peek_front 1 wrapped ≡ none))
        ⊎ (peek_front 1 wrapped ≡ some (take 1 (contents wrapped))))
peek_lem_example = peek_lem 1 wrapped-IsValid (omega arith) (inl (omega (arith, len-wrapped)))

cbuffer_move_lem_example :
    let r = cbuffer_move wrapped 1 9 full in
    (r.0 ≡ sendable wrapped 1 9 full)
    × ((out : List ℕ) × (length out ≡ r.0 * 1)
        × IsValid r.1
        × IsValid r.2
        × (contents r.1 ≡ contents wrapped ++ out)
        × (contents full ≡ out ++ contents r.2))
cbuffer_move_lem_example = cbuffer_move_lem 1 9 (omega arith) wrapped-IsValid full-IsValid

cbuffer_copy_lem_example :
    let r = cbuffer_copy wrapped 1 9 full in
    (r.0 ≡ sendable wrapped 1 9 full)
    × IsValid r.1
    × (contents r.1 ≡ contents wrapped ++ take (r.0 * 1) (contents full))
cbuffer_copy_lem_example = cbuffer_copy_lem 1 9 (omega arith) wrapped-IsValid full-IsValid

file_honest : (k : ℕ) → length (file k).bytes ≤ k
file_honest k = omega (arith, length-take {A = ℕ} k (1 ∷ 2 ∷ 3 ∷ []))

read_from_file_lem_example :
    let want = min (avail wrapped) 2 in
    let r = read_from_file file wrapped 2 in IsValid r.1 × Outcome wrapped want (file want) r
read_from_file_lem_example = read_from_file_lem file 2 file_honest wrapped-IsValid (omega arith)

write_to_file_lem_example :
    let k = min (len wrapped) 2 in
    let r = write_to_file accepting wrapped 2 in
    ((k ≢ 0) × (accepting (take k (contents wrapped)) ≡ false) × (r ≡ (none, wrapped)))
    ⊎ (((k ≡ 0) ⊎ (accepting (take k (contents wrapped)) ≡ true))
        × (r.0 ≡ some k)
        × IsValid r.1
        × (contents r.1 ≡ drop k (contents wrapped)))
write_to_file_lem_example = write_to_file_lem accepting 2 wrapped-IsValid (omega arith)
