-- ===== src/Packet/Stream.antt =====
-- `operator<<` and `operator>>`: a packet is a stream of integers.
use game_server_portfolio.Base.{
  ℕ, ◌+◌, ◌-◌, ◌^◌, ◌≤◌, ◌<◌, ◌≡◌, refl, sym, ap, ap₂, ◌∙◌, List, [], ◌∷◌, ◌++◌, arith, length,
  append-nil, append_assoc, length-append, append_split,
}
use game_server_portfolio.Bytes.{
  span, length-span, to_bytes, of_bytes, length-to_bytes, of_bytes-to_bytes,
}
use game_server_portfolio.Packet.{
  CPacket, buffer_full, buffer_empty, put_bytes, write_value, read_value,
}
use game_server_portfolio.Packet.Valid.{
  IsValid, contents, consumed, consumed_lem, put_bytes_lem, length-contents,
}

-- `operator<<` appends the bytes of a value for which there is room.
pub write_value_fits :
    (w : ℕ) (p : CPacket) (value : ℕ)
    → IsValid p
    → w ≤ p.buffer_size - p.writepos
    → (write_value w p value ≡ put_bytes p (to_bytes w value))
      × IsValid (write_value w p value)
      × (contents (write_value w p value) ≡ contents p ++ to_bytes w value)
unfolding write_value
write_value_fits w p value v h =
    ground (arith, put_bytes_lem p (to_bytes w value) v, length-to_bytes w value)

-- `operator>>` takes off the value whose bytes come next.
pub read_value_next :
    (w : ℕ) (p : CPacket) (old value : ℕ) (rest : List ℕ)
    → IsValid p
    → value < 256 ^ w
    → contents p ≡ to_bytes w value ++ rest
    → let (read, p') = read_value w p old in (read ≡ value) × IsValid p' × (contents p' ≡ rest)
unfolding read_value
read_value_next w p old value rest v h e =
    let enough : w ≤ p.data_size = omega (
      arith,
      ap length e,
      length-contents p v,
      length-append (to_bytes w value) rest,
      length-to_bytes w value,
    ) in
    let (valid, split) = consumed_lem p w v enough in
    let (head, tail) =
      append_split (span p.buffer p.readpos w) (contents (consumed w p)) (to_bytes w value) rest
        (length-span p.buffer p.readpos w (omega (arith, v.extent, v.inside, v.storage))
          ∙ sym (length-to_bytes w value))
        (sym split ∙ e) in
    ground (arith, enough, valid, tail, ap of_bytes head, of_bytes-to_bytes w value h)

-- Integers with the width of their types in bytes, in the order in which they are put in.
abbrev pub Fields : Type 0
Fields = List (ℕ × ℕ)

-- A chain `packet << a << b << …`.
unfoldable pub write_all : CPacket → Fields → CPacket
write_all p [] = p
write_all p ((w, value) ∷ fs) = write_all (write_value w p value) fs

-- A chain `packet >> a >> b >> …` into variables of the same types, which held 0.
unfoldable pub read_all : CPacket → Fields → List ℕ × CPacket
read_all p [] = ([], p)
read_all p ((w, _) ∷ fs) =
    let (value, p') = read_value w p 0 in
    let (values, p'') = read_all p' fs in (value ∷ values, p'')

abbrev pub total_width : Fields → ℕ
total_width [] = 0
total_width ((w, _) ∷ fs) = w + total_width fs

abbrev pub InRange : Fields → Type 0
InRange [] = Unit {0}
InRange ((w, value) ∷ fs) = (value < 256 ^ w) × InRange fs

abbrev pub values_of : Fields → List ℕ
values_of [] = []
values_of ((_, value) ∷ fs) = value ∷ values_of fs

abbrev pub encode : Fields → List ℕ
encode [] = []
encode ((w, value) ∷ fs) = to_bytes w value ++ encode fs

pub write_all_fits :
    (fs : Fields) (p : CPacket)
    → IsValid p
    → total_width fs ≤ p.buffer_size - p.writepos
    → IsValid (write_all p fs) × (contents (write_all p fs) ≡ contents p ++ encode fs)
unfolding write_all put_bytes
write_all_fits [] p v h = (v, sym (append-nil (contents p)))
write_all_fits ((w, value) ∷ fs) p v h =
    let (e, valid, bytes) = write_value_fits w p value v (omega arith) in
    let (valid', bytes') =
      write_all_fits fs (write_value w p value) valid (ground (arith, length-to_bytes w value)) in
    (
      valid',
      bytes'
          ∙ ap (λ k. k ++ encode fs) bytes
          ∙ append_assoc (contents p) (to_bytes w value) (encode fs),
    )

pub read_all_next :
    (fs : Fields) (p : CPacket) (rest : List ℕ)
    → IsValid p
    → InRange fs
    → contents p ≡ encode fs ++ rest
    → ((read_all p fs).0 ≡ values_of fs) × (contents (read_all p fs).1 ≡ rest)
unfolding read_all
read_all_next [] p rest v r e = (refl, e)
read_all_next ((w, value) ∷ fs) p rest v r e =
    let (read, valid, tail) =
      read_value_next w p 0 value (encode fs ++ rest) v r.0
        (e ∙ append_assoc (to_bytes w value) (encode fs) rest) in
    let (reads, rest') = read_all_next fs (read_value w p 0).1 rest valid r.1 tail in
    (ap₂ ◌∷◌ read reads, rest')

-- On an empty valid packet, integers that lie in the range of their types and fit in the room left
-- together are read back as they were put in, in that order, and nothing is left.
pub write_all-read_all :
    (fs : Fields) (p : CPacket)
    → IsValid p
    → contents p ≡ []
    → InRange fs
    → total_width fs ≤ p.buffer_size - p.writepos
    → let (values, p') = read_all (write_all p fs) fs in
      (values ≡ values_of fs) × (contents p' ≡ [])
write_all-read_all fs p v e r h =
    let (valid, bytes) = write_all_fits fs p v h in
    read_all_next fs (write_all p fs) [] valid r
      (bytes ∙ ap (λ k. k ++ encode fs) e ∙ sym (append-nil (encode fs)))

-- `operator<<` and `operator>>` of a value that does not fit, or is not there, set their error,
-- and leave the packet and the variable as they were otherwise.
pub stream_errors :
    (w : ℕ) (p : CPacket) (value : ℕ)
    → (p.buffer_size - p.writepos < w
        → write_value w p value ≡ record p { last_error = buffer_full })
      × (p.data_size < w → read_value w p value ≡ (value, record p { last_error = buffer_empty }))
unfolding write_value read_value
stream_errors w p value = (λ h. ground arith, λ h. ground arith)
