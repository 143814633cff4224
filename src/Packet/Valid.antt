-- ===== src/Packet/Valid.antt =====
-- The representation invariant of a packet, the bytes it holds, and what each operation does to them.
use game_server_portfolio.Base.{
  ℕ, ◌+◌, ◌-◌, ◌≤◌, ◌<◌, ◌≡◌, ◌⊎◌, inl, inr, ap₂, ◌∙◌, some, List, [], ◌++◌, arith, pos, length,
}
use native.Mathlib.Decide.{dec_lt}
use game_server_portfolio.Bytes.{
  span, write_at, length-write_at, span-write_at_before, span-write_at_self, span-add, length-span,
}
use game_server_portfolio.Packet.{
  CPacket, buffer_full, create, clear, get_data, put_bytes, put_data,
}

pub record IsValid (p : CPacket) : Type 0 where
  pub storage : length p.buffer ≡ p.buffer_size
  pub extent : p.readpos + p.data_size ≡ p.writepos
  pub inside : p.writepos ≤ p.buffer_size

-- the bytes that a reader of the packet still has before it
abbrev pub contents : CPacket → List ℕ
contents p = span p.buffer p.readpos p.data_size

pub length-contents : (p : CPacket) → IsValid p → length (contents p) ≡ p.data_size
length-contents p v =
    length-span p.buffer p.readpos p.data_size (omega (arith, v.extent, v.inside, v.storage))

pub create-IsValid :
    (n : ℕ) (fresh : List ℕ)
    → length fresh ≡ n
    → IsValid (create n fresh) × (contents (create n fresh) ≡ [])
unfolding create
create-IsValid n fresh h = ground arith

pub clear-IsValid : {p : CPacket} → IsValid p → IsValid (clear p) × (contents (clear p) ≡ [])
unfolding clear
clear-IsValid v = ground arith

-- Bytes for which there is room are appended.
pub put_bytes_lem :
    (p : CPacket) (bs : List ℕ)
    → IsValid p
    → length bs ≤ p.buffer_size - p.writepos
    → IsValid (put_bytes p bs) × (contents (put_bytes p bs) ≡ contents p ++ bs)
unfolding put_bytes
put_bytes_lem p bs v h = (
  ground (arith, length-write_at p.buffer p.writepos bs),
  span-add (write_at p.buffer p.writepos bs) p.readpos p.data_size (length bs)
      ∙ ap₂ ◌++◌
          (span-write_at_before p.buffer p.readpos p.data_size p.writepos bs
            (omega (arith, v.extent)))
          (ground (arith, span-write_at_self p.buffer p.writepos bs)),
)

-- On a valid packet `PutData` appends all its bytes and returns their number if there is room
-- behind the write position; otherwise it returns 0, sets the error to full, and changes nothing else.
pub put_data_refines :
    (p : CPacket) (bs : List ℕ)
    → IsValid p
    → let (n, p') = put_data p bs in
      IsValid p'
      × ((length bs ≤ p.buffer_size - p.writepos)
            × (n ≡ length bs)
            × (contents p' ≡ contents p ++ bs)
          ⊎ (p.buffer_size - p.writepos < length bs)
            × (n ≡ 0)
            × (p' ≡ record p { last_error = buffer_full }))
unfolding put_data
put_data_refines p bs v = elim (dec_lt (p.buffer_size - p.writepos) (length bs)) [
  | yes full ↦ ground arith
  | no fits ↦ ground (arith, put_bytes_lem p bs v (omega arith))
]

-- the packet once `n` bytes have been read
abbrev pub consumed : ℕ → CPacket → CPacket
consumed n p = record p { readpos = p.readpos + n; data_size = p.data_size - n }

pub consumed_lem :
    (p : CPacket) (n : ℕ)
    → IsValid p
    → n ≤ p.data_size
    → IsValid (consumed n p) × (contents p ≡ span p.buffer p.readpos n ++ contents (consumed n p))
consumed_lem p n v h =
    (ground arith, ground (arith, span-add p.buffer p.readpos n (p.data_size - n)))

-- On a valid packet `GetData` hands over the next `Size` bytes, returns `Size` and leaves the rest
-- in a valid packet if that many are there; otherwise it returns 0, copies nothing, and leaves the
-- packet as it was.
pub get_data_refines :
    (p : CPacket) (n : ℕ)
    → IsValid p
    → ((n ≤ p.data_size)
        × (bytes : List ℕ) × (p' : CPacket) × (get_data p (pos n) ≡ some (pos n, bytes, p'))
        × IsValid p'
        × (length bytes ≡ n)
        × (contents p ≡ bytes ++ contents p'))
      ⊎ ((p.data_size < n) × (get_data p (pos n) ≡ some (pos 0, [], p)))
unfolding get_data
get_data_refines p n v = elim (dec_lt p.data_size n) [
  | yes more ↦ inr (more, ground arith)
  | no less ↦
      let held : n ≤ p.data_size = omega arith in
      let (valid, split) = consumed_lem p n v held in
      inl (
        held,
        span p.buffer p.readpos n,
        consumed n p,
        ground arith,
        valid,
        length-span p.buffer p.readpos n (omega (arith, v.extent, v.inside, v.storage)),
        split,
      )
]
