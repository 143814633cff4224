-- ===== src/Packet/Copy.antt =====
-- `operator=` and the copy constructor, which copy `data_size_` bytes from the start of the source.
use native.Mathlib.Decide.{dec_lt}
use game_server_portfolio.Base.{
  ℕ, ◌-◌, ◌≤◌, ◌<◌, ◌≡◌, refl, List, arith, length, get_or, ◌⊎◌, inl, inr,
}
use game_server_portfolio.Bytes.{
  span, length-write_at, span-write_at_self, length-span, get_or-write_at_behind,
}
use game_server_portfolio.Packet.{CPacket, copy_instance_fail, copy_from, assign, copy_construct}
use game_server_portfolio.Packet.Valid.{IsValid, contents}

-- A copy of a packet from which nothing has been read holds the same bytes and is valid.
copy_from_unread :
    (p src : CPacket)
    → IsValid p
    → IsValid src
    → src.readpos ≡ 0
    → src.data_size ≤ p.buffer_size
    → IsValid (copy_from p src) × (contents (copy_from p src) ≡ contents src)
unfolding copy_from
copy_from_unread p src v w unread h =
    let len =
      length-span src.buffer 0 src.data_size (omega (arith, w.extent, w.inside, w.storage)) in
    ground (
      arith,
      len,
      length-write_at p.buffer 0 (span src.buffer 0 src.data_size),
      span-write_at_self p.buffer 0 (span src.buffer 0 src.data_size),
    )

-- Assignment between valid packets, of which the source has not been read from: if its data fit,
-- the target holds the same bytes, is valid, and keeps its own size; if they do not fit, the target
-- gets the copy error and is otherwise as it was.
pub assign_refines :
    (p src : CPacket)
    → IsValid p
    → IsValid src
    → src.readpos ≡ 0
    → ((src.data_size ≤ p.buffer_size)
        × IsValid (assign p src)
        × (contents (assign p src) ≡ contents src)
        × ((assign p src).buffer_size ≡ p.buffer_size))
      ⊎ ((p.buffer_size < src.data_size)
          × (assign p src ≡ record p { last_error = copy_instance_fail }))
unfolding assign
assign_refines p src v w unread = elim (dec_lt p.buffer_size src.data_size) [
  | yes more ↦ inr (more, ground arith)
  | no less ↦
      let fits : src.data_size ≤ p.buffer_size = omega arith in
      let copied = copy_from_unread p src v w unread fits in
      inl (fits, ground (arith, copied), ground (arith, copied), ground arith)
]

-- Once bytes have been read from a valid packet, its copy does not hold its last byte: that byte of
-- the copy is whatever the fresh storage held, although the copy reports the same data size.
pub copy_construct-stale :
    (src : CPacket) (fresh : List ℕ)
    → IsValid src
    → length fresh ≡ src.buffer_size
    → 0 < src.readpos
    → 0 < src.data_size
    → let copy = copy_construct src fresh in
      (copy.data_size ≡ src.data_size)
      × (copy.writepos ≡ src.writepos)
      × (get_or copy.buffer (src.writepos - 1) 0 ≡ get_or fresh (src.writepos - 1) 0)
unfolding copy_construct
copy_construct-stale src fresh w h r d = (
  refl,
  refl,
  get_or-write_at_behind fresh (src.writepos - 1) 0 (span src.buffer 0 src.data_size)
      (omega (arith, length-span src.buffer 0 src.data_size, w.extent, w.inside, w.storage)),
)
