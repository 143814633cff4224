-- ===== src/Packet.antt =====
-- iocp-chatting-server/Util/CPacket.h: the serialisation buffer. Positions are offsets from
-- `buffer_`. `none` stands for a state or a copy that the source leaves undefined: a position or a
-- size that falls below 0, or a negative count handed to `memcpy_s`.
pub mod Valid
pub mod Stream
pub mod Copy
mod Tests
use game_server_portfolio.Base.{
  ℕ, ◌+◌, ◌-◌, Option, none, some, List, [], ◌||◌, ℤ, pos, negsuc, ltb, if◌then◌else◌, length,
}
use game_server_portfolio.Bytes.{span, write_at, to_bytes, of_bytes}

pub data EnError : Type 0 where
  no_error buffer_full buffer_empty copy_instance_fail : EnError

pub record CPacket : Type 0 where
  pub buffer_size : ℕ
  pub data_size : ℕ
  pub last_error : EnError
  pub buffer : List ℕ
  pub readpos : ℕ
  pub writepos : ℕ

abbrev pub buffer_default : ℕ
buffer_default = 1400

-- `fresh` is what `new char[buffer_size_]` returns.
unfoldable pub create : ℕ → List ℕ → CPacket
create n fresh = record {
  buffer_size = n;
  data_size = 0;
  last_error = no_error;
  buffer = fresh;
  readpos = 0;
  writepos = 0;
}

unfoldable pub create_default : List ℕ → CPacket
unfolding create
create_default fresh = create buffer_default fresh

unfoldable pub clear : CPacket → CPacket
clear p = record p { data_size = 0; last_error = no_error; readpos = 0; writepos = 0 }

unfoldable pub move_write_pos : CPacket → ℤ → Option (ℤ × CPacket)
move_write_pos p (pos n) =
    if ltb (p.buffer_size - p.writepos) n
    then some (pos 0, p)
    else some (pos n, record p { writepos = p.writepos + n; data_size = p.data_size + n })
move_write_pos p (negsuc n) =
    if ltb p.writepos (n + 1) || ltb p.data_size (n + 1)
    then none
    else some
        (negsuc n, record p { writepos = p.writepos - (n + 1); data_size = p.data_size - (n + 1) })

unfoldable pub move_read_pos : CPacket → ℤ → Option (ℤ × CPacket)
move_read_pos p (pos n) =
    if ltb p.data_size n
    then some (pos 0, p)
    else some (pos n, record p { readpos = p.readpos + n; data_size = p.data_size - n })
move_read_pos p (negsuc n) =
    if ltb p.readpos (n + 1)
    then none
    else some
        (negsuc n, record p { readpos = p.readpos - (n + 1); data_size = p.data_size + (n + 1) })

-- The count, what is copied to `pDest`, and the packet.
unfoldable pub get_data : CPacket → ℤ → Option (ℤ × List ℕ × CPacket)
get_data p (pos n) =
    if ltb p.data_size n
    then some (pos 0, [], p)
    else some (
      pos n,
      span p.buffer p.readpos n,
      record p { readpos = p.readpos + n; data_size = p.data_size - n },
    )
get_data p (negsuc n) = none

unfoldable pub put_bytes : CPacket → List ℕ → CPacket
put_bytes p bs = record p {
  buffer = write_at p.buffer p.writepos bs;
  writepos = p.writepos + length bs;
  data_size = p.data_size + length bs;
}

-- `bs` is `pSrc[0 .. SrcSize)`.
unfoldable pub put_data : CPacket → List ℕ → ℕ × CPacket
unfolding put_bytes
put_data p bs =
    if ltb (p.buffer_size - p.writepos) (length bs)
    then (0, record p { last_error = buffer_full })
    else (length bs, put_bytes p bs)

-- `operator<<` at a type of `width` bytes
unfoldable pub write_value : ℕ → CPacket → ℕ → CPacket
unfolding put_bytes
write_value width p value =
    if ltb (p.buffer_size - p.writepos) width
    then record p { last_error = buffer_full }
    else put_bytes p (to_bytes width value)

-- `operator>>` at a type of `width` bytes; `value` is what the variable held before.
unfoldable pub read_value : ℕ → CPacket → ℕ → ℕ × CPacket
read_value width p value =
    if ltb p.data_size width then (value, record p { last_error = buffer_empty }) else (
      of_bytes (span p.buffer p.readpos width),
      record p { readpos = p.readpos + width; data_size = p.data_size - width },
    )

-- `memcpy_s` copies `data_size_` bytes from the source's start.
unfoldable pub copy_from : CPacket → CPacket → CPacket
copy_from p src = record p {
  data_size = src.data_size;
  last_error = src.last_error;
  buffer = write_at p.buffer 0 (span src.buffer 0 src.data_size);
  readpos = src.readpos;
  writepos = src.writepos;
}

-- `operator=`, of two different packets.
unfoldable pub assign : CPacket → CPacket → CPacket
unfolding copy_from
assign p src =
    if ltb p.buffer_size src.data_size
    then record p { last_error = copy_instance_fail }
    else copy_from p src

-- the copy constructor
unfoldable pub copy_construct : CPacket → List ℕ → CPacket
unfolding create copy_from
copy_construct src fresh = copy_from (create src.buffer_size fresh) src
