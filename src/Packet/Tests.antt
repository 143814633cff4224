-- ===== src/Packet/Tests.antt =====
-- The packet on small inputs, and the theorems at inputs that meet their hypotheses.
use game_server_portfolio.Base.{ℕ, ◌≡◌, refl, List, [], ◌∷◌, some, none, arith, pos, negsuc, get_or}
use game_server_portfolio.Bytes.{write_at, to_bytes, of_bytes}
use game_server_portfolio.Packet.{
  CPacket, no_error, buffer_empty, create, create_default, clear, move_write_pos, move_read_pos,
  get_data, write_value, read_value, copy_construct,
}
use game_server_portfolio.Packet.Valid.{IsValid, contents}
use game_server_portfolio.Packet.Stream.{Fields, write_all, read_all, write_all-read_all}
use game_server_portfolio.Packet.Copy.{copy_construct-stale}

abbrev blank : CPacket
blank = record {
  buffer_size = 4;
  data_size = 0;
  last_error = no_error;
  buffer = 0 ∷ 0 ∷ 0 ∷ 0 ∷ [];
  readpos = 0;
  writepos = 0;
}

-- three bytes put in, of which one has been read
abbrev half_read : CPacket
half_read = record blank { buffer = 7 ∷ 8 ∷ 9 ∷ 0 ∷ []; data_size = 2; readpos = 1; writepos = 3 }

blank-IsValid : IsValid blank
blank-IsValid = omega arith

half_read-IsValid : IsValid half_read
half_read-IsValid = omega arith

create_runs : (fresh : List ℕ) → clear (create_default fresh) ≡ create 1400 fresh
unfolding create_default create clear
create_runs fresh = refl

moves_run :
    (move_write_pos blank (pos 5) ≡ some (pos 0, blank))
    × (move_write_pos blank (negsuc 0) ≡ none)
    × (move_read_pos half_read (pos 2)
        ≡ some (pos 2, record half_read { readpos = 3; data_size = 0 }))
    × (move_read_pos half_read (negsuc 0)
        ≡ some (negsuc 0, record half_read { readpos = 0; data_size = 3 }))
    × (get_data half_read (negsuc 0) ≡ none)
unfolding move_write_pos move_read_pos get_data
moves_run = (refl, refl, refl, refl, refl)

stream_runs :
    (read_value 2 (write_value 2 blank 513) 0
      ≡ (513, record blank { buffer = 1 ∷ 2 ∷ 0 ∷ 0 ∷ []; readpos = 2; writepos = 2 }))
    × (read_value 8 half_read 6 ≡ (6, record half_read { last_error = buffer_empty }))
unfolding read_value write_value to_bytes of_bytes write_at
stream_runs = (refl, refl)

abbrev two_fields : Fields
two_fields = (1, 200) ∷ (2, 40000) ∷ []

write_all-read_all_example :
    let (values, p') = read_all (write_all blank two_fields) two_fields in
    (values ≡ 200 ∷ 40000 ∷ []) × (contents p' ≡ [])
write_all-read_all_example =
    write_all-read_all two_fields blank blank-IsValid refl (omega arith) (omega arith)

abbrev unread : CPacket
unread = record half_read { data_size = 3; readpos = 0 }

-- The packet read from has 9 as its last byte; its copy has the 4 that the storage held before.
copy_construct-stale_example :
    let copy = copy_construct half_read (1 ∷ 2 ∷ 4 ∷ 6 ∷ []) in
    (copy.data_size ≡ 2)
    × (copy.writepos ≡ 3)
    × (get_or copy.buffer 2 0 ≡ get_or (1 ∷ 2 ∷ 4 ∷ 6 ∷ []) 2 0)
copy_construct-stale_example =
    copy_construct-stale half_read (1 ∷ 2 ∷ 4 ∷ 6 ∷ []) half_read-IsValid refl (omega arith)
      (omega arith)
