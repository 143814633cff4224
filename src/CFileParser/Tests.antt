-- ===== src/CFileParser/Tests.antt =====
-- The parser on small texts, and the theorems at inputs that meet their hypotheses.
use game_server_portfolio.Base.{ℕ, ◌≡◌, refl, true, false, List, [], ◌∷◌, none, some, arith}
use game_server_portfolio.CFileParser.{CFileParser}
use game_server_portfolio.CFileParser.Text.{erase_comments}
use game_server_portfolio.CFileParser.Value.{get_value_buffer}
use game_server_portfolio.CFileParser.Comments.{erase_comments_lem}
use game_server_portfolio.CFileParser.Printed.{Entry, get_value_buffer-print_section}

-- `a//b` and `'\0'`
erase_comments_lem_example : erase_comments (97 ∷ 47 ∷ 47 ∷ 98 ∷ 0 ∷ []) ≡ none
erase_comments_lem_example = erase_comments_lem (97 ∷ 47 ∷ 47 ∷ 98 ∷ [])

-- the port, and the address
abbrev port : Entry
port = record { key = 112 ∷ []; value = 49 ∷ 50 ∷ []; is_string = false }

abbrev address : Entry
address = record { key = 97 ∷ []; value = 48 ∷ []; is_string = true }

-- `{ "p": 12, "a": "0" }`
abbrev config : List ℕ
config =
    32 ∷ 123 ∷ 10 ∷ 34 ∷ 112 ∷ 34 ∷ 58 ∷ 32 ∷ 49 ∷ 50 ∷ 44 ∷ 10 ∷ 34 ∷ 97 ∷ 34 ∷ 58 ∷ 34 ∷ 48 ∷ 34
    ∷ 125 ∷ 0 ∷ []

abbrev parsed : CFileParser
parsed = record { buffer = some config; section = some config; buffer_size = 21 }

get_value_buffer-print_section_example : get_value_buffer parsed (97 ∷ []) ≡ some (some (48 ∷ []))
get_value_buffer-print_section_example =
    get_value_buffer-print_section parsed (97 ∷ []) config port (address ∷ []) (0 ∷ []) refl refl (
      ((refl, tt), omega arith),
      ((refl, (refl, tt)), omega arith),
      (((refl, tt), omega arith), ((refl, tt), omega arith), tt),
    )
