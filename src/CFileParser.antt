-- ===== src/CFileParser.antt =====
-- util/Util/CFileParser.cpp, on a text that ends with `'\0'`. A place in the text is what it holds
-- from there on; `none` is undefined behaviour: a read past the end of the text.
pub mod Text
pub mod Section
pub mod Value
pub mod Comments
pub mod Words
pub mod Printed
mod Tests
use game_server_portfolio.Base.{ℕ, List, Option}

-- `MaxSize::MaxTextSize`
abbrev pub max_text_size : ℕ
max_text_size = 255

-- The characters that the parser knows.
abbrev pub nul : ℕ
nul = 0

abbrev pub tab : ℕ
tab = 9

abbrev pub line_feed : ℕ
line_feed = 10

abbrev pub carriage_return : ℕ
carriage_return = 13

abbrev pub blank : ℕ
blank = 32

abbrev pub quotation : ℕ
quotation = 34

abbrev pub comma : ℕ
comma = 44

abbrev pub slash : ℕ
slash = 47

abbrev pub colon : ℕ
colon = 58

abbrev pub left_bracket : ℕ
left_bracket = 91

abbrev pub right_bracket : ℕ
right_bracket = 93

abbrev pub left_brace : ℕ
left_brace = 123

abbrev pub right_brace : ℕ
right_brace = 125

pub record CFileParser : Type 0 where
  pub buffer : Option (List ℕ)
  pub section : Option (List ℕ)
  pub buffer_size : ℕ
