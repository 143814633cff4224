-- ===== src/CFileParser/Value.antt =====
-- util/Util/CFileParser.cpp: `GetValueBuffer`, and the two that call it.
use game_server_portfolio.Base.{
  inc, dec, strcmp_equal, ℕ, ◌-◌, Bool, true, false, not, ◌||◌, List, [], ◌∷◌, ◌++◌, Option, none,
  some, ◌==◌, leb, if◌then◌else◌, length, ℤ, pos, negsuc,
}
use game_server_portfolio.CFileParser.{
  max_text_size, nul, tab, line_feed, carriage_return, blank, quotation, comma, colon, left_brace,
  right_brace, CFileParser,
}

-- The variables of `GetValueBuffer`: `tmp_buffer` up to `tmp_count`, and the flags.
pub record Scan : Type 0 where
  pub tmp : List ℕ
  pub in_quot : Bool
  pub should_read_value : Bool
  pub is_key_position : Bool
  pub scope_depth : ℤ

abbrev pub start : Scan
start = record {
  tmp = [];
  in_quot = false;
  should_read_value = false;
  is_key_position = true;
  scope_depth = pos 0;
}

-- What a character does: the loop goes on, or returns the value, if any.
pub data Outcome : Type 0 where
  goes_on : Scan → Outcome
  returns : Option (List ℕ) → Outcome

abbrev pub is_space : ℕ → Bool
is_space c = c == tab || c == line_feed || c == carriage_return || c == blank

-- The case of a `"`, before `in_quot` is turned.
unfoldable pub quoted : List ℕ → Scan → Scan
quoted key s =
    if not s.in_quot
    then s
    else if s.is_key_position
    then record s { tmp = []; should_read_value = s.should_read_value || strcmp_equal key s.tmp }
    else if s.should_read_value
    then s
    else record s { tmp = [] }

-- The end of `GetValueBuffer`, behind the `switch`.
abbrev value_of : Scan → Option (List ℕ)
value_of s = if s.should_read_value then some s.tmp else none

abbrev is_zero : ℤ → Bool
is_zero (pos n) = n == 0
is_zero (negsuc n) = false

unfoldable pub read_char : List ℕ → Scan → ℕ → Outcome
unfolding quoted
read_char key s c =
    if is_space c
    then goes_on s
    else if c == quotation
    then goes_on (record (quoted key s) { in_quot = not s.in_quot })
    else if c == comma
    then (if s.should_read_value
        then returns (some s.tmp)
        else goes_on (record s { is_key_position = true }))
    else if c == colon
    then goes_on (record s { is_key_position = false })
    else if c == left_brace
    then goes_on (record s { scope_depth = inc s.scope_depth })
    else if c == right_brace
    then (if is_zero (dec s.scope_depth)
        then returns (value_of s)
        else goes_on (record s { scope_depth = dec s.scope_depth }))
    else if not (s.in_quot || s.should_read_value)
    then goes_on s
    else if leb (max_text_size - 1) (length s.tmp)
    then returns none
    else goes_on (record s { tmp = s.tmp ++ c ∷ [] })

-- The loop of `GetValueBuffer` from here on.
unfoldable pub scan : List ℕ → Scan → List ℕ → Option (Option (List ℕ))
unfolding read_char
scan key s [] = none
scan key s (c ∷ cs) =
    if c == nul
    then some none
    else elim (read_char key s c) [ goes_on s' ↦ scan key s' cs | returns value ↦ some value ]

-- The value, or `none` for false.
unfoldable pub get_value_buffer : CFileParser → List ℕ → Option (Option (List ℕ))
unfolding scan
get_value_buffer p key = elim p.section [ none ↦ some none | some text ↦ scan key start text ]

unfoldable pub get_string_value : CFileParser → List ℕ → Option (Option (List ℕ))
unfolding get_value_buffer
get_string_value p key = get_value_buffer p key

-- `GetIntValue`, with `atoi`.
unfoldable pub get_int_value : (List ℕ → ℤ) → CFileParser → List ℕ → Option (Option ℤ)
unfolding get_value_buffer
get_int_value atoi p key = elim (get_value_buffer p key) [
  | none ↦ none
  | some none ↦ some none
  | some (some value) ↦ some (some (atoi value))
]
