-- ===== src/CFileParser/Text.antt =====
-- util/Util/CFileParser.cpp: `Parse` and `EraseComments`.
use game_server_portfolio.Base.{
  ℕ, zero, suc, ◌+◌, Bool, true, false, not, ◌||◌, List, [], ◌∷◌, ◌++◌, Option, none, some, ◌==◌,
  if◌then◌else◌, length,
}
use game_server_portfolio.CFileParser.{nul, line_feed, carriage_return, blank, slash, CFileParser}

abbrev ends_line : ℕ → Bool
ends_line c = c == carriage_return || c == line_feed || c == nul

abbrev one_blank : Option (List ℕ × List ℕ) → Option (List ℕ × List ℕ)
one_blank none = none
one_blank (some (written, rest)) = some (blank ∷ written, rest)

-- The inner loop of `EraseComments`: what it writes, and the place behind it.
unfoldable pub blank_line : List ℕ → Option (List ℕ × List ℕ)
blank_line [] = none
blank_line (c ∷ cs) =
    let later = blank_line cs in if ends_line c then some ([], c ∷ cs) else one_blank later

abbrev is_slash : List ℕ → Option Bool
is_slash [] = none
is_slash (c ∷ cs) = some (c == slash)

-- `*curr == '/' && *(curr + 1) == '/'`
unfoldable pub at_comment : List ℕ → Option Bool
at_comment [] = none
at_comment (c ∷ cs) = if c == slash then is_slash cs else some false

abbrev pub prepend : List ℕ → Option (List ℕ) → Option (List ℕ)
prepend written none = none
prepend written (some text) = some (written ++ text)

-- `++curr`, over a character that stays
abbrev pub advance : List ℕ → Option (ℕ × List ℕ)
advance [] = none
advance (c ∷ cs) = some (c, cs)

-- This many rounds of the loop of `EraseComments`, and what is then in the text from here on.
unfoldable pub erase_loop : ℕ → List ℕ → Option (List ℕ)
unfolding blank_line at_comment
erase_loop zero text = some text
erase_loop (suc n) text = elim (at_comment text) [
  | none ↦ none
  | some is_comment ↦ elim (if is_comment then blank_line text else some ([], text)) [
    | none ↦ none
    | some (written, rest) ↦ elim (advance rest) [
      | none ↦ none
      | some (c, cs) ↦ prepend (written ++ c ∷ []) (erase_loop n cs)
    ]
  ]
]

-- `EraseComments`: as many rounds as the text has characters.
unfoldable pub erase_comments : List ℕ → Option (List ℕ)
unfolding erase_loop
erase_comments text = erase_loop (length text) text

-- `Parse`, with what the file holds: `none` for a file that cannot be opened, and whether the read
-- is complete. `none` is undefined behaviour.
unfoldable pub parse : CFileParser → Option (List ℕ × Bool) → Option (Bool × CFileParser)
unfolding erase_comments
parse p none = some (false, p)
parse p (some (bytes, complete)) =
    let p' : CFileParser = record p { buffer_size = length bytes + 1 } in
    if not complete
    then some (false, record p' { buffer = none })
    else elim (erase_comments (bytes ++ nul ∷ [])) [
      | none ↦ none
      | some text ↦ some (true, record p' { buffer = some text })
    ]
