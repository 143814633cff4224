-- ===== src/CFileParser/Section.antt =====
-- util/Util/CFileParser.cpp: `SetSection`.
use game_server_portfolio.Base.{
  strcmp_equal, ℕ, zero, suc, ◌-◌, Bool, true, false, not, ◌||◌, List, [], ◌∷◌, Option, none, some,
  ◌==◌, leb, if◌then◌else◌, length,
}
use game_server_portfolio.CFileParser.{
  max_text_size, nul, blank, left_bracket, right_bracket, CFileParser,
}

-- a character put before a name
abbrev named : ℕ → Option (List ℕ × List ℕ) → Option (List ℕ × List ℕ)
named c none = none
named c (some (name, rest)) = some (c ∷ name, rest)

-- The inner loop of `SetSection`: the name behind a `[`, of this many characters at most, and the
-- place behind it.
unfoldable pub read_section_name : ℕ → List ℕ → Option (List ℕ × List ℕ)
read_section_name n [] = if n == 0 then some ([], []) else none
read_section_name n (c ∷ cs) =
    let later = read_section_name (if c == blank then n else n - 1) cs in
    if n == 0 || c == right_bracket
    then some ([], c ∷ cs)
    else if c == blank
    then later
    else named c later

-- an array of characters read as a string
abbrev pub c_string : List ℕ → List ℕ
c_string [] = []
c_string (c ∷ cs) = if c == nul then [] else c ∷ c_string cs

abbrev tail : List ℕ → List ℕ
tail [] = []
tail (c ∷ cs) = cs

-- How a round of the loop of `SetSection` ends.
pub data SectionRound : Type 0 where
  not_there : SectionRound
  section_at next_at : List ℕ → SectionRound

unfoldable pub section_round : List ℕ → List ℕ → Option SectionRound
unfolding read_section_name
section_round section [] = none
section_round section (c ∷ cs) =
    if c == nul
    then some not_there
    else if not (c == left_bracket)
    then some (next_at cs)
    else elim (read_section_name max_text_size cs) [
      | none ↦ none
      | some (name, rest) ↦
          if leb (max_text_size - 1) (length name)
          then some not_there
          else if strcmp_equal section (c_string name)
          then some (section_at (tail rest))
          else some (next_at (tail rest))
    ]

-- The loop of `SetSection`, on fuel: each round goes past a character.
unfoldable pub section_loop : ℕ → List ℕ → List ℕ → Option (Option (List ℕ))
unfolding section_round
section_loop zero section text = none
section_loop (suc fuel) section text = elim (section_round section text) [
  | none ↦ none
  | some not_there ↦ some none
  | some (section_at rest) ↦ some (some rest)
  | some (next_at rest) ↦ section_loop fuel section rest
]

unfoldable pub set_section : CFileParser → List ℕ → Option (Bool × CFileParser)
unfolding section_loop
set_section p section = elim p.buffer [
  | none ↦ some (false, p)
  | some text ↦ elim (section_loop (suc (length text)) section text) [
    | none ↦ none
    | some none ↦ some (false, p)
    | some (some rest) ↦ some (true, record p { section = some rest })
  ]
]
