-- ===== src/CFileParser/Printed.antt =====
-- util/Util/CFileParser.cpp: `GetValueBuffer` on a section of the form that the configuration has.
use game_server_portfolio.Base.{
  ℕ, ◌≡◌, refl, sym, ap, ◌∙◌, inl, inr, Bool, true, false, List, [], ◌∷◌, ◌++◌, Option, none, some,
  Bool-cases, if◌then◌else◌, arith, pos, strcmp_equal,
}
use game_server_portfolio.CFileParser.{
  quotation, comma, colon, left_brace, right_brace, CFileParser,
}
use game_server_portfolio.CFileParser.Value.{Scan, start, quoted, read_char, scan, get_value_buffer}
use game_server_portfolio.CFileParser.Words.{IsWord, strip, scan-strip, scan_word, scan_skipped}

-- an entry of a section: its value is a number or a string
pub record Entry : Type 0 where
  pub key : List ℕ
  pub value : List ℕ
  pub is_string : Bool

abbrev pub AllWords : List Entry → Type 0
AllWords [] = Unit {0}
AllWords (e ∷ es) = IsWord e.key × IsWord e.value × AllWords es

abbrev pub print_value : Entry → List ℕ → List ℕ
print_value e rest =
    if e.is_string then quotation ∷ (e.value ++ quotation ∷ rest) else e.value ++ rest

abbrev pub print_entry : Entry → List ℕ → List ℕ
print_entry e rest = quotation ∷ (e.key ++ quotation ∷ colon ∷ print_value e rest)

abbrev pub print_more : List Entry → List ℕ → List ℕ
print_more [] rest = right_brace ∷ rest
print_more (e ∷ es) rest = comma ∷ print_entry e (print_more es rest)

-- A section with these entries, the first one named: `{"key":1,"key":"value"}`.
abbrev pub print_section : Entry → List Entry → List ℕ → List ℕ
print_section e es rest = left_brace ∷ print_entry e (print_more es rest)

abbrev pub lookup : List ℕ → List Entry → Option (List ℕ)
lookup key [] = none
lookup key (e ∷ es) = if strcmp_equal key e.key then some e.value else lookup key es

-- Inside a section, behind a key that is the one looked for or is not, and these characters read.
abbrev behind_key : Bool → List ℕ → Scan
behind_key found read = record {
  tmp = read;
  in_quot = false;
  should_read_value = found;
  is_key_position = false;
  scope_depth = pos 1;
}

abbrev at_key : Scan
at_key = record (behind_key false []) { is_key_position = true }

scan_key :
    (key name rest : List ℕ)
    → IsWord name
    → scan key at_key (quotation ∷ (name ++ quotation ∷ colon ∷ rest))
      ≡ scan key (behind_key (strcmp_equal key name) []) rest
unfolding scan read_char quoted
scan_key key name rest (plain, short) =
    scan_word key (record at_key { in_quot = true }) name (quotation ∷ colon ∷ rest) refl plain
      (omega arith)

scan_string :
    (key word rest : List ℕ) (found : Bool)
    → IsWord word
    → scan key (behind_key found []) (quotation ∷ (word ++ quotation ∷ rest))
      ≡ scan key (behind_key found (if found then word else [])) rest
unfolding scan read_char quoted
scan_string key word rest true (plain, short) =
    scan_word key (record (behind_key true []) { in_quot = true }) word (quotation ∷ rest) refl
      plain (omega arith)
scan_string key word rest false (plain, short) =
    scan_word key (record (behind_key false []) { in_quot = true }) word (quotation ∷ rest) refl
      plain (omega arith)

scan_number :
    (key word rest : List ℕ) (found : Bool)
    → IsWord word
    → scan key (behind_key found []) (word ++ rest)
      ≡ scan key (behind_key found (if found then word else [])) rest
scan_number key word rest true (plain, short) =
    scan_word key (behind_key true []) word rest refl plain (omega arith)
scan_number key word rest false (plain, short) =
    scan_skipped key (behind_key false []) word rest refl plain

scan_value :
    (key : List ℕ) (e : Entry) (rest : List ℕ) (found : Bool)
    → IsWord e.value
    → scan key (behind_key found []) (print_value e rest)
      ≡ scan key (behind_key found (if found then e.value else [])) rest
scan_value key e rest found w = elim (Bool-cases e.is_string) [
  | inl string ↦
      ap
        (λ b.
          scan key (behind_key found [])
            (if b then quotation ∷ (e.value ++ quotation ∷ rest) else e.value ++ rest))
        string
      ∙ scan_string key e.value rest found w
  | inr number ↦
      ap
        (λ b.
          scan key (behind_key found [])
            (if b then quotation ∷ (e.value ++ quotation ∷ rest) else e.value ++ rest))
        number
      ∙ scan_number key e.value rest found w
]

-- The value is returned at the character behind it.
scan_found :
    (key value : List ℕ) (es : List Entry) (rest : List ℕ)
    → scan key (behind_key true value) (print_more es rest) ≡ some (some value)
unfolding scan read_char
scan_found key value [] rest = refl
scan_found key value (e ∷ es) rest = refl

scan-comma :
    (key : List ℕ) (rest : List ℕ)
    → scan key (behind_key false []) (comma ∷ rest) ≡ scan key at_key rest
unfolding scan read_char
scan-comma key rest = refl

scan_end :
    (key : List ℕ) (rest : List ℕ) → scan key (behind_key false []) (right_brace ∷ rest) ≡ some none
unfolding scan read_char
scan_end key rest = refl

scan_entry :
    (key : List ℕ) (e : Entry) (es : List Entry) (rest : List ℕ)
    → IsWord e.key
    → IsWord e.value
    → scan key (behind_key false []) (print_more es rest) ≡ some (lookup key es)
    → scan key at_key (print_entry e (print_more es rest)) ≡ some (lookup key (e ∷ es))
scan_entry key e es rest k v more =
    scan_key key e.key (print_value e (print_more es rest)) k
    ∙ elim (Bool-cases (strcmp_equal key e.key)) [
      | inl same ↦
          ap (λ b. scan key (behind_key b []) (print_value e (print_more es rest))) same
          ∙ scan_value key e (print_more es rest) true v
          ∙ scan_found key e.value es rest
          ∙ ap (λ b. some (if b then some e.value else lookup key es)) (sym same)
      | inr differ ↦
          ap (λ b. scan key (behind_key b []) (print_value e (print_more es rest))) differ
          ∙ scan_value key e (print_more es rest) false v
          ∙ more
          ∙ ap (λ b. some (if b then some e.value else lookup key es)) (sym differ)
    ]

scan_more :
    (key : List ℕ) (es : List Entry) (rest : List ℕ)
    → AllWords es
    → scan key (behind_key false []) (print_more es rest) ≡ some (lookup key es)
scan_more key [] rest words = scan_end key rest
scan_more key (e ∷ es) rest (k, v, words) =
    scan-comma key (print_entry e (print_more es rest))
    ∙ scan_entry key e es rest k v (scan_more key es rest words)

scan_open :
    (key : List ℕ) (rest : List ℕ) → scan key start (left_brace ∷ rest) ≡ scan key at_key rest
unfolding scan read_char
scan_open key rest = refl

-- `GetValueBuffer` behind `SetSection` on a text that is, but for blanks and ends of lines, a
-- section printed with these entries: it returns the value of the first entry with the key, and
-- false if there is none. Keys and values are words that fit into the buffer and have none of the
-- characters that the parser knows.
pub get_value_buffer-print_section :
    (p : CFileParser) (key text : List ℕ) (e : Entry) (es : List Entry) (rest : List ℕ)
    → p.section ≡ some text
    → strip text ≡ print_section e es rest
    → AllWords (e ∷ es)
    → get_value_buffer p key ≡ some (lookup key (e ∷ es))
unfolding get_value_buffer
get_value_buffer-print_section p key text e es rest here printed (k, v, words) =
    ap {A = Option (List ℕ)} (λ o. elim o [ none ↦ some none | some t ↦ scan key start t ]) here
    ∙ sym (scan-strip text key start)
    ∙ ap (scan key start) printed
    ∙ scan_open key (print_entry e (print_more es rest))
    ∙ scan_entry key e es rest k v (scan_more key es rest words)
