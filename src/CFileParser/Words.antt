-- ===== src/CFileParser/Words.antt =====
-- util/Util/CFileParser.cpp: what `GetValueBuffer` does with blanks and with plain characters.
use game_server_portfolio.Base.{
  ℕ, suc, ◌+◌, ◌<◌, ◌≡◌, refl, sym, ap, ◌∙◌, inl, inr, Bool, true, false, not, ◌||◌, List, [], ◌∷◌,
  ◌++◌, append_assoc, append-nil, Option, none, some, Bool-cases, ◌==◌, if◌then◌else◌, length,
  length-append, arith,
}
use game_server_portfolio.CFileParser.{
  max_text_size, nul, quotation, comma, colon, left_brace, right_brace,
}
use game_server_portfolio.CFileParser.Value.{
  Scan, Outcome, goes_on, returns, is_space, read_char, scan,
}

abbrev pub is_plain : ℕ → Bool
is_plain c = not (
    is_space c
    || c == quotation
    || c == comma
    || c == colon
    || c == left_brace
    || c == right_brace
    || c == nul)

-- Words of plain characters that fit into the buffer.
abbrev pub IsPlain : List ℕ → Type 0
IsPlain [] = Unit {0}
IsPlain (c ∷ cs) = (is_plain c ≡ true) × IsPlain cs

abbrev pub IsWord : List ℕ → Type 0
IsWord cs = IsPlain cs × (length cs < max_text_size)

-- the text without the characters that the parser skips
abbrev pub strip : List ℕ → List ℕ
strip [] = []
strip (c ∷ cs) = if is_space c then strip cs else c ∷ strip cs

scan_space :
    (key : List ℕ) (s : Scan) (c : ℕ) (cs : List ℕ)
    → is_space c ≡ true
    → scan key s (c ∷ cs) ≡ scan key s cs
unfolding scan read_char
scan_space key s c cs space = ground (arith, space)

-- the loop behind a character
abbrev after : List ℕ → Outcome → List ℕ → Option (Option (List ℕ))
after key (goes_on s) cs = scan key s cs
after key (returns value) cs = some value

scan_next :
    (key : List ℕ) (s : Scan) (c : ℕ) (cs : List ℕ)
    → scan key s (c ∷ cs) ≡ (if c == nul then some none else after key (read_char key s c) cs)
unfolding scan
scan_next key s c cs = by_outcome (read_char key s c) refl
  where
    by_outcome :
        (o : Outcome)
        → read_char key s c ≡ o
        → scan key s (c ∷ cs) ≡ (if c == nul then some none else after key (read_char key s c) cs)
    by_outcome (goes_on s') e = ground (arith, e)
    by_outcome (returns v) e = ground (arith, e)

after_same :
    (key : List ℕ) (o : Outcome) (xs ys : List ℕ)
    → ((s : Scan) → scan key s xs ≡ scan key s ys)
    → after key o xs ≡ after key o ys
after_same key (goes_on s) xs ys h = h s
after_same key (returns v) xs ys h = refl

pub scan-strip : (text key : List ℕ) (s : Scan) → scan key s (strip text) ≡ scan key s text
unfolding scan
scan-strip [] key s = refl
scan-strip (c ∷ cs) key s = elim (Bool-cases (is_space c)) [
  | inl space ↦
      ap (scan key s) (let e : strip (c ∷ cs) ≡ strip cs = ground (arith, space) in e)
      ∙ scan-strip cs key s
      ∙ sym (scan_space key s c cs space)
  | inr shown ↦
      ap (scan key s) (let e : strip (c ∷ cs) ≡ c ∷ strip cs = ground (arith, shown) in e)
      ∙ scan_next key s c (strip cs)
      ∙ ap (λ x. if c == nul then some none else x)
          (after_same key (read_char key s c) (strip cs) cs (λ s'. scan-strip cs key s'))
      ∙ sym (scan_next key s c cs)
]

-- A plain character is put behind those read, or skipped.
read_plain :
    (key : List ℕ) (s : Scan) (c : ℕ)
    → (s.in_quot || s.should_read_value) ≡ true
    → is_plain c ≡ true
    → suc (length s.tmp) < max_text_size
    → read_char key s c ≡ goes_on (record s { tmp = s.tmp ++ c ∷ [] })
unfolding read_char
read_plain key s c reading p room = ground (arith, reading, p, room)

skip_plain :
    (key : List ℕ) (s : Scan) (c : ℕ)
    → (s.in_quot || s.should_read_value) ≡ false
    → is_plain c ≡ true
    → read_char key s c ≡ goes_on s
unfolding read_char
skip_plain key s c skipping p = ground (arith, skipping, p)

scan_goes_on :
    (key : List ℕ) (s s' : Scan) (c : ℕ) (cs : List ℕ)
    → is_plain c ≡ true
    → read_char key s c ≡ goes_on s'
    → scan key s (c ∷ cs) ≡ scan key s' cs
scan_goes_on key s s' c cs p e =
    let shown : (c == nul) ≡ false = ground (arith, p) in
    scan_next key s c cs
    ∙ ap (λ b. if b then some none else after key (read_char key s c) cs) shown
    ∙ ap (λ o. after key o cs) e

pub scan_word :
    (key : List ℕ) (s : Scan) (cs rest : List ℕ)
    → (s.in_quot || s.should_read_value) ≡ true
    → IsPlain cs
    → length s.tmp + length cs < max_text_size
    → scan key s (cs ++ rest) ≡ scan key (record s { tmp = s.tmp ++ cs }) rest
scan_word key s [] rest reading plain room =
    ap {A = List ℕ} (λ t. scan key (record s { tmp = t }) rest) (sym (append-nil s.tmp))
scan_word key s (c ∷ cs) rest reading (p, plain) room =
    let s' : Scan = record s { tmp = s.tmp ++ c ∷ [] } in
    scan_goes_on key s s' c (cs ++ rest) p (read_plain key s c reading p (omega arith))
    ∙ scan_word key s' cs rest reading plain (omega (arith, length-append s.tmp (c ∷ [])))
    ∙ ap {A = List ℕ} (λ t. scan key (record s { tmp = t }) rest) (append_assoc s.tmp (c ∷ []) cs)

pub scan_skipped :
    (key : List ℕ) (s : Scan) (cs rest : List ℕ)
    → (s.in_quot || s.should_read_value) ≡ false
    → IsPlain cs
    → scan key s (cs ++ rest) ≡ scan key s rest
scan_skipped key s [] rest skipping plain = refl
scan_skipped key s (c ∷ cs) rest skipping (p, plain) =
    scan_goes_on key s s c (cs ++ rest) p (skip_plain key s c skipping p)
    ∙ scan_skipped key s cs rest skipping plain
