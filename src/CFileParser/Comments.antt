-- ===== src/CFileParser/Comments.antt =====
-- util/Util/CFileParser.cpp: what `EraseComments` does to a text.
use game_server_portfolio.Base.{
  ℕ, zero, suc, ◌<◌, ◌≤◌, ◌≡◌, refl, ap, ◌∙◌, inl, inr, Bool, true, false, ◌||◌, ◌&&◌, List, [],
  ◌∷◌, ◌++◌, Option, none, some, Option-cases, Bool-cases, ◌==◌, if◌then◌else◌, length, arith,
}
use game_server_portfolio.CFileParser.{nul, slash}
use game_server_portfolio.CFileParser.Text.{
  blank_line, at_comment, prepend, erase_loop, erase_comments,
}

-- Whether there is a `//` in the text.
abbrev pub has_comment : List ℕ → Bool
has_comment [] = false
has_comment (c ∷ []) = false
has_comment (c ∷ d ∷ cs) = (c == slash && d == slash) || has_comment (d ∷ cs)

-- No character is put back.
blank_line-le :
    (text written rest : List ℕ)
    → blank_line text ≡ some (written, rest)
    → length rest ≤ length text
unfolding blank_line
blank_line-le [] written rest e = ground (arith, e)
blank_line-le (c ∷ cs) written rest e = elim (Option-cases (blank_line cs)) [
  | inl stuck ↦ ground (arith, e, stuck)
  | inr ((w, r), done) ↦ ground (arith, e, done, blank_line-le cs w r done)
]

-- The rest of a round behind a comment.
abbrev behind : ℕ → Option (List ℕ × List ℕ) → Option (List ℕ)
behind n none = none
behind n (some (written, [])) = none
behind n (some (written, c ∷ cs)) = prepend (written ++ c ∷ []) (erase_loop n cs)

round_comment :
    (n : ℕ) (text : List ℕ)
    → at_comment text ≡ some true
    → erase_loop (suc n) text ≡ behind n (blank_line text)
unfolding erase_loop
round_comment n text seen = elim (Option-cases (blank_line text)) [
  | inl stuck ↦ ground (arith, seen, stuck)
  | inr ((written, []), done) ↦ ground (arith, seen, done)
  | inr ((written, c ∷ cs), done) ↦ ground (arith, seen, done)
]

round_plain :
    (n c : ℕ) (cs : List ℕ)
    → at_comment (c ∷ cs) ≡ some false
    → erase_loop (suc n) (c ∷ cs) ≡ prepend (c ∷ []) (erase_loop n cs)
unfolding erase_loop
round_plain n c cs seen = ground (arith, seen)

-- More rounds than there are characters run off the end.
overrun : (n : ℕ) (text : List ℕ) → length text < n → erase_loop n text ≡ none
unfolding erase_loop at_comment
overrun zero text h = absurd (omega arith)
overrun (suc n) [] h = refl
overrun (suc n) (c ∷ cs) h = elim (Option-cases (at_comment (c ∷ cs))) [
  | inl stuck ↦ ground (arith, stuck)
  | inr (false, plain) ↦
      round_plain n c cs plain ∙ ap (prepend (c ∷ [])) (overrun n cs (omega arith))
  | inr (true, comment) ↦
      round_comment n (c ∷ cs) comment ∙ elim (Option-cases (blank_line (c ∷ cs))) [
        | inl stuck ↦ ap (behind n) stuck
        | inr ((written, []), done) ↦ ap (behind n) done
        | inr ((written, d ∷ ds), done) ↦
            let fewer = blank_line-le (c ∷ cs) written (d ∷ ds) done in
            ap (behind n) done ∙ ap (prepend (written ++ d ∷ [])) (overrun n ds (omega arith))
      ]
]

slash_line :
    (cs written rest : List ℕ)
    → blank_line (slash ∷ cs) ≡ some (written, rest)
    → length rest ≤ length cs
unfolding blank_line
slash_line cs written rest e = elim (Option-cases (blank_line cs)) [
  | inl stuck ↦ ground (arith, e, stuck)
  | inr ((w, r), done) ↦ ground (arith, e, done, blank_line-le cs w r done)
]

comment_overruns :
    (cs : List ℕ)
    → at_comment (slash ∷ cs) ≡ some true
    → erase_loop (suc (length cs)) (slash ∷ cs) ≡ none
comment_overruns cs comment =
    round_comment (length cs) (slash ∷ cs) comment ∙ elim (Option-cases (blank_line (slash ∷ cs))) [
      | inl stuck ↦ ap (behind (length cs)) stuck
      | inr ((written, []), done) ↦ ap (behind (length cs)) done
      | inr ((written, d ∷ ds), done) ↦
          let fewer = slash_line cs written (d ∷ ds) done in
          ap (behind (length cs)) done
          ∙ ap (prepend (written ++ d ∷ [])) (overrun (length cs) ds (omega arith))
    ]

-- `EraseComments` of a text that ends with `'\0'` leaves a text without a `//` as it is, and reads
-- past the end of every text with one: its loop counts one character for a whole comment.
pub erase_comments_lem :
    (bytes : List ℕ)
    → erase_comments (bytes ++ nul ∷ [])
      ≡ (if has_comment (bytes ++ nul ∷ []) then none else some (bytes ++ nul ∷ []))
unfolding erase_comments erase_loop at_comment
erase_comments_lem [] = refl
erase_comments_lem (c ∷ []) = elim (Bool-cases (c == slash)) [
  | inl same ↦ ground (arith, same)
  | inr other ↦ ground (arith, other)
]
erase_comments_lem (c ∷ d ∷ cs) =
    let text = d ∷ cs ++ nul ∷ [] in
    let rest = erase_comments_lem (d ∷ cs) in
    elim (Bool-cases (c == slash && d == slash)) [
      | inl comment ↦
          let e : c ≡ slash = ground (arith, comment) in
          let e' : at_comment (slash ∷ text) ≡ some true = ground (arith, comment) in
          ap (λ x. erase_loop (suc (length text)) (x ∷ text)) e
          ∙ comment_overruns text e'
          ∙ ground (arith, comment)
      | inr plain ↦
          round_plain (length text) c text (ground (arith, plain))
          ∙ ap (prepend (c ∷ [])) rest
          ∙ ground (arith, plain)
    ]
