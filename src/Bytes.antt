-- ===== src/Bytes.antt =====
-- Runs of bytes in a storage, and the little-endian bytes of an integer (`(char*)&value` on the
-- platforms that the server is built for).
use native.Mathlib.Nat.{suc-add, pow-suc}
use game_server_portfolio.Base.{
  ℕ, zero, suc, ◌+◌, ◌*◌, ◌/◌, ◌%◌, ◌^◌, ◌≤◌, ◌<◌, ◌≡◌, refl, sym, ap, ap₂, ◌∙◌, List, [], ◌∷◌,
  ◌++◌, arith, length, take, drop, set, length-set, get_or, get_or-set_self, get_or-set_ne, ◌≢◌,
  length-take, length-drop,
}

-- `len` bytes from `offset` on
abbrev pub span : List ℕ → ℕ → ℕ → List ℕ
span buf offset len = take len (drop offset buf)

-- `memcpy` of `bs` to `offset`; a write past the end is dropped
unfoldable pub write_at : List ℕ → ℕ → List ℕ → List ℕ
write_at buf offset [] = buf
write_at buf offset (b ∷ bs) = write_at (set buf offset b) (offset + 1) bs

unfoldable pub to_bytes : ℕ → ℕ → List ℕ
to_bytes zero v = []
to_bytes (suc w) v = (v % 256) ∷ to_bytes w (v / 256)

unfoldable pub of_bytes : List ℕ → ℕ
of_bytes [] = 0
of_bytes (b ∷ bs) = b + 256 * of_bytes bs

pub length-to_bytes : (w v : ℕ) → length (to_bytes w v) ≡ w
unfolding to_bytes
length-to_bytes zero v = refl
length-to_bytes (suc w) v = ap suc (length-to_bytes w (v / 256))

-- An integer of `w` bytes is read back from its bytes.
pub of_bytes-to_bytes : (w v : ℕ) → v < 256 ^ w → of_bytes (to_bytes w v) ≡ v
unfolding of_bytes to_bytes
of_bytes-to_bytes zero v h = omega (arith, h)
of_bytes-to_bytes (suc w) v h = omega (arith, of_bytes-to_bytes w (v / 256) (below w v h))
  where
    below : (w v : ℕ) → v < 256 ^ suc w → v / 256 < 256 ^ w
    below w v h = let h' = rw pow-suc at h in omega arith

pub length-write_at : (buf : List ℕ) (i : ℕ) (bs : List ℕ) → length (write_at buf i bs) ≡ length buf
unfolding write_at
length-write_at buf i [] = refl
length-write_at buf i (b ∷ bs) = length-write_at (set buf i b) (i + 1) bs ∙ length-set buf i b

take-set_above : (buf : List ℕ) (i j x : ℕ) → j ≤ i → take j (set buf i x) ≡ take j buf
take-set_above buf i zero x h = refl
take-set_above [] i (suc j) x h = refl
take-set_above (b ∷ buf) zero (suc j) x h = absurd (omega arith)
take-set_above (b ∷ buf) (suc i) (suc j) x h = ap (◌∷◌ b) (take-set_above buf i j x (omega arith))

span-set_above : (buf : List ℕ) (i n j x : ℕ) → i + n ≤ j → span (set buf j x) i n ≡ span buf i n
span-set_above buf zero n j x h = take-set_above buf j n x (omega arith)
span-set_above [] (suc i) n j x h = refl
span-set_above (b ∷ buf) (suc i) n zero x h = absurd (omega arith)
span-set_above (b ∷ buf) (suc i) n (suc j) x h = span-set_above buf i n j x (omega arith)

-- What lies before the place written is kept.
pub span-write_at_before :
    (buf : List ℕ) (i n j : ℕ) (bs : List ℕ)
    → i + n ≤ j
    → span (write_at buf j bs) i n ≡ span buf i n
unfolding write_at
span-write_at_before buf i n j [] h = refl
span-write_at_before buf i n j (b ∷ bs) h =
    span-write_at_before (set buf j b) i n (j + 1) bs (omega arith) ∙ span-set_above buf i n j b h

pub drop_suc :
    (buf : List ℕ) (i d : ℕ) → i < length buf → drop i buf ≡ get_or buf i d ∷ drop (i + 1) buf
drop_suc [] i d h = absurd (omega arith)
drop_suc (x ∷ buf) zero d h = refl
drop_suc (x ∷ buf) (suc i) d h = rw suc-add (drop_suc buf i d (omega arith))

span-suc :
    (buf : List ℕ) (i n : ℕ)
    → i < length buf
    → span buf i (suc n) ≡ get_or buf i 0 ∷ span buf (i + 1) n
span-suc buf i n h = ap (take (suc n)) (drop_suc buf i 0 h)

get_or-write_at_before :
    (buf : List ℕ) (j i : ℕ) (bs : List ℕ) → j < i → get_or (write_at buf i bs) j 0 ≡ get_or buf j 0
unfolding write_at
get_or-write_at_before buf j i [] h = refl
get_or-write_at_before buf j i (b ∷ bs) h =
    get_or-write_at_before (set buf i b) j (i + 1) bs (omega arith)
    ∙ get_or-set_ne buf b 0 (let ne : i ≢ j = omega arith in ne)

pub get_or-write_at_behind :
    (buf : List ℕ) (j i : ℕ) (bs : List ℕ)
    → i + length bs ≤ j
    → get_or (write_at buf i bs) j 0 ≡ get_or buf j 0
unfolding write_at
get_or-write_at_behind buf j i [] h = refl
get_or-write_at_behind buf j i (b ∷ bs) h =
    get_or-write_at_behind (set buf i b) j (i + 1) bs (omega arith)
    ∙ get_or-set_ne buf b 0 (let ne : i ≢ j = omega arith in ne)

-- What is written is read back.
pub span-write_at_self :
    (buf : List ℕ) (i : ℕ) (bs : List ℕ)
    → i + length bs ≤ length buf
    → span (write_at buf i bs) i (length bs) ≡ bs
unfolding write_at
span-write_at_self buf i [] h = refl
span-write_at_self buf i (b ∷ bs) h =
    span-suc (write_at (set buf i b) (i + 1) bs) i (length bs)
      (omega (arith, length-write_at (set buf i b) (i + 1) bs, length-set buf i b))
    ∙ ap₂ ◌∷◌
        (get_or-write_at_before (set buf i b) i (i + 1) bs (omega arith)
          ∙ get_or-set_self buf i b 0 (omega arith))
        (span-write_at_self (set buf i b) (i + 1) bs (omega (arith, length-set buf i b)))

take-nil : (n : ℕ) → take {A = ℕ} n [] ≡ []
take-nil zero = refl
take-nil (suc n) = refl

take-add : (m n : ℕ) (buf : List ℕ) → take (m + n) buf ≡ take m buf ++ take n (drop m buf)
take-add zero n buf = ap (λ k. take k buf) (omega arith)
take-add (suc m) n [] = take-nil (suc m + n) ∙ sym (take-nil n)
take-add (suc m) n (x ∷ buf) = rw suc-add (ap (◌∷◌ x) (take-add m n buf))

drop-drop : (m n : ℕ) (buf : List ℕ) → drop n (drop m buf) ≡ drop (m + n) buf
drop-drop zero n buf = ap (λ k. drop k buf) (omega arith)
drop-drop (suc m) zero [] = rw suc-add refl
drop-drop (suc m) (suc n) [] = rw suc-add refl
drop-drop (suc m) n (x ∷ buf) = rw suc-add (drop-drop m n buf)

-- Neighbouring spans make up one.
pub span-add : (buf : List ℕ) (i m n : ℕ) → span buf i (m + n) ≡ span buf i m ++ span buf (i + m) n
span-add buf i m n =
    take-add m n (drop i buf) ∙ ap (λ k. take m (drop i buf) ++ take n k) (drop-drop i m buf)

pub length-span : (buf : List ℕ) (i n : ℕ) → i + n ≤ length buf → length (span buf i n) ≡ n
length-span buf i n h = omega (arith, length-take n (drop i buf), length-drop i buf)
