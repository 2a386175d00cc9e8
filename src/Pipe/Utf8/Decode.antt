-- ===== src/Pipe/Utf8/Decode.antt =====
-- pipe/src/tokenizer.rs: what the bytes of a text are read as.
use flo_scene.Common.{
  ap, ◌∙◌, ℕ, zero, suc, ◌+◌, ◌≤◌, ◌<◌, ◌/◌, ◌%◌, List, [], ◌∷◌, ◌++◌, none, some, ◌≡◌, refl, arith,
  ltb, length, inl, inr, Bool-cases, Option-cases,
}
use flo_scene.Pipe.Utf8.{
  num_extra, all_continue, u32_chr, read_extra, read_character, encode_char, encode,
}

two_bytes :
    (c : ℕ) (rest : List ℕ)
    → 128 ≤ c
    → c < 2048
    → read_character ((192 + c / 64) ∷ (128 + c % 64) ∷ rest) ≡ some (c, rest)
unfolding read_character num_extra read_extra all_continue u32_chr
two_bytes c rest low high = ground arith

three_bytes :
    (c : ℕ) (rest : List ℕ)
    → 2048 ≤ c
    → c < 65536
    → read_character ((224 + c / 4096) ∷ (128 + c / 64 % 64) ∷ (128 + c % 64) ∷ rest)
      ≡ some (c, rest)
unfolding read_character num_extra read_extra all_continue u32_chr
three_bytes c rest low high = ground arith

four_bytes :
    (c : ℕ) (rest : List ℕ)
    → 65536 ≤ c
    → c < 2097152
    → read_character
        ((240 + c / 262144) ∷ (128 + c / 4096 % 64) ∷ (128 + c / 64 % 64) ∷ (128 + c % 64) ∷ rest)
      ≡ some (c, rest)
unfolding read_character num_extra read_extra all_continue u32_chr
four_bytes c rest low high = ground arith

pub read_character-encode_char :
    (c : ℕ) (rest : List ℕ) → c < 2097152 → read_character (encode_char c ++ rest) ≡ some (c, rest)
unfolding encode_char
read_character-encode_char c rest high = elim (Bool-cases (ltb c 128)) [
  | inl one ↦ rw (one, encode_char) (unfold read_character in ground arith)
  | inr more ↦ ground (arith, two_bytes c rest, three_bytes c rest, four_bytes c rest)
]

-- A character that is read takes a byte at least.
pub read_shrinks :
    (bytes : List ℕ) {c : ℕ} {rest : List ℕ}
    → read_character bytes ≡ some (c, rest)
    → length rest < length bytes
unfolding read_character read_extra
read_shrinks [] e = cc e
read_shrinks (first ∷ bytes) e = ground arith

-- More bytes change nothing about a character that is read.
pub read_character-append :
    (bytes more : List ℕ) {c : ℕ} {rest : List ℕ}
    → read_character bytes ≡ some (c, rest)
    → read_character (bytes ++ more) ≡ some (c, rest ++ more)
unfolding read_character read_extra num_extra
read_character-append [] more e = cc e
read_character-append (first ∷ []) more e = ground arith
read_character-append (first ∷ a ∷ []) more e = ground arith
read_character-append (first ∷ a ∷ b ∷ []) more e = ground arith
read_character-append (first ∷ a ∷ b ∷ d ∷ bytes) more e = ground arith

-- All the characters that can be read from bytes, on fuel.
pub decode_for : ℕ → List ℕ → List ℕ
decode_for zero bytes = []
decode_for (suc n) bytes = elim (read_character bytes) [
  | none ↦ []
  | some (c, rest) ↦ c ∷ decode_for n rest
]

pub decode : List ℕ → List ℕ
unfolding decode_for
decode bytes = decode_for (length bytes) bytes

decode_fuel :
    (n m : ℕ) (bytes : List ℕ)
    → length bytes ≤ n
    → length bytes ≤ m
    → decode_for n bytes ≡ decode_for m bytes
unfolding decode_for
decode_fuel zero zero bytes hn hm = refl
decode_fuel zero (suc m) [] hn hm = unfold read_character in refl
decode_fuel zero (suc m) (b ∷ bytes) hn hm = ground arith
decode_fuel (suc n) zero [] hn hm = unfold read_character in refl
decode_fuel (suc n) zero (b ∷ bytes) hn hm = ground arith
decode_fuel (suc n) (suc m) bytes hn hm = elim (Option-cases (read_character bytes)) [
  | inl stuck ↦ rw (stuck, decode_for) refl
  | inr ((c, rest), e) ↦
      let shorter = read_shrinks bytes e in
      rw (e, decode_for) (ap (λ cs. c ∷ cs) (decode_fuel n m rest (omega arith) (omega arith)))
]

read_nothing : read_character [] ≡ none
unfolding read_character
read_nothing = refl

pub decode-some :
    (bytes : List ℕ) {c : ℕ} {rest : List ℕ}
    → read_character bytes ≡ some (c, rest)
    → decode bytes ≡ c ∷ decode rest
unfolding decode decode_for
decode-some [] e = absurd (cc (read_nothing, e))
decode-some (b ∷ bytes) {c} {rest} e =
    let shorter = read_shrinks (b ∷ bytes) e in
    rw (e, decode_for)
      (ap (λ cs. c ∷ cs)
        (decode_fuel (length bytes) (length rest) rest (omega arith) (omega arith)))

pub decode-none : (bytes : List ℕ) → read_character bytes ≡ none → decode bytes ≡ []
unfolding decode decode_for
decode-none [] e = refl
decode-none (b ∷ bytes) e = rw (e, decode_for) refl

-- Every character is a number of at most 21 bits.
abbrev pub Fits : List ℕ → Type 0
Fits [] = Unit
Fits (c ∷ cs) = (c < 2097152) × Fits cs

-- A text whose characters have at most 21 bits is read back from its bytes. This is so of the
-- numbers of 21 bits that are no characters as well.
pub decode-encode : (cs : List ℕ) → Fits cs → decode (encode cs) ≡ cs
unfolding encode
decode-encode [] fits = unfold decode in unfold decode_for in refl
decode-encode (c ∷ cs) fits =
    decode-some (encode_char c ++ encode cs) (read_character-encode_char c (encode cs) fits.0)
    ∙ ap (λ ds. c ∷ ds) (decode-encode cs fits.1)
