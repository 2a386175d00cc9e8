-- ===== src/Pipe/Json/Keywords.antt =====
-- pipe/src/parse_json.rs: `match_true`, `match_false` and `match_null`.
use flo_scene.Common.{
  ℕ, zero, suc, ◌≤◌, ◌<◌, List, [], ◌∷◌, none, some, ◌≡◌, refl, arith, length, take, ltb, ◌==◌,
  if◌then◌else◌, ap, inl, inr, Bool-cases,
}
use flo_scene.Pipe.Utf8.{encode, encode_char}
use flo_scene.Pipe.Tokenizer.{
  TokenMatchResult, matches, lookahead_is_prefix, lookahead_cannot_match,
}
use flo_scene.Pipe.Json.{
  JsonToken, keyword_true, keyword_false, keyword_null, same, slice, match_keyword, match_true,
  match_false, match_null,
}

abbrev pub Ascii : List ℕ → Type 0
Ascii [] = Unit
Ascii (c ∷ cs) = (c < 128) × Ascii cs

-- What a keyword's matcher is to say: the keyword against the lookahead, character by character.
abbrev pub keyword_of : JsonToken → ℕ → List ℕ → List ℕ → TokenMatchResult JsonToken
keyword_of t n [] cs = matches t n
keyword_of t n (w ∷ ws) [] = lookahead_is_prefix
keyword_of t n (w ∷ ws) (c ∷ cs) =
    let rest = keyword_of t n ws cs in if c == w then rest else lookahead_cannot_match

encode-Ascii : (cs : List ℕ) → Ascii cs → encode cs ≡ cs
unfolding encode encode_char
encode-Ascii [] a = refl
encode-Ascii (c ∷ cs) a = ground (arith, encode-Ascii cs a.1)

slice-Ascii : (n : ℕ) (cs : List ℕ) → Ascii cs → n ≤ length cs → slice n cs ≡ some (take n cs)
unfolding slice encode_char
slice-Ascii zero [] a h = refl
slice-Ascii zero (c ∷ cs) a h = refl
slice-Ascii (suc n) [] a h = absurd (omega (arith, h))
slice-Ascii (suc n) (c ∷ cs) a h = ground (arith, slice-Ascii n cs a.1)

shorter :
    (t : JsonToken) (n : ℕ) (ws cs : List ℕ)
    → length cs < length ws
    → (if same cs (take (length cs) ws) then lookahead_is_prefix else lookahead_cannot_match)
      ≡ keyword_of t n ws cs
unfolding same
shorter t n [] cs h = absurd (omega (arith, h))
shorter t n (w ∷ ws) [] h = refl
shorter t n (w ∷ ws) (c ∷ cs) h = ground (arith, shorter t n ws cs)

longer :
    (t : JsonToken) (n : ℕ) (ws cs : List ℕ)
    → length ws ≤ length cs
    → (if same (take (length ws) cs) ws then matches t n else lookahead_cannot_match)
      ≡ keyword_of t n ws cs
unfolding same
longer t n [] cs h = refl
longer t n (w ∷ ws) [] h = absurd (omega (arith, h))
longer t n (w ∷ ws) (c ∷ cs) h = ground (arith, longer t n ws cs)

keyword-Ascii :
    (t : JsonToken) (word cs : List ℕ)
    → Ascii cs
    → match_keyword t word cs ≡ some (keyword_of t (length word) word cs)
unfolding match_keyword
keyword-Ascii t word cs a =
    rw (encode-Ascii cs a, match_keyword)
      (elim (Bool-cases (ltb (length cs) (length word))) [
        | inl short ↦ rw short (ap some (shorter t (length word) word cs (ground arith)))
        | inr long ↦
            rw (long, slice-Ascii (length word) cs a (ground arith))
              (ap some (longer t (length word) word cs (ground arith)))
      ])

-- On a lookahead of ASCII characters the matchers of keywords never panic, and compare it with the
-- keyword character by character: a match if the whole keyword is there, a prefix if the lookahead
-- ends first, and otherwise no match.
pub keywords-Ascii :
    (cs : List ℕ)
    → Ascii cs
    → (match_true cs ≡ some (keyword_of keyword_true 4 (116 ∷ 114 ∷ 117 ∷ 101 ∷ []) cs))
      × (match_false cs ≡ some (keyword_of keyword_false 5 (102 ∷ 97 ∷ 108 ∷ 115 ∷ 101 ∷ []) cs))
      × (match_null cs ≡ some (keyword_of keyword_null 4 (110 ∷ 117 ∷ 108 ∷ 108 ∷ []) cs))
unfolding match_true match_false match_null
keywords-Ascii cs a = (
  keyword-Ascii keyword_true (116 ∷ 114 ∷ 117 ∷ 101 ∷ []) cs a,
  keyword-Ascii keyword_false (102 ∷ 97 ∷ 108 ∷ 115 ∷ 101 ∷ []) cs a,
  keyword-Ascii keyword_null (110 ∷ 117 ∷ 108 ∷ 108 ∷ []) cs a,
)

-- A lookahead that starts with an ASCII character and two characters of two bytes each makes the
-- matchers of `true` and `null` panic, since the fourth byte ends within a character.
pub keywords_panic :
    (c d e : ℕ) (cs : List ℕ)
    → c < 128
    → 128 ≤ d
    → d < 2048
    → 128 ≤ e
    → e < 2048
    → (match_true (c ∷ d ∷ e ∷ cs) ≡ none) × (match_null (c ∷ d ∷ e ∷ cs) ≡ none)
unfolding match_true match_null match_keyword slice encode encode_char
keywords_panic c d e cs hc hd hd' he he' = (ground arith, ground arith)
