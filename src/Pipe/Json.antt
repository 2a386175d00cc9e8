-- ===== src/Pipe/Json.antt =====
-- pipe/src/parse_json.rs: the matchers of JSON tokens. A character is its code point.
pub mod Stable
pub mod Bounds
pub mod Keywords
use flo_scene.Common.{
  ℕ, ◌+◌, ◌-◌, Bool, true, false, not, ◌&&◌, ◌||◌, List, [], ◌∷◌, Option, none, some, ltb, leb,
  ◌==◌, if◌then◌else◌, length, take,
}
use flo_scene.Pipe.Utf8.{encode, encode_char}
use flo_scene.Pipe.Tokenizer.{
  TokenMatchResult, matches, lookahead_is_prefix, lookahead_cannot_match,
}

pub data JsonToken : Type 0 where
  whitespace number string keyword_true keyword_false keyword_null variable : JsonToken
  character : ℕ → JsonToken

-- `char::is_whitespace`: the characters that Unicode calls White_Space.
unfoldable pub is_whitespace : ℕ → Bool
is_whitespace c =
    leb 9 c && leb c 13
    || c == 32
    || c == 133
    || c == 160
    || c == 5760
    || leb 8192 c && leb c 8202
    || c == 8232
    || c == 8233
    || c == 8239
    || c == 8287
    || c == 12288

abbrev pub is_newline : ℕ → Bool
is_newline c = c == 10 || c == 13

-- `char::is_digit(10)`
unfoldable pub is_digit : ℕ → Bool
is_digit c = leb 48 c && leb c 57

-- The `while` of `match_whitespace`, and what follows it.
unfoldable pub spaces : ℕ → List ℕ → Bool → TokenMatchResult JsonToken
spaces len [] eof = if eof then matches whitespace len else lookahead_is_prefix
spaces len (c ∷ cs) eof =
    let rest = spaces (len + 1) cs eof in
    if is_newline c
    then matches whitespace (len + 1)
    else if not (is_whitespace c)
    then matches whitespace len
    else rest

unfoldable pub match_whitespace : List ℕ → Bool → TokenMatchResult JsonToken
unfolding spaces
match_whitespace [] eof = lookahead_is_prefix
match_whitespace (c ∷ cs) eof =
    if not (is_whitespace c)
    then lookahead_cannot_match
    else if is_newline c
    then matches whitespace 1
    else spaces 1 cs eof

-- A loop over digits: the length after them, and the characters from the first other one on.
unfoldable pub digits : ℕ → List ℕ → ℕ × List ℕ
digits len [] = (len, [])
digits len (c ∷ cs) = let rest = digits (len + 1) cs in if is_digit c then rest else (len, c ∷ cs)

-- Where the lookahead ends within a number.
abbrev pub at_end : Bool → ℕ → TokenMatchResult JsonToken
at_end eof len = if not eof then lookahead_is_prefix else matches number len

abbrev pub number_ends : Bool → ℕ × List ℕ → TokenMatchResult JsonToken
number_ends eof (len, []) = at_end eof len
number_ends eof (len, c ∷ cs) = matches number len

unfoldable pub after_e : ℕ → List ℕ → Bool → TokenMatchResult JsonToken
unfolding digits
after_e len [] eof = at_end eof len
after_e len (c ∷ cs) eof =
    if not (c == 43) && not (c == 45) && not (is_digit c)
    then matches number len
    else number_ends eof (digits (len + 2) cs)

unfoldable pub exponent : ℕ × List ℕ → Bool → TokenMatchResult JsonToken
unfolding after_e
exponent (len, []) eof = at_end eof len
exponent (len, c ∷ cs) eof = if c == 101 || c == 69 then after_e len cs eof else matches number len

unfoldable pub decimal : ℕ × List ℕ → Bool → TokenMatchResult JsonToken
unfolding exponent digits
decimal (len, []) eof = at_end eof len
decimal (len, c ∷ cs) eof =
    if c == 46 then exponent (digits (len + 1) cs) eof else exponent (len, c ∷ cs) eof

-- What follows a '-'.
unfoldable pub after_minus : List ℕ → Bool → TokenMatchResult JsonToken
unfolding decimal digits
after_minus [] eof = if not eof then lookahead_is_prefix else lookahead_cannot_match
after_minus (c ∷ cs) eof =
    if not (is_digit c) then lookahead_cannot_match else decimal (digits 2 cs) eof

unfoldable pub match_number : List ℕ → Bool → TokenMatchResult JsonToken
unfolding after_minus decimal digits
match_number [] eof = lookahead_is_prefix
match_number (c ∷ cs) eof =
    if not (c == 45) && not (is_digit c)
    then lookahead_cannot_match
    else if c == 45
    then after_minus cs eof
    else decimal (digits 1 cs) eof

-- The `while` of `match_string`, and what follows it.
unfoldable pub string_rest : ℕ → List ℕ → Bool → TokenMatchResult JsonToken
string_rest len [] eof = if not eof then lookahead_is_prefix else lookahead_cannot_match
string_rest len (c ∷ []) eof =
    let rest = string_rest (len + 1) [] eof in
    if c == 34
    then matches string (len + 1)
    else if c == 92
    then if not eof then lookahead_is_prefix else lookahead_cannot_match
    else rest
string_rest len (c ∷ d ∷ cs) eof =
    let quoted = string_rest (len + 2) cs eof in
    let rest = string_rest (len + 1) (d ∷ cs) eof in
    if c == 34 then matches string (len + 1) else if c == 92 then quoted else rest

unfoldable pub match_string : List ℕ → Bool → TokenMatchResult JsonToken
unfolding string_rest
match_string [] eof = lookahead_is_prefix
match_string (c ∷ cs) eof = if not (c == 34) then lookahead_cannot_match else string_rest 1 cs eof

unfoldable pub match_character : List ℕ → Bool → TokenMatchResult JsonToken
match_character [] eof = lookahead_cannot_match
match_character (c ∷ cs) eof = matches (character c) 1

-- `==` of strings.
unfoldable pub same : List ℕ → List ℕ → Bool
same [] [] = true
same (a ∷ xs) (b ∷ ys) = a == b && same xs ys
same _ _ = false

abbrev pub cons_some : ℕ → Option (List ℕ) → Option (List ℕ)
cons_some c none = none
cons_some c (some cs) = some (c ∷ cs)

-- `&lookahead[0..n]`, which counts bytes; `none` is its panic, within a character or past the end.
unfoldable pub slice : ℕ → List ℕ → Option (List ℕ)
slice n [] = if n == 0 then some [] else none
slice n (c ∷ cs) =
    let rest = slice (n - length (encode_char c)) cs in
    if n == 0 then some [] else if leb (length (encode_char c)) n then cons_some c rest else none

-- The body that `match_true`, `match_false` and `match_null` share, for an ASCII keyword.
unfoldable pub match_keyword : JsonToken → List ℕ → List ℕ → Option (TokenMatchResult JsonToken)
unfolding same slice
match_keyword t word cs =
    if ltb (length (encode cs)) (length word)
    then some (
        if same (encode cs) (take (length (encode cs)) word)
        then lookahead_is_prefix
        else lookahead_cannot_match)
    else elim (slice (length word) cs) [
      | none ↦ none
      | some start ↦
          some (if same start word then matches t (length word) else lookahead_cannot_match)
    ]

unfoldable pub match_true : List ℕ → Option (TokenMatchResult JsonToken)
unfolding match_keyword
match_true cs = match_keyword keyword_true (116 ∷ 114 ∷ 117 ∷ 101 ∷ []) cs

unfoldable pub match_false : List ℕ → Option (TokenMatchResult JsonToken)
unfolding match_keyword
match_false cs = match_keyword keyword_false (102 ∷ 97 ∷ 108 ∷ 115 ∷ 101 ∷ []) cs

unfoldable pub match_null : List ℕ → Option (TokenMatchResult JsonToken)
unfolding match_keyword
match_null cs = match_keyword keyword_null (110 ∷ 117 ∷ 108 ∷ 108 ∷ []) cs

-- `JsonToken::try_match`; `none` is a panic.
unfoldable pub try_match : JsonToken → List ℕ → Bool → Option (TokenMatchResult JsonToken)
unfolding match_whitespace match_number match_character match_string match_true match_false
    match_null
try_match whitespace cs eof = some (match_whitespace cs eof)
try_match number cs eof = some (match_number cs eof)
try_match (character _) cs eof = some (match_character cs eof)
try_match string cs eof = some (match_string cs eof)
try_match keyword_true cs eof = match_true cs
try_match keyword_false cs eof = match_false cs
try_match keyword_null cs eof = match_null cs
try_match variable cs eof = some lookahead_cannot_match

-- The matchers of `with_json_matchers`, in their order.
unfoldable pub json_matchers : List JsonToken
json_matchers =
    character 32 ∷ whitespace ∷ number ∷ string ∷ keyword_true ∷ keyword_false ∷ keyword_null ∷ []
