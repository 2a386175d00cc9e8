-- ===== src/Pipe/Commands/Bounds.antt =====
-- pipe/src/commands/parse_command.rs: no matcher of commands panics, and a token is never empty, and
-- never longer than the lookahead.
use flo_scene.Common.{
  ℕ, zero, suc, ◌+◌, ◌-◌, not, ◌||◌, ◌≤◌, ◌<◌, Bool, true, false, List, [], ◌∷◌, Option, none, some,
  ◌≡◌, refl, sym, subst, arith, ◌==◌, if◌then◌else◌, length, get_elem?, length-append,
}
use flo_scene.Pipe.Utf8.{encode, encode_char}
use flo_scene.Pipe.Tokenizer.{
  TokenMatchResult, matches, lookahead_is_prefix, lookahead_cannot_match,
}
use flo_scene.Pipe.Json.{JsonToken, whitespace, spaces, match_whitespace}
use flo_scene.Pipe.Commands.{
  CommandToken, command, variable, pipe, semi_colon, equals, comment, newline, json, word_rest,
  match_command, match_variable, comment_rest, match_command_comment, match_symbol, newline_of,
  match_newline, try_match,
}

-- A match of at least `low` and at most `high` characters, if there is one.
abbrev pub Between : ℕ → ℕ → TokenMatchResult CommandToken → Type 0
Between low high (matches t n) = (low ≤ n) × (n ≤ high)
Between low high _ = Unit {0}

-- The same, and there is no panic.
abbrev pub Safe : ℕ → ℕ → Option (TokenMatchResult CommandToken) → Type 0
Safe low high none = ⊥
Safe low high (some m) = Between low high m

word-Between :
    (is_alphabetic : ℕ → Bool) (t : CommandToken) (alone : Bool) (len : ℕ) (cs : List ℕ)
    (eof : Bool)
    → Between len (len + length cs) (word_rest is_alphabetic t alone len cs eof)
unfolding word_rest
word-Between is_alphabetic t alone len [] eof = ground arith
word-Between is_alphabetic t alone len (c ∷ cs) eof =
    ground (arith, word-Between is_alphabetic t alone (len + 1) cs eof)

comment-Between :
    (len : ℕ) (cs : List ℕ) (eof : Bool) → Between len (len + length cs) (comment_rest len cs eof)
unfolding comment_rest
comment-Between len [] eof = ground arith
comment-Between len (c ∷ cs) eof = ground (arith, comment-Between (len + 1) cs eof)

-- A match of white space, and of no other token.
abbrev IsWhitespace : ℕ → ℕ → TokenMatchResult JsonToken → Type 0
IsWhitespace low high (matches whitespace n) = (low ≤ n) × (n ≤ high)
IsWhitespace low high (matches _ n) = ⊥
IsWhitespace low high _ = Unit {0}

spaces-IsWhitespace :
    (len : ℕ) (cs : List ℕ) (eof : Bool) → IsWhitespace len (len + length cs) (spaces len cs eof)
unfolding spaces
spaces-IsWhitespace len [] eof = ground arith
spaces-IsWhitespace len (c ∷ cs) eof = ground (arith, spaces-IsWhitespace (len + 1) cs eof)

match_whitespace-IsWhitespace :
    (cs : List ℕ) (eof : Bool) → IsWhitespace 1 (length cs) (match_whitespace cs eof)
unfolding match_whitespace
match_whitespace-IsWhitespace [] eof = tt
match_whitespace-IsWhitespace (c ∷ cs) eof = ground (arith, spaces-IsWhitespace 1 cs eof)

length-encode_char : (c : ℕ) → 1 ≤ length (encode_char c)
unfolding encode_char
length-encode_char c = ground arith

length-le-encode : (cs : List ℕ) → length cs ≤ length (encode cs)
unfolding encode
length-le-encode [] = omega arith
length-le-encode (c ∷ cs) =
    omega
      (arith, length-append (encode_char c) (encode cs), length-encode_char c, length-le-encode cs)

get_elem?-lt :
    {A : Type 0} (xs : List A) (n : ℕ) → n < length xs → (x : A) × (get_elem? xs n ≡ some x)
get_elem?-lt [] n h = absurd (omega arith)
get_elem?-lt (x ∷ xs) zero h = (x, refl)
get_elem?-lt (x ∷ xs) (suc n) h = get_elem?-lt xs n (omega arith)

newline_of-Safe :
    (cs : List ℕ) (m : TokenMatchResult JsonToken)
    → IsWhitespace 1 (length cs) m
    → Safe 1 (length cs) (newline_of cs m)
newline_of-Safe cs (matches whitespace n) h =
    let found = get_elem?-lt (encode cs) (n - 1) (omega (arith, length-le-encode cs)) in
    subst
      (λ o. Safe 1 (length cs) (elim o [
        | none ↦ none
        | some b ↦ some (if b == 10 || b == 13 then matches newline n else lookahead_cannot_match)
      ]))
      (sym found.1) (on_byte (found.0 == 10 || found.0 == 13))
  where
    on_byte :
        (b : Bool) → Between 1 (length cs) (if b then matches newline n else lookahead_cannot_match)
    on_byte true = h
    on_byte false = tt
newline_of-Safe cs (matches _ n) h = absurd h
newline_of-Safe cs lookahead_is_prefix h = tt
newline_of-Safe cs lookahead_cannot_match h = tt

symbol-Between :
    (t : CommandToken) (c : ℕ) (cs : List ℕ) → Between 1 (length cs) (match_symbol t c cs)
unfolding match_symbol
symbol-Between t c [] = tt
symbol-Between t c (d ∷ cs) = ground arith

comments-Between : (cs : List ℕ) (eof : Bool) → Between 1 (length cs) (match_command_comment cs eof)
unfolding match_command_comment
comments-Between [] eof = tt
comments-Between (c ∷ []) eof = ground arith
comments-Between (c ∷ d ∷ cs) eof = ground (arith, comment-Between 2 cs eof)

-- No matcher of commands panics, so that the byte that the matcher of new lines looks at is there; and a
-- match has one character at least, and no more than the lookahead.
pub try_match-Safe :
    (is_alphabetic : ℕ → Bool) (t : CommandToken) (cs : List ℕ) (eof : Bool)
    → Safe 1 (length cs) (try_match is_alphabetic t cs eof)
unfolding try_match match_command match_variable match_newline
try_match-Safe is_alphabetic command [] eof = tt
try_match-Safe is_alphabetic command (c ∷ cs) eof =
    ground (arith, word-Between is_alphabetic command (not (c == 58)) 1 cs eof)
try_match-Safe is_alphabetic variable [] eof = tt
try_match-Safe is_alphabetic variable (c ∷ cs) eof =
    ground (arith, word-Between is_alphabetic variable false 1 cs eof)
try_match-Safe is_alphabetic comment cs eof = comments-Between cs eof
try_match-Safe is_alphabetic pipe cs eof = symbol-Between pipe 124 cs
try_match-Safe is_alphabetic semi_colon cs eof = symbol-Between semi_colon 59 cs
try_match-Safe is_alphabetic equals cs eof = symbol-Between equals 61 cs
try_match-Safe is_alphabetic newline cs eof =
    newline_of-Safe cs (match_whitespace cs eof) (match_whitespace-IsWhitespace cs eof)
try_match-Safe is_alphabetic (json k) cs eof = tt
