-- ===== src/Pipe/Commands.antt =====
-- pipe/src/commands/parse_command.rs: the tokens of a command and their matchers. `char::is_alphabetic`
-- of the standard library is a parameter, and a matcher that panics gives `none`.
pub mod Steps
pub mod Parse
pub mod Reads
pub mod Ahead
pub mod Pushes
pub mod Halts
pub mod Print
pub mod Spaces
pub mod FirstToken
pub mod Arguments
pub mod RoundTrip
pub mod Words
pub mod Bounds
use flo_scene.Common.{
  ℕ, ◌+◌, ◌-◌, Bool, true, false, not, ◌&&◌, ◌||◌, List, [], ◌∷◌, ◌++◌, map, Option, none, some,
  ◌⊎◌, inl, inr, ltb, ◌==◌, if◌then◌else◌, get_elem?,
}
use flo_scene.Pipe.Utf8.{encode}
use flo_scene.Pipe.Tokenizer.{
  TokenMatchResult, matches, lookahead_is_prefix, lookahead_cannot_match,
}
use flo_scene.Pipe.Json
use flo_scene.Pipe.Json.{
  JsonToken, json_matchers, whitespace, character, is_newline, is_digit, match_whitespace,
}

pub data CommandToken : Type 0 where
  command variable pipe semi_colon equals comment newline : CommandToken
  json : JsonToken → CommandToken

-- `TryInto<JsonToken>`; `none` is the error.
unfoldable pub into_json : CommandToken → Option JsonToken
into_json (json k) = some k
into_json variable = some JsonToken.variable
into_json comment = some whitespace
into_json newline = some whitespace
into_json _ = none

-- The `while` of `match_command` and of `match_variable`, and what follows it: `alone` says whether a
-- first character that nothing continues is a token.
module _ (is_alphabetic : ℕ → Bool) where
  abbrev pub continues : ℕ → Bool
  continues c = is_alphabetic c || is_digit c || c == 95 || c == 58

  unfoldable pub word_rest : CommandToken → Bool → ℕ → List ℕ → Bool → TokenMatchResult CommandToken
  word_rest t alone len [] eof = if eof then matches t len else lookahead_is_prefix
  word_rest t alone len (c ∷ cs) eof =
      let rest = word_rest t alone (len + 1) cs eof in
      if continues c
      then rest
      else if alone || ltb 1 len
      then matches t len
      else lookahead_cannot_match

  abbrev pub starts_command : ℕ → Bool
  starts_command c = is_alphabetic c || c == 95 || c == 58

  unfoldable pub match_command : List ℕ → Bool → TokenMatchResult CommandToken
  unfolding word_rest
  match_command [] eof = lookahead_cannot_match
  match_command (c ∷ cs) eof =
      if starts_command c
      then word_rest command (not (c == 58)) 1 cs eof
      else lookahead_cannot_match

  unfoldable pub match_variable : List ℕ → Bool → TokenMatchResult CommandToken
  unfolding word_rest
  match_variable [] eof = lookahead_cannot_match
  match_variable (c ∷ cs) eof =
      if c == 58 || c == 36 || c == 95
      then word_rest variable false 1 cs eof
      else lookahead_cannot_match

-- The `while` of `match_command_comment`, and what follows it.
unfoldable pub comment_rest : ℕ → List ℕ → Bool → TokenMatchResult CommandToken
comment_rest len [] eof = if not eof then lookahead_is_prefix else matches comment len
comment_rest len (c ∷ cs) eof =
    let rest = comment_rest (len + 1) cs eof in
    if is_newline c then matches comment (len + 1) else rest

unfoldable pub match_command_comment : List ℕ → Bool → TokenMatchResult CommandToken
unfolding comment_rest
match_command_comment [] eof = lookahead_is_prefix
match_command_comment (c ∷ []) eof =
    if not (c == 47)
    then lookahead_cannot_match
    else if not eof
    then lookahead_is_prefix
    else lookahead_cannot_match
match_command_comment (c ∷ d ∷ cs) eof =
    if not (c == 47)
    then lookahead_cannot_match
    else if not (d == 47)
    then lookahead_cannot_match
    else comment_rest 2 cs eof

-- `starts_with` of one character.
unfoldable pub match_symbol : CommandToken → ℕ → List ℕ → TokenMatchResult CommandToken
match_symbol t c [] = lookahead_cannot_match
match_symbol t c (d ∷ cs) = if d == c then matches t 1 else lookahead_cannot_match

-- The byte `lookahead.as_bytes()[count - 1]` decides; `count` is a number of characters.
abbrev pub ends_line : List ℕ → ℕ → Option (TokenMatchResult CommandToken)
ends_line cs count = elim (get_elem? (encode cs) (count - 1)) [
  | none ↦ none
  | some b ↦ some (if b == 10 || b == 13 then matches newline count else lookahead_cannot_match)
]

abbrev pub newline_of : List ℕ → TokenMatchResult JsonToken → Option (TokenMatchResult CommandToken)
newline_of cs (matches whitespace count) = ends_line cs count
newline_of cs (matches _ count) = none
newline_of cs lookahead_cannot_match = some lookahead_cannot_match
newline_of cs lookahead_is_prefix = some lookahead_is_prefix

unfoldable pub match_newline : List ℕ → Bool → Option (TokenMatchResult CommandToken)
unfolding match_whitespace
match_newline cs eof = newline_of cs (match_whitespace cs eof)

module _ (is_alphabetic : ℕ → Bool) where
  unfoldable pub try_match : CommandToken → List ℕ → Bool → Option (TokenMatchResult CommandToken)
  unfolding match_command match_variable match_command_comment match_symbol match_newline
  try_match command cs eof = some (match_command is_alphabetic cs eof)
  try_match variable cs eof = some (match_variable is_alphabetic cs eof)
  try_match comment cs eof = some (match_command_comment cs eof)
  try_match pipe cs eof = some (match_symbol pipe 124 cs)
  try_match semi_colon cs eof = some (match_symbol semi_colon 59 cs)
  try_match equals cs eof = some (match_symbol equals 61 cs)
  try_match newline cs eof = match_newline cs eof
  try_match (json k) cs eof = some lookahead_cannot_match

-- The matchers of `with_command_matchers`, in their order: first those of JSON.
unfoldable pub command_matchers : List (JsonToken ⊎ CommandToken)
unfolding json_matchers
command_matchers =
    map (λ k. inl k) json_matchers
    ++ inr command
      ∷ inr variable
      ∷ inr comment
      ∷ inr pipe
      ∷ inr semi_colon
      ∷ inr equals
      ∷ inr newline
      ∷ []

module _ (is_alphabetic : ℕ → Bool) where
  abbrev pub as_command :
      Option (TokenMatchResult JsonToken) → Option (TokenMatchResult CommandToken)
  as_command none = none
  as_command (some (matches k n)) = some (matches (json k) n)
  as_command (some lookahead_is_prefix) = some lookahead_is_prefix
  as_command (some lookahead_cannot_match) = some lookahead_cannot_match

  -- `try_match` of one of them, a token of JSON being converted.
  abbrev pub match_either :
      JsonToken ⊎ CommandToken → List ℕ → Bool → Option (TokenMatchResult CommandToken)
  match_either (inl k) cs eof = as_command (Json.try_match k cs eof)
  match_either (inr t) cs eof = try_match is_alphabetic t cs eof

  abbrev pub matched :
      Option (TokenMatchResult CommandToken)
      → Option (List (CommandToken × ℕ))
      → Option (List (CommandToken × ℕ))
  matched none found = none
  matched (some m) none = none
  matched (some (matches t n)) (some found) = some ((t, n) ∷ found)
  matched (some _) (some found) = some found

  -- What the matchers take of a lookahead, in their order; `none` if one panics.
  unfoldable pub all_matches :
      List (JsonToken ⊎ CommandToken) → List ℕ → Bool → Option (List (CommandToken × ℕ))
  unfolding try_match
  all_matches [] cs eof = some []
  all_matches (m ∷ ms) cs eof = matched (match_either m cs eof) (all_matches ms cs eof)
