-- ===== src/Tests/Commands.antt =====
-- Runs of the parser of commands of pipe/src/commands/parse_command.rs on small inputs.
use flo_scene.Common.{
  ℕ, ◌≤◌, ◌≢◌, ◌&&◌, ◌||◌, Bool, leb, length, true, false, List, [], ◌∷◌, ◌++◌, Option, none, some,
  ◌≡◌, refl, arith, if◌then◌else◌, ◌==◌,
}
use flo_scene.Pipe
use flo_scene.Pipe.Json.{JsonToken, whitespace, character, is_whitespace, is_digit}
use flo_scene.Pipe.Utf8.{encode}
use flo_scene.Pipe.Tokenizer.{
  TokenMatch, matches, lookahead_is_prefix, lookahead_cannot_match, longest,
}
use flo_scene.Pipe.Parser
use flo_scene.Pipe.Parser.{token, node, accept_token, reduce, skip_token}
use flo_scene.Pipe.Values.{
  ParsedJson, bool, number, string, array, object, no_items, item, SerdeValue, serde_string,
  serde_number, json_tokens, unexpected_token,
}
use flo_scene.Pipe.Values.Parse.{json_parse_value}
use flo_scene.Pipe.Values.Print.{Serde}
use flo_scene.Pipe.Values.Pushes
use flo_scene.Pipe.Values.Halts.{json_parse_value-Pushes}
use flo_scene.Pipe.Commands.{
  CommandToken, variable, pipe, equals, newline, json, into_json, match_command, match_variable,
  match_command_comment, try_match, command_matchers, all_matches,
}
use flo_scene.Pipe.Commands.Steps.{
  CommandRequest, command, assign, parsed, CommandMatch, CommandParsed,
}
use flo_scene.Pipe.Commands.Parse.{command_parse}
use flo_scene.Pipe.Commands.Pushes.{IsParsed, Pushes}
use flo_scene.Pipe.Commands.Halts.{command_parse-Pushes}
use flo_scene.Pipe.Commands.Print.{with_spaces, tokens_of_request}
use flo_scene.Pipe.Commands.RoundTrip.{command_parse-tokens_of_request}
use flo_scene.Pipe.Commands.Words.{run_length, words-run_length, command_matchers_stable}
use flo_scene.Pipe.Commands.Bounds.{Safe, try_match-Safe}

-- A text is a string from its quotation mark on, or another character and the number.
abbrev number_text : List ℕ → Option (SerdeValue ℕ)
number_text (n ∷ []) = some (serde_number n)
number_text _ = none

abbrev read_text : List ℕ → Option (SerdeValue ℕ)
read_text [] = none
read_text (c ∷ cs) = if c == 34 then some (serde_string cs) else number_text cs

abbrev small_serde : Serde ℕ
small_serde = record {
  from_str = read_text;
  zero_number = 0;
  quote = λ s. 34 ∷ s;
  show_number = λ n. 48 ∷ n ∷ [];
  quoted = λ s. refl;
  shown = λ n. refl;
}

abbrev match_of : CommandToken → List ℕ → CommandMatch
match_of k text = record { token = some k; fragment = text }

abbrev run : List CommandMatch → CommandParsed ℕ
run ts = command_parse read_text 0 9 ts (record { stack = []; lookahead = [] })

-- `\n:x = f [5]\n`
assign_array :
    run (
      match_of newline (10 ∷ [])
      ∷ match_of variable (58 ∷ 120 ∷ [])
      ∷ match_of (json whitespace) (32 ∷ [])
      ∷ match_of equals (61 ∷ [])
      ∷ match_of CommandToken.command (102 ∷ [])
      ∷ match_of (json whitespace) (32 ∷ [])
      ∷ match_of (json (character 91)) (91 ∷ [])
      ∷ match_of newline (10 ∷ [])
      ∷ match_of (json Pipe.Json.number) (48 ∷ 5 ∷ [])
      ∷ match_of (json (character 93)) (93 ∷ [])
      ∷ match_of newline (10 ∷ [])
      ∷ [])
    ≡ parsed (match_of newline (10 ∷ []) ∷ []) (record {
      stack =
          node (assign (58 ∷ 120 ∷ []) (command (102 ∷ []) (array (item (number 5) no_items))))
          ∷ [];
      lookahead = [];
    })
unfolding command_parse accept_token reduce Pipe.Parser.look_ahead skip_token into_json
assign_array = refl

-- `:x = f [5, "b"]`, with two spaces before the equals sign and one before the command.
abbrev request : CommandRequest ℕ
request =
    assign (58 ∷ 120 ∷ [])
      (command (102 ∷ []) (array (item (number 5) (item (string (98 ∷ [])) no_items))))

abbrev gaps : List (List (List ℕ))
gaps = [] ∷ ((32 ∷ []) ∷ (32 ∷ []) ∷ []) ∷ ((32 ∷ []) ∷ []) ∷ []

enough : length (tokens_of_request small_serde request) ≤ 20
unfolding tokens_of_request
enough = omega arith

command_parse-tokens_of_request_example :
    command_parse read_text 0 20
      (with_spaces gaps (tokens_of_request small_serde request) (match_of newline (10 ∷ []) ∷ []))
      (record { stack = token (match_of pipe (124 ∷ [])) ∷ []; lookahead = [] })
    ≡ parsed
        (match_of newline (10 ∷ []) ∷ [])
        (record { stack = token (match_of pipe (124 ∷ [])) ∷ node request ∷ []; lookahead = [] })
command_parse-tokens_of_request_example =
    command_parse-tokens_of_request small_serde request 20 gaps (match_of newline (10 ∷ []) ∷ [])
      (token (match_of pipe (124 ∷ [])) ∷ []) tt enough

-- `f [` with no more input, where a comma is seen before.
abbrev open_array : List CommandMatch
open_array =
    match_of CommandToken.command (102 ∷ []) ∷ match_of (json (character 91)) (91 ∷ []) ∷ []

command_parse-Pushes_example :
    Pushes read_text 0
      (open_array, [])
      IsParsed
      []
      2
      (command_parse read_text 0 3 open_array (record { stack = []; lookahead = [] }))
command_parse-Pushes_example =
    command_parse-Pushes read_text 0 3 open_array (record { stack = []; lookahead = [] })
      (omega arith)

abbrev open_value : List (TokenMatch JsonToken)
open_value = record { token = some (character 91); fragment = 91 ∷ [] } ∷ []

json_parse_value-Pushes_example : Pipe.Values.Pushes.Pushes [] 1 (
    json_parse_value (λ k. some k) read_text 0 2 open_value (record { stack = []; lookahead = [] }))
json_parse_value-Pushes_example =
    json_parse_value-Pushes (λ k. some k) read_text 0 2 open_value
      (record { stack = []; lookahead = [] }) (omega arith)

-- The letters of ASCII.
abbrev is_letter : ℕ → Bool
is_letter c = leb 65 c && leb c 90 || leb 97 c && leb c 122

-- ` \n` after a no-break space.
try_match-Safe_example : Safe 1 3 (try_match is_letter newline (160 ∷ 32 ∷ 10 ∷ []) true)
try_match-Safe_example = try_match-Safe is_letter newline (160 ∷ 32 ∷ 10 ∷ []) true

-- The white space `\u{a0}\n` is not taken as the end of a line.
newline_missed : try_match is_letter newline (160 ∷ 10 ∷ []) true ≡ some lookahead_cannot_match
unfolding try_match is_whitespace encode
newline_missed = refl

-- `:` at the end of the file is a command, and before a space it is none.
lone_colon :
    (match_command is_letter (58 ∷ []) true ≡ matches CommandToken.command 1)
    × (match_command is_letter (58 ∷ 32 ∷ []) true ≡ lookahead_cannot_match)
unfolding match_command is_digit
lone_colon = (refl, refl)

-- `$x:` before an equals sign.
words-run_length_example :
    (match_command is_letter (36 ∷ 120 ∷ 58 ∷ 61 ∷ []) false ≡ lookahead_cannot_match)
    × (match_variable is_letter (36 ∷ 120 ∷ 58 ∷ 61 ∷ []) false ≡ matches variable 3)
unfolding run_length is_digit
words-run_length_example = words-run_length is_letter 36 (120 ∷ 58 ∷ 61 ∷ []) false

abbrev name_of_two : List ℕ
name_of_two = 120 ∷ 32 ∷ []

command_matchers_stable_example :
    (match_command is_letter (102 ∷ name_of_two) false ≢ lookahead_is_prefix
      → match_command is_letter (102 ∷ name_of_two ++ 120 ∷ []) true
        ≡ match_command is_letter (102 ∷ name_of_two) false)
    × (match_variable is_letter (102 ∷ name_of_two) false ≢ lookahead_is_prefix
        → match_variable is_letter (102 ∷ name_of_two ++ 120 ∷ []) true
          ≡ match_variable is_letter (102 ∷ name_of_two) false)
    × (match_command_comment (102 ∷ name_of_two) false ≢ lookahead_is_prefix
        → match_command_comment (102 ∷ name_of_two ++ 120 ∷ []) true
          ≡ match_command_comment (102 ∷ name_of_two) false)
command_matchers_stable_example = command_matchers_stable is_letter 102 name_of_two (120 ∷ []) true

-- `true` is a keyword and a command of the same length, of which the tokenizer takes the one that is
-- registered last. The other matches are those of its first character.
true_is_command :
    (all_matches is_letter command_matchers (116 ∷ 114 ∷ 117 ∷ 101 ∷ []) true
      ≡ some (
          (json (character 116), 1)
          ∷ (json Pipe.Json.keyword_true, 4)
          ∷ (CommandToken.command, 4)
          ∷ []))
    × (longest (
          (json (character 116), 1)
          ∷ (json Pipe.Json.keyword_true, 4)
          ∷ (CommandToken.command, 4)
          ∷ [])
        ≡ some (CommandToken.command, 4))
unfolding all_matches command_matchers Pipe.Json.try_match longest encode is_whitespace is_digit
true_is_command = (refl, refl)
