-- ===== src/Tests/Values.antt =====
-- Runs of the parser of JSON values of pipe/src/parse_json.rs on small inputs.
use flo_scene.Common.{
  ℕ, ◌≤◌, true, List, [], ◌∷◌, ◌++◌, Option, none, some, ◌≡◌, refl, arith, if◌then◌else◌, ◌==◌,
}
use flo_scene.Pipe
use flo_scene.Pipe.Json.{JsonToken, whitespace, character}
use flo_scene.Pipe.Tokenizer.{TokenMatch}
use flo_scene.Pipe.Parser.{token, node, look_ahead, accept_token, reduce}
use flo_scene.Pipe.Values.{
  ParsedJson, bool, number, string, array, object, no_items, item, no_fields, field, SerdeValue,
  serde_string, serde_number, json_tokens, unexpected_token,
}
use flo_scene.Pipe.Values.Steps.{parsed, failed, panics}
use flo_scene.Pipe.Values.Parse.{json_parse_value}
use flo_scene.Pipe.Values.Print.{Serde, json_symbols, match_of, sign, tokens_of, fuel_of}
use flo_scene.Pipe.Values.Stacks.{with_stack}
use flo_scene.Pipe.Values.RoundTrip.{json_parse_value-tokens_of}

-- A text is a string from its quotation mark on, or another character and the number.
abbrev number_text : List ℕ → Option (SerdeValue ℕ)
number_text (n ∷ []) = some (serde_number n)
number_text _ = none

abbrev read_text : List ℕ → Option (SerdeValue ℕ)
read_text [] = none
read_text (c ∷ cs) = if c == 34 then some (serde_string cs) else number_text cs

abbrev small_serde : Serde ℕ
small_serde = record {
  from_str = read_text;
  zero_number = 0;
  quote = λ s. 34 ∷ s;
  show_number = λ n. 48 ∷ n ∷ [];
  quoted = λ s. refl;
  shown = λ n. refl;
}

-- `[{"a": [true, 5]}, "b"]`
abbrev value : ParsedJson ℕ
value = array (
    item (object (field (97 ∷ []) (array (item (bool true) (item (number 5) no_items))) no_fields))
      (item (string (98 ∷ [])) no_items))

enough : fuel_of small_serde value ≤ 20
unfolding fuel_of
enough = omega arith

json_parse_value-tokens_of_example :
    json_parse_value some read_text 0 20
      (tokens_of json_symbols small_serde value ++ sign json_symbols 59 ∷ [])
      (with_stack (token (sign json_symbols 40) ∷ []))
    ≡ parsed
        (sign json_symbols 59 ∷ [])
        (with_stack (token (sign json_symbols 40) ∷ node value ∷ []))
json_parse_value-tokens_of_example =
    json_parse_value-tokens_of json_symbols small_serde value 20 (sign json_symbols 59 ∷ [])
      (token (sign json_symbols 40) ∷ []) enough

abbrev five : TokenMatch JsonToken
five = match_of json_symbols Pipe.Json.number (48 ∷ 5 ∷ [])

abbrev read_all : List (TokenMatch JsonToken) → Pipe.Values.Steps.Parsed JsonToken ℕ
read_all ts = json_parse_value some read_text 0 9 (json_tokens some ts) (with_stack [])

-- `[5 ,]`: a comma may stand before the end.
trailing_comma :
    read_all (
      sign json_symbols 91
      ∷ five
      ∷ match_of json_symbols whitespace (32 ∷ [])
      ∷ sign json_symbols 44
      ∷ sign json_symbols 93
      ∷ [])
    ≡ parsed [] (with_stack (node (array (item (number 5) no_items)) ∷ []))
unfolding json_parse_value json_tokens look_ahead accept_token reduce
trailing_comma = refl

-- A key that `from_str` refuses.
key_panics :
    read_all (
      sign json_symbols 123
      ∷ match_of json_symbols Pipe.Json.string []
      ∷ sign json_symbols 58
      ∷ five
      ∷ sign json_symbols 125
      ∷ [])
    ≡ panics
unfolding json_parse_value json_tokens look_ahead accept_token reduce
key_panics = refl

no_comma :
    read_all (sign json_symbols 91 ∷ five ∷ five ∷ [])
    ≡ failed (unexpected_token (some Pipe.Json.number) (48 ∷ 5 ∷ []))
unfolding json_parse_value json_tokens look_ahead accept_token reduce
no_comma = refl
