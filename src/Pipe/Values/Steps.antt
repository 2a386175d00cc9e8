-- ===== src/Pipe/Values/Steps.antt =====
-- pipe/src/parse_json.rs: the steps that the parser of JSON values is made of. The tokenizer is the list
-- of the tokens that `json_read_token` has yet to give.
use flo_scene.Common.{
  ℕ, ◌-◌, Bool, true, false, List, [], ◌∷◌, Option, none, some, leb, ◌==◌, length, drop,
  if◌then◌else◌,
}
use flo_scene.Pipe
use flo_scene.Pipe.Json.{JsonToken, keyword_true, keyword_false, keyword_null, character}
use flo_scene.Pipe.Tokenizer.{TokenMatch}
use flo_scene.Pipe.Parser.{ParserStackEntry, Parser, look_ahead, accept_token, reduce}
use flo_scene.Pipe.Values.{
  JsonInputType, lookahead_empty, JsonParseError, expected_more_input, parser_stack_too_small,
  ParsedJson, string, array, object, JsonItems, no_items, item, JsonFields, no_fields, field,
  json_token, to_node,
}

-- `Result<(), JsonParseError>` with the tokens that are left and the parser, a panic, and the end of
-- the fuel.
pub data Parsed (T N : Type 0) : Type 0 where
  parsed : List (TokenMatch T) → Parser (TokenMatch T) (ParsedJson N) → Parsed T N
  failed : JsonParseError → Parsed T N
  panics out_of_fuel : Parsed T N

abbrev pub Tokens : Type 0 → Type 0
Tokens T = List (TokenMatch T)

abbrev pub Stack : Type 0 → Type 0 → Type 0
Stack T N = List (ParserStackEntry (TokenMatch T) (ParsedJson N))

abbrev pub JsonParser : Type 0 → Type 0 → Type 0
JsonParser T N = Parser (TokenMatch T) (ParsedJson N)

-- What a token is after a value, in an array or an object that ends with `close`.
pub data Separator : Type 0 where
  is_comma is_close is_other : Separator

module _ {N : Type 0} where
  abbrev pub field_of :
      Option (ParsedJson N) → Option (ParsedJson N) → Option (JsonFields N) → Option (JsonFields N)
  field_of (some (string k)) (some v) (some fs) = some (field k v fs)
  field_of _ _ _ = none

  abbrev pub as_array : Option (JsonItems N) → Option (ParsedJson N)
  as_array none = none
  as_array (some xs) = some (array xs)

  abbrev pub as_object : Option (JsonFields N) → Option (ParsedJson N)
  as_object none = none
  as_object (some fs) = some (object fs)

module _ {T : Type 0} (into : T → Option JsonToken) where
  abbrev pub is_character : ℕ → TokenMatch T → Bool
  is_character c t = elim (json_token into t) [ some (some (character d)) ↦ d == c | _ ↦ false ]

  abbrev pub is_string : TokenMatch T → Bool
  is_string t = elim (json_token into t) [ some (some Pipe.Json.string) ↦ true | _ ↦ false ]

  abbrev pub is_number : TokenMatch T → Bool
  is_number t = elim (json_token into t) [ some (some Pipe.Json.number) ↦ true | _ ↦ false ]

  abbrev pub separator_of : ℕ → TokenMatch T → Separator
  separator_of close t =
      if is_character 44 t then is_comma else if is_character close t then is_close else is_other

module _ {T N : Type 0} where
  abbrev pub on_lookahead :
      JsonInputType
      → Option (TokenMatch T) × Tokens T × JsonParser T N
      → (TokenMatch T → Tokens T → JsonParser T N → Parsed T N)
      → Parsed T N
  on_lookahead wanted (none, us, q) next = failed (expected_more_input wanted)
  on_lookahead wanted (some t, us, q) next = next t us q

  -- `parser.lookahead(0, ..)`, with the error where there is none.
  unfoldable pub peek :
      JsonInputType
      → Tokens T
      → JsonParser T N
      → (TokenMatch T → Tokens T → JsonParser T N → Parsed T N)
      → Parsed T N
  peek wanted ts p next = on_lookahead wanted (look_ahead 0 ts p) next

  unfoldable pub accept : JsonParser T N → (JsonParser T N → Parsed T N) → Parsed T N
  accept p next = elim (accept_token p) [
    | none ↦ failed (expected_more_input lookahead_empty)
    | some q ↦ next q
  ]

  -- `reduce` with a function that may panic.
  unfoldable pub reduce_by :
      ℕ
      → (Stack T N → Option (ParsedJson N))
      → JsonParser T N
      → (JsonParser T N → Parsed T N)
      → Parsed T N
  reduce_by len f p next =
      if leb len (length p.stack)
      then elim (f (drop (length p.stack - len) p.stack)) [
        | none ↦ panics
        | some v ↦ elim (reduce len (λ es. v) p) [
          | none ↦ failed parser_stack_too_small
          | some q ↦ next q
        ]
      ]
      else failed parser_stack_too_small

  -- `parser.accept_token()?.reduce(1, |_| value)?`
  unfoldable pub accept_as : ParsedJson N → Tokens T → JsonParser T N → Parsed T N
  unfolding accept reduce_by
  accept_as v ts p = accept p (λ q. reduce_by 1 (λ es. some v) q (λ r. parsed ts r))

  -- `?` on the value that has been parsed.
  abbrev pub and_then_parse : Parsed T N → (Tokens T → JsonParser T N → Parsed T N) → Parsed T N
  and_then_parse (parsed ts p) next = next ts p
  and_then_parse (failed e) next = failed e
  and_then_parse panics next = panics
  and_then_parse out_of_fuel next = out_of_fuel

  -- The pairs of a value and what follows it; a last entry alone is left out.
  unfoldable pub items_of : Stack T N → Option (JsonItems N)
  items_of [] = some no_items
  items_of (e ∷ []) = some no_items
  items_of (e ∷ separator ∷ es) =
      let rest = items_of es in
      elim (to_node e) [
        | none ↦ none
        | some v ↦ elim rest [ none ↦ none | some xs ↦ some (item v xs) ]
      ]

  -- Key, colon, value, and what follows; fewer than four at the end are left out.
  unfoldable pub fields_of : Stack T N → Option (JsonFields N)
  fields_of (key ∷ colon ∷ value ∷ separator ∷ es) =
      field_of (to_node key) (to_node value) (fields_of es)
  fields_of _ = some no_fields

  unfoldable pub array_of : Stack T N → Option (ParsedJson N)
  unfolding items_of
  array_of es = as_array (items_of (drop 1 es))

  unfoldable pub object_of : Stack T N → Option (ParsedJson N)
  unfolding fields_of
  object_of es = as_object (fields_of (drop 1 es))

  -- The end of `json_parse_array` and of `json_parse_object`: the reduction of the whole.
  unfoldable pub finish_with :
      (Stack T N → Option (ParsedJson N)) → ℕ → Tokens T → JsonParser T N → Parsed T N
  unfolding reduce_by
  finish_with f num ts p = reduce_by num f p (λ done. parsed ts done)
