-- ===== src/Pipe/Values/Parse.antt =====
-- pipe/src/parse_json.rs: `json_parse_value` and what it calls. The tokenizer is the list of the tokens
-- that `json_read_token` has yet to give, and `serde_json::from_str` is a parameter.
use flo_scene.Common.{
  ℕ, zero, suc, ◌+◌, Bool, true, false, List, [], ◌∷◌, Option, none, some, inl, inr, ◌==◌,
  if◌then◌else◌,
}
use flo_scene.Pipe
use flo_scene.Pipe.Json.{JsonToken, keyword_true, keyword_false, keyword_null, character}
use flo_scene.Pipe.Tokenizer.{TokenMatch}
use flo_scene.Pipe.Parser.{
  ParserStackEntry, token, node, Parser, look_ahead, accept_token, reduce, accept_expected_token,
  ExpectedTokenError, parser_lookahead_empty,
}
use flo_scene.Pipe.Values.{
  JsonInputType, lookahead_empty, start_of_value, start_of_object, object_values,
  after_object_value, start_of_array, array_values, after_array_value, string_input, number_input,
  expected_more_input, serde_json_error, ParsedJson, null, bool, number, string, variable,
  SerdeValue, serde_string, serde_number, json_token, unexpected,
}
use flo_scene.Pipe.Values.Steps.{
  Parsed, failed, Tokens, Stack, JsonParser, is_character, is_string, is_number, separator_of, peek,
  accept, reduce_by, accept_as, and_then_parse, array_of, object_of, finish_with, out_of_fuel,
  is_comma, is_close, is_other,
}

module _ {T N : Type 0} (into : T → Option JsonToken) where
  -- What follows a value: `more` after a ',', and `done` after the closing character.
  unfoldable pub after_value :
      JsonInputType
      → ℕ
      → Tokens T
      → JsonParser T N
      → (Tokens T → JsonParser T N → Parsed T N)
      → (Tokens T → JsonParser T N → Parsed T N)
      → Parsed T N
  unfolding peek accept
  after_value wanted close ts p more done = peek wanted ts p (λ t us q.
      elim (separator_of into close t) [
        | is_comma ↦ accept q (more us)
        | is_close ↦ accept q (done us)
        | is_other ↦ failed (unexpected into t)
      ])

  -- The loop of `json_parse_array`, with `parse` for `json_parse_value`.
  unfoldable pub array_loop :
      (Tokens T → JsonParser T N → Parsed T N) → ℕ → ℕ → Tokens T → JsonParser T N → Parsed T N
  unfolding after_value finish_with array_of
  array_loop parse zero num ts p = out_of_fuel
  array_loop parse (suc fuel) num ts p = peek array_values ts p (λ t us q.
      elim (is_character into 93 t) [
        | true ↦ accept q (λ r. finish_with array_of (num + 1) us r)
        | false ↦ and_then_parse (parse us q) (λ vs r.
            after_value after_array_value 93 vs r (λ ws s. array_loop parse fuel (num + 2) ws s)
              (λ ws s. finish_with array_of (num + 2) ws s))
      ])

  -- The error of `accept_expected_token`, as a `JsonParseError`.
  unfoldable pub expect_character : ℕ → JsonParser T N → (JsonParser T N → Parsed T N) → Parsed T N
  expect_character c p next = elim (accept_expected_token (is_character into c) p) [
    | inl q ↦ next q
    | inr parser_lookahead_empty ↦ failed (expected_more_input lookahead_empty)
    | inr (Pipe.Parser.unexpected_token t) ↦ failed (unexpected into t)
  ]

-- `from_str` is `serde_json::from_str`, and `zero_number` is `serde_json`'s number 0.
module _ {T N : Type 0} (into : T → Option JsonToken) (from_str : List ℕ → Option (SerdeValue N))
    (zero_number : N) where
  abbrev pub string_of : SerdeValue N → ParsedJson N
  string_of (serde_string s) = string s
  string_of _ = string []

  abbrev pub number_of : SerdeValue N → ParsedJson N
  number_of (serde_number n) = number n
  number_of _ = number zero_number

  -- The reduction of a key, which unwraps what `from_str` gives.
  unfoldable pub key_of : Stack T N → Option (ParsedJson N)
  key_of (token t ∷ es) = elim (from_str t.fragment) [ none ↦ none | some v ↦ some (string_of v) ]
  key_of _ = none

  -- The loop of `json_parse_object`, with `parse` for `json_parse_value`.
  unfoldable pub object_loop :
      (Tokens T → JsonParser T N → Parsed T N) → ℕ → ℕ → Tokens T → JsonParser T N → Parsed T N
  unfolding peek accept reduce_by key_of after_value finish_with object_of expect_character
  object_loop parse zero num ts p = out_of_fuel
  object_loop parse (suc fuel) num ts p = peek object_values ts p (λ t us q.
      elim (is_character into 125 t) [
        | true ↦ accept q (λ r. finish_with object_of (num + 1) us r)
        | false ↦ elim (is_string into t) [
          | false ↦ failed (unexpected into t)
          | true ↦ accept q (λ r. reduce_by 1 key_of r (λ s.
              let (seen, vs, s') = look_ahead 0 us s in
              expect_character into 58 s' (λ u. and_then_parse (parse vs u) (λ ws v.
                after_value into after_object_value 125 ws v
                  (λ xs w. object_loop parse fuel (num + 4) xs w)
                  (λ xs w. finish_with object_of (num + 4) xs w)))))
        ]
      ])

  -- `json_parse_array` and `json_parse_object`, from their first look ahead on.
  unfoldable pub json_parse_array :
      (Tokens T → JsonParser T N → Parsed T N) → ℕ → Tokens T → JsonParser T N → Parsed T N
  unfolding peek accept array_loop
  json_parse_array parse fuel ts p = peek start_of_array ts p (λ t us q.
      elim (is_character into 91 t) [
        | true ↦ accept q (λ r. array_loop into parse fuel 1 us r)
        | false ↦ failed (unexpected into t)
      ])

  unfoldable pub json_parse_object :
      (Tokens T → JsonParser T N → Parsed T N) → ℕ → Tokens T → JsonParser T N → Parsed T N
  unfolding peek accept object_loop
  json_parse_object parse fuel ts p = peek start_of_object ts p (λ t us q.
      elim (is_character into 123 t) [
        | true ↦ accept q (λ r. object_loop parse fuel 1 us r)
        | false ↦ failed (unexpected into t)
      ])

  -- What `json_parse_string` and `json_parse_number` share: a token of the kind `is_kind`, with the
  -- value that `of_value` makes of what `from_str` gives.
  unfoldable pub parse_scalar :
      JsonInputType
      → (TokenMatch T → Bool)
      → (SerdeValue N → ParsedJson N)
      → Tokens T
      → JsonParser T N
      → Parsed T N
  unfolding peek accept_as
  parse_scalar wanted is_kind of_value ts p = peek wanted ts p (λ t us q. elim (is_kind t) [
    | true ↦ elim (from_str t.fragment) [
      | none ↦ failed serde_json_error
      | some v ↦ accept_as (of_value v) us q
    ]
    | false ↦ failed (unexpected into t)
  ])

  unfoldable pub json_parse_string : Tokens T → JsonParser T N → Parsed T N
  unfolding parse_scalar
  json_parse_string ts p = parse_scalar string_input (is_string into) string_of ts p

  unfoldable pub json_parse_number : Tokens T → JsonParser T N → Parsed T N
  unfolding parse_scalar
  json_parse_number ts p = parse_scalar number_input (is_number into) number_of ts p

  -- The `match` of `json_parse_value` on the token that it sees.
  unfoldable pub parse_kind :
      (Tokens T → JsonParser T N → Parsed T N)
      → ℕ
      → Option (Option JsonToken)
      → TokenMatch T
      → Tokens T
      → JsonParser T N
      → Parsed T N
  unfolding json_parse_string json_parse_number json_parse_array json_parse_object accept_as
  parse_kind parse fuel (some (some Pipe.Json.string)) t ts p = json_parse_string ts p
  parse_kind parse fuel (some (some Pipe.Json.number)) t ts p = json_parse_number ts p
  parse_kind parse fuel (some (some keyword_true)) t ts p = accept_as (bool true) ts p
  parse_kind parse fuel (some (some keyword_false)) t ts p = accept_as (bool false) ts p
  parse_kind parse fuel (some (some keyword_null)) t ts p = accept_as null ts p
  parse_kind parse fuel (some (some Pipe.Json.variable)) t ts p =
      accept_as (variable t.fragment) ts p
  parse_kind parse fuel (some (some (character c))) t ts p =
      if c == 123
      then json_parse_object parse fuel ts p
      else if c == 91
      then json_parse_array parse fuel ts p
      else failed (unexpected into t)
  parse_kind parse fuel _ t ts p = failed (unexpected into t)

  unfoldable pub json_parse_value : ℕ → Tokens T → JsonParser T N → Parsed T N
  unfolding peek parse_kind
  json_parse_value zero ts p = out_of_fuel
  json_parse_value (suc fuel) ts p =
      let parse = json_parse_value fuel in
      peek start_of_value ts p (λ t us q. parse_kind parse fuel (json_token into t) t us q)
