-- ===== src/Pipe/Values.antt =====
-- pipe/src/parse_json.rs: `ParsedJson` and its errors. A number of `serde_json` is of a type `N` that
-- is a parameter, and a text is the list of its characters.
pub mod Steps
pub mod Parse
pub mod Print
pub mod Stacks
pub mod Reads
pub mod Arrays
pub mod Objects
pub mod RoundTrip
pub mod Pushes
pub mod Halts
use flo_scene.Common.{ℕ, Bool, true, false, List, [], ◌∷◌, Option, none, some}
use flo_scene.Pipe.Json.{JsonToken, whitespace}
use flo_scene.Pipe.Tokenizer.{TokenMatch}
use flo_scene.Pipe.Parser.{ParserStackEntry, token, node, Parser}

pub data JsonInputType : Type 0 where
  lookahead_empty start_of_value start_of_object object_values after_object_value : JsonInputType
  start_of_array array_values after_array_value string_input number_input : JsonInputType

pub data JsonParseError : Type 0 where
  unexpected_token expected_colon : Option JsonToken → List ℕ → JsonParseError
  expected_more_input : JsonInputType → JsonParseError
  parser_stack_too_small serde_json_error : JsonParseError

-- The fields of an object in the order in which they are put into its `HashMap`.
mutual
  pub data ParsedJson {ℓ} (N : Type ℓ) : Type ℓ where
    null : ParsedJson N
    bool : Bool → ParsedJson N
    number : N → ParsedJson N
    string : List ℕ → ParsedJson N
    array : JsonItems N → ParsedJson N
    object : JsonFields N → ParsedJson N
    variable : List ℕ → ParsedJson N

  pub data JsonItems {ℓ} (N : Type ℓ) : Type ℓ where
    no_items : JsonItems N
    item : ParsedJson N → JsonItems N → JsonItems N

  pub data JsonFields {ℓ} (N : Type ℓ) : Type ℓ where
    no_fields : JsonFields N
    field : List ℕ → ParsedJson N → JsonFields N → JsonFields N

-- `serde_json::Value`, as far as the parser looks at it.
pub data SerdeValue {ℓ} (N : Type ℓ) : Type ℓ where
  serde_string : List ℕ → SerdeValue N
  serde_number : N → SerdeValue N
  serde_other : SerdeValue N

-- `TToken::try_into::<JsonToken>()` on the token of a match; `none` is a match without a token, and
-- `some none` a token that is none of JSON's.
module _ {T : Type 0} (into : T → Option JsonToken) where
  abbrev pub json_token : TokenMatch T → Option (Option JsonToken)
  json_token t = elim t.token [ none ↦ none | some k ↦ some (into k) ]

  -- The tokens that `json_read_token` gives until it has none: those that are not whitespace, up to a
  -- match without a token.
  unfoldable pub json_tokens : List (TokenMatch T) → List (TokenMatch T)
  json_tokens [] = []
  json_tokens (t ∷ ts) =
      let rest = json_tokens ts in
      elim (json_token t) [ none ↦ [] | some (some whitespace) ↦ rest | some k ↦ t ∷ rest ]

  -- `From<&TokenMatch> for JsonParseError`
  abbrev pub unexpected : TokenMatch T → JsonParseError
  unexpected t = elim (json_token t) [
    | none ↦ unexpected_token none t.fragment
    | some k ↦ unexpected_token k t.fragment
  ]

-- `ParserStackEntry::to_node`
abbrev pub to_node {ℓ} : {T N : Type ℓ} → ParserStackEntry T N → Option N
to_node (token t) = none
to_node (node n) = some n
