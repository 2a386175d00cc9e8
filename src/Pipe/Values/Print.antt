-- ===== src/Pipe/Values/Print.antt =====
-- pipe/src/parse_json.rs: the tokens of a value, for the parser to read.
use flo_scene.Common.{ℕ, suc, ◌+◌, true, false, List, [], ◌∷◌, ◌++◌, Option, some, ◌≡◌, refl}
use flo_scene.Pipe
use flo_scene.Pipe.Json.{JsonToken, keyword_true, keyword_false, keyword_null, character}
use flo_scene.Pipe.Tokenizer.{TokenMatch}
use flo_scene.Pipe.Values.{
  ParsedJson, null, bool, number, string, array, object, variable, JsonItems, no_items, item,
  JsonFields, no_fields, field, SerdeValue, serde_string, serde_number,
}

-- The tokens of a tokenizer that has those of JSON among its own.
pub record Symbols (T : Type 0) : Type 0 where
  pub into : T → Option JsonToken
  pub embed : JsonToken → T
  pub embedded : (k : JsonToken) → into (embed k) ≡ some k

module _ {T : Type 0} (sy : Symbols T) where
  abbrev pub match_of : JsonToken → List ℕ → TokenMatch T
  match_of k text = record { token = some (sy.embed k); fragment = text }

  abbrev pub sign : ℕ → TokenMatch T
  sign c = match_of (character c) (c ∷ [])

abbrev pub json_symbols : Symbols JsonToken
json_symbols = record { into = λ k. some k; embed = λ k. k; embedded = λ k. refl }

-- `serde_json`: `from_str` reads a text, `zero_number` is its number 0, and `quote` and `show_number` give
-- texts that `from_str` reads as a string and as a number.
pub record Serde (N : Type 0) : Type 0 where
  pub from_str : List ℕ → Option (SerdeValue N)
  pub zero_number : N
  pub quote : List ℕ → List ℕ
  pub show_number : N → List ℕ
  pub quoted : (s : List ℕ) → from_str (quote s) ≡ some (serde_string s)
  pub shown : (n : N) → from_str (show_number n) ≡ some (serde_number n)

module _ {T N : Type 0} (sy : Symbols T) (r : Serde N) where
  abbrev pub key_match : List ℕ → TokenMatch T
  key_match k = match_of sy Pipe.Json.string (r.quote k)

  unfoldable mutual
    pub tokens_of : ParsedJson N → List (TokenMatch T)
    tokens_of null = match_of sy keyword_null [] ∷ []
    tokens_of (bool true) = match_of sy keyword_true [] ∷ []
    tokens_of (bool false) = match_of sy keyword_false [] ∷ []
    tokens_of (number n) = match_of sy Pipe.Json.number (r.show_number n) ∷ []
    tokens_of (string s) = match_of sy Pipe.Json.string (r.quote s) ∷ []
    tokens_of (array no_items) = sign sy 91 ∷ sign sy 93 ∷ []
    tokens_of (array (item v vs)) = sign sy 91 ∷ tokens_of v ++ rest_of vs
    tokens_of (object no_fields) = sign sy 123 ∷ sign sy 125 ∷ []
    tokens_of (object (field k v fs)) =
        sign sy 123 ∷ key_match k ∷ sign sy 58 ∷ tokens_of v ++ fields_after fs
    tokens_of (variable s) = match_of sy Pipe.Json.variable s ∷ []

    -- The items after the first one, each with its comma, and the end.
    pub rest_of : JsonItems N → List (TokenMatch T)
    rest_of no_items = sign sy 93 ∷ []
    rest_of (item v vs) = sign sy 44 ∷ tokens_of v ++ rest_of vs

    pub fields_after : JsonFields N → List (TokenMatch T)
    fields_after no_fields = sign sy 125 ∷ []
    fields_after (field k v fs) =
        sign sy 44 ∷ key_match k ∷ sign sy 58 ∷ tokens_of v ++ fields_after fs

module _ {N : Type 0} (r : Serde N) where
  -- Fuel that is enough for a value: its nodes.
  unfoldable mutual
    pub fuel_of : ParsedJson N → ℕ
    fuel_of (array vs) = suc (items_fuel vs)
    fuel_of (object fs) = suc (fields_fuel fs)
    fuel_of _ = 1

    pub items_fuel : JsonItems N → ℕ
    items_fuel no_items = 1
    items_fuel (item v vs) = suc (fuel_of v + items_fuel vs)

    pub fields_fuel : JsonFields N → ℕ
    fields_fuel no_fields = 1
    fields_fuel (field k v fs) = suc (fuel_of v + fields_fuel fs)
