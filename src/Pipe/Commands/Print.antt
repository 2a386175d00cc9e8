-- ===== src/Pipe/Commands/Print.antt =====
-- pipe/src/commands/parse_command.rs: the tokens of a request, with white space before them, for the
-- parser to read.
use flo_scene.Common.{
  ℕ, ◌*◌, ◌≤◌, Bool, true, false, List, [], ◌∷◌, ◌++◌, map, none, some, ◌≡◌, refl, arith, length,
  length-append,
}
use flo_scene.Pipe.Json.{JsonToken, whitespace}
use flo_scene.Pipe.Values.{
  ParsedJson, null, bool, number, string, array, object, JsonItems, no_items, item, JsonFields,
  no_fields, field, json_token,
}
use flo_scene.Pipe.Values.Print.{
  Serde, Symbols, tokens_of, rest_of, fields_after, fuel_of, items_fuel, fields_fuel,
}
use flo_scene.Pipe.Commands.{CommandToken, variable, equals, json, into_json}
use flo_scene.Pipe.Commands.Steps.{CommandRequest, command, raw_json, assign, CommandMatch}

-- A variable of JSON is a variable of the commands.
abbrev pub embed : JsonToken → CommandToken
embed JsonToken.variable = variable
embed k = json k

pub embedded : (k : JsonToken) → into_json (embed k) ≡ some k
unfolding into_json
embedded JsonToken.variable = refl
embedded _ = refl

abbrev pub command_symbols : Symbols CommandToken
command_symbols = record { into = into_json; embed = embed; embedded = embedded }

abbrev pub command_match : CommandToken → List ℕ → CommandMatch
command_match k text = record { token = some k; fragment = text }

-- White space in front of the tokens `ts`: that in front of each, while `gaps` lasts.
unfoldable pub with_spaces :
    List (List (List ℕ)) → List CommandMatch → List CommandMatch → List CommandMatch
with_spaces [] ts rest = ts ++ rest
with_spaces (gap ∷ gaps) [] rest = rest
with_spaces (gap ∷ gaps) (t ∷ ts) rest =
    map (λ text. command_match (json whitespace) text) gap ++ t ∷ with_spaces gaps ts rest

-- The requests that have tokens, and the tokens.
abbrev pub IsPrintable : {N : Type 0} → CommandRequest N → Type 0
IsPrintable (command name argument) = Unit {0}
IsPrintable (raw_json (ParsedJson.variable name)) = ⊥
IsPrintable (raw_json _) = Unit {0}
IsPrintable (assign name from) = IsPrintable from
IsPrintable _ = ⊥

module _ {N : Type 0} (r : Serde N) where
  unfoldable pub tokens_of_request : CommandRequest N → List CommandMatch
  unfolding tokens_of
  tokens_of_request (command name argument) =
      command_match CommandToken.command name ∷ tokens_of command_symbols r argument
  tokens_of_request (raw_json value) = tokens_of command_symbols r value
  tokens_of_request (assign name from) =
      command_match variable name ∷ command_match equals (61 ∷ []) ∷ tokens_of_request from
  tokens_of_request _ = []

-- A token that `json_read_token` gives.
abbrev pub is_solid : CommandMatch → Bool
is_solid t = elim (json_token into_json t) [
  | none ↦ false
  | some (some whitespace) ↦ false
  | some _ ↦ true
]

abbrev pub AllSolid : List CommandMatch → Type 0
AllSolid [] = Unit {0}
AllSolid (t ∷ ts) = (is_solid t ≡ true) × AllSolid ts

AllSolid-append : (ts us : List CommandMatch) → AllSolid ts → AllSolid us → AllSolid (ts ++ us)
AllSolid-append [] us h k = k
AllSolid-append (t ∷ ts) us h k = (h.0, AllSolid-append ts us h.1 k)

module _ {N : Type 0} (r : Serde N) where
  mutual
    unfolding tokens_of into_json

    value-AllSolid : (v : ParsedJson N) → AllSolid (tokens_of command_symbols r v)
    value-AllSolid null = (refl, tt)
    value-AllSolid (bool true) = (refl, tt)
    value-AllSolid (bool false) = (refl, tt)
    value-AllSolid (number n) = (refl, tt)
    value-AllSolid (string s) = (refl, tt)
    value-AllSolid (ParsedJson.variable s) = (refl, tt)
    value-AllSolid (array no_items) = (refl, (refl, tt))
    value-AllSolid (object no_fields) = (refl, (refl, tt))
    value-AllSolid (array (item v vs)) = (
      refl,
      AllSolid-append (tokens_of command_symbols r v) _ (value-AllSolid v) (items-AllSolid vs),
    )
    value-AllSolid (object (field k v fs)) = (
      refl,
      (
        refl,
        (
          refl,
          AllSolid-append (tokens_of command_symbols r v) _ (value-AllSolid v) (fields-AllSolid fs),
        ),
      ),
    )

    items-AllSolid : (vs : JsonItems N) → AllSolid (rest_of command_symbols r vs)
    items-AllSolid no_items = (refl, tt)
    items-AllSolid (item v vs) = (
      refl,
      AllSolid-append (tokens_of command_symbols r v) _ (value-AllSolid v) (items-AllSolid vs),
    )

    fields-AllSolid : (fs : JsonFields N) → AllSolid (fields_after command_symbols r fs)
    fields-AllSolid no_fields = (refl, tt)
    fields-AllSolid (field k v fs) = (
      refl,
      (
        refl,
        (
          refl,
          AllSolid-append (tokens_of command_symbols r v) _ (value-AllSolid v) (fields-AllSolid fs),
        ),
      ),
    )

  pub tokens_of-AllSolid : (v : ParsedJson N) → AllSolid (tokens_of command_symbols r v)
  tokens_of-AllSolid v = value-AllSolid v

  -- Fuel for a value is at most two for each of its tokens.
  mutual
    unfolding tokens_of fuel_of

    value_fuel : (v : ParsedJson N) → fuel_of r v ≤ 2 * length (tokens_of command_symbols r v)
    value_fuel null = omega arith
    value_fuel (bool true) = omega arith
    value_fuel (bool false) = omega arith
    value_fuel (number n) = omega arith
    value_fuel (string s) = omega arith
    value_fuel (ParsedJson.variable s) = omega arith
    value_fuel (array no_items) = omega arith
    value_fuel (object no_fields) = omega arith
    value_fuel (array (item v vs)) = omega (
      arith,
      value_fuel v,
      items_fuel-le vs,
      length-append (tokens_of command_symbols r v) (rest_of command_symbols r vs),
    )
    value_fuel (object (field k v fs)) = omega (
      arith,
      value_fuel v,
      fields_fuel-le fs,
      length-append (tokens_of command_symbols r v) (fields_after command_symbols r fs),
    )

    items_fuel-le : (vs : JsonItems N) → items_fuel r vs ≤ 2 * length (rest_of command_symbols r vs)
    items_fuel-le no_items = omega arith
    items_fuel-le (item v vs) = omega (
      arith,
      value_fuel v,
      items_fuel-le vs,
      length-append (tokens_of command_symbols r v) (rest_of command_symbols r vs),
    )

    fields_fuel-le :
        (fs : JsonFields N) → fields_fuel r fs ≤ 2 * length (fields_after command_symbols r fs)
    fields_fuel-le no_fields = omega arith
    fields_fuel-le (field k v fs) = omega (
      arith,
      value_fuel v,
      fields_fuel-le fs,
      length-append (tokens_of command_symbols r v) (fields_after command_symbols r fs),
    )

  pub fuel_of-le : (v : ParsedJson N) → fuel_of r v ≤ 2 * length (tokens_of command_symbols r v)
  fuel_of-le v = value_fuel v
