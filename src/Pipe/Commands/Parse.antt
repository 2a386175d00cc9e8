-- ===== src/Pipe/Commands/Parse.antt =====
-- pipe/src/commands/parse_command.rs: `command_parse` and what it calls.
use flo_scene.Common.{ℕ, zero, suc, Bool, true, false, List, [], Option, none, some, get_elem?}
use flo_scene.Pipe.Values.{null, SerdeValue}
use flo_scene.Pipe.Parser.{skip_token}
use flo_scene.Pipe.Commands.{CommandToken, variable, semi_colon, equals, newline, json}
use flo_scene.Pipe.Commands.Steps.{
  CommandRequest, command, raw_json, assign, CommandParseError, expected_more_input,
  unexpected_token, CommandMatch, unexpected, CommandParsed, failed, out_of_fuel, CommandParser,
  CommandStack, Next, look_ahead, accept, reduce_by, and_then_parse, text_of, request_of,
  parse_json,
}

-- The error of `command_parse_assignment` for a token that may not be there.
abbrev pub unexpected_or_none : Option CommandMatch → CommandParseError
unexpected_or_none none = unexpected_token none []
unexpected_or_none (some t) = unexpected t

abbrev pub token_of : Option CommandMatch → Option CommandToken
token_of none = none
token_of (some t) = t.token

abbrev pub is_equals : Option CommandToken → Bool
is_equals t = elim t [ some equals ↦ true | _ ↦ false ]

abbrev pub is_variable : Option CommandToken → Bool
is_variable t = elim t [ some variable ↦ true | _ ↦ false ]

abbrev pub is_name : Option CommandToken → Bool
is_name t = elim t [ some variable ↦ true | some CommandToken.command ↦ true | _ ↦ false ]

module _ {N : Type 0} where
  -- The closures that `command_parse_command` and `command_parse_assignment` reduce with.
  abbrev pub with_name : Option (List ℕ) → Option (CommandRequest N) → Option (CommandRequest N)
  with_name (some name) (some (command _ argument)) = some (command name argument)
  with_name _ _ = none

  abbrev pub assigned : Option (List ℕ) → Option (CommandRequest N) → Option (CommandRequest N)
  assigned (some name) (some from) = some (assign name from)
  assigned _ _ = none

  abbrev pub without_argument : Option (List ℕ) → Option (CommandRequest N)
  without_argument none = none
  without_argument (some name) = some (command name null)

  unfoldable pub name_argument : CommandStack N → Option (CommandRequest N)
  name_argument es = with_name (text_of (get_elem? es 0)) (request_of (get_elem? es 1))

  unfoldable pub only_name : CommandStack N → Option (CommandRequest N)
  only_name es = without_argument (text_of (get_elem? es 0))

  unfoldable pub name_value : CommandStack N → Option (CommandRequest N)
  name_value es = assigned (text_of (get_elem? es 0)) (request_of (get_elem? es 2))

module _ {N : Type 0} (from_str : List ℕ → Option (SerdeValue N)) (zero_number : N) where
  unfoldable pub command_parse_argument : Next N
  unfolding parse_json
  command_parse_argument ts p = parse_json from_str zero_number (λ v. command [] v) ts p

  -- The `match` on what follows the name of a command.
  unfoldable pub parse_rest_of : Option CommandToken → CommandMatch → Next N
  unfolding command_parse_argument accept reduce_by name_argument only_name
  parse_rest_of (some (json _)) t ts p =
      and_then_parse (command_parse_argument ts p) (λ us q. reduce_by 2 name_argument us q)
  parse_rest_of (some variable) t ts p =
      and_then_parse (command_parse_argument ts p) (λ us q. reduce_by 2 name_argument us q)
  parse_rest_of (some newline) t ts p = accept p (λ q. reduce_by 2 only_name ts q)
  parse_rest_of (some semi_colon) t ts p = accept p (λ q. reduce_by 2 only_name ts q)
  parse_rest_of _ t ts p = failed (unexpected t)

  abbrev pub parse_after_name :
      Option CommandMatch × List CommandMatch × CommandParser N → CommandParsed N
  parse_after_name (none, ts, p) = reduce_by 1 only_name ts p
  parse_after_name (some t, ts, p) = parse_rest_of t.token t ts p

  abbrev pub parse_named :
      Option CommandMatch × List CommandMatch × CommandParser N → CommandParsed N
  parse_named (none, ts, p) = failed expected_more_input
  parse_named (some t, ts, p) = elim (is_name t.token) [
    | true ↦ accept p (λ q. parse_after_name (look_ahead 0 ts q))
    | false ↦ failed (unexpected t)
  ]

  unfoldable pub command_parse_command : Next N
  unfolding look_ahead accept parse_rest_of reduce_by only_name
  command_parse_command ts p = parse_named (look_ahead 0 ts p)

  -- The rest of `command_parse_assignment`, with `parse` for `command_parse`.
  abbrev pub assign_to :
      Next N → Option CommandMatch × List CommandMatch × CommandParser N → CommandParsed N
  assign_to parse (t, ts, p) = elim (is_equals (token_of t)) [
    | false ↦ failed (unexpected_or_none t)
    | true ↦
        accept p
          (λ q. accept q (λ r. and_then_parse (parse ts r) (λ us s. reduce_by 3 name_value us s)))
  ]

  abbrev pub assign_variable :
      Next N → Option CommandMatch × List CommandMatch × CommandParser N → CommandParsed N
  assign_variable parse (t, ts, p) = elim (is_variable (token_of t)) [
    | false ↦ failed (unexpected_or_none t)
    | true ↦ assign_to parse (look_ahead 1 ts p)
  ]

  unfoldable pub command_parse_assignment : Next N → Next N
  unfolding look_ahead accept reduce_by name_value
  command_parse_assignment parse ts p = assign_variable parse (look_ahead 0 ts p)

  -- What `command_parse` does with a variable, for the token after it.
  abbrev pub parse_variable :
      Next N → Option CommandMatch × List CommandMatch × CommandParser N → CommandParsed N
  parse_variable parse (t, ts, p) = elim (is_equals (token_of t)) [
    | true ↦ command_parse_assignment parse ts p
    | false ↦ command_parse_command ts p
  ]

  -- The body of the loop of `command_parse`, with `parse` for its next round and for the call in
  -- `command_parse_assignment`.
  unfoldable pub parse_token : Next N → Option CommandToken → CommandMatch → Next N
  unfolding command_parse_command command_parse_assignment look_ahead parse_json
  parse_token parse (some newline) t ts p = parse ts (skip_token p)
  parse_token parse (some CommandToken.command) t ts p = command_parse_command ts p
  parse_token parse (some variable) t ts p = parse_variable parse (look_ahead 1 ts p)
  parse_token parse (some (json _)) t ts p = parse_json from_str zero_number (λ v. raw_json v) ts p
  parse_token parse _ t ts p = failed (unexpected t)

  abbrev pub parse_first :
      Next N → Option CommandMatch × List CommandMatch × CommandParser N → CommandParsed N
  parse_first parse (none, ts, p) = failed expected_more_input
  parse_first parse (some t, ts, p) = parse_token parse t.token t ts p

  -- On fuel: every round and every call takes a token.
  unfoldable pub command_parse : ℕ → Next N
  unfolding look_ahead parse_token
  command_parse zero ts p = out_of_fuel
  command_parse (suc n) ts p = parse_first (command_parse n) (look_ahead 0 ts p)
