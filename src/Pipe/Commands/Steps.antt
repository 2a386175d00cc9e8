-- ===== src/Pipe/Commands/Steps.antt =====
-- pipe/src/commands/parse_command.rs: the steps that the parser of commands is made of. The tokenizer is
-- the list of the tokens that `match_token` has yet to give.
use flo_scene.Common.{
  ℕ, zero, suc, ◌+◌, ◌-◌, ◌*◌, Bool, true, false, List, [], ◌∷◌, ◌++◌, Option, none, some, leb,
  if◌then◌else◌, length, get_elem?, drop,
}
use flo_scene.Scene.Types.{StreamTarget}
use flo_scene.Pipe.Json.{JsonToken, whitespace}
use flo_scene.Pipe.Tokenizer.{TokenMatch}
use flo_scene.Pipe.Parser.{
  ParserStackEntry, token, node, Parser, accept_token, reduce, with_lookahead_from,
  take_lookahead_from, finish,
}
use flo_scene.Pipe.Values.{JsonParseError, ParsedJson, SerdeValue, json_token, json_tokens}
use flo_scene.Pipe.Values.Steps.{Parsed, JsonParser}
use flo_scene.Pipe.Values.Parse.{json_parse_value}
use flo_scene.Pipe.Commands.{CommandToken, json, into_json}

-- The names are texts, that is, lists of characters.
pub data CommandRequest (N : Type 0) : Type 0 where
  command : List ℕ → ParsedJson N → CommandRequest N
  raw_json : ParsedJson N → CommandRequest N
  pipe : CommandRequest N → CommandRequest N → CommandRequest N
  assign : List ℕ → CommandRequest N → CommandRequest N
  for_target : StreamTarget → CommandRequest N → CommandRequest N

pub data CommandParseError : Type 0 where
  json_error : JsonParseError → CommandParseError
  unexpected_token : Option CommandToken → List ℕ → CommandParseError
  expected_more_input parser_stack_too_small parser_did_not_converge : CommandParseError

abbrev pub CommandMatch : Type 0
CommandMatch = TokenMatch CommandToken

-- `From<&TokenMatch> for CommandParseError`
abbrev pub unexpected : CommandMatch → CommandParseError
unexpected t = unexpected_token t.token t.fragment

abbrev pub is_space : CommandMatch → Bool
is_space t = elim t.token [ some (json whitespace) ↦ true | _ ↦ false ]

-- `command_read_token`: the token, and what is left.
unfoldable pub command_read_token : List CommandMatch → Option CommandMatch × List CommandMatch
command_read_token [] = (none, [])
command_read_token (t ∷ ts) =
    let rest = command_read_token ts in if is_space t then rest else (some t, ts)

-- `json_read_token`, on the tokens of a type that `into` converts.
unfoldable pub json_read_token :
    {T : Type 0}
    → (T → Option JsonToken)
    → List (TokenMatch T)
    → Option (TokenMatch T) × List (TokenMatch T)
json_read_token into [] = (none, [])
json_read_token into (t ∷ ts) =
    let rest = json_read_token into ts in
    elim (json_token into t) [
      | none ↦ (none, ts)
      | some (some whitespace) ↦ rest
      | some k ↦ (some t, ts)
    ]

-- What `n` calls of `json_read_token` leave.
unfoldable pub json_reads :
    {T : Type 0} → (T → Option JsonToken) → ℕ → List (TokenMatch T) → List (TokenMatch T)
unfolding json_read_token
json_reads into zero ts = ts
json_reads into (suc n) ts = json_reads into n (json_read_token into ts).1

-- `Result<(), CommandParseError>` with the tokens that are left and the parser, a panic, and the end of
-- the fuel.
pub data CommandParsed (N : Type 0) : Type 0 where
  parsed : List CommandMatch → Parser CommandMatch (CommandRequest N) → CommandParsed N
  failed : CommandParseError → CommandParsed N
  panics out_of_fuel : CommandParsed N

abbrev pub CommandParser : Type 0 → Type 0
CommandParser N = Parser CommandMatch (CommandRequest N)

abbrev pub CommandStack : Type 0 → Type 0
CommandStack N = List (ParserStackEntry CommandMatch (CommandRequest N))

-- What a step does with the tokens that are left and the parser.
abbrev pub Next : Type 0 → Type 0
Next N = List CommandMatch → CommandParser N → CommandParsed N

-- Fuel that is enough for any value that these tokens begin with.
abbrev pub json_fuel : {T : Type 0} → List (TokenMatch T) → List (TokenMatch T) → ℕ
json_fuel ts seen = 2 * (length ts + length seen) + 2

module _ {N : Type 0} where
  -- The `while` of `Parser::lookahead`, for the tokens that are missing.
  unfoldable pub fill :
      ℕ → List CommandMatch → CommandParser N → List CommandMatch × CommandParser N
  unfolding command_read_token
  fill zero ts p = (ts, p)
  fill (suc n) ts p =
      let read = command_read_token ts in
      elim read.0 [
        | none ↦ (read.1, p)
        | some t ↦ fill n read.1 (record p { lookahead = p.lookahead ++ t ∷ [] })
      ]

  -- `parser.lookahead(distance, ..)`: the token that it gives, the tokens that are left, the parser.
  unfoldable pub look_ahead :
      ℕ
      → List CommandMatch
      → CommandParser N
      → Option CommandMatch × List CommandMatch × CommandParser N
  unfolding fill
  look_ahead distance ts p =
      let (rest, q) = fill (suc distance - length p.lookahead) ts p in
      (get_elem? q.lookahead distance, rest, q)

  unfoldable pub accept : CommandParser N → (CommandParser N → CommandParsed N) → CommandParsed N
  accept p next = elim (accept_token p) [ none ↦ failed expected_more_input | some q ↦ next q ]

  -- `reduce` with a function that may panic.
  unfoldable pub reduce_by :
      ℕ
      → (CommandStack N → Option (CommandRequest N))
      → List CommandMatch
      → CommandParser N
      → CommandParsed N
  reduce_by len f ts p =
      if leb len (length p.stack)
      then elim (f (drop (length p.stack - len) p.stack)) [
        | none ↦ panics
        | some v ↦ elim (reduce len (λ es. v) p) [
          | none ↦ failed parser_stack_too_small
          | some q ↦ parsed ts q
        ]
      ]
      else failed parser_stack_too_small

  -- `?` on what has been parsed.
  abbrev pub and_then_parse : CommandParsed N → Next N → CommandParsed N
  and_then_parse (parsed ts p) next = next ts p
  and_then_parse (failed e) next = failed e
  and_then_parse panics next = panics
  and_then_parse out_of_fuel next = out_of_fuel

  -- A token's text, and a node; `none` is the panic of `unwrap`.
  abbrev pub text_of : Option (ParserStackEntry CommandMatch (CommandRequest N)) → Option (List ℕ)
  text_of (some (token t)) = some t.fragment
  text_of _ = none

  abbrev pub request_of :
      Option (ParserStackEntry CommandMatch (CommandRequest N)) → Option (CommandRequest N)
  request_of (some (node n)) = some n
  request_of _ = none

  -- What is done with the value: `make` gives the node that is put on the stack.
  abbrev pub json_value :
      (ParsedJson N → CommandRequest N)
      → List CommandMatch
      → CommandParser N
      → Option (ParsedJson N) × JsonParser CommandToken N
      → CommandParsed N
  json_value make rest p (none, q) = failed parser_did_not_converge
  json_value make rest p (some v, q) = reduce_by 0 (λ es. some (make v)) rest p

  -- What follows `json_parse_value`, which was to read the tokens `ts`: the lookahead goes back to `p`.
  unfoldable pub after_json :
      (ParsedJson N → CommandRequest N)
      → List CommandMatch
      → CommandParser N
      → Parsed CommandToken N
      → CommandParsed N
  unfolding json_reads take_lookahead_from finish reduce_by
  after_json make ts p (Parsed.parsed us q) =
      let (p', q') = take_lookahead_from (λ t. t) q p in
      let rest = json_reads into_json (length (json_tokens into_json ts) - length us) ts in
      json_value make rest p' (finish q')
  after_json make ts p (Parsed.failed e) = failed (json_error e)
  after_json make ts p Parsed.panics = panics
  after_json make ts p Parsed.out_of_fuel = out_of_fuel

-- `from_str` is `serde_json::from_str`, and `zero_number` is `serde_json`'s number 0.
module _ {N : Type 0} (from_str : List ℕ → Option (SerdeValue N)) (zero_number : N) where
  -- A parser of JSON takes the lookahead, reads a value and gives the lookahead back.
  unfoldable pub parse_json : (ParsedJson N → CommandRequest N) → Next N
  unfolding with_lookahead_from json_parse_value json_tokens after_json
  parse_json make ts p =
      let (q, p') = with_lookahead_from (λ t. t) p in
      after_json make ts p' (
        json_parse_value into_json from_str zero_number (json_fuel ts p.lookahead)
          (json_tokens into_json ts) q)
