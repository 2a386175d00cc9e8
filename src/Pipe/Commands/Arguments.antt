-- ===== src/Pipe/Commands/Arguments.antt =====
-- pipe/src/commands/parse_command.rs: the parser reads back the argument of a command.
use flo_scene.Common.{
  ℕ, ◌-◌, ◌≤◌, List, [], ◌∷◌, ◌++◌, Option, some, ◌≡◌, refl, sym, ◌∙◌, ap, subst, arith, length,
  drop, length-append, append-nil, append_assoc,
}
use flo_scene.Pipe.Json.{JsonToken}
use flo_scene.Pipe.Parser.{token, node, accept_token, with_lookahead_from}
use flo_scene.Pipe.Values.{ParsedJson, json_tokens}
use flo_scene.Pipe.Values.Steps
use flo_scene.Pipe.Values.Parse.{json_parse_value}
use flo_scene.Pipe.Values.Print.{Serde, match_of, tokens_of, fuel_of}
use flo_scene.Pipe.Values.Stacks.{with_stack, having_seen}
use flo_scene.Pipe.Values.Reads.{parse_again}
use flo_scene.Pipe.Values.RoundTrip.{json_parse_value-tokens_of}
use flo_scene.Pipe.Commands.{CommandToken, into_json}
use flo_scene.Pipe.Commands.Steps.{
  CommandRequest, command, CommandMatch, parsed, CommandParser, CommandStack, json_fuel, look_ahead,
  accept, reduce_by, and_then_parse, after_json, parse_json, json_reads,
}
use flo_scene.Pipe.Commands.Parse.{
  name_argument, command_parse_argument, parse_rest_of, parse_after_name, parse_named,
  command_parse_command,
}
use flo_scene.Pipe.Commands.Ahead.{state, look_ahead-seen}
use flo_scene.Pipe.Commands.Pushes.{reduce_by-state}
use flo_scene.Pipe.Commands.Print.{
  embed, command_symbols, command_match, with_spaces, AllSolid, tokens_of-AllSolid, fuel_of-le,
}
use flo_scene.Pipe.Commands.Spaces.{
  solid_is_no_space, json_tokens-with_spaces, json_reads-with_spaces, length-le-with_spaces,
}
use flo_scene.Pipe.Commands.FirstToken.{Gaps, next_token, tokens_of-FirstToken}

module _ {N : Type 0} (r : Serde N) where
  reduce_none :
      (ts : List CommandMatch) (st : CommandStack N) (l : List CommandMatch)
      (f : CommandStack N → Option (CommandRequest N)) (q : CommandRequest N)
      → f [] ≡ some q
      → reduce_by 0 f ts (state st l) ≡ parsed ts (state (st ++ node q ∷ []) l)
  reduce_none ts st l f q is =
      ap (λ es. reduce_by 0 f ts (state es l)) (sym (append-nil st))
      ∙ reduce_by-state r.from_str r.zero_number st [] ts l f q is

  module _ (v : ParsedJson N) (t : CommandMatch) (others : List CommandMatch)
      (starts : tokens_of command_symbols r v ≡ t ∷ others) where
    pub solid : AllSolid (t ∷ others)
    solid = subst AllSolid starts (tokens_of-AllSolid r v)

    json_read :
        (n : ℕ) (ts : List CommandMatch)
        → fuel_of r v ≤ n
        → json_parse_value into_json r.from_str r.zero_number n (others ++ ts) (having_seen [] t)
          ≡ Steps.parsed ts (with_stack (node v ∷ []))
    json_read n ts enough =
        parse_again command_symbols r n t (others ++ ts) []
        ∙ (ap
              (λ us.
                json_parse_value into_json r.from_str r.zero_number n (us ++ ts) (with_stack []))
              (sym starts)
            ∙ json_parse_value-tokens_of command_symbols r v n ts [] enough)

    pub parse_json-reads :
        (make : ParsedJson N → CommandRequest N) (gaps : Gaps) (rest : List CommandMatch)
        (st : CommandStack N)
        → parse_json r.from_str r.zero_number make
            (with_spaces gaps others rest)
            (state st (t ∷ []))
          ≡ parsed rest (state (st ++ node (make v) ∷ []) [])
    unfolding parse_json with_lookahead_from
    parse_json-reads make gaps rest st =
        ap
          (λ js. after_json make (with_spaces gaps others rest) (state st []) (
            json_parse_value into_json r.from_str r.zero_number
              (json_fuel (with_spaces gaps others rest) (t ∷ [])) js (having_seen [] t)))
          (json_tokens-with_spaces gaps others rest solid.1)
        ∙ (ap (λ x. after_json make (with_spaces gaps others rest) (state st []) x)
              (json_read (json_fuel (with_spaces gaps others rest) (t ∷ []))
                (json_tokens into_json rest)
                (omega (
                  arith,
                  fuel_of-le r v,
                  ap (λ us. length us) starts,
                  length-le-with_spaces gaps others rest,
                )))
            ∙ (ap (λ us. reduce_by 0 (λ es. some (make v)) us (state st [])) taken
                ∙ reduce_none rest st [] (λ es. some (make v)) (make v) refl))
      where
        count :
            length (json_tokens into_json (with_spaces gaps others rest))
              - length (json_tokens into_json rest)
            ≡ length others
        count = omega (
          arith,
          ap (λ us. length us) (json_tokens-with_spaces gaps others rest solid.1),
          length-append others (json_tokens into_json rest),
        )

        taken :
            json_reads into_json
              (length (json_tokens into_json (with_spaces gaps others rest))
                - length (json_tokens into_json rest))
              (with_spaces gaps others rest)
            ≡ rest
        taken =
            ap (λ k. json_reads into_json k (with_spaces gaps others rest)) count
            ∙ json_reads-with_spaces gaps others rest solid.1

  -- A token of JSON is the start of an argument.
  parse_rest_of-embed :
      (k : JsonToken) (t : CommandMatch) (ts : List CommandMatch) (p : CommandParser N)
      → parse_rest_of r.from_str r.zero_number (some (embed k)) t ts p
        ≡ and_then_parse
            (command_parse_argument r.from_str r.zero_number ts p)
            (λ us q. reduce_by 2 name_argument us q)
  unfolding parse_rest_of
  parse_rest_of-embed JsonToken.variable t ts p = refl
  parse_rest_of-embed _ t ts p = refl

  named_reads :
      (name : List ℕ) (v : ParsedJson N) (t : CommandMatch) (others : List CommandMatch)
      → tokens_of command_symbols r v ≡ t ∷ others
      → (gaps : Gaps) (rest : List CommandMatch) (st : CommandStack N)
      → and_then_parse
          (command_parse_argument r.from_str r.zero_number
            (with_spaces gaps others rest)
            (state (st ++ token (command_match CommandToken.command name) ∷ []) (t ∷ [])))
          (λ us q. reduce_by 2 name_argument us q)
        ≡ parsed rest (state (st ++ node (command name v) ∷ []) [])
  unfolding command_parse_argument name_argument
  named_reads name v t others starts gaps rest st =
      ap (λ x. and_then_parse x (λ us q. reduce_by 2 name_argument us q))
        (parse_json-reads v t others starts (λ w. command [] w) gaps rest
          (st ++ token (command_match CommandToken.command name) ∷ []))
      ∙ (ap (λ es. reduce_by 2 name_argument rest (state es []))
            (append_assoc st (token (command_match CommandToken.command name) ∷ [])
              (node (command [] v) ∷ []))
          ∙ reduce_by-state r.from_str r.zero_number st
              (token (command_match CommandToken.command name) ∷ node (command [] v) ∷ []) rest []
              name_argument (command name v) refl)

  pub command_reads :
      (name : List ℕ) (v : ParsedJson N) (gaps : Gaps) (rest : List CommandMatch)
      (st : CommandStack N)
      → command_parse_command r.from_str r.zero_number
          (with_spaces gaps (tokens_of command_symbols r v) rest)
          (state st (command_match CommandToken.command name ∷ []))
        ≡ parsed rest (state (st ++ node (command name v) ∷ []) [])
  unfolding command_parse_command accept accept_token
  command_reads name v gaps rest st =
      let f = tokens_of-FirstToken command_symbols r v in
      let first : CommandMatch = match_of command_symbols f.kind f.text in
      let named = token (command_match CommandToken.command name) in
      ap (λ x. parse_named r.from_str r.zero_number x)
        (look_ahead-seen (with_spaces gaps (tokens_of command_symbols r v) rest) st
          (command_match CommandToken.command name) [])
      ∙ (ap
            (λ ts.
              parse_after_name r.from_str r.zero_number
                (look_ahead 0 (with_spaces gaps ts rest) (state (st ++ named ∷ []) [])))
            f.starts
          ∙ (ap (λ x. parse_after_name r.from_str r.zero_number x)
                (next_token gaps first f.others rest (st ++ named ∷ [])
                  (solid_is_no_space first (solid v first f.others f.starts).0))
              ∙ (parse_rest_of-embed f.kind first (with_spaces (drop 1 gaps) f.others rest)
                    (state (st ++ named ∷ []) (first ∷ []))
                  ∙ named_reads name v first f.others f.starts (drop 1 gaps) rest st)))
