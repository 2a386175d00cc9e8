-- ===== src/Pipe/Commands/RoundTrip.antt =====
-- pipe/src/commands/parse_command.rs: the parser reads back the tokens of a request.
use flo_scene.Common.{
  ℕ, zero, suc, ◌≤◌, true, List, [], ◌∷◌, ◌++◌, Option, some, ◌≡◌, refl, ◌∙◌, ap, arith, length,
  drop, append_assoc,
}
use flo_scene.Pipe.Json.{JsonToken}
use flo_scene.Pipe.Parser.{token, node, accept_token}
use flo_scene.Pipe.Values.{ParsedJson, null, bool, number, string, array, object, variable}
use flo_scene.Pipe.Values.Print.{Serde, match_of, tokens_of}
use flo_scene.Pipe.Commands.{CommandToken, equals}
use flo_scene.Pipe.Commands.Steps.{
  CommandRequest, command, raw_json, pipe, assign, for_target, CommandMatch, CommandParsed, parsed,
  CommandParser, CommandStack, Next, look_ahead, accept, reduce_by, and_then_parse, parse_json,
}
use flo_scene.Pipe.Commands.Parse.{
  name_value, assign_to, assign_variable, command_parse_assignment, parse_variable, parse_token,
  parse_first, command_parse,
}
use flo_scene.Pipe.Commands.Ahead.{state, look_ahead-seen, look_second-seen}
use flo_scene.Pipe.Commands.Pushes.{reduce_by-state}
use flo_scene.Pipe.Commands.Print.{
  embed, command_symbols, command_match, with_spaces, IsPrintable, tokens_of_request,
}
use flo_scene.Pipe.Commands.Spaces.{solid_is_no_space}
use flo_scene.Pipe.Commands.FirstToken.{
  Gaps, is_plain, is_plain_token, next_token, second_token, tokens_of-FirstToken,
}
use flo_scene.Pipe.Commands.Arguments.{solid, parse_json-reads, command_reads}

module _ {N : Type 0} (r : Serde N) where
  abbrev parse : ℕ → Next N
  parse n = command_parse r.from_str r.zero_number n

  abbrev on_token :
      Next N → Option CommandMatch × List CommandMatch × CommandParser N → CommandParsed N
  on_token again x = parse_first r.from_str r.zero_number again x

  -- A token of JSON that is no variable is the start of a value.
  parse_token-embed :
      (again : Next N) (k : JsonToken) (t : CommandMatch) (ts : List CommandMatch)
      (p : CommandParser N)
      → is_plain_token k ≡ true
      → parse_token r.from_str r.zero_number again (some (embed k)) t ts p
        ≡ parse_json r.from_str r.zero_number (λ v. raw_json v) ts p
  unfolding parse_token
  parse_token-embed again JsonToken.variable t ts p plain = cc
  parse_token-embed again _ t ts p plain = refl

  value_reads :
      (again : Next N) (v : ParsedJson N) (gaps : Gaps) (rest : List CommandMatch)
      (st : CommandStack N)
      → is_plain v ≡ true
      → on_token again
          (look_ahead 0 (with_spaces gaps (tokens_of command_symbols r v) rest) (state st []))
        ≡ parsed rest (state (st ++ node (raw_json v) ∷ []) [])
  value_reads again v gaps rest st plain =
      let f = tokens_of-FirstToken command_symbols r v in
      let first : CommandMatch = match_of command_symbols f.kind f.text in
      ap (λ ts. on_token again (look_ahead 0 (with_spaces gaps ts rest) (state st []))) f.starts
      ∙ (ap (λ x. on_token again x)
            (next_token gaps first f.others rest st
              (solid_is_no_space first (solid r v first f.others f.starts).0))
          ∙ (parse_token-embed again f.kind first (with_spaces (drop 1 gaps) f.others rest)
                (state st (first ∷ [])) (f.same_kind ∙ plain)
              ∙ parse_json-reads r v first f.others f.starts (λ w. raw_json w) (drop 1 gaps) rest
                  st))

  -- An assignment, from its two tokens on.
  assign_reads :
      (again : Next N) (name text : List ℕ) (us rest : List CommandMatch) (q : CommandRequest N)
      (st : CommandStack N)
      → ((es : CommandStack N)
          → again us (state es []) ≡ parsed rest (state (es ++ node q ∷ []) []))
      → command_parse_assignment r.from_str r.zero_number again us
          (state st (command_match CommandToken.variable name ∷ command_match equals text ∷ []))
        ≡ parsed rest (state (st ++ node (assign name q) ∷ []) [])
  unfolding command_parse_assignment accept accept_token name_value
  assign_reads again name text us rest q st reads =
      let x = command_match CommandToken.variable name in
      let e = command_match equals text in
      ap (λ a. assign_variable r.from_str r.zero_number again a) (look_ahead-seen us st x (e ∷ []))
      ∙ (ap (λ a. assign_to r.from_str r.zero_number again a) (look_second-seen us st x e [])
          ∙ (ap (λ a. and_then_parse a (λ vs s. reduce_by 3 name_value vs s))
                (reads ((st ++ token x ∷ []) ++ token e ∷ []))
              ∙ (ap (λ es. reduce_by 3 name_value rest (state es []))
                    (append_assoc (st ++ token x ∷ []) (token e ∷ []) (node q ∷ [])
                      ∙ append_assoc st (token x ∷ []) (token e ∷ node q ∷ []))
                  ∙ reduce_by-state r.from_str r.zero_number st (token x ∷ token e ∷ node q ∷ [])
                      rest [] name_value (assign name q) refl)))

  abbrev Reads : CommandRequest N → Type 0
  Reads q =
      (n : ℕ) (gaps : Gaps) (rest : List CommandMatch) (st : CommandStack N)
      → length (tokens_of_request r q) ≤ n
      → parse n (with_spaces gaps (tokens_of_request r q) rest) (state st [])
        ≡ parsed rest (state (st ++ node q ∷ []) [])

  raw-Reads : (v : ParsedJson N) → is_plain v ≡ true → Reads (raw_json v)
  unfolding tokens_of_request command_parse
  raw-Reads v plain zero gaps rest st enough =
      let f = tokens_of-FirstToken command_symbols r v in
      absurd (omega (arith, ap (λ ts. length ts) f.starts))
  raw-Reads v plain (suc n) gaps rest st enough = value_reads (parse n) v gaps rest st plain

  -- Where `serde_json` reads back the texts of strings and of numbers: `command_parse` on the tokens of a
  -- request that is a command with an argument, a JSON value other than a variable, or an assignment of
  -- such a request, with white space anywhere before them, any tokens after them, any stack below, and
  -- at least as much fuel as there are tokens, leaves the tokens after them, and the request on top of
  -- the stack.
  pub command_parse-tokens_of_request :
      (q : CommandRequest N) (n : ℕ) (gaps : Gaps) (rest : List CommandMatch) (st : CommandStack N)
      → IsPrintable q
      → length (tokens_of_request r q) ≤ n
      → command_parse r.from_str r.zero_number n
          (with_spaces gaps (tokens_of_request r q) rest)
          (state st [])
        ≡ parsed rest (state (st ++ node q ∷ []) [])
  unfolding command_parse tokens_of_request parse_token
  command_parse-tokens_of_request (command name v) zero gaps rest st ok enough =
      absurd (omega arith)
  command_parse-tokens_of_request (command name v) (suc n) gaps rest st ok enough =
      ap (λ x. on_token (parse n) x)
        (next_token gaps (command_match CommandToken.command name) (tokens_of command_symbols r v)
          rest st refl)
      ∙ command_reads r name v (drop 1 gaps) rest st
  command_parse-tokens_of_request (assign name q) zero gaps rest st ok enough = absurd (omega arith)
  command_parse-tokens_of_request (assign name q) (suc n) gaps rest st ok enough =
      let x = command_match CommandToken.variable name in
      let e = command_match equals (61 ∷ []) in
      ap (λ a. on_token (parse n) a) (next_token gaps x (e ∷ tokens_of_request r q) rest st refl)
      ∙ (ap (λ a. parse_variable r.from_str r.zero_number (parse n) a)
            (second_token (drop 1 gaps) e (tokens_of_request r q) rest st refl x)
          ∙ assign_reads (parse n) name (61 ∷ []) _ rest q st (λ es.
            command_parse-tokens_of_request q n (drop 1 (drop 1 gaps)) rest es ok (omega arith)))
  command_parse-tokens_of_request (raw_json (variable s)) n gaps rest st ok enough = absurd ok
  command_parse-tokens_of_request (raw_json null) n gaps rest st ok enough =
      raw-Reads null refl n gaps rest st enough
  command_parse-tokens_of_request (raw_json (bool b)) n gaps rest st ok enough =
      raw-Reads (bool b) refl n gaps rest st enough
  command_parse-tokens_of_request (raw_json (number x)) n gaps rest st ok enough =
      raw-Reads (number x) refl n gaps rest st enough
  command_parse-tokens_of_request (raw_json (string s)) n gaps rest st ok enough =
      raw-Reads (string s) refl n gaps rest st enough
  command_parse-tokens_of_request (raw_json (array vs)) n gaps rest st ok enough =
      raw-Reads (array vs) refl n gaps rest st enough
  command_parse-tokens_of_request (raw_json (object fs)) n gaps rest st ok enough =
      raw-Reads (object fs) refl n gaps rest st enough
  command_parse-tokens_of_request (pipe from to) n gaps rest st ok enough = absurd ok
  command_parse-tokens_of_request (for_target t q) n gaps rest st ok enough = absurd ok
