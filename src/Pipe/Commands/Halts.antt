-- ===== src/Pipe/Commands/Halts.antt =====
-- pipe/src/commands/parse_command.rs: `command_parse` ends, and puts one request on the stack.
use flo_scene.Common.{
  ℕ, zero, suc, ◌+◌, ◌<◌, ◌≤◌, List, [], ◌∷◌, ◌++◌, Option, none, some, ◌≡◌, refl, sym, ◌∙◌, subst,
  arith, length, append_assoc,
}
use flo_scene.Pipe.Parser.{token, node, accept_token, skip_token}
use flo_scene.Pipe.Values.{ParsedJson, SerdeValue}
use flo_scene.Pipe.Commands.{CommandToken, variable, semi_colon, newline, json}
use flo_scene.Pipe.Commands.Steps.{
  CommandRequest, command, raw_json, CommandMatch, CommandParsed, parsed, failed, panics,
  out_of_fuel, CommandParser, CommandStack, Next, accept, reduce_by, and_then_parse,
}
use flo_scene.Pipe.Commands.Parse.{
  name_argument, only_name, name_value, is_equals, is_variable, is_name, command_parse_argument,
  parse_rest_of, parse_after_name, parse_named, command_parse_command, assign_to, assign_variable,
  command_parse_assignment, parse_variable, parse_token, parse_first, command_parse,
}
use flo_scene.Pipe.Commands.Ahead.{state}
use flo_scene.Pipe.Commands.Pushes.{
  IsParsed, is_internal, Input, Reaches, here, takes, Pushes, reduce_by-Pushes, branch-Pushes,
  and_then_parse-Pushes, look_ahead-Pushes, look_second-Pushes, parse_json-Pushes,
}

module _ {N : Type 0} (from_str : List ℕ → Option (SerdeValue N)) (zero_number : N) where
  abbrev Parses : Input → Next N → ℕ → Type 0
  Parses o parse k =
      (ts : List CommandMatch) (st : CommandStack N) (l : List CommandMatch)
      → length ts + length l < k
      → Reaches o ts l
      → Pushes from_str zero_number o IsParsed st (length ts + length l) (parse ts (state st l))

  -- A command whose name is still to be given.
  abbrev IsArgument : CommandRequest N → Type 0
  IsArgument r = (v : ParsedJson N) × (r ≡ command [] v)

  module _ (o : Input) (base : CommandStack N) (m : ℕ) where
    named :
        (t : CommandMatch) (ts l : List CommandMatch)
        → length ts + length l ≤ m
        → Reaches o ts l
        → Pushes from_str zero_number o IsParsed base m (
            and_then_parse
              (command_parse_argument from_str zero_number ts (state (base ++ token t ∷ []) l))
              (λ us q. reduce_by 2 name_argument us q))
    unfolding command_parse_argument name_argument
    named t ts l lm to =
        and_then_parse-Pushes from_str zero_number o IsParsed base m IsArgument
          (base ++ token t ∷ []) (length ts + length l) _ _
          (parse_json-Pushes from_str zero_number o IsArgument (base ++ token t ∷ [])
            (length ts + length l) (λ v. command [] v) ts l (λ v. (v, refl)) (omega arith) to)
          (λ r us ls is lt.
            subst
              (λ st.
                Pushes from_str zero_number o IsParsed base m
                  (reduce_by 2 name_argument us (state st ls)))
              (sym (append_assoc base (token t ∷ []) (node r ∷ [])))
              (subst
                (λ s.
                  Pushes from_str zero_number o IsParsed base m
                    (reduce_by 2 name_argument us (state (base ++ token t ∷ node s ∷ []) ls)))
                (sym is.1)
                (reduce_by-Pushes from_str zero_number o IsParsed base m
                  (token t ∷ node (command [] is.0) ∷ []) us ls name_argument
                  (command t.fragment is.0) refl tt (omega arith))))

    ended :
        (t u : CommandMatch) (ts l : List CommandMatch)
        → length ts + length l < m
        → Pushes from_str zero_number o IsParsed base m
            (accept (state (base ++ token t ∷ []) (u ∷ l)) (λ q. reduce_by 2 only_name ts q))
    unfolding accept accept_token only_name
    ended t u ts l lm =
        subst
          (λ st.
            Pushes from_str zero_number o IsParsed base m (reduce_by 2 only_name ts (state st l)))
          (sym (append_assoc base (token t ∷ []) (token u ∷ [])))
          (reduce_by-Pushes from_str zero_number o IsParsed base m (token t ∷ token u ∷ []) ts l
            only_name (command t.fragment ParsedJson.null) refl tt lm)

    parse_rest_of-Pushes :
        (k : Option CommandToken) (t u : CommandMatch) (ts l : List CommandMatch)
        → length ts + suc (length l) ≤ m
        → Reaches o ts (u ∷ l)
        → Pushes from_str zero_number o IsParsed base m
            (parse_rest_of from_str zero_number k u ts (state (base ++ token t ∷ []) (u ∷ l)))
    unfolding parse_rest_of is_internal
    parse_rest_of-Pushes none t u ts l lm to = refl
    parse_rest_of-Pushes (some (json _)) t u ts l lm to = named t ts (u ∷ l) lm to
    parse_rest_of-Pushes (some variable) t u ts l lm to = named t ts (u ∷ l) lm to
    parse_rest_of-Pushes (some newline) t u ts l lm to = ended t u ts l (omega arith)
    parse_rest_of-Pushes (some semi_colon) t u ts l lm to = ended t u ts l (omega arith)
    parse_rest_of-Pushes (some _) t u ts l lm to = refl

    command_parse_command-Pushes :
        (ts l : List CommandMatch)
        → length ts + length l ≤ m
        → Reaches o ts l
        → Pushes from_str zero_number o IsParsed base m
            (command_parse_command from_str zero_number ts (state base l))
    unfolding command_parse_command accept accept_token is_internal only_name
    command_parse_command-Pushes ts l lm to =
        look_ahead-Pushes from_str zero_number o IsParsed base m ts base l
          (λ r. parse_named from_str zero_number r) (λ us le. refl)
          (λ t us ls le at.
            branch-Pushes from_str zero_number o IsParsed base m (is_name t.token) _ _
              (look_ahead-Pushes from_str zero_number o IsParsed base m us (base ++ token t ∷ []) ls
                (λ r. parse_after_name from_str zero_number r)
                (λ vs le'.
                  reduce_by-Pushes from_str zero_number o IsParsed base m (token t ∷ []) vs []
                    only_name (command t.fragment ParsedJson.null) refl tt (omega arith))
                (λ u vs rs le' next. parse_rest_of-Pushes u.token t u vs rs (omega arith) next)
                (takes us ls t at))
              refl)
          to

    -- The rest of an assignment, whose two tokens are in the lookahead.
    assign_rest :
        (parse : Next N) (k : ℕ) (t u : CommandMatch) (ts l : List CommandMatch)
        → Parses o parse k
        → length ts + length l < k
        → length ts + length l ≤ m
        → Reaches o ts (t ∷ u ∷ l)
        → Pushes from_str zero_number o IsParsed base m (
            accept (state base (t ∷ u ∷ l)) (λ q.
              accept q (λ r. and_then_parse (parse ts r) (λ us s. reduce_by 3 name_value us s))))
    unfolding accept accept_token name_value
    assign_rest parse k t u ts l parses lk lm to =
        and_then_parse-Pushes from_str zero_number o IsParsed base m IsParsed
          ((base ++ token t ∷ []) ++ token u ∷ []) (length ts + length l) _ _
          (parses ts ((base ++ token t ∷ []) ++ token u ∷ []) l lk
            (takes ts l u (takes ts (u ∷ l) t to)))
          (λ r us ls is lt.
            subst
              (λ st.
                Pushes from_str zero_number o IsParsed base m
                  (reduce_by 3 name_value us (state st ls)))
              (sym (
                append_assoc (base ++ token t ∷ []) (token u ∷ []) (node r ∷ [])
                ∙ append_assoc base (token t ∷ []) (token u ∷ node r ∷ [])))
              (reduce_by-Pushes from_str zero_number o IsParsed base m
                (token t ∷ token u ∷ node r ∷ []) us ls name_value
                (CommandRequest.assign t.fragment r) refl is (omega arith)))

    command_parse_assignment-Pushes :
        (parse : Next N) (k : ℕ) (ts l : List CommandMatch)
        → Parses o parse k
        → length ts + length l ≤ k
        → length ts + length l ≤ m
        → Reaches o ts l
        → Pushes from_str zero_number o IsParsed base m
            (command_parse_assignment from_str zero_number parse ts (state base l))
    unfolding command_parse_assignment is_internal
    command_parse_assignment-Pushes parse k ts l parses lk lm to =
        look_ahead-Pushes from_str zero_number o IsParsed base m ts base l
          (λ r. assign_variable from_str zero_number parse r) (λ us le. refl)
          (λ t us ls le at.
            branch-Pushes from_str zero_number o IsParsed base m (is_variable t.token) _ _
              (look_second-Pushes from_str zero_number o IsParsed base m us base t ls
                (λ r. assign_to from_str zero_number parse r) (λ vs le' gone. refl)
                (λ u vs rs le' both.
                  branch-Pushes from_str zero_number o IsParsed base m (is_equals u.token) _ _
                    (assign_rest parse k t u vs rs parses (omega arith) (omega arith) both) refl)
                at)
              refl)
          to

    Pushes-le :
        (n : ℕ)
        → n ≤ m
        → (x : CommandParsed N) → Pushes from_str zero_number o IsParsed base n x
        → Pushes from_str zero_number o IsParsed base m x
    Pushes-le n le (parsed ts p) (r, is, same, lt) = (r, is, same, omega arith)
    Pushes-le n le (failed e) h = h
    Pushes-le n le panics h = h
    Pushes-le n le out_of_fuel h = absurd h

    parse_token-Pushes :
        (parse : Next N) (k : ℕ) (kind : Option CommandToken) (t : CommandMatch)
        (ts l : List CommandMatch)
        → Parses o parse k
        → length ts + suc (length l) ≤ k
        → length ts + suc (length l) ≤ m
        → Reaches o ts (t ∷ l)
        → Pushes from_str zero_number o IsParsed base m
            (parse_token from_str zero_number parse kind t ts (state base (t ∷ l)))
    unfolding parse_token skip_token is_internal
    parse_token-Pushes parse k none t ts l parses lk lm to = refl
    parse_token-Pushes parse k (some newline) t ts l parses lk lm to =
        Pushes-le (length ts + length l) (omega arith) (parse ts (state base l))
          (parses ts base l (omega arith) (takes ts l t to))
    parse_token-Pushes parse k (some CommandToken.command) t ts l parses lk lm to =
        command_parse_command-Pushes ts (t ∷ l) lm to
    parse_token-Pushes parse k (some variable) t ts l parses lk lm to =
        look_second-Pushes from_str zero_number o IsParsed base m ts base t l
          (λ r. parse_variable from_str zero_number parse r)
          (λ us le at. command_parse_command-Pushes us (t ∷ []) (omega arith) at)
          (λ u us ls le at.
            branch-Pushes from_str zero_number o IsParsed base m (is_equals u.token) _ _
              (command_parse_assignment-Pushes parse k us (t ∷ u ∷ ls) parses (omega arith)
                (omega arith) at)
              (command_parse_command-Pushes us (t ∷ u ∷ ls) (omega arith) at))
          to
    parse_token-Pushes parse k (some (json _)) t ts l parses lk lm to =
        parse_json-Pushes from_str zero_number o IsParsed base m (λ v. raw_json v) ts (t ∷ l)
          (λ v. tt) lm to
    parse_token-Pushes parse k (some _) t ts l parses lk lm to = refl

  parses : (o : Input) (fuel : ℕ) → Parses o (command_parse from_str zero_number fuel) fuel
  unfolding command_parse is_internal
  parses o zero ts st l lt to = absurd (omega arith)
  parses o (suc fuel) ts st l lt to =
      look_ahead-Pushes from_str zero_number o IsParsed st (length ts + length l) ts st l
        (λ r. parse_first from_str zero_number (command_parse from_str zero_number fuel) r)
        (λ us le. refl)
        (λ t us ls le at.
          parse_token-Pushes o st (length ts + length l) (command_parse from_str zero_number fuel)
            fuel t.token t us ls (parses o fuel) (omega arith) (omega arith) at)
        to

  -- With more fuel than there are tokens, in the lookahead and after it, `command_parse` does not run
  -- out of it, also in the JSON that it reads. When it succeeds, the stack is what it was with one
  -- request on top, which is a command, a JSON value, or an assignment of such a request, and fewer
  -- tokens are left. Its error is never that of a stack that is too small, in its own parser or in that
  -- of JSON, nor of a parser that did not converge. It panics only where `json_parse_value` does, on the
  -- tokens and the lookahead that are left when the parser of commands has read some tokens into the
  -- lookahead and taken some from it.
  pub command_parse-Pushes :
      (fuel : ℕ) (ts : List CommandMatch) (p : CommandParser N)
      → length ts + length p.lookahead < fuel
      → Pushes from_str zero_number
          (ts, p.lookahead)
          IsParsed
          p.stack
          (length ts + length p.lookahead)
          (command_parse from_str zero_number fuel ts p)
  command_parse-Pushes fuel ts p enough =
      parses (ts, p.lookahead) fuel ts p.stack p.lookahead enough here
