-- ===== src/Pipe/Commands/Pushes.antt =====
-- pipe/src/commands/parse_command.rs: what the steps of the parser of commands keep. The parser's stack
-- and lookahead are followed as two lists.
use flo_scene.Common.{
  ℕ, suc, ◌+◌, ◌-◌, ◌<◌, ◌≤◌, Bool, true, false, List, [], ◌∷◌, ◌++◌, map, Option, none, some, ◌≡◌,
  refl, sym, ap, subst, arith, length, append-nil,
}
use flo_scene.Pipe.Parser.{node, reduce, with_lookahead_from, take_lookahead_from, finish}
use flo_scene.Pipe.Values
use flo_scene.Pipe.Values.{JsonParseError, ParsedJson, SerdeValue, json_tokens}
use flo_scene.Pipe.Values.Steps.{Parsed}
use flo_scene.Pipe.Values.Parse.{json_parse_value}
use flo_scene.Pipe.Values.Stacks.{drop_append, take_append, below, fits}
use flo_scene.Pipe.Values.Pushes.{Pushes as JsonPushes}
use flo_scene.Pipe.Values.Halts.{json_parse_value-Pushes}
use flo_scene.Pipe.Commands.{CommandToken, into_json}
use flo_scene.Pipe.Commands.Steps.{
  CommandRequest, command, raw_json, pipe, assign, for_target, CommandParseError, json_error,
  parser_stack_too_small, parser_did_not_converge, CommandMatch, CommandParsed, parsed, failed,
  panics, out_of_fuel, CommandParser, CommandStack, Next, look_ahead, reduce_by, and_then_parse,
  json_fuel, command_read_token, json_reads, json_value, after_json, parse_json,
}
use flo_scene.Pipe.Commands.Reads.{map_same, Left, command_read_token-Left, json_reads-length}
use flo_scene.Pipe.Commands.Ahead.{
  state, first_read, second_read, look_ahead-read, look_ahead-seen, look_second-read,
  look_second-seen,
}

-- The requests that the parser can make: it makes no `pipe` and no `for_target`.
abbrev pub IsParsed : {N : Type 0} → CommandRequest N → Type 0
IsParsed (command name argument) = Unit {0}
IsParsed (raw_json value) = Unit {0}
IsParsed (assign name from) = IsParsed from
IsParsed (pipe from to) = ⊥
IsParsed (for_target target request) = ⊥

-- The errors that are of the parser's own making.
unfoldable pub is_internal : CommandParseError → Bool
is_internal parser_stack_too_small = true
is_internal parser_did_not_converge = true
is_internal (json_error JsonParseError.parser_stack_too_small) = true
is_internal _ = false

abbrev rest_of : List CommandMatch → List CommandMatch → List CommandMatch
rest_of ts us = json_reads into_json (length (json_tokens into_json ts) - length us) ts

-- The tokens that are left to the reader, and the lookahead.
abbrev pub Input : Type 0
Input = List CommandMatch × List CommandMatch

-- How the parser of commands goes through its input `o`: it reads a token into the lookahead, finds none
-- there, or takes the first one of the lookahead.
pub data Reaches (o : Input) : List CommandMatch → List CommandMatch → Type 0 where
  here : Reaches o o.0 o.1
  reads :
      (us ls vs : List CommandMatch) (t : CommandMatch)
      → Reaches o us ls
      → command_read_token us ≡ (some t, vs)
      → Reaches o vs (ls ++ t ∷ [])
  ends :
      (us ls vs : List CommandMatch)
      → Reaches o us ls
      → command_read_token us ≡ (none, vs)
      → Reaches o vs ls
  takes : (us ls : List CommandMatch) (t : CommandMatch) → Reaches o us (t ∷ ls) → Reaches o us ls

module _ {N : Type 0} (from_str : List ℕ → Option (SerdeValue N)) (zero_number : N) where
  -- The parser of JSON panics, when it is called where the parser of commands comes to in the input.
  abbrev pub JsonPanics : Input → Type 0
  JsonPanics o =
      (us : List CommandMatch) × (ls : List CommandMatch) × Reaches o us ls
      × (json_parse_value into_json from_str zero_number (json_fuel us ls)
            (json_tokens into_json us) (Values.Pushes.state [] (map (λ t. t) ls))
          ≡ Parsed.panics)

  -- A result has put a request that is `Is` on the stack `base` and leaves fewer than `m` tokens, an
  -- error is not internal, a panic is one of the parser of JSON, called on what is left of the input
  -- `o`, and the fuel is enough.
  abbrev pub Pushes :
      Input → (CommandRequest N → Type 0) → CommandStack N → ℕ → CommandParsed N → Type 0
  Pushes o Is base m (parsed ts p) =
      (r : CommandRequest N) × Is r
      × (p.stack ≡ base ++ node r ∷ [])
      × (length ts + length p.lookahead < m)
  Pushes o Is base m (failed e) = is_internal e ≡ false
  Pushes o Is base m panics = JsonPanics o
  Pushes o Is base m out_of_fuel = ⊥

  reduce-state :
      (below_it es : CommandStack N) (l : List CommandMatch) (f : CommandStack N → CommandRequest N)
      → reduce (length es) f (state (below_it ++ es) l)
        ≡ some (state (below_it ++ node (f es) ∷ []) l)
  unfolding reduce
  reduce-state below_it es l f =
      rw (fits below_it es, below below_it es, drop_append below_it es, take_append below_it es)
        refl

  pub reduce_by-state :
      (base es : CommandStack N) (ts l : List CommandMatch)
      (f : CommandStack N → Option (CommandRequest N)) (r : CommandRequest N)
      → f es ≡ some r
      → reduce_by (length es) f ts (state (base ++ es) l)
        ≡ parsed ts (state (base ++ node r ∷ []) l)
  unfolding reduce_by
  reduce_by-state base es ts l f r is =
      rw (fits base es, below base es, drop_append base es, is, reduce-state base es l (λ fs. r))
        refl

  module _ (o : Input) (Is : CommandRequest N → Type 0) (base : CommandStack N) (m : ℕ) where
    pub reduce_by-Pushes :
        (es : CommandStack N) (ts l : List CommandMatch)
        (f : CommandStack N → Option (CommandRequest N)) (r : CommandRequest N)
        → f es ≡ some r
        → Is r
        → length ts + length l < m
        → Pushes o Is base m (reduce_by (length es) f ts (state (base ++ es) l))
    reduce_by-Pushes es ts l f r is ok lt =
        subst (λ x. Pushes o Is base m x) (sym (reduce_by-state base es ts l f r is))
          (r, ok, refl, lt)

    pub branch-Pushes :
        (b : Bool) (x y : CommandParsed N)
        → Pushes o Is base m x
        → Pushes o Is base m y
        → Pushes o Is base m (elim b [ true ↦ x | false ↦ y ])
    branch-Pushes true x y hx hy = hx
    branch-Pushes false x y hx hy = hy

    -- What follows a request that `st` and fewer than `k` tokens are left below.
    pub and_then_parse-Pushes :
        (Was : CommandRequest N → Type 0) (st : CommandStack N) (k : ℕ) (x : CommandParsed N)
        (next : Next N)
        → Pushes o Was st k x
        → ((r : CommandRequest N) (us ls : List CommandMatch)
            → Was r
            → length us + length ls < k
            → Pushes o Is base m (next us (state (st ++ node r ∷ []) ls)))
        → Pushes o Is base m (and_then_parse x next)
    and_then_parse-Pushes Was st k (parsed ts p) next (r, was, is, lt) h =
        subst (λ s. Pushes o Is base m (next ts (state s p.lookahead))) (sym is)
          (h r ts p.lookahead was lt)
    and_then_parse-Pushes Was st k (failed e) next x h = x
    and_then_parse-Pushes Was st k panics next x h = x
    and_then_parse-Pushes Was st k out_of_fuel next x h = absurd x

    -- The next token is looked at.
    pub look_ahead-Pushes :
        (ts : List CommandMatch) (st : CommandStack N) (l : List CommandMatch)
        (next : Option CommandMatch × List CommandMatch × CommandParser N → CommandParsed N)
        → ((us : List CommandMatch)
            → length us ≤ length ts + length l
            → Pushes o Is base m (next (none, us, state st [])))
        → ((t : CommandMatch) (us ls : List CommandMatch)
            → length us + suc (length ls) ≤ length ts + length l
            → Reaches o us (t ∷ ls)
            → Pushes o Is base m (next (some t, us, state st (t ∷ ls))))
        → Reaches o ts l
        → Pushes o Is base m (next (look_ahead 0 ts (state st l)))
    look_ahead-Pushes ts st [] next hn hs to =
        subst (λ x. Pushes o Is base m (next x)) (sym (look_ahead-read ts st))
          (on_read (command_read_token ts) refl (command_read_token-Left ts))
      where
        on_read :
            (r : Option CommandMatch × List CommandMatch)
            → command_read_token ts ≡ r
            → Left (length ts) r
            → Pushes o Is base m (next (first_read st r))
        on_read (none, us) is left = hn us (omega arith)
        on_read (some t, us) is left = hs t us [] (omega arith) (reads ts [] us t to is)
    look_ahead-Pushes ts st (x ∷ l) next hn hs to =
        subst (λ x. Pushes o Is base m (next x)) (sym (look_ahead-seen ts st x l))
          (hs x ts l (omega arith) to)

    -- The token after the next one is looked at.
    pub look_second-Pushes :
        (ts : List CommandMatch) (st : CommandStack N) (t : CommandMatch) (l : List CommandMatch)
        (next : Option CommandMatch × List CommandMatch × CommandParser N → CommandParsed N)
        → ((us : List CommandMatch)
            → length us ≤ length ts + length l
            → Reaches o us (t ∷ [])
            → Pushes o Is base m (next (none, us, state st (t ∷ []))))
        → ((u : CommandMatch) (us ls : List CommandMatch)
            → length us + suc (length ls) ≤ length ts + length l
            → Reaches o us (t ∷ u ∷ ls)
            → Pushes o Is base m (next (some u, us, state st (t ∷ u ∷ ls))))
        → Reaches o ts (t ∷ l)
        → Pushes o Is base m (next (look_ahead 1 ts (state st (t ∷ l))))
    look_second-Pushes ts st t [] next hn hs to =
        subst (λ x. Pushes o Is base m (next x)) (sym (look_second-read ts st t))
          (on_read (command_read_token ts) refl (command_read_token-Left ts))
      where
        on_read :
            (r : Option CommandMatch × List CommandMatch)
            → command_read_token ts ≡ r
            → Left (length ts) r
            → Pushes o Is base m (next (second_read st t r))
        on_read (none, us) is left = hn us (omega arith) (ends ts (t ∷ []) us to is)
        on_read (some u, us) is left = hs u us [] (omega arith) (reads ts (t ∷ []) us u to is)
    look_second-Pushes ts st t (x ∷ l) next hn hs to =
        subst (λ x. Pushes o Is base m (next x)) (sym (look_second-seen ts st t x l))
          (hs x ts l (omega arith) to)

    -- The results of `json_parse_value`, which was to read the tokens `ts`.
    after_json-Pushes :
        (make : ParsedJson N → CommandRequest N) (ts l : List CommandMatch)
        (x : Parsed CommandToken N)
        → ((v : ParsedJson N) → Is (make v))
        → length ts + length l ≤ m
        → (x ≡ Parsed.panics → JsonPanics o)
        → JsonPushes [] (length (json_tokens into_json ts) + length l) x
        → Pushes o Is base m (after_json make ts (state base []) x)
    unfolding after_json take_lookahead_from finish is_internal
    after_json-Pushes make ts l (Parsed.parsed us q) ok le panic (v, is, lt) =
        subst
          (λ st. Pushes o Is base m (
            json_value make (rest_of ts us) (state base (map (λ t. t) q.lookahead))
              (finish (Values.Pushes.state st []))))
          (sym is)
          (subst
            (λ st. Pushes o Is base m (
              reduce_by 0 (λ es. some (make v)) (rest_of ts us)
                (state st (map (λ t. t) q.lookahead))))
            (append-nil base)
            (reduce_by-Pushes [] (rest_of ts us) (map (λ t. t) q.lookahead) (λ es. some (make v))
              (make v) refl (ok v)
              (omega (
                arith,
                ap (λ ys. length ys) (map_same q.lookahead),
                json_reads-length into_json (length (json_tokens into_json ts) - length us) ts
                    (omega arith),
              ))))
    after_json-Pushes make ts l (Parsed.failed JsonParseError.parser_stack_too_small) ok le panic
          h =
        absurd (h refl)
    after_json-Pushes make ts l (Parsed.failed _) ok le panic h = refl
    after_json-Pushes make ts l Parsed.panics ok le panic h = panic refl
    after_json-Pushes make ts l Parsed.out_of_fuel ok le panic h = absurd h

    pub parse_json-Pushes :
        (make : ParsedJson N → CommandRequest N) (ts l : List CommandMatch)
        → ((v : ParsedJson N) → Is (make v))
        → length ts + length l ≤ m
        → Reaches o ts l
        → Pushes o Is base m (parse_json from_str zero_number make ts (state base l))
    unfolding parse_json with_lookahead_from
    parse_json-Pushes make ts l ok le to =
        let same : length (map (λ t. t) l) ≡ length l = ap (λ ys. length ys) (map_same l) in
        after_json-Pushes make ts (map (λ t. t) l) _ ok (omega arith) (λ e. (ts, l, to, e))
          (json_parse_value-Pushes into_json from_str zero_number (json_fuel ts l)
            (json_tokens into_json ts) (Values.Pushes.state [] (map (λ t. t) l))
            (omega (
              arith,
              json_reads-length into_json (length (json_tokens into_json ts)) ts (omega arith),
            )))
