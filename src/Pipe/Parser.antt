-- ===== src/Pipe/Parser.antt =====
-- pipe/src/parser.rs: the stack and the lookahead of a parser. A `Vec` and a `VecDeque` are lists
-- with their first entry first, and the tokenizer is the list of the tokens that it has yet to give.
use flo_scene.Common.{
  ℕ, ◌-◌, Bool, true, false, List, [], ◌∷◌, ◌++◌, map, Option, none, some, ◌⊎◌, inl, inr, leb,
  if◌then◌else◌, length, get_elem?, take, drop,
}

pub data ParserStackEntry {ℓ} (T N : Type ℓ) : Type ℓ where
  token : T → ParserStackEntry T N
  node : N → ParserStackEntry T N

pub record Parser {ℓ} (T N : Type ℓ) : Type ℓ where
  pub stack : List (ParserStackEntry T N)
  pub lookahead : List T

pub data ExpectedTokenError {ℓ} (T : Type ℓ) : Type ℓ where
  parser_lookahead_empty : ExpectedTokenError T
  unexpected_token : T → ExpectedTokenError T

module _ {ℓ} {T N : Type ℓ} where
  unfoldable pub new_parser : Parser T N
  new_parser = record { stack = []; lookahead = [] }

  -- The `while` of `Parser::lookahead`, with the tokens that are left.
  unfoldable pub fill_lookahead : ℕ → List T → Parser T N → List T × Parser T N
  fill_lookahead distance [] p = ([], p)
  fill_lookahead distance (t ∷ ts) p = elim (leb (length p.lookahead) distance) [
    | true ↦ fill_lookahead distance ts (record p { lookahead = p.lookahead ++ t ∷ [] })
    | false ↦ (t ∷ ts, p)
  ]

  -- `Parser::lookahead`: the token that it returns, and what `ensure_lookahead` leaves.
  unfoldable pub look_ahead : ℕ → List T → Parser T N → Option T × List T × Parser T N
  unfolding fill_lookahead
  look_ahead distance ts p =
      let (rest, p') = fill_lookahead distance ts p in (get_elem? p'.lookahead distance, rest, p')

  -- `none` is `ParserLookaheadEmpty`, which leaves the parser as it was.
  unfoldable pub accept_token : Parser T N → Option (Parser T N)
  accept_token p = elim p.lookahead [
    | [] ↦ none
    | t ∷ ts ↦ some (record { stack = p.stack ++ token t ∷ []; lookahead = ts })
  ]

  unfoldable pub skip_token : Parser T N → Parser T N
  skip_token p = record p { lookahead = drop 1 p.lookahead }

  unfoldable pub return_lookahead : Parser T N → List T × Parser T N
  return_lookahead p = (p.lookahead, record p { lookahead = [] })

  -- `none` is `ParserStackTooSmall`, which leaves the parser as it was.
  unfoldable pub reduce : ℕ → (List (ParserStackEntry T N) → N) → Parser T N → Option (Parser T N)
  reduce len reduce_fn p =
      if leb len (length p.stack)
      then some (record p {
        stack =
            take (length p.stack - len) p.stack
            ++ node (reduce_fn (drop (length p.stack - len) p.stack)) ∷ [];
      })
      else none

  -- `none` is `ParserDidNotConverge`.
  unfoldable pub finish : Parser T N → Option N × Parser T N
  finish p = elim p.stack [
    | [] ↦ (none, p)
    | token t ∷ [] ↦ (none, record p { stack = [] })
    | node n ∷ [] ↦ (some n, record p { stack = [] })
    | e ∷ f ∷ es ↦ (none, p)
  ]

  unfoldable pub abort : Parser T N → List (ParserStackEntry T N) × Parser T N
  abort p = (p.stack, record p { stack = [] })

  unfoldable pub accept_expected_token : (T → Bool) → Parser T N → Parser T N ⊎ ExpectedTokenError T
  accept_expected_token expected p = elim p.lookahead [
    | [] ↦ inr parser_lookahead_empty
    | t ∷ ts ↦
        if expected t
        then inl (record { stack = p.stack ++ token t ∷ []; lookahead = ts })
        else inr (unexpected_token t)
  ]

-- `with_lookahead_from` and `take_lookahead_from`, with the conversion of tokens `into`: the new
-- parser, and what is left of the other one.
module _ {ℓ} {T S N M : Type ℓ} (into : S → T) where
  unfoldable pub take_lookahead_from : Parser S M → Parser T N → Parser T N × Parser S M
  unfolding return_lookahead
  take_lookahead_from other p =
      let (tokens, other') = return_lookahead other in
      (record p { lookahead = p.lookahead ++ map into tokens }, other')

  unfoldable pub with_lookahead_from : Parser S M → Parser T N × Parser S M
  unfolding return_lookahead
  with_lookahead_from other =
      let (tokens, other') = return_lookahead other in
      (record { stack = []; lookahead = map into tokens }, other')
