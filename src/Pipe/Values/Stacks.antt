-- ===== src/Pipe/Values/Stacks.antt =====
-- pipe/src/parse_json.rs: the parser's stack as a value is read. The tokens and the values below the
-- value are left alone.
use flo_scene.Common.{
  ◌-◌, true, List, [], ◌∷◌, ◌++◌, Option, some, ◌≡◌, refl, ap, arith, leb, length, take, drop,
  length-append,
}
use flo_scene.Pipe.Tokenizer.{TokenMatch}
use flo_scene.Pipe.Parser.{token, node, look_ahead, accept_token, reduce}
use flo_scene.Pipe.Values.{JsonInputType, ParsedJson}
use flo_scene.Pipe.Values.Steps.{
  Parsed, parsed, Tokens, Stack, JsonParser, on_lookahead, peek, accept, reduce_by, accept_as,
}

module _ {ℓ} {A : Type ℓ} where
  pub drop_append : (xs ys : List A) → drop (length xs) (xs ++ ys) ≡ ys
  drop_append [] ys = refl
  drop_append (x ∷ xs) ys = drop_append xs ys

  pub take_append : (xs ys : List A) → take (length xs) (xs ++ ys) ≡ xs
  take_append [] ys = refl
  take_append (x ∷ xs) ys = ap (λ zs. x ∷ zs) (take_append xs ys)

  pub below : (xs ys : List A) → length (xs ++ ys) - length ys ≡ length xs
  below xs ys = omega (arith, length-append xs ys)

  pub fits : (xs ys : List A) → leb (length ys) (length (xs ++ ys)) ≡ true
  fits xs ys = ground (arith, length-append xs ys)

module _ {T N : Type 0} where
  abbrev pub with_stack : Stack T N → JsonParser T N
  with_stack st = record { stack = st; lookahead = [] }

  -- The parser once it has seen the next token.
  abbrev pub having_seen : Stack T N → TokenMatch T → JsonParser T N
  having_seen st t = record { stack = st; lookahead = t ∷ [] }

  pub look_ahead-new :
      (t : TokenMatch T) (ts : Tokens T) (st : Stack T N)
      → look_ahead 0 (t ∷ ts) (with_stack st) ≡ (some t, ts, having_seen st t)
  unfolding look_ahead
  look_ahead-new t [] st = refl
  look_ahead-new t (u ∷ ts) st = refl

  look_ahead_again :
      (t : TokenMatch T) (ts : Tokens T) (st : Stack T N)
      → look_ahead 0 ts (having_seen st t) ≡ (some t, ts, having_seen st t)
  unfolding look_ahead
  look_ahead_again t [] st = refl
  look_ahead_again t (u ∷ ts) st = refl

  module _ (w : JsonInputType) (t : TokenMatch T) (ts : Tokens T) (st : Stack T N)
      (next : TokenMatch T → Tokens T → JsonParser T N → Parsed T N) where
    pub peek-new : peek w (t ∷ ts) (with_stack st) next ≡ next t ts (having_seen st t)
    unfolding peek
    peek-new = ap (λ r. on_lookahead w r next) (look_ahead-new t ts st)

    pub peek_again : peek w ts (having_seen st t) next ≡ next t ts (having_seen st t)
    unfolding peek
    peek_again = ap (λ r. on_lookahead w r next) (look_ahead_again t ts st)

  pub accept-seen :
      (t : TokenMatch T) (st : Stack T N) (next : JsonParser T N → Parsed T N)
      → accept (having_seen st t) next ≡ next (with_stack (st ++ token t ∷ []))
  unfolding accept accept_token
  accept-seen t st next = refl

  reduce-top :
      (base es : Stack T N) (f : Stack T N → ParsedJson N)
      → reduce (length es) f (with_stack (base ++ es))
        ≡ some (with_stack (base ++ node (f es) ∷ []))
  unfolding reduce
  reduce-top base es f =
      rw (fits base es, below base es, drop_append base es, take_append base es) refl

  pub reduce_by-top :
      (base es : Stack T N) (f : Stack T N → Option (ParsedJson N)) (v : ParsedJson N)
      (next : JsonParser T N → Parsed T N)
      → f es ≡ some v
      → reduce_by (length es) f (with_stack (base ++ es)) next
        ≡ next (with_stack (base ++ node v ∷ []))
  unfolding reduce_by
  reduce_by-top base es f v next is =
      rw (fits base es, below base es, drop_append base es, is, reduce-top base es (λ es'. v)) refl

  pub accept_as-seen :
      (v : ParsedJson N) (ts : Tokens T) (st : Stack T N) (t : TokenMatch T)
      → accept_as v ts (having_seen st t) ≡ parsed ts (with_stack (st ++ node v ∷ []))
  unfolding accept_as accept accept_token
  accept_as-seen v ts st t =
      reduce_by-top st (token t ∷ []) (λ es. some v) v (λ r. parsed ts r) refl
