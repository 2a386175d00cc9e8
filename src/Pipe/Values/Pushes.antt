-- ===== src/Pipe/Values/Pushes.antt =====
-- pipe/src/parse_json.rs: what the steps of the parser of JSON values keep. The parser's stack and
-- lookahead are followed as two lists.
use flo_scene.Common.{
  ℕ, suc, ◌+◌, ◌<◌, Bool, true, false, [], ◌∷◌, ◌++◌, Option, none, some, ◌≡◌, ◌≢◌, inl, inr,
  if◌then◌else◌, refl, sym, subst, arith, length,
}
use flo_scene.Pipe
use flo_scene.Pipe.Json.{JsonToken}
use flo_scene.Pipe.Tokenizer.{TokenMatch}
use flo_scene.Pipe.Parser.{
  token, node, look_ahead, accept_token, reduce, accept_expected_token, parser_lookahead_empty,
}
use flo_scene.Pipe.Values.{
  JsonInputType, lookahead_empty, expected_more_input, parser_stack_too_small, unexpected_token,
  ParsedJson, json_token, unexpected,
}
use flo_scene.Pipe.Values.Steps.{
  Parsed, parsed, failed, panics, out_of_fuel, Tokens, Stack, JsonParser, peek, accept, reduce_by,
  accept_as, and_then_parse, finish_with, is_character, Separator, separator_of, is_comma, is_close,
  is_other,
}
use flo_scene.Pipe.Values.Parse.{after_value, expect_character}
use flo_scene.Pipe.Values.Stacks.{drop_append, take_append, below, fits}

pub unexpected-ne :
    {T : Type 0} (into : T → Option JsonToken) (t : TokenMatch T)
    → unexpected into t ≢ parser_stack_too_small
unexpected-ne into t = of_token (json_token into t)
  where
    of_token :
        (o : Option (Option JsonToken))
        → elim o [
          | none ↦ unexpected_token none t.fragment
          | some k ↦ unexpected_token k t.fragment
        ]
          ≢ parser_stack_too_small
    of_token none = cc
    of_token (some k) = cc

module _ {T N : Type 0} where
  abbrev pub state : Stack T N → Tokens T → JsonParser T N
  state st l = record { stack = st; lookahead = l }

  -- A result has put one value on the stack `base` and leaves fewer than `m` tokens, an error is not
  -- that of a stack that is too small, and the fuel is enough.
  abbrev pub Pushes : Stack T N → ℕ → Parsed T N → Type 0
  Pushes base m (parsed ts p) =
      (v : ParsedJson N) × (p.stack ≡ base ++ node v ∷ []) × (length ts + length p.lookahead < m)
  Pushes base m (failed e) = e ≢ parser_stack_too_small
  Pushes base m panics = Unit
  Pushes base m out_of_fuel = ⊥

  look_ahead-seen :
      (t : TokenMatch T) (ts l : Tokens T) (st : Stack T N)
      → look_ahead 0 ts (state st (t ∷ l)) ≡ (some t, ts, state st (t ∷ l))
  unfolding look_ahead
  look_ahead-seen t [] l st = refl
  look_ahead-seen t (u ∷ ts) l st = ground arith

  reduce-state :
      (below_it es : Stack T N) (l : Tokens T) (f : Stack T N → ParsedJson N)
      → reduce (length es) f (state (below_it ++ es) l)
        ≡ some (state (below_it ++ node (f es) ∷ []) l)
  unfolding reduce
  reduce-state below_it es l f =
      rw (fits below_it es, below below_it es, drop_append below_it es, take_append below_it es)
        refl

  module _ (base : Stack T N) (m : ℕ) where
    pub branch-Pushes :
        (b : Bool) (x y : Parsed T N)
        → Pushes base m x
        → Pushes base m y
        → Pushes base m (elim b [ true ↦ x | false ↦ y ])
    branch-Pushes true x y hx hy = hx
    branch-Pushes false x y hx hy = hy

    pub peek-Pushes :
        (w : JsonInputType) (ts : Tokens T) (st : Stack T N) (l : Tokens T)
        (next : TokenMatch T → Tokens T → JsonParser T N → Parsed T N)
        → ((t : TokenMatch T) (us ls : Tokens T)
            → length us + suc (length ls) ≡ length ts + length l
            → Pushes base m (next t us (state st (t ∷ ls))))
        → Pushes base m (peek w ts (state st l) next)
    unfolding peek look_ahead
    peek-Pushes w [] st [] next h = cc
    peek-Pushes w [] st (x ∷ l) next h = h x [] l refl
    peek-Pushes w (t ∷ []) st [] next h = h t [] [] refl
    peek-Pushes w (t ∷ u ∷ ts) st [] next h = h t (u ∷ ts) [] (omega arith)
    peek-Pushes w (t ∷ ts) st (x ∷ l) next h =
        rw (look_ahead-seen x (t ∷ ts) l st) (h x (t ∷ ts) l (omega arith))

    reduce_all-Pushes :
        (below_it es : Stack T N) (l : Tokens T) (f : Stack T N → Option (ParsedJson N))
        (next : JsonParser T N → Parsed T N)
        → ((v : ParsedJson N) → Pushes base m (next (state (below_it ++ node v ∷ []) l)))
        → Pushes base m (reduce_by (length es) f (state (below_it ++ es) l) next)
    unfolding reduce_by
    reduce_all-Pushes below_it es l f next h =
        rw (fits below_it es, below below_it es, drop_append below_it es) (on_value (f es))
      where
        on_value :
            (o : Option (ParsedJson N))
            → Pushes base m (elim o [
              | none ↦ panics
              | some v ↦ elim (reduce (length es) (λ fs. v) (state (below_it ++ es) l)) [
                | none ↦ failed parser_stack_too_small
                | some q ↦ next q
              ]
            ])
        on_value none = tt
        on_value (some v) = rw (reduce-state below_it es l (λ fs. v)) (h v)

    pub reduce_by-Pushes :
        (below_it es : Stack T N) (l : Tokens T) (num : ℕ) (f : Stack T N → Option (ParsedJson N))
        (next : JsonParser T N → Parsed T N)
        → num ≡ length es
        → ((v : ParsedJson N) → Pushes base m (next (state (below_it ++ node v ∷ []) l)))
        → Pushes base m (reduce_by num f (state (below_it ++ es) l) next)
    reduce_by-Pushes below_it es l num f next count h =
        subst (λ k. Pushes base m (reduce_by k f (state (below_it ++ es) l) next)) (sym count)
          (reduce_all-Pushes below_it es l f next h)

    pub finish_with-Pushes :
        (es : Stack T N) (ts l : Tokens T) (num : ℕ) (f : Stack T N → Option (ParsedJson N))
        → num ≡ length es
        → length ts + length l < m
        → Pushes base m (finish_with f num ts (state (base ++ es) l))
    unfolding finish_with
    finish_with-Pushes es ts l num f count lt =
        reduce_by-Pushes base es l num f (λ q. parsed ts q) count (λ v. (v, refl, lt))

    pub accept_as-Pushes :
        (v : ParsedJson N) (t : TokenMatch T) (ts l : Tokens T)
        → length ts + length l < m
        → Pushes base m (accept_as v ts (state base (t ∷ l)))
    unfolding accept_as accept accept_token
    accept_as-Pushes v t ts l lt =
        reduce_all-Pushes base (token t ∷ []) l (λ es. some v) (λ q. parsed ts q)
          (λ w. (w, refl, lt))

    -- What follows a value that `st` and fewer than `k` tokens are left below.
    pub and_then_parse-Pushes :
        (st : Stack T N) (k : ℕ) (r : Parsed T N) (next : Tokens T → JsonParser T N → Parsed T N)
        → Pushes st k r
        → ((v : ParsedJson N) (us ls : Tokens T)
            → length us + length ls < k
            → Pushes base m (next us (state (st ++ node v ∷ []) ls)))
        → Pushes base m (and_then_parse r next)
    and_then_parse-Pushes st k (parsed ts p) next (v, is, lt) h =
        subst (λ s. Pushes base m (next ts (state s p.lookahead))) (sym is) (h v ts p.lookahead lt)
    and_then_parse-Pushes st k (failed e) next r h = r
    and_then_parse-Pushes st k panics next r h = tt
    and_then_parse-Pushes st k out_of_fuel next r h = absurd r

    -- A step that takes one token.
    abbrev pub Takes :
        Stack T N → Tokens T → Tokens T → (Tokens T → JsonParser T N → Parsed T N) → Type 0
    Takes st ts l next =
        (t : TokenMatch T) (us ls : Tokens T)
        → length us + suc (length ls) ≡ length ts + length l
        → Pushes base m (next us (state (st ++ token t ∷ []) ls))

    module _ (into : T → Option JsonToken) where
      pub after_value-Pushes :
          (w : JsonInputType) (close : ℕ) (ts : Tokens T) (st : Stack T N) (l : Tokens T)
          (more done : Tokens T → JsonParser T N → Parsed T N)
          → Takes st ts l more
          → Takes st ts l done
          → Pushes base m (after_value into w close ts (state st l) more done)
      unfolding after_value accept accept_token
      after_value-Pushes w close ts st l more done hm hd =
          peek-Pushes w ts st l _
            (λ t us ls size. on_separator (separator_of into close t) t us ls size)
        where
          on_separator :
              (s : Separator) (t : TokenMatch T) (us ls : Tokens T)
              → length us + suc (length ls) ≡ length ts + length l
              → Pushes base m (elim s [
                | is_comma ↦ more us (state (st ++ token t ∷ []) ls)
                | is_close ↦ done us (state (st ++ token t ∷ []) ls)
                | is_other ↦ failed (unexpected into t)
              ])
          on_separator is_comma t us ls size = hm t us ls size
          on_separator is_close t us ls size = hd t us ls size
          on_separator is_other t us ls size = unexpected-ne into t

      on_test :
          (c : ℕ) (t : TokenMatch T) (us ls : Tokens T) (st : Stack T N)
          (next : Tokens T → JsonParser T N → Parsed T N)
          → Pushes base m (next us (state (st ++ token t ∷ []) ls))
          → Pushes base m (expect_character into c (state st (t ∷ ls)) (next us))
      unfolding expect_character accept_expected_token
      on_test c t us ls st next h = on_bool (is_character into c t)
        where
          on_bool :
              (b : Bool)
              → Pushes base m
                  (elim (if b
                    then inl (state (st ++ token t ∷ []) ls)
                    else inr (Pipe.Parser.unexpected_token t)) [
                      | inl q ↦ next us q
                      | inr parser_lookahead_empty ↦ failed (expected_more_input lookahead_empty)
                      | inr (Pipe.Parser.unexpected_token u) ↦ failed (unexpected into u)
                    ])
          on_bool true = h
          on_bool false = unexpected-ne into t

      -- The look ahead and `accept_expected_token` of a colon.
      pub expect-Pushes :
          (c : ℕ) (ts : Tokens T) (st : Stack T N) (l : Tokens T)
          (next : Tokens T → JsonParser T N → Parsed T N)
          → Takes st ts l next
          → Pushes base m (
              expect_character into c
                (look_ahead 0 ts (state st l)).2
                (next (look_ahead 0 ts (state st l)).1))
      unfolding expect_character accept_expected_token look_ahead
      expect-Pushes c [] st [] next h = cc
      expect-Pushes c [] st (x ∷ l) next h = on_test c x [] l st next (h x [] l refl)
      expect-Pushes c (t ∷ []) st [] next h = on_test c t [] [] st next (h t [] [] refl)
      expect-Pushes c (t ∷ u ∷ ts) st [] next h =
          on_test c t (u ∷ ts) [] st next (h t (u ∷ ts) [] (omega arith))
      expect-Pushes c (t ∷ ts) st (x ∷ l) next h =
          subst (λ r. Pushes base m (expect_character into c r.2 (next r.1)))
            (sym (look_ahead-seen x (t ∷ ts) l st))
            (on_test c x (t ∷ ts) l st next (h x (t ∷ ts) l (omega arith)))
