-- ===== src/Pipe/Values/Halts.antt =====
-- pipe/src/parse_json.rs: `json_parse_value` ends, and puts one value on the stack.
use flo_scene.Common.{
  ℕ, zero, suc, ◌+◌, ◌<◌, ◌≤◌, Bool, true, false, List, [], ◌∷◌, ◌++◌, Option, none, some, ◌≡◌,
  refl, sym, ◌∙◌, subst, arith, length, length-append, append_assoc, ◌==◌, if◌then◌else◌,
}
use flo_scene.Pipe
use flo_scene.Pipe.Json.{
  JsonToken, keyword_true, keyword_false, keyword_null, character, whitespace,
}
use flo_scene.Pipe.Tokenizer.{TokenMatch}
use flo_scene.Pipe.Parser.{token, node, accept_token, look_ahead}
use flo_scene.Pipe.Values.{
  JsonInputType, array_values, start_of_array, start_of_object, object_values, start_of_value,
  after_array_value, after_object_value, serde_json_error, ParsedJson, null, bool, variable,
  SerdeValue, json_token,
}
use flo_scene.Pipe.Values.Steps.{
  Parsed, failed, accept, reduce_by, Tokens, Stack, JsonParser, array_of, object_of, is_character,
  is_string, accept_as, and_then_parse, finish_with,
}
use flo_scene.Pipe.Values.Parse.{
  array_loop, expect_character, key_of, object_loop, json_parse_array, json_parse_object,
  parse_scalar, json_parse_string, json_parse_number, parse_kind, json_parse_value, after_value,
}
use flo_scene.Pipe.Values.Pushes.{
  state, Pushes, unexpected-ne, branch-Pushes, peek-Pushes, reduce_by-Pushes, finish_with-Pushes,
  accept_as-Pushes, expect-Pushes, and_then_parse-Pushes, after_value-Pushes,
}

one_by_one :
    {A : Type 0} (xs : List A) (a b c : A)
    → ((xs ++ a ∷ []) ++ b ∷ []) ++ c ∷ [] ≡ xs ++ a ∷ b ∷ c ∷ []
one_by_one xs a b c =
    append_assoc (xs ++ a ∷ []) (b ∷ []) (c ∷ []) ∙ append_assoc xs (a ∷ []) (b ∷ c ∷ [])

module _ {T N : Type 0} (into : T → Option JsonToken) where
  -- `parse` does what it should where fewer than `k` tokens are left.
  abbrev pub Parses : (Tokens T → JsonParser T N → Parsed T N) → ℕ → Type 0
  Parses parse k =
      (ts : Tokens T) (st : Stack T N) (l : Tokens T)
      → length ts + length l < k
      → Pushes st (length ts + length l) (parse ts (state st l))

  module _ (parse : Tokens T → JsonParser T N → Parsed T N) (k m : ℕ) (base : Stack T N)
      (parses : Parses parse k) where
    abbrev LoopPushes : (ℕ → Tokens T → JsonParser T N → Parsed T N) → ℕ → Type 0
    LoopPushes loop fuel =
        (num : ℕ) (es : Stack T N) (ts l : Tokens T)
        → num ≡ length es
        → length ts + length l < fuel
        → length ts + length l < k
        → length ts + length l < m
        → Pushes base m (loop num ts (state (base ++ es) l))

    -- Entries that are put on the stack one after the other.
    on_stack :
        (es fs : Stack T N) (x : Tokens T → JsonParser T N → Parsed T N) (ts l : Tokens T)
        → Pushes base m (x ts (state (base ++ (es ++ fs)) l))
        → Pushes base m (x ts (state ((base ++ es) ++ fs) l))
    on_stack es fs x ts l h =
        subst (λ st. Pushes base m (x ts (state st l))) (sym (append_assoc base es fs)) h

    -- The entries `fs` of an item or of a field have been read.
    after_entries :
        (loop : ℕ → Tokens T → JsonParser T N → Parsed T N) (fuel : ℕ)
        → LoopPushes loop fuel
        → (w : JsonInputType) (close : ℕ) (f : Stack T N → Option (ParsedJson N)) (num : ℕ)
          (es fs : Stack T N) (ts l : Tokens T)
        → num ≡ suc (length es + length fs)
        → length ts + length l < suc fuel
        → length ts + length l < k
        → length ts + length l < m
        → Pushes base m (
            after_value into w close ts
              (state ((base ++ es) ++ fs) l)
              (λ us q. loop num us q)
              (λ us q. finish_with f num us q))
    after_entries loop fuel ih w close f num es fs ts l count lf lk lm =
        on_stack es fs
          (λ us q.
            after_value into w close us q (λ vs r. loop num vs r) (λ vs r. finish_with f num vs r))
          ts l
          (after_value-Pushes base m into w close ts (base ++ (es ++ fs)) l _ _
            (λ t us ls size.
              on_stack (es ++ fs) (token t ∷ []) (λ vs p. loop num vs p) us ls
                (ih num ((es ++ fs) ++ token t ∷ []) us ls (entries t) (omega arith) (omega arith)
                  (omega arith)))
            (λ t us ls size.
              on_stack (es ++ fs) (token t ∷ []) (λ vs p. finish_with f num vs p) us ls
                (finish_with-Pushes base m ((es ++ fs) ++ token t ∷ []) us ls num f (entries t)
                  (omega arith))))
      where
        entries : (t : TokenMatch T) → num ≡ length ((es ++ fs) ++ token t ∷ [])
        entries t =
            omega (arith, length-append (es ++ fs) (token t ∷ []), length-append es fs, count)

    -- The closing token, where there is no value.
    close_at_once :
        (f : Stack T N → Option (ParsedJson N)) (num : ℕ) (es : Stack T N) (t : TokenMatch T)
        (ts l : Tokens T)
        → num ≡ length es
        → length ts + length l < m
        → Pushes base m (finish_with f (num + 1) ts (state ((base ++ es) ++ token t ∷ []) l))
    close_at_once f num es t ts l count lm =
        on_stack es (token t ∷ []) (λ vs p. finish_with f (num + 1) vs p) ts l
          (finish_with-Pushes base m (es ++ token t ∷ []) ts l (num + 1) f
            (omega (arith, length-append es (token t ∷ []), count)) lm)

    array_loop-Pushes : (fuel : ℕ) → LoopPushes (λ num. array_loop into parse fuel num) fuel
    unfolding array_loop accept accept_token
    array_loop-Pushes zero num es ts l count f lk lm = absurd (omega arith)
    array_loop-Pushes (suc fuel) num es ts l count f lk lm =
        peek-Pushes base m array_values ts (base ++ es) l _ (λ t us ls size.
          branch-Pushes base m (is_character into 93 t) _ _
            (close_at_once array_of num es t us ls count (omega arith))
            (and_then_parse-Pushes base m (base ++ es) (length us + suc (length ls)) _ _
              (parses us (base ++ es) (t ∷ ls) (omega arith))
              (λ v vs rs lt.
                after_entries (λ n. array_loop into parse fuel n) fuel (array_loop-Pushes fuel)
                  after_array_value 93 array_of (num + 2) es (node v ∷ []) vs rs
                  (omega (arith, count)) (omega arith) (omega arith) (omega arith))))

    module _ (from_str : List ℕ → Option (SerdeValue N)) (zero_number : N) where
      read_field :
          (loop : ℕ → Tokens T → JsonParser T N → Parsed T N) (fuel : ℕ)
          → LoopPushes loop fuel
          → (num : ℕ) (es : Stack T N) (t : TokenMatch T) (us ls : Tokens T) → num ≡ length es
          → length us + length ls < fuel
          → length us + length ls < k
          → length us + length ls < m
          → Pushes base m (
              reduce_by 1
                (key_of into from_str zero_number)
                (state ((base ++ es) ++ token t ∷ []) ls)
                (λ s. expect_character into 58 (look_ahead 0 us s).2 (λ u.
                  and_then_parse (parse (look_ahead 0 us s).1 u) (λ ws v.
                    after_value into after_object_value 125 ws v
                      (λ xs w. loop (num + 4) xs w)
                      (λ xs w. finish_with object_of (num + 4) xs w)))))
      read_field loop fuel ih num es t us ls count lf lk lm =
          reduce_by-Pushes base m (base ++ es) (token t ∷ []) ls 1
            (key_of into from_str zero_number) _ refl
            (λ key.
              expect-Pushes base m into 58 us ((base ++ es) ++ node key ∷ []) ls
                (λ vs u. and_then_parse (parse vs u) (λ ws v.
                  after_value into after_object_value 125 ws v (λ xs w. loop (num + 4) xs w)
                    (λ xs w. finish_with object_of (num + 4) xs w)))
                (λ c vs rs size.
                  and_then_parse-Pushes base m (((base ++ es) ++ node key ∷ []) ++ token c ∷ [])
                    (length vs + length rs) _ _
                    (parses vs (((base ++ es) ++ node key ∷ []) ++ token c ∷ []) rs (omega arith))
                    (λ v ws xs lt.
                      subst
                        (λ st. Pushes base m (
                          after_value into after_object_value 125 ws (state st xs)
                            (λ ys w. loop (num + 4) ys w)
                            (λ ys w. finish_with object_of (num + 4) ys w)))
                        (sym (one_by_one (base ++ es) (node key) (token c) (node v)))
                        (after_entries loop fuel ih after_object_value 125 object_of (num + 4) es
                          (node key ∷ token c ∷ node v ∷ []) ws xs (omega (arith, count))
                          (omega arith) (omega arith) (omega arith)))))

      object_loop-Pushes :
          (fuel : ℕ) → LoopPushes (λ num. object_loop into from_str zero_number parse fuel num) fuel
      unfolding object_loop accept accept_token
      object_loop-Pushes zero num es ts l count f lk lm = absurd (omega arith)
      object_loop-Pushes (suc fuel) num es ts l count f lk lm =
          peek-Pushes base m object_values ts (base ++ es) l _ (λ t us ls size.
            branch-Pushes base m (is_character into 125 t) _ _
              (close_at_once object_of num es t us ls count (omega arith))
              (branch-Pushes base m (is_string into t) _ _
                (read_field (λ n. object_loop into from_str zero_number parse fuel n) fuel
                  (object_loop-Pushes fuel) num es t us ls count (omega arith) (omega arith)
                  (omega arith))
                (unexpected-ne into t)))

      json_parse_array-Pushes :
          (fuel : ℕ) (ts l : Tokens T)
          → length ts + length l ≤ fuel
          → length ts + length l ≤ k
          → length ts + length l ≤ m
          → Pushes base m (json_parse_array into from_str zero_number parse fuel ts (state base l))
      unfolding json_parse_array accept accept_token
      json_parse_array-Pushes fuel ts l lf lk lm =
          peek-Pushes base m start_of_array ts base l _ (λ t us ls size.
            branch-Pushes base m (is_character into 91 t) _ _
              (array_loop-Pushes fuel 1 (token t ∷ []) us ls refl (omega arith) (omega arith)
                (omega arith))
              (unexpected-ne into t))

      json_parse_object-Pushes :
          (fuel : ℕ) (ts l : Tokens T)
          → length ts + length l ≤ fuel
          → length ts + length l ≤ k
          → length ts + length l ≤ m
          → Pushes base m (json_parse_object into from_str zero_number parse fuel ts (state base l))
      unfolding json_parse_object accept accept_token
      json_parse_object-Pushes fuel ts l lf lk lm =
          peek-Pushes base m start_of_object ts base l _ (λ t us ls size.
            branch-Pushes base m (is_character into 123 t) _ _
              (object_loop-Pushes fuel 1 (token t ∷ []) us ls refl (omega arith) (omega arith)
                (omega arith))
              (unexpected-ne into t))

  module _ (from_str : List ℕ → Option (SerdeValue N)) (zero_number : N) where
    parse_scalar-Pushes :
        (w : JsonInputType) (is_kind : TokenMatch T → Bool) (of_value : SerdeValue N → ParsedJson N)
        (ts l : Tokens T) (base : Stack T N) (m : ℕ)
        → length ts + length l ≤ m
        → Pushes base m
            (parse_scalar into from_str zero_number w is_kind of_value ts (state base l))
    unfolding parse_scalar
    parse_scalar-Pushes w is_kind of_value ts l base m lm =
        peek-Pushes base m w ts base l _ (λ t us ls size.
          branch-Pushes base m (is_kind t) _ _ (of_text (from_str t.fragment) t us ls (omega arith))
            (unexpected-ne into t))
      where
        of_text :
            (o : Option (SerdeValue N)) (t : TokenMatch T) (us ls : Tokens T)
            → length us + length ls < m
            → Pushes base m (elim o [
              | none ↦ failed serde_json_error
              | some v ↦ accept_as (of_value v) us (state base (t ∷ ls))
            ])
        of_text none t us ls lt = cc
        of_text (some v) t us ls lt = accept_as-Pushes base m (of_value v) t us ls lt

    parse_kind-Pushes :
        (parse : Tokens T → JsonParser T N → Parsed T N) (fuel : ℕ) (k : Option (Option JsonToken))
        (t : TokenMatch T) (ts ls : Tokens T) (base : Stack T N) (m : ℕ)
        → Parses parse fuel
        → length ts + suc (length ls) ≤ fuel
        → length ts + suc (length ls) ≤ m
        → Pushes base m
            (parse_kind into from_str zero_number parse fuel k t ts (state base (t ∷ ls)))
    unfolding parse_kind json_parse_string json_parse_number
    parse_kind-Pushes parse fuel none t ts ls base m p lf lm = unexpected-ne into t
    parse_kind-Pushes parse fuel (some none) t ts ls base m p lf lm = unexpected-ne into t
    parse_kind-Pushes parse fuel (some (some whitespace)) t ts ls base m p lf lm =
        unexpected-ne into t
    parse_kind-Pushes parse fuel (some (some Pipe.Json.string)) t ts ls base m p lf lm =
        parse_scalar-Pushes _ _ _ ts (t ∷ ls) base m lm
    parse_kind-Pushes parse fuel (some (some Pipe.Json.number)) t ts ls base m p lf lm =
        parse_scalar-Pushes _ _ _ ts (t ∷ ls) base m lm
    parse_kind-Pushes parse fuel (some (some keyword_true)) t ts ls base m p lf lm =
        accept_as-Pushes base m (bool true) t ts ls (omega arith)
    parse_kind-Pushes parse fuel (some (some keyword_false)) t ts ls base m p lf lm =
        accept_as-Pushes base m (bool false) t ts ls (omega arith)
    parse_kind-Pushes parse fuel (some (some keyword_null)) t ts ls base m p lf lm =
        accept_as-Pushes base m null t ts ls (omega arith)
    parse_kind-Pushes parse fuel (some (some Pipe.Json.variable)) t ts ls base m p lf lm =
        accept_as-Pushes base m (variable t.fragment) t ts ls (omega arith)
    parse_kind-Pushes parse fuel (some (some (character c))) t ts ls base m p lf lm =
        if-Pushes (c == 123) _ _
          (json_parse_object-Pushes parse fuel m base p from_str zero_number fuel ts (t ∷ ls) lf lf
            lm)
          (if-Pushes (c == 91) _ _
            (json_parse_array-Pushes parse fuel m base p from_str zero_number fuel ts (t ∷ ls) lf lf
              lm)
            (unexpected-ne into t))
      where
        if-Pushes :
            (b : Bool) (x y : Parsed T N)
            → Pushes base m x
            → Pushes base m y
            → Pushes base m (if b then x else y)
        if-Pushes true x y hx hy = hx
        if-Pushes false x y hx hy = hy

    parses : (fuel : ℕ) → Parses (json_parse_value into from_str zero_number fuel) fuel
    unfolding json_parse_value
    parses zero ts st l lt = absurd (omega arith)
    parses (suc fuel) ts st l lt =
        peek-Pushes st (length ts + length l) start_of_value ts st l _ (λ t us ls size.
          parse_kind-Pushes (json_parse_value into from_str zero_number fuel) fuel
            (json_token into t) t us ls st (length ts + length l) (parses fuel) (omega arith)
            (omega arith))

    -- With more fuel than there are tokens, in the lookahead and after it, `json_parse_value` does not
    -- run out of it. When it succeeds, the stack is what it was with one value on top, and fewer tokens
    -- are left. Its error is never that of a stack that is too small. It may panic, as for a key that
    -- `serde_json` refuses.
    pub json_parse_value-Pushes :
        (fuel : ℕ) (ts : Tokens T) (p : JsonParser T N)
        → length ts + length p.lookahead < fuel
        → Pushes p.stack
            (length ts + length p.lookahead)
            (json_parse_value into from_str zero_number fuel ts p)
    json_parse_value-Pushes fuel ts p enough = parses fuel ts p.stack p.lookahead enough
