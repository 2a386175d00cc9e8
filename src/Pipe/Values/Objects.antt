-- ===== src/Pipe/Values/Objects.antt =====
-- pipe/src/parse_json.rs: the loop of `json_parse_object`, one field at a time.
use flo_scene.Common.{
  ℕ, suc, ◌+◌, List, [], ◌∷◌, ◌++◌, Option, some, ◌≡◌, refl, ◌∙◌, ap, length, drop, append_assoc,
}
use flo_scene.Pipe
use flo_scene.Pipe.Json.{character}
use flo_scene.Pipe.Tokenizer.{TokenMatch}
use flo_scene.Pipe.Parser.{ParserStackEntry, token, node, accept_expected_token}
use flo_scene.Pipe.Values.{
  start_of_object, object_values, after_object_value, ParsedJson, string, object, JsonFields,
  no_fields, field,
}
use flo_scene.Pipe.Values.Steps.{
  Parsed, parsed, Tokens, Stack, JsonParser, finish_with, as_object, field_of, fields_of, object_of,
  and_then_parse,
}
use flo_scene.Pipe.Values.Parse.{
  after_value, object_loop, json_parse_object, parse_kind, key_of, expect_character,
}
use flo_scene.Pipe.Values.Print.{Serde, Symbols, sign, key_match, tokens_of}
use flo_scene.Pipe.Values.Stacks.{
  with_stack, having_seen, look_ahead-new, peek-new, peek_again, accept-seen, reduce_by-top,
}
use flo_scene.Pipe.Values.Reads.{
  finishes, parse, printed, Reads, starts_with_token, is_character-match, is_string-match,
  after_value-close, after_value-comma,
}

module _ {T N : Type 0} where
  -- The same as `ItemsSo`, of the entries of an object.
  abbrev pub FieldsSo : Stack T N → (JsonFields N → JsonFields N) → Type 0
  FieldsSo es g =
      (e : ParserStackEntry (TokenMatch T) (ParsedJson N)) (fs : Stack T N) (ys : JsonFields N)
      → fields_of fs ≡ some ys
      → fields_of (drop 1 (es ++ e ∷ fs)) ≡ some (g ys)

module _ {T N : Type 0} (sy : Symbols T) where
  abbrev pub field_entries : List ℕ → ParsedJson N → Stack T N
  field_entries k v = node (string k) ∷ token (sign sy 58) ∷ node v ∷ []

  pub first_field :
      (t : TokenMatch T) (k : List ℕ) (v : ParsedJson N)
      → FieldsSo (token t ∷ field_entries k v) (field k v)
  unfolding fields_of
  first_field t k v e fs ys is = ap (λ q0. field_of (some (string k)) (some v) q0) is

  pub next_field :
      (es : Stack T N) (g : JsonFields N → JsonFields N)
      (t : ParserStackEntry (TokenMatch T) (ParsedJson N)) (k : List ℕ) (v : ParsedJson N)
      → FieldsSo es g
      → FieldsSo (es ++ t ∷ field_entries k v) (λ ys. g (field k v ys))
  unfolding fields_of
  next_field es g t k v so e fs ys is =
      ap (λ zs. fields_of (drop 1 zs)) (append_assoc es (t ∷ field_entries k v) (e ∷ fs))
      ∙ so t (field_entries k v ++ e ∷ fs) (field k v ys)
          (ap (λ q0. field_of (some (string k)) (some v) q0) is)

module _ {T N : Type 0} (sy : Symbols T) (r : Serde N) where
  -- What comes after a field, in the loop of `json_parse_object`.
  abbrev field_loop : ℕ → ℕ → ℕ → Tokens T → JsonParser T N → Parsed T N
  field_loop n m num ts p = object_loop sy.into r.from_str r.zero_number (parse sy r n) m num ts p

  abbrev pub after_field : ℕ → ℕ → ℕ → Tokens T → JsonParser T N → Parsed T N
  after_field n m num ts p =
      after_value sy.into after_object_value 125 ts p (λ us q. field_loop n m num us q)
        (λ us q. finish_with object_of num us q)

  key-reads :
      (k : List ℕ)
      → key_of sy.into r.from_str r.zero_number (token (key_match sy r k) ∷ []) ≡ some (string k)
  unfolding key_of
  key-reads k = rw (r.quoted k, key_of) refl

  abbrev colon_then : ℕ → ℕ → ℕ → Option (TokenMatch T) × Tokens T × JsonParser T N → Parsed T N
  colon_then n m num q0 =
      expect_character sy.into 58 q0.2
        (λ u. and_then_parse (parse sy r n q0.1 u) (λ ws v. after_field n m (num + 4) ws v))

  after_colon :
      (n m num : ℕ) (v : ParsedJson N) (us ts : Tokens T) (st : Stack T N)
      → Reads sy r n v
      → us ≡ printed sy r v ++ ts
      → colon_then n m num (some (sign sy 58), us, having_seen st (sign sy 58))
        ≡ after_field n m (num + 4) ts (with_stack ((st ++ token (sign sy 58) ∷ []) ++ node v ∷ []))
  unfolding expect_character accept_expected_token
  after_colon n m num v us ts st reads is = rw (is_character-match sy 58 (character 58) (58 ∷ [])) (
      ap (λ q0. and_then_parse q0 (λ ws q. after_field n m (num + 4) ws q))
        (ap (λ zs. parse sy r n zs (with_stack (st ++ token (sign sy 58) ∷ []))) is
          ∙ reads ts (st ++ token (sign sy 58) ∷ [])))

  pub loop_field :
      (n m num : ℕ) (k : List ℕ) (v : ParsedJson N) (us ts : Tokens T) (st : Stack T N)
      → Reads sy r n v
      → us ≡ printed sy r v ++ ts
      → field_loop n (suc m) num (key_match sy r k ∷ sign sy 58 ∷ us) (with_stack st)
        ≡ after_field n m
            (num + 4)
            ts
            (with_stack (st ++ node (string k) ∷ token (sign sy 58) ∷ node v ∷ []))
  unfolding object_loop
  loop_field n m num k v us ts st reads is =
      peek-new object_values (key_match sy r k) (sign sy 58 ∷ us) st _
      ∙ rw (is_character-match sy 125 Pipe.Json.string (r.quote k), is_string-match sy (r.quote k))
          (accept-seen (key_match sy r k) st _
            ∙ (reduce_by-top st (token (key_match sy r k) ∷ [])
                  (key_of sy.into r.from_str r.zero_number) (string k) _ (key-reads k)
                ∙ (ap (λ q0. colon_then n m num q0)
                      (look_ahead-new (sign sy 58) us (st ++ node (string k) ∷ []))
                    ∙ (after_colon n m num v us ts (st ++ node (string k) ∷ []) reads is
                        ∙ ap (λ zs. after_field n m (num + 4) ts (with_stack zs))
                            (append_assoc (st ++ node (string k) ∷ []) (token (sign sy 58) ∷ [])
                                (node v ∷ [])
                              ∙ append_assoc st (node (string k) ∷ [])
                                  (token (sign sy 58) ∷ node v ∷ []))))))

  pub close_object :
      (n m num : ℕ) (ts : Tokens T) (base es : Stack T N) (g : JsonFields N → JsonFields N)
      → num ≡ suc (length es)
      → FieldsSo es g
      → after_field n m num (sign sy 125 ∷ ts) (with_stack (base ++ es))
        ≡ parsed ts (with_stack (base ++ node (object (g no_fields)) ∷ []))
  unfolding after_value object_of fields_of
  close_object n m num ts base es g count so =
      after_value-close sy.into after_object_value 125 (sign sy 125) ts (base ++ es) _ _
        (is_character-match sy 44 (character 125) (125 ∷ []))
        (is_character-match sy 125 (character 125) (125 ∷ []))
      ∙ finishes object_of num (sign sy 125) ts base es (object (g no_fields)) count
          (ap as_object (so (token (sign sy 125)) [] no_fields refl))

  pub fields_step :
      (n m num : ℕ) (k : List ℕ) (v : ParsedJson N) (us ts : Tokens T) (base es : Stack T N)
      → Reads sy r n v
      → us ≡ printed sy r v ++ ts
      → after_field n
          (suc m)
          num
          (sign sy 44 ∷ key_match sy r k ∷ sign sy 58 ∷ us)
          (with_stack (base ++ es))
        ≡ after_field n m
            (num + 4)
            ts
            (with_stack (base ++ (es ++ token (sign sy 44) ∷ field_entries sy k v)))
  unfolding after_value
  fields_step n m num k v us ts base es reads is =
      after_value-comma sy.into after_object_value 125 (sign sy 44)
        (key_match sy r k ∷ sign sy 58 ∷ us) (base ++ es) _ _
        (is_character-match sy 44 (character 44) (44 ∷ []))
      ∙ ((loop_field n m num k v us ts ((base ++ es) ++ token (sign sy 44) ∷ []) reads is
          ∙ ap (λ st. after_field n m (num + 4) ts (with_stack st))
              (append_assoc (base ++ es) (token (sign sy 44) ∷ []) (field_entries sy k v)
                ∙ append_assoc base es (token (sign sy 44) ∷ field_entries sy k v))))

  pub object_starts :
      (n : ℕ) (us : Tokens T) (st : Stack T N)
      → parse sy r (suc n) (sign sy 123 ∷ us) (with_stack st)
        ≡ field_loop n n 1 us (with_stack (st ++ token (sign sy 123) ∷ []))
  unfolding parse_kind json_parse_object
  object_starts n us st =
      starts_with_token sy r n (character 123) (123 ∷ []) us st
      ∙ (peek_again start_of_object (sign sy 123) us st _
          ∙ rw (is_character-match sy 123 (character 123) (123 ∷ []))
              (accept-seen (sign sy 123) st (λ q. field_loop n n 1 us q)))

  pub empty_object : (n : ℕ) → Reads sy r (suc (suc n)) (object no_fields)
  unfolding tokens_of object_loop object_of fields_of
  empty_object n ts st =
      object_starts (suc n) (sign sy 125 ∷ ts) st
      ∙ (peek-new object_values (sign sy 125) ts (st ++ token (sign sy 123) ∷ []) _
          ∙ rw (is_character-match sy 125 (character 125) (125 ∷ [])) (
              accept-seen (sign sy 125) (st ++ token (sign sy 123) ∷ [])
                (λ q. finish_with object_of 2 ts q)
              ∙ finishes object_of 2 (sign sy 125) ts st (token (sign sy 123) ∷ [])
                  (object no_fields) refl refl))
