-- ===== src/Pipe/Values/Reads.antt =====
-- pipe/src/parse_json.rs: what it is for the parser to read a value, and the values of one token.
use flo_scene.Common.{
  ℕ, zero, suc, Bool, true, false, List, [], ◌==◌, ◌∷◌, ◌++◌, Option, some, ◌≡◌, refl, sym, ◌∙◌, ap,
  arith, length, length-append, append_assoc,
}
use flo_scene.Pipe
use flo_scene.Pipe.Json.{JsonToken, character}
use flo_scene.Pipe.Tokenizer.{TokenMatch}
use flo_scene.Pipe.Parser.{token, node}
use flo_scene.Pipe.Values.{JsonInputType, start_of_value, ParsedJson, SerdeValue, json_token}
use flo_scene.Pipe.Values.Steps.{
  Parsed, parsed, Tokens, Stack, JsonParser, is_character, is_string, is_number, finish_with,
}
use flo_scene.Pipe.Values.Parse.{after_value, json_parse_value, parse_scalar, parse_kind}
use flo_scene.Pipe.Values.Print.{Serde, Symbols, match_of, tokens_of}
use flo_scene.Pipe.Values.Stacks.{
  with_stack, having_seen, peek-new, peek_again, accept-seen, reduce_by-top, accept_as-seen,
}

module _ {T N : Type 0} where
  -- The end of an array or of an object: the entries `es` and the closing token are reduced.
  pub finishes :
      (f : Stack T N → Option (ParsedJson N)) (num : ℕ) (t : TokenMatch T) (ts : Tokens T)
      (base es : Stack T N) (v : ParsedJson N)
      → num ≡ suc (length es)
      → f (es ++ token t ∷ []) ≡ some v
      → finish_with f num ts (with_stack ((base ++ es) ++ token t ∷ []))
        ≡ parsed ts (with_stack (base ++ node v ∷ []))
  unfolding finish_with
  finishes f num t ts base es v count is =
      ap (λ st. finish_with f num ts (with_stack st)) (append_assoc base es (token t ∷ []))
      ∙ (ap (λ k. finish_with f k ts (with_stack (base ++ (es ++ token t ∷ []))))
            (omega (arith, count, length-append es (token t ∷ [])))
          ∙ reduce_by-top base (es ++ token t ∷ []) f v (λ q0. parsed ts q0) is)

-- What the parser sees of a token that stands for one of JSON.
module _ {T : Type 0} (sy : Symbols T) where
  abbrev pub has_code : ℕ → JsonToken → Bool
  has_code c k = elim k [ character d ↦ d == c | _ ↦ false ]

  pub is_character-match :
      (c : ℕ) (k : JsonToken) (text : List ℕ)
      → is_character sy.into c (match_of sy k text) ≡ has_code c k
  is_character-match c k text = rw (sy.embedded k) refl

  pub is_string-match :
      (text : List ℕ) → is_string sy.into (match_of sy Pipe.Json.string text) ≡ true
  is_string-match text = rw (sy.embedded Pipe.Json.string) refl

  pub is_number-match :
      (text : List ℕ) → is_number sy.into (match_of sy Pipe.Json.number text) ≡ true
  is_number-match text = rw (sy.embedded Pipe.Json.number) refl

module _ {T N : Type 0} (into : T → Option JsonToken) (w : JsonInputType) (close : ℕ)
    (t : TokenMatch T) (us : Tokens T) (st : Stack T N)
    (more done : Tokens T → JsonParser T N → Parsed T N) where
  pub after_value-comma :
      is_character into 44 t ≡ true
      → after_value into w close (t ∷ us) (with_stack st) more done
        ≡ more us (with_stack (st ++ token t ∷ []))
  unfolding after_value
  after_value-comma comma = peek-new w t us st _ ∙ rw comma (accept-seen t st (more us))

  pub after_value-close :
      is_character into 44 t ≡ false
      → is_character into close t ≡ true
      → after_value into w close (t ∷ us) (with_stack st) more done
        ≡ done us (with_stack (st ++ token t ∷ []))
  unfolding after_value
  after_value-close no_comma closes =
      peek-new w t us st _ ∙ rw (no_comma, closes) (accept-seen t st (done us))

module _ {T N : Type 0} (sy : Symbols T) (r : Serde N) where
  abbrev pub parse : ℕ → Tokens T → JsonParser T N → Parsed T N
  parse n = json_parse_value sy.into r.from_str r.zero_number n

  abbrev pub printed : ParsedJson N → Tokens T
  printed v = tokens_of sy r v

  abbrev pub Reads : ℕ → ParsedJson N → Type 0
  Reads n v =
      (ts : Tokens T) (st : Stack T N)
      → parse n (printed v ++ ts) (with_stack st) ≡ parsed ts (with_stack (st ++ node v ∷ []))

  -- A value whose first token has been seen is read as one whose first token has not.
  pub parse_again :
      (n : ℕ) (t : TokenMatch T) (ts : Tokens T) (st : Stack T N)
      → parse n ts (having_seen st t) ≡ parse n (t ∷ ts) (with_stack st)
  unfolding json_parse_value
  parse_again zero t ts st = refl
  parse_again (suc n) t ts st =
      peek_again start_of_value t ts st _ ∙ sym (peek-new start_of_value t ts st _)

  -- The starts of the three kinds of value.
  pub starts_with :
      (n : ℕ) (t : TokenMatch T) (us : Tokens T) (st : Stack T N)
      → parse (suc n) (t ∷ us) (with_stack st)
        ≡ parse_kind sy.into r.from_str r.zero_number
            (parse n)
            n
            (json_token sy.into t)
            t
            us
            (having_seen st t)
  unfolding json_parse_value
  starts_with n t us st = peek-new start_of_value t us st _

  pub starts_with_token :
      (n : ℕ) (k : JsonToken) (text : List ℕ) (us : Tokens T) (st : Stack T N)
      → parse (suc n) (match_of sy k text ∷ us) (with_stack st)
        ≡ parse_kind sy.into r.from_str r.zero_number
            (parse n)
            n
            (some (some k))
            (match_of sy k text)
            us
            (having_seen st (match_of sy k text))
  starts_with_token n k text us st =
      starts_with n (match_of sy k text) us st
      ∙ ap
          (λ o.
            parse_kind sy.into r.from_str r.zero_number (parse n) n o (match_of sy k text) us
              (having_seen st (match_of sy k text)))
          (ap (λ o. some o) (sy.embedded k))

  pub scalar_reads :
      (w : JsonInputType) (is_kind : TokenMatch T → Bool) (of_value : SerdeValue N → ParsedJson N)
      (t : TokenMatch T) (sv : SerdeValue N) (ts : Tokens T) (st : Stack T N)
      → is_kind t ≡ true
      → r.from_str t.fragment ≡ some sv
      → parse_scalar sy.into r.from_str r.zero_number w is_kind of_value ts (having_seen st t)
        ≡ parsed ts (with_stack (st ++ node (of_value sv) ∷ []))
  unfolding parse_scalar
  scalar_reads w is_kind of_value t sv ts st kind is =
      peek_again w t ts st _ ∙ rw (kind, is) (accept_as-seen (of_value sv) ts st t)
