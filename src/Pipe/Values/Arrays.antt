-- ===== src/Pipe/Values/Arrays.antt =====
-- pipe/src/parse_json.rs: the loop of `json_parse_array`, one item at a time.
use flo_scene.Common.{
  ℕ, suc, ◌+◌, true, false, List, [], ◌∷◌, ◌++◌, some, ◌≡◌, refl, sym, ◌∙◌, ap, length, drop,
  append_assoc,
}
use flo_scene.Pipe.Json.{JsonToken, character}
use flo_scene.Pipe.Tokenizer.{TokenMatch}
use flo_scene.Pipe.Parser.{ParserStackEntry, token, node}
use flo_scene.Pipe.Values.{
  start_of_array, array_values, after_array_value, ParsedJson, null, bool, number, string, array,
  object, variable, JsonItems, no_items, item, no_fields, field,
}
use flo_scene.Pipe.Values.Steps.{
  Parsed, parsed, Tokens, Stack, JsonParser, finish_with, as_array, items_of, array_of,
  is_character,
}
use flo_scene.Pipe.Values.Parse.{after_value, array_loop, json_parse_array, parse_kind}
use flo_scene.Pipe.Values.Print.{Serde, Symbols, match_of, sign, tokens_of}
use flo_scene.Pipe.Values.Stacks.{with_stack, peek-new, peek_again, accept-seen}
use flo_scene.Pipe.Values.Reads.{
  finishes, parse, printed, Reads, parse_again, starts_with_token, has_code, is_character-match,
  after_value-close, after_value-comma,
}

module _ {T N : Type 0} where
  -- The stack entries `es` of an array, up to a value: with what follows and the items `ys`, they are
  -- the items `g ys`.
  abbrev pub ItemsSo : Stack T N → (JsonItems N → JsonItems N) → Type 0
  ItemsSo es g =
      (e : ParserStackEntry (TokenMatch T) (ParsedJson N)) (fs : Stack T N) (ys : JsonItems N)
      → items_of fs ≡ some ys
      → items_of (drop 1 (es ++ e ∷ fs)) ≡ some (g ys)

  pub first_item : (t : TokenMatch T) (v : ParsedJson N) → ItemsSo (token t ∷ node v ∷ []) (item v)
  unfolding items_of
  first_item t v e fs ys is = rw is refl

  pub next_item :
      (es : Stack T N) (g : JsonItems N → JsonItems N)
      (t : ParserStackEntry (TokenMatch T) (ParsedJson N)) (v : ParsedJson N)
      → ItemsSo es g
      → ItemsSo (es ++ t ∷ node v ∷ []) (λ ys. g (item v ys))
  unfolding items_of
  next_item es g t v so e fs ys is =
      ap (λ zs. items_of (drop 1 zs)) (append_assoc es (t ∷ node v ∷ []) (e ∷ fs))
      ∙ so t (node v ∷ e ∷ fs) (item v ys) (rw is refl)

module _ {T N : Type 0} (sy : Symbols T) (r : Serde N) where
  record StartsValue (ts : Tokens T) : Type 0 where
    first : TokenMatch T
    others : Tokens T
    starts : ts ≡ first ∷ others
    no_end : is_character sy.into 93 first ≡ false

  starts :
      (k : JsonToken) (text : List ℕ) (ts : Tokens T)
      → has_code sy 93 k ≡ false
      → StartsValue (match_of sy k text ∷ ts)
  starts k text ts no_end = record {
    first = match_of sy k text;
    others = ts;
    starts = refl;
    no_end = is_character-match sy 93 k text ∙ no_end;
  }

  printed-StartsValue : (v : ParsedJson N) → StartsValue (printed sy r v)
  unfolding tokens_of
  printed-StartsValue null = starts _ _ _ refl
  printed-StartsValue (bool true) = starts _ _ _ refl
  printed-StartsValue (bool false) = starts _ _ _ refl
  printed-StartsValue (number n) = starts _ _ _ refl
  printed-StartsValue (string s) = starts _ _ _ refl
  printed-StartsValue (array no_items) = starts _ _ _ refl
  printed-StartsValue (array (item v vs)) = starts _ _ _ refl
  printed-StartsValue (object no_fields) = starts _ _ _ refl
  printed-StartsValue (object (field k v fs)) = starts _ _ _ refl
  printed-StartsValue (variable s) = starts _ _ _ refl

  -- What comes after an item, in the loop of `json_parse_array`.
  abbrev pub after_item : ℕ → ℕ → ℕ → Tokens T → JsonParser T N → Parsed T N
  after_item n m num ts p =
      after_value sy.into after_array_value 93 ts p
        (λ us q. array_loop sy.into (parse sy r n) m num us q)
        (λ us q. finish_with array_of num us q)

  loop_seen :
      (n m num : ℕ) (t : TokenMatch T) (us ts : Tokens T) (st : Stack T N) (v : ParsedJson N)
      → is_character sy.into 93 t ≡ false
      → parse sy r n (t ∷ us) (with_stack st) ≡ parsed ts (with_stack (st ++ node v ∷ []))
      → array_loop sy.into (parse sy r n) (suc m) num (t ∷ us) (with_stack st)
        ≡ after_item n m (num + 2) ts (with_stack (st ++ node v ∷ []))
  unfolding array_loop
  loop_seen n m num t us ts st v no_end reads =
      peek-new array_values t us st _ ∙ rw (no_end, parse_again sy r n t us st, reads) refl

  pub loop_item :
      (n m num : ℕ) (v : ParsedJson N) (ts : Tokens T) (st : Stack T N)
      → Reads sy r n v
      → array_loop sy.into (parse sy r n) (suc m) num (printed sy r v ++ ts) (with_stack st)
        ≡ after_item n m (num + 2) ts (with_stack (st ++ node v ∷ []))
  loop_item n m num v ts st reads =
      let s = printed-StartsValue v in
      let eq = ap (λ us. us ++ ts) s.starts in
      ap (λ us. array_loop sy.into (parse sy r n) (suc m) num us (with_stack st)) eq
      ∙ loop_seen n m num s.first (s.others ++ ts) ts st v s.no_end
          (sym (ap (λ us. parse sy r n us (with_stack st)) eq) ∙ reads ts st)

  pub close_array :
      (n m num : ℕ) (ts : Tokens T) (base es : Stack T N) (g : JsonItems N → JsonItems N)
      → num ≡ suc (length es)
      → ItemsSo es g
      → after_item n m num (sign sy 93 ∷ ts) (with_stack (base ++ es))
        ≡ parsed ts (with_stack (base ++ node (array (g no_items)) ∷ []))
  unfolding after_value array_of items_of
  close_array n m num ts base es g count so =
      after_value-close sy.into after_array_value 93 (sign sy 93) ts (base ++ es) _ _
        (is_character-match sy 44 (character 93) (93 ∷ []))
        (is_character-match sy 93 (character 93) (93 ∷ []))
      ∙ finishes array_of num (sign sy 93) ts base es (array (g no_items)) count
          (ap as_array (so (token (sign sy 93)) [] no_items refl))

  more_items :
      (n m num : ℕ) (us : Tokens T) (st : Stack T N)
      → after_item n m num (sign sy 44 ∷ us) (with_stack st)
        ≡ array_loop sy.into (parse sy r n) m num us (with_stack (st ++ token (sign sy 44) ∷ []))
  more_items n m num us st =
      after_value-comma sy.into after_array_value 93 (sign sy 44) us st _ _
        (is_character-match sy 44 (character 44) (44 ∷ []))

  pub rest_step :
      (n m num : ℕ) (v : ParsedJson N) (us ts : Tokens T) (base es : Stack T N)
      → Reads sy r n v
      → us ≡ printed sy r v ++ ts
      → after_item n (suc m) num (sign sy 44 ∷ us) (with_stack (base ++ es))
        ≡ after_item n m
            (num + 2)
            ts
            (with_stack (base ++ (es ++ token (sign sy 44) ∷ node v ∷ [])))
  rest_step n m num v us ts base es reads is =
      more_items n (suc m) num us (base ++ es)
      ∙ (ap
            (λ zs.
              array_loop sy.into (parse sy r n) (suc m) num zs
                (with_stack ((base ++ es) ++ token (sign sy 44) ∷ [])))
            is
          ∙ (loop_item n m num v ts ((base ++ es) ++ token (sign sy 44) ∷ []) reads
              ∙ ap (λ st. after_item n m (num + 2) ts (with_stack st))
                  (append_assoc (base ++ es) (token (sign sy 44) ∷ []) (node v ∷ [])
                    ∙ append_assoc base es (token (sign sy 44) ∷ node v ∷ []))))

  pub array_starts :
      (n : ℕ) (us : Tokens T) (st : Stack T N)
      → parse sy r (suc n) (sign sy 91 ∷ us) (with_stack st)
        ≡ array_loop sy.into (parse sy r n) n 1 us (with_stack (st ++ token (sign sy 91) ∷ []))
  unfolding parse_kind json_parse_array
  array_starts n us st =
      starts_with_token sy r n (character 91) (91 ∷ []) us st
      ∙ (peek_again start_of_array (sign sy 91) us st _
          ∙ rw (is_character-match sy 91 (character 91) (91 ∷ []))
              (accept-seen (sign sy 91) st (λ q. array_loop sy.into (parse sy r n) n 1 us q)))

  pub empty_array : (n : ℕ) → Reads sy r (suc (suc n)) (array no_items)
  unfolding tokens_of array_loop array_of items_of
  empty_array n ts st =
      array_starts (suc n) (sign sy 93 ∷ ts) st
      ∙ (peek-new array_values (sign sy 93) ts (st ++ token (sign sy 91) ∷ []) _
          ∙ rw (is_character-match sy 93 (character 93) (93 ∷ [])) (
              accept-seen (sign sy 93) (st ++ token (sign sy 91) ∷ [])
                (λ q. finish_with array_of 2 ts q)
              ∙ finishes array_of 2 (sign sy 93) ts st (token (sign sy 91) ∷ []) (array no_items)
                  refl refl))
