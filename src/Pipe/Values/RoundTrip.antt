-- ===== src/Pipe/Values/RoundTrip.antt =====
-- pipe/src/parse_json.rs: the parser reads back the tokens of a value.
use flo_scene.Common.{
  ℕ, zero, suc, ◌+◌, ◌≤◌, true, false, [], ◌∷◌, ◌++◌, ◌≡◌, refl, ◌∙◌, ap, arith, length,
  length-append, append_assoc,
}
use flo_scene.Pipe.Parser.{token, node}
use flo_scene.Pipe.Values.{
  ParsedJson, null, bool, number, string, array, object, variable, JsonItems, no_items, item,
  JsonFields, no_fields, field, serde_string, serde_number,
}
use flo_scene.Pipe.Values.Steps.{parsed, Tokens, Stack}
use flo_scene.Pipe.Values.Parse.{
  array_loop, json_parse_value, json_parse_string, json_parse_number, parse_kind,
}
use flo_scene.Pipe.Values.Print.{
  Serde, Symbols, sign, tokens_of, rest_of, fields_after, fuel_of, items_fuel, fields_fuel,
}
use flo_scene.Pipe.Values.Stacks.{with_stack, accept_as-seen}
use flo_scene.Pipe.Values.Reads.{
  parse, printed, Reads, starts_with_token, scalar_reads, is_number-match, is_string-match,
}
use flo_scene.Pipe.Values.Arrays.{
  ItemsSo, first_item, next_item, after_item, loop_item, close_array, rest_step, array_starts,
  empty_array,
}
use flo_scene.Pipe.Values.Objects.{
  field_entries, FieldsSo, first_field, next_field, after_field, loop_field, close_object,
  fields_step, object_starts, empty_object,
}

module _ {T N : Type 0} (sy : Symbols T) (r : Serde N) where
  mutual
    unfolding fuel_of tokens_of parse_kind json_parse_string json_parse_number

    value-Reads : (v : ParsedJson N) (n : ℕ) → fuel_of r v ≤ n → Reads sy r n v
    value-Reads null zero le = absurd (omega arith)
    value-Reads null (suc n) le =
        λ ts st. starts_with_token sy r n _ _ ts st ∙ accept_as-seen null ts st _
    value-Reads (bool true) zero le = absurd (omega arith)
    value-Reads (bool true) (suc n) le =
        λ ts st. starts_with_token sy r n _ _ ts st ∙ accept_as-seen (bool true) ts st _
    value-Reads (bool false) zero le = absurd (omega arith)
    value-Reads (bool false) (suc n) le =
        λ ts st. starts_with_token sy r n _ _ ts st ∙ accept_as-seen (bool false) ts st _
    value-Reads (variable s) zero le = absurd (omega arith)
    value-Reads (variable s) (suc n) le =
        λ ts st. starts_with_token sy r n _ _ ts st ∙ accept_as-seen (variable s) ts st _
    value-Reads (number x) zero le = absurd (omega arith)
    value-Reads (number x) (suc n) le = λ ts st.
        starts_with_token sy r n _ _ ts st
        ∙ scalar_reads sy r _ _ _ _ (serde_number x) ts st (is_number-match sy (r.show_number x))
            (r.shown x)
    value-Reads (string s) zero le = absurd (omega arith)
    value-Reads (string s) (suc n) le = λ ts st.
        starts_with_token sy r n _ _ ts st
        ∙ scalar_reads sy r _ _ _ _ (serde_string s) ts st (is_string-match sy (r.quote s))
            (r.quoted s)
    value-Reads (array no_items) zero le = absurd (omega arith)
    value-Reads (array no_items) (suc zero) le = absurd (omega arith)
    value-Reads (array no_items) (suc (suc n)) le = empty_array sy r n
    value-Reads (object no_fields) zero le = absurd (omega arith)
    value-Reads (object no_fields) (suc zero) le = absurd (omega arith)
    value-Reads (object no_fields) (suc (suc n)) le = empty_object sy r n
    value-Reads (array (item v vs)) zero le = absurd (omega arith)
    value-Reads (array (item v vs)) (suc zero) le = absurd (omega arith)
    value-Reads (array (item v vs)) (suc (suc n)) le = λ ts st.
        array_starts sy r (suc n) _ st
        ∙ (ap
              (λ us.
                array_loop sy.into (parse sy r (suc n)) (suc n) 1 us
                  (with_stack (st ++ token (sign sy 91) ∷ [])))
              (append_assoc (printed sy r v) (rest_of sy r vs) ts)
            ∙ (loop_item sy r (suc n) n 1 v (rest_of sy r vs ++ ts) (st ++ token (sign sy 91) ∷ [])
                  (value-Reads v (suc n) (omega arith))
                ∙ (ap (λ zs. after_item sy r (suc n) n 3 (rest_of sy r vs ++ ts) (with_stack zs))
                      (append_assoc st (token (sign sy 91) ∷ []) (node v ∷ []))
                    ∙ items_read vs (suc n) n 3 st (token (sign sy 91) ∷ node v ∷ []) (item v) ts
                        (omega arith) (omega arith) refl (first_item (sign sy 91) v))))
    value-Reads (object (field k v fs)) zero le = absurd (omega arith)
    value-Reads (object (field k v fs)) (suc zero) le = absurd (omega arith)
    value-Reads (object (field k v fs)) (suc (suc n)) le = λ ts st.
        object_starts sy r (suc n) _ st
        ∙ (loop_field sy r (suc n) n 1 k v _ (fields_after sy r fs ++ ts)
              (st ++ token (sign sy 123) ∷ []) (value-Reads v (suc n) (omega arith))
              (append_assoc (printed sy r v) (fields_after sy r fs) ts)
            ∙ (ap (λ zs. after_field sy r (suc n) n 5 (fields_after sy r fs ++ ts) (with_stack zs))
                  (append_assoc st (token (sign sy 123) ∷ []) (field_entries sy k v))
                ∙ fields_read fs (suc n) n 5 st (token (sign sy 123) ∷ field_entries sy k v)
                    (field k v) ts (omega arith) (omega arith) refl
                    (first_field sy (sign sy 123) k v)))

    items_read :
        (vs : JsonItems N) (n m num : ℕ) (base es : Stack T N) (g : JsonItems N → JsonItems N)
        (ts : Tokens T)
        → items_fuel r vs ≤ n
        → items_fuel r vs ≤ m
        → num ≡ suc (length es)
        → ItemsSo es g
        → after_item sy r n m num (rest_of sy r vs ++ ts) (with_stack (base ++ es))
          ≡ parsed ts (with_stack (base ++ node (array (g vs)) ∷ []))
    items_read no_items n m num base es g ts le le' count so =
        close_array sy r n m num ts base es g count so
    items_read (item v vs) n zero num base es g ts le le' count so = absurd (omega arith)
    items_read (item v vs) n (suc m) num base es g ts le le' count so =
        rest_step sy r n m num v _ (rest_of sy r vs ++ ts) base es (value-Reads v n (omega arith))
          (append_assoc (printed sy r v) (rest_of sy r vs) ts)
        ∙ items_read vs n m (num + 2) base (es ++ token (sign sy 44) ∷ node v ∷ [])
            (λ ys. g (item v ys)) ts (omega arith) (omega arith)
            (omega (arith, length-append es (token (sign sy 44) ∷ node v ∷ []), count))
            (next_item es g (token (sign sy 44)) v so)

    fields_read :
        (fs : JsonFields N) (n m num : ℕ) (base es : Stack T N) (g : JsonFields N → JsonFields N)
        (ts : Tokens T)
        → fields_fuel r fs ≤ n
        → fields_fuel r fs ≤ m
        → num ≡ suc (length es)
        → FieldsSo es g
        → after_field sy r n m num (fields_after sy r fs ++ ts) (with_stack (base ++ es))
          ≡ parsed ts (with_stack (base ++ node (object (g fs)) ∷ []))
    fields_read no_fields n m num base es g ts le le' count so =
        close_object sy r n m num ts base es g count so
    fields_read (field k v fs) n zero num base es g ts le le' count so = absurd (omega arith)
    fields_read (field k v fs) n (suc m) num base es g ts le le' count so =
        fields_step sy r n m num k v _ (fields_after sy r fs ++ ts) base es
          (value-Reads v n (omega arith)) (append_assoc (printed sy r v) (fields_after sy r fs) ts)
        ∙ fields_read fs n m (num + 4) base (es ++ token (sign sy 44) ∷ field_entries sy k v)
            (λ ys. g (field k v ys)) ts (omega arith) (omega arith)
            (omega (arith, length-append es (token (sign sy 44) ∷ field_entries sy k v), count))
            (next_field sy es g (token (sign sy 44)) k v so)

  -- For any tokens that include those of JSON, where `serde_json` reads back the texts of strings and of numbers: `json_parse_value` on the tokens
  -- of a value, with any tokens after them, any stack below, and at least the fuel for the value,
  -- neither fails nor panics, and leaves the tokens after them, and the value on top of the stack.
  pub json_parse_value-tokens_of :
      (v : ParsedJson N) (n : ℕ) (ts : Tokens T) (st : Stack T N)
      → fuel_of r v ≤ n
      → json_parse_value sy.into r.from_str r.zero_number n (tokens_of sy r v ++ ts) (with_stack st)
        ≡ parsed ts (with_stack (st ++ node v ∷ []))
  json_parse_value-tokens_of v n ts st enough = value-Reads v n enough ts st
