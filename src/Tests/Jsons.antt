-- ===== src/Tests/Jsons.antt =====
-- The token matchers of pipe/src/parse_json.rs and the parser of pipe/src/parser.rs on small inputs.
use flo_scene.Common.{ℕ, ◌++◌, true, false, List, [], ◌∷◌, none, some, ◌≡◌, ◌≢◌, arith}
use flo_scene.Pipe.Tokenizer.{lookahead_is_prefix}
use flo_scene.Pipe.Json.{
  keyword_true, keyword_false, keyword_null, match_whitespace, match_number, match_string,
  match_true, match_false, match_null,
}
use flo_scene.Pipe.Json.Stable.{matchers_stable}
use flo_scene.Pipe.Json.Keywords.{keyword_of, keywords-Ascii, keywords_panic}

-- `-12.5,`
abbrev a_number : List ℕ
a_number = 45 ∷ 49 ∷ 50 ∷ 46 ∷ 53 ∷ 44 ∷ []

abbrev more_text : List ℕ
more_text = 49 ∷ []

matchers_stable_example :
    (match_whitespace a_number false ≢ lookahead_is_prefix
      → match_whitespace (a_number ++ more_text) true ≡ match_whitespace a_number false)
    × (match_number a_number false ≢ lookahead_is_prefix
        → match_number (a_number ++ more_text) true ≡ match_number a_number false)
    × (match_string a_number false ≢ lookahead_is_prefix
        → match_string (a_number ++ more_text) true ≡ match_string a_number false)
matchers_stable_example = matchers_stable a_number more_text true

-- `tru`
abbrev start_of_true : List ℕ
start_of_true = 116 ∷ 114 ∷ 117 ∷ []

keywords-Ascii_example :
    (match_true start_of_true
      ≡ some (keyword_of keyword_true 4 (116 ∷ 114 ∷ 117 ∷ 101 ∷ []) start_of_true))
    × (match_false start_of_true
        ≡ some (keyword_of keyword_false 5 (102 ∷ 97 ∷ 108 ∷ 115 ∷ 101 ∷ []) start_of_true))
    × (match_null start_of_true
        ≡ some (keyword_of keyword_null 4 (110 ∷ 117 ∷ 108 ∷ 108 ∷ []) start_of_true))
keywords-Ascii_example =
    keywords-Ascii start_of_true (omega arith, (omega arith, (omega arith, tt)))

-- A quotation mark and two accented letters, as a JSON string may start.
keywords_panic_example :
    (match_true (34 ∷ 233 ∷ 233 ∷ []) ≡ none) × (match_null (34 ∷ 233 ∷ 233 ∷ []) ≡ none)
keywords_panic_example =
    keywords_panic 34 233 233 [] (omega arith) (omega arith) (omega arith) (omega arith)
      (omega arith)
