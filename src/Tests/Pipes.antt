-- ===== src/Tests/Pipes.antt =====
-- Runs of pipe/src/tokenizer.rs on small inputs.
use flo_scene.Common.{ℕ, false, List, [], ◌∷◌, ◌++◌, ◌≡◌, arith, if◌then◌else◌, ◌==◌}
use flo_scene.Pipe.Utf8.{Lookahead, encode, read_more_characters}
use flo_scene.Pipe.Utf8.Decode.{decode, decode-encode}
use flo_scene.Pipe.Utf8.Chunks.{MoreRead, read_more_characters_lem}
use flo_scene.Pipe.Tokenizer.{
  matches, lookahead_is_prefix, lookahead_cannot_match, TokenMatcher, Tokenizer, match_token,
  take_match, longest,
}
use flo_scene.Pipe.Tokenizer.Text.{fragment_of, text, match_token_keeps_text}
use flo_scene.Pipe.Tokenizer.Fuel.{RunsTo, loops_end}

-- A dollar, a pound sign, a Devanagari letter and a Gothic one.
abbrev letters : List ℕ
letters = 36 ∷ 163 ∷ 2361 ∷ 66376 ∷ []

decode-encode_example : decode (encode letters) ≡ letters
decode-encode_example =
    decode-encode letters (omega arith, (omega arith, (omega arith, (omega arith, tt))))

-- The pound sign in two chunks, and a byte that starts nothing.
abbrev pieces : List (List ℕ)
pieces = (163 ∷ 255 ∷ []) ∷ (36 ∷ []) ∷ []

abbrev half : Lookahead
half = record { lookahead_chars = 36 ∷ []; lookahead_bytes = 194 ∷ [] }

read_more_characters_lem_example : MoreRead pieces half (read_more_characters pieces half)
read_more_characters_lem_example = read_more_characters_lem pieces half

-- Matches a dollar, and two dollars.
abbrev one_dollar : TokenMatcher ℕ
one_dollar [] eof = lookahead_cannot_match
one_dollar (c ∷ cs) eof = if c == 36 then matches 1 1 else lookahead_cannot_match

abbrev two_dollars : TokenMatcher ℕ
two_dollars [] eof = lookahead_cannot_match
two_dollars (c ∷ []) eof = if eof then lookahead_cannot_match else lookahead_is_prefix
two_dollars (c ∷ d ∷ cs) eof =
    if c == 36
    then if d == 36 then matches 2 2 else lookahead_cannot_match
    else lookahead_cannot_match

abbrev dollars : Tokenizer ℕ
dollars = record {
  source_stream = (36 ∷ []) ∷ (36 ∷ 194 ∷ []) ∷ (163 ∷ []) ∷ [];
  matchers = one_dollar ∷ two_dollars ∷ [];
  lookahead = record { lookahead_chars = []; lookahead_bytes = [] };
}

match_token_keeps_text_example :
    fragment_of (match_token dollars).0 ++ text (match_token dollars).1 ≡ text dollars
match_token_keeps_text_example = match_token_keeps_text dollars

abbrev three_matches : List (ℕ × ℕ)
three_matches = (1, 1) ∷ (2, 4) ∷ (3, 4) ∷ []

loops_end_example :
    (found : List (ℕ × ℕ)) × (stream : List (List ℕ)) × (l : Lookahead) × RunsTo dollars.matchers []
      false dollars.source_stream dollars.lookahead
      (found, stream, l)
    × (match_token dollars ≡ take_match (longest found) stream l dollars)
loops_end_example = loops_end dollars
