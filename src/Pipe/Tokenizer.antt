-- ===== src/Pipe/Tokenizer.antt =====
-- pipe/src/tokenizer.rs: `Tokenizer` and `match_token`.
pub mod Text
pub mod Longest
pub mod Fuel
use flo_scene.Common.{
  ℕ, zero, suc, ◌+◌, Bool, true, false, ◌||◌, List, [], ◌∷◌, ◌++◌, Option, none, some, ltb, leb,
  ◌==◌, if◌then◌else◌, length, take, drop, is_empty,
}
use flo_scene.Pipe.Utf8.{Lookahead, read_more_characters, encode}
use flo_scene.Pipe.Utf8.Chunks.{concat}

pub data TokenMatchResult {ℓ} (T : Type ℓ) : Type ℓ where
  matches : T → ℕ → TokenMatchResult T
  lookahead_is_prefix lookahead_cannot_match : TokenMatchResult T

pub record TokenMatch {ℓ} (T : Type ℓ) : Type ℓ where
  pub token : Option T
  pub fragment : List ℕ

-- `TokenMatcher::try_match`, on the lookahead and `eof`.
abbrev pub TokenMatcher {ℓ} : Type ℓ → Type ℓ
TokenMatcher T = List ℕ → Bool → TokenMatchResult T

-- A source stream that is `None` has no chunks left.
pub record Tokenizer {ℓ} (T : Type ℓ) : Type ℓ where
  pub source_stream : List (List ℕ)
  pub matchers : List (TokenMatcher T)
  pub lookahead : Lookahead

-- The characters after which `match_token` tries to match at once: `;`, `\n` and `\r`.
unfoldable pub has_break : List ℕ → Bool
has_break [] = false
has_break (c ∷ cs) = c == 59 || c == 10 || c == 13 || has_break cs

-- `lookahead_chars.len()`, which counts bytes.
unfoldable pub byte_len : Lookahead → ℕ
byte_len l = length (encode l.lookahead_chars)

-- The test that ends the inner loop, after a read.
unfoldable pub is_filled : Lookahead → Lookahead → Bool
unfolding has_break byte_len
is_filled l l' =
    has_break (drop (length l.lookahead_chars) l'.lookahead_chars) || leb 32 (byte_len l')

-- The inner loop of `match_token`, where `eof` is false: whether it sets `eof`, and what is left.
-- On fuel: every turn but the last one leaves fewer than 32 bytes, and adds one.
unfoldable pub fill : ℕ → List (List ℕ) → Lookahead → Bool × List (List ℕ) × Lookahead
unfolding is_filled
fill zero stream l = (false, stream, l)
fill (suc n) stream l =
    let more = read_more_characters stream l in
    elim more.0 [
      | false ↦ (true, more.1, more.2)
      | true ↦ elim (is_filled l more.2) [
        | true ↦ (false, more.1, more.2)
        | false ↦ fill n more.1 more.2
      ]
    ]

module _ {ℓ} {T : Type ℓ} where
  -- `Tokenizer::new`, `with_matcher`, `with_no_matchers` and `return_characters`
  unfoldable pub new_tokenizer : List (List ℕ) → Tokenizer T
  new_tokenizer stream = record {
    source_stream = stream;
    matchers = [];
    lookahead = record { lookahead_chars = []; lookahead_bytes = [] };
  }

  unfoldable pub with_matcher : TokenMatcher T → Tokenizer T → Tokenizer T
  with_matcher m t = record t { matchers = t.matchers ++ m ∷ [] }

  unfoldable pub with_no_matchers : Tokenizer T → Tokenizer T
  with_no_matchers t = record t { matchers = [] }

  unfoldable pub return_characters : List ℕ → Tokenizer T → Tokenizer T
  return_characters cs t = record t {
    lookahead = record t.lookahead { lookahead_chars = cs ++ t.lookahead.lookahead_chars };
  }

  -- The `for` over the matchers: those that stay possible, and the new matches.
  unfoldable pub try_matchers :
      List ℕ → Bool → List (TokenMatcher T) → List (TokenMatcher T) × List (T × ℕ)
  try_matchers chars eof [] = ([], [])
  try_matchers chars eof (m ∷ ms) =
      let rest = try_matchers chars eof ms in
      elim (m chars eof) [
        | matches t n ↦ (rest.0, (t, n) ∷ rest.1)
        | lookahead_is_prefix ↦ (m ∷ rest.0, rest.1)
        | lookahead_cannot_match ↦ rest
      ]

  -- The first half of a turn of the outer loop, which is left out while there is no lookahead.
  unfoldable pub try_lookahead :
      List ℕ → Bool → List (TokenMatcher T) → List (TokenMatcher T) × List (T × ℕ)
  unfolding try_matchers
  try_lookahead chars eof ms = if is_empty chars then (ms, []) else try_matchers chars eof ms

  -- The outer loop of `match_token`: the matches, and what is left. On fuel: every turn but the last
  -- two reads a character.
  unfoldable pub match_loop :
      ℕ
      → List (TokenMatcher T)
      → List (T × ℕ)
      → Bool
      → List (List ℕ)
      → Lookahead
      → List (T × ℕ) × List (List ℕ) × Lookahead
  unfolding try_lookahead fill
  match_loop zero ms found eof stream l = (found, stream, l)
  match_loop (suc n) ms found eof stream l =
      let tried = try_lookahead l.lookahead_chars eof ms in
      elim (is_empty tried.0 || eof) [
        | true ↦ (found ++ tried.1, stream, l)
        | false ↦
            let filled = fill 32 stream l in
            match_loop n tried.0 (found ++ tried.1) filled.0 filled.1 filled.2
      ]

  -- `max_by` on the lengths: the last one of the longest matches.
  unfoldable pub longest : List (T × ℕ) → Option (T × ℕ)
  longest [] = none
  longest (m ∷ ms) = elim (longest ms) [
    | none ↦ some m
    | some best ↦ if ltb best.1 m.1 then some m else some best
  ]

  abbrev pub loop_fuel : Tokenizer T → ℕ
  loop_fuel t = length (t.lookahead.lookahead_bytes ++ concat t.source_stream) + 2

  -- What is done with the best match.
  unfoldable pub take_match :
      Option (T × ℕ) → List (List ℕ) → Lookahead → Tokenizer T → Option (TokenMatch T) × Tokenizer T
  take_match none stream l t = (none, record t { source_stream = stream; lookahead = l })
  take_match (some (token, n)) stream l t = (
    some (record { token = some token; fragment = take n l.lookahead_chars }),
    record t {
      source_stream = stream;
      lookahead = record l { lookahead_chars = drop n l.lookahead_chars };
    },
  )

  unfoldable pub match_token : Tokenizer T → Option (TokenMatch T) × Tokenizer T
  unfolding match_loop longest take_match
  match_token t =
      let (found, stream, l) =
        match_loop (loop_fuel t) t.matchers [] false t.source_stream t.lookahead in
      take_match (longest found) stream l t
