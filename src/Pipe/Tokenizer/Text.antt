-- ===== src/Pipe/Tokenizer/Text.antt =====
-- pipe/src/tokenizer.rs: `match_token` cuts the text, and loses none of it.
use flo_scene.Common.{
  ℕ, zero, suc, Bool, false, ◌||◌, List, [], ◌∷◌, ◌++◌, Option, none, some, ◌≡◌, refl, ap, ◌∙◌,
  take, drop, is_empty, inl, inr, Bool-cases, append_assoc,
}
use flo_scene.Pipe.Utf8.{Lookahead, read_more_characters}
use flo_scene.Pipe.Utf8.Decode.{decode}
use flo_scene.Pipe.Utf8.Chunks.{concat, text_of, read_more_characters_lem}
use flo_scene.Pipe.Tokenizer.{
  TokenMatch, TokenMatcher, Tokenizer, is_filled, fill, try_lookahead, match_loop, longest,
  loop_fuel, take_match, match_token,
}

pub fill_text :
    (n : ℕ) (stream : List (List ℕ)) (l : Lookahead)
    → text_of (fill n stream l).1 (fill n stream l).2 ≡ text_of stream l
unfolding fill
fill_text zero stream l = refl
fill_text (suc n) stream l =
    let more = read_more_characters stream l in
    let same = (read_more_characters_lem stream l).0.same_text in
    elim (Bool-cases more.0) [
      | inr ended ↦ rw (ended, fill) same
      | inl read ↦ elim (Bool-cases (is_filled l more.2)) [
        | inl enough ↦ rw (read, enough, fill) same
        | inr short ↦ rw (read, short, fill) (fill_text n more.1 more.2 ∙ same)
      ]
    ]

take-drop : (n : ℕ) (cs : List ℕ) → take n cs ++ drop n cs ≡ cs
take-drop zero cs = refl
take-drop (suc n) [] = refl
take-drop (suc n) (c ∷ cs) = ap (λ ds. c ∷ ds) (take-drop n cs)

module _ {ℓ} {T : Type ℓ} where
  loop_text :
      (n : ℕ) (ms : List (TokenMatcher T)) (found : List (T × ℕ)) (eof : Bool)
      (stream : List (List ℕ)) (l : Lookahead)
      → text_of (match_loop n ms found eof stream l).1 (match_loop n ms found eof stream l).2
        ≡ text_of stream l
  unfolding match_loop
  loop_text zero ms found eof stream l = refl
  loop_text (suc n) ms found eof stream l =
      let tried = try_lookahead l.lookahead_chars eof ms in
      elim (Bool-cases (is_empty tried.0 || eof)) [
        | inl over ↦ rw (over, match_loop) refl
        | inr goes_on ↦
            let filled = fill 32 stream l in
            rw (goes_on, match_loop)
              (loop_text n tried.0 (found ++ tried.1) filled.0 filled.1 filled.2
                ∙ fill_text 32 stream l)
      ]

  -- The characters of a match, and none where there is no match.
  abbrev pub fragment_of : Option (TokenMatch T) → List ℕ
  fragment_of none = []
  fragment_of (some m) = m.fragment

  abbrev pub text : Tokenizer T → List ℕ
  text t = text_of t.source_stream t.lookahead

  take_text :
      (best : Option (T × ℕ)) (stream : List (List ℕ)) (l : Lookahead) (t : Tokenizer T)
      → fragment_of (take_match best stream l t).0 ++ text (take_match best stream l t).1
        ≡ text_of stream l
  unfolding take_match text_of
  take_text none stream l t = refl
  take_text (some (token, n)) stream l t =
      let rest = decode (l.lookahead_bytes ++ concat stream) in
      let apart = append_assoc (take n l.lookahead_chars) (drop n l.lookahead_chars) rest in
      cc (apart, take-drop n l.lookahead_chars)

  -- Whatever the matchers are, and however the bytes arrive, the characters of the match followed
  -- by the text that is left to the tokenizer are the text that it had: no character is lost,
  -- doubled or moved. Where nothing matches the text is as it was.
  pub match_token_keeps_text :
      (t : Tokenizer T) → fragment_of (match_token t).0 ++ text (match_token t).1 ≡ text t
  unfolding match_token
  match_token_keeps_text t =
      let done = match_loop (loop_fuel t) t.matchers [] false t.source_stream t.lookahead in
      take_text (longest done.0) done.1 done.2 t
      ∙ loop_text (loop_fuel t) t.matchers [] false t.source_stream t.lookahead
