-- ===== src/Pipe/Commands/FirstToken.antt =====
-- pipe/src/commands/parse_command.rs: what the parser looks at before it reads an argument.
use flo_scene.Common.{ℕ, Bool, true, false, List, [], ◌∷◌, some, ◌≡◌, refl, ◌∙◌, ap, drop}
use flo_scene.Pipe.Json.{JsonToken}
use flo_scene.Pipe.Tokenizer.{TokenMatch}
use flo_scene.Pipe.Values.{
  ParsedJson, null, bool, number, string, array, object, variable, no_items, item, no_fields, field,
}
use flo_scene.Pipe.Values.Print.{Serde, Symbols, match_of, tokens_of}
use flo_scene.Pipe.Commands.Steps.{CommandMatch, CommandStack, look_ahead, is_space}
use flo_scene.Pipe.Commands.Ahead.{
  state, first_read, second_read, look_ahead-read, look_second-read,
}
use flo_scene.Pipe.Commands.Print.{with_spaces}
use flo_scene.Pipe.Commands.Spaces.{command_read_token-with_spaces}

abbrev pub Gaps : Type 0
Gaps = List (List (List ℕ))

abbrev pub is_plain : {N : Type 0} → ParsedJson N → Bool
is_plain (variable s) = false
is_plain _ = true

abbrev pub is_plain_token : JsonToken → Bool
is_plain_token JsonToken.variable = false
is_plain_token _ = true

-- The look aheads, where the next tokens are known.
module _ {N : Type 0} (gaps : Gaps) (t : CommandMatch) (ts rest : List CommandMatch)
    (st : CommandStack N) (no_space : is_space t ≡ false) where
  pub next_token :
      look_ahead 0 (with_spaces gaps (t ∷ ts) rest) (state st [])
      ≡ (some t, with_spaces (drop 1 gaps) ts rest, state st (t ∷ []))
  next_token =
      look_ahead-read (with_spaces gaps (t ∷ ts) rest) st
      ∙ ap (λ x. first_read st x) (command_read_token-with_spaces gaps t ts rest no_space)

  pub second_token :
      (s : CommandMatch)
      → look_ahead 1 (with_spaces gaps (t ∷ ts) rest) (state st (s ∷ []))
        ≡ (some t, with_spaces (drop 1 gaps) ts rest, state st (s ∷ t ∷ []))
  second_token s =
      look_second-read (with_spaces gaps (t ∷ ts) rest) st s
      ∙ ap (λ x. second_read st s x) (command_read_token-with_spaces gaps t ts rest no_space)

module _ {T N : Type 0} (sy : Symbols T) (r : Serde N) where
  -- The first token of a value, which is a variable where the value is one.
  pub record FirstToken (v : ParsedJson N) : Type 0 where
    pub kind : JsonToken
    pub text : List ℕ
    pub others : List (TokenMatch T)
    pub starts : tokens_of sy r v ≡ match_of sy kind text ∷ others
    pub same_kind : is_plain_token kind ≡ is_plain v

  first_token :
      {v : ParsedJson N} {k : JsonToken} {s : List ℕ} {ts : List (TokenMatch T)}
      → tokens_of sy r v ≡ match_of sy k s ∷ ts
      → is_plain_token k ≡ is_plain v
      → FirstToken v
  first_token starts same_kind = record {
    kind = _;
    text = _;
    others = _;
    starts = starts;
    same_kind = same_kind;
  }

  pub tokens_of-FirstToken : (v : ParsedJson N) → FirstToken v
  unfolding tokens_of
  tokens_of-FirstToken null = first_token refl refl
  tokens_of-FirstToken (bool true) = first_token refl refl
  tokens_of-FirstToken (bool false) = first_token refl refl
  tokens_of-FirstToken (number n) = first_token refl refl
  tokens_of-FirstToken (string s) = first_token refl refl
  tokens_of-FirstToken (array no_items) = first_token refl refl
  tokens_of-FirstToken (array (item v vs)) = first_token refl refl
  tokens_of-FirstToken (object no_fields) = first_token refl refl
  tokens_of-FirstToken (object (field k v fs)) = first_token refl refl
  tokens_of-FirstToken (variable s) = first_token refl refl
