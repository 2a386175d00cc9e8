-- ===== src/Pipe/Commands/Spaces.antt =====
-- pipe/src/commands/parse_command.rs and pipe/src/parse_json.rs: the readers skip white space.
use flo_scene.Common.{
  ℕ, true, false, List, [], ◌∷◌, ◌++◌, map, Option, none, some, ◌≡◌, refl, ◌∙◌, ap, arith, ◌≤◌,
  length, drop, length-append,
}
use flo_scene.Pipe.Json.{JsonToken, whitespace}
use flo_scene.Pipe.Values.{json_token, json_tokens}
use flo_scene.Pipe.Commands.{CommandToken, json, into_json}
use flo_scene.Pipe.Commands.Steps.{
  CommandMatch, is_space, command_read_token, json_read_token, json_reads,
}
use flo_scene.Pipe.Commands.Print.{command_match, with_spaces, is_solid, AllSolid}

abbrev spaces : List (List ℕ) → List CommandMatch
spaces gap = map (λ text. command_match (json whitespace) text) gap

command_read_token-spaces :
    (gap : List (List ℕ)) (us : List CommandMatch)
    → command_read_token (spaces gap ++ us) ≡ command_read_token us
unfolding command_read_token
command_read_token-spaces [] us = refl
command_read_token-spaces (text ∷ gap) us = command_read_token-spaces gap us

json_tokens-spaces :
    (gap : List (List ℕ)) (us : List CommandMatch)
    → json_tokens into_json (spaces gap ++ us) ≡ json_tokens into_json us
unfolding json_tokens into_json
json_tokens-spaces [] us = refl
json_tokens-spaces (text ∷ gap) us = json_tokens-spaces gap us

json_read_token-spaces :
    (gap : List (List ℕ)) (us : List CommandMatch)
    → json_read_token into_json (spaces gap ++ us) ≡ json_read_token into_json us
unfolding json_read_token into_json
json_read_token-spaces [] us = refl
json_read_token-spaces (text ∷ gap) us = json_read_token-spaces gap us

pub solid_is_no_space : (t : CommandMatch) → is_solid t ≡ true → is_space t ≡ false
unfolding into_json
solid_is_no_space t = of_token t.token
  where
    of_token :
        (o : Option CommandToken)
        → is_solid (record { token = o; fragment = t.fragment }) ≡ true
        → is_space (record { token = o; fragment = t.fragment }) ≡ false
    of_token none h = refl
    of_token (some (json whitespace)) h = cc
    of_token (some (json _)) h = refl
    of_token (some _) h = refl

json_tokens-solid :
    (t : CommandMatch) (us : List CommandMatch)
    → is_solid t ≡ true
    → json_tokens into_json (t ∷ us) ≡ t ∷ json_tokens into_json us
unfolding json_tokens
json_tokens-solid t us solid = of_json (json_token into_json t) solid
  where
    of_json :
        (k : Option (Option JsonToken))
        → elim k [ none ↦ false | some (some whitespace) ↦ false | some _ ↦ true ] ≡ true
        → elim k [
          | none ↦ []
          | some (some whitespace) ↦ json_tokens into_json us
          | some j ↦ t ∷ json_tokens into_json us
        ]
          ≡ t ∷ json_tokens into_json us
    of_json none h = cc
    of_json (some none) h = refl
    of_json (some (some whitespace)) h = cc
    of_json (some (some _)) h = refl

json_read_token-solid :
    (t : CommandMatch) (us : List CommandMatch)
    → is_solid t ≡ true
    → json_read_token into_json (t ∷ us) ≡ (some t, us)
unfolding json_read_token
json_read_token-solid t us solid = of_json (json_token into_json t) solid
  where
    of_json :
        (k : Option (Option JsonToken))
        → elim k [ none ↦ false | some (some whitespace) ↦ false | some _ ↦ true ] ≡ true
        → ◌≡◌ {A = Option CommandMatch × List CommandMatch}
            (elim k [
              | none ↦ (none, us)
              | some (some whitespace) ↦ json_read_token into_json us
              | some j ↦ (some t, us)
            ])
            (some t, us)
    of_json none h = cc
    of_json (some none) h = refl
    of_json (some (some whitespace)) h = cc
    of_json (some (some _)) h = refl

-- The first of the tokens, whatever space is before it.
pub command_read_token-with_spaces :
    (gaps : List (List (List ℕ))) (t : CommandMatch) (ts rest : List CommandMatch)
    → is_space t ≡ false
    → command_read_token (with_spaces gaps (t ∷ ts) rest)
      ≡ (some t, with_spaces (drop 1 gaps) ts rest)
unfolding with_spaces command_read_token
command_read_token-with_spaces [] t ts rest solid = rw solid refl
command_read_token-with_spaces (gap ∷ gaps) t ts rest solid =
    command_read_token-spaces gap (t ∷ with_spaces gaps ts rest) ∙ rw solid refl

pub json_tokens-with_spaces :
    (gaps : List (List (List ℕ))) (ts rest : List CommandMatch)
    → AllSolid ts
    → json_tokens into_json (with_spaces gaps ts rest) ≡ ts ++ json_tokens into_json rest
unfolding with_spaces
json_tokens-with_spaces [] [] rest solid = refl
json_tokens-with_spaces [] (t ∷ ts) rest solid =
    json_tokens-solid t (ts ++ rest) solid.0
    ∙ ap (λ us. t ∷ us) (json_tokens-with_spaces [] ts rest solid.1)
json_tokens-with_spaces (gap ∷ gaps) [] rest solid = refl
json_tokens-with_spaces (gap ∷ gaps) (t ∷ ts) rest solid =
    json_tokens-spaces gap (t ∷ with_spaces gaps ts rest)
    ∙ (json_tokens-solid t (with_spaces gaps ts rest) solid.0
        ∙ ap (λ us. t ∷ us) (json_tokens-with_spaces gaps ts rest solid.1))

pub json_reads-with_spaces :
    (gaps : List (List (List ℕ))) (ts rest : List CommandMatch)
    → AllSolid ts
    → json_reads into_json (length ts) (with_spaces gaps ts rest) ≡ rest
unfolding with_spaces json_reads
json_reads-with_spaces [] [] rest solid = refl
json_reads-with_spaces [] (t ∷ ts) rest solid =
    ap (λ r. json_reads into_json (length ts) r.1) (json_read_token-solid t (ts ++ rest) solid.0)
    ∙ json_reads-with_spaces [] ts rest solid.1
json_reads-with_spaces (gap ∷ gaps) [] rest solid = refl
json_reads-with_spaces (gap ∷ gaps) (t ∷ ts) rest solid =
    ap (λ r. json_reads into_json (length ts) r.1)
      (json_read_token-spaces gap (t ∷ with_spaces gaps ts rest)
        ∙ json_read_token-solid t (with_spaces gaps ts rest) solid.0)
    ∙ json_reads-with_spaces gaps ts rest solid.1

pub length-le-with_spaces :
    (gaps : List (List (List ℕ))) (ts rest : List CommandMatch)
    → length ts ≤ length (with_spaces gaps ts rest)
unfolding with_spaces
length-le-with_spaces [] ts rest = omega (arith, length-append ts rest)
length-le-with_spaces (gap ∷ gaps) [] rest = omega arith
length-le-with_spaces (gap ∷ gaps) (t ∷ ts) rest = omega (
  arith,
  length-append (spaces gap) (t ∷ with_spaces gaps ts rest),
  length-le-with_spaces gaps ts rest,
)
