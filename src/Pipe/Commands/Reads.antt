-- ===== src/Pipe/Commands/Reads.antt =====
-- pipe/src/parse_json.rs and pipe/src/commands/parse_command.rs: the readers of tokens, one call at a
-- time.
use flo_scene.Common.{
  ℕ, zero, suc, ◌+◌, ◌≤◌, ◌<◌, Bool-cases, List, [], ◌∷◌, map, Option, none, some, inl, inr, ◌≡◌,
  refl, ap, subst, arith, length,
}
use flo_scene.Pipe.Json.{JsonToken, whitespace}
use flo_scene.Pipe.Tokenizer.{TokenMatch}
use flo_scene.Pipe.Values.{json_token, json_tokens}
use flo_scene.Pipe.Commands.Steps.{
  CommandMatch, is_space, command_read_token, json_read_token, json_reads,
}

pub map_same : {A : Type 0} (xs : List A) → map (λ x. x) xs ≡ xs
map_same [] = refl
map_same (x ∷ xs) = ap (λ ys. x ∷ ys) (map_same xs)

-- How many tokens a reader has left, and whether it took one.
abbrev pub Left : {T : Type 0} → ℕ → Option (TokenMatch T) × List (TokenMatch T) → Type 0
Left n (none, us) = length us ≤ n
Left n (some t, us) = length us < n

Left-suc :
    {T : Type 0} (n : ℕ) (r : Option (TokenMatch T) × List (TokenMatch T))
    → Left n r
    → Left (suc n) r
Left-suc n (none, us) h = omega arith
Left-suc n (some t, us) h = omega arith

pub command_read_token-Left : (ts : List CommandMatch) → Left (length ts) (command_read_token ts)
unfolding command_read_token
command_read_token-Left [] = omega arith
command_read_token-Left (t ∷ ts) = elim (Bool-cases (is_space t)) [
  | inl space ↦ rw space (Left-suc (length ts) (command_read_token ts) (command_read_token-Left ts))
  | inr other ↦ rw other (omega arith)
]

module _ {T : Type 0} (into : T → Option JsonToken) where
  -- The tokens that a reader gives, from its next one on.
  abbrev pub from_read : Option (TokenMatch T) × List (TokenMatch T) → List (TokenMatch T)
  from_read (none, us) = []
  from_read (some t, us) = t ∷ json_tokens into us

  -- The list `json_tokens` is what calls of `json_read_token` give one after the other, up to the first
  -- that gives none.
  pub json_tokens-json_read_token :
      (ts : List (TokenMatch T)) → json_tokens into ts ≡ from_read (json_read_token into ts)
  unfolding json_tokens json_read_token
  json_tokens-json_read_token [] = refl
  json_tokens-json_read_token (t ∷ ts) =
      on_token (json_token into t) (json_tokens-json_read_token ts)
    where
      on_token :
          (k : Option (Option JsonToken))
          → json_tokens into ts ≡ from_read (json_read_token into ts)
          → elim k [
            | none ↦ []
            | some (some whitespace) ↦ json_tokens into ts
            | some j ↦ t ∷ json_tokens into ts
          ]
            ≡ from_read (elim k [
              | none ↦ (none, ts)
              | some (some whitespace) ↦ json_read_token into ts
              | some j ↦ (some t, ts)
            ])
      on_token none ih = refl
      on_token (some none) ih = refl
      on_token (some (some whitespace)) ih = ih
      on_token (some (some _)) ih = refl

  json_read_token-Left : (ts : List (TokenMatch T)) → Left (length ts) (json_read_token into ts)
  unfolding json_read_token
  json_read_token-Left [] = omega arith
  json_read_token-Left (t ∷ ts) = on_token (json_token into t) (json_read_token-Left ts)
    where
      on_token :
          (k : Option (Option JsonToken))
          → Left (length ts) (json_read_token into ts)
          → Left {T = T} (suc (length ts)) (elim k [
            | none ↦ (none, ts)
            | some (some whitespace) ↦ json_read_token into ts
            | some j ↦ (some t, ts)
          ])
      on_token none ih = omega arith
      on_token (some none) ih = omega arith
      on_token (some (some whitespace)) ih = Left-suc (length ts) (json_read_token into ts) ih
      on_token (some (some _)) ih = omega arith

  -- Each of the first calls takes a token at least.
  pub json_reads-length :
      (n : ℕ) (ts : List (TokenMatch T))
      → n ≤ length (json_tokens into ts)
      → length (json_reads into n ts) + n ≤ length ts
  unfolding json_reads
  json_reads-length zero ts le = omega arith
  json_reads-length (suc n) ts le =
      after_read (json_read_token into ts) (json_read_token-Left ts)
        (subst (λ js. suc n ≤ length js) (json_tokens-json_read_token ts) le) (json_reads-length n)
    where
      after_read :
          (r : Option (TokenMatch T) × List (TokenMatch T))
          → Left (length ts) r
          → suc n ≤ length (from_read r)
          → ((us : List (TokenMatch T))
              → n ≤ length (json_tokens into us)
              → length (json_reads into n us) + n ≤ length us)
          → length (json_reads into n r.1) + suc n ≤ length ts
      after_read (none, us) left some_left ih = absurd (omega arith)
      after_read (some t, us) left some_left ih = omega (arith, ih us (omega arith))
