-- ===== src/Pipe/Commands/Words.antt =====
-- pipe/src/commands/parse_command.rs: the matchers of commands, variables and comments.
use flo_scene.Common.{
  ℕ, ◌+◌, ◌≤◌, Bool, false, not, ◌||◌, List, [], ◌∷◌, ◌++◌, ◌≡◌, ◌≢◌, refl, arith, ltb, ◌==◌,
  if◌then◌else◌, length,
}
use flo_scene.Pipe.Tokenizer.{
  TokenMatchResult, matches, lookahead_is_prefix, lookahead_cannot_match,
}
use flo_scene.Pipe.Commands.{
  CommandToken, command, variable, continues, word_rest, starts_command, match_command,
  match_variable, comment_rest, match_command_comment,
}

module _ (is_alphabetic : ℕ → Bool) where
  -- How many characters at the start of `cs` continue a word.
  unfoldable pub run_length : List ℕ → ℕ
  run_length [] = 0
  run_length (c ∷ cs) =
      let rest = run_length cs in if continues is_alphabetic c then rest + 1 else 0

  -- What a matcher says of a word whose first character `run` of the other `size` ones continue.
  abbrev pub word_result : CommandToken → Bool → ℕ → ℕ → Bool → TokenMatchResult CommandToken
  word_result t alone run size eof =
      if run == size
      then if eof then matches t (run + 1) else lookahead_is_prefix
      else if alone || ltb 0 run
      then matches t (run + 1)
      else lookahead_cannot_match

  run_length-le : (cs : List ℕ) → run_length cs ≤ length cs
  unfolding run_length
  run_length-le [] = omega arith
  run_length-le (c ∷ cs) = ground (arith, run_length-le cs)

  word_rest-run_length :
      (t : CommandToken) (alone : Bool) (len : ℕ) (cs : List ℕ) (eof : Bool)
      → word_rest is_alphabetic t alone (len + 1) cs eof ≡ (
          if run_length cs == length cs
          then if eof then matches t (len + 1 + run_length cs) else lookahead_is_prefix
          else if alone || ltb 0 (len + run_length cs)
          then matches t (len + 1 + run_length cs)
          else lookahead_cannot_match)
  unfolding word_rest run_length
  word_rest-run_length t alone len [] eof = ground arith
  word_rest-run_length t alone len (c ∷ cs) eof =
      ground (arith, word_rest-run_length t alone (len + 1) cs eof, run_length-le cs)

  -- On a lookahead that is not empty, the matcher of commands says what the number of the characters
  -- that continue its first one says, if that one can start a command, and that of variables likewise:
  -- where they are all the others, the lookahead is a prefix, or at the end of the file a token; where
  -- they are not, they and the first one are a token, except that a ':' alone is no command and no
  -- character alone is a variable.
  pub words-run_length :
      (c : ℕ) (cs : List ℕ) (eof : Bool)
      → (match_command is_alphabetic (c ∷ cs) eof ≡ (
          if starts_command is_alphabetic c
          then word_result command (not (c == 58)) (run_length cs) (length cs) eof
          else lookahead_cannot_match))
        × (match_variable is_alphabetic (c ∷ cs) eof ≡ (
            if c == 58 || c == 36 || c == 95
            then word_result variable false (run_length cs) (length cs) eof
            else lookahead_cannot_match))
  unfolding match_command match_variable
  words-run_length c cs eof = (
    ground (arith, word_rest-run_length command (not (c == 58)) 0 cs eof),
    ground (arith, word_rest-run_length variable false 0 cs eof),
  )

  word_stable :
      (t : CommandToken) (alone : Bool) (len : ℕ) (cs more : List ℕ) (eof : Bool)
      → word_rest is_alphabetic t alone len cs false ≢ lookahead_is_prefix
      → word_rest is_alphabetic t alone len (cs ++ more) eof
        ≡ word_rest is_alphabetic t alone len cs false
  unfolding word_rest
  word_stable t alone len [] more eof decided = absurd (decided refl)
  word_stable t alone len (c ∷ cs) more eof decided =
      ground (arith, word_stable t alone (len + 1) cs more eof)

comment_stable :
    (len : ℕ) (cs more : List ℕ) (eof : Bool)
    → comment_rest len cs false ≢ lookahead_is_prefix
    → comment_rest len (cs ++ more) eof ≡ comment_rest len cs false
unfolding comment_rest
comment_stable len [] more eof decided = absurd (decided refl)
comment_stable len (c ∷ cs) more eof decided = ground (arith, comment_stable (len + 1) cs more eof)

-- The matchers of commands, variables and comments keep what they say of a lookahead that is not empty,
-- unless they say that it is a prefix: with more characters, at the end of the file or not, they say the
-- same.
pub command_matchers_stable :
    (is_alphabetic : ℕ → Bool) (c : ℕ) (cs more : List ℕ) (eof : Bool)
    → (match_command is_alphabetic (c ∷ cs) false ≢ lookahead_is_prefix
        → match_command is_alphabetic (c ∷ cs ++ more) eof
          ≡ match_command is_alphabetic (c ∷ cs) false)
      × (match_variable is_alphabetic (c ∷ cs) false ≢ lookahead_is_prefix
          → match_variable is_alphabetic (c ∷ cs ++ more) eof
            ≡ match_variable is_alphabetic (c ∷ cs) false)
      × (match_command_comment (c ∷ cs) false ≢ lookahead_is_prefix
          → match_command_comment (c ∷ cs ++ more) eof ≡ match_command_comment (c ∷ cs) false)
unfolding match_command match_variable match_command_comment
command_matchers_stable is_alphabetic c cs more eof = (
  λ d. ground (arith, word_stable is_alphabetic command (not (c == 58)) 1 cs more eof),
  λ d. ground (arith, word_stable is_alphabetic variable false 1 cs more eof),
  comments cs,
)
  where
    one :
        (ds : List ℕ)
        → match_command_comment (c ∷ []) false ≢ lookahead_is_prefix
        → match_command_comment (c ∷ ds) eof ≡ match_command_comment (c ∷ []) false
    one [] h = ground arith
    one (d ∷ ds) h = ground arith

    comments :
        (ds : List ℕ)
        → match_command_comment (c ∷ ds) false ≢ lookahead_is_prefix
        → match_command_comment (c ∷ ds ++ more) eof ≡ match_command_comment (c ∷ ds) false
    comments [] h = one more h
    comments (d ∷ ds) h = ground (arith, comment_stable 2 ds more eof)
