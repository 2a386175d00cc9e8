-- ===== src/Pipe/Commands/Ahead.antt =====
-- pipe/src/commands/parse_command.rs: what a look ahead gives, by the parser's stack and lookahead as two
-- lists.
use flo_scene.Common.{
  ℕ, suc, ◌-◌, List, [], ◌∷◌, ◌++◌, Option, none, some, ◌≡◌, refl, ap, arith, length, get_elem?,
}
use flo_scene.Pipe.Commands.Steps.{
  CommandMatch, CommandParser, CommandStack, fill, look_ahead, command_read_token,
}

module _ {N : Type 0} where
  abbrev pub state : CommandStack N → List CommandMatch → CommandParser N
  state st l = record { stack = st; lookahead = l }

  -- What a look ahead that reads a token gives, from what the reader gives.
  abbrev pub first_read :
      CommandStack N
      → Option CommandMatch × List CommandMatch
      → Option CommandMatch × List CommandMatch × CommandParser N
  first_read st (none, us) = (none, us, state st [])
  first_read st (some t, us) = (some t, us, state st (t ∷ []))

  abbrev pub second_read :
      CommandStack N
      → CommandMatch
      → Option CommandMatch × List CommandMatch
      → Option CommandMatch × List CommandMatch × CommandParser N
  second_read st t (none, us) = (none, us, state st (t ∷ []))
  second_read st t (some u, us) = (some u, us, state st (t ∷ u ∷ []))

  abbrev looked :
      ℕ
      → List CommandMatch × CommandParser N
      → Option CommandMatch × List CommandMatch × CommandParser N
  looked distance r = (get_elem? r.1.lookahead distance, r.0, r.1)

  pub look_ahead-read :
      (ts : List CommandMatch) (st : CommandStack N)
      → look_ahead 0 ts (state st []) ≡ first_read st (command_read_token ts)
  unfolding look_ahead
  look_ahead-read ts st = on_read (command_read_token ts)
    where
      on_read :
          (r : Option CommandMatch × List CommandMatch)
          → looked 0 (elim r.0 [
            | none ↦ (r.1, state st [])
            | some u ↦
                fill 0 r.1 (record (state st []) { lookahead = (state st []).lookahead ++ u ∷ [] })
          ])
            ≡ first_read st r
      on_read (none, us) = refl
      on_read (some u, us) = refl

  pub look_ahead-seen :
      (ts : List CommandMatch) (st : CommandStack N) (t : CommandMatch) (l : List CommandMatch)
      → look_ahead 0 ts (state st (t ∷ l)) ≡ (some t, ts, state st (t ∷ l))
  unfolding look_ahead
  look_ahead-seen ts st t l =
      let none_missing : 1 - suc (length l) ≡ 0 = omega arith in
      ap (λ k. looked 0 (fill k ts (state st (t ∷ l)))) none_missing

  pub look_second-read :
      (ts : List CommandMatch) (st : CommandStack N) (t : CommandMatch)
      → look_ahead 1 ts (state st (t ∷ [])) ≡ second_read st t (command_read_token ts)
  unfolding look_ahead
  look_second-read ts st t = on_read (command_read_token ts)
    where
      on_read :
          (r : Option CommandMatch × List CommandMatch)
          → looked 1 (elim r.0 [
            | none ↦ (r.1, state st (t ∷ []))
            | some u ↦
                fill 0 r.1 (record (state st (t ∷ [])) {
                  lookahead = (state st (t ∷ [])).lookahead ++ u ∷ [];
                })
          ])
            ≡ second_read st t r
      on_read (none, us) = refl
      on_read (some u, us) = refl

  pub look_second-seen :
      (ts : List CommandMatch) (st : CommandStack N) (t u : CommandMatch) (l : List CommandMatch)
      → look_ahead 1 ts (state st (t ∷ u ∷ l)) ≡ (some u, ts, state st (t ∷ u ∷ l))
  unfolding look_ahead
  look_second-seen ts st t u l =
      let none_missing : 2 - suc (suc (length l)) ≡ 0 = omega arith in
      ap (λ k. looked 1 (fill k ts (state st (t ∷ u ∷ l)))) none_missing
