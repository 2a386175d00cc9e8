-- ===== src/Pipe/Tokenizer/Longest.antt =====
-- pipe/src/tokenizer.rs: which of several matches `match_token` takes.
use flo_scene.Common.{
  ℕ, ◌≤◌, ◌<◌, List, [], ◌∷◌, ◌++◌, none, some, ◌≡◌, refl, ap, subst, sym, arith, ltb, inl, inr,
  ◌⊎◌, Bool-cases,
}
use flo_scene.Pipe.Tokenizer.{longest}

module _ {ℓ} {T : Type ℓ} where
  -- Every match of the list is as long as `n` at most, or is shorter than `n`.
  abbrev pub AtMost : ℕ → List (T × ℕ) → Type 0
  AtMost n [] = Unit
  AtMost n (m ∷ ms) = (m.1 ≤ n) × AtMost n ms

  abbrev pub Below : ℕ → List (T × ℕ) → Type 0
  Below n [] = Unit
  Below n (m ∷ ms) = (m.1 < n) × Below n ms

  AtMost-Below :
      (n k : ℕ) (before after : List (T × ℕ)) (m : T × ℕ)
      → n < k
      → m.1 ≤ n
      → AtMost n before
      → Below n after
      → Below k (before ++ m ∷ after)
  AtMost-Below n k [] [] m lt here atmost below = (omega arith, tt)
  AtMost-Below n k [] (x ∷ after) m lt here atmost below =
      (omega arith, AtMost-Below n k [] after x lt (omega (arith, below.0)) tt below.1)
  AtMost-Below n k (x ∷ before) after m lt here atmost below =
      (omega (arith, atmost.0), AtMost-Below n k before after m lt here atmost.1 below)

  abbrev pub IsLongest : List (T × ℕ) → T × ℕ → Type ℓ
  IsLongest ms best =
      (before : List (T × ℕ)) × (after : List (T × ℕ)) × (ms ≡ before ++ best ∷ after)
      × AtMost best.1 before
      × Below best.1 after

  -- If there is a match, `match_token` takes the last one of the longest: every match before it in
  -- the order of the matches is at most as long, and every one after it is shorter.
  pub longest_cases :
      (ms : List (T × ℕ))
      → ((ms ≡ []) × (longest ms ≡ none))
        ⊎ ((best : T × ℕ) × (longest ms ≡ some best) × IsLongest ms best)
  unfolding longest
  longest_cases [] = inl (refl, refl)
  longest_cases (m ∷ ms) = elim (longest_cases ms) [
    | inl (nothing, e) ↦ inr (m, rw (e, longest) refl, ([], [], ap (λ xs. m ∷ xs) nothing, tt, tt))
    | inr (best, e, (before, after, is, atmost, below)) ↦ elim (Bool-cases (ltb best.1 m.1)) [
      | inl longer ↦
          let below_m : Below m.1 (before ++ best ∷ after) =
            AtMost-Below best.1 m.1 before after best (ground arith) (omega arith) atmost below in
          inr (
            m,
            rw (e, longest) (rw longer refl),
            ([], ms, refl, tt, subst (Below m.1) (sym is) below_m),
          )
      | inr shorter ↦ inr (
        best,
        rw (e, longest) (rw shorter refl),
        (m ∷ before, after, ap (λ xs. m ∷ xs) is, (ground arith, atmost), below),
      )
    ]
  ]
