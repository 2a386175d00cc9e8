-- ===== src/Scene/Slots/Lists.antt =====
-- Vectors of optional entries, as the scene keeps its programs in.
use flo_scene.Common.{
  ℕ, zero, suc, ◌+◌, ◌<◌, min, Bool, true, false, List, [], ◌∷◌, Option, none, some, ◌≡◌, ◌≢◌, refl,
  arith, length, drop, ap,
}

module _ {ℓ} {A : Type ℓ} where
  -- `vec[i] = v`
  abbrev pub set : List A → ℕ → A → List A
  set [] i v = []
  set (x ∷ xs) zero v = v ∷ xs
  set (x ∷ xs) (suc i) v = x ∷ set xs i v

module _ {ℓ} {A : Type ℓ} where
  -- `while vec.len() <= handle { vec.push(None) }`
  abbrev pub grow : ℕ → List (Option A) → List (Option A)
  grow zero [] = none ∷ []
  grow zero (x ∷ xs) = x ∷ xs
  grow (suc h) [] = none ∷ grow h []
  grow (suc h) (x ∷ xs) = x ∷ grow h xs

  abbrev pub is_full : Option A → Bool
  is_full none = false
  is_full (some a) = true

  -- How many entries at the front are occupied.
  abbrev pub skip_full : List (Option A) → ℕ
  skip_full [] = 0
  skip_full (none ∷ xs) = 0
  skip_full (some a ∷ xs) = suc (skip_full xs)

  -- `vec.get(handle)`, flattened.
  abbrev pub slot_at : List (Option A) → ℕ → Option A
  slot_at [] h = none
  slot_at (x ∷ xs) zero = x
  slot_at (x ∷ xs) (suc h) = slot_at xs h

  -- Placing an entry in the first free slot.
  abbrev pub placed : List (Option A) → A → List (Option A)
  placed xs a = set (grow (skip_full xs) xs) (skip_full xs) (some a)

  pub slot_at-placed_self :
      (xs : List (Option A)) (a : A) → slot_at (placed xs a) (skip_full xs) ≡ some a
  slot_at-placed_self [] a = refl
  slot_at-placed_self (none ∷ xs) a = refl
  slot_at-placed_self (some x ∷ xs) a = slot_at-placed_self xs a

  pub slot_at-placed_ne :
      (xs : List (Option A)) (a : A) (h : ℕ)
      → h ≢ skip_full xs
      → slot_at (placed xs a) h ≡ slot_at xs h
  slot_at-placed_ne [] a zero n = absurd (n refl)
  slot_at-placed_ne [] a (suc h) n = refl
  slot_at-placed_ne (none ∷ xs) a zero n = absurd (n refl)
  slot_at-placed_ne (none ∷ xs) a (suc h) n = refl
  slot_at-placed_ne (some x ∷ xs) a zero n = refl
  slot_at-placed_ne (some x ∷ xs) a (suc h) n = slot_at-placed_ne xs a h (λ e. n (ap suc e))

  pub slot_at-skip_full : (xs : List (Option A)) → slot_at xs (skip_full xs) ≡ none
  slot_at-skip_full [] = refl
  slot_at-skip_full (none ∷ xs) = refl
  slot_at-skip_full (some x ∷ xs) = slot_at-skip_full xs

  -- The scan from the slot just filled finds the first free slot.
  pub skip_full-placed :
      (xs : List (Option A)) (a : A)
      → skip_full xs + skip_full (drop (skip_full xs) (placed xs a)) ≡ skip_full (placed xs a)
  skip_full-placed [] a = omega arith
  skip_full-placed (none ∷ xs) a = omega arith
  skip_full-placed (some x ∷ xs) a = omega (arith, skip_full-placed xs a)

  pub slot_at-clear :
      (xs : List (Option A)) (h j : ℕ) → j ≢ h → slot_at (set xs h none) j ≡ slot_at xs j
  slot_at-clear [] h j n = refl
  slot_at-clear (x ∷ xs) zero zero n = absurd (n refl)
  slot_at-clear (x ∷ xs) zero (suc j) n = refl
  slot_at-clear (x ∷ xs) (suc h) zero n = refl
  slot_at-clear (x ∷ xs) (suc h) (suc j) n = slot_at-clear xs h j (λ e. n (ap suc e))

  pub slot_at-clear_self : (xs : List (Option A)) (h : ℕ) → slot_at (set xs h none) h ≡ none
  slot_at-clear_self [] h = refl
  slot_at-clear_self (x ∷ xs) zero = refl
  slot_at-clear_self (x ∷ xs) (suc h) = slot_at-clear_self xs h

  pub skip_full-clear :
      (xs : List (Option A)) (h : ℕ)
      → h < length xs
      → skip_full (set xs h none) ≡ min (skip_full xs) h
  skip_full-clear [] h l = absurd (omega arith)
  skip_full-clear (none ∷ xs) zero l = omega arith
  skip_full-clear (some x ∷ xs) zero l = omega arith
  skip_full-clear (none ∷ xs) (suc h) l = omega arith
  skip_full-clear (some x ∷ xs) (suc h) l = omega (arith, skip_full-clear xs h (omega arith))

  pub slot_at-lt : (xs : List (Option A)) (h : ℕ) {a : A} → slot_at xs h ≡ some a → h < length xs
  slot_at-lt [] h e = cc
  slot_at-lt (x ∷ xs) zero e = omega arith
  slot_at-lt (x ∷ xs) (suc h) e = omega (arith, slot_at-lt xs h e)

-- A vector of what is read off another, slot by slot.
module _ {ℓ κ} {A : Type ℓ} {B : Type κ} (f : A → B) where
  abbrev pub slot_map : Option A → Option B
  slot_map none = none
  slot_map (some a) = some (f a)

  abbrev pub slots_map : List (Option A) → List (Option B)
  slots_map [] = []
  slots_map (x ∷ xs) = slot_map x ∷ slots_map xs

  pub skip_full-slots_map : (xs : List (Option A)) → skip_full (slots_map xs) ≡ skip_full xs
  skip_full-slots_map [] = refl
  skip_full-slots_map (none ∷ xs) = refl
  skip_full-slots_map (some x ∷ xs) = ap suc (skip_full-slots_map xs)

  pub slot_at-slots_map :
      (xs : List (Option A)) (h : ℕ) → slot_at (slots_map xs) h ≡ slot_map (slot_at xs h)
  slot_at-slots_map [] h = refl
  slot_at-slots_map (x ∷ xs) zero = refl
  slot_at-slots_map (x ∷ xs) (suc h) = slot_at-slots_map xs h

  pub placed-slots_map :
      (xs : List (Option A)) (a : A) → placed (slots_map xs) (f a) ≡ slots_map (placed xs a)
  placed-slots_map [] a = refl
  placed-slots_map (none ∷ xs) a = refl
  placed-slots_map (some x ∷ xs) a = ap (◌∷◌ (some (f x))) (placed-slots_map xs a)

  pub clear-slots_map :
      (xs : List (Option A)) (h : ℕ) → set (slots_map xs) h none ≡ slots_map (set xs h none)
  clear-slots_map [] h = refl
  clear-slots_map (x ∷ xs) zero = refl
  clear-slots_map (x ∷ xs) (suc h) = ap (◌∷◌ (slot_map x)) (clear-slots_map xs h)
