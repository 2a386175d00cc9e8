-- ===== src/Scheduler/Lists.antt =====
-- The vectors and queues of the scheduler: what is in them after a change.
use flo_scene.Common.{
  ℕ, zero, suc, ◌+◌, true, List, [], ◌∷◌, ◌++◌, Option, none, some, ◌≡◌, ◌≢◌, refl, arith, drop, ap,
  ◌==◌,
}
use flo_scene.Scene.Slots.Lists.{set, skip_full, slot_at, placed}
use flo_scene.Scheduler.{contains, push_missing}
use flo_scene.Scheduler.Steals.{without}

module _ {ℓ} {A : Type ℓ} where
  pub slot_at-set_ne :
      (xs : List (Option A)) (h j : ℕ) (v : Option A)
      → j ≢ h
      → slot_at (set xs h v) j ≡ slot_at xs j
  slot_at-set_ne [] h j v n = refl
  slot_at-set_ne (x ∷ xs) zero zero v n = absurd (n refl)
  slot_at-set_ne (x ∷ xs) zero (suc j) v n = refl
  slot_at-set_ne (x ∷ xs) (suc h) zero v n = refl
  slot_at-set_ne (x ∷ xs) (suc h) (suc j) v n = slot_at-set_ne xs h j v (λ e. n (ap suc e))

  pub slot_at-set_self :
      (xs : List (Option A)) (h : ℕ) (a : A) (v : Option A)
      → slot_at xs h ≡ some a
      → slot_at (set xs h v) h ≡ v
  slot_at-set_self [] h a v e = cc
  slot_at-set_self (x ∷ xs) zero a v e = refl
  slot_at-set_self (x ∷ xs) (suc h) a v e = slot_at-set_self xs h a v e

  pub skip_full-set :
      (xs : List (Option A)) (h : ℕ) (a b : A)
      → slot_at xs h ≡ some a
      → skip_full (set xs h (some b)) ≡ skip_full xs
  skip_full-set [] h a b e = refl
  skip_full-set (none ∷ xs) zero a b e = cc
  skip_full-set (some x ∷ xs) zero a b e = refl
  skip_full-set (none ∷ xs) (suc h) a b e = refl
  skip_full-set (some x ∷ xs) (suc h) a b e = ap suc (skip_full-set xs h a b e)

  -- The scan from behind the slot just filled finds the first free slot.
  pub skip_full-placed-suc :
      (xs : List (Option A)) (a : A)
      → suc (skip_full xs) + skip_full (drop (suc (skip_full xs)) (placed xs a))
        ≡ skip_full (placed xs a)
  skip_full-placed-suc [] a = refl
  skip_full-placed-suc (none ∷ xs) a = omega arith
  skip_full-placed-suc (some x ∷ xs) a = omega (arith, skip_full-placed-suc xs a)

pub ==_self : (p : ℕ) → (p == p) ≡ true
==_self p = ground arith

pub contains-append :
    (p q : ℕ) (qs : List ℕ) → contains p qs ≡ true → contains p (qs ++ q ∷ []) ≡ true
contains-append p q [] h = cc
contains-append p q (x ∷ qs) h = ground (arith, contains-append p q qs)

pub contains-append_self : (p : ℕ) (qs : List ℕ) → contains p (qs ++ p ∷ []) ≡ true
contains-append_self p [] = ground arith
contains-append_self p (x ∷ qs) = ground (arith, contains-append_self p qs)

pub contains-push_missing :
    (p q : ℕ) (qs : List ℕ) → contains p qs ≡ true → contains p (push_missing q qs) ≡ true
contains-push_missing p q qs h = ground (arith, contains-append p q qs)

pub contains-push_missing_self : (p : ℕ) (qs : List ℕ) → contains p (push_missing p qs) ≡ true
contains-push_missing_self p qs = ground (arith, contains-append_self p qs)

pub contains-without :
    (p q : ℕ) (qs : List ℕ) → p ≢ q → contains p qs ≡ true → contains p (without q qs) ≡ true
contains-without p q [] n h = cc
contains-without p q (x ∷ qs) n h = ground (arith, contains-without p q qs n)
