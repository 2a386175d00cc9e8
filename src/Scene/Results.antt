-- ===== src/Scene/Results.antt =====
-- scene/src/scene_core.rs: results of connecting, and what holds of them if there is no error.
use flo_scene.Common.{Option, Bool, true, false, ◌≡◌, refl, if◌then◌else◌}
use flo_scene.Scene.Types.{ConnectionError, Result, ok, err, ◌>>=◌, ok_or}

-- What holds of a result if there is one.
abbrev pub Ensures {ℓ κ} : {A : Type ℓ} → (A → Type κ) → Result A → Type κ
Ensures P (ok a) = P a
Ensures P (err e) = Unit

pub Ensures-bind {ℓ κ μ ν} :
    {A : Type ℓ} {B : Type κ} (Q : A → Type μ) (P : B → Type ν) (m : Result A) (f : A → Result B)
    → Ensures Q m
    → ((a : A) → Q a → Ensures P (f a))
    → Ensures P (m >>= f)
Ensures-bind Q P (ok a) f q h = h a q
Ensures-bind Q P (err e) f q h = tt

pub Ensures-any {ℓ} : {A : Type ℓ} (m : Result A) → Ensures (λ _. Unit {0}) m
Ensures-any (ok a) = tt
Ensures-any (err e) = tt

pub Ensures-ok_or {ℓ} :
    {A : Type ℓ} (o : Option A) (e : ConnectionError) → Ensures (λ a. o ≡ Option.some a) (ok_or o e)
Ensures-ok_or Option.none e = tt
Ensures-ok_or (Option.some a) e = refl

pub Ensures-if {ℓ κ} :
    {A : Type ℓ} (P : A → Type κ) (b : Bool) (x y : Result A)
    → (b ≡ true → Ensures P x)
    → (b ≡ false → Ensures P y)
    → Ensures P (if b then x else y)
Ensures-if P true x y hx hy = hx refl
Ensures-if P false x y hx hy = hy refl
