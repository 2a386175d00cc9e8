-- ===== src/Scheduler/Idle/Notices.antt =====
-- scene/src/scene_core.rs: idle notices, with the checks of several threads and requests for notices in
-- any order.
use flo_scene.Common.{
  ℕ, suc, ◌+◌, ◌≤◌, Bool, true, false, List, [], ◌∷◌, Option, none, some, ◌≡◌, refl, arith,
}
use flo_scene.Scheduler.Idle.{
  Idle, notify_on_next_idle, begin_check, claim_notice, send_idle_notifications_to,
}

pub data IdleCall : Type 0 where
  requests begins : IdleCall
  claims listens : ℕ → IdleCall

abbrev pub or_unchanged : Idle → Option Idle → Idle
or_unchanged i none = i
or_unchanged i (some j) = j

abbrev pub or_unbegun : Idle → Option (Idle × ℕ) → Idle
or_unbegun i none = i
or_unbegun i (some (j, n)) = j

unfoldable pub idle_step : IdleCall → Idle → Idle
unfolding notify_on_next_idle begin_check claim_notice send_idle_notifications_to
idle_step requests i = (notify_on_next_idle i).0
idle_step begins i = or_unbegun i (begin_check i)
idle_step (claims n) i = or_unchanged i (claim_notice n i)
idle_step (listens n) i = send_idle_notifications_to n i

unfoldable pub idle_run : List IdleCall → Idle → Idle
unfolding idle_step
idle_run [] i = i
idle_run (c ∷ cs) i = idle_run cs (idle_step c i)

abbrev pub one_if : Bool → ℕ
one_if true = 1
one_if false = 0

abbrev pub is_there {ℓ} : {A : Type ℓ} → Option A → Bool
is_there none = false
is_there (some a) = true

-- The requests, and the checks that begin.
abbrev pub asks : IdleCall → Idle → ℕ
asks requests i = 1
asks begins i = one_if i.notify_when_idle
asks _ i = 0

abbrev pub notice : IdleCall → Idle → ℕ
notice (claims n) i = one_if (is_there (claim_notice n i))
notice _ i = 0

abbrev pub all_asks : List IdleCall → Idle → ℕ
all_asks [] i = 0
all_asks (c ∷ cs) i = asks c i + all_asks cs (idle_step c i)

abbrev pub notices : List IdleCall → Idle → ℕ
notices [] i = 0
notices (c ∷ cs) i = notice c i + notices cs (idle_step c i)

abbrev pub num_requests : List IdleCall → ℕ
num_requests [] = 0
num_requests (requests ∷ cs) = suc (num_requests cs)
num_requests (c ∷ cs) = num_requests cs

step_count : (c : IdleCall) (i : Idle) → (idle_step c i).idle_count ≡ i.idle_count + asks c i
unfolding idle_step notify_on_next_idle begin_check claim_notice send_idle_notifications_to
step_count requests i = refl
step_count begins i = ground arith
step_count (claims n) i = ground arith
step_count (listens n) i = ground arith

run_count :
    (cs : List IdleCall) (i : Idle) → (idle_run cs i).idle_count ≡ i.idle_count + all_asks cs i
unfolding idle_run
run_count [] i = omega arith
run_count (c ∷ cs) i = omega (arith, run_count cs (idle_step c i), step_count c i)

-- A notice takes the flag, which only a request sets.
step_flag :
    (c : IdleCall) (i : Idle)
    → notice c i + one_if (idle_step c i).notify_when_idle
      ≤ num_requests (c ∷ []) + one_if i.notify_when_idle
unfolding idle_step notify_on_next_idle begin_check claim_notice send_idle_notifications_to
step_flag requests i = ground arith
step_flag begins i = ground arith
step_flag (claims n) i = ground arith
step_flag (listens n) i = ground arith

-- However the calls of the threads interleave, there are never more notices than requests for them,
-- one that was asked for before counted in.
pub notices-le :
    (cs : List IdleCall) (i : Idle)
    → notices cs i + one_if (idle_run cs i).notify_when_idle
      ≤ num_requests cs + one_if i.notify_when_idle
unfolding idle_run
notices-le [] i = omega arith
notices-le (requests ∷ cs) i =
    omega (arith, notices-le cs (idle_step requests i), step_flag requests i)
notices-le (begins ∷ cs) i = omega (arith, notices-le cs (idle_step begins i), step_flag begins i)
notices-le (claims n ∷ cs) i =
    omega (arith, notices-le cs (idle_step (claims n) i), step_flag (claims n) i)
notices-le (listens n ∷ cs) i =
    omega (arith, notices-le cs (idle_step (listens n) i), step_flag (listens n) i)

requests-le : (cs : List IdleCall) (i : Idle) → num_requests cs ≤ all_asks cs i
requests-le [] i = omega arith
requests-le (requests ∷ cs) i = omega (arith, requests-le cs (idle_step requests i))
requests-le (begins ∷ cs) i = omega (arith, requests-le cs (idle_step begins i))
requests-le (claims n ∷ cs) i = omega (arith, requests-le cs (idle_step (claims n) i))
requests-le (listens n ∷ cs) i = omega (arith, requests-le cs (idle_step (listens n) i))

claimed_now :
    (n : ℕ) (i k : Idle)
    → claim_notice n i ≡ some k
    → (i.idle_count ≡ n) × (one_if i.notify_when_idle ≡ 1)
unfolding claim_notice
claimed_now n i k e = ground arith

begun :
    (i j : Idle) (n : ℕ)
    → begin_check i ≡ some (j, n)
    → (j.idle_count ≡ n) × (one_if j.notify_when_idle ≡ 1)
unfolding begin_check
begun i j n e = ground arith

-- A check that takes the notice at its end, with the calls `cs` of other threads since it began: none
-- of them asked for a notice, none began another check, and none took a notice.
pub notice_is_fresh :
    (cs : List IdleCall) (i j k : Idle) (n : ℕ)
    → begin_check i ≡ some (j, n)
    → claim_notice n (idle_run cs j) ≡ some k
    → (all_asks cs j ≡ 0) × (notices cs j ≡ 0)
notice_is_fresh cs i j k n start taken =
    let (from, flag) = begun i j n start in
    let (upto, flag') = claimed_now n (idle_run cs j) k taken in
    (
      omega (arith, run_count cs j, from, upto),
      omega (arith, run_count cs j, from, upto, notices-le cs j, requests-le cs j, flag, flag'),
    )
