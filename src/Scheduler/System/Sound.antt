-- ===== src/Scheduler/System/Sound.antt =====
-- scene/src/scene_core.rs: two shapes that the calls on the scheduler have, with the conditions under
-- which one that has it leaves the scheduler in order.
use flo_scene.Common.{ℕ, true, false, Option, ◌≡◌, ◌≢◌, ◌⊎◌, inl, refl, sym, ◌∙◌, arith, ap}
use flo_scene.Scene.Slots.Lists.{slot_at, skip_full}
use flo_scene.Scheduler.{SceneProcess, Scheduler, contains}
use flo_scene.Scheduler.Turned.{is_ready}
use flo_scene.Scheduler.System.{Activity, nothing, runs, steals, rewakes, System, update}
use flo_scene.Scheduler.System.Local.{
  is_polled, holds, is_rewaking, process_at, is_queued, IsSound, Change, quiet, IsLocal-IsSound,
}

-- The activity is about process `p`, or about none.
pub data About (p : ℕ) : Activity → Type 0 where
  about_nothing : About p nothing
  about_run : (f : ℕ) → About p (runs p f)
  about_steal : (f : ℕ) → About p (steals p f)
  about_wake : About p (rewakes p)

holds_other : (p j : ℕ) (a : Activity) → About p a → j ≢ p → holds j a ≡ false
holds_other p j _ about_nothing n = refl
holds_other p j _ (about_run f) n = ground arith
holds_other p j _ (about_steal f) n = ground arith
holds_other p j _ about_wake n = refl

rewakes_other : (p j : ℕ) (a : Activity) → About p a → j ≢ p → is_rewaking j a ≡ false
rewakes_other p j _ about_nothing n = refl
rewakes_other p j _ (about_run f) n = refl
rewakes_other p j _ (about_steal f) n = refl
rewakes_other p j _ about_wake n = ground arith

pub update_self : (doing : ℕ → Activity) (k : ℕ) (a : Activity) → update doing k a k ≡ a
update_self doing k a = ground arith

update_other :
    (doing : ℕ → Activity) (k : ℕ) (a : Activity) (i : ℕ) → i ≢ k → update doing k a i ≡ doing i
update_other doing k a i n = ground arith

-- A call that changes process `p` from `x` to `y`.
pub record Changes (s : System) (c : Scheduler) (p : ℕ) (x y : Option SceneProcess) : Type 0 where
  pub before : process_at s p ≡ x
  pub after : slot_at c.processes p ≡ y
  pub next_first : c.next_process ≡ skip_full c.processes
  pub others_same : (j : ℕ) → j ≢ p → slot_at c.processes j ≡ process_at s j
  pub others_queued : (j : ℕ) → j ≢ p → is_queued s j ≡ true → contains j c.awake_processes ≡ true

module _ (s : System) (c : Scheduler) (p : ℕ) (x y : Option SceneProcess) (v : IsSound s)
    (ch : Changes s c p x y) where
  -- No activity is changed.
  pub still-IsSound :
      is_polled y ≡ is_polled x
      → (is_ready y ≡ true → contains p c.awake_processes ≡ true)
      → IsSound (record s { core = c })
  still-IsSound same queued =
      IsLocal-IsSound s (record s { core = c }) p 0 v
        (record {
          next_first = ch.next_first;
          others_same = ch.others_same;
          others_queued = ch.others_queued;
          doing_same = λ i n. refl;
          others_held = λ j n. refl;
          others_rewoken = λ j n h. h;
          change = quiet (ap is_polled ch.after ∙ (same ∙ sym (ap is_polled ch.before))) refl;
          ready = λ h. inl (queued (sym (ap is_ready ch.after) ∙ h));
        })

  -- Activity `k` goes from `a` to `b`.
  pub swap-IsSound :
      (k : ℕ) (a b : Activity)
      → s.doing k ≡ a
      → About p a
      → About p b
      → Change (is_polled x) (is_polled y) (holds p a) (holds p b)
      → (is_ready y ≡ true → (contains p c.awake_processes ≡ true) ⊎ (is_rewaking p b ≡ true))
      → IsSound (record { core = c; doing = update s.doing k b })
  swap-IsSound k a b was about_a about_b change ready =
      IsLocal-IsSound s (record { core = c; doing = update s.doing k b }) p k v
        (record {
          next_first = ch.next_first;
          others_same = ch.others_same;
          others_queued = ch.others_queued;
          doing_same = λ i n. update_other s.doing k b i n;
          others_held = λ j n.
              rw (update_self s.doing k b, was)
                (holds_other p j b about_b n ∙ sym (holds_other p j a about_a n));
          others_rewoken = λ j n h. absurd (cc (rw was at h, rewakes_other p j a about_a n));
          change = rw (update_self s.doing k b, was, ch.before, ch.after) change;
          ready = λ h. rw (update_self s.doing k b) (ready (rw ch.after at h));
        })
