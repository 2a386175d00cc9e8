-- ===== src/Input/Run.antt =====
-- scene/src/input_stream.rs: histories of calls on one input stream, with a log of its messages.
pub mod Fifo
pub mod Bounds
pub mod Wakes
pub mod Guards
use mathlib.Core.Option.{some-injective}
use flo_scene.Common.{
  ℕ, Bool, List, [], ◌∷◌, ◌++◌, Option, none, some, ◌≡◌, subst, inl, inr, Option-cases,
}
use flo_scene.SubProgram.{SubProgramId}
use flo_scene.Input.Core.{
  Waker, InputStreamCore, SendResult, sent, refused, block, unblock, set_thread_stealing, send,
  send_with_overfill, wake_when_slots_available, close, wait_for_idle, idle_received,
}
use flo_scene.Input.Stream.{
  Poll, ready, pending, poll_next_with_sources, drop_stream, drop_stream_with_sources,
}

pub data Call {ℓ} (M : Type ℓ) : Type ℓ where
  sends : SubProgramId → M → Call M
  overfills : SubProgramId → M → Call M
  registers : Waker → Call M
  polls : Waker → Call M
  closes blocks unblocks idle_receives drops drops_with_sources : Call M
  waits_for_idle : ℕ → Call M
  steals : Bool → Call M

-- The core with the messages that were taken, handed to the owner, and thrown away so far.
pub record History {ℓ} (M : Type ℓ) : Type ℓ where
  pub core : InputStreamCore M
  pub accepted : List (SubProgramId × M)
  pub delivered : List (SubProgramId × M)
  pub discarded : List (SubProgramId × M)

module _ {ℓ} {M : Type ℓ} where
  abbrev pub start : InputStreamCore M → History M
  start c = record { core = c; accepted = []; delivered = []; discarded = [] }

  abbrev pub after_send : SubProgramId → M → History M → SendResult M → History M
  after_send source message h (sent c w) = record h {
    core = c;
    accepted = h.accepted ++ (source, message) ∷ [];
  }
  after_send source message h (refused c m) = record h { core = c }

  abbrev pub handed : Poll (Option (SubProgramId × M)) → List (SubProgramId × M)
  handed (ready (some m)) = m ∷ []
  handed (ready none) = []
  handed pending = []

  abbrev pub with_core : History M → Option (InputStreamCore M) → Option (History M)
  with_core h none = none
  with_core h (some c) = some (record h { core = c })

  abbrev pub with_core_of : History M → Option (InputStreamCore M × List Waker) → Option (History M)
  with_core_of h none = none
  with_core_of h (some (c, ws)) = some (record h { core = c })

  -- `none` is a panic: one of the two guards' counters would fall below 0.
  unfoldable pub step : Call M → History M → Option (History M)
  step (sends s m) h = some (after_send s m h (send s m h.core))
  step (overfills s m) h = some (after_send s m h (send_with_overfill s m h.core))
  step (registers w) h = some (record h { core = wake_when_slots_available w h.core })
  step (polls w) h =
      let p = poll_next_with_sources w h.core in
      some (record h { core = p.core; delivered = h.delivered ++ handed p.result })
  step closes h = some (record h { core = (close h.core).0 })
  step blocks h = some (record h { core = block h.core })
  step unblocks h = with_core_of h (unblock h.core)
  step idle_receives h = with_core h (idle_received h.core)
  step drops h = some (record h {
    core = (drop_stream h.core).0;
    discarded = h.discarded ++ h.core.waiting_messages;
  })
  step drops_with_sources h = some (record h { core = drop_stream_with_sources h.core })
  step (waits_for_idle n) h = some (record h { core = (wait_for_idle n h.core).0 })
  step (steals b) h = some (record h { core = set_thread_stealing b h.core })

  unfoldable pub run : List (Call M) → History M → Option (History M)
  run [] h = some h
  run (c ∷ cs) h = elim (step c h) [ none ↦ none | some h' ↦ run cs h' ]

  run-cons :
      (c : Call M) (cs : List (Call M)) (h : History M) {h' : History M}
      → run (c ∷ cs) h ≡ some h'
      → (k : History M) × (step c h ≡ some k) × (run cs k ≡ some h')
  unfolding run
  run-cons c cs h e = elim (Option-cases (step c h)) [
    | inl stuck ↦ absurd (cc (rw (stuck, run) at e))
    | inr (k, to) ↦ (k, to, rw (to, run) at e)
  ]

-- Every call of the list is of the kind `K`.
abbrev pub AllCalls {ℓ κ} : {M : Type ℓ} → (Call M → Type κ) → List (Call M) → Type κ
AllCalls K [] = Unit
AllCalls K (c ∷ cs) = K c × AllCalls K cs

-- What each call of a kind keeps holds after a history of such calls.
pub run_inv {ℓ κ μ} :
    {M : Type ℓ} (K : Call M → Type μ) (P : History M → Type κ)
    → ((c : Call M) (h h' : History M) → K c → P h → step c h ≡ some h' → P h')
    → (cs : List (Call M)) (h : History M) {h' : History M} → AllCalls K cs
    → P h
    → run cs h ≡ some h'
    → P h'
unfolding run
run_inv K P keep [] h k p e = subst P (some-injective _ _ e) p
run_inv K P keep (c ∷ cs) h k p e =
    let (h₁, to, later) = run-cons c cs h e in
    run_inv K P keep cs h₁ k.1 (keep c h h₁ k.0 p to) later

pub any_calls {ℓ} : {M : Type ℓ} (cs : List (Call M)) → AllCalls (λ _. Unit {0}) cs
any_calls [] = tt
any_calls (c ∷ cs) = (tt, any_calls cs)
