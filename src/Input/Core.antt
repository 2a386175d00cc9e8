-- ===== src/Input/Core.antt =====
-- scene/src/input_stream.rs, `InputStreamCore`, `InputStreamBlocker` and `IdleInputStreamCore`.
-- The core stands behind a mutex, so a call is one function from the core to the core. A waker is
-- the number of the task that it wakes. What a call does outside the core is in its result.
use flo_scene.Common.{
  ℕ, ◌+◌, ◌-◌, Bool, true, false, not, ◌&&◌, ◌||◌, List, [], ◌∷◌, ◌++◌, Option, none, some, max,
  ltb, leb, ◌==◌, if◌then◌else◌, length, is_empty,
}
use flo_scene.SubProgram.{SubProgramId}

abbrev pub Waker : Type 0
Waker = ℕ

pub record InputStreamCore {ℓ} (M : Type ℓ) : Type ℓ where
  pub program_id : SubProgramId
  pub max_waiting : ℕ
  pub max_idle_queue_len : ℕ
  pub waiting_messages : List (SubProgramId × M)
  pub when_message_sent : Option Waker
  pub when_slots_available : List Waker
  pub allow_thread_stealing : Bool
  pub blocked : ℕ
  pub closed : Bool
  pub idle : Bool
  pub dropped : Bool
  pub waiting_for_idle : ℕ

-- `Result<Option<Waker>, TMessage>` with the core behind it: the waker is to be called.
pub data SendResult {ℓ} (M : Type ℓ) : Type ℓ where
  sent : InputStreamCore M → Option Waker → SendResult M
  refused : InputStreamCore M → M → SendResult M

-- `chain(self.when_message_sent.take())`
abbrev pub option_to_list : Option Waker → List Waker
option_to_list none = []
option_to_list (some w) = w ∷ []

module _ {ℓ} {M : Type ℓ} where
  -- `InputStream::new`; the flag is `TMessage::allow_thread_stealing_by_default()`.
  unfoldable pub new : SubProgramId → ℕ → Bool → InputStreamCore M
  new program_id max_waiting stealing = record {
    program_id = program_id;
    max_waiting = max_waiting;
    max_idle_queue_len = max_waiting;
    waiting_messages = [];
    when_message_sent = none;
    when_slots_available = [];
    allow_thread_stealing = stealing;
    blocked = 0;
    closed = false;
    idle = false;
    dropped = false;
    waiting_for_idle = 0;
  }

  -- `InputStreamBlocker::block`
  unfoldable pub block : InputStreamCore M → InputStreamCore M
  block c = record c { blocked = c.blocked + 1 }

  -- `BlockedStream::drop`, with the wakers that it calls. `none` is the underflow of `blocked -= 1`.
  unfoldable pub unblock : InputStreamCore M → Option (InputStreamCore M × List Waker)
  unblock c =
      if c.blocked == 0
      then none
      else if c.blocked - 1 == 0
      then some
          (record c { blocked = c.blocked - 1; when_slots_available = [] }, c.when_slots_available)
      else some (record c { blocked = c.blocked - 1 }, [])

  -- `InputStream::allow_thread_stealing`
  unfoldable pub set_thread_stealing : Bool → InputStreamCore M → InputStreamCore M
  set_thread_stealing enable c = record c { allow_thread_stealing = enable }

  -- The local `max_waiting` of `send`.
  unfoldable pub send_limit : InputStreamCore M → ℕ
  send_limit c = if ltb 0 c.waiting_for_idle then c.max_idle_queue_len else c.max_waiting

  -- The test of `send`.
  unfoldable pub accepts : InputStreamCore M → Bool
  unfolding send_limit
  accepts c = not c.closed && c.blocked == 0 && leb (length c.waiting_messages) (send_limit c)

  -- What `send` and `send_with_overfill` do with a message that they take.
  unfoldable pub enqueue : SubProgramId → M → InputStreamCore M → InputStreamCore M
  enqueue source message c = record c {
    waiting_messages = c.waiting_messages ++ (source, message) ∷ [];
    idle = false;
    when_message_sent = none;
  }

  unfoldable pub send : SubProgramId → M → InputStreamCore M → SendResult M
  unfolding accepts enqueue
  send source message c =
      if accepts c then sent (enqueue source message c) c.when_message_sent else refused c message

  -- `refused` is `SceneSendError::StreamDisconnected(message)` here.
  unfoldable pub send_with_overfill : SubProgramId → M → InputStreamCore M → SendResult M
  unfolding enqueue
  send_with_overfill source message c =
      if c.closed then refused c message else sent (enqueue source message c) c.when_message_sent

  unfoldable pub wake_when_slots_available : Waker → InputStreamCore M → InputStreamCore M
  wake_when_slots_available w c = record c {
    when_slots_available = c.when_slots_available ++ w ∷ [];
  }

  unfoldable pub num_slots : InputStreamCore M → ℕ
  num_slots c = c.max_waiting

  -- The list is what the combined waker (`CloseWaker`) calls, `none` where there is none.
  unfoldable pub close : InputStreamCore M → InputStreamCore M × Option (List Waker)
  close c =
      let wakers = c.when_slots_available ++ option_to_list c.when_message_sent in
      (
        record c { closed = true; when_slots_available = []; when_message_sent = none },
        if ltb 0 (length wakers) then some wakers else none,
      )

  unfoldable pub is_queue_full : InputStreamCore M → Bool
  is_queue_full c = leb (c.max_waiting + 1) (length c.waiting_messages)

  unfoldable pub is_blocked : InputStreamCore M → Bool
  is_blocked c = ltb 0 c.blocked

  unfoldable pub is_idle : InputStreamCore M → Bool
  is_idle c = c.idle && is_empty c.waiting_messages || ltb 0 c.waiting_for_idle || c.dropped

  unfoldable pub is_waiting_for_idle : InputStreamCore M → Bool
  is_waiting_for_idle c = ltb 0 c.waiting_for_idle

  -- `waiting_for_idle`, with the wakers that it calls; the guard that it returns is `idle_received`.
  unfoldable pub wait_for_idle : ℕ → InputStreamCore M → InputStreamCore M × List Waker
  wait_for_idle max_len c = (
    record c {
      waiting_for_idle = c.waiting_for_idle + 1;
      max_idle_queue_len = max c.max_idle_queue_len max_len;
      when_slots_available = [];
    },
    c.when_slots_available,
  )

  -- The closure in `IdleInputStreamCore`, run when the guard is dropped. `none` is an underflow.
  unfoldable pub idle_received : InputStreamCore M → Option (InputStreamCore M)
  idle_received c =
      if c.waiting_for_idle == 0
      then none
      else if c.waiting_for_idle - 1 == 0
      then some (record c {
        waiting_for_idle = c.waiting_for_idle - 1;
        max_idle_queue_len = c.max_waiting;
      })
      else some (record c { waiting_for_idle = c.waiting_for_idle - 1 })
