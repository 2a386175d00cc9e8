-- ===== src/Input/Laws.antt =====
-- scene/src/input_stream.rs: what each call promises by itself.
use flo_scene.Common.{
  ℕ, zero, suc, ◌≤◌, ◌<◌, true, false, List, [], ◌∷◌, ◌++◌, map, Option, none, some, ◌≡◌, ◌≢◌, refl,
  arith, length, inl, inr, ◌⊎◌, ◌==◌, Bool-cases, if◌then◌else◌,
}
use flo_scene.SubProgram.{SubProgramId}
use flo_scene.Input.Core.{
  Waker, InputStreamCore, block, unblock, accepts, enqueue, sent, refused, send, close,
  is_queue_full, is_idle, send_limit, option_to_list,
}
use flo_scene.Input.Stream.{
  Poll, ready, pending, poll_next, poll_next_with_sources, drop_stream, drop_stream_with_sources,
}

module _ {ℓ} {M : Type ℓ} where
  -- `send` takes a message exactly if the stream is open, not blocked, and at most `send_limit`
  -- messages wait; then the message is the last of the queue and the sleeping owner's waker is
  -- handed out. Otherwise the message comes back and the core is as it was.
  pub send_cases :
      (source : SubProgramId) (message : M) (c : InputStreamCore M)
      → ((c.closed ≡ false)
          × (c.blocked ≡ 0)
          × (length c.waiting_messages ≤ send_limit c)
          × (send source message c ≡ sent (enqueue source message c) c.when_message_sent))
        ⊎ (((c.closed ≡ true) ⊎ (0 < c.blocked) ⊎ (send_limit c < length c.waiting_messages))
            × (send source message c ≡ refused c message))
  unfolding send
  send_cases source message c = elim (Bool-cases (accepts c)) [
    | inl e ↦ inl (ground arith, ground arith, ground arith, rw (e, send))
    | inr e ↦ inr (ground arith, rw (e, send))
  ]

  abbrev pub without_source : Poll (Option (SubProgramId × M)) → Poll (Option M)
  without_source (ready (some (source, message))) = ready (some message)
  without_source (ready none) = ready none
  without_source pending = pending

  -- The two ways to poll do the same to the core and have the same effects, and hand out the same
  -- message; `poll_next` leaves its source out.
  pub poll_next-with_sources :
      (w : Waker) (c : InputStreamCore M)
      → ((poll_next w c).core ≡ (poll_next_with_sources w c).core)
        × ((poll_next w c).effects ≡ (poll_next_with_sources w c).effects)
        × ((poll_next w c).result ≡ without_source (poll_next_with_sources w c).result)
  unfolding poll_next poll_next_with_sources
  poll_next-with_sources w c = split c.waiting_messages refl
    where
      split :
          (q : List (SubProgramId × M))
          → c.waiting_messages ≡ q
          → ((poll_next w c).core ≡ (poll_next_with_sources w c).core)
            × ((poll_next w c).effects ≡ (poll_next_with_sources w c).effects)
            × ((poll_next w c).result ≡ without_source (poll_next_with_sources w c).result)
      split [] is = ground arith
      split ((source, message) ∷ rest) is = ground arith

  -- A queue that is full is refused by `send`, unless the owner waits for the scene to be idle.
  pub send-is_queue_full :
      (source : SubProgramId) (message : M) (c : InputStreamCore M)
      → is_queue_full c ≡ true
      → c.waiting_for_idle ≡ 0
      → send source message c ≡ refused c message
  unfolding is_queue_full send
  send-is_queue_full source message c full h = ground arith

  -- While the owner waits for the scene to be idle, `is_queue_full` says true of a queue that an
  -- open, unblocked stream still sends to, whenever the idle limit is above the length of the queue.
  pub is_queue_full_while_idle :
      (source : SubProgramId) (message : M) (c : InputStreamCore M)
      → c.closed ≡ false
      → c.blocked ≡ 0
      → 0 < c.waiting_for_idle
      → c.max_waiting < length c.waiting_messages
      → length c.waiting_messages ≤ c.max_idle_queue_len
      → (is_queue_full c ≡ true)
        × (send source message c ≡ sent (enqueue source message c) c.when_message_sent)
  unfolding is_queue_full send
  is_queue_full_while_idle source message c o u w more fits = (ground arith, ground arith)

  -- Dropping the stream leaves the core idle, whatever it held. Dropping the stream with sources
  -- leaves it busy for ever if messages wait and the owner is not waiting for the scene to be idle,
  -- and calls none of the wakers of the senders that wait for a slot.
  pub drop_is_idle :
      (c : InputStreamCore M)
      → c.waiting_messages ≢ []
      → c.waiting_for_idle ≡ 0
      → c.dropped ≡ false
      → (is_idle (drop_stream c).0 ≡ true)
        × ((drop_stream c).1 ≡ c.when_slots_available ++ option_to_list c.when_message_sent)
        × (is_idle (drop_stream_with_sources c) ≡ false)
        × ((drop_stream_with_sources c).when_slots_available ≡ c.when_slots_available)
  unfolding is_idle drop_stream drop_stream_with_sources
  drop_is_idle c busy h d = (ground arith, refl, ground arith, refl)

  -- Polls under one waker, and their results.
  pub poll_times : ℕ → Waker → InputStreamCore M → List (Poll (Option (SubProgramId × M)))
  poll_times zero w c = []
  poll_times (suc n) w c = let p = poll_next_with_sources w c in p.result ∷ poll_times n w p.core

  drain :
      (w : Waker) (q : List (SubProgramId × M)) (c : InputStreamCore M)
      → c.waiting_messages ≡ q
      → c.closed ≡ true
      → poll_times (suc (length q)) w c ≡ map (λ m. ready (some m)) q ++ ready none ∷ []
  unfolding poll_times poll_next_with_sources
  drain w [] c is h = ground arith
  drain w (m ∷ q) c is h = ground (arith, drain w q (poll_next_with_sources w c).core)

  -- A closed stream still delivers what waits, in order, and then says that it is over: `length`
  -- polls and one more.
  pub close-drains :
      (w : Waker) (c : InputStreamCore M)
      → poll_times (suc (length c.waiting_messages)) w (close c).0
        ≡ map (λ m. ready (some m)) c.waiting_messages ++ ready none ∷ []
  unfolding close
  close-drains w c = drain w c.waiting_messages _ refl refl

  -- Blocking a stream stops every `send`, whatever room there is. Dropping the one guard gives back
  -- the stream as it was and calls every waker that waits for a slot; under a further guard it
  -- calls none.
  pub unblock-block :
      (source : SubProgramId) (message : M) (c : InputStreamCore M)
      → (send source message (block c) ≡ refused (block c) message)
        × (unblock (block c)
            ≡ some (
                if c.blocked == 0
                then (record c { when_slots_available = [] }, c.when_slots_available)
                else (c, [])))
  unfolding send block unblock
  unblock-block source message c = ground arith
