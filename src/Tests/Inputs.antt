-- ===== src/Tests/Inputs.antt =====
-- Runs of scene/src/input_stream.rs and scene/src/subprogram_id.rs on small inputs.
use flo_scene.Common.{
  ℕ, ◌≤◌, ◌⊎◌, false, List, [], ◌∷◌, none, some, ◌≡◌, refl, arith, length, if◌then◌else◌,
}
use flo_scene.SubProgram.{SubProgramId, named}
use flo_scene.Input.Core.{
  InputStreamCore, new, block, unblock, send, accepts, enqueue, sent, refused, send_with_overfill,
  wait_for_idle,
}
use flo_scene.Input.Stream.{poll_next_with_sources, drop_stream}
use flo_scene.Input.Run.{
  Call, sends, overfills, polls, blocks, unblocks, idle_receives, drops, waits_for_idle, History,
  start, step, run,
}
use flo_scene.Input.Run.Fifo.{IsFifo, run-IsFifo}
use flo_scene.Input.Run.Bounds.{run_bounded}
use flo_scene.Input.Run.Wakes.{WokenBy, run_wakes}

abbrev alice : SubProgramId
alice = named 1

abbrev bob : SubProgramId
bob = named 2

abbrev fresh : InputStreamCore ℕ
fresh = new alice 1 false

-- Two messages wait, one more than `max_waiting`, and the tasks 5 and 6 wait for a slot.
abbrev busy : InputStreamCore ℕ
busy = record {
  program_id = alice;
  max_waiting = 1;
  max_idle_queue_len = 1;
  waiting_messages = (bob, 10) ∷ (bob, 11) ∷ [];
  when_message_sent = none;
  when_slots_available = 5 ∷ 6 ∷ [];
  allow_thread_stealing = false;
  blocked = 0;
  closed = false;
  idle = false;
  dropped = false;
  waiting_for_idle = 0;
}

abbrev busy_idle : InputStreamCore ℕ
busy_idle = record busy { waiting_for_idle = 1; max_idle_queue_len = 4 }

abbrev run_or_start : List (Call ℕ) → History ℕ
run_or_start cs = elim (run cs (start fresh)) [ none ↦ start fresh | some h ↦ h ]

abbrev run_or_start_from : History ℕ → List (Call ℕ) → History ℕ
run_or_start_from h cs = elim (run cs h) [ none ↦ h | some h' ↦ h' ]

abbrev traffic : List (Call ℕ)
traffic =
    polls 7
    ∷ sends bob 10
    ∷ overfills bob 11
    ∷ sends bob 12
    ∷ polls 7
    ∷ blocks
    ∷ sends bob 13
    ∷ unblocks
    ∷ sends bob 14
    ∷ drops
    ∷ []

run-IsFifo_example : IsFifo (run_or_start traffic)
unfolding run step new send send_with_overfill poll_next_with_sources block unblock drop_stream
run-IsFifo_example = run-IsFifo alice 1 false traffic refl

abbrev crowd : List (Call ℕ)
crowd = sends bob 10 ∷ sends bob 11 ∷ sends bob 12 ∷ waits_for_idle 2 ∷ sends bob 13 ∷ []

run_bounded_example : length (run_or_start crowd).core.waiting_messages ≤ 3
unfolding run step new send wait_for_idle
run_bounded_example =
    run_bounded 2 alice 1 false crowd (omega arith) (tt, (tt, (tt, (omega arith, (tt, tt))))) refl

abbrev once_asleep : History ℕ
once_asleep = run_or_start (sends bob 10 ∷ polls 7 ∷ polls 8 ∷ [])

-- The message is refused, since the stream is blocked.
abbrev while_asleep : List (Call ℕ)
while_asleep = blocks ∷ sends bob 9 ∷ waits_for_idle 3 ∷ []

run_wakes_example :
    WokenBy 8 while_asleep once_asleep
    ⊎ (((run_or_start_from once_asleep while_asleep).core.waiting_messages ≡ [])
        × ((run_or_start_from once_asleep while_asleep).core.closed ≡ false)
        × (send bob 11 (run_or_start_from once_asleep while_asleep).core ≡ (
            if accepts (run_or_start_from once_asleep while_asleep).core
            then sent (enqueue bob 11 (run_or_start_from once_asleep while_asleep).core) (some 8)
            else refused (run_or_start_from once_asleep while_asleep).core 11))
        × (send_with_overfill bob 11 (run_or_start_from once_asleep while_asleep).core
            ≡ sent (enqueue bob 11 (run_or_start_from once_asleep while_asleep).core) (some 8)))
unfolding run step new send poll_next_with_sources block wait_for_idle
run_wakes_example =
    run_wakes 8 (run_or_start (sends bob 10 ∷ polls 7 ∷ [])) once_asleep
      (run_or_start_from once_asleep while_asleep) while_asleep bob 11 refl refl
      (tt, (tt, (tt, tt))) refl

abbrev guarded : List (Call ℕ)
guarded = blocks ∷ waits_for_idle 3 ∷ blocks ∷ unblocks ∷ idle_receives ∷ []

abbrev five : ℕ
five = 5

abbrev six : ℕ
six = 6
