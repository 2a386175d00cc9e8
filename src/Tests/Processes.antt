-- ===== src/Tests/Processes.antt =====
-- Runs of the scheduler of scene/src/scene_core.rs on small inputs.
use flo_scene.Common.{ℕ, ◌<◌, Bool, true, List, [], ◌∷◌, some, ◌≡◌, refl, arith, false, none}
use flo_scene.Scene.Slots.{empty}
use flo_scene.Scheduler
use flo_scene.Scheduler.{Scheduler, no_processes, start_process, wake, stop}
use flo_scene.Scheduler.Turns.{Turn, polls, put_back, turn}
use flo_scene.Scheduler.Steals.{return_stolen}
use flo_scene.Scheduler.Turned.{Turned, turn-Turned}
use flo_scene.Scheduler.Idle.{
  Idle, begin_check, claim_notice, send_idle_notifications_to, check_if_idle, is_disconnected,
}
use flo_scene.Scheduler.Idle.Notices.{
  IdleCall, listens, idle_run, all_asks, notices, notice_is_fresh,
}
use flo_scene.Scheduler.System.{
  update, nothing, runs, steals, System, Step, starts, claims, wakes, Reach, here, next,
}
use flo_scene.Scheduler.System.Local.{IsSound, is_queued}
use flo_scene.Scheduler.System.Reached.{Reach-IsSound}
use flo_scene.Scheduler.System.Lives.{LivesOn, event_of}
use flo_scene.Scheduler.System.States.{Step-LivesOn}
use flo_scene.Scheduler.System.Safe.{polls_end}
use flo_scene.Scheduler.System.Threads.{Heard, Step-Heard, called_by}
use flo_scene.Scheduler.System.Fair.{index_of, all_turns, Run, ends, proceeds, Serves, run-Serves}

abbrev quiet_system : System
quiet_system = record { core = no_processes; doing = λ k. nothing }

abbrev started : System
started = record quiet_system { core = (start_process 40 no_processes).0 }

abbrev both : System
both = record started { core = (start_process 41 started.core).0 }

-- Thread 3 takes the future of the first process.
abbrev first_turn : Turn
first_turn = turn 3 0 7 empty both.core

abbrev scheduler_of : Turn → Scheduler
scheduler_of (polls f p c) = c
scheduler_of _ = no_processes

polls_first : first_turn ≡ polls 40 0 (scheduler_of first_turn)
unfolding turn start_process no_processes empty Scheduler.take
polls_first = refl

second_is_queued : (scheduler_of first_turn).awake_processes ≡ 1 ∷ []
unfolding turn start_process no_processes empty Scheduler.take
second_is_queued = refl

abbrev claiming :
    Step both (record { core = scheduler_of first_turn; doing = update both.doing 0 (runs 0 40) })
claiming = claims 0 3 0 7 empty 40 0 (scheduler_of first_turn) refl polls_first

abbrev polling : System
polling = record { core = scheduler_of first_turn; doing = update both.doing 0 (runs 0 40) }

Reach-both : Reach both
Reach-both = next (next here (starts 40)) (starts 41)

Reach-polling : Reach polling
Reach-polling = next Reach-both claiming

-- The first process is woken while it is polled, and the poll is then pending.
abbrev woken_again : System
woken_again = record polling { core = (wake 0 polling.core).0 }

Reach-IsSound_example : IsSound woken_again
Reach-IsSound_example = Reach-IsSound (next Reach-polling (wakes 0))

Step-LivesOn_example : LivesOn both polling.core (event_of claiming)
Step-LivesOn_example = Step-LivesOn claiming (Reach-IsSound Reach-both)

turn-Turned_example : Turned 3 both.core first_turn
turn-Turned_example = turn-Turned 3 0 7 empty both.core

polls_end_example :
    (polling.doing 0 ≡ runs 0 40 → (r : Scheduler × List ℕ) × (put_back 0 40 polling.core ≡ some r))
    × (polling.doing 0 ≡ steals 0 40
        → (r : Scheduler × List ℕ × Bool) × (return_stolen 0 40 polling.core ≡ some r))
polls_end_example = polls_end 0 0 40 Reach-polling

-- The second process is polled as well.
abbrev second_turn : Turn
second_turn = turn 4 1 8 empty polling.core

polls_second : second_turn ≡ polls 41 1 (scheduler_of second_turn)
unfolding turn start_process no_processes empty Scheduler.take
polls_second = refl

abbrev two_turns :
    Run both
      (record { core = scheduler_of second_turn; doing = update polling.doing 1 (runs 1 41) })
two_turns =
    proceeds claiming
      (proceeds (claims 1 4 1 8 empty 41 1 (scheduler_of second_turn) refl polls_second) ends)

is_second : is_queued both 1 ≡ true
unfolding start_process no_processes
is_second = refl

comes_soon : index_of 1 both.core.awake_processes < all_turns two_turns
unfolding start_process no_processes
comes_soon = omega arith

run-Serves_example :
    Serves 1 both
      (record { core = scheduler_of second_turn; doing = update polling.doing 1 (runs 1 41) })
      two_turns
run-Serves_example = run-Serves 1 two_turns is_second comes_soon

abbrev asked : Idle
asked = record { notify_when_idle = true; idle_count = 4; when_idle = some 2 ∷ [] }

abbrev checking : Idle
checking = record asked { idle_count = 5 }

begins_check : begin_check asked ≡ some (checking, 5)
unfolding begin_check
begins_check = refl

-- Another thread, with an older check, comes too late, and one listener more is there.
abbrev meanwhile : List IdleCall
meanwhile = IdleCall.claims 4 ∷ listens 9 ∷ []

abbrev noticed : Idle
noticed = record checking { notify_when_idle = false; when_idle = some 2 ∷ some 9 ∷ [] }

takes_notice : claim_notice 5 (idle_run meanwhile checking) ≡ some noticed
unfolding claim_notice idle_run send_idle_notifications_to
takes_notice = refl

notice_is_fresh_example : (all_asks meanwhile checking ≡ 0) × (notices meanwhile checking ≡ 0)
notice_is_fresh_example =
    notice_is_fresh meanwhile asked checking noticed 5 begins_check takes_notice

is_idle_now :
    check_if_idle {M = ℕ} (λ n. is_disconnected) (none ∷ []) (none ∷ []) asked
    ≡ (true, record asked { notify_when_idle = false; idle_count = 5; when_idle = none ∷ [] })
unfolding check_if_idle
is_idle_now = refl

-- The thread with the waker 8 sleeps as a process starts.
abbrev sleeping : System
sleeping = record quiet_system { core = record no_processes { thread_wakers = none ∷ some 8 ∷ [] } }

abbrev starting : Step sleeping (record sleeping { core = (start_process 40 sleeping.core).0 })
starting = starts 40

comes_in : (start_process 40 sleeping.core).0.awake_processes ≡ 0 ∷ []
unfolding start_process no_processes
comes_in = refl

calls_eight : called_by starting ≡ some 8
unfolding called_by start_process no_processes
calls_eight = refl

was_empty : sleeping.core.awake_processes ≡ []
unfolding no_processes
was_empty = refl

Step-Heard_example : Heard starting
Step-Heard_example = Step-Heard 0 [] starting was_empty comes_in
