-- ===== src/Tests/Replays.antt =====
-- The theorems about replaying, applied to the replay of a recorded run.
use unified_correctness_orie.Base.{◌≡◌, ◌≢◌, refl, [], Result, ok, err, list_eq, list_beq}
use unified_correctness_orie.Base.Dict
use unified_correctness_orie.Runtime.EventEquality.{event_beq}
use unified_correctness_orie.Runtime.Host.{RuntimeMessage}
use unified_correctness_orie.Runtime.Actions.{execute_actions}
use unified_correctness_orie.Runtime.Program.{effect_vec}
use unified_correctness_orie.Runtime.Node.{Config, Mode, Node, RunError, pending_inbox_messages}
use unified_correctness_orie.Runtime.Ids.{next_deterministic_msg_id}
use unified_correctness_orie.Runtime.Cursor.{inbound_event}
use unified_correctness_orie.Base.Text.{decimal}
use unified_correctness_orie.Runtime.Record.{start_up}
use unified_correctness_orie.Runtime.Replay.{replay_main, expect_events, no_more_emits}
use unified_correctness_orie.Runtime.Replay.Terminates.{
  replay_main-total, replay_main_silent, replay_main_delivered,
}
use unified_correctness_orie.Tests.{host, message_beq}
use unified_correctness_orie.Tests.Runs.{config, program, recorded, idle_node}

abbrev replaying : Config
replaying = record config { mode = Mode.replaying }

replay_main-total_example :
    replay_main host replaying program recorded.1.events ≢ err RunError.out_of_fuel
replay_main-total_example = replay_main-total host replaying program recorded.1.events refl

abbrev node_of : Result RunError (Node RuntimeMessage) → Node RuntimeMessage
node_of (ok node) = node
node_of (err e) = idle_node

-- The replay of the recorded step.
replayed : Node RuntimeMessage
unfolding recorded replay_main start_up Dict.get Dict.insert list_beq execute_actions effect_vec
    event_beq
replayed = node_of (replay_main host replaying program recorded.1.events)

accepts : replay_main host replaying program recorded.1.events ≡ ok replayed
unfolding replayed recorded replay_main start_up Dict.get Dict.insert list_beq execute_actions
    effect_vec event_beq expect_events next_deterministic_msg_id message_beq decimal no_more_emits
    inbound_event
accepts = refl

replay_main_silent_example : replayed.wire ≡ []
replay_main_silent_example =
    replay_main_silent host replaying program recorded.1.events replayed refl accepts

replay_main_delivered_example : pending_inbox_messages replayed.sys ≡ 0
replay_main_delivered_example =
    replay_main_delivered host replaying program recorded.1.events replayed refl accepts
