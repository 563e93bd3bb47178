-- ===== src/Tests/Runs.antt =====
-- Runs of the reply thread and of the update thread, and filters.
use ibmiotf_cpp.Base.{
  ◌≡◌, refl, ℕ, ◌+◌, ◌*◌, ◌≤◌, ◌⊎◌, zero, ok, none, [], ◌∷◌, List, pos, negsuc, int_eq, true, false,
  ◌&&◌, arith, some,
}
use ibmiotf_cpp.Json.{JsonLib}
use ibmiotf_cpp.Text.{codes, text_eq}
use ibmiotf_cpp.Topics.Filter.{matches}
use ibmiotf_cpp.Command.Fields.{command_topic}
use ibmiotf_cpp.GatewayClient.{command_filter}
use ibmiotf_cpp.GatewayClient.Filters.{matches-command_filter}
use ibmiotf_cpp.ReplyQueue.{
  ReplyQueue, Worker, running, waiting, push, send_front, notify, here, next, reply_pushed,
  begins_wait, sends,
}
use ibmiotf_cpp.ReplyQueue.Channel.{ChannelReach, view, Reach-ChannelReach}
use ibmiotf_cpp.ReplyQueue.Shutdown
use ibmiotf_cpp.ReplyQueue.Shutdown.{Closing, Run, Moves, SentOnce, start, thread, pushed, Run-ends}
use ibmiotf_cpp.Firmware.{
  FirmwareMethods, FirmwareHandler, new_handler, check_update_progress, sleep_interval,
}
use ibmiotf_cpp.Firmware.Info.{FirmwareInfo, new_full_info}
use ibmiotf_cpp.Firmware.Info.JsonCopy.{
  Edit, name_edit, update_status_edit, updated_date_time_edit, edits, edits-shown,
}
use ibmiotf_cpp.Firmware.Updates.{Completes, check_update_progress-Completes}
use ibmiotf_cpp.Samples.Handlers.{Schedule, firmware_action}
use ibmiotf_cpp.Samples.Handlers.Updating.{told, check_update_progress-firmware_action}
use ibmiotf_cpp.Tests.Tree.{Tree, trees, tree_null}
use ibmiotf_cpp.Tests.Handlers.{app, seconds}

-- One reply is handed over to a waiting thread, which sends it.
abbrev sent_one : ReplyQueue ℕ
sent_one = record { queue = []; sent = 1 ∷ []; pushed = 1 ∷ []; worker = running }

Reach-ChannelReach_example : ChannelReach (record { pending = []; delivered = [] }) (view sent_one)
unfolding push notify send_front
Reach-ChannelReach_example =
    Reach-ChannelReach (next (next (next here (begins_wait refl)) (reply_pushed 1)) (sends refl))

-- A thread that waits when mExit is set, while the queue holds a reply.
abbrev closing : Closing ℕ
closing = record {
  system = record { queue = 1 ∷ []; sent = []; pushed = 1 ∷ []; worker = waiting };
  tested = false;
}

abbrev closed : Closing ℕ
closed = record {
  system = record { queue = 2 ∷ []; sent = 1 ∷ []; pushed = 1 ∷ 2 ∷ []; worker = running };
  tested = false;
}

Run-ends_example :
    (2 ≤ 4) × ((closed.system.worker ≡ Worker.stopped) ⊎ Moves closed) × SentOnce closing closed
unfolding push notify send_front
Run-ends_example =
    Run-ends
      (thread (pushed (thread start (Shutdown.wakes_spuriously refl)) 2) (Shutdown.sends refl))

matches-command_filter_example :
    matches
      (command_filter (codes "lamp") (codes "d7"))
      (command_topic (codes "lamp") (codes "d8") (codes "dim") (codes "json"))
    ≡ text_eq (codes "lamp") (codes "lamp") && text_eq (codes "d7") (codes "d8")
unfolding codes text_eq
matches-command_filter_example =
    matches-command_filter (codes "lamp") (codes "d7") (codes "lamp") (codes "d8") (codes "dim")
      (codes "json") (omega arith) (omega arith) (omega arith) (omega arith) (omega arith)
      (omega arith) refl refl refl refl

abbrev updates : List (Edit trees seconds)
updates = name_edit (codes "f2") ∷ update_status_edit (pos 0) ∷ updated_date_time_edit (pos 9) ∷ []

abbrev updated : FirmwareInfo trees
updated =
    edits trees seconds updates
      (new_full_info trees seconds (some (codes "f1")) none none none (pos 0) (negsuc 0) (negsuc 0))

edits-shown_example :
    (JsonLib.get trees updated.json (codes "state") tree_null ≡ ok (Tree.tree_int updated.state))
    × ((int_eq updated.update_status (negsuc 0) ≡ true)
        ⊎ (JsonLib.get trees updated.json (codes "updateStatus") tree_null
            ≡ ok (Tree.tree_int updated.update_status)))
    × ((int_eq updated.updated_date_time (negsuc 0) ≡ true)
        ⊎ (JsonLib.get trees updated.json (codes "updatedDateTime") tree_null
            ≡ ok (Tree.tree_text (seconds updated.updated_date_time))))
edits-shown_example =
    edits-shown trees seconds (some (codes "f1")) none none none (pos 0) (negsuc 0) (negsuc 0)
      updates tree_null refl

-- An update that is in progress at the first report, and has succeeded at the second.
abbrev script : ℕ → FirmwareInfo trees → List (Edit trees seconds)
script zero p = update_status_edit (pos 1) ∷ []
script _ p = updated_date_time_edit (pos 9) ∷ update_status_edit (pos 0) ∷ []

abbrev scripted_app : FirmwareMethods trees
scripted_app = record app { report_update_progress = λ i p. edits trees seconds (script i p) p }

abbrev handler : FirmwareHandler trees
handler = new_handler trees seconds

check_update_progress-Completes_example :
    Completes trees seconds scripted_app 10 0 handler.fwinfo []
      (check_update_progress trees seconds scripted_app true handler [])
check_update_progress-Completes_example =
    check_update_progress-Completes trees seconds scripted_app script (λ i p. refl) handler refl

-- The sample's update begins at 1, and is reported every 4,500 milliseconds.
abbrev updating : Schedule
updating = record {
  download_started = 0;
  update_started = 1;
  report_time = λ k. 4500 * (k + 1);
  left = pos 2;
  indeterminate = pos 0;
  clock = pos 1700000022;
}

check_update_progress-firmware_action_example :
    (m : ℕ) × (m ≤ 5)
    × (check_update_progress trees seconds (firmware_action trees seconds updating) true handler []
        ≡ (ok tt, told trees seconds updating m))
unfolding sleep_interval
check_update_progress-firmware_action_example =
    check_update_progress-firmware_action trees seconds updating handler refl refl (omega arith)
      (λ k b. omega arith)
