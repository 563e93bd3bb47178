-- ===== src/Tests/Handlers.antt =====
-- The handlers of the device, its info and its location.
use ibmiotf_cpp.Base.{
  ◌≡◌, refl, ok, err, terminate, null_pointer, some, none, [], ◌∷◌, ◌++◌, ℕ, ◌≤◌, ◌⊎◌, map, ℤ, pos,
  true, false, arith,
}
use ibmiotf_cpp.Text.{Text, codes, text_eq, is_empty}
use ibmiotf_cpp.Text.Decimal.{decimal_int}
use ibmiotf_cpp.Topics.{
  server_firmware_download_topic, server_device_reboot_topic, device_response_topic,
}
use ibmiotf_cpp.Device.Info.{InfoFields, new_info, info_from_json, get_text}
use ibmiotf_cpp.Device.Info.RoundTrip.{info_from_json-json}
use ibmiotf_cpp.Device.Location.{
  c_string, DeviceLocation, new_location, set_json_value, location_from_json,
}
use ibmiotf_cpp.Device.Location.JsonCopy.{
  InSync, latitude_edit, location_edit, edits, edits-InSync, IsTimeText, location_from_json-json,
}
use ibmiotf_cpp.Reply.{ActionResponse, ReplyMessage, response_reply}
use ibmiotf_cpp.Reply.Contents.{IsReply}
use ibmiotf_cpp.Firmware.{
  FirmwareMethods, FirmwareHandler, new_handler, check_download_progress, download_notification,
}
use ibmiotf_cpp.Firmware
use ibmiotf_cpp.Firmware.Info.{set_state}
use ibmiotf_cpp.Firmware.Replies.{download_twice}
use ibmiotf_cpp.Firmware.Progress.{reports, Pending, Complete, check_download_progress-Sends}
use ibmiotf_cpp.Action
use ibmiotf_cpp.Action.{ActionMethods, action_response}
use ibmiotf_cpp.Action.Answers.{message_arrived-reboot}
use ibmiotf_cpp.Tests.Tree.{Tree, trees, tree_null, tree_text, member}

abbrev pub seconds : ℤ → Text
seconds = decimal_int

abbrev pub accepted_response : ActionResponse
accepted_response = record { rc = pos 202; message = codes "started" }

-- A download that is complete at the third report.
abbrev pub app : FirmwareMethods trees
app = record {
  verify = λ p. some accepted_response;
  is_ready_for_download = λ p. some accepted_response;
  download = λ p. some accepted_response;
  update = λ p. some accepted_response;
  report_download_progress = λ i p. set_state trees seconds (pos i) p;
  report_update_progress = λ i p. p;
}

abbrev pub handler : FirmwareHandler trees
handler = new_handler trees seconds

abbrev request_json : Tree
request_json = member tree_null (codes "reqId") (tree_text (codes "41"))

abbrev first_reply : ReplyMessage trees
first_reply = record {
  topic = device_response_topic;
  payload =
      member
        (member (member tree_null (codes "rc") (Tree.tree_int (pos 202))) (codes "message")
          (tree_text (codes "started")))
        (codes "reqId") (tree_text (codes "41"));
  qos = pos 1;
}

abbrev after_first : FirmwareHandler trees
after_first =
    (Firmware.message_arrived trees seconds app server_firmware_download_topic request_json
      handler).1

download_twice_example :
    (Firmware.message_arrived trees seconds app server_firmware_download_topic request_json
      after_first).0
    ≡ err terminate
unfolding Firmware.message_arrived response_reply get_text codes text_eq is_empty new_handler
download_twice_example =
    download_twice trees seconds app request_json request_json handler accepted_response first_reply
      refl refl refl

check_download_progress-Sends_example :
    (rounds : ℕ) × (check_download_progress trees seconds app true handler
      ≡ map
          (download_notification trees seconds)
          (reports trees seconds app rounds 0 handler.fwinfo))
    × (rounds ≤ 10)
    × Pending trees seconds app (reports trees seconds app rounds 0 handler.fwinfo)
    × ((rounds ≡ 10)
        ⊎ Complete trees seconds app (reports trees seconds app rounds 0 handler.fwinfo))
check_download_progress-Sends_example = check_download_progress-Sends trees seconds app handler

abbrev reboots : ActionMethods
reboots = record { reboot = some accepted_response; factory_reset = none }

message_arrived-reboot_example :
    (reply : ReplyMessage trees) × IsReply trees accepted_response (codes "41") reply
    × (Action.message_arrived trees reboots true server_device_reboot_topic request_json
          (first_reply ∷ [])
        ≡ (ok none, (first_reply ∷ []) ++ (reply ∷ [])))
    × (Action.message_arrived trees reboots false server_device_reboot_topic request_json
          (first_reply ∷ [])
        ≡ (ok (some reply), first_reply ∷ []))
unfolding get_text codes text_eq
message_arrived-reboot_example =
    message_arrived-reboot trees reboots request_json accepted_response (codes "41")
      (first_reply ∷ []) refl refl

abbrev fields : InfoFields
fields = record {
  serial_number = codes "1";
  manufacturer = [];
  model = codes "m";
  device_class = [];
  description = codes "lamp";
  fw_version = codes "1.0";
  hw_version = [];
  descriptive_location = [];
}

info_from_json-json_example :
    info_from_json trees (new_info trees fields).json ≡ ok (new_info trees fields)
info_from_json-json_example = info_from_json-json trees fields

edits-InSync_example : InSync trees seconds (
    edits trees seconds
      (latitude_edit (pos 8) 3 ∷ (location_edit (pos 9) 4 5 6 ∷ []))
      (new_location trees seconds (pos 7) 1 2 0 0))
edits-InSync_example =
    edits-InSync trees seconds (pos 7) 1 2 0 0
      (latitude_edit (pos 8) 3 ∷ (location_edit (pos 9) 4 5 6 ∷ []))

-- A clock that stands still.
abbrev one_moment : ℤ → Text
one_moment t = codes "2017-05-22T10:00:00Z"

abbrev moved : DeviceLocation trees
moved =
    edits trees one_moment (location_edit (pos 9) 4 5 6 ∷ [])
      (new_location trees one_moment (pos 7) 1 2 0 0)

one_moment-IsTimeText : (t : ℤ) → IsTimeText trees one_moment (one_moment t)
unfolding codes c_string is_empty
one_moment-IsTimeText t = record { no_nul = refl; is_not_empty = refl; fits = omega arith }

location_from_json-json_example :
    (location_from_json trees one_moment (some (pos 99)) (pos 7) moved.json
      ≡ ok (
          set_json_value trees one_moment
            (record moved { measured_date_time = pos 99; json = tree_null })))
    × (location_from_json trees one_moment none (pos 7) moved.json ≡ err null_pointer)
location_from_json-json_example =
    location_from_json-json trees one_moment (pos 99) (pos 7) moved
      (edits-InSync trees one_moment (pos 7) 1 2 0 0 (location_edit (pos 9) 4 5 6 ∷ []))
      (one_moment-IsTimeText moved.measured_date_time)
