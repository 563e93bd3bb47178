-- ===== src/Tests/Requests.antt =====
-- A request of the platform that goes through the whole client.
use ibmiotf_cpp.Base.{
  ◌≡◌, refl, suc, length, map, List, some, none, [], ◌∷◌, ◌++◌, ◌+◌, ◌*◌, ◌≤◌, ℕ, arith, pos, true,
}
use ibmiotf_cpp.Text.{codes, text_eq}
use ibmiotf_cpp.Text.Decimal.{decimal_int}
use ibmiotf_cpp.Json.{JsonLib}
use ibmiotf_cpp.Topics.{server_observe_topic, server_firmware_download_topic}
use ibmiotf_cpp.Device.Info.{get_text}
use ibmiotf_cpp.Reply.{ActionResponse, ReplyMessage, new_reply}
use ibmiotf_cpp.Reply.Contents.{IsReply}
use ibmiotf_cpp.Callback.{Callback, firmware, new_callback, add_handler, equal_range}
use ibmiotf_cpp.Client.{Client, new_client}
use ibmiotf_cpp.Client.Dispatch
use ibmiotf_cpp.Client.Dispatch.{Methods}
use ibmiotf_cpp.Mqtt.{Broker, accepted, done, refused, publish}
use ibmiotf_cpp.Topics.{device_response_topic, device_notify_topic}
use ibmiotf_cpp.Firmware.{new_handler, sleep_interval}
use ibmiotf_cpp.Samples.Handlers.{Schedule}
use ibmiotf_cpp.Samples.Handlers.Progress.{told}
use ibmiotf_cpp.Samples.Handlers.Download.{
  sample, download_session, download_session-firmware_action,
}
use ibmiotf_cpp.ReplyQueue.{notify, waiting, notified}
use ibmiotf_cpp.ReplyQueue.Publishing
use ibmiotf_cpp.ReplyQueue.Publishing.{System, begun, finish, publication, publish_front}
use ibmiotf_cpp.ReplyQueue.Publishing.Published.{Reach-Published}
use ibmiotf_cpp.ReplyQueue.Publishing.Refines.{Refines, Reach-Refines}
use ibmiotf_cpp.ReplyQueue.Publishing.Answered.{arrive_and_publish, request_answered}
use ibmiotf_cpp.Client.Dispatch.Queue.{Adds, message_arrived-Adds}
use ibmiotf_cpp.Tests.Tree.{Tree, trees, tree_null, tree_text, member}
use ibmiotf_cpp.Tests.Sessions.{broker, properties}

abbrev observe_request : Tree
observe_request = member tree_null (codes "reqId") (tree_text (codes "41"))

-- Every text is read as that request.
abbrev reads_request : JsonLib
reads_request = record trees { parse = λ text. some observe_request }

abbrev ready : ActionResponse
ready = record { rc = pos 200; message = [] }

abbrev application : Methods reads_request
application = record {
  firmware_methods = record {
    verify = λ p. none;
    is_ready_for_download = λ p. some ready;
    download = λ p. none;
    update = λ p. none;
    report_download_progress = λ i p. p;
    report_update_progress = λ i p. p;
  };
  action_methods = record { reboot = none; factory_reset = none };
  custom_arrived = λ n t v. none;
  custom_raw_arrived = λ n t s. none;
  clock = pos 7;
}

abbrev observing : Callback
observing = add_handler server_observe_topic firmware new_callback

abbrev managed_client : Client reads_request
managed_client =
    record (new_client reads_request decimal_int (properties (codes "org") (codes "token")) true
      true) { callback = some observing }

request_answered_example :
    (reply : ReplyMessage reads_request) × IsReply reads_request ready (codes "41") reply
    × (arrive_and_publish broker decimal_int application server_observe_topic
          (codes "{...}")
          (suc (length managed_client.reply_msgs))
          managed_client
        ≡ record managed_client {
          callback = some (record observing { arrived_messages = observing.arrived_messages + 1 });
          reply_msgs = [];
          calls =
              managed_client.calls
              ++ (map publication managed_client.reply_msgs
                  ++ (publish device_response_topic
                        (JsonLib.write reads_request reply.payload)
                        (pos 1)
                      ∷ []));
        })
unfolding get_text codes text_eq equal_range add_handler new_callback
request_answered_example =
    request_answered broker (λ calls call. refl) decimal_int application (codes "{...}")
      observe_request ready (codes "41") managed_client observing refl refl refl refl refl

-- Two replies: the first is published, and the publication of the second throws.
abbrev first_reply : ReplyMessage reads_request
first_reply = new_reply reads_request device_response_topic tree_null

abbrev second_reply : ReplyMessage reads_request
second_reply = new_reply reads_request device_notify_topic tree_null

-- Only the first call succeeds.
abbrev accepts_one : Broker
accepts_one [] call = accepted done
accepts_one (c ∷ cs) call = refused

abbrev waits : System reads_request
waits = record (begun managed_client) { worker = waiting }

abbrev two_pushed : System reads_request
two_pushed = record (Publishing.push second_reply (Publishing.push first_reply waits)) {
  worker = notified;
}

abbrev one_published : System reads_request
one_published = finish two_pushed (publish_front accepts_one two_pushed.client)

one_published-Reach : Publishing.Reach accepts_one (begun managed_client) one_published
unfolding Publishing.push notify
one_published-Reach =
    Publishing.next
      (Publishing.next
        (Publishing.next (Publishing.next Publishing.here refl (Publishing.begins_wait refl)) refl
          (Publishing.reply_pushed first_reply))
        refl (Publishing.reply_pushed second_reply))
      refl (Publishing.publishes refl)

Reach-Refines_example : Refines managed_client.calls one_published
unfolding publish_front finish Publishing.push new_reply new_client
Reach-Refines_example = Reach-Refines accepts_one managed_client one_published-Reach refl

abbrev second_thrown : System reads_request
second_thrown =
    let again = record one_published { worker = notified } in
    finish again (publish_front accepts_one again.client)

second_thrown-Reach : Publishing.Reach accepts_one (begun managed_client) second_thrown
unfolding publish_front finish Publishing.push new_reply new_client
second_thrown-Reach =
    Publishing.next
      (Publishing.next (Publishing.next one_published-Reach refl (Publishing.begins_wait refl)) refl
        (Publishing.wakes_spuriously refl))
      refl (Publishing.publishes refl)

Reach-Published_example :
    (taken : List (ReplyMessage reads_request)) × (taken ++ second_thrown.client.reply_msgs
      ≡ second_thrown.pushed)
    × (second_thrown.client.calls ≡ managed_client.calls ++ map publication taken)
Reach-Published_example = Reach-Published accepts_one managed_client second_thrown-Reach

message_arrived-Adds_example :
    Adds 1 managed_client.reply_msgs
      (Dispatch.message_arrived decimal_int application server_observe_topic
        (codes "{...}")
        managed_client).1.reply_msgs
unfolding equal_range codes text_eq add_handler new_callback
message_arrived-Adds_example =
    message_arrived-Adds decimal_int application server_observe_topic (codes "{...}") managed_client
      observing refl

abbrev schedule : Schedule
schedule = record {
  download_started = 1;
  update_started = 1;
  report_time = λ k. 2000 * (k + 1);
  left = pos 2;
  indeterminate = pos 0;
  clock = pos 5;
}

abbrev downloads : Callback
downloads = add_handler server_firmware_download_topic firmware new_callback

abbrev sample_client : Client reads_request
sample_client = record managed_client {
  callback = some downloads;
  firmware_client = true;
  reply_msgs = first_reply ∷ [];
}

download_session-firmware_action_example :
    (reply : ReplyMessage reads_request) × IsReply reads_request
      (record { rc = pos 202; message = [] })
      (codes "41")
      reply
    × (m : ℕ) × (m ≤ 5)
    × (download_session decimal_int
          (sample decimal_int application schedule)
          broker
          (codes "{...}")
          (length sample_client.reply_msgs + (m + 2))
          sample_client
        ≡ record sample_client {
          callback = some (record downloads { arrived_messages = downloads.arrived_messages + 1 });
          firmware_state = record sample_client.firmware_state { download_thread = true };
          reply_msgs = [];
          calls =
              sample_client.calls
              ++ map publication
                  (sample_client.reply_msgs ++ (reply ∷ told reads_request decimal_int schedule m));
        })
unfolding get_text codes text_eq equal_range add_handler new_callback new_client new_handler
    sleep_interval
download_session-firmware_action_example =
    download_session-firmware_action decimal_int application schedule broker (codes "{...}")
      observe_request (codes "41") sample_client downloads (λ calls call. refl) refl refl refl refl
      refl refl (omega arith) (λ k b. omega arith)
