-- ===== src/Samples/Handlers/Download.antt =====
-- A download request of the platform to the managed samples, through the whole client to the wire.
use ibmiotf_cpp.Base.{
  ℕ, suc, ◌+◌, ◌<◌, ◌≤◌, ℤ, pos, ◌≡◌, refl, ap, ◌∙◌, true, false, some, List, [], ◌∷◌, ◌++◌,
  append_assoc, append-nil, map, length, length-append, ok, arith,
}
use ibmiotf_cpp.Base.Exec.{rounds}
use ibmiotf_cpp.Json.{JsonLib}
use ibmiotf_cpp.Text.{Text, codes}
use ibmiotf_cpp.Topics.{server_firmware_download_topic}
use ibmiotf_cpp.Mqtt.{Broker, Accepts}
use ibmiotf_cpp.Device.Info.{get_text}
use ibmiotf_cpp.Reply.{ReplyMessage}
use ibmiotf_cpp.Reply.Contents.{IsReply}
use ibmiotf_cpp.Callback.{Callback, equal_range, firmware}
use ibmiotf_cpp.Client.{Client, send_reply}
use ibmiotf_cpp.Client.Dispatch.{Methods, message_arrived}
use ibmiotf_cpp.Client.Dispatch.Delivery.{message_arrived-download_accepted}
use ibmiotf_cpp.Firmware.{check_download_progress, sleep_interval}
use ibmiotf_cpp.ReplyQueue.Publishing.{publication, publish_front}
use ibmiotf_cpp.ReplyQueue.Publishing.Answered.{rounds-publish_front}
use ibmiotf_cpp.Samples.Handlers.{Schedule, response, download_timeout, firmware_action}
use ibmiotf_cpp.Samples.Handlers.Progress.{
  told, length-told, check_download_progress-firmware_action,
}

module _ {J : JsonLib} where
  -- IOTF_send_reply for each of the messages in turn
  unfoldable pub hand_over : List (ReplyMessage J) → Client J → Client J
  hand_over [] c = c
  hand_over (m ∷ ms) c = hand_over ms (send_reply m c)

  hand_over_lem :
      (ms : List (ReplyMessage J)) (c : Client J)
      → hand_over ms c ≡ record c { reply_msgs = c.reply_msgs ++ ms }
  unfolding hand_over send_reply
  hand_over_lem [] c = rw append-nil
  hand_over_lem (m ∷ ms) c = hand_over_lem ms (send_reply m c) ∙ rw append_assoc

  -- The request arrives, the progress thread reports to its end, and the reply thread wakes up so
  -- many times.
  unfoldable pub download_session : (ℤ → Text) → Methods J → Broker → Text → ℕ → Client J → Client J
  unfolding hand_over
  download_session format_time app broker text n c =
      let arrived = (message_arrived format_time app server_firmware_download_topic text c).1 in
      let reported =
        hand_over
          (check_download_progress J format_time app.firmware_methods arrived.firmware_client
            arrived.firmware_state)
          arrived in
      (rounds n (publish_front broker) reported).1

  -- Where the thread wakes up once for each reply, all of them are published in their order.
  rounds-hand_over :
      (broker : Broker) (n : ℕ) (ms : List (ReplyMessage J)) (c : Client J)
      → Accepts broker
      → n ≡ length (c.reply_msgs ++ ms)
      → (rounds n (publish_front broker) (hand_over ms c)).1
        ≡ record c { reply_msgs = []; calls = c.calls ++ map publication (c.reply_msgs ++ ms) }
  rounds-hand_over broker n ms c accepting enough =
      let reported : Client J = record c { reply_msgs = c.reply_msgs ++ ms } in
      ap (λ d. (rounds n (publish_front broker) d).1) (hand_over_lem ms c)
      ∙ ap (λ k. (rounds k (publish_front broker) reported).1) enough
      ∙ ap (λ r. r.1) (rounds-publish_front broker accepting (c.reply_msgs ++ ms) reported refl)

module _ {J : JsonLib} (format_time : ℤ → Text) (app : Methods J) (s : Schedule) where
  -- The application with the sample's firmware handler.
  abbrev pub sample : Methods J
  sample = record app { firmware_methods = firmware_action J format_time s }

  -- The platform asks the sample for a download, and hears this: the replies that were in the queue,
  -- in their order, then an answer with the code 202 and the id of the request, then notifications
  -- that say "downloading", five at most, and then one that says "downloaded". The firmware handler
  -- alone is registered for the request, which is JSON with a text as its id, and knows the client;
  -- no download was accepted before; every call of the broker succeeds; the pretended download has
  -- begun at the first report, and the library sleeps at least its interval between two reports; and
  -- the reply thread wakes up once for each reply.
  pub download_session-firmware_action :
      (broker : Broker) (text : Text) (payload : JsonLib.Value J) (id : Text) (client : Client J)
      (cb : Callback)
      → Accepts broker
      → client.callback ≡ some cb
      → equal_range server_firmware_download_topic cb.handlers ≡ firmware ∷ []
      → J.parse text ≡ some payload
      → client.firmware_client ≡ true
      → client.firmware_state.download_thread ≡ false
      → get_text J payload (codes "reqId") ≡ ok id
      → s.download_started ≤ s.report_time 0
      → ((k : ℕ)
          → k < 5
          → s.report_time k + sleep_interval download_timeout ≤ s.report_time (suc k))
      → (reply : ReplyMessage J) × IsReply J (record { rc = pos 202; message = [] }) id reply
        × (m : ℕ) × (m ≤ 5)
        × (download_session format_time sample broker text
              (length client.reply_msgs + (m + 2))
              client
            ≡ record client {
              callback = some (record cb { arrived_messages = cb.arrived_messages + 1 });
              firmware_state = record client.firmware_state { download_thread = true };
              reply_msgs = [];
              calls =
                  client.calls
                  ++ map publication (client.reply_msgs ++ (reply ∷ told J format_time s m));
            })
  unfolding download_session firmware_action response
  download_session-firmware_action broker text payload id client cb accepting present registered
        parsed known first e begun apart =
      let (reply, is, made) =
        message_arrived-download_accepted format_time sample text payload
          (record { rc = pos 202; message = [] }) id client cb present registered parsed refl refl
          first e in
      let (m, le, progress) =
        check_download_progress-firmware_action J format_time s
          (record client.firmware_state { download_thread = true }) begun apart in
      let news = told J format_time s m in
      let counted : Client J = record client {
        callback = some (record cb { arrived_messages = cb.arrived_messages + 1 });
        firmware_state = record client.firmware_state { download_thread = true };
        reply_msgs = client.reply_msgs ++ (reply ∷ []);
      } in
      let wake_ups = length client.reply_msgs + (m + 2) in
      let methods = firmware_action J format_time s in
      let enough : wake_ups ≡ length (counted.reply_msgs ++ news) = omega (
        arith,
        length-append (client.reply_msgs ++ (reply ∷ [])) news,
        length-append client.reply_msgs (reply ∷ []),
        length-told J format_time s m,
      ) in
      let publish = λ (ms : List (ReplyMessage J)) (c : Client J).
        (rounds wake_ups (publish_front broker) (hand_over ms c)).1 in
      (
        reply,
        is,
        m,
        le,
        ap
              (λ r.
                publish
                  (check_download_progress J format_time methods r.1.firmware_client
                    r.1.firmware_state)
                  r.1)
              made
            ∙ ap
                (λ b.
                  publish (check_download_progress J format_time methods b counted.firmware_state)
                    counted)
                known
            ∙ ap (λ ms. publish ms counted) progress
            ∙ rounds-hand_over broker wake_ups news counted accepting enough
            ∙ ap
                (λ q. record counted { reply_msgs = []; calls = client.calls ++ map publication q })
                (append_assoc client.reply_msgs (reply ∷ []) news),
      )
