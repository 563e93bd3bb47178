-- ===== src/ReplyQueue/Publishing/Answered.antt =====
-- A request of the platform, from its arrival to the publication of its answer.
use ibmiotf_cpp.Base.{
  ◌≡◌, refl, ap, ◌∙◌, ℕ, suc, pos, some, List, [], ◌∷◌, ◌++◌, append_assoc, append-nil, map, length,
  length-append, arith, ok, ◌+◌, ℤ,
}
use ibmiotf_cpp.Base.Exec.{rounds, continue}
use ibmiotf_cpp.Json.{JsonLib}
use ibmiotf_cpp.Text.{Text, codes}
use ibmiotf_cpp.Topics.{server_observe_topic, device_response_topic}
use ibmiotf_cpp.Mqtt.{Broker, Accepts, publish}
use ibmiotf_cpp.Device.Info.{get_text}
use ibmiotf_cpp.Reply.{ActionResponse, ReplyMessage}
use ibmiotf_cpp.Reply.Contents.{IsReply}
use ibmiotf_cpp.Callback.{Callback, equal_range, firmware}
use ibmiotf_cpp.Client.{Client, invoke-accepted, wait_for_completion}
use ibmiotf_cpp.Client.Dispatch.{Methods, message_arrived}
use ibmiotf_cpp.Client.Dispatch.Delivery.{message_arrived-firmware}
use ibmiotf_cpp.ReplyQueue.Publishing.{publication, publish_reply, publish_front}
use ibmiotf_cpp.ReplyQueue.Publishing.Published.{map-append}

suc-length : {A : Type 0} (xs : List A) (x : A) → suc (length xs) ≡ length (xs ++ (x ∷ []))
suc-length xs x = omega (arith, length-append xs (x ∷ []))

module _ {J : JsonLib} (broker : Broker) where
  -- The handling of a message, and then so many wake-ups of the reply thread.
  unfoldable pub arrive_and_publish : (ℤ → Text) → Methods J → Text → Text → ℕ → Client J → Client J
  arrive_and_publish format_time app topic text n c =
      (rounds n (publish_front broker) (message_arrived format_time app topic text c).1).1

module _ {J : JsonLib} (broker : Broker) (accepting : Accepts broker) where
  publish_reply-accepted :
      (reply : ReplyMessage J) (c : Client J)
      → publish_reply broker reply c
        ≡ (ok tt, record c { calls = c.calls ++ (publication reply ∷ []) })
  unfolding publish_reply wait_for_completion
  publish_reply-accepted reply c = rw (invoke-accepted broker accepting)

  front-accepted :
      (reply : ReplyMessage J) (rest : List (ReplyMessage J)) (c : Client J)
      → c.reply_msgs ≡ reply ∷ rest
      → publish_front broker c
        ≡ (ok tt, record c { reply_msgs = rest; calls = c.calls ++ (publication reply ∷ []) })
  unfolding publish_front
  front-accepted reply rest c e =
      rw (e, publish_front) (publish_reply-accepted reply (record c { reply_msgs = rest }))

  -- As many wake-ups as there are replies publish them all, in order.
  pub rounds-publish_front :
      (queue : List (ReplyMessage J)) (c : Client J)
      → c.reply_msgs ≡ queue
      → rounds (length queue) (publish_front broker) c
        ≡ (ok tt, record c { reply_msgs = []; calls = c.calls ++ map publication queue })
  unfolding rounds
  rounds-publish_front [] c e = ap (λ l. (ok tt, record c { reply_msgs = l })) e ∙ rw append-nil
  rounds-publish_front (reply ∷ rest) c e =
      ap (λ r. continue r (λ _. rounds (length rest) (publish_front broker)))
        (front-accepted reply rest c e)
      ∙ rounds-publish_front rest
          (record c { reply_msgs = rest; calls = c.calls ++ (publication reply ∷ []) }) refl
      ∙ rw append_assoc

  -- A request whether the firmware can be downloaded is answered: where its text is JSON with a text as its
  -- request id, the firmware handler alone is registered for it, the application has a response, and every call
  -- of the broker succeeds, then one wake-up of the reply thread for each reply that was in the queue, and one more,
  -- leave the queue empty and publish these replies in order, and at last, on the response topic with QoS 1, a
  -- reply with that response and the id of the request. Nothing else changes but the message counter.
  pub request_answered :
      (format_time : ℤ → Text) (app : Methods J) (text : Text) (payload : JsonLib.Value J)
      (rsp : ActionResponse) (id : Text) (client : Client J) (cb : Callback)
      → client.callback ≡ some cb
      → equal_range server_observe_topic cb.handlers ≡ firmware ∷ []
      → J.parse text ≡ some payload
      → app.firmware_methods.is_ready_for_download client.firmware_state.fwinfo ≡ some rsp
      → get_text J payload (codes "reqId") ≡ ok id
      → (reply : ReplyMessage J) × IsReply J rsp id reply
        × (arrive_and_publish broker format_time app server_observe_topic text
              (suc (length client.reply_msgs))
              client
            ≡ record client {
              callback = some (record cb { arrived_messages = cb.arrived_messages + 1 });
              reply_msgs = [];
              calls =
                  client.calls
                  ++ (map publication client.reply_msgs
                      ++ (publish device_response_topic (J.write reply.payload) (pos 1) ∷ []));
            })
  unfolding arrive_and_publish publication
  request_answered format_time app text payload rsp id client cb present registered parsed r e =
      let (reply, is, made) =
        message_arrived-firmware format_time app text payload rsp id client cb present registered
          parsed r e in
      let queue = client.reply_msgs in
      let counted : Client J = record client {
        callback = some (record cb { arrived_messages = cb.arrived_messages + 1 });
        reply_msgs = queue ++ (reply ∷ []);
      } in
      let answer : publication reply
          ≡ publish device_response_topic (J.write reply.payload) (pos 1) =
        ap (λ t. publish t (J.write reply.payload) reply.qos) is.topic
        ∙ ap (λ q. publish device_response_topic (J.write reply.payload) q) is.qos in
      (
        reply,
        is,
        ap (λ x. (rounds (suc (length queue)) (publish_front broker) x.1).1) made
            ∙ ap (λ n. (rounds n (publish_front broker) counted).1) (suc-length queue reply)
            ∙ ap (λ x. x.1) (rounds-publish_front (queue ++ (reply ∷ [])) counted refl)
            ∙ ap (λ calls. record counted { reply_msgs = []; calls = client.calls ++ calls })
                (map-append publication queue (reply ∷ [])
                  ∙ ap (λ x. map publication queue ++ (x ∷ [])) answer),
      )
