-- ===== src/DeviceClient/Managing.antt =====
-- manage() of src/IOTP_DeviceClient.cpp where the platform grants the request.
use ibmiotf_cpp.Base.{
  ℕ, ◌+◌, ◌%◌, pos, negsuc, ◌≡◌, refl, ap, ◌∙◌, Bool, true, false, none, some, [], ◌∷◌, ◌++◌,
  append_assoc, ok, Result,
}
use ibmiotf_cpp.Base.Exec.{continue, pure}
use ibmiotf_cpp.Json.{JsonLib}
use ibmiotf_cpp.Text.{codes, size_mod}
use ibmiotf_cpp.Topics.{server_response_topic, device_manage_topic}
use ibmiotf_cpp.Mqtt.{Broker, Accepts, publish, subscribe}
use ibmiotf_cpp.Callback.{Callback, response, contains_entry, check_handler, add_handler}
use ibmiotf_cpp.Device.Info.{get_text}
use ibmiotf_cpp.Response.{lookup}
use ibmiotf_cpp.Client.{Client, set_client}
use ibmiotf_cpp.Client.Session.Accepted.{subscribe_command_handler-accepted}
use ibmiotf_cpp.Client.Manage.Requests.{req_id_at, request_payload, request_lem}
use ibmiotf_cpp.DeviceClient.{DeviceClient, manage, manage_data}
use ibmiotf_cpp.Client.Manage.Subscribed.{subscriptions, managed_topics, subscribe_managed_lem}

module _ {J : JsonLib} (broker : Broker) (accepting : Accepts broker) where
  -- Where every call of the broker succeeds, a client with a callback without handlers calls
  -- manage(), and the response with the return code 200 arrives during the wait, manage() says true,
  -- and its calls are these, in this order: the subscription to the responses, the request with the
  -- client's data, and the subscriptions of the handlers that it has, to their topics, first the
  -- firmware handler, then the action handler, then the attribute handler. No response with the id of the
  -- request is stored before, and none arrives before the wait.
  pub manage-granted :
      (now : ℕ) (d : DeviceClient J) (cb : Callback) (info payload code : JsonLib.Value J)
      → d.client.callback ≡ some cb
      → cb.handlers ≡ []
      → manage_data broker d ≡ ok info
      → get_text J payload (codes "reqId") ≡ ok (req_id_at now d.client)
      → lookup (req_id_at now d.client) d.client.responses ≡ none
      → J.get payload (codes "rc") (J.int (negsuc 0)) ≡ ok code
      → J.as_int code ≡ ok (pos 200)
      → ((manage broker
            (record {
              now = now;
              early = [];
              wake = record { arrived = payload ∷ []; timed_out = false };
            })
            d).0
          ≡ ok true)
        × ((manage broker
              (record {
                now = now;
                early = [];
                wake = record { arrived = payload ∷ []; timed_out = false };
              })
              d).1.client.calls
            ≡ d.client.calls
              ++ (subscribe server_response_topic (pos 1)
                  ∷ publish device_manage_topic
                      (J.write (request_payload J (req_id_at now d.client) info))
                      (pos 1)
                  ∷ subscriptions (
                      managed_topics d.client.firmware_handler d.client.action_handler
                        d.attribute_handler)))
  unfolding manage manage_data check_handler add_handler contains_entry set_client
  manage-granted now d cb info payload code present empty m h free e i =
      let subscribed : Client J = record d.client {
        callback = some (add_handler server_response_topic response cb);
        calls = d.client.calls ++ (subscribe server_response_topic (pos 1) ∷ []);
      } in
      let sent : Client J = record subscribed {
        req_counter = (d.client.req_counter + 1) % size_mod;
        calls =
            subscribed.calls
            ++ (publish device_manage_topic
                  (J.write (request_payload J (req_id_at now d.client) info)) (pos 1)
                ∷ []);
      } in
      let ends =
        subscribe_managed_lem broker accepting d.client.firmware_handler d.client.action_handler
          d.attribute_handler sent
          (record {
            callback = add_handler server_response_topic response cb;
            is_callback = refl;
            is_entries = rw empty refl;
            is_calls = refl;
            is_firmware = refl;
            is_action = refl;
          }) in
      let finish : Result (Unit {0}) × Client J → Result Bool × DeviceClient J =
        λ r. continue (r.0, record d { client = r.1 }) (λ _. pure true) in
      rw
        (
          subscribe_command_handler-accepted broker accepting server_response_topic response
              d.client cb present (rw empty refl),
          m,
          request_lem broker accepting now device_manage_topic info payload code (pos 200)
              subscribed h free e i,
        )
        (
          ap (λ r. (finish r).0) ends.is_result,
          ap (λ r. (finish r).1.client.calls) ends.is_result
              ∙ ends.holding.is_calls
              ∙ rw (append_assoc, append_assoc),
        )
