-- ===== src/Samples/Gateway/Session.antt =====
-- What samples/sampleGateway.cpp asks of the MQTT client, from its start to its end.
use ibmiotf_cpp.Base.{
  ℕ, ℤ, pos, negsuc, ◌≡◌, refl, ap, ◌∙◌, true, false, Option, some, List, [], ◌∷◌, ◌++◌,
  append_assoc, ok, arith,
}
use ibmiotf_cpp.Base.Exec.{continue, pure}
use ibmiotf_cpp.Json.{JsonLib}
use ibmiotf_cpp.Text.{Text, codes, text_eq, is_empty}
use ibmiotf_cpp.Mqtt.{Broker, Call, Accepts, publish, subscribe, unsubscribe}
use ibmiotf_cpp.Properties.{Properties, default_properties}
use ibmiotf_cpp.Properties.Config.{initialize_from_file}
use ibmiotf_cpp.Callback
use ibmiotf_cpp.Callback.{
  new_callback, add_subscription, check_subscription, remove_subscription, contains,
}
use ibmiotf_cpp.Client.{Client, the_callback, put_callback, invoke-accepted, wait_for_completion}
use ibmiotf_cpp.Client.Lifecycle.{construct}
use ibmiotf_cpp.Client.Session.{set_command_handler, publish_topic}
use ibmiotf_cpp.Client.Session.Accepted.{subscribe_topic-accepted}
use ibmiotf_cpp.GatewayClient.{
  GatewayClient, command_filter, event_topic, can_initialize, subscribe_device_commands, disconnect,
  publish_gateway_event, publish_gateway_event_listening, publish_device_event,
  publish_device_event_listening, new_gateway_from_file,
}
use ibmiotf_cpp.GatewayClient.Opened.{own_filter, own_found, last_found}
use ibmiotf_cpp.GatewayClient.Connect.{opening_calls, opened, connect-opened}
use ibmiotf_cpp.GatewayClient.Sessions.{disconnect-accepted}
use ibmiotf_cpp.Samples.Scope.{caught, leave}
use ibmiotf_cpp.Samples.Scope.Leaving.{
  creates, creates-append, creates-repeat, repeat, rounds_lem, leave-made,
}
use ibmiotf_cpp.Samples.Device.{temp_34, temp_44}
use ibmiotf_cpp.Samples.Device.Session.{construct-read}
use ibmiotf_cpp.Samples.Gateway.{
  attached, test_gateway, publish_all, block, run_gateway_block, run_gateway, main,
}

abbrev device_filter : Text
device_filter = command_filter attached test_gateway

-- The callback of the session.
abbrev both_topics : Text → Callback.Callback
both_topics own =
    Callback.set_callback true (add_subscription device_filter (add_subscription own new_callback))

both-own : (own : Text) → check_subscription own (both_topics own) ≡ true
unfolding add_subscription Callback.set_callback new_callback
both-own own = own_found own device_filter [] (both_topics own) refl

both-device :
    (own : Text)
    → text_eq own device_filter ≡ false
    → check_subscription device_filter (remove_subscription own (both_topics own)) ≡ true
unfolding add_subscription Callback.set_callback new_callback contains
both-device own other = last_found own device_filter [] (both_topics own) refl (rw other)

-- The calls of one round, and those of the whole program.
abbrev round : Properties → List Call
round p =
    publish (event_topic p.device_type p.device_id (codes "temp") (codes "json")) temp_34 (pos 0)
    ∷ publish (event_topic p.device_type p.device_id (codes "temp") (codes "json")) temp_44 (pos 0)
    ∷ publish (event_topic attached test_gateway (codes "temp") (codes "json")) temp_34 (pos 0)
    ∷ publish (event_topic attached test_gateway (codes "temp") (codes "json")) temp_44 (pos 0)
    ∷ []

unfoldable pub session_calls : Properties → ℤ → ℕ → List Call
session_calls p interval n =
    opening_calls p interval
    ++ (subscribe device_filter (pos 1)
        ∷ (repeat n (round p)
            ++ (unsubscribe (own_filter p) ∷ unsubscribe device_filter ∷ Call.disconnect ∷ [])))

creates-session_calls :
    (p : Properties) (interval : ℤ) (n : ℕ) → creates (session_calls p interval n) ≡ 1
unfolding session_calls creates
creates-session_calls p interval n = omega (
  arith,
  creates-append (repeat n (round p))
      (unsubscribe (own_filter p) ∷ unsubscribe device_filter ∷ Call.disconnect ∷ []),
  creates-repeat n (round p) refl,
)

module _ {J : JsonLib} (broker : Broker) (accepting : Accepts broker) where
  publish_all_lem :
      (c : Client J)
      → publish_all broker c ≡ (ok tt, record c { calls = c.calls ++ round c.properties })
  unfolding publish_all publish_gateway_event publish_gateway_event_listening publish_device_event
      publish_device_event_listening publish_topic wait_for_completion
  publish_all_lem c = rw (
    invoke-accepted broker accepting,
    invoke-accepted broker accepting,
    invoke-accepted broker accepting,
    invoke-accepted broker accepting,
    append_assoc,
    append_assoc,
    append_assoc,
  )

  -- The gateway with the subscription to the device's commands, and after so many rounds.
  abbrev subscribed : GatewayClient J → GatewayClient J
  subscribed g = record g {
    client = record (opened g).client {
      callback = some (
          add_subscription device_filter
            (add_subscription (own_filter g.client.properties) new_callback));
      calls = (opened g).client.calls ++ (subscribe device_filter (pos 1) ∷ []);
    };
    gateway_cmd_topic = own_filter g.client.properties;
    device_cmd_topic = device_filter;
  }

  abbrev running : GatewayClient J → ℕ → GatewayClient J
  running g n = record (subscribed g) {
    client = record (subscribed g).client {
      callback = some (both_topics (own_filter g.client.properties));
      calls = (subscribed g).client.calls ++ repeat n (round g.client.properties);
    };
  }

  -- The gateway that the block leaves.
  abbrev closed : ℕ → GatewayClient J → GatewayClient J
  closed n g = record g {
    client = record (opened g).client {
      callback = some (
          remove_subscription device_filter (
            remove_subscription (own_filter g.client.properties)
              (both_topics (own_filter g.client.properties))));
      calls = g.client.calls ++ session_calls g.client.properties g.client.keep_alive_interval n;
    };
    gateway_cmd_topic = own_filter g.client.properties;
    device_cmd_topic = device_filter;
  }

  subscribe_lem :
      (g : GatewayClient J)
      → text_eq (own_filter g.client.properties) device_filter ≡ false
      → subscribe_device_commands broker attached test_gateway (opened g) ≡ (ok true, subscribed g)
  unfolding subscribe_device_commands check_subscription contains new_callback add_subscription
  subscribe_lem g other =
      ap (λ r. (r.0, record (subscribed g) { client = r.1 }))
        (subscribe_topic-accepted broker accepting device_filter (pos 1) (opened g).client
          (add_subscription (own_filter g.client.properties) new_callback) refl (rw other))

  disconnect_lem :
      (g : GatewayClient J) (n : ℕ)
      → text_eq (own_filter g.client.properties) device_filter ≡ false
      → disconnect broker (running g n) ≡ (ok tt, closed n g)
  unfolding session_calls is_empty command_filter codes
  disconnect_lem g n other =
      disconnect-accepted broker (running g n) (both_topics (own_filter g.client.properties)) refl
        refl refl (both-own (own_filter g.client.properties))
        (both-device (own_filter g.client.properties) other) accepting
      ∙ rw (append_assoc, append_assoc, append_assoc)

  block-opened :
      (g : GatewayClient J) (n : ℕ)
      → can_initialize g.client.properties ≡ true
      → text_eq g.client.properties.auth_method (codes "token") ≡ true
      → text_eq (own_filter g.client.properties) device_filter ≡ false
      → block broker n g ≡ (ok (pos 0), closed n g)
  unfolding block subscribe_device_commands set_command_handler the_callback put_callback
      session_calls
  block-opened g n can a other =
      let handled : GatewayClient J = record (running g n) {
        client = record (running g n).client { calls = (subscribed g).client.calls };
      } in
      rw (connect-opened broker accepting g can a, subscribe_lem g other)
        (ap
            (λ r.
              continue (continue (r.0, record handled { client = r.1 }) (λ _. disconnect broker))
                (λ _. pure (pos 0)))
            (rounds_lem n (publish_all broker) (round g.client.properties) handled.client (λ d e.
              publish_all_lem d ∙ ap (λ p. (ok tt, record d { calls = d.calls ++ round p })) e))
          ∙ ap (λ r. continue r (λ _. pure (pos 0))) (disconnect_lem g n other))

module _ (J : JsonLib) (format_time : ℤ → Text) (memory : Client J) (file : Option Text)
    (p : Properties) where
  -- Where the configuration is read with success, its properties pass the tests of a gateway, the auth
  -- method is "token", the gateway's own topic is not that of the attached device, and every call of the broker
  -- succeeds, the gateway sample that is interrupted after n rounds ends with the exit code 0, without an
  -- exception and its client destroyed. All its calls are, in this order: those of the connection, with the
  -- subscription to the gateway's own commands, the subscription to those of the device, in every round two
  -- publications of the gateway and two of the device, at the end both topics are unsubscribed, and the
  -- client disconnected.
  pub main-gateway :
      (broker : Broker) (n : ℕ)
      → Accepts broker
      → initialize_from_file J file default_properties ≡ (ok true, p)
      → can_initialize p ≡ true
      → text_eq p.auth_method (codes "token") ≡ true
      → text_eq (own_filter p) device_filter ≡ false
      → main J format_time broker memory file n ≡ (ok (pos 0), session_calls p (pos 60) n)
  unfolding main run_gateway new_gateway_from_file run_gateway_block caught construct
  main-gateway broker n accepting e can a other =
      let l = construct J format_time p false false in
      let g : GatewayClient J = record {
        client = l.client;
        gateway_cmd_topic = [];
        device_cmd_topic = [];
      } in
      rw (construct-read J format_time memory file p e, new_gateway_from_file, run_gateway, main)
        (ap (λ r. (caught (negsuc 0) (leave broker l r.1.client r.0), r.1.client.calls))
            (block-opened broker accepting g n can a other)
          ∙ ap (λ r. (caught (negsuc 0) r, session_calls p (pos 60) n))
              (leave-made broker accepting 0 l (closed broker accepting n g).client (ok (pos 0))
                refl (creates-session_calls p (pos 60) n) refl))
