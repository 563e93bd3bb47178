-- ===== src/GatewayClient/Sessions.antt =====
-- What a gateway refuses, and what it leaves subscribed.
use ibmiotf_cpp.Base.{
  ◌≡◌, refl, ap, ◌∙◌, true, false, ◌||◌, some, [], ◌∷◌, ◌++◌, append_assoc, ok, arith,
}
use ibmiotf_cpp.Base.Exec.{continue, pure}
use ibmiotf_cpp.Json.{JsonLib}
use ibmiotf_cpp.Text.{codes, text_eq, is_empty}
use ibmiotf_cpp.Mqtt.{Broker, Call, Accepts}
use ibmiotf_cpp.Properties.{Properties, is_quickstart}
use ibmiotf_cpp.Callback.{Callback, check_subscription, remove_subscription}
use ibmiotf_cpp.Client.{complete-accepted}
use ibmiotf_cpp.Client.Session.{disconnect_client}
use ibmiotf_cpp.Client.Session.Accepted.{unsubscribe_commands-accepted}
use ibmiotf_cpp.GatewayClient.{
  GatewayClient, on_client, can_initialize, initialize_mqtt_client, connect, disconnect,
}

pub can_initialize-quickstart :
    (p : Properties)
    → (is_quickstart p.org_id
        || (text_eq p.org_id (codes "QuickStart") || text_eq p.org_id (codes "QUICKSTART")))
      ≡ true
    → can_initialize p ≡ false
unfolding can_initialize
can_initialize-quickstart p h = rw h (ground arith)

module _ {J : JsonLib} (broker : Broker) where
  -- A gateway for the organization "quickstart", in any of the three spellings that are tested, does
  -- not connect: connect says false, makes no call and changes nothing.
  pub connect-quickstart_refused :
      (g : GatewayClient J)
      → (is_quickstart g.client.properties.org_id
          || (text_eq g.client.properties.org_id (codes "QuickStart")
              || text_eq g.client.properties.org_id (codes "QUICKSTART")))
        ≡ true
      → connect broker g ≡ (ok false, g)
  unfolding connect initialize_mqtt_client
  connect-quickstart_refused g h = rw (can_initialize-quickstart g.client.properties h)

  -- The gateway that disconnect leaves, where the calls succeed, and both topics are subscribed.
  pub disconnect-accepted :
      (g : GatewayClient J) (cb : Callback)
      → g.client.callback ≡ some cb
      → is_empty g.gateway_cmd_topic ≡ false
      → is_empty g.device_cmd_topic ≡ false
      → check_subscription g.gateway_cmd_topic cb ≡ true
      → check_subscription g.device_cmd_topic (remove_subscription g.gateway_cmd_topic cb) ≡ true
      → Accepts broker
      → disconnect broker g ≡ (
        ok tt,
        record g {
          client = record g.client {
            callback = some (
                remove_subscription g.device_cmd_topic
                  (remove_subscription g.gateway_cmd_topic cb));
            calls =
                g.client.calls
                ++ (Call.unsubscribe g.gateway_cmd_topic
                    ∷ (Call.unsubscribe g.device_cmd_topic ∷ (Call.disconnect ∷ [])));
          };
        },
      )
  unfolding disconnect disconnect_client
  disconnect-accepted g cb present e1 e2 s1 s2 accepting =
      let left : GatewayClient J = record g {
        client = record g.client {
          callback = some (remove_subscription g.gateway_cmd_topic cb);
          calls = g.client.calls ++ (Call.unsubscribe g.gateway_cmd_topic ∷ []);
        };
      } in
      rw
        (
          e1,
          unsubscribe_commands-accepted broker accepting g.gateway_cmd_topic g.client cb present s1,
          e2,
        )
        (ap
            (λ r.
              continue (continue (r.0, record left { client = r.1 }) (λ _. pure tt))
                (λ _. on_client broker (disconnect_client broker)))
            (unsubscribe_commands-accepted broker accepting g.device_cmd_topic left.client
              (remove_subscription g.gateway_cmd_topic cb) refl s2)
          ∙ rw (complete-accepted broker accepting, append_assoc, append_assoc))

  -- disconnect asks to unsubscribe the gateway's own topic and one device topic, the last one that was
  -- subscribed, before it disconnects. The calls succeed, and both topics are subscribed.
  pub disconnect-calls :
      (g : GatewayClient J) (cb : Callback)
      → g.client.callback ≡ some cb
      → is_empty g.gateway_cmd_topic ≡ false
      → is_empty g.device_cmd_topic ≡ false
      → check_subscription g.gateway_cmd_topic cb ≡ true
      → check_subscription g.device_cmd_topic (remove_subscription g.gateway_cmd_topic cb) ≡ true
      → Accepts broker
      → (disconnect broker g).1.client.calls
        ≡ g.client.calls
          ++ (Call.unsubscribe g.gateway_cmd_topic
              ∷ (Call.unsubscribe g.device_cmd_topic ∷ (Call.disconnect ∷ [])))
  disconnect-calls g cb present e1 e2 s1 s2 accepting =
      ap (λ r. r.1.client.calls) (disconnect-accepted g cb present e1 e2 s1 s2 accepting)
