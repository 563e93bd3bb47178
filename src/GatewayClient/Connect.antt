-- ===== src/GatewayClient/Connect.antt =====
-- A gateway of src/IOTP_GatewayClient.cpp that connects.
use ibmiotf_cpp.Base.{◌≡◌, refl, ap, ◌∙◌, ℤ, true, some, List, [], ◌∷◌, ◌++◌, append_assoc, ok, pos}
use ibmiotf_cpp.Base.Exec.{continue, pure}
use ibmiotf_cpp.Json.{JsonLib}
use ibmiotf_cpp.Text.{codes, text_eq}
use ibmiotf_cpp.Mqtt.{Broker, Call, Accepts, create, subscribe, set_callback}
use ibmiotf_cpp.Properties.{Properties}
use ibmiotf_cpp.Callback.{new_callback, check_subscription, contains, add_subscription}
use ibmiotf_cpp.Client.{Client, invoke-accepted}
use ibmiotf_cpp.Client.Session.{connect_options, auth_supported}
use ibmiotf_cpp.Client.Session.Accepted.{connect_client-accepted, subscribe_topic-accepted}
use ibmiotf_cpp.GatewayClient.{
  GatewayClient, can_initialize, server_uri, client_id, initialize_mqtt_client,
  subscribe_gateway_commands, connect,
}
use ibmiotf_cpp.GatewayClient.Opened.{can_initialize-registered, own_filter}

-- What connect asks of the MQTT client.
abbrev pub opening_calls : Properties → ℤ → List Call
opening_calls p interval =
    create (server_uri p) (client_id p)
    ∷ Call.connect (connect_options p interval)
    ∷ set_callback
    ∷ subscribe (own_filter p) (pos 1)
    ∷ []

module _ {J : JsonLib} where
  -- The gateway that connect leaves.
  abbrev pub opened : GatewayClient J → GatewayClient J
  opened g = record g {
    client = record g.client {
      server_uri = server_uri g.client.properties;
      client_id = client_id g.client.properties;
      callback = some (add_subscription (own_filter g.client.properties) new_callback);
      calls = g.client.calls ++ opening_calls g.client.properties g.client.keep_alive_interval;
    };
    gateway_cmd_topic = own_filter g.client.properties;
  }

  -- Where the properties pass the tests, with the auth method "token", and every call of the broker succeeds,
  -- connect says true, and its calls are these: the MQTT client, its connection, the callback, the
  -- subscription to the gateway's own commands.
  pub connect-opened :
      (broker : Broker)
      → Accepts broker
      → (g : GatewayClient J) → can_initialize g.client.properties ≡ true
      → text_eq g.client.properties.auth_method (codes "token") ≡ true
      → connect broker g ≡ (ok true, opened g)
  unfolding connect initialize_mqtt_client subscribe_gateway_commands auth_supported new_callback
      check_subscription contains
  connect-opened broker accepting g can a =
      let p = g.client.properties in
      let connected : Client J = record g.client {
        server_uri = server_uri p;
        client_id = client_id p;
        callback = some new_callback;
        calls =
            (g.client.calls ++ (create (server_uri p) (client_id p) ∷ []))
            ++ (Call.connect (connect_options p g.client.keep_alive_interval)
                ∷ (set_callback ∷ []));
      } in
      rw
        (
          can,
          invoke-accepted broker accepting,
          connect_client-accepted broker accepting,
          can_initialize-registered p can,
          a,
        )
        (ap
            (λ r.
              continue
                (continue (r.0, record g { client = r.1; gateway_cmd_topic = own_filter p })
                  (λ _. pure tt))
                (λ _. pure true))
            (subscribe_topic-accepted broker accepting (own_filter p) (pos 1) connected new_callback
              refl refl)
          ∙ rw (append_assoc, append_assoc))
