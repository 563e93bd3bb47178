-- ===== src/DeviceClient/Connect.antt =====
-- What the calls of a device client make of its state, and the calls of the MQTT client that they make.
use ibmiotf_cpp.Base.{
  ◌≡◌, refl, ap, ◌∙◌, true, false, inl, inr, Bool-cases, none, some, [], ◌∷◌, ◌++◌, append_assoc,
  ok, if◌then◌else◌, pos,
}
use ibmiotf_cpp.Base.Exec.{continue, pure}
use ibmiotf_cpp.Json.{JsonLib}
use ibmiotf_cpp.Text.{codes, text_eq}
use ibmiotf_cpp.Mqtt.{Broker, Call, Accepts, create, subscribe, set_callback}
use ibmiotf_cpp.Properties.{is_quickstart}
use ibmiotf_cpp.Callback.{new_callback, check_subscription, contains, add_subscription}
use ibmiotf_cpp.Client.{Client, invoke-accepted}
use ibmiotf_cpp.Client.Session.{connect_options, auth_supported}
use ibmiotf_cpp.Client.Session.Accepted.{connect_client-accepted, subscribe_topic-accepted}
use ibmiotf_cpp.DeviceClient.{
  command_topic, can_initialize, server_uri, client_id, initialize_mqtt_client, subscribe_commands,
  connect,
}

module _ {J : JsonLib} (broker : Broker) where
  pub initialize_mqtt_client-accepted :
      Accepts broker
      → (c : Client J)
      → initialize_mqtt_client broker c ≡ (
          if can_initialize c.properties
          then (
            ok true,
            record c {
              server_uri = server_uri c.properties;
              client_id = client_id c.properties;
              calls = c.calls ++ (create (server_uri c.properties) (client_id c.properties) ∷ []);
            },
          )
          else (ok false, c))
  unfolding initialize_mqtt_client
  initialize_mqtt_client-accepted accepting c = elim (Bool-cases (can_initialize c.properties)) [
    | inl e ↦ rw (e, invoke-accepted broker accepting)
    | inr e ↦ rw e
  ]

  -- Where the properties pass the tests, and every call of the broker succeeds, connect with the auth
  -- method "token" to an organization other than "quickstart" says true; the client has its address
  -- and id, a new callback, subscribed to the command topic, and made four calls in this order: the
  -- MQTT client, its connection, the callback, the subscription.
  pub connect-registered :
      (c : Client J)
      → can_initialize c.properties ≡ true
      → is_quickstart c.properties.org_id ≡ false
      → text_eq c.properties.auth_method (codes "token") ≡ true
      → Accepts broker
      → connect broker c ≡ (
        ok true,
        record c {
          server_uri = server_uri c.properties;
          client_id = client_id c.properties;
          callback = some (add_subscription command_topic new_callback);
          calls =
              c.calls
              ++ (create (server_uri c.properties) (client_id c.properties)
                  ∷ Call.connect (connect_options c.properties c.keep_alive_interval)
                  ∷ set_callback
                  ∷ subscribe command_topic (pos 1)
                  ∷ []);
        },
      )
  unfolding connect subscribe_commands auth_supported check_subscription contains new_callback
  connect-registered c can q a accepting =
      let opened : Client J = record c {
        server_uri = server_uri c.properties;
        client_id = client_id c.properties;
        callback = some new_callback;
        calls =
            (c.calls ++ (create (server_uri c.properties) (client_id c.properties) ∷ []))
            ++ (Call.connect (connect_options c.properties c.keep_alive_interval)
                ∷ (set_callback ∷ []));
      } in
      rw
        (
          initialize_mqtt_client-accepted accepting c,
          can,
          connect_client-accepted broker accepting,
          q,
          a,
        )
        (ap (λ r. continue (continue r (λ _. pure tt)) (λ _. pure true))
            (subscribe_topic-accepted broker accepting command_topic (pos 1) opened new_callback
              refl refl)
          ∙ rw (append_assoc, append_assoc))

  -- Where the properties pass the tests, and every call of the broker succeeds, connect to the
  -- organization "quickstart" says true; the client has its address and id and a new callback, and
  -- made three calls in this order: the MQTT client, its connection without user name, password and
  -- SSL options, the callback. Nothing is subscribed.
  pub connect-quickstart :
      (c : Client J)
      → can_initialize c.properties ≡ true
      → is_quickstart c.properties.org_id ≡ true
      → Accepts broker
      → connect broker c ≡ (
        ok true,
        record c {
          server_uri = server_uri c.properties;
          client_id = client_id c.properties;
          callback = some new_callback;
          calls =
              c.calls
              ++ (create (server_uri c.properties) (client_id c.properties)
                  ∷ Call.connect (record {
                    clean_session = true;
                    keep_alive_interval = c.keep_alive_interval;
                    user_name = none;
                    password = none;
                    ssl = none;
                  })
                  ∷ set_callback
                  ∷ []);
        },
      )
  unfolding connect auth_supported connect_options
  connect-quickstart c can q accepting = rw (
    initialize_mqtt_client-accepted accepting c,
    can,
    connect_client-accepted broker accepting,
    q,
    append_assoc,
  )

  -- A client whose properties do not pass the tests does not connect.
  pub connect-refused :
      (c : Client J) → can_initialize c.properties ≡ false → connect broker c ≡ (ok false, c)
  unfolding connect initialize_mqtt_client
  connect-refused c e = rw e
