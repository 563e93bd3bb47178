-- ===== src/GatewayClient/WholeSession.antt =====
-- A whole session of src/IOTP_GatewayClient.cpp: connect, commands of devices, disconnect.
use ibmiotf_cpp.Base.{
  ◌≡◌, refl, ap, ◌∙◌, sym, true, false, some, List, [], ◌∷◌, ◌++◌, append_assoc, append-nil, arith,
  pos,
}
use ibmiotf_cpp.Base.Exec.{Exec, pure, ◌>>◌}
use ibmiotf_cpp.Json.{JsonLib}
use ibmiotf_cpp.Text.{Text, codes, text_eq, is_empty}
use ibmiotf_cpp.Mqtt.{Broker, Call, Accepts, create, subscribe, unsubscribe, set_callback}
use ibmiotf_cpp.Callback.{new_callback, check_subscription, contains, add_subscription}
use ibmiotf_cpp.Client.Session.{connect_options}
use ibmiotf_cpp.Client.Session.Accepted.{subscribe_topic-accepted}
use ibmiotf_cpp.Client.Manage.Subscribed.{subscriptions}
use ibmiotf_cpp.GatewayClient.{
  GatewayClient, command_filter, can_initialize, server_uri, client_id, subscribe_device_commands,
  connect, disconnect,
}
use ibmiotf_cpp.GatewayClient.Sessions.{disconnect-calls}
use ibmiotf_cpp.GatewayClient.Connect.{opening_calls, opened, connect-opened}
use ibmiotf_cpp.GatewayClient.Opened.{
  own_filter, filters, all_new, all_new-append, own_found, last_found, Open, Opens,
}

module _ {J : JsonLib} (broker : Broker) where
  -- subscribeDeviceCommands for each device in turn
  unfoldable subscribe_devices : List (Text × Text) → Exec (GatewayClient J) (Unit {0})
  subscribe_devices [] = pure tt
  subscribe_devices ((device_type, device_id) ∷ devices) = do
    subscribe_device_commands broker device_type device_id
    subscribe_devices devices

  -- A session with commands of some devices, and of one more at last.
  unfoldable pub session : List (Text × Text) → Text → Text → Exec (GatewayClient J) (Unit {0})
  unfolding subscribe_devices
  session devices device_type device_id = do
    connect broker
    subscribe_devices devices
    subscribe_device_commands broker device_type device_id
    disconnect broker

  module _ (accepting : Accepts broker) where
    subscribe_device_lem :
        (t d : Text) {topics : List Text} {calls : List Call} {own : Text} (g : GatewayClient J)
        → contains (command_filter t d) topics ≡ false
        → Open topics calls own g
        → Opens true
            (topics ++ (command_filter t d ∷ []))
            (calls ++ (subscribe (command_filter t d) (pos 1) ∷ []))
            own
            (subscribe_device_commands broker t d g)
    unfolding subscribe_device_commands check_subscription add_subscription
    subscribe_device_lem t d g e k = record {
      gateway = record g {
        client = record g.client {
          callback = some (add_subscription (command_filter t d) k.callback);
          calls = g.client.calls ++ (subscribe (command_filter t d) (pos 1) ∷ []);
        };
        device_cmd_topic = command_filter t d;
      };
      is_result = rw (
          subscribe_topic-accepted broker accepting (command_filter t d) (pos 1) g.client k.callback
            k.is_callback (rw k.is_topics e));
      is_open = record {
        callback = add_subscription (command_filter t d) k.callback;
        is_callback = refl;
        is_topics = rw k.is_topics;
        is_calls = rw k.is_calls;
        is_own = k.is_own;
      };
    }

    connect-Opens :
        (g : GatewayClient J)
        → can_initialize g.client.properties ≡ true
        → text_eq g.client.properties.auth_method (codes "token") ≡ true
        → Opens true
            (own_filter g.client.properties ∷ [])
            (g.client.calls ++ opening_calls g.client.properties g.client.keep_alive_interval)
            (own_filter g.client.properties)
            (connect broker g)
    unfolding new_callback add_subscription
    connect-Opens g can a = record {
      gateway = opened g;
      is_result = connect-opened broker accepting g can a;
      is_open = record {
        callback = add_subscription (own_filter g.client.properties) new_callback;
        is_callback = refl;
        is_topics = refl;
        is_calls = refl;
        is_own = refl;
      };
    }

    subscribe_devices_lem :
        (ds : List (Text × Text)) {topics : List Text} {calls : List Call} {own : Text}
        (g : GatewayClient J)
        → all_new topics (filters ds) ≡ true
        → Open topics calls own g
        → Opens tt
            (topics ++ filters ds)
            (calls ++ subscriptions (filters ds))
            own
            (subscribe_devices ds g)
    unfolding subscribe_devices all_new
    subscribe_devices_lem [] {topics} {calls} g e k =
        rw (append-nil topics, append-nil calls)
          (record { gateway = g; is_result = refl; is_open = k })
    subscribe_devices_lem ((t, d) ∷ ds) {topics} {calls} g e k =
        let first = subscribe_device_lem t d g (ground arith) k in
        let rest = subscribe_devices_lem ds first.gateway (ground arith) first.is_open in
        rw first.is_result (rw (append_assoc, append_assoc) at rest)

    -- The last filter is the one that disconnect takes for the devices' topic.
    subscribe_device-topic :
        (t d : Text) (g : GatewayClient J)
        → (subscribe_device_commands broker t d g).1.device_cmd_topic ≡ command_filter t d
    unfolding subscribe_device_commands
    subscribe_device-topic t d g = refl

    disconnect-Open :
        (own last : Text) (ts : List Text) {calls : List Call} (g : GatewayClient J)
        → is_empty own ≡ false
        → is_empty last ≡ false
        → contains last (own ∷ ts) ≡ false
        → g.device_cmd_topic ≡ last
        → Open ((own ∷ ts) ++ (last ∷ [])) calls own g
        → (disconnect broker g).1.client.calls
          ≡ calls ++ (unsubscribe own ∷ unsubscribe last ∷ Call.disconnect ∷ [])
    disconnect-Open own last ts g e1 e2 n device k =
        disconnect-calls broker g k.callback k.is_callback (rw k.is_own e1) (rw device e2)
          (rw k.is_own (own_found own last ts k.callback k.is_topics))
          (rw (k.is_own, device) (last_found own last ts k.callback k.is_topics n)) accepting
        ∙ rw (k.is_calls, k.is_own, device)

    -- Where every call of the broker succeeds, and the properties pass the tests, with the auth method
    -- "token", a gateway that connects, subscribes to the commands of some devices in turn and of one
    -- more at last, and disconnects, makes these calls: those of the connection, the subscriptions of its own
    -- topic and of every device, and at the end it asks to unsubscribe its own topic and that of the
    -- last device alone. The topics differ.
    pub session-calls :
        (devices : List (Text × Text)) (device_type device_id : Text) (g : GatewayClient J)
        → can_initialize g.client.properties ≡ true
        → text_eq g.client.properties.auth_method (codes "token") ≡ true
        → all_new
            (own_filter g.client.properties ∷ [])
            (filters devices ++ (command_filter device_type device_id ∷ []))
          ≡ true
        → (session devices device_type device_id g).1.client.calls
          ≡ g.client.calls
            ++ (create (server_uri g.client.properties) (client_id g.client.properties)
                ∷ Call.connect (connect_options g.client.properties g.client.keep_alive_interval)
                ∷ set_callback
                ∷ subscribe (own_filter g.client.properties) (pos 1)
                ∷ (subscriptions (filters devices)
                    ++ (subscribe (command_filter device_type device_id) (pos 1)
                        ∷ unsubscribe (own_filter g.client.properties)
                        ∷ unsubscribe (command_filter device_type device_id)
                        ∷ Call.disconnect
                        ∷ [])))
    unfolding session all_new command_filter codes is_empty
    session-calls devices t d g can a fresh =
        let p = g.client.properties in
        let split =
          rw (all_new-append (own_filter p ∷ []) (filters devices) (command_filter t d ∷ [])) at
            fresh in
        let o1 = connect-Opens g can a in
        let o2 = subscribe_devices_lem devices o1.gateway (ground arith) o1.is_open in
        let new : contains (command_filter t d) (own_filter p ∷ filters devices) ≡ false =
          ground arith in
        let o3 = subscribe_device_lem t d o2.gateway new o2.is_open in
        rw (o1.is_result, o2.is_result, o3.is_result)
          (disconnect-Open (own_filter p) (command_filter t d) (filters devices) o3.gateway refl
              refl new
              (ap (λ r. r.1.device_cmd_topic) (sym o3.is_result)
                ∙ subscribe_device-topic t d o2.gateway)
              o3.is_open
            ∙ rw (append_assoc, append_assoc, append_assoc))
