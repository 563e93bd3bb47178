-- ===== src/GatewayClient.antt =====
-- src/IOTP_GatewayClient.h and .cpp
pub mod Sessions
pub mod Opened
pub mod Connect
pub mod WholeSession
pub mod Filters
use ibmiotf_cpp.Base.{
  ℤ, pos, Bool, true, false, not, ◌||◌, [], ◌++◌, Option, Result, ok, err, if◌then◌else◌,
}
use ibmiotf_cpp.Base.Exec.{Exec, pure, gets, modify, ◌>>=◌, ◌>>◌, when}
use ibmiotf_cpp.Json.{JsonLib}
use ibmiotf_cpp.Text.{Text, codes, is_empty, text_eq}
use ibmiotf_cpp.Text.Decimal.{decimal_int}
use ibmiotf_cpp.Mqtt.{Broker, create}
use ibmiotf_cpp.Properties.{Properties, is_quickstart}
use ibmiotf_cpp.Client.Lifecycle.{Lifetime, construct_from_file}
use ibmiotf_cpp.Client.{Client, new_client, invoke, wait_for_completion}
use ibmiotf_cpp.Client.Session.{
  connect_client, publish_topic, subscribe_topic, unsubscribe_commands, disconnect_client,
}

module _ (J : JsonLib) where
  pub record GatewayClient : Type 0 where
    pub client : Client J
    pub gateway_cmd_topic : Text
    pub device_cmd_topic : Text

unfoldable pub new_gateway : (J : JsonLib) → (ℤ → Text) → Properties → GatewayClient J
unfolding new_client
new_gateway J format_time properties = record {
  client = new_client J format_time properties false false;
  gateway_cmd_topic = [];
  device_cmd_topic = [];
}

-- The constructor with a file, which passes it on to that of the client.
unfoldable pub new_gateway_from_file :
    (J : JsonLib) → (ℤ → Text) → Client J → Option Text → Result (GatewayClient J × Lifetime J)
new_gateway_from_file J format_time memory file =
    elim (construct_from_file J format_time memory file) [
      | ok l ↦ ok (record { client = l.client; gateway_cmd_topic = []; device_cmd_topic = [] }, l)
      | err e ↦ err e
    ]

-- "iot-2/type/" + type + "/id/" + id + "/cmd/+/fmt/+"
unfoldable pub command_filter : Text → Text → Text
command_filter device_type device_id =
    codes "iot-2/type/" ++ (device_type ++ (codes "/id/" ++ (device_id ++ codes "/cmd/+/fmt/+")))

-- The topic of publishGatewayEvent and publishDeviceEvent.
unfoldable pub event_topic : Text → Text → Text → Text → Text
event_topic device_type device_id event_type event_format =
    codes "iot-2/type/"
    ++ (device_type
        ++ (codes "/id/"
            ++ (device_id ++ (codes "/evt/" ++ (event_type ++ (codes "/fmt/" ++ event_format))))))

-- The tests of InitializeMqttClient.
unfoldable pub can_initialize : Properties → Bool
can_initialize p =
    if is_empty p.org_id
    then false
    else if is_quickstart p.org_id
        || (text_eq p.org_id (codes "QuickStart") || text_eq p.org_id (codes "QUICKSTART"))
    then false
    else if is_empty p.domain
    then false
    else if is_empty p.device_type
    then false
    else if is_empty p.device_id
    then false
    else if is_empty p.trust_store
    then false
    else true

unfoldable pub server_uri : Properties → Text
server_uri p =
    codes "ssl://"
    ++ (p.org_id ++ (codes ".messaging." ++ (p.domain ++ (codes ":" ++ decimal_int p.port))))

unfoldable pub client_id : Properties → Text
client_id p =
    codes "g:" ++ (p.org_id ++ (codes ":" ++ (p.device_type ++ (codes ":" ++ p.device_id))))

module _ {J : JsonLib} (broker : Broker) where
  module _ {A : Type 0} where
    abbrev pub on_client : Exec (Client J) A → Exec (GatewayClient J) A
    on_client m g = let (r, c) = m g.client in (r, record g { client = c })

  unfoldable pub initialize_mqtt_client : Exec (Client J) Bool
  unfolding can_initialize invoke
  initialize_mqtt_client = do
    p ← gets (λ c. c.properties)
    if not (can_initialize p) then pure false else do
      modify (λ c. record c { server_uri = server_uri p; client_id = client_id p })
      invoke broker (create (server_uri p) (client_id p))
      pure true

  unfoldable pub subscribe_gateway_commands : Exec (GatewayClient J) Bool
  unfolding command_filter
  subscribe_gateway_commands = do
    p ← gets (λ g. g.client.properties)
    let topic = command_filter p.device_type p.device_id
    modify (λ g. record g { gateway_cmd_topic = topic })
    on_client (subscribe_topic broker topic (pos 1))

  unfoldable pub subscribe_device_commands : Text → Text → Exec (GatewayClient J) Bool
  unfolding command_filter
  subscribe_device_commands device_type device_id = do
    let topic = command_filter device_type device_id
    modify (λ g. record g { device_cmd_topic = topic })
    on_client (subscribe_topic broker topic (pos 1))

  -- IOTP_GatewayClient::connect
  unfoldable pub connect : Exec (GatewayClient J) Bool
  unfolding initialize_mqtt_client subscribe_gateway_commands
  connect = do
    initialized ← on_client initialize_mqtt_client
    if not initialized then pure false else do
      rc ← on_client (connect_client broker)
      when rc (do subscribe_gateway_commands; pure tt)
      pure rc

  -- publishDeviceEvent without a listener, which waits for the delivery
  unfoldable pub publish_device_event :
      Text → Text → Text → Text → Text → ℤ → Exec (Client J) (Unit {0})
  unfolding event_topic
  publish_device_event device_type device_id event_type event_format payload qos = do
    token ←
        publish_topic broker (event_topic device_type device_id event_type event_format) payload qos
    wait_for_completion broker token

  -- publishDeviceEvent with a listener, which does not wait
  unfoldable pub publish_device_event_listening :
      Text → Text → Text → Text → Text → ℤ → Exec (Client J) (Unit {0})
  unfolding event_topic
  publish_device_event_listening device_type device_id event_type event_format payload qos = do
    publish_topic broker (event_topic device_type device_id event_type event_format) payload qos
    pure tt

  -- publishGatewayEvent without a listener
  unfoldable pub publish_gateway_event : Text → Text → Text → ℤ → Exec (Client J) (Unit {0})
  unfolding event_topic
  publish_gateway_event event_type event_format payload qos = do
    p ← gets (λ c. c.properties)
    token ←
        publish_topic broker (event_topic p.device_type p.device_id event_type event_format) payload
          qos
    wait_for_completion broker token

  -- publishGatewayEvent with a listener
  unfoldable pub publish_gateway_event_listening :
      Text → Text → Text → ℤ → Exec (Client J) (Unit {0})
  unfolding event_topic
  publish_gateway_event_listening event_type event_format payload qos = do
    p ← gets (λ c. c.properties)
    publish_topic broker (event_topic p.device_type p.device_id event_type event_format) payload qos
    pure tt

  -- IOTP_GatewayClient::disconnect
  unfoldable pub disconnect : Exec (GatewayClient J) (Unit {0})
  disconnect = do
    gateway_topic ← gets (λ g. g.gateway_cmd_topic)
    when (not (is_empty gateway_topic))
        (do on_client (unsubscribe_commands broker gateway_topic); pure tt)
    device_topic ← gets (λ g. g.device_cmd_topic)
    when (not (is_empty device_topic))
        (do on_client (unsubscribe_commands broker device_topic); pure tt)
    on_client (disconnect_client broker)
