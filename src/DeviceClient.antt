-- ===== src/DeviceClient.antt =====
-- src/IOTP_DeviceClient.h and .cpp
pub mod Managing
pub mod Destruction
pub mod Connect
use ibmiotf_cpp.Base.{
  ℕ, ℤ, pos, Bool, true, false, not, ◌&&◌, Option, none, some, List, [], ◌∷◌, ◌++◌, Result, ok, err,
  null_pointer, if◌then◌else◌,
}
use ibmiotf_cpp.Base.Exec.{Exec, pure, lift, gets, modify, ◌>>=◌, ◌>>◌, when}
use ibmiotf_cpp.Json.{JsonLib}
use ibmiotf_cpp.Text.{Text, codes, is_empty}
use ibmiotf_cpp.Text.Decimal.{decimal_int}
use ibmiotf_cpp.Topics.{
  server_response_topic, device_manage_topic, device_unmanage_topic, device_update_location_topic,
  device_add_error_codes_topic, device_clear_error_codes_topic, device_add_diag_log_topic,
  device_clear_diag_log_topic,
}
use ibmiotf_cpp.Mqtt.{Broker, Token, create}
use ibmiotf_cpp.Properties.{Properties, is_quickstart}
use ibmiotf_cpp.Device.{DeviceData}
use ibmiotf_cpp.Device.Location.{DeviceLocation}
use ibmiotf_cpp.Device.Log.{DeviceLog}
use ibmiotf_cpp.Callback.{response}
use ibmiotf_cpp.Client.{Client, new_client, invoke}
use ibmiotf_cpp.Client.Lifecycle.{Lifetime, construct_from_file}
use ibmiotf_cpp.Client.Session.{
  connect_client, publish_topic, subscribe_topic, subscribe_command_handler, unsubscribe_commands,
  disconnect_client, send_message,
}
use ibmiotf_cpp.Client.Manage.{Exchange, request, push_manage_message, subscribe_managed}

module _ (J : JsonLib) where
  pub record DeviceClient : Type 0 where
    pub client : Client J
    pub lifetime : ℤ
    -- mDevAttributeHandler != nullptr
    pub attribute_handler : Bool
    pub device_data : Option (DeviceData J)

-- The constructor with all the handlers; the others leave some of them out.
unfoldable pub new_device :
    (J : JsonLib)
    → (ℤ → Text)
    → Properties
    → Option (DeviceData J)
    → Bool
    → Bool
    → Bool
    → DeviceClient J
unfolding new_client
new_device J format_time properties device_data action_handler firmware_handler attribute_handler =
    record {
      client = new_client J format_time properties action_handler firmware_handler;
      lifetime = pos 3600;
      attribute_handler = attribute_handler;
      device_data = device_data;
    }

-- The constructor with a file, which passes it on to that of the client.
unfoldable pub new_device_from_file :
    (J : JsonLib) → (ℤ → Text) → Client J → Option Text → Result (DeviceClient J × Lifetime J)
new_device_from_file J format_time memory file =
    elim (construct_from_file J format_time memory file) [
      | ok l ↦ ok (
        record {
          client = l.client;
          lifetime = pos 3600;
          attribute_handler = false;
          device_data = none;
        },
        l,
      )
      | err e ↦ err e
    ]

-- commandTopic
abbrev pub command_topic : Text
command_topic = codes "iot-2/cmd/+/fmt/+"

-- The topic of publishEvent.
unfoldable pub event_topic : Text → Text → Text
event_topic event_type event_format =
    codes "iot-2/evt/" ++ (event_type ++ (codes "/fmt/" ++ event_format))

-- The tests of InitializeMqttClient.
unfoldable pub can_initialize : Properties → Bool
can_initialize p =
    if is_empty p.org_id
    then false
    else if is_empty p.domain
    then false
    else if is_empty p.device_type
    then false
    else if is_empty p.device_id
    then false
    else if not (is_quickstart p.org_id) && is_empty p.trust_store
    then false
    else true

unfoldable pub server_uri : Properties → Text
server_uri p =
    if is_quickstart p.org_id
    then codes "tcp://" ++ (p.org_id ++ (codes ".messaging." ++ (p.domain ++ codes ":1883")))
    else codes "ssl://"
      ++ (p.org_id ++ (codes ".messaging." ++ (p.domain ++ (codes ":" ++ decimal_int p.port))))

unfoldable pub client_id : Properties → Text
client_id p =
    codes "d:" ++ (p.org_id ++ (codes ":" ++ (p.device_type ++ (codes ":" ++ p.device_id))))

module _ {J : JsonLib} (broker : Broker) where
  unfoldable pub initialize_mqtt_client : Exec (Client J) Bool
  unfolding can_initialize invoke
  initialize_mqtt_client = do
    p ← gets (λ c. c.properties)
    if not (can_initialize p) then pure false else do
      modify (λ c. record c { server_uri = server_uri p; client_id = client_id p })
      invoke broker (create (server_uri p) (client_id p))
      pure true

  unfoldable pub subscribe_commands : Exec (Client J) Bool
  subscribe_commands = subscribe_topic broker command_topic (pos 1)

  -- IOTP_DeviceClient::connect
  unfoldable pub connect : Exec (Client J) Bool
  unfolding initialize_mqtt_client subscribe_commands
  connect = do
    initialized ← initialize_mqtt_client
    if not initialized then pure false else do
      rc ← connect_client broker
      p ← gets (λ c. c.properties)
      when (rc && not (is_quickstart p.org_id)) (do subscribe_commands; pure tt)
      pure rc

  -- publishEvent, both overloads
  unfoldable pub publish_event : Text → Text → Text → ℤ → Exec (Client J) (Unit {0})
  unfolding event_topic
  publish_event event_type event_format payload qos = do
    publish_topic broker (event_topic event_type event_format) payload qos
    pure tt

  -- IOTP_DeviceClient::disconnect
  unfoldable pub disconnect : Exec (Client J) (Unit {0})
  disconnect = do
    when (not (is_empty command_topic)) (do unsubscribe_commands broker command_topic; pure tt)
    disconnect_client broker

  module _ {A : Type 0} where
    abbrev pub on_client : Exec (Client J) A → Exec (DeviceClient J) A
    on_client m d = let (r, c) = m d.client in (r, record d { client = c })

  -- mDeviceData->getDeviceInfo()->toJsonValue()
  unfoldable pub device_info_json : Option (DeviceData J) → Result (JsonLib.Value J)
  device_info_json none = err null_pointer
  device_info_json (some device_data) = elim device_data.device_info [
    | none ↦ err null_pointer
    | some info ↦ ok info.json
  ]

  -- The payload of manage().
  unfoldable pub manage_data : DeviceClient J → Result (JsonLib.Value J)
  unfolding device_info_json
  manage_data d =
      let supports =
        J.set (J.set J.null (codes "deviceActions") (J.boolean d.client.action_handler))
          (codes "firmwareActions") (J.boolean d.client.firmware_handler) in
      let payload =
        J.set (J.set J.null (codes "lifetime") (J.int d.lifetime)) (codes "supports") supports in
      elim (device_info_json d.device_data) [
        | ok info ↦ ok (J.set payload (codes "deviceInfo") info)
        | err e ↦ err e
      ]

  unfoldable pub manage : Exchange J → Exec (DeviceClient J) Bool
  unfolding manage_data
  manage x = do
    subscribed ← on_client (subscribe_command_handler broker server_response_topic response)
    if not subscribed then pure false else do
      payload ← (λ d. (manage_data d, d))
      granted ← on_client (request broker x device_manage_topic payload)
      has_attribute ← gets (λ d. d.attribute_handler)
      when granted (on_client (subscribe_managed broker has_attribute))
      pure granted

  unfoldable pub unmanage : ℕ → Exec (Client J) Bool
  unmanage now = do
    req_id ← send_message broker now device_unmanage_topic J.null (pos 1)
    unsubscribe_commands broker server_response_topic
    pure (not (is_empty req_id))

  unfoldable pub update_device_location : Exchange J → DeviceLocation J → Exec (Client J) Bool
  update_device_location x location =
      push_manage_message broker x device_update_location_topic location.json

  unfoldable pub add_error_codes : Exchange J → ℤ → Exec (Client J) Bool
  add_error_codes x num =
      push_manage_message broker x device_add_error_codes_topic
        (J.set J.null (codes "errorCode") (J.int num))

  unfoldable pub clear_error_codes : Exchange J → Exec (Client J) Bool
  clear_error_codes x = push_manage_message broker x device_clear_error_codes_topic J.null

  unfoldable pub add_logs : Exchange J → DeviceLog J → Exec (Client J) Bool
  add_logs x log = push_manage_message broker x device_add_diag_log_topic log.json

  unfoldable pub clear_logs : Exchange J → Exec (Client J) Bool
  clear_logs x = push_manage_message broker x device_clear_diag_log_topic J.null
