-- ===== src/Tests/Lifetimes.antt =====
-- Whole sessions of clients: what they list, manage(), and how they end.
use ibmiotf_cpp.Base.{◌≡◌, refl, ok, none, some, [], ◌∷◌, ◌++◌, List, pos, true, false}
use ibmiotf_cpp.Json.{JsonLib}
use ibmiotf_cpp.Text.{Text, codes, text_eq, is_empty}
use ibmiotf_cpp.Text.Decimal.{decimal_int}
use ibmiotf_cpp.Topics.{server_response_topic, device_manage_topic}
use ibmiotf_cpp.Mqtt.{Call, create, subscribe, unsubscribe, publish, set_callback}
use ibmiotf_cpp.Properties.{is_quickstart}
use ibmiotf_cpp.Device.{DeviceData}
use ibmiotf_cpp.Device.Info.{InfoFields, new_info, get_text}
use ibmiotf_cpp.Response.{lookup}
use ibmiotf_cpp.Callback.{
  action, new_callback, check_subscription, contains, check_handler, add_subscription, add_handler,
}
use ibmiotf_cpp.Client.{new_client}
use ibmiotf_cpp.Client.Session.{
  connect_options, connect_client, subscribe_topic, subscribe_command_handler, unsubscribe_commands,
}
use ibmiotf_cpp.Client.Session.Tracking.{server_holds, listed}
use ibmiotf_cpp.Client.Session.Operations.{
  Operation, connects, subscribes, subscribes_handler, unsubscribes, operate_all-Tracks,
}
use ibmiotf_cpp.Client.Session.Operations
use ibmiotf_cpp.Client.Manage.Requests.{req_id_at, request_payload}
use ibmiotf_cpp.Client.Manage.Subscribed.{subscriptions, managed_topics}
use ibmiotf_cpp.DeviceClient.{DeviceClient, new_device, manage, manage_data}
use ibmiotf_cpp.DeviceClient
use ibmiotf_cpp.DeviceClient.Managing.{manage-granted}
use ibmiotf_cpp.GatewayClient
use ibmiotf_cpp.GatewayClient.{GatewayClient, new_gateway, command_filter}
use ibmiotf_cpp.GatewayClient.WholeSession.{session, session-calls}
use ibmiotf_cpp.GatewayClient.Opened.{filters, all_new}
use ibmiotf_cpp.Tests.Tree.{Tree, trees, tree_null, tree_text, member}
use ibmiotf_cpp.Tests.Sessions.{broker, properties, client, application}

abbrev operations : List (Operation trees)
operations =
    connects
    ∷ subscribes (codes "t") (pos 1)
    ∷ subscribes_handler (codes "u") action
    ∷ unsubscribes (codes "u")
    ∷ []

operate_all-Tracks_example :
    listed
      (codes "t")
      (Operations.session broker decimal_int application
        (properties (codes "org") (codes "token"))
        true
        true
        operations).callback
    ≡ true
unfolding server_holds codes text_eq Operations.session connect_options unsubscribe_commands
    subscribe_command_handler subscribe_topic connect_client check_subscription new_callback
    check_handler add_subscription add_handler new_client
operate_all-Tracks_example =
    operate_all-Tracks broker (λ calls call. refl) decimal_int application
      (properties (codes "org") (codes "token")) true true operations (codes "t") refl

abbrev gateway : GatewayClient trees
gateway = new_gateway trees decimal_int (properties (codes "org") (codes "token"))

abbrev devices : List (Text × Text)
devices = (codes "lamp", codes "d1") ∷ (codes "door", codes "d2") ∷ []

session-calls_example :
    (session broker devices (codes "lamp") (codes "d3") gateway).1.client.calls
    ≡ gateway.client.calls
      ++ (create
            (GatewayClient.server_uri gateway.client.properties)
            (GatewayClient.client_id gateway.client.properties)
          ∷ Call.connect
              (connect_options gateway.client.properties gateway.client.keep_alive_interval)
          ∷ set_callback
          ∷ subscribe
              (command_filter gateway.client.properties.device_type
                gateway.client.properties.device_id)
              (pos 1)
          ∷ (subscriptions (filters devices)
              ++ (subscribe (command_filter (codes "lamp") (codes "d3")) (pos 1)
                  ∷ unsubscribe (
                      command_filter gateway.client.properties.device_type
                        gateway.client.properties.device_id)
                  ∷ unsubscribe (command_filter (codes "lamp") (codes "d3"))
                  ∷ Call.disconnect
                  ∷ [])))
unfolding GatewayClient.can_initialize is_quickstart codes text_eq is_empty all_new contains
    command_filter new_gateway
session-calls_example =
    session-calls broker (λ calls call. refl) devices (codes "lamp") (codes "d3") gateway refl refl
      refl

abbrev fields : InfoFields
fields = record {
  serial_number = codes "1";
  manufacturer = [];
  model = codes "m";
  device_class = [];
  description = codes "lamp";
  fw_version = codes "1.0";
  hw_version = [];
  descriptive_location = [];
}

abbrev device_data : DeviceData trees
device_data = record {
  device_info = some (new_info trees fields);
  device_location = none;
  device_firmware = none;
  device_metadata = none;
}

-- A device client with a firmware and an attribute handler, connected.
abbrev pub device : DeviceClient trees
device =
    record (new_device trees decimal_int (properties (codes "org") (codes "token"))
      (some device_data) false true true) {
        client = record (client (codes "org") (codes "token")) {
          callback = some new_callback;
          action_handler = false;
        };
      }

abbrev granted : Tree
granted =
    member (member tree_null (codes "rc") (Tree.tree_int (pos 200))) (codes "reqId")
      (tree_text (req_id_at 7 device.client))

abbrev supported : Tree
supported =
    member
      (member (member tree_null (codes "lifetime") (Tree.tree_int (pos 3600))) (codes "supports") (
        member (member tree_null (codes "deviceActions") (Tree.tree_boolean false))
          (codes "firmwareActions") (Tree.tree_boolean true)))
      (codes "deviceInfo") (new_info trees fields).json

manage-granted_example :
    ((manage broker
        (record {
          now = 7;
          early = [];
          wake = record { arrived = granted ∷ []; timed_out = false };
        })
        device).0
      ≡ ok true)
    × ((manage broker
          (record {
            now = 7;
            early = [];
            wake = record { arrived = granted ∷ []; timed_out = false };
          })
          device).1.client.calls
        ≡ device.client.calls
          ++ (subscribe server_response_topic (pos 1)
              ∷ publish device_manage_topic
                  (JsonLib.write trees
                    (request_payload trees (req_id_at 7 device.client) supported))
                  (pos 1)
              ∷ subscriptions (managed_topics true false true)))
unfolding manage_data new_device new_callback get_text codes text_eq lookup
manage-granted_example =
    manage-granted broker (λ calls call. refl) 7 device new_callback supported granted
      (Tree.tree_int (pos 200)) refl refl refl refl refl refl refl
