-- ===== src/DeviceClient/Destruction.antt =====
-- A device client that connects several times and is destroyed.
use ibmiotf_cpp.Base.{◌≡◌, ℕ, zero, suc, []}
use ibmiotf_cpp.Json.{JsonLib}
use ibmiotf_cpp.Text.{Text}
use ibmiotf_cpp.Mqtt.{Broker}
use ibmiotf_cpp.Properties.{Properties}
use ibmiotf_cpp.Client.{Client}
use ibmiotf_cpp.Client.Lifecycle.{async_clients}
use ibmiotf_cpp.Response
use ibmiotf_cpp.DeviceClient.{connect}

module _ {J : JsonLib} (broker : Broker) where
  -- A client after so many calls of connect.
  unfoldable pub connect_times : ℕ → Client J → Client J
  connect_times zero c = c
  connect_times (suc n) c = connect_times n (connect broker c).1

  -- A call of connect makes one MQTT client, and leaves the properties.
  record Makes (c d : Client J) : Type 0 where
    made : async_clients broker [] d.calls ≡ suc (async_clients broker [] c.calls)
    properties : d.properties ≡ c.properties
    responses : d.responses ≡ c.responses
