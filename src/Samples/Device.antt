-- ===== src/Samples/Device.antt =====
-- samples/sampleDevice.cpp and samples/sslDeviceSample.cpp
pub mod Session
use ibmiotf_cpp.Base.{
  ℕ, ℤ, pos, negsuc, Bool, true, false, not, Option, List, [], Result, ok, err, if◌then◌else◌,
}
use ibmiotf_cpp.Base.Exec.{Exec, pure, modify, ◌>>=◌, ◌>>◌, when, rounds}
use ibmiotf_cpp.Json.{JsonLib}
use ibmiotf_cpp.Text.{Text, codes}
use ibmiotf_cpp.Mqtt.{Broker, Call}
use ibmiotf_cpp.Client.{Client}
use ibmiotf_cpp.Client.Session.{set_command_handler}
use ibmiotf_cpp.DeviceClient.{connect, publish_event, disconnect, new_device_from_file}
use ibmiotf_cpp.Samples.Scope.{caught, run_block}

abbrev pub temp_34 : Text
temp_34 = codes "{\"Data\": {\"Temp\": \"34\" } }"

abbrev pub temp_44 : Text
temp_44 = codes "{\"Data\": {\"Temp\": \"44\" } }"

module _ {J : JsonLib} (broker : Broker) where
  -- The body of the loop.
  unfoldable pub publish_both : Exec (Client J) (Unit {0})
  unfolding publish_event
  publish_both = do
    publish_event broker (codes "temp") (codes "json") temp_34 (pos 0)
    publish_event broker (codes "temp") (codes "json") temp_44 (pos 1)

  -- The block of sampleDevice; the interrupt comes after `n` rounds.
  unfoldable pub block : ℕ → Exec (Client J) ℤ
  unfolding connect set_command_handler rounds publish_both disconnect
  block n = do
    success ← connect broker
    when success (do set_command_handler broker true; rounds n publish_both; disconnect broker)
    pure (pos 0)

  -- The block of sslDeviceSample.
  unfoldable pub ssl_block : Exec (Client J) ℤ
  unfolding connect publish_event disconnect
  ssl_block = do
    success ← connect broker
    when success (do
      publish_event broker (codes "test") (codes "text") (codes "sample data") (pos 0)
      disconnect broker)
    pure (pos 0)

-- A program that makes a device client from a configuration file; `memory` is what the client's memory
-- had. What its constructor throws is caught as well.
unfoldable pub run_device :
    (J : JsonLib)
    → (ℤ → Text)
    → Broker
    → Client J
    → Option Text
    → Exec (Client J) ℤ
    → Result ℤ × List Call
unfolding new_device_from_file run_block caught
run_device J format_time broker memory file block =
    elim (new_device_from_file J format_time memory file) [
      | ok (d, l) ↦ run_block broker (negsuc 0) l block
      | err e ↦ (caught (negsuc 0) (err e), [])
    ]

unfoldable pub main :
    (J : JsonLib) → (ℤ → Text) → Broker → Client J → Option Text → ℕ → Result ℤ × List Call
unfolding run_device block
main J format_time broker memory file n =
    run_device J format_time broker memory file (block broker n)

unfoldable pub ssl_main :
    (J : JsonLib) → (ℤ → Text) → Broker → Client J → Option Text → Result ℤ × List Call
unfolding run_device ssl_block
ssl_main J format_time broker memory file =
    run_device J format_time broker memory file (ssl_block broker)
