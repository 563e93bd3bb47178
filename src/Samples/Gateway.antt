-- ===== src/Samples/Gateway.antt =====
-- samples/sampleGateway.cpp and samples/sslGatewaySample.cpp
pub mod Session
use ibmiotf_cpp.Base.{
  ℕ, ℤ, pos, negsuc, Bool, true, false, not, Option, List, [], Result, ok, err, if◌then◌else◌,
}
use ibmiotf_cpp.Base.Exec.{Exec, pure, modify, ◌>>=◌, ◌>>◌, when, rounds}
use ibmiotf_cpp.Json.{JsonLib}
use ibmiotf_cpp.Text.{Text, codes}
use ibmiotf_cpp.Mqtt.{Broker, Call}
use ibmiotf_cpp.Client.{Client}
use ibmiotf_cpp.Client.Lifecycle.{Lifetime}
use ibmiotf_cpp.Client.Session.{set_command_handler}
use ibmiotf_cpp.GatewayClient.{
  GatewayClient, on_client, connect, disconnect, subscribe_device_commands, publish_gateway_event,
  publish_gateway_event_listening, publish_device_event, publish_device_event_listening,
  new_gateway_from_file,
}
use ibmiotf_cpp.Samples.Scope.{caught, leave}
use ibmiotf_cpp.Samples.Device.{temp_34, temp_44}

abbrev pub attached : Text
attached = codes "attached"

abbrev pub test_gateway : Text
test_gateway = codes "testGatewayPublish"

module _ {J : JsonLib} (broker : Broker) where
  -- The body of the loop.
  unfoldable pub publish_all : Exec (Client J) (Unit {0})
  unfolding publish_gateway_event publish_gateway_event_listening publish_device_event
      publish_device_event_listening
  publish_all = do
    publish_gateway_event broker (codes "temp") (codes "json") temp_34 (pos 0)
    publish_gateway_event_listening broker (codes "temp") (codes "json") temp_44 (pos 0)
    publish_device_event broker attached test_gateway (codes "temp") (codes "json") temp_34 (pos 0)
    publish_device_event_listening broker attached test_gateway (codes "temp") (codes "json")
        temp_44 (pos 0)

  -- The block of sampleGateway; the interrupt comes after `n` rounds.
  unfoldable pub block : ℕ → Exec (GatewayClient J) ℤ
  unfolding connect subscribe_device_commands set_command_handler rounds publish_all disconnect
  block n = do
    success ← connect broker
    when success (do
      subscribe_device_commands broker attached test_gateway
      on_client broker (set_command_handler broker true)
      on_client broker (rounds n publish_all)
      disconnect broker)
    pure (pos 0)

  -- The block of sslGatewaySample.
  unfoldable pub ssl_block : Exec (GatewayClient J) ℤ
  unfolding connect subscribe_device_commands publish_gateway_event publish_device_event disconnect
  ssl_block = do
    success ← connect broker
    when success (do
      subscribe_device_commands broker attached test_gateway
      on_client broker (
          publish_gateway_event broker (codes "test") (codes "text") (codes "sample gateway data")
            (pos 0))
      on_client broker (
          publish_device_event broker attached test_gateway (codes "test") (codes "text")
            (codes "sample gateway data") (pos 0))
      disconnect broker)
    pure (pos 0)

  -- A block with a gateway, whose client has the lifetime `l`.
  unfoldable pub run_gateway_block :
      ℤ → Lifetime J → Exec (GatewayClient J) ℤ → GatewayClient J → Result ℤ × List Call
  unfolding caught leave
  run_gateway_block code l block g =
      let (result, g') = block g in (caught code (leave broker l g'.client result), g'.client.calls)

-- A program that makes a gateway from a configuration file.
unfoldable pub run_gateway :
    (J : JsonLib)
    → (ℤ → Text)
    → Broker
    → Client J
    → Option Text
    → Exec (GatewayClient J) ℤ
    → Result ℤ × List Call
unfolding new_gateway_from_file run_gateway_block caught
run_gateway J format_time broker memory file block =
    elim (new_gateway_from_file J format_time memory file) [
      | ok (g, l) ↦ run_gateway_block broker (negsuc 0) l block g
      | err e ↦ (caught (negsuc 0) (err e), [])
    ]

unfoldable pub main :
    (J : JsonLib) → (ℤ → Text) → Broker → Client J → Option Text → ℕ → Result ℤ × List Call
unfolding run_gateway block
main J format_time broker memory file n =
    run_gateway J format_time broker memory file (block broker n)

unfoldable pub ssl_main :
    (J : JsonLib) → (ℤ → Text) → Broker → Client J → Option Text → Result ℤ × List Call
unfolding run_gateway ssl_block
ssl_main J format_time broker memory file =
    run_gateway J format_time broker memory file (ssl_block broker)
