-- ===== src/Samples/ManagedGateway.antt =====
-- samples/sampleManagedGateway.cpp; what manages a device there is commented out.
pub mod Outcome
use ibmiotf_cpp.Base.{
  ℤ, pos, Bool, true, false, not, Option, none, some, List, [], Result, ok, err, if◌then◌else◌,
}
use ibmiotf_cpp.Base.Exec.{Exec, pure, modify, ◌>>=◌, ◌>>◌}
use ibmiotf_cpp.Json.{JsonLib}
use ibmiotf_cpp.Text.{Text, codes}
use ibmiotf_cpp.Mqtt.{Broker, Call}
use ibmiotf_cpp.Properties.{default_properties}
use ibmiotf_cpp.Client.Lifecycle.{construct}
use ibmiotf_cpp.Client.Session.{set_command_handler}
use ibmiotf_cpp.GatewayClient.{
  GatewayClient, on_client, new_gateway, connect, disconnect, subscribe_device_commands,
  publish_gateway_event, publish_gateway_event_listening, publish_device_event,
  publish_device_event_listening,
}
use ibmiotf_cpp.Samples.Configuration.{initialize_gateway_properties}
use ibmiotf_cpp.Samples.Scope.{caught, leave}
use ibmiotf_cpp.Samples.Device.{temp_34}

module _ {J : JsonLib} (broker : Broker) where
  unfoldable pub block : Exec (GatewayClient J) ℤ
  unfolding connect set_command_handler subscribe_device_commands publish_gateway_event
      publish_gateway_event_listening publish_device_event publish_device_event_listening disconnect
  block = do
    success ← connect broker
    if not success then pure (pos 1) else do
      on_client broker (set_command_handler broker true)
      subscribe_device_commands broker (codes "raspi") (codes "pi1")
      on_client broker
          (publish_gateway_event broker (codes "status") (codes "json") temp_34 (pos 1))
      on_client broker
          (publish_gateway_event_listening broker (codes "status1") (codes "json") temp_34 (pos 1))
      on_client broker (
          publish_device_event broker (codes "raspi") (codes "pi1") (codes "status") (codes "json")
            temp_34 (pos 1))
      on_client broker (
          publish_device_event_listening broker (codes "raspi") (codes "pi1") (codes "status1")
            (codes "json") temp_34 (pos 1))
      disconnect broker
      pure (pos 0)

-- The client is made before the try, so that it is destroyed behind the handler.
unfoldable pub main :
    (J : JsonLib) → (ℤ → Text) → Broker → Option (Option Text) → Result ℤ × List Call
unfolding initialize_gateway_properties construct new_gateway block caught leave
main J format_time broker none = (ok (pos 1), [])
main J format_time broker (some file) =
    let (r, p) = initialize_gateway_properties J file default_properties in
    elim r [
      | err e ↦ (err e, [])
      | ok false ↦ (ok (pos 1), [])
      | ok true ↦
          let (result, g) = block broker (new_gateway J format_time p) in
          (
            leave broker (construct J format_time p false false) g.client (caught (pos 1) result),
            g.client.calls,
          )
    ]
