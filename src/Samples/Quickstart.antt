-- ===== src/Samples/Quickstart.antt =====
-- samples/sampleQuickstart.cpp
pub mod Outcome
use ibmiotf_cpp.Base.{
  ℤ, pos, Bool, true, false, Option, none, some, not, List, [], Result, ok, err, if◌then◌else◌,
}
use ibmiotf_cpp.Base.Exec.{Exec, pure, modify, ◌>>=◌, ◌>>◌, rounds}
use ibmiotf_cpp.Json.{JsonLib}
use ibmiotf_cpp.Text.{Text, codes}
use ibmiotf_cpp.Mqtt.{Broker, Call}
use ibmiotf_cpp.Properties.{default_properties}
use ibmiotf_cpp.Client.{Client, set_keep_alive_interval}
use ibmiotf_cpp.Client.Lifecycle.{construct}
use ibmiotf_cpp.DeviceClient.{connect, publish_event, disconnect}
use ibmiotf_cpp.Samples.Configuration.{initialize_properties}
use ibmiotf_cpp.Samples.Scope.{run_block}

abbrev pub json_message : Text
json_message = codes "{\"d\": {\"Temp\": \"34\" } }"

module _ {J : JsonLib} (broker : Broker) where
  unfoldable pub block : Exec (Client J) ℤ
  unfolding set_keep_alive_interval connect publish_event disconnect rounds
  block = do
    modify (set_keep_alive_interval (pos 90))
    success ← connect broker
    if not success then pure (pos 1) else do
      rounds 10 (publish_event broker (codes "status") (codes "json") json_message (pos 0))
      disconnect broker
      pure (pos 0)

-- `file` is the file that the first argument names, if there is one.
unfoldable pub main :
    (J : JsonLib) → (ℤ → Text) → Broker → Option (Option Text) → Result ℤ × List Call
unfolding initialize_properties construct run_block block
main J format_time broker none = (ok (pos 1), [])
main J format_time broker (some file) =
    let (r, p) = initialize_properties J file default_properties in
    elim r [
      | err e ↦ (err e, [])
      | ok false ↦ (ok (pos 1), [])
      | ok true ↦ run_block broker (pos 1) (construct J format_time p false false) (block broker)
    ]
