-- ===== src/Samples/ManagedDevice/Outcome.antt =====
-- How samples/sampleManagedDevice.cpp ends with a registered organization.
use ibmiotf_cpp.Base.{
  ℤ, pos, ◌≡◌, refl, ap, ◌∙◌, Bool, true, false, Option, some, List, [], Result, ok, err,
  indeterminate_pointer,
}
use ibmiotf_cpp.Json.{JsonLib}
use ibmiotf_cpp.Text.{Text, codes, is_empty}
use ibmiotf_cpp.Mqtt.{Broker, Call}
use ibmiotf_cpp.Properties.{Properties, default_properties, is_quickstart}
use ibmiotf_cpp.Client.{set_keep_alive_interval}
use ibmiotf_cpp.Client.Lifecycle.{construct}
use ibmiotf_cpp.DeviceClient.{can_initialize}
use ibmiotf_cpp.DeviceClient.Connect.{connect-refused}
use ibmiotf_cpp.Samples.Configuration.{initialize_properties}
use ibmiotf_cpp.Samples.Configuration.Unsecured.{initialize_properties-can_initialize}
use ibmiotf_cpp.Samples.Scope.{caught}
use ibmiotf_cpp.Samples.Scope.Leaving.{leave-unmade}
use ibmiotf_cpp.Samples.ManagedDevice.{Visit, registered_block, run_registered, run, main}

module _ (J : JsonLib) (format_time : ℤ → Text) (broker managed_broker : Broker) (v : Visit J)
    (p : Properties) where
  run-refused :
      (again : Option Text)
      → can_initialize p ≡ false
      → run J format_time broker managed_broker v p again ≡ (err indeterminate_pointer, [], [])
  unfolding run run_registered caught registered_block set_keep_alive_interval construct
  run-refused again e =
      let l = construct J format_time p false false in
      let c = set_keep_alive_interval (pos 90) l.client in
      let stopped : registered_block broker l.client ≡ (ok false, c) =
        rw (connect-refused broker c e) in
      ap (run_registered J format_time broker managed_broker v p again) stopped
      ∙ rw (leave-unmade broker l c (ok (pos 1)) refl refl)

  -- Whatever the broker does, the sample of a managed device manages no device of a registered
  -- organization: where its configuration is read with success, for an organization other than
  -- "quickstart", it makes no call of the MQTT client, as it never sets the trust store that connect
  -- asks for, and it ends as the destructor of its client deletes an indeterminate pointer.
  pub main-registered_refused :
      (file again : Option Text)
      → initialize_properties J file default_properties ≡ (ok true, p)
      → is_quickstart p.org_id ≡ false
      → main J format_time broker managed_broker v (some file) again
        ≡ (err indeterminate_pointer, [], [])
  unfolding main is_empty codes
  main-registered_refused file again e q =
      let can = initialize_properties-can_initialize J file default_properties p refl refl e in
      let finish : Result Bool × Properties → Result ℤ × List Call × List Call = λ r. elim r.0 [
        | err x ↦ (err x, [], [])
        | ok false ↦ (ok (pos 1), [], [])
        | ok true ↦ run J format_time broker managed_broker v r.1 again
      ] in
      ap finish e ∙ run-refused again (can ∙ q)
