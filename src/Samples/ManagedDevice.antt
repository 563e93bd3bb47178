-- ===== src/Samples/ManagedDevice.antt =====
-- samples/sampleManagedDevice.cpp. Messages of the platform other than the responses to the requests
-- change nothing here but the action handler's flag.
pub mod Outcome
pub mod Attempts
use ibmiotf_cpp.Base.{
  ℕ, zero, suc, ℤ, pos, Bool, true, false, not, Option, none, some, List, [], Result, ok, err,
  if◌then◌else◌,
}
use ibmiotf_cpp.Base.Exec.{Exec, pure, modify, ◌>>=◌, ◌>>◌, when}
use ibmiotf_cpp.Json.{JsonLib}
use ibmiotf_cpp.Text.{Text, codes}
use ibmiotf_cpp.Mqtt.{Broker, Call}
use ibmiotf_cpp.Properties.{Properties, default_properties}
use ibmiotf_cpp.Device.{DeviceData}
use ibmiotf_cpp.Device.Location.{new_coordinates}
use ibmiotf_cpp.Device.Log.{new_log}
use ibmiotf_cpp.Client.{Client, set_keep_alive_interval}
use ibmiotf_cpp.Client.Lifecycle.{construct}
use ibmiotf_cpp.Client.Session.{set_command_handler}
use ibmiotf_cpp.Client.Manage.{Exchange}
use ibmiotf_cpp.DeviceClient.{
  DeviceClient, on_client, new_device, connect, publish_event, disconnect, manage, unmanage,
  update_device_location, add_error_codes, clear_error_codes, add_logs, clear_logs,
}
use ibmiotf_cpp.Samples.Configuration.{initialize_properties}
use ibmiotf_cpp.Samples.DataFile.{fill_device_data}
use ibmiotf_cpp.Samples.Scope.{caught, leave}
use ibmiotf_cpp.Samples.Device.{temp_34}

-- What the platform, the clock and the user do while the device is managed; `x`, `y` and `z` are the
-- doubles 10.0, 20.2 and 30.3, `memory` what the memory of measuredDateTime had,
-- or `none` where gmtime cannot convert it.
pub record Visit (J : JsonLib) : Type 0 where
  pub attempts : ℕ → Exchange J
  pub x : JsonLib.Double J
  pub y : JsonLib.Double J
  pub z : JsonLib.Double J
  pub memory : Option ℤ
  pub clock : ℤ
  pub located : Exchange J
  pub code_added : Exchange J
  pub codes_cleared : Exchange J
  pub log_added : Exchange J
  pub logs_cleared : Exchange J
  -- mReboot of SampleDeviceAction when Enter is pressed
  pub rebooted : Bool
  pub unmanaged_at : ℕ

module _ {J : JsonLib} (broker : Broker) where
  -- The registered client, until it is disconnected; false is `return 1`.
  unfoldable pub registered_block : Exec (Client J) Bool
  unfolding set_keep_alive_interval connect set_command_handler publish_event disconnect
  registered_block = do
    modify (set_keep_alive_interval (pos 90))
    success ← connect broker
    if not success then pure false else do
      set_command_handler broker true
      publish_event broker (codes "status") (codes "json") temp_34 (pos 1)
      publish_event broker (codes "status1") (codes "json") temp_34 (pos 1)
      disconnect broker
      pure true

  -- while (count < 100), with `n` attempts left; `x` has the exchanges of the attempts to come.
  unfoldable pub manage_attempts : ℕ → (ℕ → Exchange J) → Exec (DeviceClient J) Bool
  unfolding manage
  manage_attempts zero x = pure false
  manage_attempts (suc n) x = do
    success ← manage broker (x 0)
    elim success [ true ↦ pure true | false ↦ manage_attempts n (λ k. x (suc k)) ]

  -- What a managed device asks for; the results are only shown. 10.0 is below 20, and its square is not.
  unfoldable pub managed_requests : (ℤ → Text) → Visit J → Exec (Client J) (Unit {0})
  unfolding new_coordinates update_device_location add_error_codes clear_error_codes new_log
      add_logs clear_logs unmanage
  managed_requests format_time v = do
    update_device_location broker v.located (new_coordinates J format_time v.clock v.x v.y v.z)
    add_error_codes broker v.code_added (pos 100)
    clear_error_codes broker v.codes_cleared
    add_logs broker v.log_added (
        new_log J (codes "Test Log Message") (codes "2016-07-05T08:15:30-05:00") (pos 1)
          (codes "Data"))
    clear_logs broker v.logs_cleared
    when (not v.rebooted) (do unmanage broker v.unmanaged_at; pure tt)

  -- The managed client; false is `return 1`.
  unfoldable pub managed_block : (ℤ → Text) → Visit J → Exec (DeviceClient J) Bool
  unfolding connect set_command_handler manage_attempts managed_requests disconnect
  managed_block format_time v = do
    success ← on_client broker (connect broker)
    if not success then pure false else do
      on_client broker (set_command_handler broker true)
      modify (λ d. record d { lifetime = pos 3600 })
      managed ← manage_attempts 100 v.attempts
      when managed (on_client broker (managed_requests format_time v))
      on_client broker (disconnect broker)
      pure true

-- return 0, or return 1 inside of the block
abbrev pub exit_code : Result Bool → Result ℤ
exit_code (ok true) = ok (pos 0)
exit_code (ok false) = ok (pos 1)
exit_code (err e) = err e

module _ (J : JsonLib) (format_time : ℤ → Text) (broker managed_broker : Broker) (v : Visit J)
    (p : Properties) where
  -- The part with the managed client, whose connection has a broker of its own; `c` is the registered
  -- client, which is destroyed behind it. The calls of both are given.
  unfoldable pub run_managed : Option Text → Client J → Result ℤ × List Call × List Call
  unfolding fill_device_data new_device construct managed_block caught leave
  run_managed file c =
      let registered = construct J format_time p false false in
      elim (fill_device_data J format_time v.memory v.clock file) [
        | err e ↦ (caught (pos 1) (leave broker registered c (err e)), c.calls, [])
        | ok device_data ↦
            let (result, d) =
              managed_block managed_broker format_time v
                (new_device J format_time p device_data true true true) in
            (
              caught (pos 1) (
                  leave broker registered c (
                    leave managed_broker (construct J format_time p true true) d.client
                      (exit_code result))),
              c.calls,
              d.client.calls,
            )
      ]

  -- if (!success) return 1;
  unfoldable pub run_registered :
      Option Text → Result Bool × Client J → Result ℤ × List Call × List Call
  unfolding construct run_managed caught leave
  run_registered file (ok true, c) = run_managed file c
  run_registered file (ok false, c) = (
    caught (pos 1) (leave broker (construct J format_time p false false) c (ok (pos 1))),
    c.calls,
    [],
  )
  run_registered file (err e, c) =
      (caught (pos 1) (leave broker (construct J format_time p false false) c (err e)), c.calls, [])

  -- The part behind InitializeProperties.
  unfoldable pub run : Option Text → Result ℤ × List Call × List Call
  unfolding construct registered_block run_registered
  run file =
      run_registered file (registered_block broker (construct J format_time p false false).client)

-- `file` is what the file of the first argument has, if there is one, and `again` what it has when it
-- is read again.
unfoldable pub main :
    (J : JsonLib)
    → (ℤ → Text)
    → Broker
    → Broker
    → Visit J
    → Option (Option Text)
    → Option Text
    → Result ℤ × List Call × List Call
unfolding initialize_properties run
main J format_time broker managed_broker v none again = (ok (pos 1), [], [])
main J format_time broker managed_broker v (some file) again =
    let (r, p) = initialize_properties J file default_properties in
    elim r [
      | err e ↦ (err e, [], [])
      | ok false ↦ (ok (pos 1), [], [])
      | ok true ↦ run J format_time broker managed_broker v p again
    ]
