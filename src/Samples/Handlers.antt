-- ===== src/Samples/Handlers.antt =====
-- The handlers of samples/sampleManagedDevice.cpp: SampleDeviceAction and SampleFirmwareAction,
-- whose threads only sleep. Times are in milliseconds. What a second request does to a thread of the
-- sample that still runs is not modelled.
pub mod Progress
pub mod Download
pub mod Updating
use ibmiotf_cpp.Base.{
  ℕ, ◌+◌, ◌*◌, ◌/◌, ltb, ℤ, pos, negsuc, Bool, true, Option, some, [], if◌then◌else◌,
}
use ibmiotf_cpp.Json.{JsonLib}
use ibmiotf_cpp.Text.{Text}
use ibmiotf_cpp.Reply.{ActionResponse}
use ibmiotf_cpp.Action.{ActionMethods}
use ibmiotf_cpp.Firmware.{FirmwareMethods}
use ibmiotf_cpp.Firmware.Info.{
  set_state, set_update_status, set_updated_date_time, state_idle, state_downloading,
  state_downloaded, status_success, status_in_progress,
}

-- The response that a method makes of a return code alone.
unfoldable pub response : ℤ → Option ActionResponse
response rc = some (record { rc = rc; message = [] })

-- The two flags of SampleDeviceAction, and what its methods make of them.
pub record DeviceAction : Type 0 where
  pub reboot : Bool
  pub factory_reset : Bool

unfoldable pub reboot : DeviceAction → Option ActionResponse × DeviceAction
unfolding response
reboot a = (response (pos 202), record a { reboot = true })

unfoldable pub factory_reset : DeviceAction → Option ActionResponse × DeviceAction
unfolding response
factory_reset a = (response (pos 202), record a { factory_reset = true })

unfoldable pub device_action : DeviceAction → ActionMethods
unfolding reboot factory_reset
device_action a = record { reboot = (reboot a).0; factory_reset = (factory_reset a).0 }

abbrev pub download_timeout : ℕ
download_timeout = 20

abbrev pub update_timeout : ℕ
update_timeout = 45

-- How long sleep((timeout / 2) * 1000) takes: the sleep of the sample counts milliseconds.
unfoldable pub pretend_sleep : ℕ → ℕ
pretend_sleep timeout = timeout / 2 * 1000

-- What pretend_firmware_download has made of `state`, where it began at the time `started`.
unfoldable pub download_state : ℕ → ℕ → ℤ
unfolding pretend_sleep
download_state started now =
    if ltb now started
    then state_idle
    else if ltb now (started + pretend_sleep download_timeout)
    then state_downloading
    else state_downloaded

-- What pretend_firmware_update has made of `update_status`, and of `state`, which was `left` before.
unfoldable pub update_status : ℕ → ℕ → ℤ
unfolding pretend_sleep
update_status started now =
    if ltb now started
    then negsuc 0
    else if ltb now (started + pretend_sleep update_timeout)
    then status_in_progress
    else status_success

unfoldable pub update_state : ℤ → ℕ → ℕ → ℤ
unfolding pretend_sleep
update_state left started now =
    if ltb now (started + pretend_sleep update_timeout) then left else state_idle

-- When the threads begin, and when the reports are made. No download goes on during an update, which
-- finds `state` as `left`. `update_timestamp` has an indeterminate value until the update ends at
-- `clock`; gmtime can convert it.
pub record Schedule : Type 0 where
  pub download_started : ℕ
  pub update_started : ℕ
  pub report_time : ℕ → ℕ
  pub left : ℤ
  pub indeterminate : ℤ
  pub clock : ℤ

unfoldable pub update_timestamp : Schedule → ℕ → ℤ
unfolding pretend_sleep
update_timestamp s now =
    if ltb now (s.update_started + pretend_sleep update_timeout) then s.indeterminate else s.clock

module _ (J : JsonLib) (format_time : ℤ → Text) where
  unfoldable pub firmware_action : Schedule → FirmwareMethods J
  unfolding response download_state update_status update_state update_timestamp set_state
      set_update_status set_updated_date_time
  firmware_action s = record {
    verify = λ fwinfo. response (pos 204);
    is_ready_for_download = λ fwinfo. response (pos 200);
    download = λ fwinfo. response (pos 202);
    update = λ fwinfo. response (pos 202);
    report_download_progress = λ i fwinfo.
        set_state J format_time (download_state s.download_started (s.report_time i)) fwinfo;
    report_update_progress = λ i fwinfo.
        let now = s.report_time i in
        set_updated_date_time J format_time (update_timestamp s now) (
          set_update_status J format_time (update_status s.update_started now)
            (set_state J format_time (update_state s.left s.update_started now) fwinfo));
  }
