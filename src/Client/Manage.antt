-- ===== src/Client/Manage.antt =====
-- The requests of device management of src/IOTP_Client.cpp and src/IOTP_DeviceClient.cpp.
pub mod Requests
pub mod Holding
pub mod Subscribed
use ibmiotf_cpp.Base.{
  ℕ, ℤ, pos, negsuc, int_eq, Bool, true, false, Option, none, some, List, [], ◌∷◌, if◌then◌else◌,
  err, ok, null_pointer,
}
use ibmiotf_cpp.Base.Exec.{Exec, pure, lift, gets, modify, ◌>>=◌, ◌>>◌, when}
use ibmiotf_cpp.Json.{JsonLib}
use ibmiotf_cpp.Text.{Text, codes, is_empty}
use ibmiotf_cpp.Topics.{
  server_response_topic, device_manage_topic, device_unmanage_topic, server_update_topic,
  server_observe_topic, server_cancel_topic, server_firmware_download_topic,
  server_firmware_update_topic, server_device_reboot_topic, server_factory_reset_topic,
}
use ibmiotf_cpp.Mqtt.{Broker}
use ibmiotf_cpp.Callback.{Handler, response, action, firmware, attribute}
use ibmiotf_cpp.Response
use ibmiotf_cpp.Response.{Wake}
use ibmiotf_cpp.Client.{Client}
use ibmiotf_cpp.Client.Session.{subscribe_command_handler, unsubscribe_commands, send_message}

-- What the other threads and the clock do during a request: the time of the request, the responses
-- that arrive before the client waits, and what comes of the wait.
pub record Exchange (J : JsonLib) : Type 0 where
  pub now : ℕ
  pub early : List (JsonLib.Value J)
  pub wake : Wake J

module _ {J : JsonLib} (broker : Broker) where
  -- mResponseHandler->wait_for_response, behind the responses that came before it
  unfoldable pub wait_for_response : Exchange J → Text → Exec (Client J) (JsonLib.Value J)
  wait_for_response x req_id c =
      let (r, s) =
        Response.wait_for_response J x.wake req_id (Response.arrivals J x.early c.responses) in
      (r, record c { responses = s })

  -- send_message, the wait and res.get("rc", -1).asInt() == 200
  unfoldable pub request : Exchange J → Text → JsonLib.Value J → Exec (Client J) Bool
  unfolding wait_for_response
  request x topic value = do
    req_id ← send_message broker x.now topic value (pos 1)
    if is_empty req_id then pure false else do
      res ← wait_for_response x req_id
      rc_value ← lift (J.get res (codes "rc") (J.int (negsuc 0)))
      rc ← lift (J.as_int rc_value)
      pure (int_eq rc (pos 200))

  -- pushManageMessage
  unfoldable pub push_manage_message : Exchange J → Text → JsonLib.Value J → Exec (Client J) Bool
  unfolding request
  push_manage_message x topic value = do
    subscribed ← subscribe_command_handler broker server_response_topic response
    if subscribed then request x topic value else pure false

  -- The topics that a handler is subscribed to, in turn; the results are ignored.
  unfoldable pub subscribe_all : Handler → List Text → Exec (Client J) (Unit {0})
  subscribe_all handler [] = pure tt
  subscribe_all handler (topic ∷ rest) = do
    subscribe_command_handler broker topic handler
    subscribe_all handler rest

  -- The subscriptions of manage(), once the request is granted; `has_attribute` is
  -- mDevAttributeHandler != nullptr.
  unfoldable pub subscribe_managed : Bool → Exec (Client J) (Unit {0})
  unfolding subscribe_all
  subscribe_managed has_attribute = do
    has_firmware ← gets (λ c. c.firmware_handler)
    when has_firmware (
        subscribe_all firmware (
          server_update_topic ∷ server_observe_topic ∷ server_cancel_topic
          ∷ server_firmware_download_topic ∷ server_firmware_update_topic ∷ []))
    has_action ← gets (λ c. c.action_handler)
    when has_action
        (subscribe_all action (server_device_reboot_topic ∷ server_factory_reset_topic ∷ []))
    when has_attribute (subscribe_all attribute (server_update_topic ∷ []))
