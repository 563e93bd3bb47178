-- ===== src/Action.antt =====
-- src/IOTP_DeviceActionHandler.h and .cpp
pub mod Answers
use ibmiotf_cpp.Base.{Bool, Option, none, some, List, [], ◌∷◌, ◌++◌, if◌then◌else◌}
use ibmiotf_cpp.Base.Exec.{Exec, pure, lift, modify, ◌>>=◌, ◌>>◌}
use ibmiotf_cpp.Json.{JsonLib}
use ibmiotf_cpp.Text.{Text, text_eq}
use ibmiotf_cpp.Topics.{server_device_reboot_topic, server_factory_reset_topic}
use ibmiotf_cpp.Reply.{ActionResponse, ReplyMessage, response_reply}

-- The virtual methods of the user's subclass; a response is a shared pointer, null for `none`.
pub record ActionMethods : Type 0 where
  pub reboot : Option ActionResponse
  pub factory_reset : Option ActionResponse

module _ (J : JsonLib) where
  open J use {Value, parse}

  unfoldable pub action_response : ActionMethods → Text → Option ActionResponse
  action_response app topic =
      if text_eq topic server_device_reboot_topic
      then app.reboot
      else if text_eq topic server_factory_reset_topic
      then app.factory_reset
      else none

  -- message_arrived with a parsed payload. `has_client` is mClient != nullptr, and the state the
  -- reply queue of that client, to which IOTF_send_reply adds.
  unfoldable pub message_arrived :
      ActionMethods → Bool → Text → Value → Exec (List (ReplyMessage J)) (Option (ReplyMessage J))
  unfolding action_response
  message_arrived app has_client topic payload = do
    reply ← lift (response_reply J (action_response app topic) payload)
    if has_client
        then (do modify (λ queue. queue ++ (reply ∷ [])); pure none)
        else pure (some reply)

  -- message_arrived with a message that is parsed here; its reply is dropped
  unfoldable pub raw_message_arrived :
      ActionMethods → Bool → Text → Text → Exec (List (ReplyMessage J)) (Option (ReplyMessage J))
  unfolding message_arrived
  raw_message_arrived app has_client topic text = elim (parse text) [
    | none ↦ pure none
    | some payload ↦ (do message_arrived app has_client topic payload; pure none)
  ]
