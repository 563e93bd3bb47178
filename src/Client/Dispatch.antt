-- ===== src/Client/Dispatch.antt =====
-- IOTF_Callback::message_arrived of src/IOTP_Client.cpp: a message goes to the handlers of its topic,
-- and to the user's command callback if there are none.
pub mod Delivery
pub mod Keeps
pub mod Queue
use ibmiotf_cpp.Base.{ℕ, ◌+◌, ℤ, Bool, true, Result, Option, none, some, List, [], ◌∷◌, ok, err}
use ibmiotf_cpp.Base.Exec.{Exec, pure, lift, gets, modify, ◌>>=◌, ◌>>◌}
use ibmiotf_cpp.Json.{JsonLib}
use ibmiotf_cpp.Text.{Text}
use ibmiotf_cpp.Command.{Command, parse_command}
use ibmiotf_cpp.Reply.{ReplyMessage}
use ibmiotf_cpp.Firmware
use ibmiotf_cpp.Firmware.{FirmwareMethods, FirmwareHandler}
use ibmiotf_cpp.Action
use ibmiotf_cpp.Action.{ActionMethods}
use ibmiotf_cpp.Attribute
use ibmiotf_cpp.Response
use ibmiotf_cpp.Response.{Responses}
use ibmiotf_cpp.Callback.{
  Callback, Handler, response, action, firmware, attribute, custom, equal_range,
}
use ibmiotf_cpp.Client.{Client, send_reply, the_callback, put_callback}

module _ (J : JsonLib) where
  -- The application's code, and the clock, at the arrival of a message. `custom` are the handlers
  -- that are none of the client's own.
  pub record Methods : Type 0 where
    pub firmware_methods : FirmwareMethods J
    pub action_methods : ActionMethods
    pub custom_arrived : ℕ → Text → JsonLib.Value J → Option (ReplyMessage J)
    pub custom_raw_arrived : ℕ → Text → Text → Option (ReplyMessage J)
    pub clock : ℤ

  -- An action on one part of the client.
  module _ {A : Type 0} where
    abbrev on_responses : Exec (Responses J) A → Exec (Client J) A
    on_responses m c = let (r, s) = m c.responses in (r, record c { responses = s })

    abbrev on_firmware : Exec (FirmwareHandler J) A → Exec (Client J) A
    on_firmware m c = let (r, s) = m c.firmware_state in (r, record c { firmware_state = s })

    abbrev on_queue : Exec (List (ReplyMessage J)) A → Exec (Client J) A
    on_queue m c = let (r, s) = m c.reply_msgs in (r, record c { reply_msgs = s })

module _ {J : JsonLib} (format_time : ℤ → Text) (app : Methods J) where
  -- handler->message_arrived(topic, jsonPayload)
  unfoldable pub deliver :
      Handler → Text → JsonLib.Value J → Exec (Client J) (Option (ReplyMessage J))
  deliver response topic payload = do on_responses J (Response.message_arrived J payload); pure none
  deliver firmware topic payload =
      on_firmware J (Firmware.message_arrived J format_time app.firmware_methods topic payload)
  deliver action topic payload = do
    has_client ← gets (λ c. c.action_client)
    on_queue J (Action.message_arrived J app.action_methods has_client topic payload)
  deliver attribute topic payload = do
    lift (Attribute.message_arrived J format_time app.clock topic payload)
    pure none
  deliver (custom n) topic payload = pure (app.custom_arrived n topic payload)

  -- handler->message_arrived(topic, msg)
  unfoldable pub deliver_raw : Handler → Text → Text → Exec (Client J) (Option (ReplyMessage J))
  deliver_raw response topic text = do
    on_responses J (Response.raw_message_arrived J text)
    pure none
  deliver_raw firmware topic text =
      on_firmware J (Firmware.raw_message_arrived J format_time app.firmware_methods topic text)
  deliver_raw action topic text = do
    has_client ← gets (λ c. c.action_client)
    on_queue J (Action.raw_message_arrived J app.action_methods has_client topic text)
  deliver_raw attribute topic text = lift (Attribute.raw_message_arrived J format_time topic text)
  deliver_raw (custom n) topic text = pure (app.custom_raw_arrived n topic text)

  -- if (reply != nullptr) mClient->IOTF_send_reply(reply);
  unfoldable pub send_if_any : Option (ReplyMessage J) → Exec (Client J) (Unit {0})
  unfolding send_reply
  send_if_any none = pure tt
  send_if_any (some reply) = modify (send_reply reply)

  -- The body of the loop, for one handler.
  unfoldable pub handle_one : Handler → Text → Text → Exec (Client J) (Unit {0})
  unfolding deliver deliver_raw send_if_any
  handle_one handler topic text = do
    reply ← elim (J.parse text) [
      | some payload ↦ deliver handler topic payload
      | none ↦ deliver_raw handler topic text
    ]
    send_if_any reply

  -- The loop over the handlers of the topic.
  unfoldable pub handle_all : List Handler → Text → Text → Exec (Client J) (Unit {0})
  unfolding handle_one
  handle_all [] topic text = pure tt
  handle_all (h ∷ rest) topic text = do handle_one h topic text; handle_all rest topic text

  -- if (handler == nullptr && user_callback): the command that processCommand is called with.
  unfoldable pub user_command : List Handler → Bool → Text → Text → Result (Option Command)
  user_command [] true topic text = elim (parse_command topic text) [
    | ok command ↦ ok (some command)
    | err e ↦ err e
  ]
  user_command _ _ topic text = ok none

  -- The whole of message_arrived.
  unfoldable pub message_arrived : Text → Text → Exec (Client J) (Option Command)
  unfolding the_callback put_callback handle_all user_command
  message_arrived topic text = do
    cb ← the_callback
    put_callback (record cb { arrived_messages = cb.arrived_messages + 1 })
    let handlers = equal_range topic cb.handlers
    handle_all handlers topic text
    lift (user_command handlers cb.user_callback topic text)
