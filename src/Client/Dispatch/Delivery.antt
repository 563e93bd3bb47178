-- ===== src/Client/Dispatch/Delivery.antt =====
-- Messages that no handler is registered for, and requests to the firmware handler.
use ibmiotf_cpp.Base.{none, pos, ◌+◌, ◌<◌, ◌≡◌, true, false, ok, some, [], ◌∷◌, ◌++◌, length, ℤ}
use ibmiotf_cpp.Json.{JsonLib}
use ibmiotf_cpp.Text.{Text, codes, npos}
use ibmiotf_cpp.Text.Segment.{NoSlash, ends_with}
use ibmiotf_cpp.Command.Fields.{command_topic}
use ibmiotf_cpp.Command.RoundTrip.{parse_command-command_topic}
use ibmiotf_cpp.Callback.{Callback, equal_range}
use ibmiotf_cpp.Client.{Client, the_callback-some, put_callback}
use ibmiotf_cpp.Client.Dispatch.{Methods, message_arrived, handle_all, user_command}
use ibmiotf_cpp.Topics.{server_observe_topic, server_firmware_download_topic}
use ibmiotf_cpp.Device.Info.{get_text}
use ibmiotf_cpp.Reply.{ActionResponse, ReplyMessage}
use ibmiotf_cpp.Reply.Contents.{IsReply}
use ibmiotf_cpp.Firmware.Replies.{message_arrived-observe, message_arrived-download}
use ibmiotf_cpp.Callback.{firmware}
use ibmiotf_cpp.Client.{send_reply}
use ibmiotf_cpp.Client.Dispatch.{handle_one, deliver, send_if_any}

module _ {J : JsonLib} (format_time : ℤ → Text) (app : Methods J) where
  -- A command on a topic of four slash-free segments, for which no handler is registered, reaches
  -- the user's command callback with the segments and the payload as its fields, if the type ends
  -- neither in "id" nor in "cmd", the id not in "cmd", and the topic is shorter than 2 ^ 64 - 1
  -- bytes. The client only counts it.
  pub message_arrived-command :
      (t d c f payload : Text) (client : Client J) (cb : Callback)
      → client.callback ≡ some cb
      → cb.user_callback ≡ true
      → equal_range (command_topic t d c f) cb.handlers ≡ []
      → NoSlash t
      → NoSlash d
      → NoSlash c
      → NoSlash f
      → ends_with (codes "id") t ≡ false
      → ends_with (codes "cmd") t ≡ false
      → ends_with (codes "cmd") d ≡ false
      → length (command_topic t d c f) < npos
      → message_arrived format_time app (command_topic t d c f) payload client ≡ (
        ok (
            some (record {
              device_type = t;
              device_id = d;
              command_name = c;
              format = f;
              payload = payload;
            })),
        record client {
          callback = some (record cb { arrived_messages = cb.arrived_messages + 1 });
        },
      )
  unfolding message_arrived handle_all user_command put_callback
  message_arrived-command t d c f payload client cb present user none_registered ht hd hc hf ei et
        ed small =
      rw (
        the_callback-some client cb present,
        none_registered,
        user,
        parse_command-command_topic t d c f payload ht hd hc hf ei et ed small,
        user_command,
      )

  -- An observation request that is read as JSON with a text as its request id, for whose topic the
  -- firmware handler alone is registered and the application has a response, puts exactly one reply
  -- at the end of the client's queue: it has that response and the id of the request. Nothing else
  -- changes but the message counter, and no command is handed over.
  pub message_arrived-firmware :
      (text : Text) (payload : JsonLib.Value J) (rsp : ActionResponse) (id : Text)
      (client : Client J) (cb : Callback)
      → client.callback ≡ some cb
      → equal_range server_observe_topic cb.handlers ≡ firmware ∷ []
      → J.parse text ≡ some payload
      → app.firmware_methods.is_ready_for_download client.firmware_state.fwinfo ≡ some rsp
      → get_text J payload (codes "reqId") ≡ ok id
      → (reply : ReplyMessage J) × IsReply J rsp id reply
        × (message_arrived format_time app server_observe_topic text client ≡ (
          ok none,
          record client {
            callback = some (record cb { arrived_messages = cb.arrived_messages + 1 });
            reply_msgs = client.reply_msgs ++ (reply ∷ []);
          },
        ))
  unfolding message_arrived handle_all handle_one deliver send_if_any send_reply user_command
      put_callback
  message_arrived-firmware text payload rsp id client cb present registered parsed r e =
      let (reply, is, made) =
        message_arrived-observe J format_time app.firmware_methods payload client.firmware_state rsp
          id r e in
      (reply, is, rw (the_callback-some client cb present, registered, parsed, made))

  -- A download that the application accepts with 202 puts its reply at the end of the queue, and starts
  -- the progress thread.
  pub message_arrived-download_accepted :
      (text : Text) (payload : JsonLib.Value J) (rsp : ActionResponse) (id : Text)
      (client : Client J) (cb : Callback)
      → client.callback ≡ some cb
      → equal_range server_firmware_download_topic cb.handlers ≡ firmware ∷ []
      → J.parse text ≡ some payload
      → app.firmware_methods.download client.firmware_state.fwinfo ≡ some rsp
      → rsp.rc ≡ pos 202
      → client.firmware_state.download_thread ≡ false
      → get_text J payload (codes "reqId") ≡ ok id
      → (reply : ReplyMessage J) × IsReply J rsp id reply
        × (message_arrived format_time app server_firmware_download_topic text client ≡ (
          ok none,
          record client {
            callback = some (record cb { arrived_messages = cb.arrived_messages + 1 });
            firmware_state = record client.firmware_state { download_thread = true };
            reply_msgs = client.reply_msgs ++ (reply ∷ []);
          },
        ))
  unfolding message_arrived handle_all handle_one deliver send_if_any send_reply user_command
      put_callback
  message_arrived-download_accepted text payload rsp id client cb present registered parsed r c t
        e =
      let (reply, is, made) =
        message_arrived-download J format_time app.firmware_methods payload client.firmware_state
          rsp id r c t e in
      (reply, is, rw (the_callback-some client cb present, registered, parsed, made))
