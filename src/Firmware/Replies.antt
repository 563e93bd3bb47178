-- ===== src/Firmware/Replies.antt =====
-- What the firmware handler answers, and when it brings the program down.
use ibmiotf_cpp.Base.{ℤ, pos, ◌≡◌, ◌≢◌, true, false, some, ok, err, arith, terminate, null_pointer}
use ibmiotf_cpp.Json.{JsonLib}
use ibmiotf_cpp.Text.{Text, codes, text_eq, text_eq-eq_false}
use ibmiotf_cpp.Topics.{
  server_update_topic, server_observe_topic, server_cancel_topic, server_firmware_download_topic,
  server_firmware_update_topic,
}
use ibmiotf_cpp.Reply.{ActionResponse, ReplyMessage, response_reply}
use ibmiotf_cpp.Device.Info.{get_text}
use ibmiotf_cpp.Reply.Contents.{IsReply, response_reply-IsReply}
use ibmiotf_cpp.Firmware.{FirmwareMethods, FirmwareHandler, message_arrived}

module _ (J : JsonLib) (format_time : ℤ → Text) (app : FirmwareMethods J) where
  -- Where the application answers a download by the response code 202, a second download after a
  -- first that was answered ends the program by std::terminate.
  pub download_twice :
      (first second : JsonLib.Value J) (h : FirmwareHandler J) (rsp : ActionResponse)
      (reply : ReplyMessage J)
      → app.download h.fwinfo ≡ some rsp
      → rsp.rc ≡ pos 202
      → (message_arrived J format_time app server_firmware_download_topic first h).0
        ≡ ok (some reply)
      → (message_arrived J format_time app server_firmware_download_topic second
          (message_arrived J format_time app server_firmware_download_topic first h).1).0
        ≡ err terminate
  unfolding message_arrived codes text_eq
  download_twice first second h rsp reply d c e = ground arith

  -- No message changes the handler's own info: what an update request brings in is not kept.
  pub fwinfo-message_arrived :
      (topic : Text) (payload : JsonLib.Value J) (h : FirmwareHandler J)
      → (message_arrived J format_time app topic payload h).1.fwinfo ≡ h.fwinfo
  unfolding message_arrived
  fwinfo-message_arrived topic payload h = ground arith

  -- A topic that is none of the five of the firmware handler is answered by reading a null pointer,
  -- and the handler does not change.
  pub message_arrived-unknown_topic :
      (topic : Text) (payload : JsonLib.Value J) (h : FirmwareHandler J)
      → topic ≢ server_update_topic
      → topic ≢ server_observe_topic
      → topic ≢ server_cancel_topic
      → topic ≢ server_firmware_download_topic
      → topic ≢ server_firmware_update_topic
      → message_arrived J format_time app topic payload h ≡ (err null_pointer, h)
  unfolding message_arrived response_reply
  message_arrived-unknown_topic topic payload h u o c d f = rw (
    text_eq-eq_false _ _ u,
    text_eq-eq_false _ _ o,
    text_eq-eq_false _ _ d,
    text_eq-eq_false _ _ f,
    text_eq-eq_false _ _ c,
  )

  pub message_arrived-observe :
      (payload : JsonLib.Value J) (h : FirmwareHandler J) (rsp : ActionResponse) (id : Text)
      → app.is_ready_for_download h.fwinfo ≡ some rsp
      → get_text J payload (codes "reqId") ≡ ok id
      → (reply : ReplyMessage J) × IsReply J rsp id reply
        × (message_arrived J format_time app server_observe_topic payload h ≡ (ok (some reply), h))
  unfolding message_arrived codes text_eq
  message_arrived-observe payload h rsp id r e =
      let (reply, made, is) = response_reply-IsReply J rsp payload id e in (reply, is, rw (r, made))

  -- A download that the application accepts with 202 starts the progress thread.
  pub message_arrived-download :
      (payload : JsonLib.Value J) (h : FirmwareHandler J) (rsp : ActionResponse) (id : Text)
      → app.download h.fwinfo ≡ some rsp
      → rsp.rc ≡ pos 202
      → h.download_thread ≡ false
      → get_text J payload (codes "reqId") ≡ ok id
      → (reply : ReplyMessage J) × IsReply J rsp id reply
        × (message_arrived J format_time app server_firmware_download_topic payload h
            ≡ (ok (some reply), record h { download_thread = true }))
  unfolding message_arrived codes text_eq
  message_arrived-download payload h rsp id r c t e =
      let (reply, made, is) = response_reply-IsReply J rsp payload id e in
      (reply, is, simp (r, c, t, made))
