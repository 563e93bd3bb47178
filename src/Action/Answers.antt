-- ===== src/Action/Answers.antt =====
-- What the action handler answers.
use ibmiotf_cpp.Base.{
  Bool, true, false, ◌≡◌, none, some, List, [], ◌∷◌, ◌++◌, ok, err, null_pointer,
}
use ibmiotf_cpp.Json.{JsonLib}
use ibmiotf_cpp.Text.{Text, codes, text_eq}
use ibmiotf_cpp.Topics.{server_device_reboot_topic}
use ibmiotf_cpp.Device.Info.{get_text}
use ibmiotf_cpp.Reply.{ActionResponse, ReplyMessage, response_reply}
use ibmiotf_cpp.Reply.Contents.{IsReply, response_reply-IsReply}
use ibmiotf_cpp.Action.{ActionMethods, action_response, message_arrived}

module _ (J : JsonLib) (app : ActionMethods) where
  -- A reboot request is answered by one reply with the application's response and the request's id.
  -- With a client the reply goes to the end of its queue and nothing is returned; without one it is
  -- returned.
  pub message_arrived-reboot :
      (payload : JsonLib.Value J) (rsp : ActionResponse) (id : Text) (queue : List (ReplyMessage J))
      → app.reboot ≡ some rsp
      → get_text J payload (codes "reqId") ≡ ok id
      → (reply : ReplyMessage J) × IsReply J rsp id reply
        × (message_arrived J app true server_device_reboot_topic payload queue
            ≡ (ok none, queue ++ (reply ∷ [])))
        × (message_arrived J app false server_device_reboot_topic payload queue
            ≡ (ok (some reply), queue))
  unfolding message_arrived codes text_eq
  message_arrived-reboot payload rsp id queue r e =
      let (reply, made, is) = response_reply-IsReply J rsp payload id e in
      (reply, is, rw (r, made), rw (r, made))

  -- Where the topic and the application give no response, the handler reads a null pointer, and the
  -- reply queue does not change.
  pub message_arrived-null :
      (has_client : Bool) (topic : Text) (payload : JsonLib.Value J) (queue : List (ReplyMessage J))
      → action_response J app topic ≡ none
      → message_arrived J app has_client topic payload queue ≡ (err null_pointer, queue)
  unfolding message_arrived response_reply
  message_arrived-null has_client topic payload queue e = rw e
