-- ===== src/Reply.antt =====
-- src/IOTP_ReplyMessage.h, and the action response that the handlers share.
pub mod Contents
use ibmiotf_cpp.Base.{ℤ, pos, Result, ok, ◌>>=◌, Option, none, some, err, null_pointer}
use ibmiotf_cpp.Json.{JsonLib}
use ibmiotf_cpp.Text.{Text, codes}
use ibmiotf_cpp.Topics.{device_response_topic}
use ibmiotf_cpp.Device.Info.{put_text, get_text}

-- IOTP_FirmwareActionResponse, IOTP_DeviceActionResponse
pub record ActionResponse : Type 0 where
  pub rc : ℤ
  pub message : Text

module _ (J : JsonLib) where
  open J use {Value, null, string, int, set}

  pub record ReplyMessage : Type 0 where
    pub topic : Text
    pub payload : Value
    pub qos : ℤ

  -- the constructor without a QoS
  unfoldable pub new_reply : Text → Value → ReplyMessage
  new_reply topic payload = record { topic = topic; payload = payload; qos = pos 1 }

  -- The reply to a request, the end of message_arrived in both handlers. A null response is
  -- dereferenced.
  unfoldable pub response_reply : Option ActionResponse → Value → Result ReplyMessage
  unfolding new_reply put_text get_text
  response_reply none request = err null_pointer
  response_reply (some rsp) request = do
    req_id ← get_text J request (codes "reqId")
    let payload = put_text J (set null (codes "rc") (int rsp.rc)) (codes "message") rsp.message
    ok (new_reply device_response_topic (set payload (codes "reqId") (string req_id)))
