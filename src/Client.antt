-- ===== src/Client.antt =====
-- IOTP_Client of src/IOTP_Client.h and .cpp: its state, and the calls that it makes of the MQTT client.
pub mod Lifecycle
pub mod Session
pub mod Dispatch
pub mod Manage
use ibmiotf_cpp.Base.{
  ℕ, suc, ◌+◌, ◌%◌, ℤ, pos, Bool, true, false, Option, none, some, List, [], ◌∷◌, ◌++◌, ok, err,
  mqtt_error, null_pointer, if◌then◌else◌, ◌≡◌, arith,
}
use ibmiotf_cpp.Base.Exec.{Exec, pure, raise, gets, modify, ◌>>=◌, ◌>>◌}
use ibmiotf_cpp.Json.{JsonLib}
use ibmiotf_cpp.Text.{Text, size_mod}
use ibmiotf_cpp.Mqtt.{Call, Token, Broker, refused, accepted, done, Accepts}
use ibmiotf_cpp.Properties.{Properties}
use ibmiotf_cpp.Callback.{Callback, Handler, action, firmware}
use ibmiotf_cpp.Reply.{ReplyMessage}
use ibmiotf_cpp.Firmware.{FirmwareHandler, new_handler}
use ibmiotf_cpp.Response.{Responses}

module _ (J : JsonLib) where
  -- `calls` is the history of the calls of the MQTT client. A handler field tells whether its pointer
  -- is not null, `action_client` and `firmware_client` whether those handlers know the client.
  pub record Client : Type 0 where
    pub properties : Properties
    pub server_uri : Text
    pub client_id : Text
    pub req_counter : ℕ
    pub keep_alive_interval : ℤ
    pub callback : Option Callback
    pub action_handler : Bool
    pub firmware_handler : Bool
    pub action_client : Bool
    pub firmware_client : Bool
    pub firmware_state : FirmwareHandler J
    pub responses : Responses J
    pub reply_msgs : List (ReplyMessage J)
    pub calls : List Call

module _ (J : JsonLib) (format_time : ℤ → Text) where
  -- The constructor from properties and handlers, with InitializeProperties. `callback` is null until
  -- a connection is made.
  unfoldable pub new_client : Properties → Bool → Bool → Client J
  new_client properties action_handler firmware_handler = record {
    properties = properties;
    server_uri = [];
    client_id = [];
    req_counter = 0;
    keep_alive_interval = pos 60;
    callback = none;
    action_handler = action_handler;
    firmware_handler = firmware_handler;
    action_client = false;
    firmware_client = false;
    firmware_state = new_handler J format_time;
    responses = [];
    reply_msgs = [];
    calls = [];
  }

module _ {J : JsonLib} where
  unfoldable pub set_keep_alive_interval : ℤ → Client J → Client J
  set_keep_alive_interval interval c = record c { keep_alive_interval = interval }

  -- IOTF_send_reply: push to the queue
  unfoldable pub send_reply : ReplyMessage J → Client J → Client J
  send_reply reply c = record c { reply_msgs = c.reply_msgs ++ (reply ∷ []) }

  -- handler->mClient = this
  unfoldable pub set_client : Handler → Client J → Client J
  set_client action c = record c { action_client = true }
  set_client firmware c = record c { firmware_client = true }
  set_client _ c = c

  -- callback_ptr->…, which a null pointer does not survive
  unfoldable pub the_callback : Exec (Client J) Callback
  the_callback c = elim c.callback [ none ↦ (err null_pointer, c) | some cb ↦ (ok cb, c) ]

  pub the_callback-some :
      (c : Client J) (cb : Callback) → c.callback ≡ some cb → the_callback c ≡ (ok cb, c)
  unfolding the_callback
  the_callback-some c cb e = rw e (ground arith)

  pub the_callback-none :
      (c : Client J) → c.callback ≡ none → the_callback c ≡ (err null_pointer, c)
  unfolding the_callback
  the_callback-none c e = rw e (ground arith)

  unfoldable pub put_callback : Callback → Exec (Client J) (Unit {0})
  put_callback cb = modify (λ c. record c { callback = some cb })

  module _ (broker : Broker) where
    -- A call of the MQTT client enters the history, and throws or gives a token.
    unfoldable pub invoke : Call → Exec (Client J) Token
    invoke call c =
        let after = record c { calls = c.calls ++ (call ∷ []) } in
        elim (broker c.calls call) [
          | refused ↦ (err mqtt_error, after)
          | accepted token ↦ (ok token, after)
        ]

    -- tok->wait_for_completion(…)
    unfoldable pub wait_for_completion : Token → Exec (Client J) (Unit {0})
    wait_for_completion token = if token.returns then pure tt else raise mqtt_error

    -- A call, the wait for its token, and then what is_complete says.
    unfoldable pub complete : Call → Exec (Client J) Token
    unfolding invoke wait_for_completion
    complete call = do token ← invoke call; wait_for_completion token; pure token

    pub invoke-accepted :
        Accepts broker
        → (call : Call) (c : Client J)
        → invoke call c ≡ (ok done, record c { calls = c.calls ++ (call ∷ []) })
    unfolding invoke
    invoke-accepted a call c = rw (a c.calls call, invoke)

    pub complete-accepted :
        Accepts broker
        → (call : Call) (c : Client J)
        → complete call c ≡ (ok done, record c { calls = c.calls ++ (call ∷ []) })
    unfolding complete wait_for_completion
    complete-accepted a call c = rw (invoke-accepted a call c)
