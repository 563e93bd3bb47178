-- ===== src/Client/Session.antt =====
-- connect, the subscriptions and the messages of src/IOTP_Client.cpp.
pub mod Accepted
pub mod Tracking
pub mod Tracked
pub mod Operations
pub mod Resubscribe
use ibmiotf_cpp.Base.{
  ℕ, suc, ◌+◌, ◌%◌, ℤ, pos, Bool, true, false, not, ◌&&◌, Option, none, some, List, [], ◌∷◌, ok,
  err, if◌then◌else◌,
}
use ibmiotf_cpp.Base.Exec.{Exec, pure, raise, gets, modify, ◌>>=◌, ◌>>◌, when}
use ibmiotf_cpp.Json.{JsonLib}
use ibmiotf_cpp.Text.{Text, codes, text_eq, is_empty, size_mod}
use ibmiotf_cpp.Text.Decimal.{decimal}
use ibmiotf_cpp.Mqtt.{
  Call, Token, Broker, ConnectOptions, SslOptions, connect, set_callback, publish, subscribe,
  unsubscribe, disconnect,
}
use ibmiotf_cpp.Properties.{Properties, is_quickstart}
use ibmiotf_cpp.Callback
use ibmiotf_cpp.Callback.{Callback, Handler, new_callback}
use ibmiotf_cpp.Client.{
  Client, set_client, the_callback, put_callback, invoke, wait_for_completion, complete,
}

-- The user name that connect sends: "use-token-auth" if the auth method is "token".
unfoldable pub user_name : Properties → Text
user_name p =
    if text_eq p.auth_method (codes "token") then codes "use-token-auth" else p.auth_method

unfoldable pub set_if_not_empty : Text → Option Text
set_if_not_empty text = if is_empty text then none else some text

unfoldable pub ssl_options : Properties → SslOptions
unfolding set_if_not_empty
ssl_options p = record {
  trust_store = set_if_not_empty p.trust_store;
  key_store = if p.use_certs then some p.key_store else none;
  private_key = if p.use_certs then some p.private_key else none;
  private_key_password = if p.use_certs then set_if_not_empty p.key_pass_phrase else none;
}

unfoldable pub connect_options : Properties → ℤ → ConnectOptions
unfolding user_name ssl_options
connect_options p interval =
    if is_quickstart p.org_id
    then record {
      clean_session = true;
      keep_alive_interval = interval;
      user_name = none;
      password = none;
      ssl = none;
    }
    else record {
      clean_session = true;
      keep_alive_interval = interval;
      user_name = some (user_name p);
      password = some p.auth_token;
      ssl = some (ssl_options p);
    }

-- `rc` of connect before the call: the auth method is one that the platform supports.
unfoldable pub auth_supported : Properties → Bool
auth_supported p = if is_quickstart p.org_id then true else text_eq p.auth_method (codes "token")

-- The options of connect(cb), which sets no SSL options and no user name for another auth method.
unfoldable pub listener_options : Properties → ℤ → ConnectOptions
listener_options p interval = record {
  clean_session = true;
  keep_alive_interval = interval;
  user_name = if text_eq p.auth_method (codes "token") then some (codes "use-token-auth") else none;
  password = some p.auth_token;
  ssl = none;
}

module _ {J : JsonLib} (broker : Broker) where
  -- set_callback: a new callback, registered with the MQTT client
  unfoldable pub register_callback : Exec (Client J) (Unit {0})
  unfolding put_callback invoke
  register_callback = do invoke broker set_callback; put_callback new_callback

  -- connect()
  unfoldable pub connect_client : Exec (Client J) Bool
  unfolding register_callback connect_options auth_supported complete
  connect_client = do
    p ← gets (λ c. c.properties)
    interval ← gets (λ c. c.keep_alive_interval)
    token ← complete broker (connect (connect_options p interval))
    when token.succeeded register_callback
    pure (auth_supported p && token.complete)

  -- connect(cb); the result beside `rc` tells whether cb.on_success or cb.on_failure was called
  unfoldable pub connect_with_listener : Exec (Client J) (Bool × Bool)
  unfolding register_callback listener_options complete
  connect_with_listener = do
    p ← gets (λ c. c.properties)
    interval ← gets (λ c. c.keep_alive_interval)
    token ← complete broker (connect (listener_options p interval))
    when token.succeeded register_callback
    pure (text_eq p.auth_method (codes "token") && token.complete, token.succeeded)

  -- setCommandHandler
  unfoldable pub set_command_handler : Bool → Exec (Client J) (Unit {0})
  unfolding the_callback put_callback
  set_command_handler cb = do c ← the_callback; put_callback (Callback.set_callback cb c)

  -- publishTopic, both overloads
  unfoldable pub publish_topic : Text → Text → ℤ → Exec (Client J) Token
  unfolding invoke
  publish_topic topic payload qos = invoke broker (publish topic payload qos)

  unfoldable pub subscribe_topic : Text → ℤ → Exec (Client J) Bool
  unfolding the_callback put_callback complete
  subscribe_topic topic qos = do
    cb ← the_callback
    if Callback.check_subscription topic cb then pure true else do
      token ← complete broker (subscribe topic qos)
      if token.complete
          then (do put_callback (Callback.add_subscription topic cb); pure true)
          else pure false

  unfoldable pub subscribe_command_handler : Text → Handler → Exec (Client J) Bool
  unfolding the_callback put_callback complete set_client
  subscribe_command_handler topic handler = do
    cb ← the_callback
    if Callback.check_handler topic handler cb then pure true else do
      token ← complete broker (subscribe topic (pos 1))
      if token.complete
          then (do
            put_callback (Callback.add_handler topic handler cb)
            modify (set_client handler)
            pure true)
          else pure false

  unfoldable pub unsubscribe_commands : Text → Exec (Client J) Bool
  unfolding the_callback put_callback complete
  unsubscribe_commands topic = do
    cb ← the_callback
    if not (Callback.check_subscription topic cb) then pure false else do
      token ← complete broker (unsubscribe topic)
      if token.complete
          then (do put_callback (Callback.remove_subscription topic cb); pure true)
          else pure false

  -- disconnect
  unfoldable pub disconnect_client : Exec (Client J) (Unit {0})
  unfolding complete
  disconnect_client = do complete broker disconnect; pure tt

  -- ++mReqCounter + now, an unsigned long, in decimal; `now` is the time of time(&now)
  unfoldable pub next_req_id : ℕ → Exec (Client J) Text
  next_req_id now c =
      let counter = (c.req_counter + 1) % size_mod in
      (ok (decimal ((counter + now) % size_mod)), record c { req_counter = counter })

  -- send_message; an empty text is a failure
  unfoldable pub send_message : ℕ → Text → JsonLib.Value J → ℤ → Exec (Client J) Text
  unfolding next_req_id publish_topic wait_for_completion
  send_message now topic value qos = do
    req_id ← next_req_id now
    let payload = if J.is_null value then J.null else J.set J.null (codes "d") value
    let payload = J.set payload (codes "reqId") (J.string req_id)
    token ← publish_topic topic (J.write payload) qos
    wait_for_completion broker token
    pure (if token.complete then req_id else [])
