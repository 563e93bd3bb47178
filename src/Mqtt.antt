-- ===== src/Mqtt.antt =====
-- The calls that the client makes of mqtt::async_client (lib/mqtt, third-party code), and what may
-- come back. The MQTT client and the server behind it are a parameter: a function from the calls
-- made so far and the call at hand.
use ibmiotf_cpp.Base.{Bool, true, Option, List, ℤ, ◌≡◌}
use ibmiotf_cpp.Text.{Text}

-- mqtt::ssl_options; `none` is an option that is not set
pub record SslOptions : Type 0 where
  pub trust_store : Option Text
  pub key_store : Option Text
  pub private_key : Option Text
  pub private_key_password : Option Text

-- mqtt::connect_options
pub record ConnectOptions : Type 0 where
  pub clean_session : Bool
  pub keep_alive_interval : ℤ
  pub user_name : Option Text
  pub password : Option Text
  pub ssl : Option SslOptions

pub data Call : Type 0 where
  create : Text → Text → Call
  connect : ConnectOptions → Call
  set_callback : Call
  publish : Text → Text → ℤ → Call
  subscribe : Text → ℤ → Call
  unsubscribe : Text → Call
  disconnect : Call

-- A token: does `wait_for_completion` return (it throws if not), what `is_complete` says after it,
-- and whether the action listener has seen `on_success` by then.
pub record Token : Type 0 where
  pub returns : Bool
  pub complete : Bool
  pub succeeded : Bool

-- The token of a call that succeeds.
abbrev pub done : Token
done = record { returns = true; complete = true; succeeded = true }

-- A call throws, or gives a token.
pub data Outcome : Type 0 where
  refused : Outcome
  accepted : Token → Outcome

abbrev pub Broker : Type 0
Broker = List Call → Call → Outcome

-- Every call succeeds.
abbrev pub Accepts : Broker → Type 0
Accepts broker = (calls : List Call) (call : Call) → broker calls call ≡ accepted done
