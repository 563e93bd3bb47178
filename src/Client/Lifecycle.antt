-- ===== src/Client/Lifecycle.antt =====
-- The construction of IOTP_Client from a file, and its destruction, in src/IOTP_Client.cpp. What the
-- logging in between does is not modelled.
use ibmiotf_cpp.Base.{
  ℕ, zero, suc, ℤ, Bool, true, false, Option, none, List, [], ◌∷◌, ◌++◌, Result, ok, err,
  indeterminate_pointer, ◌>>=◌, if◌then◌else◌,
}
use ibmiotf_cpp.Json.{JsonLib}
use ibmiotf_cpp.Text.{Text}
use ibmiotf_cpp.Mqtt.{Broker, Call, Outcome, create, accepted}
use ibmiotf_cpp.Properties.{Properties, default_properties}
use ibmiotf_cpp.Properties.Config.{initialize_from_file}
use ibmiotf_cpp.Response
use ibmiotf_cpp.Client.{Client, new_client}

-- `reply_thread` is mReplyThread.joinable(), `response_handler` is mResponseHandler != nullptr.
pub record Lifetime (J : JsonLib) : Type 0 where
  pub client : Client J
  pub response_handler : Bool
  pub reply_thread : Bool

module _ (J : JsonLib) (format_time : ℤ → Text) where
  unfoldable pub construct : Properties → Bool → Bool → Lifetime J
  unfolding new_client
  construct properties action_handler firmware_handler = record {
    client = new_client J format_time properties action_handler firmware_handler;
    response_handler = true;
    reply_thread = true;
  }

  -- The members that keep what `memory` had, where the configuration is not read with success: the
  -- counter and the interval, and the handlers' states, as there are no handlers.
  unfoldable pub construct_unread : Client J → Properties → Lifetime J
  construct_unread memory properties = record {
    client = record memory {
      properties = properties;
      server_uri = [];
      client_id = [];
      callback = none;
      action_handler = false;
      firmware_handler = false;
      responses = [];
      reply_msgs = [];
      calls = [];
    };
    response_handler = false;
    reply_thread = false;
  }

  -- The constructor with a file; an exception leaves it.
  unfoldable pub construct_from_file : Client J → Option Text → Result (Lifetime J)
  unfolding construct construct_unread initialize_from_file
  construct_from_file memory file =
      let (r, properties) = initialize_from_file J file default_properties in
      elim r [
        | ok read ↦
            ok (
              if read then construct properties false false else construct_unread memory properties)
        | err e ↦ err e
      ]

-- How many MQTT clients `new` made in a history of calls; a refused call throws and makes none.
unfoldable pub is_made : Outcome → Call → Bool
is_made (accepted token) (create uri id) = true
is_made _ _ = false

unfoldable pub async_clients : Broker → List Call → List Call → ℕ
unfolding is_made
async_clients broker before [] = 0
async_clients broker before (call ∷ calls) =
    let rest = async_clients broker (before ++ (call ∷ [])) calls in
    if is_made (broker before call) call then suc rest else rest

-- Is the MQTT client deleted, and how many are not, because nothing points to them any more?
pub record Release : Type 0 where
  pub deleted : Bool
  pub leaked : ℕ

-- delete pasync_client, which no constructor initializes
unfoldable pub delete_client : ℕ → Result Release
delete_client zero = err indeterminate_pointer
delete_client (suc n) = ok (record { deleted = true; leaked = n })

-- The body of the destructor. join throws if the thread is not joinable, and the delete is skipped.
unfoldable pub release : {J : JsonLib} → Broker → Lifetime J → Result Release
unfolding delete_client
release broker l =
    let made = async_clients broker [] l.client.calls in
    if l.reply_thread then delete_client made else ok (record { deleted = false; leaked = made })

-- The destructor, and then that of the response handler, which the client alone owns.
unfoldable pub destroy : {J : JsonLib} → Broker → Lifetime J → Result Release
unfolding release Response.destroy
destroy {J} broker l = do
  r ← release broker l
  cleared ← if l.response_handler then Response.destroy J l.client.responses else ok tt
  ok r
