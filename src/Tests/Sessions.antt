-- ===== src/Tests/Sessions.antt =====
-- The callback, the queues and the client.
use ibmiotf_cpp.Base.{
  ◌≡◌, ◌≢◌, refl, ok, some, none, [], ◌∷◌, ◌++◌, ℕ, ◌+◌, arith, pos, int_eq, true, false,
}
use ibmiotf_cpp.Text.{Text, codes, text_eq}
use ibmiotf_cpp.Text.Decimal.{decimal_int}
use ibmiotf_cpp.Text.Segment.{ends_with}
use ibmiotf_cpp.Command.Fields.{command_topic}
use ibmiotf_cpp.Mqtt.{Broker, accepted, done, connect, set_callback}
use ibmiotf_cpp.Properties.{Properties, is_quickstart}
use ibmiotf_cpp.Device.Info.{get_text}
use ibmiotf_cpp.Callback.{
  Callback, action, firmware, new_callback, equal_range, add_handler, remove_subscription,
}
use ibmiotf_cpp.Callback
use ibmiotf_cpp.Response.{lookup}
use ibmiotf_cpp.ReplyQueue.{ReplyQueue, empty_queue, Reach}
use ibmiotf_cpp.ReplyQueue.Backlog.{stuck, second_reply_stuck, idle}
use ibmiotf_cpp.Client.{Client, new_client}
use ibmiotf_cpp.Client.Session.{connect_client, ssl_options, next_req_id, subscribe_command_handler}
use ibmiotf_cpp.Client.Session.Accepted.{next_req_id-fresh, connect_client-unsupported}
use ibmiotf_cpp.Client.Session.Resubscribe.{unsubscribe_all, resubscribe_skipped}
use ibmiotf_cpp.Client.Dispatch
use ibmiotf_cpp.Client.Dispatch.{Methods}
use ibmiotf_cpp.Client.Dispatch.Delivery.{message_arrived-command}
use ibmiotf_cpp.Client.Manage.{request}
use ibmiotf_cpp.Client.Manage.Requests.{request-timeout, request-answered, req_id_at}
use ibmiotf_cpp.Tests.Tree.{Tree, trees, tree_null, tree_text, tree_int, member}

-- Every call succeeds.
abbrev pub broker : Broker
broker = λ calls call. accepted done

abbrev pub properties : Text → Text → Properties
properties org auth_method = record {
  org_id = org;
  domain = codes "internetofthings.ibmcloud.com";
  device_type = codes "lamp";
  device_id = codes "d7";
  auth_method = auth_method;
  auth_token = codes "secret";
  trust_store = codes "ca.pem";
  key_store = [];
  private_key = [];
  key_pass_phrase = [];
  port = pos 8883;
  use_certs = false;
}

abbrev pub client : Text → Text → Client trees
client org auth_method = new_client trees decimal_int (properties org auth_method) true true

abbrev pub connected : Callback → Client trees
connected cb = record (client (codes "org") (codes "token")) { callback = some cb }

abbrev listening : Callback
listening = record new_callback { user_callback = true }

abbrev pub application : Methods trees
application = record {
  firmware_methods = record {
    verify = λ p. none;
    is_ready_for_download = λ p. none;
    download = λ p. none;
    update = λ p. none;
    report_download_progress = λ i p. p;
    report_update_progress = λ i p. p;
  };
  action_methods = record { reboot = none; factory_reset = none };
  custom_arrived = λ n t v. none;
  custom_raw_arrived = λ n t s. none;
  clock = pos 7;
}

abbrev dim_topic : Text
dim_topic = command_topic (codes "lamp") (codes "d7") (codes "dim") (codes "json")

message_arrived-command_example :
    Dispatch.message_arrived decimal_int application dim_topic (codes "5") (connected listening) ≡ (
      ok (
          some (record {
            device_type = codes "lamp";
            device_id = codes "d7";
            command_name = codes "dim";
            format = codes "json";
            payload = codes "5";
          })),
      record (connected listening) {
        callback = some (record listening { arrived_messages = listening.arrived_messages + 1 });
      },
    )
unfolding codes ends_with text_eq new_callback equal_range
message_arrived-command_example =
    message_arrived-command decimal_int application (codes "lamp") (codes "d7") (codes "dim")
      (codes "json") (codes "5") (connected listening) listening refl refl refl (omega arith)
      (omega arith) (omega arith) (omega arith) refl refl refl (omega arith)

abbrev one_left : ReplyQueue ℕ
one_left = stuck 1 2

second_reply_stuck_example :
    Reach empty_queue one_left × (one_left.sent ≡ 1 ∷ []) × (one_left.queue ≡ 2 ∷ [])
second_reply_stuck_example = second_reply_stuck 1 2 one_left idle

-- A response to the request with the id that is given, which grants it.
abbrev granted : Text → Tree
granted req_id =
    member (member tree_null (codes "rc") (tree_int (pos 200))) (codes "reqId") (tree_text req_id)

abbrev org_client : Client trees
org_client = client (codes "org") (codes "token")

request-timeout_example :
    (request broker
      (record {
        now = 40;
        early = granted (codes "41") ∷ [];
        wake = record { arrived = []; timed_out = true };
      })
      (codes "t")
      tree_null
      org_client).0
    ≡ ok false
request-timeout_example =
    request-timeout broker (λ calls call. refl) 40 (granted (codes "41") ∷ []) (codes "t") tree_null
      org_client

request-answered_example :
    (request broker
      (record {
        now = 40;
        early = [];
        wake = record { arrived = granted (req_id_at 40 org_client) ∷ []; timed_out = false };
      })
      (codes "t")
      tree_null
      org_client).0
    ≡ ok (int_eq (pos 200) (pos 200))
unfolding get_text lookup codes text_eq new_client
request-answered_example =
    request-answered broker (λ calls call. refl) 40 (codes "t") tree_null
      (granted (req_id_at 40 org_client)) (tree_int (pos 200)) (pos 200) org_client refl refl refl
      refl

next_req_id-fresh_example :
    (next_req_id broker 1500000000 org_client).0
    ≢ (next_req_id broker 1500000000 (next_req_id broker 1500000000 org_client).1).0
unfolding next_req_id new_client
next_req_id-fresh_example =
    next_req_id-fresh broker 1500000000 1500000000 org_client
      (next_req_id broker 1500000000 org_client).1 (omega arith) (omega arith) (omega arith)
      (omega arith)

abbrev subscribed : Client trees
subscribed =
    unsubscribe_all broker (codes "t" ∷ [])
      (subscribe_command_handler broker (codes "t") action (connected new_callback)).1

resubscribe_skipped_example :
    subscribe_command_handler broker (codes "t") action subscribed ≡ (ok true, subscribed)
unfolding subscribe_command_handler new_client new_callback Callback.check_handler
resubscribe_skipped_example =
    resubscribe_skipped broker (codes "t") (codes "t" ∷ []) action (connected new_callback) refl

abbrev apikey_client : Client trees
apikey_client = client (codes "org") (codes "apikey")

connect_client-unsupported_example : connect_client broker apikey_client ≡ (
  ok false,
  record apikey_client {
    callback = some new_callback;
    calls =
        apikey_client.calls
        ++ (connect (record {
          clean_session = true;
          keep_alive_interval = apikey_client.keep_alive_interval;
          user_name = some (codes "apikey");
          password = some (codes "secret");
          ssl = some (ssl_options apikey_client.properties);
        })
            ∷ (set_callback ∷ []));
  },
)
unfolding is_quickstart new_client codes text_eq
connect_client-unsupported_example =
    connect_client-unsupported broker apikey_client refl refl (λ calls call. refl)
