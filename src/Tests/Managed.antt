-- ===== src/Tests/Managed.antt =====
-- The sample of a managed device: its attempts, its handlers, and an organization that it cannot connect to.
use ibmiotf_cpp.Base.{
  ◌≡◌, refl, ok, err, ℕ, zero, suc, arith, true, false, some, [], ◌∷◌, pos, indeterminate_pointer,
}
use ibmiotf_cpp.Text.{codes, text_eq, is_empty}
use ibmiotf_cpp.Text.Decimal.{decimal_int, decimal}
use ibmiotf_cpp.Json.{JsonLib}
use ibmiotf_cpp.Properties.{is_quickstart}
use ibmiotf_cpp.Properties.Config.{member}
use ibmiotf_cpp.Client.Session.{subscribe_command_handler, send_message}
use ibmiotf_cpp.Callback.{check_handler, new_callback, add_handler}
use ibmiotf_cpp.Response.{wait_for_response}
use ibmiotf_cpp.Client.Manage.{Exchange, request, subscribe_managed}
use ibmiotf_cpp.DeviceClient.{DeviceClient, new_device, manage}
use ibmiotf_cpp.Samples.Configuration.{
  entry, read_domain, read_credentials, read_properties, initialize_properties,
}
use ibmiotf_cpp.Samples.ManagedDevice
use ibmiotf_cpp.Samples.ManagedDevice.{Visit, manage_attempts}
use ibmiotf_cpp.Samples.ManagedDevice.Outcome.{main-registered_refused}
use ibmiotf_cpp.Samples.ManagedDevice.Attempts.{none_yet, one_more, manage_attempts-first}
use ibmiotf_cpp.Tests.Tree.{Tree, trees, tree_null, tree_text, tree_int}
use ibmiotf_cpp.Tests.Configs.{reads_configuration}
use ibmiotf_cpp.Tests.Sessions.{broker, properties}
use ibmiotf_cpp.Tests.Lifetimes.{device}

-- No response comes.
abbrev unanswered : (J : JsonLib) → Exchange J
unanswered J = record { now = 7; early = []; wake = record { arrived = []; timed_out = true } }

abbrev visit : Visit reads_configuration
visit = record {
  attempts = λ k. unanswered reads_configuration;
  x = 10;
  y = 20;
  z = 30;
  memory = some (pos 0);
  clock = pos 5;
  located = unanswered reads_configuration;
  code_added = unanswered reads_configuration;
  codes_cleared = unanswered reads_configuration;
  log_added = unanswered reads_configuration;
  logs_cleared = unanswered reads_configuration;
  rebooted = false;
  unmanaged_at = 9;
}

main-registered_refused_example :
    ManagedDevice.main reads_configuration decimal_int broker broker visit
      (some (some (codes "{...}")))
      (some (codes "{...}"))
    ≡ (err indeterminate_pointer, [], [])
unfolding initialize_properties read_properties entry read_domain read_credentials member
    is_quickstart codes text_eq is_empty
main-registered_refused_example =
    main-registered_refused reads_configuration decimal_int broker broker visit
      (record (properties (codes "org") (codes "token")) { trust_store = [] })
      (some (codes "{...}")) (some (codes "{...}")) refl refl

abbrev answer : Tree
answer =
    Tree.member (Tree.member tree_null (codes "rc") (tree_int (pos 200))) (codes "reqId")
      (tree_text (codes "9"))

-- The first request gets no response, the second one is granted.
abbrev exchanges : ℕ → Exchange trees
exchanges zero = unanswered trees
exchanges (suc k) = record {
  now = 7;
  early = [];
  wake = record { arrived = answer ∷ []; timed_out = false };
}

abbrev asked_once : DeviceClient trees
asked_once = (manage broker (exchanges 0) device).1

first_refused : manage broker (exchanges 0) device ≡ (ok false, asked_once)
unfolding manage subscribe_command_handler check_handler new_callback new_device request
    send_message is_empty decimal wait_for_response
first_refused = refl

second_granted :
    manage broker (exchanges 1) asked_once ≡ (ok true, (manage broker (exchanges 1) asked_once).1)
unfolding manage subscribe_command_handler check_handler new_callback new_device request
    send_message is_empty decimal wait_for_response add_handler text_eq codes subscribe_managed
second_granted = refl

manage_attempts-first_example :
    manage_attempts broker 100 exchanges device
    ≡ (ok true, (manage broker (exchanges 1) asked_once).1)
manage_attempts-first_example =
    manage_attempts-first broker 100 (one_more {x = exchanges} first_refused none_yet)
      second_granted (λ e. ground arith) (omega arith)
