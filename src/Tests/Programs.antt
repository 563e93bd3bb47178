-- ===== src/Tests/Programs.antt =====
-- The programs of samples/ with a configuration file.
use ibmiotf_cpp.Base.{
  ◌≡◌, refl, ok, err, false, some, [], pos, indeterminate_pointer, if◌then◌else◌,
}
use ibmiotf_cpp.Text.{codes, text_eq, is_empty}
use ibmiotf_cpp.Text.Decimal.{stoi, decimal_int}
use ibmiotf_cpp.Json.{JsonLib}
use ibmiotf_cpp.Properties.{Properties, default_properties, is_quickstart}
use ibmiotf_cpp.Properties.Config
use ibmiotf_cpp.Properties.Config.{initialize_from_file}
use ibmiotf_cpp.Client.{Client, new_client}
use ibmiotf_cpp.GatewayClient
use ibmiotf_cpp.Samples.Configuration.{
  entry, read_domain, read_credentials, read_properties, initialize_properties,
}
use ibmiotf_cpp.Samples.Device
use ibmiotf_cpp.Samples.Device.Session as DeviceSession
use ibmiotf_cpp.Samples.Device.Session.{main-registered}
use ibmiotf_cpp.Samples.Gateway
use ibmiotf_cpp.Samples.Gateway.Session as GatewaySession
use ibmiotf_cpp.Samples.Gateway.Session.{main-gateway}
use ibmiotf_cpp.Samples.Quickstart
use ibmiotf_cpp.Samples.Quickstart.Outcome.{session_calls, main-either}
use ibmiotf_cpp.Tests.Tree.{Tree, trees, tree_null}
use ibmiotf_cpp.Tests.Configs
use ibmiotf_cpp.Tests.Configs.{configuration, reads_configuration}
use ibmiotf_cpp.Tests.Sessions.{broker, properties}

-- What the configuration is read as.
abbrev registered : Properties
registered = record (properties (codes "org") (codes "token")) { key_pass_phrase = [] }

abbrev memory : Client reads_configuration
memory = new_client reads_configuration decimal_int default_properties false false

main-registered_example :
    Device.main reads_configuration decimal_int broker memory (some (codes "{...}")) 3
    ≡ (ok (pos 0), DeviceSession.session_calls registered (pos 60) 3)
unfolding initialize_from_file Config.read_configuration Config.member Config.store Config.required
    Config.read_domain Config.read_port Config.read_credentials Config.read_use_certs
    Config.read_certificates stoi is_quickstart codes text_eq is_empty
main-registered_example =
    main-registered reads_configuration decimal_int memory (some (codes "{...}")) registered broker
      3 (λ calls call. refl) refl refl refl

main-gateway_example :
    Gateway.main reads_configuration decimal_int broker memory (some (codes "{...}")) 2
    ≡ (ok (pos 0), GatewaySession.session_calls registered (pos 60) 2)
unfolding initialize_from_file Config.read_configuration Config.member Config.store Config.required
    Config.read_domain Config.read_port Config.read_credentials Config.read_use_certs
    Config.read_certificates stoi is_quickstart codes text_eq is_empty GatewayClient.can_initialize
    GatewayClient.command_filter
main-gateway_example =
    main-gateway reads_configuration decimal_int memory (some (codes "{...}")) registered broker 2
      (λ calls call. refl) refl refl refl refl

abbrev quickstart_configuration : Tree
quickstart_configuration =
    Configs.entry
      (Configs.entry (Configs.entry tree_null (codes "Organization-ID") (codes "quickstart"))
        (codes "Device-Type") (codes "lamp"))
      (codes "Device-ID") (codes "d7")

abbrev reads_quickstart : JsonLib
reads_quickstart = record trees { parse = λ text. some quickstart_configuration }

abbrev quickstart : Properties
quickstart = record default_properties {
  org_id = codes "quickstart";
  device_type = codes "lamp";
  device_id = codes "d7";
}

main-either_example :
    Quickstart.main reads_quickstart decimal_int broker (some (some (codes "{...}"))) ≡ (
      if is_quickstart quickstart.org_id
      then (ok (pos 0), session_calls quickstart)
      else (err indeterminate_pointer, []))
unfolding initialize_properties read_properties entry read_domain read_credentials Config.member
    is_quickstart codes text_eq is_empty
main-either_example =
    main-either reads_quickstart decimal_int broker (λ calls call. refl) quickstart
      (some (codes "{...}")) refl
