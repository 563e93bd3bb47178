-- ===== src/Tests/Configs.antt =====
-- A configuration file.
use ibmiotf_cpp.Base.{◌≡◌, refl, true, some}
use ibmiotf_cpp.Text.{Text, codes, text_eq, is_empty}
use ibmiotf_cpp.Text.Decimal.{stoi}
use ibmiotf_cpp.Json.{JsonLib}
use ibmiotf_cpp.Properties.{default_properties, is_quickstart}
use ibmiotf_cpp.Properties.Config.{
  member, store, required, read_domain, read_port, read_use_certs, read_certificates,
  read_credentials, read_configuration, initialize_from_file,
}
use ibmiotf_cpp.Properties.Config.Success.{initialize_from_file-can_initialize}
use ibmiotf_cpp.DeviceClient.{can_initialize}
use ibmiotf_cpp.Tests.Tree.{Tree, trees, tree_null, tree_text}

abbrev pub entry : Tree → Text → Text → Tree
entry v key text = Tree.member v key (tree_text text)

abbrev pub configuration : Tree
configuration =
    entry
      (entry
        (entry
          (entry
            (entry (entry tree_null (codes "Organization-ID") (codes "org")) (codes "Device-Type")
              (codes "lamp"))
            (codes "Device-ID") (codes "d7"))
          (codes "Authentication-Method") (codes "token"))
        (codes "Authentication-Token") (codes "secret"))
      (codes "clientTrustStorePath") (codes "ca.pem")

-- Every text is read as that configuration.
abbrev pub reads_configuration : JsonLib
reads_configuration = record trees { parse = λ text. some configuration }

initialize_from_file-can_initialize_example :
    can_initialize
      (initialize_from_file reads_configuration (some (codes "{...}")) default_properties).1
    ≡ true
unfolding initialize_from_file read_configuration member store required read_domain read_port
    read_credentials read_use_certs read_certificates stoi is_quickstart codes text_eq is_empty
initialize_from_file-can_initialize_example =
    initialize_from_file-can_initialize reads_configuration (some (codes "{...}"))
      default_properties refl refl
