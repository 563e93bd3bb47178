-- ===== src/Tests/Topics.antt =====
-- Topics and messages.
use ibmiotf_cpp.Base.{◌≡◌, refl, ok, ◌++◌, arith}
use ibmiotf_cpp.Text.{codes, text_eq}
use ibmiotf_cpp.Text.Segment.{ends_with}
use ibmiotf_cpp.Command.{parse_command}
use ibmiotf_cpp.Command.Fields.{command_topic}
use ibmiotf_cpp.Command.RoundTrip.{parse_command-command_topic, parse_command-id_suffix}
use ibmiotf_cpp.Command.Device.{device_topic, parse_command-device_topic}

parse_command-command_topic_example :
    parse_command
      (command_topic (codes "lamp") (codes "d7") (codes "dim") (codes "json"))
      (codes "5")
    ≡ ok (record {
      device_type = codes "lamp";
      device_id = codes "d7";
      command_name = codes "dim";
      format = codes "json";
      payload = codes "5";
    })
unfolding codes ends_with text_eq
parse_command-command_topic_example =
    parse_command-command_topic (codes "lamp") (codes "d7") (codes "dim") (codes "json") (codes "5")
      (omega arith) (omega arith) (omega arith) (omega arith) refl refl refl (omega arith)

parse_command-id_suffix_example :
    parse_command
      (command_topic (codes "gr" ++ codes "id") (codes "d7") (codes "dim") (codes "json"))
      (codes "5")
    ≡ ok (record {
      device_type = codes "gr" ++ codes "id";
      device_id = codes "id";
      command_name = codes "dim";
      format = codes "json";
      payload = codes "5";
    })
unfolding codes ends_with text_eq
parse_command-id_suffix_example =
    parse_command-id_suffix (codes "gr") (codes "d7") (codes "dim") (codes "json") (codes "5")
      (omega arith) (omega arith) (omega arith) (omega arith) (omega arith) refl refl (omega arith)

parse_command-device_topic_example :
    parse_command (device_topic (codes "dim") (codes "json")) (codes "5")
    ≡ ok (record {
      device_type = codes "2";
      device_id = codes "t-2";
      command_name = codes "dim";
      format = codes "json";
      payload = codes "5";
    })
unfolding codes ends_with text_eq
parse_command-device_topic_example =
    parse_command-device_topic (codes "dim") (codes "json") (codes "5") (omega arith) (omega arith)
      refl refl (omega arith)
