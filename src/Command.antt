-- ===== src/Command.antt =====
-- src/Command.h, and the topic parser of IOTF_Callback::message_arrived in src/IOTP_Client.cpp.
pub mod Fields
pub mod RoundTrip
pub mod Device
use ibmiotf_cpp.Base.{ℕ, ◌∷◌, [], Result, ok, ◌>>=◌}
use ibmiotf_cpp.Text.{Text, codes}
use ibmiotf_cpp.Text.Search.{find, substr, size_add, size_sub}

-- A command for the user's CommandCallback.
pub record Command : Type 0 where
  pub device_type : Text
  pub device_id : Text
  pub command_name : Text
  pub format : Text
  pub payload : Text

abbrev slash_text : Text
slash_text = b'/' ∷ []

-- The part of the topic from `start` up to the next slash.
unfoldable pub field : Text → ℕ → Result Text
field topic start = substr topic start (size_sub (find topic slash_text start) start)

-- The body of `if (handler == nullptr && user_callback)`, up to the call of processCommand.
unfoldable pub parse_command : Text → Text → Result Command
unfolding field
parse_command topic payload = do
  let type_pos = find topic (codes "type/") 0
  device_type ← field topic (size_add type_pos 5)
  let id_pos = find topic (codes "id/") 0
  device_id ← field topic (size_add id_pos 3)
  let cmd_pos = find topic (codes "cmd/") 0
  let cmd_start = size_add cmd_pos 4
  let cmd_end = find topic slash_text cmd_start
  command_name ← substr topic cmd_start (size_sub cmd_end cmd_start)
  let fmt_pos = find topic (codes "fmt/") (size_add cmd_end 1)
  let fmt_start = size_add fmt_pos 4
  format ← substr topic fmt_start (find topic slash_text fmt_start)
  ok (record {
    device_type = device_type;
    device_id = device_id;
    command_name = command_name;
    format = format;
    payload = payload;
  })
