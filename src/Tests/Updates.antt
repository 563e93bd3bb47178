-- ===== src/Tests/Updates.antt =====
-- Update requests, for the location and for the firmware.
use ibmiotf_cpp.Base.{◌≡◌, refl, ok, some, [], pos}
use ibmiotf_cpp.Text.{Text, codes, text_eq}
use ibmiotf_cpp.Text.Decimal.{decimal_int}
use ibmiotf_cpp.Topics.{server_update_topic}
use ibmiotf_cpp.Device.Info.{get_text}
use ibmiotf_cpp.Device.Location.{DeviceLocation, get_double}
use ibmiotf_cpp.Reply.{ReplyMessage}
use ibmiotf_cpp.Reply.Contents.{IsReply}
use ibmiotf_cpp.Firmware
use ibmiotf_cpp.Attribute
use ibmiotf_cpp.Attribute.Locations.{
  FirstField, Located, origin, message_arrived-location, firmware_update-moves,
}
use ibmiotf_cpp.Tests.Tree.{
  Tree, trees, tree_null, tree_text, member, item, empty_array, tree_double,
}
use ibmiotf_cpp.Tests.Handlers.{app, handler, accepted_response}

abbrev field : Text → Tree → Tree
field name value = member (member tree_null (codes "field") (tree_text name)) (codes "value") value

abbrev update : Text → Tree → Tree
update name value =
    member
      (member tree_null (codes "d")
        (member tree_null (codes "fields") (item (field name value) empty_array)))
      (codes "reqId") (tree_text (codes "41"))

abbrev coordinates : Tree
coordinates =
    member
      (member (member tree_null (codes "latitude") (tree_double 48)) (codes "longitude")
        (tree_double 9))
      (codes "elevation") (tree_double 250)

abbrev location_field : FirstField trees (update (codes "location") coordinates) (codes "location")
location_field = record {
  d = member tree_null (codes "fields") (item (field (codes "location") coordinates) empty_array);
  fields = item (field (codes "location") coordinates) empty_array;
  first_field = field (codes "location") coordinates;
  field = tree_text (codes "location");
  is_d = unfold codes text_eq in refl;
  is_fields = unfold codes text_eq in refl;
  is_first = refl;
  is_field = unfold codes text_eq in refl;
  is_name = refl;
}

message_arrived-location_example :
    (l : DeviceLocation trees) × Located trees decimal_int (pos 7) 48 9 250 l
    × (Attribute.message_arrived trees decimal_int
          (pos 7)
          server_update_topic
          (update (codes "location") coordinates)
        ≡ ok l)
unfolding codes text_eq get_double
message_arrived-location_example =
    message_arrived-location trees decimal_int (pos 7) (update (codes "location") coordinates)
      coordinates 48 9 250 location_field refl refl refl refl

abbrev release : Tree
release =
    member (member tree_null (codes "version") (tree_text (codes "2.0"))) (codes "name")
      (tree_text (codes "fw"))

abbrev firmware_field :
    FirstField trees (update (codes "mgmt.firmware") release) (codes "mgmt.firmware")
firmware_field = record {
  d = member tree_null (codes "fields") (item (field (codes "mgmt.firmware") release) empty_array);
  fields = item (field (codes "mgmt.firmware") release) empty_array;
  first_field = field (codes "mgmt.firmware") release;
  field = tree_text (codes "mgmt.firmware");
  is_d = unfold codes text_eq in refl;
  is_fields = unfold codes text_eq in refl;
  is_first = refl;
  is_field = unfold codes text_eq in refl;
  is_name = refl;
}

firmware_update-moves_example :
    (reply : ReplyMessage trees) × IsReply trees accepted_response (codes "41") reply
    × (Firmware.message_arrived trees decimal_int app server_update_topic
          (update (codes "mgmt.firmware") release)
          handler
        ≡ (ok (some reply), handler))
    × (Attribute.message_arrived trees decimal_int
          (pos 7)
          server_update_topic
          (update (codes "mgmt.firmware") release)
        ≡ ok (origin trees decimal_int (pos 7)))
unfolding codes text_eq get_text
firmware_update-moves_example =
    firmware_update-moves trees decimal_int (pos 7) (update (codes "mgmt.firmware") release) release
      (codes "2.0") (codes "fw") [] [] (codes "41") app handler accepted_response firmware_field
      refl refl refl refl refl refl refl
