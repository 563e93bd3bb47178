-- ===== src/Samples/DataFile.antt =====
-- fillDeviceData of samples/sampleManagedDevice.cpp: the pointer is null, `none`, where the file cannot
-- be parsed. A file that cannot be opened is read like the JSON null.
use ibmiotf_cpp.Base.{ℤ, Option, none, some, Result, ok, ◌>>=◌}
use ibmiotf_cpp.Json.{JsonLib}
use ibmiotf_cpp.Text.{Text, codes}
use ibmiotf_cpp.Device.{DeviceData}
use ibmiotf_cpp.Device.Info.{info_from_json}
use ibmiotf_cpp.Device.Location.{location_from_json}
use ibmiotf_cpp.Firmware.Info.{new_info}

module _ (J : JsonLib) (format_time : ℤ → Text) where
  unfoldable pub read_device_data : Option ℤ → ℤ → JsonLib.Value J → Result (DeviceData J)
  unfolding info_from_json location_from_json new_info
  read_device_data memory clock root = do
    dev_info ← J.get root (codes "DeviceInfo") J.null
    dev_location ← J.get root (codes "DeviceLocation") J.null
    dev_meta_data ← J.get root (codes "MetaData") J.null
    info ← info_from_json J dev_info
    location ← location_from_json J format_time memory clock dev_location
    ok (record {
      device_info = some info;
      device_location = some location;
      device_firmware = some (
          new_info J format_time (some (codes "name")) (some (codes "version")) (some (codes "uri"))
            (some (codes "verifier")));
      device_metadata = some dev_meta_data;
    })

  unfoldable pub fill_device_data : Option ℤ → ℤ → Option Text → Result (Option (DeviceData J))
  unfolding read_device_data
  fill_device_data memory clock none = do d ← read_device_data memory clock J.null; ok (some d)
  fill_device_data memory clock (some text) = elim (J.parse text) [
    | none ↦ ok none
    | some root ↦ do d ← read_device_data memory clock root; ok (some d)
  ]
