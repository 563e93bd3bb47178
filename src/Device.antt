-- ===== src/Device.antt =====
-- src/IOTP_Device.h and src/IOTP_Device.cpp: the data of a device, each object with its JSON copy.
pub mod Info
pub mod Location
pub mod Log
use ibmiotf_cpp.Base.{Option}
use ibmiotf_cpp.Json.{JsonLib}
use ibmiotf_cpp.Firmware.Info.{FirmwareInfo}
use Info.{DeviceInfo}
use Location.{DeviceLocation}

module _ (J : JsonLib) where
  -- IOTP_DeviceData; `none` is a null shared pointer
  pub record DeviceData : Type 0 where
    pub device_info : Option (DeviceInfo J)
    pub device_location : Option (DeviceLocation J)
    pub device_firmware : Option (FirmwareInfo J)
    pub device_metadata : Option (JsonLib.Value J)
