-- ===== src/Topics.antt =====
-- src/IOTP_TopicDefinitions.h: the topics of the device management protocol.

pub mod Filter
use ibmiotf_cpp.Text.{Text, codes}

abbrev pub server_response_topic : Text
server_response_topic = codes "iotdm-1/response"

abbrev pub device_manage_topic : Text
device_manage_topic = codes "iotdevice-1/mgmt/manage"

abbrev pub device_unmanage_topic : Text
device_unmanage_topic = codes "iotdevice-1/mgmt/unmanage"

abbrev pub server_update_topic : Text
server_update_topic = codes "iotdm-1/device/update"

abbrev pub device_update_location_topic : Text
device_update_location_topic = codes "iotdevice-1/device/update/location"

abbrev pub device_response_topic : Text
device_response_topic = codes "iotdevice-1/response"

abbrev pub server_device_reboot_topic : Text
server_device_reboot_topic = codes "iotdm-1/mgmt/initiate/device/reboot"

abbrev pub server_factory_reset_topic : Text
server_factory_reset_topic = codes "iotdm-1/mgmt/initiate/device/factory_reset"

abbrev pub device_notify_topic : Text
device_notify_topic = codes "iotdevice-1/notify"

abbrev pub server_observe_topic : Text
server_observe_topic = codes "iotdm-1/observe"

abbrev pub server_cancel_topic : Text
server_cancel_topic = codes "iotdm-1/cancel"

abbrev pub server_firmware_download_topic : Text
server_firmware_download_topic = codes "iotdm-1/mgmt/initiate/firmware/download"

abbrev pub server_firmware_update_topic : Text
server_firmware_update_topic = codes "iotdm-1/mgmt/initiate/firmware/update"

abbrev pub device_add_error_codes_topic : Text
device_add_error_codes_topic = codes "iotdevice-1/add/diag/errorCodes"

abbrev pub device_clear_error_codes_topic : Text
device_clear_error_codes_topic = codes "iotdevice-1/clear/diag/errorCodes"

abbrev pub device_add_diag_log_topic : Text
device_add_diag_log_topic = codes "iotdevice-1/add/diag/log"

abbrev pub device_clear_diag_log_topic : Text
device_clear_diag_log_topic = codes "iotdevice-1/clear/diag/log"
