-- ===== src/Device/Log.antt =====
-- IOTP_DeviceLog of src/IOTP_Device.cpp.
use ibmiotf_cpp.Base.{ℤ}
use ibmiotf_cpp.Json.{JsonLib}
use ibmiotf_cpp.Text.{Text, codes}

module _ (J : JsonLib) where
  open J use {Value, null, string, int, set}

  pub record DeviceLog : Type 0 where
    pub message : Text
    pub measured_date_time : Text
    pub severity : ℤ
    pub log_data : Text
    pub json : Value

  -- setJsonValue
  unfoldable pub set_json_value : DeviceLog → DeviceLog
  set_json_value l = record l {
    json =
        set
          (set
            (set (set l.json (codes "message") (string l.message)) (codes "severity")
              (int l.severity))
            (codes "data") (string l.log_data))
          (codes "timestamp") (string l.measured_date_time);
  }

  unfoldable pub new_log : Text → Text → ℤ → Text → DeviceLog
  unfolding set_json_value
  new_log message time severity log_data = set_json_value (record {
    message = message;
    measured_date_time = time;
    severity = severity;
    log_data = log_data;
    json = null;
  })

  -- setLogInfo
  unfoldable pub set_log_info : Text → Text → ℤ → Text → DeviceLog → DeviceLog
  unfolding set_json_value
  set_log_info message time severity log_data l = set_json_value (record l {
    message = message;
    measured_date_time = time;
    severity = severity;
    log_data = log_data;
  })

  unfoldable pub set_log_message : Text → DeviceLog → DeviceLog
  unfolding set_log_info
  set_log_message message l = set_log_info message l.measured_date_time l.severity l.log_data l

  unfoldable pub set_log_entry_time : Text → DeviceLog → DeviceLog
  unfolding set_log_info
  set_log_entry_time time l = set_log_info l.message time l.severity l.log_data l

  unfoldable pub set_log_severity : ℤ → DeviceLog → DeviceLog
  unfolding set_log_info
  set_log_severity severity l = set_log_info l.message l.measured_date_time severity l.log_data l

  unfoldable pub set_log_data : Text → DeviceLog → DeviceLog
  unfolding set_log_info
  set_log_data log_data l = set_log_info l.message l.measured_date_time l.severity log_data l
