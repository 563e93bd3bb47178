-- ===== src/Firmware.antt =====
-- IOTP_DeviceFirmwareHandler of src/IOTP_DeviceFirmwareHandler.cpp. The sleeps between the progress
-- reports change no state: the loops leave them out, and sleep_interval is their length.
pub mod Info
pub mod Replies
pub mod Progress
pub mod Updates
use ibmiotf_cpp.Base.{
  ℕ, ◌*◌, ◌/◌, ◌%◌, ◌^◌, zero, suc, ℤ, pos, int_eq, Bool, true, false, not, Option, none, some,
  List, [], ◌∷◌, ◌++◌, Result, ok, err, terminate, if◌then◌else◌,
}
use ibmiotf_cpp.Base.Exec.{Exec, pure, lift, modify, ◌>>=◌, ◌>>◌, when}
use ibmiotf_cpp.Json.{JsonLib}
use ibmiotf_cpp.Text.{Text, codes, text_eq}
use ibmiotf_cpp.Topics.{
  server_update_topic, server_observe_topic, server_cancel_topic, server_firmware_download_topic,
  server_firmware_update_topic, device_notify_topic,
}
use ibmiotf_cpp.Device.Info.{get_text}
use ibmiotf_cpp.Reply.{ActionResponse, ReplyMessage, new_reply, response_reply}
use Info.{
  FirmwareInfo, new_info, set_name, set_version, set_uri, set_verifier, state_downloaded,
  status_success, status_in_progress,
}

-- The milliseconds that a progress thread sleeps before each report, in unsigned int, where
-- `timeout` is what firmware_download_timeout or firmware_update_timeout gives.
unfoldable pub sleep_interval : ℕ → ℕ
sleep_interval timeout = timeout * 1000 % 2 ^ 32 / 10

module _ (J : JsonLib) where
  -- The virtual methods of the user's subclass. A response is a shared pointer, null for `none`. The
  -- reports change the info that they are handed; the number is the round of the report.
  pub record FirmwareMethods : Type 0 where
    pub verify : FirmwareInfo J → Option ActionResponse
    pub is_ready_for_download : FirmwareInfo J → Option ActionResponse
    pub download : FirmwareInfo J → Option ActionResponse
    pub update : FirmwareInfo J → Option ActionResponse
    pub report_download_progress : ℕ → FirmwareInfo J → FirmwareInfo J
    pub report_update_progress : ℕ → FirmwareInfo J → FirmwareInfo J

  -- The threads are told by whether they are joinable.
  pub record FirmwareHandler : Type 0 where
    pub fwinfo : FirmwareInfo J
    pub download_thread : Bool
    pub update_thread : Bool

module _ (J : JsonLib) (format_time : ℤ → Text) where
  open J use {Value, null, string, int, array, get, get_index, set, as_string, parse}

  unfoldable pub new_handler : FirmwareHandler J
  unfolding new_info
  new_handler = record {
    fwinfo = new_info J format_time none none none none;
    download_thread = false;
    update_thread = false;
  }

  -- The destructor joins the threads that are joinable.
  unfoldable pub destroy : FirmwareHandler J → FirmwareHandler J
  destroy h = record h { download_thread = false; update_thread = false }

  -- The entry "mgmt.firmware" of an update request, copied into the info.
  unfoldable pub read_firmware : Value → FirmwareInfo J → Exec (FirmwareHandler J) (FirmwareInfo J)
  unfolding get_text set_version set_name set_uri set_verifier
  read_firmware payload p = do
    d ← lift (get payload (codes "d") null)
    fields ← lift (get d (codes "fields") null)
    first_field ← lift (get_index fields 0 null)
    field ← lift (get first_field (codes "field") null)
    field_name ← lift (as_string field)
    if not (text_eq field_name (codes "mgmt.firmware")) then pure p else do
      value ← lift (get first_field (codes "value") null)
      version ← lift (get_text J value (codes "version"))
      name ← lift (get_text J value (codes "name"))
      uri ← lift (get_text J value (codes "uri"))
      verifier ← lift (get_text J value (codes "verifier"))
      pure (
          set_verifier J format_time verifier (
            set_uri J format_time uri
              (set_name J format_time name (set_version J format_time version p))))

  is_accepted : Option ActionResponse → Bool
  is_accepted none = false
  is_accepted (some rsp) = int_eq rsp.rc (pos 202)

  -- Assigning to a joinable std::thread ends the program.
  start_download : Exec (FirmwareHandler J) (Unit {0})
  start_download h =
      if h.download_thread then (err terminate, h) else (ok tt, record h { download_thread = true })

  start_update : Exec (FirmwareHandler J) (Unit {0})
  start_update h =
      if h.update_thread then (err terminate, h) else (ok tt, record h { update_thread = true })

  -- rsp->get_rc() == 202 starts the progress thread; a null rsp faults in `response_reply`
  start_accepted :
      Option ActionResponse
      → Exec (FirmwareHandler J) (Unit {0})
      → Exec (FirmwareHandler J) (Option ActionResponse)
  unfolding is_accepted
  start_accepted rsp start = if is_accepted rsp then (do start; pure rsp) else pure rsp

  -- The method that a topic asks for, and its response.
  dispatch :
      FirmwareMethods J
      → Text
      → Value
      → FirmwareInfo J
      → Exec (FirmwareHandler J) (Option ActionResponse)
  unfolding read_firmware start_download start_update start_accepted
  dispatch app topic payload p =
      if text_eq topic server_update_topic
      then (do p' ← read_firmware payload p; pure (app.verify p'))
      else if text_eq topic server_observe_topic
      then pure (app.is_ready_for_download p)
      else if text_eq topic server_firmware_download_topic
      then start_accepted (app.download p) start_download
      else if text_eq topic server_firmware_update_topic
      then start_accepted (app.update p) start_update
      else if text_eq topic server_cancel_topic
      then pure (some (record { rc = pos 200; message = [] }))
      else pure none

  unfoldable pub respond :
      FirmwareMethods J → Text → Value → Exec (FirmwareHandler J) (Option ActionResponse)
  unfolding dispatch
  respond app topic payload h = dispatch app topic payload h.fwinfo h

  -- message_arrived with a parsed payload
  unfoldable pub message_arrived :
      FirmwareMethods J → Text → Value → Exec (FirmwareHandler J) (Option (ReplyMessage J))
  unfolding respond
  message_arrived app topic payload = do
    rsp ← respond app topic payload
    reply ← lift (response_reply J rsp payload)
    pure (some reply)

  -- message_arrived with a message that is parsed here
  unfoldable pub raw_message_arrived :
      FirmwareMethods J → Text → Text → Exec (FirmwareHandler J) (Option (ReplyMessage J))
  unfolding message_arrived
  raw_message_arrived app topic text = elim (parse text) [
    | none ↦ pure none
    | some payload ↦ message_arrived app topic payload
  ]

  -- { "d" : { "fields" : [ { "field" : "mgmt.firmware", "value" : value } ] } }
  unfoldable pub notification : Value → ReplyMessage J
  unfolding new_reply
  notification value =
      let entry =
        set (set null (codes "field") (string (codes "mgmt.firmware"))) (codes "value") value in
      new_reply J device_notify_topic
        (set null (codes "d") (set null (codes "fields") (array (entry ∷ []))))

  unfoldable pub download_notification : FirmwareInfo J → ReplyMessage J
  unfolding notification
  download_notification p = notification (set null (codes "state") (int p.state))

  -- The loop of check_download_progress, with the rounds left and the number of the round.
  unfoldable pub download_loop : FirmwareMethods J → ℕ → ℕ → FirmwareInfo J → List (ReplyMessage J)
  unfolding download_notification
  download_loop app zero i p = []
  download_loop app (suc n) i p =
      let p' = app.report_download_progress i p in
      let rest = download_loop app n (suc i) p' in
      download_notification p' ∷ (if int_eq p'.state state_downloaded then [] else rest)

  -- check_download_progress: the messages that it hands to the client, none if mClient is null
  unfoldable pub check_download_progress :
      FirmwareMethods J → Bool → FirmwareHandler J → List (ReplyMessage J)
  unfolding download_loop
  check_download_progress app has_client h =
      if has_client then download_loop app 10 0 h.fwinfo else []

  unfoldable pub update_notification : FirmwareInfo J → Result (ReplyMessage J)
  unfolding notification get_text
  update_notification p =
      let value =
        set (set null (codes "state") (int p.state)) (codes "updateStatus") (int p.update_status) in
      if int_eq p.update_status status_success
      then elim (get_text J p.json (codes "updatedDateTime")) [
        | ok t ↦ ok (notification (set value (codes "updatedDateTime") (string t)))
        | err e ↦ err e
      ]
      else ok (notification value)

  -- The loop of check_update_progress. The state is the list of the messages handed to the client so
  -- far; `has_client` is mClient != nullptr.
  unfoldable pub update_loop :
      FirmwareMethods J → Bool → ℕ → ℕ → FirmwareInfo J → Exec (List (ReplyMessage J)) (Unit {0})
  unfolding update_notification
  update_loop app has_client zero i p = pure tt
  update_loop app has_client (suc n) i p =
      let p' = app.report_update_progress i p in
      let rest = update_loop app has_client n (suc i) p' in
      do
        message ← lift (update_notification p')
        when has_client (modify (λ sent. sent ++ (message ∷ [])))
        if int_eq p'.update_status status_in_progress then rest else pure tt

  -- check_update_progress
  unfoldable pub check_update_progress :
      FirmwareMethods J → Bool → FirmwareHandler J → Exec (List (ReplyMessage J)) (Unit {0})
  unfolding update_loop
  check_update_progress app has_client h = update_loop app has_client 10 0 h.fwinfo
