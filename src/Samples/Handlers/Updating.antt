-- ===== src/Samples/Handlers/Updating.antt =====
-- What the platform hears of an update by the firmware of samples/sampleManagedDevice.cpp.
use ibmiotf_cpp.Base.{
  ℕ, zero, suc, ◌+◌, ◌*◌, ◌<◌, ◌≤◌, ℤ, negsuc, int_eq, ◌≡◌, refl, sym, ◌∙◌, true, false, ok, none,
  List, [], ◌∷◌, ◌++◌, append_assoc, arith,
}
use mathlib.Core.Path.{subst}
use ibmiotf_cpp.Json.{JsonLib}
use ibmiotf_cpp.Text.{Text, codes}
use ibmiotf_cpp.Reply.{ReplyMessage}
use ibmiotf_cpp.Device.Info.{get_text}
use ibmiotf_cpp.Firmware.Info.{
  FirmwareInfo, new_info, set_json_value, set_state, set_update_status, set_updated_date_time,
  state_idle, status_in_progress, status_success,
}
use ibmiotf_cpp.Firmware.Info.Shown.{Shown}
use ibmiotf_cpp.Firmware.Info.JsonCopy.{
  state_edit, update_status_edit, updated_date_time_edit, edits, edit, edits-keep_Shown,
  new_full_info-Shown,
}
use ibmiotf_cpp.Firmware.{
  FirmwareHandler, new_handler, notification, update_notification, update_loop,
  check_update_progress, sleep_interval,
}
use ibmiotf_cpp.Samples.Handlers.{
  Schedule, pretend_sleep, update_timeout, update_status, update_state, update_timestamp,
  firmware_action,
}
use ibmiotf_cpp.Samples.Handlers.Progress.{copies, first_reached, grows}

update_status-during :
    (started now : ℕ)
    → started ≤ now
    → now < started + pretend_sleep update_timeout
    → update_status started now ≡ status_in_progress
unfolding update_status
update_status-during started now a b = ground arith

update_state-during :
    (left : ℤ) (started now : ℕ)
    → now < started + pretend_sleep update_timeout
    → update_state left started now ≡ left
unfolding update_state
update_state-during left started now b = ground arith

update_status-after :
    (started now : ℕ)
    → started + pretend_sleep update_timeout ≤ now
    → update_status started now ≡ status_success
unfolding update_status
update_status-after started now a = ground arith

update_state-after :
    (left : ℤ) (started now : ℕ)
    → started + pretend_sleep update_timeout ≤ now
    → update_state left started now ≡ state_idle
unfolding update_state
update_state-after left started now a = ground arith

update_timestamp-after :
    (s : Schedule) (now : ℕ)
    → s.update_started + pretend_sleep update_timeout ≤ now
    → update_timestamp s now ≡ s.clock
unfolding update_timestamp
update_timestamp-after s now a = ground arith

module _ (J : JsonLib) (format_time : ℤ → Text) (s : Schedule) where
  open J use {null, int, string, set}

  -- The value of a notification with a state and an update status.
  abbrev pub status_value : ℤ → ℤ → JsonLib.Value J
  status_value state status =
      set (set null (codes "state") (int state)) (codes "updateStatus") (int status)

  abbrev pub in_progress : ReplyMessage J
  in_progress = notification J format_time (status_value s.left status_in_progress)

  abbrev pub updated : ReplyMessage J
  updated = notification J format_time (
      set (status_value state_idle status_success) (codes "updatedDateTime")
        (string (format_time s.clock)))

  -- What the platform hears of an update that is over at the report m.
  abbrev pub told : ℕ → List (ReplyMessage J)
  told m = copies m in_progress ++ (updated ∷ [])

  -- The info after the report i.
  abbrev reported : ℕ → FirmwareInfo J → FirmwareInfo J
  reported = (firmware_action J format_time s).report_update_progress

  reported-Shown :
      (i : ℕ) (p : FirmwareInfo J) → Shown J format_time p → Shown J format_time (reported i p)
  unfolding firmware_action edits edit
  reported-Shown i p h =
      let now = s.report_time i in
      edits-keep_Shown J format_time
        (state_edit (update_state s.left s.update_started now)
          ∷ (update_status_edit (update_status s.update_started now)
              ∷ (updated_date_time_edit (update_timestamp s now) ∷ [])))
        p h

  reported_lem :
      (i : ℕ) (p : FirmwareInfo J)
      → let now = s.report_time i in
        ((reported i p).state ≡ update_state s.left s.update_started now)
        × ((reported i p).update_status ≡ update_status s.update_started now)
        × ((reported i p).updated_date_time ≡ update_timestamp s now)
  unfolding firmware_action set_state set_update_status set_updated_date_time set_json_value
  reported_lem i p = (refl, refl, refl)

  get_text-Shown :
      (p : FirmwareInfo J)
      → Shown J format_time p
      → int_eq p.updated_date_time (negsuc 0) ≡ false
      → get_text J p.json (codes "updatedDateTime") ≡ ok (format_time p.updated_date_time)
  unfolding get_text
  get_text-Shown p h e = rw (h.time e (string []), J.as_string-string)

  notification-during :
      (i : ℕ) (p : FirmwareInfo J)
      → s.update_started ≤ s.report_time i
      → s.report_time i < s.update_started + pretend_sleep update_timeout
      → (update_notification J format_time (reported i p) ≡ ok in_progress)
        × ((reported i p).update_status ≡ status_in_progress)
  unfolding update_notification
  notification-during i p a b =
      let (state, status, time) = reported_lem i p in
      let state' = state ∙ update_state-during s.left s.update_started (s.report_time i) b in
      let status' = status ∙ update_status-during s.update_started (s.report_time i) a b in
      (rw (status', state'), status')

  notification-after :
      (i : ℕ) (p : FirmwareInfo J)
      → Shown J format_time p
      → int_eq s.clock (negsuc 0) ≡ false
      → s.update_started + pretend_sleep update_timeout ≤ s.report_time i
      → (update_notification J format_time (reported i p) ≡ ok updated)
        × ((reported i p).update_status ≡ status_success)
  unfolding update_notification
  notification-after i p h c a =
      let (state, status, time) = reported_lem i p in
      let state' = state ∙ update_state-after s.left s.update_started (s.report_time i) a in
      let status' = status ∙ update_status-after s.update_started (s.report_time i) a in
      let time' = time ∙ update_timestamp-after s (s.report_time i) a in
      let set : int_eq (reported i p).updated_date_time (negsuc 0) ≡ false = rw time' c in
      let text = get_text-Shown (reported i p) (reported-Shown i p h) set in
      (rw (text, status', state', time'), status')

  update_loop-told :
      (m n i last : ℕ) (p : FirmwareInfo J) (sent : List (ReplyMessage J))
      → Shown J format_time p
      → int_eq s.clock (negsuc 0) ≡ false
      → m < n
      → last ≡ i + m
      → ((k : ℕ) → k < last → s.update_started ≤ s.report_time k)
      → ((k : ℕ) → k < last → s.report_time k < s.update_started + pretend_sleep update_timeout)
      → s.update_started + pretend_sleep update_timeout ≤ s.report_time last
      → update_loop J format_time (firmware_action J format_time s) true n i p sent
        ≡ (ok tt, sent ++ told m)
  unfolding update_loop copies
  update_loop-told m zero i last p sent h c b q begun before after = absurd (omega (arith, b))
  update_loop-told zero (suc n) i last p sent h c b q begun before after =
      let first : last ≡ i = omega arith in
      let (message, status) = notification-after i p h c (rw first at after) in rw (message, status)
  update_loop-told (suc m) (suc n) i last p sent h c b q begun before after =
      let (message, status) =
        notification-during i p (begun i (omega arith)) (before i (omega arith)) in
      let rest =
        update_loop-told m n (suc i) last (reported i p) (sent ++ (in_progress ∷ []))
          (reported-Shown i p h) c (omega (arith, b)) (omega (arith, q)) begun before after in
      rw (message, status) (rest ∙ rw append_assoc)

  -- The platform hears that the sample's update is over: with a new handler that knows its client,
  -- where the pretended update has begun at the first report, at least the interval of the library
  -- lies between two reports, and the clock is not at -1 when the update ends, the update thread
  -- ends without an exception and sends notifications with the state that was left before and the
  -- status "in progress", five at most, then one with the state "idle", the status "success" and the
  -- time at which the update ended.
  pub check_update_progress-firmware_action :
      (h : FirmwareHandler J)
      → h.fwinfo ≡ (new_handler J format_time).fwinfo
      → int_eq s.clock (negsuc 0) ≡ false
      → s.update_started ≤ s.report_time 0
      → ((k : ℕ) → k < 5 → s.report_time k + sleep_interval update_timeout ≤ s.report_time (suc k))
      → (m : ℕ) × (m ≤ 5)
        × (check_update_progress J format_time (firmware_action J format_time s) true h []
            ≡ (ok tt, told m))
  unfolding check_update_progress new_handler new_info sleep_interval pretend_sleep
  check_update_progress-firmware_action h new c begun apart =
      let at : (k : ℕ) → k ≤ 5 → s.report_time 0 + k * 4500 ≤ s.report_time k =
        grows 5 4500 s.report_time apart in
      let (m, le, before, reached) =
        first_reached 5 (s.update_started + 22000) s.report_time
          (omega (arith, at 5 (omega arith))) in
      let shown =
        subst (Shown J format_time) (sym new) (
          new_full_info-Shown J format_time none none none none state_idle (negsuc 0) (negsuc 0)) in
      (
        m,
        le,
        update_loop-told m 10 0 m h.fwinfo [] shown c (omega (arith, le)) (omega arith)
            (λ k b. omega (arith, at k (omega (arith, b, le)))) before reached,
      )
