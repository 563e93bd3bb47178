-- ===== src/Firmware/Updates.antt =====
-- The update thread of src/IOTP_DeviceFirmwareHandler.cpp (check_update_progress).
use ibmiotf_cpp.Base.{
  length, ◌≡◌, sym, ◌∙◌, ℕ, zero, suc, ◌≤◌, ℤ, negsuc, int_eq, true, false, ok, Result, List, [],
  ◌∷◌, ◌++◌, append_assoc, append-nil, arith, Bool-cases, inl, inr, none,
}
use mathlib.Core.Path.{subst}
use ibmiotf_cpp.Json.{JsonLib}
use ibmiotf_cpp.Text.{Text, codes}
use ibmiotf_cpp.Reply.{ReplyMessage}
use ibmiotf_cpp.Firmware.Info.{
  FirmwareInfo, new_info, state_idle, status_success, status_in_progress,
}
use ibmiotf_cpp.Firmware.Info.Shown.{Shown}
use ibmiotf_cpp.Firmware.Info.JsonCopy.{Edit, edits, edits-keep_Shown, new_full_info-Shown}
use ibmiotf_cpp.Firmware.{
  FirmwareMethods, FirmwareHandler, new_handler, notification, update_notification, update_loop,
  check_update_progress,
}

module _ (J : JsonLib) (format_time : ℤ → Text) (app : FirmwareMethods J) where
  open J use {null, string, int, set}

  -- The messages of the thread with so many rounds left, from the round `i` and the info `p` on: one
  -- for each report, up to the first report that is not in progress.
  pub data Reports : ℕ → ℕ → FirmwareInfo J → List (ReplyMessage J) → Type 0 where
    no_round : {i : ℕ} {p : FirmwareInfo J} → Reports zero i p []
    last_report :
        {n i : ℕ} {p : FirmwareInfo J} {message : ReplyMessage J}
        → update_notification J format_time (app.report_update_progress i p) ≡ ok message
        → int_eq (app.report_update_progress i p).update_status status_in_progress ≡ false
        → Reports (suc n) i p (message ∷ [])
    next_report :
        {n i : ℕ} {p : FirmwareInfo J} {message : ReplyMessage J} {messages : List (ReplyMessage J)}
        → update_notification J format_time (app.report_update_progress i p) ≡ ok message
        → int_eq (app.report_update_progress i p).update_status status_in_progress ≡ true
        → Reports n (suc i) (app.report_update_progress i p) messages
        → Reports (suc n) i p (message ∷ messages)

  length-Reports :
      (n i : ℕ) (p : FirmwareInfo J) (ms : List (ReplyMessage J)) → Reports n i p ms → length ms ≤ n
  length-Reports _ _ _ _ no_round = omega arith
  length-Reports _ _ _ _ (last_report e f) = omega arith
  length-Reports _ _ _ _ (next_report e f r) = omega (arith, length-Reports _ _ _ _ r)

  notification-Shown :
      (p : FirmwareInfo J)
      → Shown J format_time p
      → (message : ReplyMessage J) × (update_notification J format_time p ≡ ok message)
  unfolding update_notification
  notification-Shown p h =
      let value =
        set (set null (codes "state") (int p.state)) (codes "updateStatus") (int p.update_status) in
      elim (Bool-cases (int_eq p.update_status status_success)) [
        | inl e ↦ (
          notification J format_time (set value (codes "updatedDateTime") (string h.readable.time)),
          rw (e, h.readable.is_time),
        )
        | inr e ↦ (notification J format_time value, rw e)
      ]

  -- A run of the thread that ends well.
  pub record Completes (n i : ℕ) (p : FirmwareInfo J) (sent : List (ReplyMessage J))
      (r : Result (Unit {0}) × List (ReplyMessage J)) : Type 0 where
    pub messages : List (ReplyMessage J)
    pub result : r ≡ (ok tt, sent ++ messages)
    pub reports : Reports n i p messages
    pub bound : length messages ≤ n

  module _ (script : ℕ → FirmwareInfo J → List (Edit J format_time))
      (scripted : (i : ℕ) (p : FirmwareInfo J)
        → app.report_update_progress i p ≡ edits J format_time (script i p) p) where
    update_loop-Completes :
        (n i : ℕ) (p : FirmwareInfo J) (sent : List (ReplyMessage J))
        → Shown J format_time p
        → Completes n i p sent (update_loop J format_time app true n i p sent)
    unfolding update_loop
    update_loop-Completes zero i p sent h = record {
      messages = [];
      result = rw append-nil;
      reports = no_round;
      bound = omega arith;
    }
    update_loop-Completes (suc n) i p sent h =
        let p' = app.report_update_progress i p in
        let shown : Shown J format_time p' =
          subst (Shown J format_time) (sym (scripted i p))
            (edits-keep_Shown J format_time (script i p) p h) in
        let (message, e) = notification-Shown p' shown in
        let rest = update_loop-Completes n (suc i) p' (sent ++ (message ∷ [])) shown in
        elim (Bool-cases (int_eq p'.update_status status_in_progress)) [
          | inl f ↦ record {
            messages = message ∷ rest.messages;
            result = rw (e, f) (rest.result ∙ rw append_assoc);
            reports = next_report e f rest.reports;
            bound = omega (arith, rest.bound);
          }
          | inr f ↦ record {
            messages = message ∷ [];
            result = rw (e, f);
            reports = last_report e f;
            bound = omega arith;
          }
        ]

    -- With a client, and reports that only call setters of the info that they are handed, the update
    -- thread of a new handler ends without an exception; it sends one notification for each report, at
    -- most ten, and goes on exactly while the reports say that the update is in progress.
    pub check_update_progress-Completes :
        (h : FirmwareHandler J)
        → h.fwinfo ≡ (new_handler J format_time).fwinfo
        → Completes 10 0 h.fwinfo [] (check_update_progress J format_time app true h [])
    unfolding check_update_progress new_handler new_info
    check_update_progress-Completes h e = update_loop-Completes 10 0 h.fwinfo [] (
        subst (Shown J format_time) (sym e)
          (new_full_info-Shown J format_time none none none none state_idle (negsuc 0) (negsuc 0)))
