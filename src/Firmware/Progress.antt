-- ===== src/Firmware/Progress.antt =====
-- The progress threads: at most ten reports, up to the first that ends the action.
use ibmiotf_cpp.Base.{
  ℕ, zero, suc, ◌≤◌, ℤ, int_eq, true, false, ◌≡◌, refl, ap, ◌∙◌, List, [], ◌∷◌, arith, map, ◌⊎◌,
  inl, inr, Bool-cases,
}
use ibmiotf_cpp.Json.{JsonLib}
use ibmiotf_cpp.Text.{Text}
use ibmiotf_cpp.Firmware.Info.{FirmwareInfo, state_downloaded}
use ibmiotf_cpp.Firmware.{
  FirmwareMethods, FirmwareHandler, download_loop, check_download_progress, download_notification,
}

module _ (J : JsonLib) (format_time : ℤ → Text) (app : FirmwareMethods J) where
  -- The info after each of `n` reports in a row, from round `i` on, whatever they say.
  unfoldable pub reports : ℕ → ℕ → FirmwareInfo J → List (FirmwareInfo J)
  reports zero i p = []
  reports (suc n) i p = let p' = app.report_download_progress i p in p' ∷ reports n (suc i) p'

  -- No report but perhaps the last says that the download is complete.
  abbrev pub Pending : List (FirmwareInfo J) → Type 0
  Pending [] = Unit {0}
  Pending (p ∷ []) = Unit {0}
  Pending (p ∷ q ∷ l) = (int_eq p.state state_downloaded ≡ false) × Pending (q ∷ l)

  -- The last report says that the download is complete.
  abbrev pub Complete : List (FirmwareInfo J) → Type 0
  Complete [] = ⊥
  Complete (p ∷ []) = int_eq p.state state_downloaded ≡ true
  Complete (p ∷ q ∷ l) = Complete (q ∷ l)

  -- What the loop sends with `n` rounds left: the reports up to the first complete one, if there is
  -- one among them.
  pub record Sends (n i : ℕ) (p : FirmwareInfo J) : Type 0 where
    pub rounds : ℕ
    pub sent :
        download_loop J format_time app n i p
        ≡ map (download_notification J format_time) (reports rounds i p)
    pub bound : rounds ≤ n
    pub pending : Pending (reports rounds i p)
    pub ended : (rounds ≡ n) ⊎ Complete (reports rounds i p)

  extend :
      (n i : ℕ) (p : FirmwareInfo J) (k : ℕ)
      → int_eq (app.report_download_progress i p).state state_downloaded ≡ false
      → (rest : Sends n (suc i) (app.report_download_progress i p)) → rest.rounds ≡ k
      → Sends (suc n) i p
  unfolding reports download_loop
  extend n i p zero more rest e = record {
    rounds = 1;
    sent = rw more (
        ap (λ l. download_notification J format_time (app.report_download_progress i p) ∷ l)
          (rest.sent
            ∙ ap
                (λ r.
                  map (download_notification J format_time)
                    (reports r (suc i) (app.report_download_progress i p)))
                e));
    bound = omega arith;
    pending = tt;
    ended = inl (last rest.ended);
  }
    where
      last :
          (rest.rounds ≡ n)
            ⊎ Complete (reports rest.rounds (suc i) (app.report_download_progress i p))
          → 1 ≡ suc n
      last (inl h) = omega (arith, e)
      last (inr h) = absurd (rw e at h)
  extend n i p (suc k) more rest e = record {
    rounds = suc (suc k);
    sent = rw more (
        ap (λ l. download_notification J format_time (app.report_download_progress i p) ∷ l)
          (rest.sent
            ∙ ap
                (λ r.
                  map (download_notification J format_time)
                    (reports r (suc i) (app.report_download_progress i p)))
                e));
    bound = omega (arith, e, rest.bound);
    pending = (more, rw e at rest.pending);
    ended = last rest.ended;
  }
    where
      last :
          (rest.rounds ≡ n)
            ⊎ Complete (reports rest.rounds (suc i) (app.report_download_progress i p))
          → (suc (suc k) ≡ suc n) ⊎ Complete (reports (suc (suc k)) i p)
      last (inl h) = inl (omega (arith, e))
      last (inr h) = inr (rw e at h)

  loop-Sends : (n i : ℕ) (p : FirmwareInfo J) → Sends n i p
  unfolding reports download_loop
  loop-Sends zero i p = record {
    rounds = 0;
    sent = refl;
    bound = omega arith;
    pending = tt;
    ended = inl refl;
  }
  loop-Sends (suc n) i p =
      elim (Bool-cases (int_eq (app.report_download_progress i p).state state_downloaded)) [
        | inl done ↦ record {
          rounds = 1;
          sent = rw done;
          bound = omega arith;
          pending = tt;
          ended = inr done;
        }
        | inr more ↦
            extend n i p _ more (loop-Sends n (suc i) (app.report_download_progress i p)) refl
      ]

  -- With a client, the download thread sends one notification for each report, at most ten, goes on while the
  -- reports say that the download is not complete, and ends at the first complete one or after ten.
  pub check_download_progress-Sends :
      (h : FirmwareHandler J)
      → (rounds : ℕ) × (check_download_progress J format_time app true h
          ≡ map (download_notification J format_time) (reports rounds 0 h.fwinfo))
        × (rounds ≤ 10)
        × Pending (reports rounds 0 h.fwinfo)
        × ((rounds ≡ 10) ⊎ Complete (reports rounds 0 h.fwinfo))
  unfolding check_download_progress
  check_download_progress-Sends h =
      let s = loop-Sends 10 0 h.fwinfo in (s.rounds, s.sent, s.bound, s.pending, s.ended)
