-- ===== src/Samples/Handlers/Progress.antt =====
-- What the platform hears of the firmware of samples/sampleManagedDevice.cpp.
use ibmiotf_cpp.Base.{
  ℕ, zero, suc, ◌+◌, ◌*◌, ◌<◌, ◌≤◌, ltb, ℤ, ◌≡◌, refl, ap, true, List, [], ◌∷◌, ◌++◌, length,
  length-append, arith, Bool-cases, inl, inr,
}
use ibmiotf_cpp.Json.{JsonLib}
use ibmiotf_cpp.Text.{Text, codes}
use ibmiotf_cpp.Reply.{ReplyMessage}
use ibmiotf_cpp.Firmware.Info.{
  FirmwareInfo, set_json_value, set_state, state_downloading, state_downloaded,
}
use ibmiotf_cpp.Firmware.{
  FirmwareHandler, notification, download_notification, download_loop, check_download_progress,
  sleep_interval,
}
use ibmiotf_cpp.Samples.Handlers.{
  Schedule, pretend_sleep, download_timeout, download_state, firmware_action,
}

-- So many times the same message.
unfoldable pub copies : {A : Type 0} → ℕ → A → List A
copies zero a = []
copies (suc n) a = a ∷ copies n a

length-copies : {A : Type 0} (n : ℕ) (a : A) → length (copies n a) ≡ n
unfolding copies
length-copies zero a = refl
length-copies (suc n) a = ap suc (length-copies n a)

-- The first of the times 0, …, n at which `f` has come to the bound.
pub first_reached :
    (n bound : ℕ) (f : ℕ → ℕ)
    → bound ≤ f n
    → (m : ℕ) × (m ≤ n) × ((k : ℕ) → k < m → f k < bound) × (bound ≤ f m)
first_reached zero bound f h = (0, omega arith, λ k b. absurd (omega (arith, b)), h)
first_reached (suc n) bound f h = elim (Bool-cases (ltb (f 0) bound)) [
  | inr e ↦ (0, omega arith, λ k b. absurd (omega (arith, b)), ground arith)
  | inl e ↦
      let (m, le, before, reached) = first_reached n bound (λ k. f (suc k)) h in
      (
        suc m,
        omega arith,
        λ k. elim k as (λ k. k < suc m → f k < bound) [
          | zero ↦ λ b. ground arith
          | suc j ↦ λ b. before j (omega (arith, b))
        ],
        reached,
      )
]

-- Where `f` grows by at least `d` in each of the first n steps.
pub grows :
    (n d : ℕ) (f : ℕ → ℕ)
    → ((k : ℕ) → k < n → f k + d ≤ f (suc k))
    → (k : ℕ) → k ≤ n
    → f 0 + k * d ≤ f k
grows n d f h zero b = omega arith
grows n d f h (suc k) b =
    let below = grows n d f h k (omega (arith, b)) in
    let step = h k (omega (arith, b)) in grind arith

download_state-during :
    (started now : ℕ)
    → started ≤ now
    → now < started + pretend_sleep download_timeout
    → download_state started now ≡ state_downloading
unfolding download_state
download_state-during started now a b = ground arith

download_state-after :
    (started now : ℕ)
    → started + pretend_sleep download_timeout ≤ now
    → download_state started now ≡ state_downloaded
unfolding download_state
download_state-after started now a = ground arith

module _ (J : JsonLib) (format_time : ℤ → Text) (s : Schedule) where
  open J use {null, int, set}

  -- The notification that gives a state.
  abbrev pub says : ℤ → ReplyMessage J
  says state = notification J format_time (set null (codes "state") (int state))

  -- What the platform hears of a download that is over at the report m.
  abbrev pub told : ℕ → List (ReplyMessage J)
  told m = copies m (says state_downloading) ++ (says state_downloaded ∷ [])

  pub length-told : (m : ℕ) → length (told m) ≡ m + 1
  length-told m = omega (
    arith,
    length-copies m (says state_downloading),
    length-append (copies m (says state_downloading)) (says state_downloaded ∷ []),
  )

  download_loop-told :
      (m n i last : ℕ) (p : FirmwareInfo J)
      → m < n
      → last ≡ i + m
      → ((k : ℕ)
          → k < last
          → download_state s.download_started (s.report_time k) ≡ state_downloading)
      → download_state s.download_started (s.report_time last) ≡ state_downloaded
      → download_loop J format_time (firmware_action J format_time s) n i p ≡ told m
  unfolding download_loop copies download_notification firmware_action set_state set_json_value
  download_loop-told m zero i last p b q h e = absurd (omega (arith, b))
  download_loop-told zero (suc n) i last p b q h e =
      let first : last ≡ i = omega arith in rw (rw first at e)
  download_loop-told (suc m) (suc n) i last p b q h e = rw (
    h i (omega arith),
    download_loop-told m n (suc i) last _ (omega (arith, b)) (omega (arith, q)) h e,
  )

  -- The platform hears that the sample's download is over: where the pretended download has begun at
  -- the first report, and at least the interval of the library lies between two reports, the
  -- download thread sends notifications with the state "downloading", five at most, then one with
  -- "downloaded", and stops.
  pub check_download_progress-firmware_action :
      (h : FirmwareHandler J)
      → s.download_started ≤ s.report_time 0
      → ((k : ℕ)
          → k < 5
          → s.report_time k + sleep_interval download_timeout ≤ s.report_time (suc k))
      → (m : ℕ) × (m ≤ 5)
        × (check_download_progress J format_time (firmware_action J format_time s) true h ≡ told m)
  unfolding check_download_progress sleep_interval pretend_sleep
  check_download_progress-firmware_action h begun apart =
      let at : (k : ℕ) → k ≤ 5 → s.report_time 0 + k * 2000 ≤ s.report_time k =
        grows 5 2000 s.report_time apart in
      let (m, le, before, reached) =
        first_reached 5 (s.download_started + 10000) s.report_time
          (omega (arith, at 5 (omega arith))) in
      (
        m,
        le,
        download_loop-told m 10 0 m h.fwinfo (omega (arith, le)) (omega arith)
            (λ k b.
              download_state-during s.download_started (s.report_time k)
                (omega (arith, at k (omega (arith, b, le)))) (before k b))
            (download_state-after s.download_started (s.report_time m) reached),
      )
