-- ===== src/ReplyQueue/Shutdown.antt =====
-- The end of the reply thread of src/IOTP_Client.cpp: the destructor sets mExit, and joins the thread.
use ibmiotf_cpp.Base.{
  ◌≡◌, refl, ap, ◌∙◌, ℕ, suc, ◌+◌, ◌≤◌, ◌⊎◌, inl, inr, Bool, true, false, List, [], ◌∷◌, ◌++◌,
  arith,
}
use ibmiotf_cpp.ReplyQueue.{
  ReplyQueue, Worker, running, waiting, notified, stopped, push, send_front, notify,
}

-- The system while mExit is set. `tested` tells that a thread between two rounds read mExit before that.
pub record Closing (A : Type 0) : Type 0 where
  pub system : ReplyQueue A
  pub tested : Bool

-- A bound on the steps that are left to the thread.
unfoldable pub rank_of : Worker → Bool → ℕ
rank_of running true = 4
rank_of waiting _ = 3
rank_of notified _ = 2
rank_of running false = 1
rank_of stopped _ = 0

rank_of-notify : (w : Worker) (b : Bool) → rank_of (notify w) b ≤ rank_of w b
unfolding rank_of notify
rank_of-notify running true = omega arith
rank_of-notify running false = omega arith
rank_of-notify waiting b = omega arith
rank_of-notify notified b = omega arith
rank_of-notify stopped b = omega arith

rank_of-max : (w : Worker) (b : Bool) → rank_of w b ≤ 4
unfolding rank_of
rank_of-max running true = omega arith
rank_of-max running false = omega arith
rank_of-max waiting b = omega arith
rank_of-max notified b = omega arith
rank_of-max stopped b = omega arith

module _ {A : Type 0} where
  -- A step of the thread.
  pub data ThreadStep (s : Closing A) : Closing A → Type 0 where
    begins_wait :
        s.system.worker ≡ running
        → s.tested ≡ true
        → ThreadStep s (record { system = record s.system { worker = waiting }; tested = false })
    times_out :
        s.system.worker ≡ waiting
        → ThreadStep s (record { system = record s.system { worker = running }; tested = false })
    wakes_spuriously :
        s.system.worker ≡ waiting
        → ThreadStep s (record { system = record s.system { worker = notified }; tested = false })
    sends :
        s.system.worker ≡ notified
        → ThreadStep s (record { system = send_front s.system; tested = false })
    exits :
        s.system.worker ≡ running
        → s.tested ≡ false
        → ThreadStep s (record { system = record s.system { worker = stopped }; tested = false })

  -- The runs with so many steps of the thread. Replies may still be handed over.
  pub data Run (s : Closing A) : ℕ → Closing A → Type 0 where
    start : Run s 0 s
    thread : {n : ℕ} {t u : Closing A} → Run s n t → ThreadStep t u → Run s (suc n) u
    pushed :
        {n : ℕ} {t : Closing A}
        → Run s n t
        → (reply : A) → Run s n (record t { system = push reply t.system })

  unfoldable pub rank : Closing A → ℕ
  rank s = rank_of s.system.worker s.tested

  send_front-worker : (s : ReplyQueue A) → (send_front s).worker ≡ running
  unfolding send_front
  send_front-worker s = by_queue s.queue refl
    where
      by_queue : (q : List A) → s.queue ≡ q → (send_front s).worker ≡ running
      by_queue [] e = rw (e, send_front)
      by_queue (reply ∷ rest) e = rw (e, send_front)

  send_front-sent :
      (s : ReplyQueue A)
      → ((send_front s).sent ≡ s.sent)
        ⊎ ((reply : A) × ((send_front s).sent ≡ s.sent ++ (reply ∷ [])))
  unfolding send_front
  send_front-sent s = by_queue s.queue refl
    where
      by_queue :
          (q : List A)
          → s.queue ≡ q
          → ((send_front s).sent ≡ s.sent)
            ⊎ ((reply : A) × ((send_front s).sent ≡ s.sent ++ (reply ∷ [])))
      by_queue [] e = inl (rw (e, send_front))
      by_queue (reply ∷ rest) e = inr (reply, rw (e, send_front))

  rank-step : {t u : Closing A} → ThreadStep t u → suc (rank u) ≤ rank t
  unfolding rank rank_of
  rank-step (begins_wait w b) = rw (w, b) (omega arith)
  rank-step (times_out w) = rw w (omega arith)
  rank-step (wakes_spuriously w) = rw w (omega arith)
  rank-step {t} (sends w) = omega (
    arith,
    ap (λ x. rank_of x false) (send_front-worker t.system),
    ap (λ x. rank_of x t.tested) w,
  )
  rank-step (exits w b) = rw (w, b) (omega arith)

  rank-Run : {s : Closing A} {n : ℕ} {t : Closing A} → Run s n t → n + rank t ≤ rank s
  unfolding rank push
  rank-Run start = omega arith
  rank-Run (thread r step) = omega (arith, rank-Run r, rank-step step)
  rank-Run (pushed {t = t} r reply) =
      omega (arith, rank-Run r, rank_of-notify t.system.worker t.tested)

  -- The thread has a step.
  pub record Moves (s : Closing A) : Type 0 where
    pub after : Closing A
    pub step : ThreadStep s after

  moves : (s : Closing A) → (s.system.worker ≡ stopped) ⊎ Moves s
  moves s = worker_cases s.system.worker refl s.tested refl
    where
      worker_cases :
          (w : Worker)
          → s.system.worker ≡ w
          → (b : Bool) → s.tested ≡ b
          → (s.system.worker ≡ stopped) ⊎ Moves s
      worker_cases running e true b = inr (record { after = _; step = begins_wait e b })
      worker_cases running e false b = inr (record { after = _; step = exits e b })
      worker_cases waiting e _ b = inr (record { after = _; step = times_out e })
      worker_cases notified e _ b = inr (record { after = _; step = sends e })
      worker_cases stopped e _ b = inl e

  -- At most one reply is sent, and after it the thread can only exit.
  pub data SentOnce (s t : Closing A) : Type 0 where
    none_sent : t.system.sent ≡ s.system.sent → SentOnce s t
    one_sent :
        (reply : A) → t.system.sent ≡ s.system.sent ++ (reply ∷ []) → rank t ≤ 1 → SentOnce s t

  one_more :
      (s t : Closing A)
      → t.system.sent ≡ s.system.sent
      → SentOnce s (record { system = send_front t.system; tested = false })
  unfolding rank rank_of
  one_more s t e = elim (send_front-sent t.system) [
    | inl h ↦ none_sent (h ∙ e)
    | inr (reply, h) ↦
        one_sent reply (h ∙ ap (λ l. l ++ (reply ∷ [])) e)
          (omega (arith, ap (λ x. rank_of x false) (send_front-worker t.system)))
  ]

  SentOnce-step : {s t u : Closing A} → SentOnce s t → ThreadStep t u → SentOnce s u
  unfolding rank rank_of
  SentOnce-step (none_sent e) (begins_wait w b) = none_sent e
  SentOnce-step (none_sent e) (times_out w) = none_sent e
  SentOnce-step (none_sent e) (wakes_spuriously w) = none_sent e
  SentOnce-step {s} {t} (none_sent e) (sends w) = one_more s t e
  SentOnce-step (none_sent e) (exits w b) = none_sent e
  SentOnce-step (one_sent reply e f) (exits w b) = one_sent reply e (omega arith)
  SentOnce-step {t = t} (one_sent reply e f) (begins_wait w b) =
      absurd (omega (arith, f, ap (λ x. rank_of x t.tested) w, ap (rank_of running) b))
  SentOnce-step {t = t} (one_sent reply e f) (times_out w) =
      absurd (omega (arith, f, ap (λ x. rank_of x t.tested) w))
  SentOnce-step {t = t} (one_sent reply e f) (wakes_spuriously w) =
      absurd (omega (arith, f, ap (λ x. rank_of x t.tested) w))
  SentOnce-step {t = t} (one_sent reply e f) (sends w) =
      absurd (omega (arith, f, ap (λ x. rank_of x t.tested) w))

  SentOnce-Run : {s : Closing A} {n : ℕ} {t : Closing A} → Run s n t → SentOnce s t
  unfolding push rank
  SentOnce-Run start = none_sent refl
  SentOnce-Run (thread r step) = SentOnce-step (SentOnce-Run r) step
  SentOnce-Run (pushed {t = t} r reply) = elim (SentOnce-Run r) [
    | none_sent e ↦ none_sent e
    | one_sent first e f ↦
        one_sent first e (omega (arith, f, rank_of-notify t.system.worker t.tested))
  ]

  -- Once mExit is set, the thread makes at most four steps, however many replies are handed over; it
  -- has a step as long as it has not left the loop, so that the join returns; and it sends at most
  -- one reply, whatever the queue holds.
  pub Run-ends :
      {s : Closing A} {n : ℕ} {t : Closing A}
      → Run s n t
      → (n ≤ 4) × ((t.system.worker ≡ stopped) ⊎ Moves t) × SentOnce s t
  unfolding rank
  Run-ends {s} {n} {t} r =
      (omega (arith, rank-Run r, rank_of-max s.system.worker s.tested), moves t, SentOnce-Run r)
