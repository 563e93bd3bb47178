-- ===== src/ReplyQueue/Backlog.antt =====
-- A reply may stay in the queue: the thread sends one reply for each wake-up, and does not look at
-- the queue after a timeout.
use ibmiotf_cpp.Base.{◌≡◌, refl, ◌⊎◌, inl, inr, [], ◌∷◌, arith}
use ibmiotf_cpp.ReplyQueue.{
  ReplyQueue, Worker, running, waiting, notified, stopped, empty_queue, push, send_front, notify,
  reply_pushed, begins_wait, sends, Reach, here, next,
}

module _ {A : Type 0} where
  -- Runs in which no reply is handed over and no wake-up is spurious.
  pub data QuietReach (s : ReplyQueue A) : ReplyQueue A → Type 0 where
    idle : QuietReach s s
    wait :
        {t : ReplyQueue A}
        → QuietReach s t
        → t.worker ≡ running
        → QuietReach s (record t { worker = waiting })
    timeout :
        {t : ReplyQueue A}
        → QuietReach s t
        → t.worker ≡ waiting
        → QuietReach s (record t { worker = running })
    send : {t : ReplyQueue A} → QuietReach s t → t.worker ≡ notified → QuietReach s (send_front t)
    exit :
        {t : ReplyQueue A}
        → QuietReach s t
        → t.worker ≡ running
        → QuietReach s (record t { worker = stopped })

  record SameBacklog (s t : ReplyQueue A) : Type 0 where
    asleep : (t.worker ≡ running) ⊎ ((t.worker ≡ waiting) ⊎ (t.worker ≡ stopped))
    queue : t.queue ≡ s.queue
    sent : t.sent ≡ s.sent

  quiet-SameBacklog : {s t : ReplyQueue A} → s.worker ≡ waiting → QuietReach s t → SameBacklog s t
  quiet-SameBacklog w idle = record { asleep = inr (inl w); queue = refl; sent = refl }
  quiet-SameBacklog w (wait r e) =
      let h = quiet-SameBacklog w r in
      record { asleep = inr (inl refl); queue = h.queue; sent = h.sent }
  quiet-SameBacklog w (timeout r e) =
      let h = quiet-SameBacklog w r in record { asleep = inl refl; queue = h.queue; sent = h.sent }
  quiet-SameBacklog w (send r e) = let h = quiet-SameBacklog w r in absurd (awake h.asleep e)
    where
      awake : {x : Worker} → (x ≡ running) ⊎ ((x ≡ waiting) ⊎ (x ≡ stopped)) → x ≡ notified → ⊥
      awake a b = ground arith
  quiet-SameBacklog w (exit r e) =
      let h = quiet-SameBacklog w r in
      record { asleep = inr (inr refl); queue = h.queue; sent = h.sent }

  -- Two replies were handed over while the thread worked on the notification of the first.
  abbrev pub stuck : A → A → ReplyQueue A
  stuck first second = record {
    queue = second ∷ [];
    sent = first ∷ [];
    pushed = first ∷ second ∷ [];
    worker = waiting;
  }

  stuck-Reach : (first second : A) → Reach empty_queue (stuck first second)
  stuck-Reach first second =
      unfold push send_front notify in
      next
        (next
          (next (next (next here (begins_wait refl)) (reply_pushed first)) (reply_pushed second))
          (sends refl))
        (begins_wait refl)

  -- The state in which two replies were handed over, the first is sent, the second is in the queue and
  -- the thread waits, is reachable; and in any state that follows, as long as no further reply comes
  -- and no wake-up is spurious, the second reply is still in the queue.
  pub second_reply_stuck :
      (first second : A) (t : ReplyQueue A)
      → QuietReach (stuck first second) t
      → Reach empty_queue (stuck first second) × (t.sent ≡ first ∷ []) × (t.queue ≡ second ∷ [])
  second_reply_stuck first second t r =
      let h = quiet-SameBacklog refl r in (stuck-Reach first second, h.sent, h.queue)
