-- ===== src/ReplyQueue/Channel.antt =====
-- The reply queue and its thread implement a channel that keeps the order.
use ibmiotf_cpp.Base.{◌≡◌, refl, ap, ◌⊎◌, inl, inr, List, [], ◌∷◌, ◌++◌}
use ibmiotf_cpp.ReplyQueue.{
  ReplyQueue, empty_queue, push, send_front, Step, reply_pushed, begins_wait, times_out,
  wakes_spuriously, sends, exits, Reach, here, next,
}

-- What the callers of IOTF_send_reply may count on: what is put in comes out in that order.
pub record Channel (A : Type 0) : Type 0 where
  pub pending : List A
  pub delivered : List A

module _ {A : Type 0} where
  pub data ChannelStep (c : Channel A) : Channel A → Type 0 where
    accepts : (x : A) → ChannelStep c (record c { pending = c.pending ++ (x ∷ []) })
    delivers :
        (x : A) (rest : List A)
        → c.pending ≡ x ∷ rest
        → ChannelStep c (record { pending = rest; delivered = c.delivered ++ (x ∷ []) })

  pub data ChannelReach (c : Channel A) : Channel A → Type 0 where
    start : ChannelReach c c
    then_step : {d e : Channel A} → ChannelReach c d → ChannelStep d e → ChannelReach c e

  abbrev pub view : ReplyQueue A → Channel A
  view s = record { pending = s.queue; delivered = s.sent }

  send_front-view :
      (s : ReplyQueue A) (q : List A)
      → s.queue ≡ q
      → (view (send_front s) ≡ view s) ⊎ ChannelStep (view s) (view (send_front s))
  unfolding send_front
  send_front-view s [] e =
      inl (rw (e, send_front) (ap (λ q. record { pending = q; delivered = s.sent }) e))
  send_front-view s (x ∷ rest) e = inr (rw (e, send_front) (delivers x rest refl))

  -- A step of the queue or of the thread is a step of the channel, or changes nothing that it shows.
  Step-view : {s t : ReplyQueue A} → Step s t → (view t ≡ view s) ⊎ ChannelStep (view s) (view t)
  unfolding push
  Step-view (reply_pushed r) = inr (accepts r)
  Step-view (begins_wait e) = inl refl
  Step-view (times_out e) = inl refl
  Step-view (wakes_spuriously e) = inl refl
  Step-view {s} (sends e) = send_front-view s s.queue refl
  Step-view (exits e) = inl refl

  extend : {c d e : Channel A} → ChannelReach c d → (e ≡ d) ⊎ ChannelStep d e → ChannelReach c e
  extend r (inl same) = rw same r
  extend r (inr step) = then_step r step

  -- Whatever the callers and the thread do, with timeouts and spurious wake-ups, the queue and the
  -- replies that were sent are a state that the channel can reach: the queue refines the channel.
  pub Reach-ChannelReach :
      {s : ReplyQueue A}
      → Reach empty_queue s
      → ChannelReach (record { pending = []; delivered = [] }) (view s)
  Reach-ChannelReach here = start
  Reach-ChannelReach (next r st) = extend (Reach-ChannelReach r) (Step-view st)
