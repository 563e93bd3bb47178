-- ===== src/ReplyQueue/Order.antt =====
-- Replies are sent in the order of the calls, each at most once.
use ibmiotf_cpp.Base.{◌≡◌, refl, sym, ap, ◌∙◌, List, [], ◌∷◌, ◌++◌, append_assoc}
use ibmiotf_cpp.ReplyQueue.{
  ReplyQueue, empty_queue, push, send_front, Step, reply_pushed, begins_wait, times_out,
  wakes_spuriously, sends, exits, Reach, here, next,
}

module _ {A : Type 0} where
  abbrev pub InOrder : ReplyQueue A → Type 0
  InOrder s = s.sent ++ s.queue ≡ s.pushed

  send_front-InOrder :
      (s : ReplyQueue A) (q : List A) → s.queue ≡ q → InOrder s → InOrder (send_front s)
  unfolding send_front
  send_front-InOrder s [] e h = rw (e, send_front) h
  send_front-InOrder s (r ∷ rest) e h =
      rw (e, send_front) (append_assoc s.sent (r ∷ []) rest ∙ (rw e at h))

  Step-InOrder : {s t : ReplyQueue A} → Step s t → InOrder s → InOrder t
  unfolding push
  Step-InOrder {s} (reply_pushed r) h =
      sym (append_assoc s.sent s.queue (r ∷ [])) ∙ ap (λ l. l ++ (r ∷ [])) h
  Step-InOrder (begins_wait e) h = h
  Step-InOrder (times_out e) h = h
  Step-InOrder (wakes_spuriously e) h = h
  Step-InOrder {s} (sends e) h = send_front-InOrder s s.queue refl h
  Step-InOrder (exits e) h = h

  -- In every reachable state the replies sent, followed by those in the queue, are the replies
  -- handed over, in that order: none is lost, doubled or overtaken.
  pub Reach-InOrder : {s : ReplyQueue A} → Reach empty_queue s → s.sent ++ s.queue ≡ s.pushed
  Reach-InOrder here = refl
  Reach-InOrder (next r st) = Step-InOrder st (Reach-InOrder r)
