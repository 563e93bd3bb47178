-- ===== src/Client/Dispatch/Queue.antt =====
-- What the arrival of a message adds to the queue of replies.
use ibmiotf_cpp.Base.{
  ◌≡◌, refl, ap, ◌∙◌, ℕ, suc, ◌+◌, ◌≤◌, Bool, true, false, Option, none, some, List, [], ◌∷◌, ◌++◌,
  append_assoc, append-nil, length, length-append, ok, err, Result, ℤ, arith,
}
use ibmiotf_cpp.Base.Exec.{Exec, continue, lift, pure, ◌>>◌}
use ibmiotf_cpp.Json.{JsonLib}
use ibmiotf_cpp.Text.{Text}
use ibmiotf_cpp.Reply.{ReplyMessage, response_reply}
use ibmiotf_cpp.Action
use ibmiotf_cpp.Action.{ActionMethods, action_response}
use ibmiotf_cpp.Callback.{
  Callback, Handler, response, action, firmware, attribute, custom, equal_range,
}
use ibmiotf_cpp.Client.{Client, send_reply, the_callback-some, put_callback}
use ibmiotf_cpp.Client.Dispatch.{
  Methods, deliver, deliver_raw, send_if_any, handle_one, handle_all, user_command, message_arrived,
}

module _ {J : JsonLib} where
  -- At most `n` replies are added behind a queue.
  pub record Adds (n : ℕ) (before after : List (ReplyMessage J)) : Type 0 where
    pub added : List (ReplyMessage J)
    pub behind : after ≡ before ++ added
    pub bound : length added ≤ n

  Adds-none : (n : ℕ) {before after : List (ReplyMessage J)} → after ≡ before → Adds n before after
  Adds-none n e = record { added = []; behind = rw append-nil e; bound = omega arith }

  Adds-one :
      {before : List (ReplyMessage J)} (reply : ReplyMessage J)
      → Adds 1 before (before ++ (reply ∷ []))
  Adds-one reply = record { added = reply ∷ []; behind = refl; bound = omega arith }

  Adds-trans :
      (m n : ℕ) {q r s : List (ReplyMessage J)} → Adds m q r → Adds n r s → Adds (m + n) q s
  Adds-trans m n {q} a b = record {
    added = a.added ++ b.added;
    behind = b.behind ∙ ap (λ l. l ++ b.added) a.behind ∙ append_assoc q a.added b.added;
    bound = rw (length-append a.added b.added) (omega (arith, a.bound, b.bound));
  }

  Adds-weaken : {m n : ℕ} {q r : List (ReplyMessage J)} → m ≤ n → Adds m q r → Adds n q r
  Adds-weaken le a = record { added = a.added; behind = a.behind; bound = omega (arith, a.bound) }

  -- A handler leaves the queue alone, or queues a reply and returns none.
  data Delivers (before : List (ReplyMessage J)) (result : Result (Option (ReplyMessage J)))
      (after : List (ReplyMessage J)) : Type 0 where
    untouched : after ≡ before → Delivers before result after
    queued :
        (reply : ReplyMessage J)
        → after ≡ before ++ (reply ∷ [])
        → result ≡ ok none
        → Delivers before result after

  action_lem :
      (app : ActionMethods) (has_client : Bool) (topic : Text) (payload : JsonLib.Value J)
      (queue : List (ReplyMessage J)) (r : Result (ReplyMessage J))
      → response_reply J (action_response J app topic) payload ≡ r
      → Delivers queue
          (Action.message_arrived J app has_client topic payload queue).0
          (Action.message_arrived J app has_client topic payload queue).1
  unfolding Action.message_arrived
  action_lem app has_client topic payload queue (err e) h = rw h (untouched refl)
  action_lem app true topic payload queue (ok reply) h = rw h (queued reply refl refl)
  action_lem app false topic payload queue (ok reply) h = rw h (untouched refl)

  parsed_lem :
      (app : ActionMethods) (has_client : Bool) (topic : Text) (payload : JsonLib.Value J)
      (queue : List (ReplyMessage J)) (r : Result (ReplyMessage J))
      → response_reply J (action_response J app topic) payload ≡ r
      → Delivers queue
          ((Action.message_arrived J app has_client topic payload
              >> pure {A = Option (ReplyMessage J)} none)
            queue).0
          ((Action.message_arrived J app has_client topic payload
              >> pure {A = Option (ReplyMessage J)} none)
            queue).1
  unfolding Action.message_arrived
  parsed_lem app has_client topic payload queue (err e) h = rw h (untouched refl)
  parsed_lem app true topic payload queue (ok reply) h = rw h (queued reply refl refl)
  parsed_lem app false topic payload queue (ok reply) h = rw h (untouched refl)

  raw_action_lem :
      (app : ActionMethods) (has_client : Bool) (topic text : Text) (queue : List (ReplyMessage J))
      (o : Option (JsonLib.Value J))
      → J.parse text ≡ o
      → Delivers queue
          (Action.raw_message_arrived J app has_client topic text queue).0
          (Action.raw_message_arrived J app has_client topic text queue).1
  unfolding Action.raw_message_arrived
  raw_action_lem app has_client topic text queue none h =
      rw (h, Action.raw_message_arrived) (untouched refl)
  raw_action_lem app has_client topic text queue (some payload) h =
      rw (h, Action.raw_message_arrived)
        (parsed_lem app has_client topic payload queue
          (response_reply J (action_response J app topic) payload) refl)

module _ {J : JsonLib} (format_time : ℤ → Text) (app : Methods J) where
  deliver-Delivers :
      (h : Handler) (topic : Text) (payload : JsonLib.Value J) (c : Client J)
      → Delivers c.reply_msgs
          (deliver format_time app h topic payload c).0
          (deliver format_time app h topic payload c).1.reply_msgs
  unfolding deliver
  deliver-Delivers response topic payload c = untouched (ground arith)
  deliver-Delivers firmware topic payload c = untouched refl
  deliver-Delivers action topic payload c =
      action_lem app.action_methods c.action_client topic payload c.reply_msgs _ refl
  deliver-Delivers attribute topic payload c = untouched (ground arith)
  deliver-Delivers (custom n) topic payload c = untouched refl

  deliver_raw-Delivers :
      (h : Handler) (topic text : Text) (c : Client J)
      → Delivers c.reply_msgs
          (deliver_raw format_time app h topic text c).0
          (deliver_raw format_time app h topic text c).1.reply_msgs
  unfolding deliver_raw
  deliver_raw-Delivers response topic text c = untouched (ground arith)
  deliver_raw-Delivers firmware topic text c = untouched refl
  deliver_raw-Delivers action topic text c =
      raw_action_lem app.action_methods c.action_client topic text c.reply_msgs _ refl
  deliver_raw-Delivers attribute topic text c = untouched refl
  deliver_raw-Delivers (custom n) topic text c = untouched refl

  send_lem :
      (q : List (ReplyMessage J)) (r : Result (Option (ReplyMessage J)) × Client J)
      → Delivers q r.0 r.1.reply_msgs
      → Adds 1 q (continue r (send_if_any format_time app)).1.reply_msgs
  unfolding send_if_any send_reply
  send_lem q (err e, d) (untouched h) = Adds-none 1 h
  send_lem q (ok none, d) (untouched h) = Adds-none 1 h
  send_lem q (ok (some reply), d) (untouched h) = rw h (Adds-one reply)
  send_lem q (r, d) (queued reply h e) = rw (e, h) (Adds-one reply)

  handle_one-Adds :
      (h : Handler) (topic text : Text) (o : Option (JsonLib.Value J)) (c : Client J)
      → J.parse text ≡ o
      → Adds 1 c.reply_msgs (handle_one format_time app h topic text c).1.reply_msgs
  unfolding handle_one
  handle_one-Adds h topic text none c e = rw e (
      send_lem c.reply_msgs (deliver_raw format_time app h topic text c)
        (deliver_raw-Delivers h topic text c))
  handle_one-Adds h topic text (some payload) c e = rw e (
      send_lem c.reply_msgs (deliver format_time app h topic payload c)
        (deliver-Delivers h topic payload c))

  Adds-continue :
      (n : ℕ) (q : List (ReplyMessage J)) (r : Result (Unit {0}) × Client J)
      (k : Exec (Client J) (Unit {0}))
      → Adds 1 q r.1.reply_msgs
      → ((d : Client J) → Adds n d.reply_msgs (k d).1.reply_msgs)
      → Adds (suc n) q (continue r (λ _. k)).1.reply_msgs
  Adds-continue n q (ok a, d) k h f = Adds-weaken (omega arith) (Adds-trans 1 n h (f d))
  Adds-continue n q (err e, d) k h f = record {
    added = h.added;
    behind = h.behind;
    bound = omega (arith, h.bound);
  }

  handle_all-Adds :
      (handlers : List Handler) (topic text : Text) (c : Client J)
      → Adds
          (length handlers)
          c.reply_msgs
          (handle_all format_time app handlers topic text c).1.reply_msgs
  unfolding handle_all
  handle_all-Adds [] topic text c = Adds-none 0 refl
  handle_all-Adds (h ∷ rest) topic text c =
      Adds-continue (length rest) c.reply_msgs (handle_one format_time app h topic text c)
        (handle_all format_time app rest topic text)
        (handle_one-Adds h topic text (J.parse text) c refl)
        (λ d. handle_all-Adds rest topic text d)

  Adds-lift :
      {A : Type 0} {n : ℕ} {q : List (ReplyMessage J)} (r : Result (Unit {0}) × Client J)
      (x : Result A)
      → Adds n q r.1.reply_msgs
      → Adds n q (continue r (λ _. lift x)).1.reply_msgs
  Adds-lift (ok a, d) x h = h
  Adds-lift (err e, d) x h = h

  -- The arrival of a message adds replies to the queue behind those that are there, and at most one
  -- for each handler that is registered for the topic; so it is whether a handler throws or not.
  pub message_arrived-Adds :
      (topic text : Text) (c : Client J) (cb : Callback)
      → c.callback ≡ some cb
      → Adds
          (length (equal_range topic cb.handlers))
          c.reply_msgs
          (message_arrived format_time app topic text c).1.reply_msgs
  unfolding message_arrived put_callback
  message_arrived-Adds topic text c cb e =
      let counted : Client J = record c {
        callback = some (record cb { arrived_messages = cb.arrived_messages + 1 });
      } in
      let handlers = equal_range topic cb.handlers in
      rw (the_callback-some c cb e) (
        Adds-lift (handle_all format_time app handlers topic text counted)
          (user_command format_time app handlers cb.user_callback topic text)
          (handle_all-Adds handlers topic text counted))
