-- ===== src/Client/Session/Resubscribe.antt =====
-- A handler whose entry stays skips a later subscription.
use ibmiotf_cpp.Base.{
  Result, pos, Bool, true, false, ◌≡◌, refl, ◌∙◌, Option, none, some, List, [], ◌∷◌, ok, err, arith,
  if◌then◌else◌, inl, inr, Bool-cases,
}
use ibmiotf_cpp.Base.Exec.{Exec, continue, pure, modify, ◌>>◌}
use ibmiotf_cpp.Json.{JsonLib}
use ibmiotf_cpp.Text.{Text}
use ibmiotf_cpp.Mqtt.{Call, Token, Broker, subscribe, unsubscribe}
use ibmiotf_cpp.Callback
use ibmiotf_cpp.Callback.{
  Callback, Handler, new_callback, add_handler, add_subscription, check_handler, check_subscription,
  remove_subscription,
}
use ibmiotf_cpp.Callback.Lookup.{check_handler-add_handler}
use ibmiotf_cpp.Client.{
  Client, put_callback, set_client, the_callback-some, the_callback-none, invoke,
  wait_for_completion, complete,
}
use ibmiotf_cpp.Client.Session.{subscribe_command_handler, unsubscribe_commands}

module _ {J : JsonLib} (broker : Broker) where
  -- The handler is registered for the topic with the client's callback.
  pub record IsSubscribed (topic : Text) (handler : Handler) (c : Client J) : Type 0 where
    pub registered : Callback
    pub present : c.callback ≡ some registered
    pub found : check_handler topic handler registered ≡ true

  callback-set_client :
      (handler : Handler) (c : Client J) → (set_client handler c).callback ≡ c.callback
  unfolding set_client
  callback-set_client Callback.action c = refl
  callback-set_client Callback.firmware c = refl
  callback-set_client _ c = refl

  -- What follows the answer of the broker.
  unfoldable store : Text → Handler → Callback → Token → Exec (Client J) Bool
  unfolding put_callback
  store topic handler cb token =
      if token.complete
      then (do put_callback (add_handler topic handler cb); modify (set_client handler); pure true)
      else pure false

  pub IsSubscribed-skip :
      (topic : Text) (handler : Handler) (c : Client J)
      → IsSubscribed topic handler c
      → subscribe_command_handler broker topic handler c ≡ (ok true, c)
  unfolding subscribe_command_handler
  IsSubscribed-skip topic handler c s = rw (the_callback-some c s.registered s.present, s.found)

  new_handler-IsSubscribed :
      (topic : Text) (handler : Handler) (cb : Callback) (r : Result Token × Client J)
      → (continue r (store topic handler cb)).0 ≡ ok true
      → IsSubscribed topic handler (continue r (store topic handler cb)).1
  unfolding store put_callback
  new_handler-IsSubscribed topic handler cb (err e, d) h = absurd (ground arith)
  new_handler-IsSubscribed topic handler cb (ok token, d) h = elim (Bool-cases token.complete) [
    | inl e ↦ rw e (record {
      registered = add_handler topic handler cb;
      present =
          callback-set_client handler (record d { callback = some (add_handler topic handler cb) });
      found = check_handler-add_handler topic handler cb;
    })
    | inr e ↦ absurd (ground (arith, e))
  ]

  pub subscribe-IsSubscribed :
      (topic : Text) (handler : Handler) (c : Client J) (o : Option Callback)
      → c.callback ≡ o
      → (subscribe_command_handler broker topic handler c).0 ≡ ok true
      → IsSubscribed topic handler (subscribe_command_handler broker topic handler c).1
  unfolding subscribe_command_handler store
  subscribe-IsSubscribed topic handler c none e s = absurd (ground (arith, the_callback-none c e))
  subscribe-IsSubscribed topic handler c (some cb) e s =
      elim (Bool-cases (check_handler topic handler cb)) [
        | inl found ↦
            rw (the_callback-some c cb e, found)
              (record { registered = cb; present = e; found = found })
        | inr missing ↦
            rw (the_callback-some c cb e, missing)
              (new_handler-IsSubscribed topic handler cb
                (complete broker (subscribe topic (pos 1)) c)
                (rw (the_callback-some c cb e, missing) at s))
      ]

  unfoldable drop_subscription : Text → Callback → Token → Exec (Client J) Bool
  unfolding put_callback
  drop_subscription topic cb token =
      if token.complete
      then (do put_callback (remove_subscription topic cb); pure true)
      else pure false

  callback-complete :
      (call : Call) (c : Client J) → (complete broker call c).1.callback ≡ c.callback
  unfolding complete invoke wait_for_completion
  callback-complete call c = ground arith

  after_removal :
      (topic t : Text) (handler : Handler) (cb : Callback) (r : Result Token × Client J)
      → check_handler topic handler cb ≡ true
      → r.1.callback ≡ some cb
      → IsSubscribed topic handler (continue r (drop_subscription t cb)).1
  unfolding drop_subscription put_callback remove_subscription check_handler
  after_removal topic t handler cb (err e, d) found present = record {
    registered = cb;
    present = present;
    found = found;
  }
  after_removal topic t handler cb (ok token, d) found present = elim (Bool-cases token.complete) [
    | inl e ↦ rw e (record { registered = remove_subscription t cb; present = refl; found = found })
    | inr e ↦ rw e (record { registered = cb; present = present; found = found })
  ]

  IsSubscribed-unsubscribe :
      (topic t : Text) (handler : Handler) (c : Client J)
      → IsSubscribed topic handler c
      → IsSubscribed topic handler (unsubscribe_commands broker t c).1
  unfolding unsubscribe_commands drop_subscription
  IsSubscribed-unsubscribe topic t handler c s =
      elim (Bool-cases (check_subscription t s.registered)) [
        | inl e ↦
            rw (the_callback-some c s.registered s.present, e)
              (after_removal topic t handler s.registered (complete broker (unsubscribe t) c)
                s.found (callback-complete (unsubscribe t) c ∙ s.present))
        | inr e ↦ rw (the_callback-some c s.registered s.present, e) s
      ]

  unfoldable pub unsubscribe_all : List Text → Client J → Client J
  unsubscribe_all [] c = c
  unsubscribe_all (t ∷ topics) c = unsubscribe_all topics (unsubscribe_commands broker t c).1

  IsSubscribed-unsubscribe_all :
      (topic : Text) (topics : List Text) (handler : Handler) (c : Client J)
      → IsSubscribed topic handler c
      → IsSubscribed topic handler (unsubscribe_all topics c)
  unfolding unsubscribe_all
  IsSubscribed-unsubscribe_all topic [] handler c s = s
  IsSubscribed-unsubscribe_all topic (t ∷ topics) handler c s =
      IsSubscribed-unsubscribe_all topic topics handler (unsubscribe_commands broker t c).1
        (IsSubscribed-unsubscribe topic t handler c s)

  -- A client that subscribed a handler for a topic with success, and then asked to unsubscribe any
  -- topics in turn, that one among them or not, subscribes the handler again without a call of the
  -- broker: the method says true and changes nothing.
  pub resubscribe_skipped :
      (topic : Text) (topics : List Text) (handler : Handler) (c : Client J)
      → (subscribe_command_handler broker topic handler c).0 ≡ ok true
      → let after = unsubscribe_all topics (subscribe_command_handler broker topic handler c).1 in
        subscribe_command_handler broker topic handler after ≡ (ok true, after)
  resubscribe_skipped topic topics handler c h = IsSubscribed-skip topic handler _ (
      IsSubscribed-unsubscribe_all topic topics handler _
        (subscribe-IsSubscribed topic handler c c.callback refl h))
