-- ===== src/Client/Session/Tracked.antt =====
-- Each operation of src/IOTP_Client.cpp on a session keeps it tracked.
use ibmiotf_cpp.Base.{ℕ, ℤ, pos, ◌≡◌, refl, Bool, some, arith, Bool-cases, inl, inr}
use ibmiotf_cpp.Json.{JsonLib}
use ibmiotf_cpp.Text.{Text}
use ibmiotf_cpp.Mqtt.{Call, Broker, Accepts, publish}
use ibmiotf_cpp.Callback.{
  Callback, Handler, response, action, firmware, attribute, custom, check_subscription,
  add_subscription, add_handler, remove_subscription, check_handler,
}
use ibmiotf_cpp.Callback
use ibmiotf_cpp.Callback.Membership.{contains-append}
use ibmiotf_cpp.Client.{
  Client, the_callback-some, complete-accepted, invoke-accepted, put_callback, set_client,
}
use ibmiotf_cpp.Client.Session.{
  connect_client, subscribe_topic, subscribe_command_handler, unsubscribe_commands,
  disconnect_client, publish_topic, set_command_handler, send_message,
}
use ibmiotf_cpp.Client.Session.Accepted.{
  connect_client-accepted, subscribe_topic-accepted, subscribe_command_handler-accepted,
  unsubscribe_commands-accepted,
}
use ibmiotf_cpp.Client.Session.Tracking.{
  holds, server_holds, listed, Tracks, Tracks-subscribe, Tracks-unsubscribe, Tracks-none,
  Tracks-same, clean_session-connect_options,
}
use ibmiotf_cpp.Client.Manage.Requests.{send_message-accepted}
use ibmiotf_cpp.Client.Dispatch.{Methods, message_arrived}
use ibmiotf_cpp.Client.Dispatch.Keeps.{message_arrived-Keeps}

-- The session of the client is tracked.
abbrev pub Tracked : {J : JsonLib} → Client J → Type 0
Tracked c = Tracks c.calls c.callback

module _ {J : JsonLib} (broker : Broker) (accepting : Accepts broker) where
  pub connects-Tracked : (c : Client J) → Tracked (connect_client broker c).1
  unfolding server_holds holds
  connects-Tracked c = rw (connect_client-accepted broker accepting c) (
      Tracks-none c.calls _ _ (λ t b.
        rw (clean_session-connect_options c.properties c.keep_alive_interval) (ground arith)))

  pub subscribes-Tracked :
      (topic : Text) (qos : ℤ) (c : Client J) (cb : Callback)
      → c.callback ≡ some cb
      → Tracked c
      → Tracked (subscribe_topic broker topic qos c).1
  unfolding subscribe_topic check_subscription add_subscription
  subscribes-Tracked topic qos c cb e k = elim (Bool-cases (check_subscription topic cb)) [
    | inl present ↦ rw (the_callback-some c cb e, present) k
    | inr missing ↦ rw (subscribe_topic-accepted broker accepting topic qos c cb e missing) (
        Tracks-subscribe c.calls topic qos cb (add_subscription topic cb)
          (λ t. contains-append t topic cb.subscriptions) (rw e at k))
  ]

  Tracked-set_client :
      (handler : Handler) (c : Client J) → Tracked c → Tracked (set_client handler c)
  unfolding set_client
  Tracked-set_client action c k = k
  Tracked-set_client firmware c k = k
  Tracked-set_client response c k = k
  Tracked-set_client attribute c k = k
  Tracked-set_client (custom n) c k = k

  pub subscribes_handler-Tracked :
      (topic : Text) (handler : Handler) (c : Client J) (cb : Callback)
      → c.callback ≡ some cb
      → Tracked c
      → Tracked (subscribe_command_handler broker topic handler c).1
  unfolding subscribe_command_handler check_subscription add_handler
  subscribes_handler-Tracked topic handler c cb e k =
      elim (Bool-cases (check_handler topic handler cb)) [
        | inl present ↦ rw (the_callback-some c cb e, present) k
        | inr missing ↦
            rw (subscribe_command_handler-accepted broker accepting topic handler c cb e missing) (
              Tracked-set_client handler _ (
                Tracks-subscribe c.calls topic (pos 1) cb (add_handler topic handler cb)
                  (λ t. contains-append t topic cb.subscriptions) (rw e at k)))
      ]

  pub unsubscribes-Tracked :
      (topic : Text) (c : Client J) (cb : Callback)
      → c.callback ≡ some cb
      → Tracked c
      → Tracked (unsubscribe_commands broker topic c).1
  unfolding unsubscribe_commands
  unsubscribes-Tracked topic c cb e k = elim (Bool-cases (check_subscription topic cb)) [
    | inl present ↦
        rw (unsubscribe_commands-accepted broker accepting topic c cb e present)
          (Tracks-unsubscribe c.calls topic cb (rw e at k))
    | inr missing ↦ rw (the_callback-some c cb e, missing) k
  ]

  pub arrives-Tracked :
      (format_time : ℤ → Text) (app : Methods J) (topic text : Text) (c : Client J) (cb : Callback)
      → c.callback ≡ some cb
      → Tracked c
      → Tracked (message_arrived format_time app topic text c).1
  unfolding listed check_subscription
  arrives-Tracked format_time app topic text c cb e k =
      let kept = message_arrived-Keeps format_time app topic text c cb e in
      rw (kept.calls, kept.callback) (rw e at k)

  pub set_command_handler-Tracked :
      (b : Bool) (c : Client J) (cb : Callback)
      → c.callback ≡ some cb
      → Tracked c
      → Tracked (set_command_handler broker b c).1
  unfolding set_command_handler put_callback Callback.set_callback listed check_subscription
  set_command_handler-Tracked b c cb e k = rw (the_callback-some c cb e) (rw e at k)

  pub publishes-Tracked :
      (topic payload : Text) (qos : ℤ) (c : Client J)
      → Tracked c
      → Tracked (publish_topic broker topic payload qos c).1
  unfolding publish_topic server_holds holds
  publishes-Tracked topic payload qos c k =
      rw (invoke-accepted broker accepting (publish topic payload qos) c)
        (Tracks-same c.calls _ c.callback (λ t b. refl) k)

  pub sends-Tracked :
      (now : ℕ) (topic : Text) (value : JsonLib.Value J) (qos : ℤ) (c : Client J)
      → Tracked c
      → Tracked (send_message broker now topic value qos c).1
  unfolding server_holds holds
  sends-Tracked now topic value qos c k =
      rw (send_message-accepted broker accepting now topic value qos c)
        (Tracks-same c.calls _ c.callback (λ t b. refl) k)

  pub disconnects-Tracked : (c : Client J) → Tracked (disconnect_client broker c).1
  unfolding disconnect_client server_holds holds
  disconnects-Tracked c =
      rw (complete-accepted broker accepting Call.disconnect c)
        (Tracks-none c.calls _ c.callback (λ t b. refl))
