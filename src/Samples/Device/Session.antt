-- ===== src/Samples/Device/Session.antt =====
-- What samples/sampleDevice.cpp asks of the MQTT client, from its start to its end.
use ibmiotf_cpp.Base.{
  ℕ, ℤ, pos, negsuc, ◌≡◌, refl, ap, ◌∙◌, Bool, true, false, Option, some, List, [], ◌∷◌, ◌++◌,
  append_assoc, Result, ok, err, arith, if◌then◌else◌,
}
use ibmiotf_cpp.Base.Exec.{continue, pure}
use ibmiotf_cpp.Json.{JsonLib}
use ibmiotf_cpp.Text.{Text, codes, text_eq, is_empty}
use ibmiotf_cpp.Mqtt.{Broker, Call, Accepts, create, publish, subscribe, unsubscribe, set_callback}
use ibmiotf_cpp.Properties.{Properties, default_properties, is_quickstart}
use ibmiotf_cpp.Properties.Config.{initialize_from_file}
use ibmiotf_cpp.Properties.Config.Success.{initialize_from_file-can_initialize}
use ibmiotf_cpp.Callback
use ibmiotf_cpp.Callback.{
  new_callback, add_subscription, check_subscription, remove_subscription, contains,
}
use ibmiotf_cpp.Client.{Client, the_callback, put_callback, invoke-accepted, complete-accepted}
use ibmiotf_cpp.Client.Lifecycle.{Lifetime, construct, construct_unread, construct_from_file}
use ibmiotf_cpp.Client.Session.{
  connect_options, set_command_handler, publish_topic, disconnect_client,
}
use ibmiotf_cpp.Client.Session.Accepted.{unsubscribe_commands-accepted}
use ibmiotf_cpp.DeviceClient.{
  command_topic, event_topic, can_initialize, server_uri, client_id, publish_event, disconnect,
  new_device_from_file,
}
use ibmiotf_cpp.DeviceClient.Connect.{connect-registered}
use ibmiotf_cpp.Samples.Scope.{caught, leave, run_block}
use ibmiotf_cpp.Samples.Scope.Leaving.{
  creates, creates-append, creates-repeat, repeat, rounds_lem, leave-made,
}
use ibmiotf_cpp.Samples.Device.{temp_34, temp_44, publish_both, block, run_device, main}

-- The calls of one round, and those of the whole program.
abbrev round : List Call
round =
    publish (event_topic (codes "temp") (codes "json")) temp_34 (pos 0)
    ∷ publish (event_topic (codes "temp") (codes "json")) temp_44 (pos 1)
    ∷ []

unfoldable pub session_calls : Properties → ℤ → ℕ → List Call
session_calls p interval n =
    create (server_uri p) (client_id p)
    ∷ Call.connect (connect_options p interval)
    ∷ set_callback
    ∷ subscribe command_topic (pos 1)
    ∷ (repeat n round ++ (unsubscribe command_topic ∷ Call.disconnect ∷ []))

-- The callback of the session.
abbrev subscribed : Callback.Callback
subscribed = Callback.set_callback true (add_subscription command_topic new_callback)

creates-session_calls :
    (p : Properties) (interval : ℤ) (n : ℕ) → creates (session_calls p interval n) ≡ 1
unfolding session_calls creates
creates-session_calls p interval n = omega (
  arith,
  creates-append (repeat n round) (unsubscribe command_topic ∷ Call.disconnect ∷ []),
  creates-repeat n round refl,
)

module _ {J : JsonLib} (broker : Broker) (accepting : Accepts broker) where
  publish_both_lem :
      (c : Client J) → publish_both broker c ≡ (ok tt, record c { calls = c.calls ++ round })
  unfolding publish_both publish_event publish_topic
  publish_both_lem c =
      rw (invoke-accepted broker accepting, invoke-accepted broker accepting, append_assoc)

  disconnect_lem :
      (c : Client J) (cb : Callback.Callback)
      → c.callback ≡ some cb
      → check_subscription command_topic cb ≡ true
      → disconnect broker c ≡ (
        ok tt,
        record c {
          callback = some (remove_subscription command_topic cb);
          calls = c.calls ++ (unsubscribe command_topic ∷ Call.disconnect ∷ []);
        },
      )
  unfolding disconnect disconnect_client is_empty codes
  disconnect_lem c cb present found = rw (
    unsubscribe_commands-accepted broker accepting command_topic c cb present found,
    complete-accepted broker accepting,
    append_assoc,
  )

  block-registered :
      (c : Client J) (n : ℕ)
      → can_initialize c.properties ≡ true
      → is_quickstart c.properties.org_id ≡ false
      → text_eq c.properties.auth_method (codes "token") ≡ true
      → block broker n c ≡ (
        ok (pos 0),
        record c {
          server_uri = server_uri c.properties;
          client_id = client_id c.properties;
          callback = some (remove_subscription command_topic subscribed);
          calls = c.calls ++ session_calls c.properties c.keep_alive_interval n;
        },
      )
  unfolding block set_command_handler put_callback the_callback session_calls check_subscription
      contains add_subscription new_callback Callback.set_callback text_eq codes
  block-registered c n can q a =
      let p = c.properties in
      let opening =
        create (server_uri p) (client_id p)
        ∷ Call.connect (connect_options p c.keep_alive_interval)
        ∷ set_callback
        ∷ subscribe command_topic (pos 1)
        ∷ [] in
      let ready : Client J = record c {
        server_uri = server_uri p;
        client_id = client_id p;
        callback = some subscribed;
        calls = c.calls ++ opening;
      } in
      let ran : Client J = record ready { calls = ready.calls ++ repeat n round } in
      rw (connect-registered broker c can q a accepting) (
        ap (λ r. continue (continue r (λ _. disconnect broker)) (λ _. pure (pos 0)))
          (rounds_lem n (publish_both broker) round ready (λ d _. publish_both_lem d))
        ∙ ap (λ r. continue r (λ _. pure (pos 0))) (disconnect_lem ran subscribed refl refl)
        ∙ rw (append_assoc, append_assoc))

module _ (J : JsonLib) (format_time : ℤ → Text) (memory : Client J) (file : Option Text)
    (p : Properties) where
  -- What the constructor makes of a configuration that is read with success.
  pub construct-read :
      initialize_from_file J file default_properties ≡ (ok true, p)
      → construct_from_file J format_time memory file ≡ ok (construct J format_time p false false)
  unfolding construct_from_file
  construct-read e =
      let made : Result Bool × Properties → Result (Lifetime J) = λ r. elim r.0 [
        | ok read ↦ ok (
            if read
            then construct J format_time r.1 false false
            else construct_unread J format_time memory r.1)
        | err x ↦ err x
      ] in
      ap made e

  pub read-can_initialize :
      initialize_from_file J file default_properties ≡ (ok true, p) → can_initialize p ≡ true
  unfolding is_empty codes
  read-can_initialize e =
      rw e at (initialize_from_file-can_initialize J file default_properties refl (ap (λ r. r.0) e))

  -- Where the configuration is read with success, for an organization other than "quickstart" and with
  -- the auth method "token", and every call of the broker succeeds, the device sample that is interrupted
  -- after n rounds ends with the exit code 0, without an exception and its client destroyed; all its calls are,
  -- in this order: the MQTT client, its connection, the callback, the subscription to the commands, in
  -- every round one publication at QoS 0 and one at QoS 1, and at the end the command topic is unsubscribed
  -- and the client disconnected.
  pub main-registered :
      (broker : Broker) (n : ℕ)
      → Accepts broker
      → initialize_from_file J file default_properties ≡ (ok true, p)
      → is_quickstart p.org_id ≡ false
      → text_eq p.auth_method (codes "token") ≡ true
      → main J format_time broker memory file n ≡ (ok (pos 0), session_calls p (pos 60) n)
  unfolding main run_device new_device_from_file run_block caught construct
  main-registered broker n accepting e q a =
      let l = construct J format_time p false false in
      let c = (construct J format_time p false false).client in
      rw (construct-read e, new_device_from_file, run_device, main)
        (ap (λ r. (caught (negsuc 0) (leave broker l r.1 r.0), r.1.calls))
            (block-registered broker accepting c n (read-can_initialize e) q a)
          ∙ ap (λ r. (caught (negsuc 0) r, session_calls p (pos 60) n))
              (leave-made broker accepting 0 l
                (record c {
                  server_uri = server_uri p;
                  client_id = client_id p;
                  callback = some (remove_subscription command_topic subscribed);
                  calls = session_calls p (pos 60) n;
                })
                (ok (pos 0)) refl (creates-session_calls p (pos 60) n) refl))
