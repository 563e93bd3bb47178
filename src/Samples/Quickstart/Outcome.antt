-- ===== src/Samples/Quickstart/Outcome.antt =====
-- How samples/sampleQuickstart.cpp ends.
use ibmiotf_cpp.Base.{
  ℤ, pos, ◌≡◌, refl, ap, ◌∙◌, Bool, true, false, inl, inr, Bool-cases, Option, some, List, [], ◌∷◌,
  ◌++◌, append_assoc, Result, ok, err, indeterminate_pointer, none, arith, if◌then◌else◌,
}
use ibmiotf_cpp.Base.Exec.{continue, pure, ◌>>◌}
use ibmiotf_cpp.Json.{JsonLib}
use ibmiotf_cpp.Text.{Text, codes, is_empty}
use ibmiotf_cpp.Mqtt.{Broker, Call, Accepts, create, publish, set_callback}
use ibmiotf_cpp.Properties.{Properties, default_properties, is_quickstart}
use ibmiotf_cpp.Callback.{new_callback, check_subscription, contains}
use ibmiotf_cpp.Client.{
  Client, set_keep_alive_interval, the_callback, invoke-accepted, complete-accepted,
}
use ibmiotf_cpp.Client.Lifecycle.{construct}
use ibmiotf_cpp.Client.Session.{publish_topic, unsubscribe_commands, disconnect_client}
use ibmiotf_cpp.DeviceClient.{
  event_topic, can_initialize, server_uri, client_id, publish_event, disconnect,
}
use ibmiotf_cpp.DeviceClient.Connect.{connect-quickstart, connect-refused}
use ibmiotf_cpp.Samples.Configuration.{initialize_properties}
use ibmiotf_cpp.Samples.Configuration.Unsecured.{initialize_properties-can_initialize}
use ibmiotf_cpp.Samples.Scope.{caught, leave, run_block}
use ibmiotf_cpp.Samples.Scope.Leaving.{
  creates, creates-append, creates-repeat, repeat, rounds_lem, leave-made, leave-unmade,
}
use ibmiotf_cpp.Samples.Quickstart.{json_message, block, main}

abbrev event : Call
event = publish (event_topic (codes "status") (codes "json")) json_message (pos 0)

-- The calls of the program.
unfoldable pub session_calls : Properties → List Call
session_calls p =
    create (server_uri p) (client_id p)
    ∷ Call.connect (record {
      clean_session = true;
      keep_alive_interval = pos 90;
      user_name = none;
      password = none;
      ssl = none;
    })
    ∷ set_callback
    ∷ (repeat 10 (event ∷ []) ++ (Call.disconnect ∷ []))

creates-session_calls : (p : Properties) → creates (session_calls p) ≡ 1
unfolding session_calls creates
creates-session_calls p = omega (
  arith,
  creates-append (repeat 10 (event ∷ [])) (Call.disconnect ∷ []),
  creates-repeat 10 (event ∷ []) refl,
)

module _ {J : JsonLib} (broker : Broker) (accepting : Accepts broker) where
  publish_lem :
      (c : Client J)
      → publish_event broker (codes "status") (codes "json") json_message (pos 0) c
        ≡ (ok tt, record c { calls = c.calls ++ (event ∷ []) })
  unfolding publish_event publish_topic
  publish_lem c = rw (invoke-accepted broker accepting)

  -- Without a subscription to the commands, disconnect only disconnects.
  disconnect-unsubscribed :
      (c : Client J)
      → c.callback ≡ some new_callback
      → disconnect broker c ≡ (ok tt, record c { calls = c.calls ++ (Call.disconnect ∷ []) })
  unfolding disconnect disconnect_client unsubscribe_commands the_callback check_subscription
      contains new_callback is_empty codes
  disconnect-unsubscribed c e = rw (e, complete-accepted broker accepting)

  block-quickstart :
      (c : Client J)
      → can_initialize c.properties ≡ true
      → is_quickstart c.properties.org_id ≡ true
      → block broker c ≡ (
        ok (pos 0),
        record c {
          keep_alive_interval = pos 90;
          server_uri = server_uri c.properties;
          client_id = client_id c.properties;
          callback = some new_callback;
          calls = c.calls ++ session_calls c.properties;
        },
      )
  unfolding block set_keep_alive_interval session_calls
  block-quickstart c can q =
      let p = c.properties in
      let opening =
        create (server_uri p) (client_id p)
        ∷ Call.connect (record {
          clean_session = true;
          keep_alive_interval = pos 90;
          user_name = none;
          password = none;
          ssl = none;
        })
        ∷ set_callback
        ∷ [] in
      let ready : Client J = record c {
        keep_alive_interval = pos 90;
        server_uri = server_uri p;
        client_id = client_id p;
        callback = some new_callback;
        calls = c.calls ++ opening;
      } in
      let ran : Client J = record ready { calls = ready.calls ++ repeat 10 (event ∷ []) } in
      rw (connect-quickstart broker (record c { keep_alive_interval = pos 90 }) can q accepting) (
        ap (λ r. continue r (λ _. disconnect broker >> pure (pos 0)))
          (rounds_lem 10 (publish_event broker (codes "status") (codes "json") json_message (pos 0))
            (event ∷ []) ready (λ d _. publish_lem d))
        ∙ ap (λ r. continue r (λ _. pure (pos 0))) (disconnect-unsubscribed ran refl)
        ∙ rw (append_assoc, append_assoc))

module _ (J : JsonLib) (format_time : ℤ → Text) (broker : Broker) (accepting : Accepts broker)
    (p : Properties) where
  ran-quickstart :
      can_initialize p ≡ true
      → is_quickstart p.org_id ≡ true
      → run_block broker (pos 1) (construct J format_time p false false) (block broker)
        ≡ (ok (pos 0), session_calls p)
  unfolding run_block construct caught
  ran-quickstart can q =
      let l = construct J format_time p false false in
      ap (λ r. (caught (pos 1) (leave broker l r.1 r.0), r.1.calls))
        (block-quickstart broker accepting l.client can q)
      ∙ ap (λ r. (caught (pos 1) r, session_calls p))
          (leave-made broker accepting 0 l
            (record l.client {
              keep_alive_interval = pos 90;
              server_uri = server_uri p;
              client_id = client_id p;
              callback = some new_callback;
              calls = session_calls p;
            })
            (ok (pos 0)) refl (creates-session_calls p) refl)

  ran-refused :
      can_initialize p ≡ false
      → run_block broker (pos 1) (construct J format_time p false false) (block broker)
        ≡ (err indeterminate_pointer, [])
  unfolding run_block construct caught block set_keep_alive_interval
  ran-refused e =
      let l = construct J format_time p false false in
      let c = set_keep_alive_interval (pos 90) l.client in
      rw (connect-refused broker c e, leave-unmade broker l c (ok (pos 1)) refl refl)

  ran-either :
      can_initialize p ≡ is_quickstart p.org_id
      → run_block broker (pos 1) (construct J format_time p false false) (block broker) ≡ (
          if is_quickstart p.org_id
          then (ok (pos 0), session_calls p)
          else (err indeterminate_pointer, []))
  ran-either can = elim (Bool-cases (is_quickstart p.org_id)) [
    | inl q ↦ ran-quickstart (can ∙ q) q ∙ rw q
    | inr q ↦ ran-refused (can ∙ q) ∙ rw q
  ]

  -- Where the configuration is read with success, and every call of the broker succeeds, the quickstart
  -- sample ends like this. For the organization "quickstart", with the exit code 0 and all these calls: the MQTT
  -- client, its connection with an interval of 90 and no credentials, the callback, ten publications at
  -- QoS 0, the end of the connection. For any other organization, without any call: the client does not
  -- connect, and its destructor deletes an indeterminate pointer.
  pub main-either :
      (file : Option Text)
      → initialize_properties J file default_properties ≡ (ok true, p)
      → main J format_time broker (some file) ≡ (
          if is_quickstart p.org_id
          then (ok (pos 0), session_calls p)
          else (err indeterminate_pointer, []))
  unfolding main is_empty codes
  main-either file e =
      let can = initialize_properties-can_initialize J file default_properties p refl refl e in
      let finish : Result Bool × Properties → Result ℤ × List Call = λ r. elim r.0 [
        | err x ↦ (err x, [])
        | ok false ↦ (ok (pos 1), [])
        | ok true ↦
            run_block broker (pos 1) (construct J format_time r.1 false false) (block broker)
      ] in
      ap finish e ∙ ran-either can
