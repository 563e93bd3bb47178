-- ===== src/Client/Session/Accepted.antt =====
-- Request ids, and the calls of a session when the broker accepts them.
use ibmiotf_cpp.Base.{
  Result, ℕ, ◌+◌, ◌<◌, ◌≤◌, ℤ, pos, true, false, ◌≡◌, ◌≢◌, some, [], ◌∷◌, ◌++◌, append_assoc, ok,
  err, arith, ap,
}
use ibmiotf_cpp.Json.{JsonLib}
use ibmiotf_cpp.Text.{Text, codes, text_eq, size_mod}
use ibmiotf_cpp.Text.Decimal.{decimal-injective}
use ibmiotf_cpp.Mqtt.{Broker, Accepts, connect, subscribe, unsubscribe, set_callback}
use ibmiotf_cpp.Properties.{is_quickstart}
use ibmiotf_cpp.Callback.{
  Callback, Handler, new_callback, add_handler, check_handler, add_subscription, check_subscription,
  remove_subscription,
}
use ibmiotf_cpp.Client.{
  Client, put_callback, set_client, the_callback-some, invoke-accepted, complete-accepted,
}
use ibmiotf_cpp.Client.Session.{
  connect_client, connect_options, ssl_options, user_name, register_callback, auth_supported,
  subscribe_topic, subscribe_command_handler, unsubscribe_commands, next_req_id,
}

abbrev get_ok : Text → Result Text → Text
get_ok t (ok s) = s
get_ok t (err e) = t

module _ {J : JsonLib} (broker : Broker) where
  -- The request id of a message differs from that of any later message: one at the same time or after
  -- it, made when the counter is at least what the first message leaves. Here neither the counter nor
  -- its sum with the time reaches 2 ^ 64.
  pub next_req_id-fresh :
      (now later : ℕ) (c d : Client J)
      → now ≤ later
      → c.req_counter + 1 + now < size_mod
      → d.req_counter + 1 + later < size_mod
      → (next_req_id broker now c).1.req_counter ≤ d.req_counter
      → (next_req_id broker now c).0 ≢ (next_req_id broker later d).0
  unfolding next_req_id
  next_req_id-fresh now later c d h small_c small_d le e =
      omega (arith, decimal-injective _ _ (ap (get_ok []) e))

  pub connect_client-accepted :
      Accepts broker
      → (c : Client J)
      → connect_client broker c ≡ (
        ok (auth_supported c.properties),
        record c {
          callback = some new_callback;
          calls =
              c.calls
              ++ (connect (connect_options c.properties c.keep_alive_interval)
                  ∷ (set_callback ∷ []));
        },
      )
  unfolding connect_client register_callback put_callback auth_supported
  connect_client-accepted accepting c =
      rw (complete-accepted broker accepting _ c, invoke-accepted broker accepting, append_assoc)
        (ground arith)

  pub subscribe_topic-accepted :
      Accepts broker
      → (topic : Text) (qos : ℤ) (c : Client J) (cb : Callback) → c.callback ≡ some cb
      → check_subscription topic cb ≡ false
      → subscribe_topic broker topic qos c ≡ (
        ok true,
        record c {
          callback = some (add_subscription topic cb);
          calls = c.calls ++ (subscribe topic qos ∷ []);
        },
      )
  unfolding subscribe_topic put_callback
  subscribe_topic-accepted accepting topic qos c cb present missing = rw (
    the_callback-some c cb present,
    missing,
    complete-accepted broker accepting (subscribe topic qos) c,
  )

  pub subscribe_command_handler-accepted :
      Accepts broker
      → (topic : Text) (handler : Handler) (c : Client J) (cb : Callback) → c.callback ≡ some cb
      → check_handler topic handler cb ≡ false
      → subscribe_command_handler broker topic handler c ≡ (
        ok true,
        set_client handler (record c {
          callback = some (add_handler topic handler cb);
          calls = c.calls ++ (subscribe topic (pos 1) ∷ []);
        }),
      )
  unfolding subscribe_command_handler put_callback
  subscribe_command_handler-accepted accepting topic handler c cb present missing = rw (
    the_callback-some c cb present,
    missing,
    complete-accepted broker accepting (subscribe topic (pos 1)) c,
  )

  pub unsubscribe_commands-accepted :
      Accepts broker
      → (topic : Text) (c : Client J) (cb : Callback) → c.callback ≡ some cb
      → check_subscription topic cb ≡ true
      → unsubscribe_commands broker topic c ≡ (
        ok true,
        record c {
          callback = some (remove_subscription topic cb);
          calls = c.calls ++ (unsubscribe topic ∷ []);
        },
      )
  unfolding unsubscribe_commands put_callback
  unsubscribe_commands-accepted accepting topic c cb present found = rw (
    the_callback-some c cb present,
    found,
    complete-accepted broker accepting (unsubscribe topic) c,
  )

  -- With an auth method that the platform does not support, and a broker that accepts what it is asked,
  -- connect() says false, but the connection is made with the auth method as the user name, and the
  -- callback is registered. The organization is not "quickstart".
  pub connect_client-unsupported :
      (c : Client J)
      → is_quickstart c.properties.org_id ≡ false
      → text_eq c.properties.auth_method (codes "token") ≡ false
      → Accepts broker
      → connect_client broker c ≡ (
        ok false,
        record c {
          callback = some new_callback;
          calls =
              c.calls
              ++ (connect (record {
                clean_session = true;
                keep_alive_interval = c.keep_alive_interval;
                user_name = some c.properties.auth_method;
                password = some c.properties.auth_token;
                ssl = some (ssl_options c.properties);
              })
                  ∷ set_callback
                  ∷ []);
        },
      )
  unfolding connect_options auth_supported user_name
  connect_client-unsupported c q a accepting = rw (connect_client-accepted accepting c, q, a)
