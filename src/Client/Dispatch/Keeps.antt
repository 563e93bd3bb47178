-- ===== src/Client/Dispatch/Keeps.antt =====
-- What the handlers leave alone when a message arrives.
use ibmiotf_cpp.Base.{
  ◌≡◌, refl, ◌∙◌, ◌+◌, ℤ, Option, none, some, List, [], ◌∷◌, ok, err, Result, arith,
}
use ibmiotf_cpp.Base.Exec.{Exec, continue, lift}
use ibmiotf_cpp.Json.{JsonLib}
use ibmiotf_cpp.Text.{Text}
use ibmiotf_cpp.Reply.{ReplyMessage}
use ibmiotf_cpp.Callback.{
  Callback, Handler, response, action, firmware, attribute, custom, equal_range,
}
use ibmiotf_cpp.Client.{Client, send_reply, the_callback-some, put_callback}
use ibmiotf_cpp.Client.Dispatch.{
  Methods, deliver, deliver_raw, send_if_any, handle_one, handle_all, user_command, message_arrived,
}

module _ {J : JsonLib} where
  -- The session of the client is the same.
  pub record Keeps (c d : Client J) : Type 0 where
    pub calls : d.calls ≡ c.calls
    pub callback : d.callback ≡ c.callback

  Keeps-trans : {c d e : Client J} → Keeps c d → Keeps d e → Keeps c e
  Keeps-trans p q = record { calls = q.calls ∙ p.calls; callback = q.callback ∙ p.callback }

  Keeps-continue :
      {A B : Type 0} (c : Client J) (r : Result A × Client J) (k : A → Exec (Client J) B)
      → Keeps c r.1
      → ((a : A) (d : Client J) → Keeps d (k a d).1)
      → Keeps c (continue r k).1
  Keeps-continue c (ok a, d) k h f = Keeps-trans h (f a d)
  Keeps-continue c (err e, d) k h f = h

module _ {J : JsonLib} (format_time : ℤ → Text) (app : Methods J) where
  deliver-Keeps :
      (h : Handler) (topic : Text) (payload : JsonLib.Value J) (c : Client J)
      → Keeps c (deliver format_time app h topic payload c).1
  unfolding deliver
  deliver-Keeps response topic payload c = record { calls = ground arith; callback = ground arith }
  deliver-Keeps firmware topic payload c = record { calls = refl; callback = refl }
  deliver-Keeps action topic payload c = record { calls = refl; callback = refl }
  deliver-Keeps attribute topic payload c = record { calls = ground arith; callback = ground arith }
  deliver-Keeps (custom n) topic payload c = record { calls = refl; callback = refl }

  deliver_raw-Keeps :
      (h : Handler) (topic text : Text) (c : Client J)
      → Keeps c (deliver_raw format_time app h topic text c).1
  unfolding deliver_raw
  deliver_raw-Keeps response topic text c = record { calls = ground arith; callback = ground arith }
  deliver_raw-Keeps firmware topic text c = record { calls = refl; callback = refl }
  deliver_raw-Keeps action topic text c = record { calls = refl; callback = refl }
  deliver_raw-Keeps attribute topic text c = record { calls = refl; callback = refl }
  deliver_raw-Keeps (custom n) topic text c = record { calls = refl; callback = refl }

  send_if_any-Keeps :
      (reply : Option (ReplyMessage J)) (c : Client J)
      → Keeps c (send_if_any format_time app reply c).1
  unfolding send_if_any send_reply
  send_if_any-Keeps none c = record { calls = refl; callback = refl }
  send_if_any-Keeps (some r) c = record { calls = refl; callback = refl }

  handle_one-Keeps :
      (h : Handler) (topic text : Text) (o : Option (JsonLib.Value J)) (c : Client J)
      → J.parse text ≡ o
      → Keeps c (handle_one format_time app h topic text c).1
  unfolding handle_one
  handle_one-Keeps h topic text none c e = rw e (
      Keeps-continue c (deliver_raw format_time app h topic text c) (send_if_any format_time app)
        (deliver_raw-Keeps h topic text c) send_if_any-Keeps)
  handle_one-Keeps h topic text (some payload) c e = rw e (
      Keeps-continue c (deliver format_time app h topic payload c) (send_if_any format_time app)
        (deliver-Keeps h topic payload c) send_if_any-Keeps)

  pub handle_all-Keeps :
      (handlers : List Handler) (topic text : Text) (c : Client J)
      → Keeps c (handle_all format_time app handlers topic text c).1
  unfolding handle_all
  handle_all-Keeps [] topic text c = record { calls = refl; callback = refl }
  handle_all-Keeps (h ∷ rest) topic text c =
      Keeps-continue c (handle_one format_time app h topic text c)
        (λ _. handle_all format_time app rest topic text)
        (handle_one-Keeps h topic text (J.parse text) c refl)
        (λ _ d. handle_all-Keeps rest topic text d)

  -- Of the session, the arrival of a message changes the counter of messages alone.
  pub message_arrived-Keeps :
      (topic text : Text) (c : Client J) (cb : Callback)
      → c.callback ≡ some cb
      → Keeps
          (record c { callback = some (record cb { arrived_messages = cb.arrived_messages + 1 }) })
          (message_arrived format_time app topic text c).1
  unfolding message_arrived put_callback
  message_arrived-Keeps topic text c cb e =
      let counted : Client J = record c {
        callback = some (record cb { arrived_messages = cb.arrived_messages + 1 });
      } in
      rw (the_callback-some c cb e) (
        Keeps-continue counted
          (handle_all format_time app (equal_range topic cb.handlers) topic text counted)
          (λ _. lift (
            user_command format_time app (equal_range topic cb.handlers) cb.user_callback topic
              text))
          (handle_all-Keeps (equal_range topic cb.handlers) topic text counted)
          (λ _ d. record { calls = refl; callback = refl }))
