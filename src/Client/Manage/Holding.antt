-- ===== src/Client/Manage/Holding.antt =====
-- A connected client of src/IOTP_Client.cpp, told by its callback, calls and handlers.
use ibmiotf_cpp.Base.{
  pos, ◌≡◌, refl, ap, ◌∙◌, Bool, true, false, some, List, [], ◌∷◌, ◌++◌, ok, Result,
}
use ibmiotf_cpp.Base.Exec.{Exec, continue, gets}
use ibmiotf_cpp.Json.{JsonLib}
use ibmiotf_cpp.Text.{Text}
use ibmiotf_cpp.Mqtt.{Broker, Call, Accepts, subscribe}
use ibmiotf_cpp.Callback.{
  Callback, Handler, response, action, firmware, attribute, custom, contains_entry, check_handler,
  add_handler,
}
use ibmiotf_cpp.Client.{Client, set_client}
use ibmiotf_cpp.Client.Session.{subscribe_command_handler}
use ibmiotf_cpp.Client.Session.Accepted.{subscribe_command_handler-accepted}

abbrev pub Entries : Type 0
Entries = List (Text × Handler)

module _ {J : JsonLib} where
  -- A client that is connected, with the entries of its callback, its calls and its handlers.
  pub record Holding (es : Entries) (calls : List Call) (f a : Bool) (c : Client J) : Type 0 where
    pub callback : Callback
    pub is_callback : c.callback ≡ some callback
    pub is_entries : callback.handlers ≡ es
    pub is_calls : c.calls ≡ calls
    pub is_firmware : c.firmware_handler ≡ f
    pub is_action : c.action_handler ≡ a

  Holding-set_client :
      (h : Handler) {es : Entries} {calls : List Call} {f a : Bool} (c : Client J)
      → Holding es calls f a c
      → Holding es calls f a (set_client h c)
  unfolding set_client
  Holding-set_client response c k = k
  Holding-set_client attribute c k = k
  Holding-set_client (custom n) c k = k
  Holding-set_client action c k = record {
    callback = k.callback;
    is_callback = k.is_callback;
    is_entries = k.is_entries;
    is_calls = k.is_calls;
    is_firmware = k.is_firmware;
    is_action = k.is_action;
  }
  Holding-set_client firmware c k = record {
    callback = k.callback;
    is_callback = k.is_callback;
    is_entries = k.is_entries;
    is_calls = k.is_calls;
    is_firmware = k.is_firmware;
    is_action = k.is_action;
  }

  -- A run that ends well in such a client.
  pub record Ends {A : Type 0} (value : A) (es : Entries) (calls : List Call) (f a : Bool)
      (r : Result A × Client J) : Type 0 where
    pub client : Client J
    pub is_result : r ≡ (ok value, client)
    pub holding : Holding es calls f a client

  pub Ends-continue :
      {A B : Type 0} {x : A} {y : B} {es es' : Entries} {calls calls' : List Call} {f a : Bool}
      {r : Result A × Client J}
      → (k : A → Exec (Client J) B) → Ends x es calls f a r
      → ((c : Client J) → Holding es calls f a c → Ends y es' calls' f a (k x c))
      → Ends y es' calls' f a (continue r k)
  Ends-continue k e next =
      let after = next e.client e.holding in
      record {
        client = after.client;
        is_result = ap (λ q. continue q k) e.is_result ∙ after.is_result;
        holding = after.holding;
      }

  pub gets_lem :
      {es : Entries} {calls : List Call} {f a b : Bool}
      → (g : Client J → Bool) (c : Client J) → g c ≡ b
      → Holding es calls f a c
      → Ends b es calls f a (gets g c)
  gets_lem g c e k = record { client = c; is_result = ap (λ x. (ok x, c)) e; holding = k }

  module _ (broker : Broker) (accepting : Accepts broker) where
    pub subscribe_lem :
        (t : Text) (h : Handler) {es : Entries} {calls : List Call} {f a : Bool} (c : Client J)
        → contains_entry t h es ≡ false
        → Holding es calls f a c
        → Ends true
            (es ++ ((t, h) ∷ []))
            (calls ++ (subscribe t (pos 1) ∷ []))
            f
            a
            (subscribe_command_handler broker t h c)
    unfolding check_handler add_handler
    subscribe_lem t h c e k = record {
      client = set_client h (record c {
        callback = some (add_handler t h k.callback);
        calls = c.calls ++ (subscribe t (pos 1) ∷ []);
      });
      is_result =
          subscribe_command_handler-accepted broker accepting t h c k.callback k.is_callback
            (rw k.is_entries e);
      holding = Holding-set_client h _ (record {
        callback = add_handler t h k.callback;
        is_callback = refl;
        is_entries = rw k.is_entries;
        is_calls = rw k.is_calls;
        is_firmware = k.is_firmware;
        is_action = k.is_action;
      });
    }
