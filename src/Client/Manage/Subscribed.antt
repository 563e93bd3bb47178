-- ===== src/Client/Manage/Subscribed.antt =====
-- The subscriptions of subscribeCommand that manage() of src/IOTP_DeviceClient.cpp makes for the handlers.
use ibmiotf_cpp.Base.{
  pos, ◌≡◌, refl, ap, Bool, true, false, not, ◌&&◌, List, [], ◌∷◌, ◌++◌, append_assoc, append-nil,
  if◌then◌else◌, arith,
}
use ibmiotf_cpp.Base.Exec.{Exec, gets, when, ◌>>=◌, ◌>>◌}
use ibmiotf_cpp.Json.{JsonLib}
use ibmiotf_cpp.Text.{Text, codes, text_eq}
use ibmiotf_cpp.Topics.{
  server_response_topic, server_update_topic, server_observe_topic, server_cancel_topic,
  server_firmware_download_topic, server_firmware_update_topic, server_device_reboot_topic,
  server_factory_reset_topic,
}
use ibmiotf_cpp.Mqtt.{Broker, Call, Accepts, subscribe}
use ibmiotf_cpp.Callback.{
  Handler, response, action, firmware, attribute, contains_entry, is_entry, handler_eq,
}
use ibmiotf_cpp.Client.{Client}
use ibmiotf_cpp.Client.Manage.{subscribe_all, subscribe_managed}
use ibmiotf_cpp.Client.Manage.Holding.{
  Entries, Holding, Ends, Ends-continue, gets_lem, subscribe_lem,
}

-- The entries of a handler for topics, the calls that subscribe them, and the topics of each handler.
abbrev entries : Handler → List Text → Entries
entries h [] = []
entries h (t ∷ ts) = (t, h) ∷ entries h ts

abbrev pub subscriptions : List Text → List Call
subscriptions [] = []
subscriptions (t ∷ ts) = subscribe t (pos 1) ∷ subscriptions ts

abbrev if_present : Bool → List Text → List Text
if_present b ts = if b then ts else []

abbrev firmware_topics : List Text
firmware_topics =
    server_update_topic ∷ server_observe_topic ∷ server_cancel_topic
    ∷ server_firmware_download_topic ∷ server_firmware_update_topic ∷ []

abbrev action_topics : List Text
action_topics = server_device_reboot_topic ∷ server_factory_reset_topic ∷ []

-- The topics of manage(), for the handlers that the client has, in the order of the subscriptions.
abbrev pub managed_topics : Bool → Bool → Bool → List Text
managed_topics has_firmware has_action has_attribute =
    if_present has_firmware firmware_topics
    ++ if_present has_action action_topics
    ++ if_present has_attribute (server_update_topic ∷ [])

-- No entry for the handler and one of the topics is there when its turn comes.
unfoldable fresh : Handler → List Text → Entries → Bool
fresh h [] es = true
fresh h (t ∷ ts) es = not (contains_entry t h es) && fresh h ts (es ++ ((t, h) ∷ []))

module _ {J : JsonLib} where
  module _ (broker : Broker) (accepting : Accepts broker) where
    subscribe_all_lem :
        (h : Handler) (ts : List Text) {es : Entries} {calls : List Call} {f a : Bool}
        (c : Client J)
        → fresh h ts es ≡ true
        → Holding es calls f a c
        → Ends tt (es ++ entries h ts) (calls ++ subscriptions ts) f a (subscribe_all broker h ts c)
    unfolding subscribe_all fresh
    subscribe_all_lem h [] {es} {calls} c e k =
        rw (append-nil es, append-nil calls) (record { client = c; is_result = refl; holding = k })
    subscribe_all_lem h (t ∷ ts) {es} {calls} c e k =
        Ends-continue _ (subscribe_lem broker accepting t h c (ground arith) k) (λ d m.
          let rest = subscribe_all_lem h ts d (ground arith) m in
          rw (append_assoc, append_assoc) at rest)

    when_lem :
        (b : Bool) (h : Handler) (ts : List Text) {es : Entries} {calls : List Call} {f a : Bool}
        (c : Client J)
        → fresh h ts es ≡ true
        → Holding es calls f a c
        → Ends tt
            (es ++ entries h (if_present b ts))
            (calls ++ subscriptions (if_present b ts))
            f
            a
            (when b (subscribe_all broker h ts) c)
    when_lem true h ts c e k = subscribe_all_lem h ts c e k
    when_lem false h ts {es} {calls} c e k =
        rw (append-nil es, append-nil calls) (record { client = c; is_result = refl; holding = k })

abbrev pub first_entries : Entries
first_entries = (server_response_topic, response) ∷ []

abbrev firmware_entries : Bool → Entries
firmware_entries f = first_entries ++ entries firmware (if_present f firmware_topics)

abbrev action_entries : Bool → Bool → Entries
action_entries f a = firmware_entries f ++ entries action (if_present a action_topics)

fresh-firmware : fresh firmware firmware_topics first_entries ≡ true
unfolding fresh contains_entry is_entry handler_eq codes text_eq
fresh-firmware = refl

fresh-action : (f : Bool) → fresh action action_topics (firmware_entries f) ≡ true
unfolding fresh contains_entry is_entry handler_eq codes text_eq
fresh-action true = refl
fresh-action false = refl

fresh-attribute :
    (f a : Bool) → fresh attribute (server_update_topic ∷ []) (action_entries f a) ≡ true
unfolding fresh contains_entry is_entry handler_eq codes text_eq
fresh-attribute true true = refl
fresh-attribute true false = refl
fresh-attribute false true = refl
fresh-attribute false false = refl

subscriptions-append :
    (xs ys : List Text) → subscriptions (xs ++ ys) ≡ subscriptions xs ++ subscriptions ys
subscriptions-append [] ys = refl
subscriptions-append (x ∷ xs) ys = ap (◌∷◌ (subscribe x (pos 1))) (subscriptions-append xs ys)

calls-managed :
    (f a b : Bool) (calls : List Call)
    → calls ++ subscriptions (managed_topics f a b)
      ≡ ((calls ++ subscriptions (if_present f firmware_topics))
          ++ subscriptions (if_present a action_topics))
        ++ subscriptions (if_present b (server_update_topic ∷ []))
calls-managed f a b calls =
    rw (subscriptions-append, subscriptions-append, append_assoc, append_assoc, append_assoc)

module _ {J : JsonLib} (broker : Broker) (accepting : Accepts broker) where
  pub subscribe_managed_lem :
      (f a b : Bool) {calls : List Call} (c : Client J)
      → Holding first_entries calls f a c
      → Ends tt
          (action_entries f a ++ entries attribute (if_present b (server_update_topic ∷ [])))
          (calls ++ subscriptions (managed_topics f a b))
          f
          a
          (subscribe_managed broker b c)
  unfolding subscribe_managed
  subscribe_managed_lem f a b {calls} c k =
      let last : Exec (Client J) (Unit {0}) =
        when b (subscribe_all broker attribute (server_update_topic ∷ [])) in
      let actions : Bool → Exec (Client J) (Unit {0}) =
        λ x. when x (subscribe_all broker action action_topics) >> last in
      let next : Exec (Client J) (Unit {0}) = gets (λ c. c.action_handler) >>= actions in
      rw (calls-managed f a b calls) (
        Ends-continue (λ x. when x (subscribe_all broker firmware firmware_topics) >> next)
          (gets_lem (λ c. c.firmware_handler) c k.is_firmware k)
          (λ c k.
            Ends-continue (λ _. next)
              (when_lem broker accepting f firmware firmware_topics c fresh-firmware k)
              (λ c k.
                Ends-continue actions (gets_lem (λ c. c.action_handler) c k.is_action k) (λ c k.
                  Ends-continue (λ _. last)
                    (when_lem broker accepting a action action_topics c (fresh-action f) k)
                    (λ c k. when_lem broker accepting b attribute _ c (fresh-attribute f a) k)))))
