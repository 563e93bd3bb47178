-- ===== src/Client/Session/Operations.antt =====
-- Every operation on a session keeps what the server holds among what the client lists.
use ibmiotf_cpp.Base.{
  ℕ, ℤ, ◌≡◌, Bool, true, false, none, some, List, [], ◌∷◌, arith, Option-cases, inl, inr,
}
use ibmiotf_cpp.Json.{JsonLib}
use ibmiotf_cpp.Text.{Text}
use ibmiotf_cpp.Mqtt.{Broker, Accepts}
use ibmiotf_cpp.Properties.{Properties}
use ibmiotf_cpp.Callback.{Callback, Handler}
use ibmiotf_cpp.Client.{Client, new_client, the_callback-none}
use ibmiotf_cpp.Client.Session.{
  connect_client, subscribe_topic, subscribe_command_handler, unsubscribe_commands,
  disconnect_client, publish_topic, set_command_handler, send_message,
}
use ibmiotf_cpp.Client.Session.Tracking.{server_holds, listed}
use ibmiotf_cpp.Client.Dispatch.{Methods, message_arrived}
use ibmiotf_cpp.Client.Session.Tracked.{
  Tracked, connects-Tracked, subscribes-Tracked, subscribes_handler-Tracked, unsubscribes-Tracked,
  arrives-Tracked, set_command_handler-Tracked, publishes-Tracked, sends-Tracked,
  disconnects-Tracked,
}

-- An operation on a client, or a message that arrives for it.
pub data Operation (J : JsonLib) : Type 0 where
  connects : Operation J
  sets_command_handler : Bool → Operation J
  subscribes : Text → ℤ → Operation J
  subscribes_handler : Text → Handler → Operation J
  unsubscribes : Text → Operation J
  publishes : Text → Text → ℤ → Operation J
  sends : ℕ → Text → JsonLib.Value J → ℤ → Operation J
  disconnects : Operation J
  arrives : Text → Text → Operation J

module _ {J : JsonLib} (broker : Broker) (format_time : ℤ → Text) (app : Methods J) where
  -- The client after the operation, also if it throws.
  unfoldable pub operate : Operation J → Client J → Client J
  operate connects c = (connect_client broker c).1
  operate (sets_command_handler cb) c = (set_command_handler broker cb c).1
  operate (subscribes topic qos) c = (subscribe_topic broker topic qos c).1
  operate (subscribes_handler topic handler) c =
      (subscribe_command_handler broker topic handler c).1
  operate (unsubscribes topic) c = (unsubscribe_commands broker topic c).1
  operate (publishes topic payload qos) c = (publish_topic broker topic payload qos c).1
  operate (sends now topic value qos) c = (send_message broker now topic value qos c).1
  operate disconnects c = (disconnect_client broker c).1
  operate (arrives topic text) c = (message_arrived format_time app topic text c).1

  unfoldable pub operate_all : List (Operation J) → Client J → Client J
  unfolding operate
  operate_all [] c = c
  operate_all (op ∷ ops) c = operate_all ops (operate op c)

  -- A new client after the operations.
  unfoldable pub session : Properties → Bool → Bool → List (Operation J) → Client J
  unfolding operate_all
  session properties action_handler firmware_handler ops =
      operate_all ops (new_client J format_time properties action_handler firmware_handler)

module _ {J : JsonLib} (broker : Broker) (accepting : Accepts broker) where
  module _ (format_time : ℤ → Text) (app : Methods J) where
    -- With a callback.
    operate_connected :
        (op : Operation J) (c : Client J) (cb : Callback)
        → c.callback ≡ some cb
        → Tracked c
        → Tracked (operate broker format_time app op c)
    unfolding operate
    operate_connected connects c cb e k = connects-Tracked broker accepting c
    operate_connected (sets_command_handler b) c cb e k =
        set_command_handler-Tracked broker accepting b c cb e k
    operate_connected (subscribes topic qos) c cb e k =
        subscribes-Tracked broker accepting topic qos c cb e k
    operate_connected (subscribes_handler topic handler) c cb e k =
        subscribes_handler-Tracked broker accepting topic handler c cb e k
    operate_connected (unsubscribes topic) c cb e k =
        unsubscribes-Tracked broker accepting topic c cb e k
    operate_connected (publishes topic payload qos) c cb e k =
        publishes-Tracked broker accepting topic payload qos c k
    operate_connected (sends now topic value qos) c cb e k =
        sends-Tracked broker accepting now topic value qos c k
    operate_connected disconnects c cb e k = disconnects-Tracked broker accepting c
    operate_connected (arrives topic text) c cb e k =
        arrives-Tracked broker accepting format_time app topic text c cb e k

    -- Without one the operations that need it fail at once.
    operate_unconnected :
        (op : Operation J) (c : Client J)
        → c.callback ≡ none
        → Tracked c
        → Tracked (operate broker format_time app op c)
    unfolding operate set_command_handler subscribe_topic subscribe_command_handler
        unsubscribe_commands message_arrived
    operate_unconnected connects c e k = connects-Tracked broker accepting c
    operate_unconnected (sets_command_handler b) c e k = rw (the_callback-none c e, operate) k
    operate_unconnected (subscribes topic qos) c e k = rw (the_callback-none c e, operate) k
    operate_unconnected (subscribes_handler topic handler) c e k =
        rw (the_callback-none c e, operate) k
    operate_unconnected (unsubscribes topic) c e k = rw (the_callback-none c e, operate) k
    operate_unconnected (publishes topic payload qos) c e k =
        publishes-Tracked broker accepting topic payload qos c k
    operate_unconnected (sends now topic value qos) c e k =
        sends-Tracked broker accepting now topic value qos c k
    operate_unconnected disconnects c e k = disconnects-Tracked broker accepting c
    operate_unconnected (arrives topic text) c e k = rw (the_callback-none c e, operate) k

    operate-Tracked :
        (op : Operation J) (c : Client J)
        → Tracked c
        → Tracked (operate broker format_time app op c)
    operate-Tracked op c k = elim (Option-cases c.callback) [
      | inl e ↦ operate_unconnected op c e k
      | inr (cb, e) ↦ operate_connected op c cb e k
    ]

    operate_all-Tracked :
        (ops : List (Operation J)) (c : Client J)
        → Tracked c
        → Tracked (operate_all broker format_time app ops c)
    unfolding operate_all
    operate_all-Tracked [] c k = k
    operate_all-Tracked (op ∷ ops) c k =
        operate_all-Tracked ops (operate broker format_time app op c) (operate-Tracked op c k)

    -- Where every call of the broker succeeds, a new client that runs any operations, and receives any
    -- messages in between, lists every topic that the server then holds a subscription to, by the
    -- calls that were made.
    pub operate_all-Tracks :
        (properties : Properties) (action_handler firmware_handler : Bool)
        (ops : List (Operation J)) (t : Text)
        → server_holds t false
            (session broker format_time app properties action_handler firmware_handler ops).calls
          ≡ true
        → listed t
            (session broker format_time app properties action_handler firmware_handler ops).callback
          ≡ true
    unfolding session new_client server_holds
    operate_all-Tracks properties action_handler firmware_handler ops t =
        operate_all-Tracked ops _ (λ s h. absurd (ground arith)) t
