-- ===== src/ReplyQueue/Publishing.antt =====
-- The reply thread of src/IOTP_Client.cpp (_send_reply) with the MQTT client that it publishes with. The
-- calls of the other threads are not shown.
pub mod Published
pub mod Refines
pub mod Answered
use ibmiotf_cpp.Base.{◌≡◌, Bool, true, false, List, [], ◌∷◌, ◌++◌, Result, ok, err}
use ibmiotf_cpp.Base.Exec.{Exec, ◌>>=◌}
use ibmiotf_cpp.Json.{JsonLib}
use ibmiotf_cpp.Mqtt.{Call, Broker, publish}
use ibmiotf_cpp.Reply.{ReplyMessage}
use ibmiotf_cpp.Client.{Client, send_reply, invoke, wait_for_completion}
use ibmiotf_cpp.ReplyQueue.{Worker, running, waiting, notified, stopped, notify}

module _ {J : JsonLib} where
  -- pasync_client->publish(topic, jsonMessage, reply->getQos(), false)
  unfoldable pub publication : ReplyMessage J → Call
  publication reply = publish reply.topic (J.write reply.payload) reply.qos

  module _ (broker : Broker) where
    unfoldable pub publish_reply : ReplyMessage J → Exec (Client J) (Unit {0})
    unfolding publication invoke wait_for_completion
    publish_reply reply = do
      token ← invoke broker (publication reply)
      wait_for_completion broker token

    -- if (mReplyMsgs.empty() == false) { … }: the reply leaves the queue before it is published
    unfoldable pub publish_front : Exec (Client J) (Unit {0})
    unfolding publish_reply
    publish_front c = elim c.reply_msgs [
      | [] ↦ (ok tt, c)
      | reply ∷ rest ↦ publish_reply reply (record c { reply_msgs = rest })
    ]

module _ (J : JsonLib) where
  -- The client and its thread; `pushed` is the history of the calls of IOTF_send_reply. The program is
  -- `alive` until an exception leaves the thread's function, which is std::terminate.
  pub record System : Type 0 where
    pub client : Client J
    pub pushed : List (ReplyMessage J)
    pub worker : Worker
    pub alive : Bool

module _ {J : JsonLib} where
  abbrev pub begun : Client J → System J
  begun c = record {
    client = record c { reply_msgs = [] };
    pushed = [];
    worker = running;
    alive = true;
  }

  -- IOTF_send_reply
  unfoldable pub push : ReplyMessage J → System J → System J
  unfolding send_reply notify
  push reply s = record s {
    client = send_reply reply s.client;
    pushed = s.pushed ++ (reply ∷ []);
    worker = notify s.worker;
  }

  -- The end of the round, or of the program.
  unfoldable pub finish : System J → Result (Unit {0}) × Client J → System J
  finish s (ok done, c) = record s { client = c; worker = running }
  finish s (err e, c) = record s { client = c; alive = false }

  module _ (broker : Broker) where
    pub data Step (s : System J) : System J → Type 0 where
      reply_pushed : (reply : ReplyMessage J) → Step s (push reply s)
      begins_wait : s.worker ≡ running → Step s (record s { worker = waiting })
      times_out : s.worker ≡ waiting → Step s (record s { worker = running })
      wakes_spuriously : s.worker ≡ waiting → Step s (record s { worker = notified })
      publishes : s.worker ≡ notified → Step s (finish s (publish_front broker s.client))
      exits : s.worker ≡ running → Step s (record s { worker = stopped })

    pub data Reach (s : System J) : System J → Type 0 where
      here : Reach s s
      next : {t u : System J} → Reach s t → t.alive ≡ true → Step t u → Reach s u
