-- ===== src/ReplyQueue/Publishing/Refines.antt =====
-- The reply thread with its MQTT client implements the reply queue that is studied without it.
use ibmiotf_cpp.Base.{
  ◌≡◌, refl, sym, ap, ◌∙◌, true, List, [], ◌∷◌, ◌++◌, append_assoc, append-nil, map, Result, ok,
  err, arith,
}
use mathlib.Core.Path.{subst}
use ibmiotf_cpp.Json.{JsonLib}
use ibmiotf_cpp.Mqtt.{Call, Broker}
use ibmiotf_cpp.Reply.{ReplyMessage}
use ibmiotf_cpp.Client.{Client, send_reply}
use ibmiotf_cpp.ReplyQueue
use ibmiotf_cpp.ReplyQueue.{
  Worker, running, waiting, notified, stopped, notify, send_front, empty_queue,
}
use ibmiotf_cpp.ReplyQueue.Publishing.{
  publication, publish_front, System, begun, push, finish, Step, reply_pushed, begins_wait,
  times_out, wakes_spuriously, publishes, exits, Reach, here, next,
}
use ibmiotf_cpp.ReplyQueue.Publishing.Published.{map-append, front-empty, front-reply}

module _ {J : JsonLib} where
  send_front-empty :
      (q : ReplyQueue.ReplyQueue (ReplyMessage J))
      → q.queue ≡ []
      → send_front q ≡ record q { worker = running }
  unfolding send_front
  send_front-empty q e =
      ap
        (λ (l : List (ReplyMessage J)). elim l as (λ _. ReplyQueue.ReplyQueue (ReplyMessage J)) [
          | [] ↦ record q { worker = running }
          | reply ∷ rest ↦ record q {
            queue = rest;
            sent = q.sent ++ (reply ∷ []);
            worker = running;
          }
        ])
        e

  send_front-reply :
      (q : ReplyQueue.ReplyQueue (ReplyMessage J)) (reply : ReplyMessage J)
      (rest : List (ReplyMessage J))
      → q.queue ≡ reply ∷ rest
      → send_front q ≡ record q { queue = rest; sent = q.sent ++ (reply ∷ []); worker = running }
  unfolding send_front
  send_front-reply q reply rest e = rw (e, send_front)

  -- A state of the queue that shows the same, and that it can reach.
  pub record Refines (before : List Call) (s : System J) : Type 0 where
    pub queue : ReplyQueue.ReplyQueue (ReplyMessage J)
    pub is_reached : ReplyQueue.Reach empty_queue queue
    pub is_queue : queue.queue ≡ s.client.reply_msgs
    pub is_pushed : queue.pushed ≡ s.pushed
    pub is_worker : queue.worker ≡ s.worker
    pub is_calls : s.client.calls ≡ before ++ map publication queue.sent

  module _ (broker : Broker) where
    front-Refines :
        (before : List Call) (s : System J) (left : List (ReplyMessage J))
        → s.client.reply_msgs ≡ left
        → s.worker ≡ notified
        → (h : Refines before s)
        → Refines before (finish s (ok tt, (publish_front broker s.client).1))
    unfolding finish
    front-Refines before s [] e w h = rw (front-empty broker s.client e) (record {
      queue = record h.queue { worker = running };
      is_reached =
          subst (ReplyQueue.Reach empty_queue) (send_front-empty h.queue (h.is_queue ∙ e))
            (ReplyQueue.next h.is_reached (ReplyQueue.sends (h.is_worker ∙ w)));
      is_queue = h.is_queue;
      is_pushed = h.is_pushed;
      is_worker = refl;
      is_calls = h.is_calls;
    })
    front-Refines before s (reply ∷ rest) e w h =
        rw (front-reply broker s.client reply rest e) (record {
          queue = record h.queue {
            queue = rest;
            sent = h.queue.sent ++ (reply ∷ []);
            worker = running;
          };
          is_reached =
              subst (ReplyQueue.Reach empty_queue)
                (send_front-reply h.queue reply rest (h.is_queue ∙ e))
                (ReplyQueue.next h.is_reached (ReplyQueue.sends (h.is_worker ∙ w)));
          is_queue = refl;
          is_pushed = h.is_pushed;
          is_worker = refl;
          is_calls =
              ap (λ l. l ++ (publication reply ∷ [])) h.is_calls
              ∙ append_assoc before (map publication h.queue.sent) (publication reply ∷ [])
              ∙ ap (λ l. before ++ l) (sym (map-append publication h.queue.sent (reply ∷ [])));
        })

    -- A round that does not end the program.
    finish-Refines :
        (before : List Call) (s : System J)
        → s.worker ≡ notified
        → Refines before s
        → (result : Result (Unit {0}))
        → (finish s (result, (publish_front broker s.client).1)).alive ≡ true
        → Refines before (finish s (result, (publish_front broker s.client).1))
    unfolding finish
    finish-Refines before s w h (ok done) alive =
        front-Refines before s s.client.reply_msgs refl w h
    finish-Refines before s w h (err e) alive = absurd (ground arith)

    Step-Refines :
        {before : List Call} {s t : System J}
        → Step broker s t
        → t.alive ≡ true
        → Refines before s
        → Refines before t
    unfolding push send_reply ReplyQueue.push
    Step-Refines (reply_pushed reply) alive h = record {
      queue = ReplyQueue.push reply h.queue;
      is_reached = ReplyQueue.next h.is_reached (ReplyQueue.reply_pushed reply);
      is_queue = ap (λ l. l ++ (reply ∷ [])) h.is_queue;
      is_pushed = ap (λ l. l ++ (reply ∷ [])) h.is_pushed;
      is_worker = ap notify h.is_worker;
      is_calls = h.is_calls;
    }
    Step-Refines (begins_wait e) alive h = record {
      queue = record h.queue { worker = waiting };
      is_reached = ReplyQueue.next h.is_reached (ReplyQueue.begins_wait (h.is_worker ∙ e));
      is_queue = h.is_queue;
      is_pushed = h.is_pushed;
      is_worker = refl;
      is_calls = h.is_calls;
    }
    Step-Refines (times_out e) alive h = record {
      queue = record h.queue { worker = running };
      is_reached = ReplyQueue.next h.is_reached (ReplyQueue.times_out (h.is_worker ∙ e));
      is_queue = h.is_queue;
      is_pushed = h.is_pushed;
      is_worker = refl;
      is_calls = h.is_calls;
    }
    Step-Refines (wakes_spuriously e) alive h = record {
      queue = record h.queue { worker = notified };
      is_reached = ReplyQueue.next h.is_reached (ReplyQueue.wakes_spuriously (h.is_worker ∙ e));
      is_queue = h.is_queue;
      is_pushed = h.is_pushed;
      is_worker = refl;
      is_calls = h.is_calls;
    }
    Step-Refines {before} {s} (publishes e) alive h =
        finish-Refines before s e h (publish_front broker s.client).0 alive
    Step-Refines (exits e) alive h = record {
      queue = record h.queue { worker = stopped };
      is_reached = ReplyQueue.next h.is_reached (ReplyQueue.exits (h.is_worker ∙ e));
      is_queue = h.is_queue;
      is_pushed = h.is_pushed;
      is_worker = refl;
      is_calls = h.is_calls;
    }

    -- Whatever the broker does, a system of the client and its reply thread that runs on shows what a state of the
    -- reply queue shows, and that state is reachable: the same queue, the same replies handed over, the
    -- same state of the thread, and the calls that the thread made are the publications of what the queue has sent.
    pub Reach-Refines :
        (c : Client J) {s : System J}
        → Reach broker (begun c) s
        → s.alive ≡ true
        → Refines c.calls s
    Reach-Refines c here alive = record {
      queue = empty_queue;
      is_reached = ReplyQueue.here;
      is_queue = refl;
      is_pushed = refl;
      is_worker = refl;
      is_calls = rw append-nil;
    }
    Reach-Refines c (next r before step) alive = Step-Refines step alive (Reach-Refines c r before)
