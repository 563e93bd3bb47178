-- ===== src/ReplyQueue/Publishing/Published.antt =====
-- What the reply thread publishes, whatever the broker does.
use ibmiotf_cpp.Base.{
  ◌≡◌, refl, sym, ap, ◌∙◌, inl, inr, Bool-cases, List, [], ◌∷◌, ◌++◌, append_assoc, append-nil, map,
  Result, ok, err,
}
use ibmiotf_cpp.Json.{JsonLib}
use ibmiotf_cpp.Mqtt.{Call, Broker, Outcome, refused, accepted}
use ibmiotf_cpp.Reply.{ReplyMessage}
use ibmiotf_cpp.Client.{Client, send_reply, invoke, wait_for_completion}
use ibmiotf_cpp.ReplyQueue.Publishing.{
  publication, publish_reply, publish_front, System, begun, push, finish, Step, reply_pushed,
  begins_wait, times_out, wakes_spuriously, publishes, exits, Reach, here, next,
}

module _ {J : JsonLib} where
  pub map-append :
      (f : ReplyMessage J → Call) (xs ys : List (ReplyMessage J))
      → map f (xs ++ ys) ≡ map f xs ++ map f ys
  map-append f [] ys = refl
  map-append f (x ∷ xs) ys = ap (λ l. f x ∷ l) (map-append f xs ys)

  -- The replies that the thread took, with the calls that it made of them, and those that are left.
  pub record Published (before : List Call) (s : System J) : Type 0 where
    pub taken : List (ReplyMessage J)
    pub is_pushed : taken ++ s.client.reply_msgs ≡ s.pushed
    pub is_calls : s.client.calls ≡ before ++ map publication taken

  module _ (broker : Broker) where
    -- The publication enters the history of the calls, whatever comes of it.
    publish_reply-enters :
        (reply : ReplyMessage J) (c : Client J)
        → (publish_reply broker reply c).1
          ≡ record c { calls = c.calls ++ (publication reply ∷ []) }
    unfolding publish_reply invoke wait_for_completion
    publish_reply-enters reply c = by_outcome (broker c.calls (publication reply)) refl
      where
        by_outcome :
            (o : Outcome)
            → broker c.calls (publication reply) ≡ o
            → (publish_reply broker reply c).1
              ≡ record c { calls = c.calls ++ (publication reply ∷ []) }
        by_outcome refused e = rw (e, invoke, publish_reply)
        by_outcome (accepted token) e = elim (Bool-cases token.returns) [
          | inl r ↦ rw (e, r, wait_for_completion, invoke, publish_reply)
          | inr r ↦ rw (e, r, wait_for_completion, invoke, publish_reply)
        ]

    pub front-empty : (c : Client J) → c.reply_msgs ≡ [] → (publish_front broker c).1 ≡ c
    unfolding publish_front
    front-empty c e =
        let front : List (ReplyMessage J) → Client J = λ queue.
          (elim queue as (λ _. Result (Unit {0}) × Client J) [
            | [] ↦ (ok tt, c)
            | reply ∷ rest ↦ publish_reply broker reply (record c { reply_msgs = rest })
          ]).1 in
        ap front e

    pub front-reply :
        (c : Client J) (reply : ReplyMessage J) (rest : List (ReplyMessage J))
        → c.reply_msgs ≡ reply ∷ rest
        → (publish_front broker c).1
          ≡ record c { reply_msgs = rest; calls = c.calls ++ (publication reply ∷ []) }
    unfolding publish_front
    front-reply c reply rest e =
        rw (e, publish_front) (publish_reply-enters reply (record c { reply_msgs = rest }))

    -- The end of a round keeps what the client shows.
    finish-Published :
        (before : List Call) (s : System J) (result : Result (Unit {0})) (d : Client J)
        (taken : List (ReplyMessage J))
        → taken ++ d.reply_msgs ≡ s.pushed
        → d.calls ≡ before ++ map publication taken
        → Published before (finish s (result, d))
    unfolding finish
    finish-Published before s (ok done) d taken p c = record {
      taken = taken;
      is_pushed = p;
      is_calls = c;
    }
    finish-Published before s (err e) d taken p c = record {
      taken = taken;
      is_pushed = p;
      is_calls = c;
    }

    front-Published :
        (before : List Call) (s : System J) (queue : List (ReplyMessage J))
        → s.client.reply_msgs ≡ queue
        → Published before s
        → (result : Result (Unit {0}))
        → Published before (finish s (result, (publish_front broker s.client).1))
    front-Published before s [] e h result =
        rw (front-empty s.client e)
          (finish-Published before s result s.client h.taken h.is_pushed h.is_calls)
    front-Published before s (reply ∷ rest) e h result = rw (front-reply s.client reply rest e) (
        finish-Published before s result
          (record s.client {
            reply_msgs = rest;
            calls = s.client.calls ++ (publication reply ∷ []);
          })
          (h.taken ++ (reply ∷ []))
          (append_assoc h.taken (reply ∷ []) rest ∙ ap (λ l. h.taken ++ l) (sym e) ∙ h.is_pushed)
          (ap (λ l. l ++ (publication reply ∷ [])) h.is_calls
            ∙ append_assoc before (map publication h.taken) (publication reply ∷ [])
            ∙ ap (λ l. before ++ l) (sym (map-append publication h.taken (reply ∷ [])))))

    Step-Published :
        {before : List Call} {s t : System J}
        → Step broker s t
        → Published before s
        → Published before t
    unfolding push send_reply
    Step-Published {before} {s} (reply_pushed reply) h = record {
      taken = h.taken;
      is_pushed =
          sym (append_assoc h.taken s.client.reply_msgs (reply ∷ []))
          ∙ ap (λ l. l ++ (reply ∷ [])) h.is_pushed;
      is_calls = h.is_calls;
    }
    Step-Published (begins_wait e) h = record {
      taken = h.taken;
      is_pushed = h.is_pushed;
      is_calls = h.is_calls;
    }
    Step-Published (times_out e) h = record {
      taken = h.taken;
      is_pushed = h.is_pushed;
      is_calls = h.is_calls;
    }
    Step-Published (wakes_spuriously e) h = record {
      taken = h.taken;
      is_pushed = h.is_pushed;
      is_calls = h.is_calls;
    }
    Step-Published {before} {s} (publishes e) h =
        front-Published before s s.client.reply_msgs refl h (publish_front broker s.client).0
    Step-Published (exits e) h = record {
      taken = h.taken;
      is_pushed = h.is_pushed;
      is_calls = h.is_calls;
    }

    -- Whatever the broker does, also where a publication throws and ends the program: in every reachable
    -- state, the calls that the thread made are the publications of some replies, each with its topic, its
    -- payload in JSON and its QoS, and these replies, followed by those in the queue, are the replies that
    -- were handed over, in that order. A reply whose publication throws is gone from the queue.
    pub Reach-Published :
        (c : Client J) {s : System J}
        → Reach broker (begun c) s
        → (taken : List (ReplyMessage J)) × (taken ++ s.client.reply_msgs ≡ s.pushed)
          × (s.client.calls ≡ c.calls ++ map publication taken)
    Reach-Published c r = let h = invariant r in (h.taken, h.is_pushed, h.is_calls)
      where
        invariant : {s : System J} → Reach broker (begun c) s → Published c.calls s
        invariant here = record { taken = []; is_pushed = refl; is_calls = rw append-nil }
        invariant (next r alive step) = Step-Published step (invariant r)
