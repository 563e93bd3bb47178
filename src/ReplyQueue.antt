-- ===== src/ReplyQueue.antt =====
-- The reply thread of src/IOTP_Client.cpp (_send_reply) and its callers (IOTF_send_reply) as steps.
-- A notification reaches the thread only while it waits, and the thread takes one reply for each
-- wake-up. `pushed` is the history of the calls of IOTF_send_reply.
pub mod Order
pub mod Backlog
pub mod Channel
pub mod Shutdown
pub mod Publishing
use ibmiotf_cpp.Base.{◌≡◌, List, [], ◌∷◌, ◌++◌}

-- The thread is between two rounds, waits for the condition, is awake with a notification, or has
-- left the loop.
pub data Worker : Type 0 where
  running waiting notified stopped : Worker

pub record ReplyQueue (A : Type 0) : Type 0 where
  pub queue : List A
  pub sent : List A
  pub pushed : List A
  pub worker : Worker

-- notify_one
unfoldable pub notify : Worker → Worker
notify waiting = notified
notify running = running
notify notified = notified
notify stopped = stopped

module _ {A : Type 0} where
  abbrev pub empty_queue : ReplyQueue A
  empty_queue = record { queue = []; sent = []; pushed = []; worker = running }

  -- IOTF_send_reply
  unfoldable pub push : A → ReplyQueue A → ReplyQueue A
  unfolding notify
  push reply s = record s {
    queue = s.queue ++ (reply ∷ []);
    pushed = s.pushed ++ (reply ∷ []);
    worker = notify s.worker;
  }

  -- The body of `if (mCond.wait_for(…) != timeout)`: the front of the queue is sent, if there is one.
  unfoldable pub send_front : ReplyQueue A → ReplyQueue A
  send_front s = elim s.queue [
    | [] ↦ record s { worker = running }
    | reply ∷ rest ↦ record s { queue = rest; sent = s.sent ++ (reply ∷ []); worker = running }
  ]

  -- One step of the system. The wait may end with a timeout, or with no notification at all.
  pub data Step (s : ReplyQueue A) : ReplyQueue A → Type 0 where
    reply_pushed : (reply : A) → Step s (push reply s)
    begins_wait : s.worker ≡ running → Step s (record s { worker = waiting })
    times_out : s.worker ≡ waiting → Step s (record s { worker = running })
    wakes_spuriously : s.worker ≡ waiting → Step s (record s { worker = notified })
    sends : s.worker ≡ notified → Step s (send_front s)
    exits : s.worker ≡ running → Step s (record s { worker = stopped })

  pub data Reach (s : ReplyQueue A) : ReplyQueue A → Type 0 where
    here : Reach s s
    next : {t u : ReplyQueue A} → Reach s t → Step t u → Reach s u
