-- ===== src/Response.antt =====
-- src/IOTP_ResponseHandler.h and .cpp. The map from request ids to responses is an association list
-- with one entry for each key.
pub mod Waiting
use ibmiotf_cpp.Base.{
  Bool, true, false, Result, ok, err, erased_iterator, Option, none, some, List, [], ◌∷◌,
  if◌then◌else◌,
}
use ibmiotf_cpp.Base.Exec.{Exec, pure, lift, modify, ◌>>=◌, ◌>>◌}
use ibmiotf_cpp.Json.{JsonLib}
use ibmiotf_cpp.Text.{Text, codes, text_eq, is_empty}
use ibmiotf_cpp.Device.Info.{get_text}

module _ {ℓ} {V : Type ℓ} where
  unfoldable pub lookup : Text → List (Text × V) → Option V
  lookup k [] = none
  lookup k ((j, v) ∷ m) = if text_eq j k then some v else lookup k m

  -- mResponseMessages[k] = v
  unfoldable pub insert : Text → V → List (Text × V) → List (Text × V)
  insert k v [] = (k, v) ∷ []
  insert k v ((j, w) ∷ m) = if text_eq j k then (j, v) ∷ m else (j, w) ∷ insert k v m

  unfoldable pub erase : Text → List (Text × V) → List (Text × V)
  erase k [] = []
  erase k ((j, v) ∷ m) = if text_eq j k then m else (j, v) ∷ erase k m

module _ (J : JsonLib) where
  open J use {Value, null, parse}

  -- mResponseMessages
  abbrev pub Responses : Type 0
  Responses = List (Text × Value)

  -- The destructor: the loop steps on from an iterator that it has erased, unless there is none.
  unfoldable pub destroy : Responses → Result (Unit {0})
  destroy [] = ok tt
  destroy (response ∷ responses) = err erased_iterator

  -- message_arrived with a parsed payload; it never has a reply
  unfoldable pub message_arrived : Value → Exec Responses (Unit {0})
  unfolding get_text insert
  message_arrived payload = do
    req_id ← lift (get_text J payload (codes "reqId"))
    if is_empty req_id then pure tt else modify (insert req_id payload)

  -- message_arrived with a message that is parsed here
  unfoldable pub raw_message_arrived : Text → Exec Responses (Unit {0})
  unfolding message_arrived
  raw_message_arrived text = elim (parse text) [
    | none ↦ pure tt
    | some payload ↦ message_arrived payload
  ]

  -- The responses that arrive, one after the other, in the thread of the MQTT client: an exception
  -- there does not reach the waiting thread.
  unfoldable pub arrivals : List Value → Responses → Responses
  unfolding message_arrived
  arrivals [] responses = responses
  arrivals (payload ∷ rest) responses = arrivals rest (message_arrived payload responses).1

  -- What comes of mCond.wait_for: the responses that arrive before the lock is held again, and
  -- whether the status is `timeout`.
  pub record Wake : Type 0 where
    pub arrived : List Value
    pub timed_out : Bool

  -- mResponseMessages.find, and erase if it is found
  unfoldable pub take_response : Text → Exec Responses Value
  unfolding lookup erase
  take_response req_id responses = elim (lookup req_id responses) [
    | none ↦ pure null responses
    | some payload ↦ (do modify (erase req_id); pure payload) responses
  ]

  unfoldable pub wait_for_response : Wake → Text → Exec Responses Value
  unfolding arrivals take_response
  wait_for_response wake req_id = do
    modify (arrivals wake.arrived)
    if wake.timed_out then pure null else take_response req_id
