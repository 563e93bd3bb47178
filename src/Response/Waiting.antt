-- ===== src/Response/Waiting.antt =====
-- A response that arrives while the client waits.
use ibmiotf_cpp.Base.{◌≡◌, ap, false, inl, inr, Bool-cases, none, some, ok, List, [], ◌∷◌, arith}
use ibmiotf_cpp.Json.{JsonLib}
use ibmiotf_cpp.Text.{Text, codes, text_eq, text_eq_refl, is_empty}
use ibmiotf_cpp.Device.Info.{get_text}
use ibmiotf_cpp.Response.{
  Responses, lookup, insert, erase, message_arrived, arrivals, take_response, wait_for_response,
}

module _ {ℓ} {V : Type ℓ} where
  lookup-insert : (k : Text) (v : V) (m : List (Text × V)) → lookup k (insert k v m) ≡ some v
  unfolding lookup insert
  lookup-insert k v [] = rw (text_eq_refl k)
  lookup-insert k v ((j, w) ∷ m) = elim (Bool-cases (text_eq j k)) [
    | inl e ↦ rw (e, e)
    | inr e ↦ rw (e, e) (lookup-insert k v m)
  ]

  erase-insert :
      (k : Text) (v : V) (m : List (Text × V)) → lookup k m ≡ none → erase k (insert k v m) ≡ m
  unfolding lookup insert erase
  erase-insert k v [] h = rw (text_eq_refl k)
  erase-insert k v ((j, w) ∷ m) h = elim (Bool-cases (text_eq j k)) [
    | inl e ↦ absurd (ground (arith, e))
    | inr e ↦ rw (e, e) (ap (◌∷◌ (j, w)) (erase-insert k v m (rw e at h)))
  ]

module _ (J : JsonLib) where
  open J use {Value, null}

  arrived_lem :
      (req_id : Text) (payload : Value) (responses : Responses J)
      → get_text J payload (codes "reqId") ≡ ok req_id
      → is_empty req_id ≡ false
      → (message_arrived J payload responses).1 ≡ insert req_id payload responses
  unfolding message_arrived
  arrived_lem req_id payload responses h e = rw (h, e)

  take_response-insert :
      (req_id : Text) (payload : Value) (responses : Responses J)
      → lookup req_id responses ≡ none
      → take_response J req_id (insert req_id payload responses) ≡ (ok payload, responses)
  unfolding take_response
  take_response-insert req_id payload responses h = rw (
    lookup-insert req_id payload responses,
    erase-insert req_id payload responses h,
    take_response,
  )

  -- If one response, with a request id that is not empty, arrives while the client waits for it, and
  -- no response with this id is stored before, the wait gives that response, and leaves the stored
  -- responses as they were.
  pub wait_for_response-arrived :
      (req_id : Text) (payload : Value) (responses : Responses J)
      → get_text J payload (codes "reqId") ≡ ok req_id
      → is_empty req_id ≡ false
      → lookup req_id responses ≡ none
      → wait_for_response J (record { arrived = payload ∷ []; timed_out = false }) req_id responses
        ≡ (ok payload, responses)
  unfolding wait_for_response arrivals
  wait_for_response-arrived req_id payload responses h e free =
      rw (arrived_lem req_id payload responses h e)
        (take_response-insert req_id payload responses free)
