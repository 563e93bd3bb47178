-- ===== src/Client/Manage/Requests.antt =====
-- What a request of device management comes to when the broker accepts the message.
use ibmiotf_cpp.Base.{
  ℕ, ◌+◌, ◌%◌, ℤ, pos, negsuc, int_eq, ◌≡◌, ap, true, false, ok, none, List, [], ◌∷◌, ◌++◌,
  if◌then◌else◌,
}
use ibmiotf_cpp.Json.{JsonLib}
use ibmiotf_cpp.Text.{Text, codes, size_mod}
use ibmiotf_cpp.Text.Decimal.{decimal, is_empty-decimal}
use ibmiotf_cpp.Mqtt.{Broker, Accepts, publish}
use ibmiotf_cpp.Device.Info.{get_text}
use ibmiotf_cpp.Response
use ibmiotf_cpp.Response.{lookup, arrivals}
use ibmiotf_cpp.Response.Waiting.{wait_for_response-arrived}
use ibmiotf_cpp.Client.{Client, wait_for_completion, invoke-accepted}
use ibmiotf_cpp.Client.Session.{send_message, next_req_id, publish_topic}
use ibmiotf_cpp.Client.Manage.{request, wait_for_response}

-- The request id of the next message.
abbrev pub req_id_at : {J : JsonLib} → ℕ → Client J → Text
req_id_at now c = decimal (((c.req_counter + 1) % size_mod + now) % size_mod)

-- The payload of a request: the value under "d", unless it is null, and the request id.
abbrev pub request_payload : (J : JsonLib) → Text → JsonLib.Value J → JsonLib.Value J
request_payload J req_id value =
    J.set (if J.is_null value then J.null else J.set J.null (codes "d") value) (codes "reqId")
      (J.string req_id)

module _ {J : JsonLib} (broker : Broker) (accepting : Accepts broker) where
  pub send_message-accepted :
      (now : ℕ) (topic : Text) (value : JsonLib.Value J) (qos : ℤ) (c : Client J)
      → send_message broker now topic value qos c ≡ (
        ok (req_id_at now c),
        record c {
          req_counter = (c.req_counter + 1) % size_mod;
          calls =
              c.calls
              ++ (publish topic (J.write (request_payload J (req_id_at now c) value)) qos ∷ []);
        },
      )
  unfolding send_message next_req_id publish_topic wait_for_completion
  send_message-accepted now topic value qos c = rw (invoke-accepted broker accepting)

  -- Where every call of the broker succeeds, a request whose wait times out, and during whose wait
  -- no response arrives, is refused, whatever arrived before the client waited: also if the response
  -- that grants it did.
  pub request-timeout :
      (now : ℕ) (early : List (JsonLib.Value J)) (topic : Text) (value : JsonLib.Value J)
      (c : Client J)
      → (request broker
          (record { now = now; early = early; wake = record { arrived = []; timed_out = true } })
          topic
          value
          c).0
        ≡ ok false
  unfolding request wait_for_response Response.wait_for_response arrivals
  request-timeout now early topic value c =
      rw (
        send_message-accepted now topic value (pos 1) c,
        is_empty-decimal,
        J.get-null,
        J.as_int-int,
      )

  pub request_lem :
      (now : ℕ) (topic : Text) (value payload code : JsonLib.Value J) (rc : ℤ) (c : Client J)
      → get_text J payload (codes "reqId") ≡ ok (req_id_at now c)
      → lookup (req_id_at now c) c.responses ≡ none
      → J.get payload (codes "rc") (J.int (negsuc 0)) ≡ ok code
      → J.as_int code ≡ ok rc
      → request broker
          (record {
            now = now;
            early = [];
            wake = record { arrived = payload ∷ []; timed_out = false };
          })
          topic
          value
          c
        ≡ (
          ok (int_eq rc (pos 200)),
          record c {
            req_counter = (c.req_counter + 1) % size_mod;
            calls =
                c.calls
                ++ (publish topic (J.write (request_payload J (req_id_at now c) value)) (pos 1)
                    ∷ []);
          },
        )
  unfolding request wait_for_response arrivals
  request_lem now topic value payload code rc c h free e i = rw (
    send_message-accepted now topic value (pos 1) c,
    is_empty-decimal,
    wait_for_response-arrived J (req_id_at now c) payload c.responses h (is_empty-decimal _) free,
    e,
    i,
  )

  -- Where every call of the broker succeeds, a request whose response arrives during the wait is
  -- granted exactly when the response has the return code 200. No response with its id is stored
  -- before, none arrives before the wait, and the response has an integer code.
  pub request-answered :
      (now : ℕ) (topic : Text) (value payload code : JsonLib.Value J) (rc : ℤ) (c : Client J)
      → get_text J payload (codes "reqId") ≡ ok (req_id_at now c)
      → lookup (req_id_at now c) c.responses ≡ none
      → J.get payload (codes "rc") (J.int (negsuc 0)) ≡ ok code
      → J.as_int code ≡ ok rc
      → (request broker
          (record {
            now = now;
            early = [];
            wake = record { arrived = payload ∷ []; timed_out = false };
          })
          topic
          value
          c).0
        ≡ ok (int_eq rc (pos 200))
  request-answered now topic value payload code rc c h free e i =
      ap (λ r. r.0) (request_lem now topic value payload code rc c h free e i)
