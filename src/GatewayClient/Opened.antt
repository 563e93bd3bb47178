-- ===== src/GatewayClient/Opened.antt =====
-- A gateway of src/IOTP_GatewayClient.cpp that is connected, told by its subscriptions and calls.
use ibmiotf_cpp.Base.{
  ◌≡◌, refl, Bool, true, false, not, ◌&&◌, inl, inr, Bool-cases, some, List, [], ◌∷◌, ◌++◌,
  append_assoc, append-nil, ok, Result, arith,
}
use ibmiotf_cpp.Json.{JsonLib}
use ibmiotf_cpp.Text.{Text, text_eq, text_eq_refl}
use ibmiotf_cpp.Callback.Membership.{contains-append, contains-remove_other}
use ibmiotf_cpp.Mqtt.{Call}
use ibmiotf_cpp.Properties.{Properties, is_quickstart}
use ibmiotf_cpp.Callback.{Callback, check_subscription, contains, remove_subscription}
use ibmiotf_cpp.GatewayClient.{GatewayClient, command_filter, can_initialize}
use ibmiotf_cpp.GatewayClient.Sessions.{can_initialize-quickstart}

pub can_initialize-registered :
    (p : Properties) → can_initialize p ≡ true → is_quickstart p.org_id ≡ false
can_initialize-registered p can = elim (Bool-cases (is_quickstart p.org_id)) [
  | inl q ↦ absurd (ground (arith, can_initialize-quickstart p (rw q refl)))
  | inr q ↦ q
]

-- The device's filter, and the calls that subscribe to the filters.
abbrev filter_of : Text × Text → Text
filter_of (device_type, device_id) = command_filter device_type device_id

abbrev pub own_filter : Properties → Text
own_filter p = command_filter p.device_type p.device_id

abbrev pub filters : List (Text × Text) → List Text
filters [] = []
filters (d ∷ ds) = filter_of d ∷ filters ds

-- No topic of the second list stands before it.
unfoldable pub all_new : List Text → List Text → Bool
all_new before [] = true
all_new before (t ∷ ts) = not (contains t before) && all_new (before ++ (t ∷ [])) ts

pub all_new-append :
    (before xs ys : List Text)
    → all_new before (xs ++ ys) ≡ all_new before xs && all_new (before ++ xs) ys
unfolding all_new
all_new-append before [] ys = rw append-nil (ground arith)
all_new-append before (x ∷ xs) ys =
    ground (arith, all_new-append (before ++ (x ∷ [])) xs ys, append_assoc before (x ∷ []) xs)

-- The topics of a session, the own one first and the last one last, are found when it ends.
pub own_found :
    (own last : Text) (ts : List Text) (cb : Callback)
    → cb.subscriptions ≡ (own ∷ ts) ++ (last ∷ [])
    → check_subscription own cb ≡ true
unfolding check_subscription contains
own_found own last ts cb e = rw (e, text_eq_refl own)

pub last_found :
    (own last : Text) (ts : List Text) (cb : Callback)
    → cb.subscriptions ≡ (own ∷ ts) ++ (last ∷ [])
    → contains last (own ∷ ts) ≡ false
    → check_subscription last (remove_subscription own cb) ≡ true
unfolding check_subscription remove_subscription contains
last_found own last ts cb e n =
    let other : text_eq own last ≡ false = ground arith in
    rw
      (
        e,
        contains-remove_other own last ((own ∷ ts) ++ (last ∷ [])) other,
        contains-append last last ts,
        text_eq_refl last,
      )
      (ground arith)

module _ {J : JsonLib} where
  -- A gateway that is connected, with its subscriptions, its calls and its own topic.
  pub record Open (topics : List Text) (calls : List Call) (own : Text) (g : GatewayClient J)
      : Type 0 where
    pub callback : Callback
    pub is_callback : g.client.callback ≡ some callback
    pub is_topics : callback.subscriptions ≡ topics
    pub is_calls : g.client.calls ≡ calls
    pub is_own : g.gateway_cmd_topic ≡ own

  pub record Opens {A : Type 0} (value : A) (topics : List Text) (calls : List Call) (own : Text)
      (r : Result A × GatewayClient J) : Type 0 where
    pub gateway : GatewayClient J
    pub is_result : r ≡ (ok value, gateway)
    pub is_open : Open topics calls own gateway
