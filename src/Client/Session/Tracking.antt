-- ===== src/Client/Session/Tracking.antt =====
-- What the server holds for a session, and what the client says that it holds.
use ibmiotf_cpp.Base.{
  ℤ, ◌≡◌, refl, Bool, true, false, not, ◌&&◌, ◌||◌, Option, none, some, List, [], ◌∷◌, ◌++◌, arith,
  Bool-cases, inl, inr,
}
use ibmiotf_cpp.Text.{Text, text_eq}
use ibmiotf_cpp.Mqtt.{
  Call, create, connect, set_callback, publish, subscribe, unsubscribe, disconnect,
}
use ibmiotf_cpp.Properties.{Properties, is_quickstart}
use ibmiotf_cpp.Callback.{Callback, check_subscription, remove_subscription}
use ibmiotf_cpp.Callback.Membership.{contains-remove_other}
use ibmiotf_cpp.Client.Session.{connect_options}

-- Does the server hold a subscription to the topic after a call, by the rules of MQTT? `b` is the
-- answer before the call. A clean session starts with none, and ends with the connection.
unfoldable pub holds : Text → Bool → Call → Bool
holds t b (create uri id) = b
holds t b (connect options) = b && not options.clean_session
holds t b set_callback = b
holds t b (publish topic payload qos) = b
holds t b (subscribe topic qos) = text_eq topic t || b
holds t b (unsubscribe topic) = not (text_eq topic t) && b
holds t b disconnect = false

unfoldable pub server_holds : Text → Bool → List Call → Bool
unfolding holds
server_holds t b [] = b
server_holds t b (call ∷ calls) = server_holds t (holds t b call) calls

server_holds-append :
    (t : Text) (b : Bool) (xs ys : List Call)
    → server_holds t b (xs ++ ys) ≡ server_holds t (server_holds t b xs) ys
unfolding server_holds
server_holds-append t b [] ys = refl
server_holds-append t b (x ∷ xs) ys = server_holds-append t (holds t b x) xs ys

pub clean_session-connect_options :
    (p : Properties) (i : ℤ) → (connect_options p i).clean_session ≡ true
unfolding connect_options
clean_session-connect_options p i = elim (Bool-cases (is_quickstart p.org_id)) [
  | inl e ↦ rw e
  | inr e ↦ rw e
]

-- Does the client say that it is subscribed to the topic?
unfoldable pub listed : Text → Option Callback → Bool
listed t none = false
listed t (some cb) = check_subscription t cb

-- Every topic that the server holds after the calls is one that the callback lists.
abbrev pub Tracks : List Call → Option Callback → Type 0
Tracks calls callback = (t : Text) → server_holds t false calls ≡ true → listed t callback ≡ true

pub Tracks-subscribe :
    (calls : List Call) (topic : Text) (qos : ℤ) (cb cb' : Callback)
    → ((t : Text) → check_subscription t cb' ≡ check_subscription t cb || text_eq topic t)
    → Tracks calls (some cb)
    → Tracks (calls ++ (subscribe topic qos ∷ [])) (some cb')
unfolding server_holds holds listed
Tracks-subscribe calls topic qos cb cb' grows k t h =
    rw (grows t) (ground (arith, k t, rw server_holds-append at h))

check-remove_other :
    (t s : Text) (cb : Callback)
    → text_eq t s ≡ false
    → check_subscription s (remove_subscription t cb) ≡ check_subscription s cb
unfolding check_subscription remove_subscription
check-remove_other t s cb e = contains-remove_other t s cb.subscriptions e

pub Tracks-unsubscribe :
    (calls : List Call) (topic : Text) (cb : Callback)
    → Tracks calls (some cb)
    → Tracks (calls ++ (unsubscribe topic ∷ [])) (some (remove_subscription topic cb))
unfolding server_holds holds listed
Tracks-unsubscribe calls topic cb k t h = elim (Bool-cases (text_eq topic t)) [
  | inl e ↦ absurd (ground (arith, e, rw server_holds-append at h))
  | inr e ↦
      rw (check-remove_other topic t cb e) (k t (ground (arith, e, rw server_holds-append at h)))
]

pub Tracks-none :
    (calls more : List Call) (callback : Option Callback)
    → ((t : Text) (b : Bool) → server_holds t b more ≡ false)
    → Tracks (calls ++ more) callback
Tracks-none calls more callback e t h =
    absurd (ground (arith, e t (server_holds t false calls), rw server_holds-append at h))

pub Tracks-same :
    (calls more : List Call) (callback : Option Callback)
    → ((t : Text) (b : Bool) → server_holds t b more ≡ b)
    → Tracks calls callback
    → Tracks (calls ++ more) callback
Tracks-same calls more callback e k t h =
    k t (ground (arith, e t (server_holds t false calls), rw server_holds-append at h))
