-- ===== src/Reply/Contents.antt =====
-- What the reply to a request holds.
use ibmiotf_cpp.Base.{
  ℤ, ◌≡◌, refl, ◌∙◌, ok, some, arith, Result, ◌>>=◌, [], true, false, inl, inr, Bool-cases,
  if◌then◌else◌, ap, sym,
}
use ibmiotf_cpp.Json.{JsonLib}
use ibmiotf_cpp.Text.{Text, codes, text_eq, is_empty}
use ibmiotf_cpp.Topics.{device_response_topic}
use ibmiotf_cpp.Device.Info.{put_text, get_text}
use ibmiotf_cpp.Device.Info.RoundTrip.{has_members-put_text, get_text-put_text_self, get_text-null}
use ibmiotf_cpp.Reply.{ActionResponse, ReplyMessage, response_reply}

module _ (J : JsonLib) where
  open J use {
    Value, null, string, int, get, set, has_members, has_members-null, has_members-set,
    get-set_self, get-set_ne, as_string-string, get-null,
  }

  -- `reply` answers the request with id `id` by `rsp`, on the response topic, with QoS 1.
  pub record IsReply (rsp : ActionResponse) (id : Text) (reply : ReplyMessage J) : Type 0 where
    pub topic : reply.topic ≡ device_response_topic
    pub qos : reply.qos ≡ ibmiotf_cpp.Base.pos 1
    pub rc : (d : Value) → get reply.payload (codes "rc") d ≡ ok (int rsp.rc)
    pub req_id : (d : Value) → get reply.payload (codes "reqId") d ≡ ok (string id)
    pub message : get_text J reply.payload (codes "message") ≡ ok rsp.message

  get-put_text_ne :
      (v d : Value) (k j t : Text)
      → has_members v ≡ true
      → text_eq k j ≡ false
      → get (put_text J v k t) j d ≡ get v j d
  unfolding put_text
  get-put_text_ne v d k j t h ne = elim (Bool-cases (is_empty t)) [
    | inl e ↦ rw e
    | inr e ↦ rw e (get-set_ne v k j (string t) d h ne)
  ]

  get_text-set_ne :
      (v x : Value) (k j : Text)
      → has_members v ≡ true
      → text_eq k j ≡ false
      → get_text J (set v k x) j ≡ get_text J v j
  unfolding get_text
  get_text-set_ne v x k j h ne = rw (get-set_ne v k j x (string []) h ne)

  pub response_reply-IsReply :
      (rsp : ActionResponse) (request : Value) (id : Text)
      → get_text J request (codes "reqId") ≡ ok id
      → (reply : ReplyMessage J) × (response_reply J (some rsp) request ≡ ok reply)
        × IsReply rsp id reply
  unfolding response_reply codes text_eq
  response_reply-IsReply rsp request id e = (
    _,
    rw e,
    record {
      topic = refl;
      qos = refl;
      rc = λ d.
          get-set_ne _ _ _ _ d m refl
          ∙ get-put_text_ne _ d _ _ _ (has_members-set _ _ _) refl
          ∙ get-set_self _ _ _ d has_members-null;
      req_id = λ d. get-set_self _ _ _ d m;
      message =
          get_text-set_ne _ _ _ _ m refl
          ∙ get_text-put_text_self J _ _ rsp.message (has_members-set _ _ _)
              (get_text-set_ne null _ _ _ has_members-null refl ∙ get_text-null J _);
    },
  )
    where
      m :
          has_members
            (put_text J (set null (codes "rc") (int rsp.rc)) (codes "message") rsp.message)
          ≡ true
      m = has_members-put_text J _ _ _ (has_members-set _ _ _)
