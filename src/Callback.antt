-- ===== src/Callback.antt =====
-- IOTP_Client::IOTF_Callback of src/IOTP_Client.h and .cpp: the subscriptions and the handlers.
-- The multimap of handlers is a list in the order of insertion, which is the order of equal keys.
-- The message counter is a plain number.
pub mod Lookup
pub mod Membership
use ibmiotf_cpp.Base.{ℕ, suc, Bool, true, false, ◌&&◌, List, [], ◌∷◌, ◌++◌, ◌==◌, if◌then◌else◌}
use ibmiotf_cpp.Text.{Text, text_eq}

-- A handler object: the client's own four, or another one of the application.
pub data Handler : Type 0 where
  response action firmware attribute : Handler
  custom : ℕ → Handler

-- Equality of the shared pointers.
unfoldable pub handler_eq : Handler → Handler → Bool
handler_eq response response = true
handler_eq action action = true
handler_eq firmware firmware = true
handler_eq attribute attribute = true
handler_eq (custom m) (custom n) = m == n
handler_eq _ _ = false

pub record Callback : Type 0 where
  pub arrived_messages : ℕ
  pub subscriptions : List Text
  pub handlers : List (Text × Handler)
  -- user_callback != nullptr
  pub user_callback : Bool

unfoldable pub new_callback : Callback
new_callback = record {
  arrived_messages = 0;
  subscriptions = [];
  handlers = [];
  user_callback = false;
}

unfoldable pub set_callback : Bool → Callback → Callback
set_callback cb c = record c { user_callback = cb }

-- push_back
unfoldable pub add_subscription : Text → Callback → Callback
add_subscription topic c = record c { subscriptions = c.subscriptions ++ (topic ∷ []) }

unfoldable pub add_handler : Text → Handler → Callback → Callback
add_handler topic handler c = record c {
  subscriptions = c.subscriptions ++ (topic ∷ []);
  handlers = c.handlers ++ ((topic, handler) ∷ []);
}

-- std::find, and erase of what it finds
unfoldable pub remove_first : Text → List Text → List Text
remove_first topic [] = []
remove_first topic (t ∷ l) = if text_eq t topic then l else t ∷ remove_first topic l

unfoldable pub remove_subscription : Text → Callback → Callback
unfolding remove_first
remove_subscription topic c = record c { subscriptions = remove_first topic c.subscriptions }

unfoldable pub is_entry : Text → Handler → Text × Handler → Bool
unfolding handler_eq
is_entry topic handler (t, h) = text_eq t topic && handler_eq h handler

unfoldable pub remove_entry : Text → Handler → List (Text × Handler) → List (Text × Handler)
unfolding is_entry
remove_entry topic handler [] = []
remove_entry topic handler (e ∷ l) =
    if is_entry topic handler e then l else e ∷ remove_entry topic handler l

-- the overload with a handler, which leaves mSubscriptions alone
unfoldable pub remove_handler : Text → Handler → Callback → Callback
unfolding remove_entry
remove_handler topic handler c = record c { handlers = remove_entry topic handler c.handlers }

unfoldable pub contains : Text → List Text → Bool
contains topic [] = false
contains topic (t ∷ l) = if text_eq t topic then true else contains topic l

unfoldable pub check_subscription : Text → Callback → Bool
unfolding contains
check_subscription topic c = contains topic c.subscriptions

unfoldable pub contains_entry : Text → Handler → List (Text × Handler) → Bool
unfolding is_entry
contains_entry topic handler [] = false
contains_entry topic handler (e ∷ l) =
    if is_entry topic handler e then true else contains_entry topic handler l

-- the overload with a handler
unfoldable pub check_handler : Text → Handler → Callback → Bool
unfolding contains_entry
check_handler topic handler c = contains_entry topic handler c.handlers

-- mHandlers.equal_range(topic)
unfoldable pub equal_range : Text → List (Text × Handler) → List Handler
equal_range topic [] = []
equal_range topic ((t, h) ∷ l) =
    let rest = equal_range topic l in if text_eq t topic then h ∷ rest else rest

-- The destructor clears what is left; no method fills mMessages.
unfoldable pub destroy : Callback → Callback
destroy c = record c { subscriptions = []; handlers = [] }
