-- ===== src/Samples/Scope/Leaving.antt =====
-- How the blocks of the programs of samples/ end, and what their loops call.
use ibmiotf_cpp.Base.{
  ℕ, zero, suc, ◌+◌, ◌≡◌, refl, ap, ◌∙◌, true, inl, inr, Bool-cases, List, [], ◌∷◌, ◌++◌,
  append_assoc, append-nil, Result, ok, err, indeterminate_pointer, arith,
}
use ibmiotf_cpp.Base.Exec.{Exec, rounds}
use ibmiotf_cpp.Json.{JsonLib}
use ibmiotf_cpp.Mqtt.{
  Broker, Call, Accepts, create, connect, set_callback, publish, subscribe, unsubscribe, disconnect,
}
use ibmiotf_cpp.Response
use ibmiotf_cpp.Client.{Client}
use ibmiotf_cpp.Client.Lifecycle.{Lifetime, is_made, async_clients, delete_client, release, destroy}
use ibmiotf_cpp.Samples.Scope.{leave}

-- How many MQTT clients are asked for.
unfoldable pub creates : List Call → ℕ
creates [] = 0
creates (create uri id ∷ calls) = suc (creates calls)
creates (call ∷ calls) = creates calls

pub creates-append : (xs ys : List Call) → creates (xs ++ ys) ≡ creates xs + creates ys
unfolding creates
creates-append [] ys = omega arith
creates-append (create uri id ∷ xs) ys = omega (arith, creates-append xs ys)
creates-append (connect options ∷ xs) ys = creates-append xs ys
creates-append (set_callback ∷ xs) ys = creates-append xs ys
creates-append (publish topic payload qos ∷ xs) ys = creates-append xs ys
creates-append (subscribe topic qos ∷ xs) ys = creates-append xs ys
creates-append (unsubscribe topic ∷ xs) ys = creates-append xs ys
creates-append (disconnect ∷ xs) ys = creates-append xs ys

-- The calls of so many rounds.
unfoldable pub repeat : ℕ → List Call → List Call
repeat zero calls = []
repeat (suc n) calls = calls ++ repeat n calls

pub creates-repeat : (n : ℕ) (calls : List Call) → creates calls ≡ 0 → creates (repeat n calls) ≡ 0
unfolding repeat creates
creates-repeat zero calls e = refl
creates-repeat (suc n) calls e =
    omega (arith, creates-append calls (repeat n calls), creates-repeat n calls e)

made-creates :
    (broker : Broker)
    → Accepts broker
    → (before calls : List Call) → async_clients broker before calls ≡ creates calls
unfolding async_clients creates is_made
made-creates broker accepting before [] = refl
made-creates broker accepting before (create uri id ∷ calls) =
    rw accepting (ap suc (made-creates broker accepting _ calls))
made-creates broker accepting before (connect options ∷ calls) =
    rw accepting (made-creates broker accepting _ calls)
made-creates broker accepting before (set_callback ∷ calls) =
    rw accepting (made-creates broker accepting _ calls)
made-creates broker accepting before (publish topic payload qos ∷ calls) =
    rw accepting (made-creates broker accepting _ calls)
made-creates broker accepting before (subscribe topic qos ∷ calls) =
    rw accepting (made-creates broker accepting _ calls)
made-creates broker accepting before (unsubscribe topic ∷ calls) =
    rw accepting (made-creates broker accepting _ calls)
made-creates broker accepting before (disconnect ∷ calls) =
    rw accepting (made-creates broker accepting _ calls)

module _ {J : JsonLib} where
  pub rounds_lem :
      (n : ℕ) (body : Exec (Client J) (Unit {0})) (calls : List Call) (c : Client J)
      → ((d : Client J)
          → d.properties ≡ c.properties
          → body d ≡ (ok tt, record d { calls = d.calls ++ calls }))
      → rounds n body c ≡ (ok tt, record c { calls = c.calls ++ repeat n calls })
  unfolding rounds repeat
  rounds_lem zero body calls c h = rw append-nil
  rounds_lem (suc n) body calls c h =
      rw (h c refl)
        (rounds_lem n body calls (record c { calls = c.calls ++ calls }) h ∙ rw append_assoc)

  -- A client that made no call of the MQTT client.
  pub leave-unmade :
      {A : Type 0} (broker : Broker) (l : Lifetime J) (c : Client J) (result : Result A)
      → l.reply_thread ≡ true
      → c.calls ≡ []
      → leave broker l c result ≡ err indeterminate_pointer
  unfolding leave destroy release async_clients delete_client
  leave-unmade broker l c result t e = rw (t, e, leave)

  -- A client that made some, and has no response left.
  pub leave-made :
      {A : Type 0} (broker : Broker)
      → Accepts broker
      → (k : ℕ) (l : Lifetime J) (c : Client J) (result : Result A) → l.reply_thread ≡ true
      → creates c.calls ≡ suc k
      → c.responses ≡ []
      → leave broker l c result ≡ result
  unfolding leave destroy release delete_client Response.destroy
  leave-made broker accepting k l c result t e none_left = elim (Bool-cases l.response_handler) [
    | inl h ↦ rw (t, made-creates broker accepting [] c.calls ∙ e, h, none_left, leave)
    | inr h ↦ rw (t, made-creates broker accepting [] c.calls ∙ e, h, leave)
  ]
