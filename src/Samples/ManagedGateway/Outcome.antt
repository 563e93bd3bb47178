-- ===== src/Samples/ManagedGateway/Outcome.antt =====
-- How samples/sampleManagedGateway.cpp ends.
use ibmiotf_cpp.Base.{
  ℤ, pos, ◌≡◌, refl, ap, ◌∙◌, Bool, true, false, inl, inr, Bool-cases, Option, none, some, List, [],
  Result, ok, err, indeterminate_pointer, arith,
}
use ibmiotf_cpp.Base.Exec.{Exec, pure}
use ibmiotf_cpp.Json.{JsonLib}
use ibmiotf_cpp.Text.{Text, is_empty}
use ibmiotf_cpp.Mqtt.{Broker, Call}
use ibmiotf_cpp.Properties.{Properties, default_properties}
use ibmiotf_cpp.Properties.Config.{member}
use ibmiotf_cpp.Properties.Config.Steps.{Triple, sequence, member-keeps}
use ibmiotf_cpp.Client.Lifecycle.{construct}
use ibmiotf_cpp.GatewayClient.{
  GatewayClient, can_initialize, initialize_mqtt_client, connect, new_gateway,
}
use ibmiotf_cpp.Samples.Configuration.{
  tested, read_gateway_properties, initialize_gateway_properties,
}
use ibmiotf_cpp.Samples.Scope.{caught, leave}
use ibmiotf_cpp.Samples.Scope.Leaving.{leave-unmade}
use ibmiotf_cpp.Samples.ManagedGateway.{block, main}

abbrev Unsecured : Properties → Type 0
Unsecured p = p.trust_store ≡ []

module _ (J : JsonLib) (root : JsonLib.Value J) where
  tested-Triple :
      (key : Text) (rest : Text → Exec Properties Bool)
      → ((t : Text) → Triple Unsecured (rest t) (λ _. Unsecured))
      → Triple Unsecured (tested J root key rest) (λ _. Unsecured)
  unfolding tested
  tested-Triple key rest t =
      sequence Unsecured (member J root key []) _ (λ _. Unsecured) (λ _. Unsecured)
        (member-keeps J Unsecured root key [])
        (λ text. elim (Bool-cases (is_empty text)) [
          | inl e ↦ record { run = λ p h. rw e (λ b i. h) }
          | inr e ↦ record { run = λ p h. rw e ((t text).run p h) }
        ])

  read_gateway_properties-Triple :
      Triple Unsecured (read_gateway_properties J root) (λ _. Unsecured)
  unfolding read_gateway_properties
  read_gateway_properties-Triple = tested-Triple _ _ (λ t1. tested-Triple _ _ (λ t2.
      tested-Triple _ _ (λ t3.
        tested-Triple _ _ (λ t4.
          tested-Triple _ _ (λ t5. tested-Triple _ _ (λ t6. record { run = λ p h b i. h }))))))

Unsecured-can_initialize : (p : Properties) → Unsecured p → can_initialize p ≡ false
unfolding can_initialize is_empty
Unsecured-can_initialize p h =
    let bare : is_empty p.trust_store ≡ true = ap is_empty h in ground (arith, bare)

module _ (J : JsonLib) (format_time : ℤ → Text) (broker : Broker) (p : Properties) where
  connect-refused :
      (g : GatewayClient J)
      → can_initialize g.client.properties ≡ false
      → connect broker g ≡ (ok false, g)
  unfolding connect initialize_mqtt_client
  connect-refused g e = rw e

  -- The calls of the MQTT client and the result, where `main` has read its configuration.
  unfoldable outcome : Result ℤ × List Call
  unfolding new_gateway construct caught leave block
  outcome =
      let (result, g) = block broker (new_gateway J format_time p) in
      (
        leave broker (construct J format_time p false false) g.client (caught (pos 1) result),
        g.client.calls,
      )

  outcome-refused : can_initialize p ≡ false → outcome ≡ (err indeterminate_pointer, [])
  unfolding outcome block new_gateway construct caught
  outcome-refused e =
      let g = new_gateway J format_time p in
      rw (
        connect-refused g e,
        leave-unmade broker (construct J format_time p false false) g.client (ok (pos 1)) refl refl,
      )

read-Unsecured :
    (J : JsonLib) (file : Option Text) (p : Properties)
    → Unsecured p
    → (initialize_gateway_properties J file p).0 ≡ ok true
    → Unsecured (initialize_gateway_properties J file p).1
unfolding initialize_gateway_properties
read-Unsecured J none p h e = (read_gateway_properties-Triple J J.null).run p h true e
read-Unsecured J (some text) p h e = parsed (J.parse text) e
  where
    parsed :
        (r : Option (JsonLib.Value J))
        → (elim r as (λ _. Exec Properties Bool) [
          | none ↦ pure false
          | some root ↦ read_gateway_properties J root
        ]
            p).0
          ≡ ok true
        → Unsecured
            (elim r as (λ _. Exec Properties Bool) [
              | none ↦ pure false
              | some root ↦ read_gateway_properties J root
            ]
              p).1
    parsed none i = absurd (ground arith)
    parsed (some root) i = (read_gateway_properties-Triple J root).run p h true i

-- Whatever the broker does, the sample of a managed gateway never connects: where its configuration is
-- read with success, it makes no call of the MQTT client, as it never sets the trust store that connect
-- asks for, and it ends as the destructor of its client deletes an indeterminate pointer.
pub main-refused :
    (J : JsonLib) (format_time : ℤ → Text) (broker : Broker) (file : Option Text)
    → (initialize_gateway_properties J file default_properties).0 ≡ ok true
    → main J format_time broker (some file) ≡ (err indeterminate_pointer, [])
unfolding main outcome
main-refused J format_time broker file e =
    let p = (initialize_gateway_properties J file default_properties).1 in
    let finish : Result Bool → Result ℤ × List Call = λ r. elim r [
      | err x ↦ (err x, [])
      | ok false ↦ (ok (pos 1), [])
      | ok true ↦ outcome J format_time broker p
    ] in
    ap finish e
    ∙ outcome-refused J format_time broker p
        (Unsecured-can_initialize p (read-Unsecured J file default_properties refl e))
