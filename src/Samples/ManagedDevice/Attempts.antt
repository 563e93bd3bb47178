-- ===== src/Samples/ManagedDevice/Attempts.antt =====
-- The loop of samples/sampleManagedDevice.cpp that asks to be managed.
use ibmiotf_cpp.Base.{ℕ, zero, suc, ◌<◌, ◌≡◌, ◌≢◌, refl, Bool, true, false, Result, ok, err, arith}
use ibmiotf_cpp.Json.{JsonLib}
use ibmiotf_cpp.Mqtt.{Broker}
use ibmiotf_cpp.Client.Manage.{Exchange}
use ibmiotf_cpp.DeviceClient.{DeviceClient, manage}
use ibmiotf_cpp.Samples.ManagedDevice.{manage_attempts}

module _ {J : JsonLib} (broker : Broker) where
  -- So many requests in a row that are refused, from a client to a client.
  pub data Refused : ℕ → (ℕ → Exchange J) → DeviceClient J → DeviceClient J → Type 0 where
    none_yet : {x : ℕ → Exchange J} {d : DeviceClient J} → Refused zero x d d
    one_more :
        {n : ℕ} {x : ℕ → Exchange J} {d e f : DeviceClient J}
        → manage broker (x 0) d ≡ (ok false, e)
        → Refused n (λ k. x (suc k)) e f
        → Refused (suc n) x d f

  -- Where n requests in a row are refused, the loop with n attempts says false.
  pub manage_attempts-exhausted :
      {n : ℕ} {x : ℕ → Exchange J} {d e : DeviceClient J}
      → Refused n x d e
      → manage_attempts broker n x d ≡ (ok false, e)
  unfolding manage_attempts
  manage_attempts-exhausted none_yet = refl
  manage_attempts-exhausted (one_more e r) = rw e (manage_attempts-exhausted r)

  -- The loop stops at the first request that is not refused, if it comes within the n attempts: where k < n
  -- requests in a row are refused, and the next one is granted or ends with an exception, that is the
  -- result of the loop, and the client is as that request leaves it.
  pub manage_attempts-first :
      (n : ℕ) {k : ℕ} {x : ℕ → Exchange J} {d e f : DeviceClient J} {r : Result Bool}
      → Refused k x d e
      → manage broker (x k) e ≡ (r, f)
      → r ≢ ok false
      → k < n
      → manage_attempts broker n x d ≡ (r, f)
  unfolding manage_attempts
  manage_attempts-first zero refused m other less = absurd (omega (arith, less))
  manage_attempts-first (suc n) {r = ok true} none_yet m other less = rw m
  manage_attempts-first (suc n) {r = ok false} none_yet m other less = absurd (other refl)
  manage_attempts-first (suc n) {r = err x} none_yet m other less = rw m
  manage_attempts-first (suc n) (one_more e rest) m other less =
      rw e (manage_attempts-first n rest m other (omega (arith, less)))
