-- ===== src/Samples/Scope.antt =====
-- The blocks in which the programs of samples/ use a client.
pub mod Leaving
use ibmiotf_cpp.Base.{ℕ, zero, suc, ℤ, List, Result, ok, err, mqtt_error}
use ibmiotf_cpp.Base.Exec.{Exec, pure, ◌>>◌}
use ibmiotf_cpp.Json.{JsonLib}
use ibmiotf_cpp.Mqtt.{Broker, Call}
use ibmiotf_cpp.Client.{Client}
use ibmiotf_cpp.Client.Lifecycle.{Lifetime, destroy}

-- catch (const mqtt::exception& exc), with the exit code of the handler
unfoldable pub caught : ℤ → Result ℤ → Result ℤ
caught code (ok a) = ok a
caught code (err mqtt_error) = ok code
caught code (err e) = err e

-- The end of the block of a client: its destructor runs, also where the block is left by an exception.
unfoldable pub leave :
    {J : JsonLib} {A : Type 0} → Broker → Lifetime J → Client J → Result A → Result A
leave broker l c result = elim (destroy broker (record l { client = c })) [
  | ok released ↦ result
  | err e ↦ err e
]

-- A block with one client, in a function that catches the exceptions of the MQTT client: the exit code,
-- and the calls of the MQTT client.
unfoldable pub run_block :
    {J : JsonLib} → Broker → ℤ → Lifetime J → Exec (Client J) ℤ → Result ℤ × List Call
unfolding caught leave
run_block broker code l block =
    let (result, c) = block l.client in (caught code (leave broker l c result), c.calls)
