-- ===== src/Models.antt =====
-- 6.5840/src/models/kv.go: the sequential key/value model against which the tests check a server's
-- history. An Operation keeps the input and the output alone.
pub mod Histories
mod Tests
use Prim.Native.String.{◌++◌}
use text.Mathlib.Text.{◌==◌}
use lab_implementation.Common.{
  ℕ, zero, suc, Bool, true, ◌&&◌, List, [], ◌∷◌, String, string_discrete, ite,
}

-- op: 0 is a get, 1 a put, 2 an append, anything else an append that returns the earlier value.
pub record KvInput : Type 0 where
  pub op : ℕ
  pub key : String
  pub value : String

pub record KvOutput : Type 0 where
  pub value : String

pub record Operation : Type 0 where
  pub input : KvInput
  pub output : KvOutput

-- m[key] of Partition.
abbrev pub partition_of : String → List Operation → List Operation
partition_of key [] = []
partition_of key (v ∷ history) =
    let rest = partition_of key history in ite (string_discrete v.input.key key) (v ∷ rest) rest

abbrev pub init : String
init = ""

abbrev pub step_as : ℕ → String → KvInput → KvOutput → Bool × String
step_as zero st inp out = (out.value == st, st)
step_as (suc zero) st inp out = (true, inp.value)
step_as (suc (suc zero)) st inp out = (true, st ++ inp.value)
step_as (suc (suc (suc _))) st inp out = (out.value == st, st ++ inp.value)

abbrev pub step : String → KvInput → KvOutput → Bool × String
step st inp out = step_as inp.op st inp out

-- The model goes along with a history of one key, one operation after the other.
abbrev pub accepts : String → List Operation → Bool
accepts st [] = true
accepts st (v ∷ history) =
    let next = step st v.input v.output in let rest = accepts next.1 history in next.0 && rest
