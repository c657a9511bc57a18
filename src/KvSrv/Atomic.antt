-- ===== src/KvSrv/Atomic.antt =====
-- What the key/value service promises: a store in which every operation takes effect at one moment
-- between its call and its return. A missing key reads as the empty text.
use Prim.Native.String.{◌++◌}
use lab_implementation.Common.{
  ℕ, String, Option, none, some, ◌≡◌, update, string_discrete, ℕ_discrete,
}
use lab_implementation.KvSrv.Clerk.{Op, put_op, append_op}

-- `applied` has taken effect and not yet returned. `Put` shows its caller no value.
pub data Progress : Type 0 where
  idle : Progress
  pending_get : (key : String) → Progress
  pending : Op → (key value : String) → Progress
  applied : Option String → Progress
  done : Option String → Progress

pub record Atomic : Type 0 where
  pub store : String → String
  pub client : ℕ → Progress

abbrev pub visible : Op → String → Option String
visible put_op v = none
visible append_op v = some v

abbrev pub effect : Op → String → String → String
effect put_op old value = value
effect append_op old value = old ++ value

abbrev pub IsResting : Progress → Type 0
IsResting idle = Unit
IsResting (done _) = Unit
IsResting _ = ⊥

abbrev move : Atomic → ℕ → Progress → Atomic
move a i p = record a { client = update ℕ_discrete a.client i p }

pub data AtomicStep (a b : Atomic) : Type 0 where
  call_get :
      (i : ℕ) (key : String)
      → IsResting (a.client i)
      → b ≡ move a i (pending_get key)
      → AtomicStep a b
  call_put_append :
      (i : ℕ) (op : Op) (key value : String)
      → IsResting (a.client i)
      → b ≡ move a i (pending op key value)
      → AtomicStep a b
  read :
      (i : ℕ) (key : String)
      → a.client i ≡ pending_get key
      → b ≡ move a i (done (some (a.store key)))
      → AtomicStep a b
  take_effect :
      (i : ℕ) (op : Op) (key value : String)
      → a.client i ≡ pending op key value
      → b ≡ record {
        store = update string_discrete a.store key (effect op (a.store key) value);
        client = update ℕ_discrete a.client i (applied (visible op (a.store key)));
      }
      → AtomicStep a b
  respond :
      (i : ℕ) (r : Option String) → a.client i ≡ applied r → b ≡ move a i (done r) → AtomicStep a b
