-- ===== src/Proxy/Machine.antt =====
-- What the proxy does: steps on the database, and effects outside it. The environment, that is
-- OpenBao, the network and the targets, answers each effect, and may answer by all that has
-- happened before.
use mathlib.Core.Bool.{Bool, true, false}
use mathlib.Core.Option.{Option, none, some}
use mathlib.Core.List.{List, ◌∷◌}
use Prim.Native.Nat.{ℕ}
use agent_key_vault_jit_acce.Domain.Values.{Time, Bytes}
use agent_key_vault_jit_acce.Store.Action.{World, Result, ok, err, Action}

-- An HTTP request as it is sent.
pub record HttpRequest : Type 0 where
  pub method : Bytes
  pub url : Bytes
  pub headers : List (Bytes × Bytes)
  pub body : Bytes

pub data Effect : Type 0 where
  reads_secret : Bytes → Option ℕ → Effect
  issues_credential : Bytes → Time → Effect
  revokes_lease : Bytes → Effect
  signs : Bytes → Bytes → Bytes → Effect
  sends : HttpRequest → Effect
  connects : Effect
  begins : Effect
  executes : Bytes → List Bytes → Effect
  commits : Effect
  rolls_back : Effect
  disconnects : Effect

-- `context.Err()` after a failure.
pub data ContextState : Type 0 where
  live deadline_exceeded cancelled : ContextState

-- `ErrExecutionDenied` and `PublicError`.
pub data Failure : Type 0 where
  execution_denied : Failure
  public_error : Bytes → Failure

pub data Outcome (A : Type 0) : Type 0 where
  done : A → Outcome A
  failed : Failure → Outcome A

-- The effects so far, the last one first.
pub record Machine : Type 0 where
  pub world : World
  pub trace : List Effect

abbrev pub Proxy : Type 0 → Type 0
Proxy A = Machine → Outcome A × Machine

-- What an effect is answered with, after those that were before it.
abbrev pub Answer : Type 0 → Type 0
Answer A = List Effect → A

unfoldable pub pure : {A : Type 0} → A → Proxy A
pure a m = (done a, m)

unfoldable pub fail : {A : Type 0} → Failure → Proxy A
fail f m = (failed f, m)

unfoldable pub go_on : {A B : Type 0} → (A → Proxy B) → Outcome A × Machine → Outcome B × Machine
go_on f (done a, m) = f a m
go_on f (failed e, m) = (failed e, m)

infixl 5 ◌>>=◌ ◌>>◌
unfoldable pub ◌>>=◌ : {A B : Type 0} → Proxy A → (A → Proxy B) → Proxy B
unfolding go_on
◌>>=◌ p f m = go_on f (p m)

abbrev pub ◌>>◌ : {A B : Type 0} → Proxy A → Proxy B → Proxy B
p >> q = p >>= λ _. q

unfoldable pub when_fail : Bool → Failure → Proxy (Unit {0})
when_fail true f m = (failed f, m)
when_fail false f m = (done tt, m)

unfoldable pub or_fail : {A : Type 0} → Option A → Failure → Proxy A
or_fail none f m = (failed f, m)
or_fail (some a) f m = (done a, m)

unfoldable pub stored : {A : Type 0} → Failure → Machine → Result A × World → Outcome A × Machine
stored f m (ok a, w) = (done a, record m { world = w })
stored f m (err e, w) = (failed f, record m { world = w })

-- A call of the store, or of the guard over it; any error of it is `f`.
unfoldable pub store : {A : Type 0} → Failure → Action A → Proxy A
unfolding stored
store f a m = stored f m (a m.world)

unfoldable pub attempted : {A : Type 0} → Machine → Result A × World → Outcome (Option A) × Machine
attempted m (ok a, w) = (done (some a), record m { world = w })
attempted m (err e, w) = (done none, record m { world = w })

-- A call of the store whose error the proxy looks at.
unfoldable pub try_store : {A : Type 0} → Action A → Proxy (Option A)
unfolding attempted
try_store a m = attempted m (a m.world)

-- An effect, and its answer.
unfoldable pub perform : {A : Type 0} → Answer A → Effect → Proxy A
perform answer e m = (done (answer m.trace), record m { trace = e ∷ m.trace })
