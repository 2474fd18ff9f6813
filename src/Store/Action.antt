-- ===== src/Store/Action.antt =====
-- A repository method: it runs SQL statements against the database, and any statement may fail.
-- `faults` says of each coming statement (a begin and a commit too) whether the driver fails it;
-- behind its end nothing fails. A statement that violates a constraint fails as well.
pub mod Keeps
pub mod Inversion
pub mod Ensures
use mathlib.Core.Bool.{Bool, true, false}
use mathlib.Core.Option.{Option, none, some}
use mathlib.Core.List.{List, [], ◌∷◌}
use agent_key_vault_jit_acce.Prelude.Tests.{if◌then◌else◌}
use agent_key_vault_jit_acce.Store.Tables.{Db}

-- The sentinel errors that callers tell apart; `internal` is any other error.
pub data Error : Type 0 where
  invalid_input invalid_request decision_conflict approval_expired approval_forbidden : Error
  claim_denied context_denied task_unavailable revoke_forbidden revoke_unavailable : Error
  execution_state_failed reclaim_failed : Error
  forbidden unavailable : Error
  already_initialized invalid_credentials not_found registration_unavailable : Error
  username_unavailable unauthorized agent_forbidden : Error
  internal : Error

pub data Result (A : Type 0) : Type 0 where
  ok : A → Result A
  err : Error → Result A

pub record World : Type 0 where
  pub db : Db
  pub faults : List Bool

abbrev pub Action : Type 0 → Type 0
Action A = World → Result A × World

-- Does the driver fail the next statement?
unfoldable pub next_fails : List Bool → Bool
next_fails [] = false
next_fails (b ∷ bs) = b

unfoldable pub rest_faults : List Bool → List Bool
rest_faults [] = []
rest_faults (b ∷ bs) = bs

unfoldable pub spend : World → World
unfolding rest_faults
spend w = record w { faults = rest_faults w.faults }

unfoldable pub pure : {A : Type 0} → A → Action A
pure a w = (ok a, w)

unfoldable pub raise : {A : Type 0} → Error → Action A
raise e w = (err e, w)

unfoldable pub go_on : {A B : Type 0} → (A → Action B) → Result A × World → Result B × World
go_on f (ok a, w) = f a w
go_on f (err e, w) = (err e, w)

infixl 5 ◌>>=◌ ◌>>◌
unfoldable pub ◌>>=◌ : {A B : Type 0} → Action A → (A → Action B) → Action B
unfolding go_on
◌>>=◌ m f w = go_on f (m w)

abbrev pub ◌>>◌ : {A B : Type 0} → Action A → Action B → Action B
m >> k = m >>= λ _. k

unfoldable pub when_raise : Bool → Error → Action (Unit {0})
when_raise true e w = (err e, w)
when_raise false e w = (ok tt, w)

-- An optional value, or the error.
unfoldable pub or_raise : {A : Type 0} → Option A → Error → Action A
or_raise none e w = (err e, w)
or_raise (some a) e w = (ok a, w)

unfoldable pub with_error : {A : Type 0} → (Error → Error) → Result A × World → Result A × World
with_error f (ok a, w) = (ok a, w)
with_error f (err e, w) = (err (f e), w)

-- An error of `m` is replaced, as where the caller wraps it or hides it.
unfoldable pub mask : {A : Type 0} → (Error → Error) → Action A → Action A
unfolding with_error
mask f m w = with_error f (m w)

unfoldable pub caught : {A : Type 0} → Result A × World → Result (Option A) × World
caught (ok a, w) = (ok (some a), w)
caught (err e, w) = (ok none, w)

-- An error is looked at and passed over; what was written before it stays.
unfoldable pub attempt : {A : Type 0} → Action A → Action (Option A)
unfolding caught
attempt m w = caught (m w)

unfoldable pub caught_if :
    {A : Type 0} → (Error → Bool) → Result A × World → Result (Option A) × World
caught_if test (ok a, w) = (ok (some a), w)
caught_if test (err e, w) = if test e then (ok none, w) else (err e, w)

-- `errors.Is`: an error that `test` knows is no error, but no value either.
unfoldable pub unless_error : {A : Type 0} → (Error → Bool) → Action A → Action (Option A)
unfolding caught_if
unless_error test m w = caught_if test (m w)

unfoldable pub land : {A : Type 0} → World → Option (A × Db) → Result A × World
land w none = (err internal, w)
land w (some (a, d)) = (ok a, record w { db = d })

-- One SQL statement; `none` is a violated constraint.
unfoldable pub statement : {A : Type 0} → (Db → Option (A × Db)) → Action A
unfolding land spend next_fails
statement f w = if next_fails w.faults then (err internal, spend w) else land (spend w) (f w.db)

unfoldable pub query : {A : Type 0} → (Db → A) → Action A
unfolding statement
query f = statement (λ d. some (f d, d))

unfoldable pub settle : {A : Type 0} → Db → Result A × World → Result A × World
unfolding spend next_fails
settle d (err e, w) = (err e, record w { db = d })
settle d (ok a, w) =
    if next_fails w.faults then (err internal, record (spend w) { db = d }) else (ok a, spend w)

-- `BeginTx`, the body, `Commit`; the deferred `Rollback` undoes the writes of a failed body. A
-- `Commit` that returns an error is taken to have rolled back, and transactions, which the code opens
-- at READ COMMITTED, are taken as serial steps.
unfoldable pub transaction : {A : Type 0} → Action A → Action A
unfolding settle spend next_fails
transaction m w = if next_fails w.faults then (err internal, spend w) else settle w.db (m (spend w))
