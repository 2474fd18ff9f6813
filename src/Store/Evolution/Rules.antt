-- ===== src/Store/Evolution/Rules.antt =====
-- The rules for a method that is made of statements, at the evolution of the database.
use mathlib.Core.Path.{◌≡◌}
use mathlib.Core.Bool.{Bool, false}
use mathlib.Core.Option.{Option}
use agent_key_vault_jit_acce.Store.Tables.{Db}
use agent_key_vault_jit_acce.Store.Action.{
  Action, Error, pure, raise, when_raise, or_raise, mask, query, transaction, ◌>>=◌, ◌>>◌,
}
use agent_key_vault_jit_acce.Store.Action.Keeps.{
  Keeps, Keeps-pure, Keeps-raise, Keeps-when_raise, Keeps-or_raise, Keeps-bind, Keeps-guard,
  Keeps-mask, Keeps-query, Keeps-transaction,
}
use agent_key_vault_jit_acce.Store.Evolution.{DbEvolves, DbEvolves-preorder}

pub by_pure : {A : Type 0} (a : A) → Keeps DbEvolves (pure a)
by_pure = Keeps-pure DbEvolves-preorder

pub by_raise : {A : Type 0} (e : Error) → Keeps DbEvolves (raise {A = A} e)
by_raise = Keeps-raise DbEvolves-preorder

pub by_when_raise : (b : Bool) (e : Error) → Keeps DbEvolves (when_raise b e)
by_when_raise = Keeps-when_raise DbEvolves-preorder

pub by_or_raise : {A : Type 0} (a : Option A) (e : Error) → Keeps DbEvolves (or_raise a e)
by_or_raise = Keeps-or_raise DbEvolves-preorder

pub by_bind :
    {A B : Type 0} (m : Action A) (f : A → Action B)
    → Keeps DbEvolves m
    → ((a : A) → Keeps DbEvolves (f a))
    → Keeps DbEvolves (m >>= f)
by_bind = Keeps-bind DbEvolves-preorder

pub by_guard :
    {A : Type 0} (b : Bool) (e : Error) (m : Action A)
    → (b ≡ false → Keeps DbEvolves m)
    → Keeps DbEvolves (when_raise b e >> m)
by_guard = Keeps-guard DbEvolves-preorder

pub by_mask :
    {A : Type 0} (f : Error → Error) (m : Action A) → Keeps DbEvolves m → Keeps DbEvolves (mask f m)
by_mask = Keeps-mask DbEvolves-preorder

pub by_query : {A : Type 0} (f : Db → A) → Keeps DbEvolves (query f)
by_query = Keeps-query DbEvolves-preorder

pub by_transaction :
    {A : Type 0} (m : Action A) → Keeps DbEvolves m → Keeps DbEvolves (transaction m)
by_transaction = Keeps-transaction DbEvolves-preorder

pub ruleset keeping =
    (by_pure, by_raise, by_when_raise, by_or_raise, by_bind, by_mask, by_query, by_transaction)
