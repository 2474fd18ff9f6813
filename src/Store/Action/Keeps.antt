-- ===== src/Store/Action/Keeps.antt =====
-- What an action may do to the database, and how the parts of a method share it.
use mathlib.Core.Path.{◌≡◌, refl, subst}
use mathlib.Core.Logic.{inl, inr}
use mathlib.Core.Bool.{Bool, true, false}
use mathlib.Core.Option.{Option, none, some}
use agent_key_vault_jit_acce.Prelude.Tests.{Bool-cases}
use agent_key_vault_jit_acce.Prelude.Evolves.{IsPreorder}
use agent_key_vault_jit_acce.Store.Tables.{Db}
use agent_key_vault_jit_acce.Store.Action.{
  World, Result, ok, err, Action, Error, pure, raise, when_raise, or_raise, mask, attempt, caught,
  statement, query, transaction, spend, next_fails, land, settle, go_on, with_error, ◌>>=◌, ◌>>◌,
}

-- What an action does to the database is allowed by `R`, whatever fails.
pub record Keeps (R : Db → Db → Type 0) {A : Type 0} (m : Action A) : Type 0 where
  pub apply : (w : World) → R w.db (m w).1.db

module _ {R : Db → Db → Type 0} (o : IsPreorder R) where
  pub Keeps-pure : {A : Type 0} (a : A) → Keeps R (pure a)
  unfolding pure
  Keeps-pure a = record { apply = λ w. o.reflexive w.db }

  pub Keeps-raise : {A : Type 0} (e : Error) → Keeps R (raise {A = A} e)
  unfolding raise
  Keeps-raise e = record { apply = λ w. o.reflexive w.db }

  pub Keeps-when_raise : (b : Bool) (e : Error) → Keeps R (when_raise b e)
  unfolding when_raise
  Keeps-when_raise true e = record { apply = λ w. o.reflexive w.db }
  Keeps-when_raise false e = record { apply = λ w. o.reflexive w.db }

  pub Keeps-or_raise : {A : Type 0} (a : Option A) (e : Error) → Keeps R (or_raise a e)
  unfolding or_raise
  Keeps-or_raise none e = record { apply = λ w. o.reflexive w.db }
  Keeps-or_raise (some a) e = record { apply = λ w. o.reflexive w.db }

  go_on-keeps :
      {A B : Type 0} (f : A → Action B) (d : Db) (p : Result A × World)
      → ((a : A) → Keeps R (f a))
      → R d p.1.db
      → R d (go_on f p).1.db
  unfolding go_on
  go_on-keeps f d (ok a, w) hf h = o.transitive h ((hf a).apply w)
  go_on-keeps f d (err e, w) hf h = h

  pub Keeps-bind :
      {A B : Type 0} (m : Action A) (f : A → Action B)
      → Keeps R m
      → ((a : A) → Keeps R (f a))
      → Keeps R (m >>= f)
  unfolding ◌>>=◌
  Keeps-bind m f hm hf = record { apply = λ w. go_on-keeps f w.db (m w) hf (hm.apply w) }

  -- What follows a guard may rely on its test.
  pub Keeps-guard :
      {A : Type 0} (b : Bool) (e : Error) (m : Action A)
      → (b ≡ false → Keeps R m)
      → Keeps R (when_raise b e >> m)
  unfolding ◌>>=◌ when_raise go_on
  Keeps-guard true e m h = record { apply = λ w. o.reflexive w.db }
  Keeps-guard false e m h = record { apply = λ w. (h refl).apply w }

  with_error-keeps :
      {A : Type 0} (f : Error → Error) (d : Db) (p : Result A × World)
      → R d p.1.db
      → R d (with_error f p).1.db
  unfolding with_error
  with_error-keeps f d (ok a, w) h = h
  with_error-keeps f d (err e, w) h = h

  pub Keeps-mask : {A : Type 0} (f : Error → Error) (m : Action A) → Keeps R m → Keeps R (mask f m)
  unfolding mask
  Keeps-mask f m h = record { apply = λ w. with_error-keeps f w.db (m w) (h.apply w) }

  caught-keeps : {A : Type 0} (d : Db) (p : Result A × World) → R d p.1.db → R d (caught p).1.db
  unfolding caught
  caught-keeps d (ok a, w) h = h
  caught-keeps d (err e, w) h = h

  pub Keeps-attempt : {A : Type 0} (m : Action A) → Keeps R m → Keeps R (attempt m)
  unfolding attempt
  Keeps-attempt m h = record { apply = λ w. caught-keeps w.db (m w) (h.apply w) }

  land-keeps :
      {A : Type 0} (d : Db) (w : World) (p : Option (A × Db))
      → R d w.db
      → ((a : A) (d' : Db) → p ≡ some (a, d') → R d d')
      → R d (land w p).1.db
  unfolding land
  land-keeps d w none h k = h
  land-keeps d w (some (a, d')) h k = k a d' refl

  pub Keeps-statement :
      {A : Type 0} (f : Db → Option (A × Db))
      → ((d : Db) (a : A) (d' : Db) → f d ≡ some (a, d') → R d d')
      → Keeps R (statement f)
  unfolding statement
  Keeps-statement f h = record {
    apply = λ w. elim (Bool-cases (next_fails w.faults)) [
      | inl e ↦ rw e (o.reflexive w.db)
      | inr e ↦ rw e (land-keeps w.db (spend w) (f w.db) (o.reflexive w.db) (h w.db))
    ];
  }

  pub Keeps-query : {A : Type 0} (f : Db → A) → Keeps R (query f)
  unfolding query
  Keeps-query f = Keeps-statement (λ d. some (f d, d)) λ d a d' e. subst (R d) (cc) (o.reflexive d)

  settle-keeps : {A : Type 0} (d : Db) (p : Result A × World) → R d p.1.db → R d (settle d p).1.db
  unfolding settle
  settle-keeps d (err e, w) h = o.reflexive d
  settle-keeps d (ok a, w) h = elim (Bool-cases (next_fails w.faults)) [
    | inl e ↦ rw e (o.reflexive d)
    | inr e ↦ rw e h
  ]

  pub Keeps-transaction : {A : Type 0} (m : Action A) → Keeps R m → Keeps R (transaction m)
  unfolding transaction
  Keeps-transaction m h = record {
    apply = λ w. elim (Bool-cases (next_fails w.faults)) [
      | inl e ↦ rw e (o.reflexive w.db)
      | inr e ↦ rw e (settle-keeps w.db (m (spend w)) (h.apply (spend w)))
    ];
  }
