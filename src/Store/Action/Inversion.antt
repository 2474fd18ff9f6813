-- ===== src/Store/Action/Inversion.antt =====
-- What is known of an action that ended well, part by part, and of a transaction that did not.
use mathlib.Core.Path.{◌≡◌, refl, ap}
use mathlib.Core.Logic.{inl, inr}
use mathlib.Core.Bool.{Bool, true, false}
use mathlib.Core.Option.{Option, none, some}
use agent_key_vault_jit_acce.Prelude.Tests.{Bool-cases}
use agent_key_vault_jit_acce.Store.Tables.{Db}
use agent_key_vault_jit_acce.Store.Action.{
  World, Result, ok, err, Action, Error, when_raise, or_raise, statement, query, transaction, spend,
  next_fails, land, settle, go_on, mask, with_error, caught, attempt, pure, ◌>>=◌,
}

go_on-ok :
    {A B : Type 0} (f : A → Action B) (p : Result A × World) (b : B)
    → (go_on f p).0 ≡ ok b
    → (a : A) × (p.0 ≡ ok a) × (go_on f p ≡ f a p.1)
unfolding go_on
go_on-ok f (ok a, w) b h = (a, refl, refl)
go_on-ok f (err e, w) b h = absurd (cc)

pub bind-ok :
    {A B : Type 0} (m : Action A) (f : A → Action B) (w : World) (b : B)
    → ((m >>= f) w).0 ≡ ok b
    → (a : A) × ((m w).0 ≡ ok a) × ((m >>= f) w ≡ f a (m w).1)
unfolding ◌>>=◌
bind-ok m f w b h = go_on-ok f (m w) b h

go_on-runs :
    {A B : Type 0} (f : A → Action B) (p : Result A × World) (a : A)
    → p.0 ≡ ok a
    → go_on f p ≡ f a p.1
unfolding go_on
go_on-runs f (ok x, w) a h = ap (λ y. f y w) (cc)
go_on-runs f (err e, w) a h = absurd (cc)

-- The first part ended well, so the second one runs.
pub bind-runs :
    {A B : Type 0} (m : Action A) (f : A → Action B) (w : World) (a : A)
    → (m w).0 ≡ ok a
    → (m >>= f) w ≡ f a (m w).1
unfolding ◌>>=◌
bind-runs m f w a h = go_on-runs f (m w) a h

pub when_raise-ok :
    (b : Bool) (e : Error) (w : World) (u : Unit {0})
    → (when_raise b e w).0 ≡ ok u
    → (b ≡ false) × ((when_raise b e w).1 ≡ w)
unfolding when_raise
when_raise-ok true e w u h = absurd (cc)
when_raise-ok false e w u h = (refl, refl)

pub or_raise-ok :
    {A : Type 0} (o : Option A) (e : Error) (w : World) (a : A)
    → (or_raise o e w).0 ≡ ok a
    → (o ≡ some a) × ((or_raise o e w).1 ≡ w)
unfolding or_raise
or_raise-ok none e w a h = absurd (cc)
or_raise-ok (some x) e w a h = (cc, refl)

land-ok :
    {A : Type 0} (w : World) (o : Option (A × Db)) (a : A)
    → (land w o).0 ≡ ok a
    → o ≡ some (a, (land w o).1.db)
unfolding land
land-ok w none a h = absurd (cc)
land-ok w (some (x, d)) a h = let same : x ≡ a = cc in ap (λ y. some (y, d)) same

pub statement-ok :
    {A : Type 0} (f : Db → Option (A × Db)) (w : World) (a : A)
    → (statement f w).0 ≡ ok a
    → f w.db ≡ some (a, (statement f w).1.db)
unfolding statement
statement-ok f w a h = elim (Bool-cases (next_fails w.faults)) [
  | inl e ↦ absurd (cc (rw e at h))
  | inr e ↦ rw e (land-ok (spend w) (f w.db) a (rw e at h))
]

pub query-ok :
    {A : Type 0} (f : Db → A) (w : World) (a : A)
    → (query f w).0 ≡ ok a
    → (a ≡ f w.db) × ((query f w).1.db ≡ w.db)
unfolding query
query-ok f w a h = let e = statement-ok (λ d. some (f d, d)) w a h in (cc, cc)

settle-ok :
    {A : Type 0} (d : Db) (p : Result A × World) (a : A)
    → (settle d p).0 ≡ ok a
    → (p.0 ≡ ok a) × ((settle d p).1.db ≡ p.1.db)
unfolding settle spend
settle-ok d (err e, w) a h = absurd (cc)
settle-ok d (ok x, w) a h = elim (Bool-cases (next_fails w.faults)) [
  | inl e ↦ absurd (cc (rw e at h))
  | inr e ↦ rw e (rw e at h, refl)
]

pub transaction-ok :
    {A : Type 0} (m : Action A) (w : World) (a : A)
    → (transaction m w).0 ≡ ok a
    → ((m (spend w)).0 ≡ ok a) × ((transaction m w).1.db ≡ (m (spend w)).1.db)
unfolding transaction
transaction-ok m w a h = elim (Bool-cases (next_fails w.faults)) [
  | inl e ↦ absurd (cc (rw e at h))
  | inr e ↦ rw e (settle-ok w.db (m (spend w)) a (rw e at h))
]

with_error-ok :
    {A : Type 0} (f : Error → Error) (p : Result A × World) (a : A)
    → (with_error f p).0 ≡ ok a
    → (p.0 ≡ ok a) × ((with_error f p).1 ≡ p.1)
unfolding with_error
with_error-ok f (ok x, w) a h = (h, refl)
with_error-ok f (err e, w) a h = absurd (cc)

-- Masking an error does not touch a success.
pub mask-ok :
    {A : Type 0} (f : Error → Error) (m : Action A) (w : World) (a : A)
    → (mask f m w).0 ≡ ok a
    → ((m w).0 ≡ ok a) × ((mask f m w).1 ≡ (m w).1)
unfolding mask
mask-ok f m w a h = with_error-ok f (m w) a h

-- Actions that never fail.
abbrev pub Total : {A : Type 0} → Action A → Type 0
Total {A} m = (w : World) → (a : A) × ((m w).0 ≡ ok a)

pub bind-Total :
    {A B : Type 0} (m : Action A) (f : A → Action B)
    → Total m
    → ((a : A) → Total (f a))
    → Total (m >>= f)
bind-Total m f t u w =
    let (a, e) = t w in let (b, r) = u a (m w).1 in (b, rw (bind-runs m f w a e) r)

caught-total : {A : Type 0} (p : Result A × World) → (a : Option A) × ((caught p).0 ≡ ok a)
unfolding caught
caught-total (ok a, w) = (some a, refl)
caught-total (err e, w) = (none, refl)

pub attempt-Total : {A : Type 0} (m : Action A) → Total (attempt m)
unfolding attempt
attempt-Total m w = caught-total (m w)

pub pure-Total : {A : Type 0} (a : A) → Total (pure a)
unfolding pure
pure-Total a w = (a, refl)
