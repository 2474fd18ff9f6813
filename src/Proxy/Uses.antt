-- ===== src/Proxy/Uses.antt =====
-- When the proxies do anything outside the database.
use mathlib.Core.Path.{◌≡◌, refl, ◌∙◌, ap}
use mathlib.Core.Logic.{◌⊎◌, inl, inr}
use mathlib.Core.Bool.{Bool, true, false}
use agent_key_vault_jit_acce.Store.Action.{World, Result, ok, err, Action}
use agent_key_vault_jit_acce.Proxy.Machine.{
  Proxy, Machine, Outcome, done, failed, Failure, go_on, when_fail, store, stored, pure, ◌>>=◌,
}

-- The part adds no effect.
pub record Quiet {A : Type 0} (p : Proxy A) : Type 0 where
  pub apply : (m : Machine) → (p m).1.trace ≡ m.trace

pub Quiet-pure : {A : Type 0} (a : A) → Quiet (pure a)
unfolding pure
Quiet-pure a = record { apply = λ m. refl }

pub Quiet-when_fail : (b : Bool) (f : Failure) → Quiet (when_fail b f)
unfolding when_fail
Quiet-when_fail true f = record { apply = λ m. refl }
Quiet-when_fail false f = record { apply = λ m. refl }

stored-trace :
    {A : Type 0} (f : Failure) (m : Machine) (r : Result A × World)
    → (stored f m r).1.trace ≡ m.trace
unfolding stored
stored-trace f m (ok a, w) = refl
stored-trace f m (err e, w) = refl

pub Quiet-store : {A : Type 0} (f : Failure) (a : Action A) → Quiet (store f a)
unfolding store
Quiet-store f a = record { apply = λ m. stored-trace f m (a m.world) }

go_on-trace :
    {A B : Type 0} (f : A → Proxy B) (r : Outcome A × Machine)
    → ((a : A) → Quiet (f a))
    → (go_on f r).1.trace ≡ r.1.trace
unfolding go_on
go_on-trace f (done a, m) h = (h a).apply m
go_on-trace f (failed e, m) h = refl

pub Quiet-bind :
    {A B : Type 0} (p : Proxy A) (f : A → Proxy B)
    → Quiet p
    → ((a : A) → Quiet (f a))
    → Quiet (p >>= f)
unfolding ◌>>=◌
Quiet-bind p f hp hf = record { apply = λ m. go_on-trace f (p m) hf ∙ hp.apply m }

go_on-done :
    {A B : Type 0} (f : A → Proxy B) (r : Outcome A × Machine) (m : Machine)
    → r.1.trace ≡ m.trace
    → ((go_on f r).1.trace ≡ m.trace) ⊎ ((a : A) × (r.0 ≡ done a))
unfolding go_on
go_on-done f (done a, n) m h = inr (a, refl)
go_on-done f (failed e, n) m h = inl h

-- After a quiet part that fails there is no effect.
pub bind-trace :
    {A B : Type 0} (p : Proxy A) (f : A → Proxy B) (m : Machine)
    → Quiet p
    → (((p >>= f) m).1.trace ≡ m.trace) ⊎ ((a : A) × ((p m).0 ≡ done a))
unfolding ◌>>=◌
bind-trace p f m h = go_on-done f (p m) m (h.apply m)

go_on-cases :
    {A B : Type 0} (f : A → Proxy B) (r : Outcome A × Machine)
    → ((a : A) × (r.0 ≡ done a) × (go_on f r ≡ f a r.1)) ⊎ ((go_on f r).1 ≡ r.1)
unfolding go_on
go_on-cases f (done a, n) = inl (a, refl, refl)
go_on-cases f (failed e, n) = inr refl

-- The first part is done and the second one runs, or the machine is where the first one left it.
pub Outcome-cases :
    {A B : Type 0} (p : Proxy A) (f : A → Proxy B) (m : Machine)
    → ((a : A) × ((p m).0 ≡ done a) × ((p >>= f) m ≡ f a (p m).1)) ⊎ (((p >>= f) m).1 ≡ (p m).1)
unfolding ◌>>=◌
Outcome-cases p f m = go_on-cases f (p m)

go_on-outcome :
    {A B : Type 0} (f : A → Proxy B) (r : Outcome A × Machine) (b : B)
    → (go_on f r).0 ≡ done b
    → (a : A) × (r.0 ≡ done a) × (go_on f r ≡ f a r.1)
unfolding go_on
go_on-outcome f (done a, n) b h = (a, refl, refl)
go_on-outcome f (failed e, n) b h = absurd (cc)

pub bind-done :
    {A B : Type 0} (p : Proxy A) (f : A → Proxy B) (m : Machine) (b : B)
    → ((p >>= f) m).0 ≡ done b
    → (a : A) × ((p m).0 ≡ done a) × ((p >>= f) m ≡ f a (p m).1)
unfolding ◌>>=◌
bind-done p f m b h = go_on-outcome f (p m) b h

go_on-runs :
    {A B : Type 0} (f : A → Proxy B) (r : Outcome A × Machine) (a : A)
    → r.0 ≡ done a
    → go_on f r ≡ f a r.1
unfolding go_on
go_on-runs f (done x, n) a h = ap (λ y. f y n) (cc)
go_on-runs f (failed e, n) a h = absurd (cc)

-- The first part is done, so the second one runs.
pub bind-runs :
    {A B : Type 0} (p : Proxy A) (f : A → Proxy B) (m : Machine) (a : A)
    → (p m).0 ≡ done a
    → (p >>= f) m ≡ f a (p m).1
unfolding ◌>>=◌
bind-runs p f m a h = go_on-runs f (p m) a h

pub when_fail-done :
    (b : Bool) (f : Failure) (m : Machine) (u : Unit {0})
    → (when_fail b f m).0 ≡ done u
    → (b ≡ false) × ((when_fail b f m).1 ≡ m)
unfolding when_fail
when_fail-done true f m u h = absurd (cc)
when_fail-done false f m u h = (refl, refl)

stored-done :
    {A : Type 0} (f : Failure) (m : Machine) (r : Result A × World) (a : A)
    → (stored f m r).0 ≡ done a
    → (r.0 ≡ ok a) × ((stored f m r).1.world ≡ r.1)
unfolding stored
stored-done f m (ok x, w) a h = (cc, refl)
stored-done f m (err e, w) a h = absurd (cc)

pub store-done :
    {A : Type 0} (f : Failure) (p : Action A) (m : Machine) (a : A)
    → (store f p m).0 ≡ done a
    → ((p m.world).0 ≡ ok a) × ((store f p m).1.world ≡ (p m.world).1)
unfolding store
store-done f p m a h = stored-done f m (p m.world) a h
