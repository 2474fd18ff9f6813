-- ===== src/Domain/Paths.antt =====
-- The transition tables as relations: what a status may become, in any number of steps.
use mathlib.Core.Path.{◌≡◌}
use mathlib.Core.Bool.{Bool, true, false, ◌&&◌, ◌||◌}
use native.Mathlib.Omega.{arith}
use agent_key_vault_jit_acce.Domain.Grant.{GrantStatus}
use agent_key_vault_jit_acce.Domain.Grant
use agent_key_vault_jit_acce.Domain.Request.{RequestStatus}
use agent_key_vault_jit_acce.Domain.Request

module _ {A : Type 0} where
  -- Zero or more steps of a transition table.
  pub data Reaches (next : A → A → Bool) (s : A) : A → Type 0 where
    stay : Reaches next s s
    move : {t u : A} → Reaches next s t → next t u ≡ true → Reaches next s u

  pub Reaches-trans :
      (next : A → A → Bool) {s t u : A} → Reaches next s t → Reaches next t u → Reaches next s u
  Reaches-trans next p stay = p
  Reaches-trans next p (move q e) = move (Reaches-trans next p q) e

  pub Reaches-step : (next : A → A → Bool) (s t : A) → next s t ≡ true → Reaches next s t
  Reaches-step next s t e = move stay e

  -- What no step leaves is never left.
  pub Reaches-closed :
      (next : A → A → Bool) (P : A → Type 0)
      → ((t u : A) → next t u ≡ true → P t → P u)
      → {s t : A} → Reaches next s t
      → P s
      → P t
  Reaches-closed next P keep stay p = p
  Reaches-closed next P keep (move {t} {u} q e) p = keep t u e (Reaches-closed next P keep q p)

-- The steps of a grant that the store takes: those of the table, and a new attempt to reclaim.
unfoldable pub grant_step : GrantStatus → GrantStatus → Bool
grant_step s t = Grant.can_transition_to s t || (Grant.is_reclaim_failed s && Grant.is_reclaiming t)

unapproved-keeps :
    (t u : GrantStatus)
    → grant_step t u ≡ true
    → Grant.is_approved t ≡ false
    → Grant.is_approved u ≡ false
unfolding grant_step Grant.can_transition_to
unapproved-keeps t u e h = ground arith

-- A grant that has left `APPROVED` never comes back to it.
pub not_approved_again :
    {s t : GrantStatus}
    → Reaches grant_step s t
    → Grant.is_approved s ≡ false
    → Grant.is_approved t ≡ false
not_approved_again = Reaches-closed grant_step (λ s. Grant.is_approved s ≡ false) unapproved-keeps

closed-keeps :
    (t u : GrantStatus) → grant_step t u ≡ true → Grant.is_open t ≡ false → Grant.is_open u ≡ false
unfolding grant_step Grant.can_transition_to
closed-keeps t u e h = ground arith

-- A grant that was executed, revoked or expired is never open again.
pub not_open_again :
    {s t : GrantStatus} → Reaches grant_step s t → Grant.is_open s ≡ false → Grant.is_open t ≡ false
not_open_again = Reaches-closed grant_step (λ s. Grant.is_open s ≡ false) closed-keeps

decided-keeps :
    (t u : RequestStatus)
    → Request.can_transition_to t u ≡ true
    → t ≡ RequestStatus.approved
    → u ≡ RequestStatus.approved
unfolding Request.can_transition_to
decided-keeps t u e h = ground arith

-- An approved request stays approved.
pub approved_for_good :
    {s t : RequestStatus}
    → Reaches Request.can_transition_to s t
    → s ≡ RequestStatus.approved
    → t ≡ RequestStatus.approved
approved_for_good =
    Reaches-closed Request.can_transition_to (λ s. s ≡ RequestStatus.approved) decided-keeps
