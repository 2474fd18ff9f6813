-- ===== src/Proxy/Finishes.antt =====
-- How an execution ends that the agent is given a result of.
use mathlib.Core.Path.{◌≡◌, ap, ◌∙◌}
use mathlib.Core.List.{[]}
use mathlib.Core.Bool.{Bool, true, false, not}
use native.Mathlib.Omega.{arith}
use agent_key_vault_jit_acce.Domain.Execution.{ExecutionStatus}
use agent_key_vault_jit_acce.Domain.Values.{Uuid, Bytes, text}
use agent_key_vault_jit_acce.Store.Action.{ok}
use agent_key_vault_jit_acce.Store.Execution.{finish, start_reclaim, finish_reclaim}
use agent_key_vault_jit_acce.Proxy.Machine.{
  Outcome, Proxy, Machine, done, fail, store, public_error, ◌>>◌,
}
use agent_key_vault_jit_acce.Proxy.Prepare.{Draws, finalize_execution, give_up, cleanup_code}
use agent_key_vault_jit_acce.Proxy.Uses.{bind-done, bind-runs, store-done, when_fail-done}

module _ (draws : Draws) (execution_id : Uuid) where
  -- An execution that was given up has no result.
  pub give_up-fails :
      {A : Type 0} (outcome : ExecutionStatus) (code told : Bytes) (cleanup : Proxy Bool)
      (m : Machine) (a : A)
      → ¬ ((give_up draws execution_id outcome code told cleanup m).0 ≡ done a)
  unfolding give_up fail
  give_up-fails outcome code told cleanup m a h =
      let (u, first, runs) = bind-done _ _ m a h in absurd (cc (rw runs at h))

  -- The execution is finished, and its reclaim started.
  abbrev pub begin_reclaim : ExecutionStatus → Bytes → Proxy Uuid
  begin_reclaim outcome code =
      store (public_error (text "EXECUTION_STATE_FAILED"))
        (finish execution_id outcome draws.finished_at code)
      >> store (public_error (text "RECLAIM_FAILED"))
          (start_reclaim draws.reclaim_id execution_id draws.reclaiming_at)

  -- The execution is finished in the store with this outcome, its reclaim is started, the cleanup
  -- that follows goes well, and then the reclaim is recorded as a success.
  pub record IsFinished (outcome : ExecutionStatus) (code : Bytes) (cleanup : Proxy Bool)
      (m : Machine) : Type 0 where
    pub finished : (finish execution_id outcome draws.finished_at code m.world).0 ≡ ok tt
    pub reclaim : Uuid
    pub started : (begin_reclaim outcome code m).0 ≡ done reclaim
    pub cleaned : (cleanup (begin_reclaim outcome code m).1).0 ≡ done true
    pub recorded :
        (finish_reclaim draws.incident_id reclaim true draws.released_at []
          (cleanup (begin_reclaim outcome code m).1).1.world).0
        ≡ ok tt

  not-false : (b : Bool) → not b ≡ false → b ≡ true
  not-false b h = ground arith

  -- The end, from the machine at which the reclaim has started.
  ends-recorded :
      (cleanup : Proxy Bool) (reclaim : Uuid) (m : Machine) (cleaned : Bool)
      → (cleanup m).0 ≡ done cleaned
      → (store
          (public_error (text "RECLAIM_FAILED"))
          (finish_reclaim draws.incident_id reclaim cleaned draws.released_at
            (cleanup_code cleaned))
          (cleanup m).1).0
        ≡ done tt
      → cleaned ≡ true
      → ((cleanup m).0 ≡ done true)
        × ((finish_reclaim draws.incident_id reclaim true draws.released_at []
              (cleanup m).1.world).0
            ≡ ok tt)
  ends-recorded cleanup reclaim m true cleans ends same =
      (cleans, (store-done _ _ (cleanup m).1 tt ends).0)
  ends-recorded cleanup reclaim m false cleans ends same = absurd (cc)

  pub finalize_execution-IsFinished :
      (outcome : ExecutionStatus) (code : Bytes) (cleanup : Proxy Bool) (m : Machine)
      → (finalize_execution draws execution_id outcome code cleanup m).0 ≡ done tt
      → IsFinished outcome code cleanup m
  unfolding finalize_execution
  finalize_execution-IsFinished outcome code cleanup m h =
      let (u, finishes, rest) = bind-done _ _ m tt h in
      let (reclaim, starts, after) = bind-done _ _ _ tt (rw rest at h) in
      let (cleaned, cleans, end) = bind-done _ _ _ tt (rw (rest, after) at h) in
      let (v, ends, last) = bind-done _ _ _ tt (rw (rest, after, end) at h) in
      let (refused, same) = when_fail-done _ _ _ tt (rw (rest, after, end, last) at h) in
      let begun =
        bind-runs _
          (λ x.
            store (public_error (text "RECLAIM_FAILED"))
              (start_reclaim draws.reclaim_id execution_id draws.reclaiming_at))
          m u finishes in
      let (clean, recorded) =
        ends-recorded cleanup reclaim _ cleaned cleans ends (not-false cleaned refused) in
      record {
        finished = (store-done _ _ m u finishes).0;
        reclaim = reclaim;
        started = ap (λ (r : Outcome Uuid × Machine). r.0) begun ∙ starts;
        cleaned = rw begun clean;
        recorded = rw begun recorded;
      }
