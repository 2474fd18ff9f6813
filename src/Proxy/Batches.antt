-- ===== src/Proxy/Batches.antt =====
-- A transaction of several statements, from its begin to its result.
use mathlib.Core.Path.{subst, ◌≡◌, refl, ap, sym, ◌∙◌}
use mathlib.Core.Bool.{Bool, true, false}
use mathlib.Core.List.{List, [], ◌∷◌, ◌++◌, map}
use Prim.Native.Nat.{ℕ}
use agent_key_vault_jit_acce.Domain.Execution.{ExecutionStatus}
use agent_key_vault_jit_acce.Domain.Values.{Uuid}
use agent_key_vault_jit_acce.Proxy.Plan.{SqlStatement}
use agent_key_vault_jit_acce.Proxy.Machine.{
  Proxy, Outcome, Machine, Effect, done, commits, executes, begins, perform, go_on, pure, ◌>>=◌,
  ◌>>◌,
}
use agent_key_vault_jit_acce.Proxy.Prepare.{Draws, finalize_execution}
use agent_key_vault_jit_acce.Proxy.Uses.{bind-done}
use agent_key_vault_jit_acce.Proxy.Finishes.{
  IsFinished, give_up-fails, finalize_execution-IsFinished,
}
use agent_key_vault_jit_acce.Proxy.Postgres.{
  SqlConnection, Executed, not_executed, uncounted, affected, counted_in, committed, run_statements,
  begun_batch, execute_batch,
}

-- The effects of the statements, in their order.
abbrev pub all_executed : List SqlStatement → List Effect → List Effect
all_executed [] trace = trace
all_executed (s ∷ rest) trace = all_executed rest (executes s.sql s.arguments ∷ trace)

-- What the target answers to them.
abbrev pub answers : SqlConnection → List SqlStatement → List Effect → List Executed
answers sql [] trace = []
answers sql (s ∷ rest) trace =
    sql.execute s.sql s.arguments trace ∷ answers sql rest (executes s.sql s.arguments ∷ trace)

-- The machine of a run whose statements, and then the commit, are its only effects.
abbrev pub committed_at : List SqlStatement → Machine → Machine
committed_at statements m = record m { trace = commits ∷ all_executed statements m.trace }

-- The same, of a run that begins the transaction too.
abbrev pub begun_at : Machine → Machine
begun_at m = record m { trace = begins ∷ m.trace }

append-nil : (xs : List ℕ) → xs ++ [] ≡ xs
append-nil [] = refl
append-nil (x ∷ xs) = ap (λ ys. x ∷ ys) (append-nil xs)

append-snoc : (xs : List ℕ) (x : ℕ) (ys : List ℕ) → (xs ++ (x ∷ [])) ++ ys ≡ xs ++ (x ∷ ys)
append-snoc [] x ys = refl
append-snoc (z ∷ xs) x ys = ap (λ zs. z ∷ zs) (append-snoc xs x ys)

module _ (sql : SqlConnection) (draws : Draws) (execution_id : Uuid) (cleanup : Proxy Bool) where
  -- The end of a transaction that went well.
  abbrev pub ends : List ℕ → Proxy (List ℕ)
  ends rows =
      finalize_execution draws execution_id ExecutionStatus.succeeded [] cleanup >> pure rows

  -- The statements ran with these counts after `rows` and were committed, and what the run then does
  -- is the end of a transaction.
  pub record IsCommitted (statements : List SqlStatement) (rows counts : List ℕ) (m : Machine)
      (result : Outcome (List ℕ) × Machine) : Type 0 where
    pub answered : answers sql statements m.trace ≡ map affected counts
    pub committed : sql.commit (all_executed statements m.trace) ≡ true
    pub runs : result ≡ ends (rows ++ counts) (committed_at statements m)
    pub finished :
        IsFinished draws execution_id ExecutionStatus.succeeded [] cleanup
          (committed_at statements m)

  committed-ends :
      (rows : List ℕ) (b : Bool) (m : Machine) (out : List ℕ)
      → (committed sql draws execution_id cleanup rows b m).0 ≡ done out
      → (b ≡ true)
        × (committed sql draws execution_id cleanup rows b m ≡ ends rows m)
        × IsFinished draws execution_id ExecutionStatus.succeeded [] cleanup m
        × (out ≡ rows)
  unfolding committed pure
  committed-ends rows false m out h = absurd (give_up-fails draws execution_id _ _ _ _ m out h)
  committed-ends rows true m out h =
      let (u, first, runs) = bind-done _ _ m out h in
      (
        refl,
        refl,
        finalize_execution-IsFinished draws execution_id _ _ cleanup m first,
        cc (rw runs at h),
      )

  counted_in-done :
      (next : ℕ → Proxy (List ℕ)) (e : Executed) (m : Machine) (out : List ℕ)
      → (counted_in sql draws execution_id cleanup next e m).0 ≡ done out
      → (count : ℕ) × (e ≡ affected count)
        × (counted_in sql draws execution_id cleanup next e m ≡ next count m)
  unfolding counted_in
  counted_in-done next (not_executed state) m out h =
      let (b, rolls, runs) = bind-done _ _ m out h in
      absurd (give_up-fails draws execution_id _ _ _ _ _ out (rw runs at h))
  counted_in-done next uncounted m out h =
      let (b, rolls, runs) = bind-done _ _ m out h in
      absurd (give_up-fails draws execution_id _ _ _ _ _ out (rw runs at h))
  counted_in-done next (affected count) m out h = (count, refl, refl)

  run_statements-IsCommitted :
      (statements : List SqlStatement) (rows : List ℕ) (m : Machine) (out : List ℕ)
      → (run_statements sql draws execution_id cleanup statements rows m).0 ≡ done out
      → (counts : List ℕ) × (out ≡ rows ++ counts)
        × IsCommitted statements rows counts m
            (run_statements sql draws execution_id cleanup statements rows m)
  unfolding run_statements perform ◌>>=◌ go_on
  run_statements-IsCommitted [] rows m out h =
      let (agreed, runs, finished, told) =
        committed-ends rows (sql.commit m.trace) (record m { trace = commits ∷ m.trace }) out h in
      (
        [],
        told ∙ sym (append-nil rows),
        record {
          answered = refl;
          committed = agreed;
          runs =
              runs
              ∙ ap (λ rs. ends rs (record m { trace = commits ∷ m.trace })) (sym (append-nil rows));
          finished = finished;
        },
      )
  run_statements-IsCommitted (s ∷ rest) rows m out h =
      let next : ℕ → Proxy (List ℕ) =
        λ c. run_statements sql draws execution_id cleanup rest (rows ++ (c ∷ [])) in
      let after : Machine = record m { trace = executes s.sql s.arguments ∷ m.trace } in
      let (count, answer, goes_on) =
        counted_in-done next (sql.execute s.sql s.arguments m.trace) after out h in
      let (counts, told, ran) =
        run_statements-IsCommitted rest (rows ++ (count ∷ [])) after out (rw goes_on at h) in
      let same = append-snoc rows count counts in
      (
        count ∷ counts,
        told ∙ same,
        record {
          answered =
              ap (λ e. e ∷ answers sql rest after.trace) answer
              ∙ ap (λ es. affected count ∷ es) ran.answered;
          committed = ran.committed;
          runs = goes_on ∙ ran.runs ∙ ap (λ rs. ends rs (committed_at rest after)) same;
          finished = ran.finished;
        },
      )

  begun_batch-IsCommitted :
      (statements : List SqlStatement) (b : Bool) (m : Machine) (out : List ℕ)
      → (begun_batch sql draws execution_id statements cleanup b m).0 ≡ done out
      → (b ≡ true)
        × IsCommitted statements [] out m
            (begun_batch sql draws execution_id statements cleanup b m)
  unfolding begun_batch
  begun_batch-IsCommitted statements false m out h =
      absurd (give_up-fails draws execution_id _ _ _ _ m out h)
  begun_batch-IsCommitted statements true m out h =
      let (counts, told, ran) = run_statements-IsCommitted statements [] m out h in
      (
        refl,
        subst
            (λ cs.
              IsCommitted statements [] cs m
                (run_statements sql draws execution_id cleanup statements [] m))
            (sym told) ran,
      )

  -- A transaction that returns counts has begun the transaction, executed each statement once and
  -- in order, with no other effect between, and committed; the target accepted the begin and the
  -- commit, and the counts are what it answered to the statements. From there the run records the
  -- execution as succeeded, starts its reclaim, cleans up, and records that this went well.
  pub execute_batch-IsCommitted :
      (statements : List SqlStatement) (m : Machine) (rows : List ℕ)
      → (execute_batch sql draws execution_id statements cleanup m).0 ≡ done rows
      → (sql.begin m.trace ≡ true)
        × IsCommitted statements [] rows
            (begun_at m)
            (execute_batch sql draws execution_id statements cleanup m)
  unfolding execute_batch perform ◌>>=◌ go_on
  execute_batch-IsCommitted statements m rows h =
      begun_batch-IsCommitted statements (sql.begin m.trace) (begun_at m) rows h
