-- ===== src/Server/Background/Batch.antt =====
-- The batched read of `run_background_sweep` in bin/status-server/src/incident_writer.rs beside the
-- read of `evaluate_target`.
use statuspage.Base.{
  ℕ, ◌≡◌, ◌⊎◌, refl, ap, arith, Bool-cases, inl, inr, true, ◌==◌, some, List, [], ◌∷◌, Among,
}
use statuspage.Base.Dict.{Dict, get, insert, get-insert}
use statuspage.Domain.Time.{Uuid}
use statuspage.Domain.Monitor.{CheckResult}
use statuspage.Storage.Memory.{MemoryStorage}
use statuspage.Storage.Maintenance.{is_target_in_active_maintenance}
use statuspage.Storage.Results.{list_results, batch_results, recent_results_for_targets}
use statuspage.Server.Dispatch.{Surroundings}
use statuspage.Server.Writer.{lookback, evaluate_target}
use statuspage.Server.Background.{evaluate_results}

batch_results-get :
    (ids : List Uuid) (limit : ℕ) (m : MemoryStorage) (out : Dict (List CheckResult)) (id : Uuid)
    → (get id out ≡ some (list_results id limit m)) ⊎ Among id ids
    → get id (batch_results ids limit m out) ≡ some (list_results id limit m)
unfolding batch_results list_results
batch_results-get [] limit m out id (inl e) = e
batch_results-get [] limit m out id (inr h) = absurd h
batch_results-get (t ∷ ids) limit m out id h =
    batch_results-get ids limit m (insert t (list_results t limit m) out) id
      (elim (Bool-cases (t == id)) [
        | inl y ↦
            let same : t ≡ id = ground arith in
            inl (
              rw (get-insert t id (list_results t limit m) out, y)
                (ap (λ x. some (list_results x limit m)) same))
        | inr n ↦ elim h [
          | inl e ↦ inl (rw (get-insert t id (list_results t limit m) out, n) e)
          | inr (inl same) ↦ absurd (ground arith)
          | inr (inr among) ↦ inr among
        ]
      ])

-- For every target that a sweep reads, evaluating it on the batch is evaluating it as its own probe
-- would on the storage from which the batch was read: the two paths take the same results and skip
-- the same targets.
pub evaluate_results-batch :
    (env : Surroundings) (ids : List Uuid) (id : Uuid) (m : MemoryStorage)
    → Among id ids
    → evaluate_results env id (get id (recent_results_for_targets ids lookback m)) m
      ≡ evaluate_target env true id m
unfolding recent_results_for_targets evaluate_results evaluate_target
evaluate_results-batch env ids id m among =
    rw (batch_results-get ids lookback m [] id (inr among)) (go (list_results id lookback m) refl)
  where
    go :
        (rs : List CheckResult)
        → list_results id lookback m ≡ rs
        → evaluate_results env id (some (list_results id lookback m)) m
          ≡ evaluate_target env true id m
    go [] e = elim (Bool-cases (is_target_in_active_maintenance env.now id m)) [
      | inl y ↦ rw (evaluate_target, e, y)
      | inr n ↦ rw (evaluate_target, n, e)
    ]
    go (r ∷ rs) e = elim (Bool-cases (is_target_in_active_maintenance env.now id m)) [
      | inl y ↦ rw (evaluate_target, e, evaluate_results, y)
      | inr n ↦ rw (evaluate_target, e, evaluate_results, n)
    ]
