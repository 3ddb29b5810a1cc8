-- ===== src/Mpool/Job.antt =====
-- mpool/src/v7_mpool_job.c: the list of active jobs. A job is a link embedded in a flow block, so
-- it is named by the serial number of the block and by which of its three job headers it is.
pub mod Laws
use native.Mathlib.Decide.{ℕ_discrete}
use bplib.Common.{ℕ, Bool, true, false, Option, none, some, List, [], ◌∷◌, ◌++◌, ◌&&◌, ◌==◌}

pub data JobKind : Type 0 where
  statechange ingress egress : JobKind

pub record JobId : Type 0 where
  pub serial : ℕ
  pub kind : JobKind

abbrev pub same_kind : JobKind → JobKind → Bool
same_kind statechange statechange = true
same_kind ingress ingress = true
same_kind egress egress = true
same_kind _ _ = false

unfoldable pub same_job : JobId → JobId → Bool
same_job a b = a.serial == b.serial && same_kind a.kind b.kind

-- `bplib_mpool_extract_node` of the job's link: a job that is in no list stays as it is.
unfoldable pub job_cancel_internal : JobId → List JobId → List JobId
job_cancel_internal job [] = []
job_cancel_internal job (j ∷ rest) =
    let kept = job_cancel_internal job rest in
    elim (same_job j job) [ true ↦ rest | false ↦ j ∷ kept ]

-- Only a job with a handler is put (back) at the end of the list.
unfoldable pub job_mark_active_internal : List JobId → JobId → Option ℕ → List JobId
unfolding job_cancel_internal
job_mark_active_internal active_list job none = job_cancel_internal job active_list
job_mark_active_internal active_list job (some handler) =
    job_cancel_internal job active_list ++ job ∷ []

-- Every link of the list is a job, so the loop around the cast takes one round.
unfoldable pub job_get_next_active : List JobId → List JobId × Option JobId
job_get_next_active [] = ([], none)
job_get_next_active (job ∷ rest) = (rest, some job)

-- `bplib_mpool_job_run_all`: the state `S` is the rest of the pool, which `maintain` and the
-- handlers change; a handler may mark jobs as active again. `none` means that the fuel ran out.
module _ {ℓ} {S : Type ℓ} (maintain : S → S)
    (handler : JobId → List JobId × S → List JobId × S) where
  unfoldable pub job_run_all : ℕ → List JobId × S → Option (List JobId × S)
  unfolding job_get_next_active
  job_run_all ℕ.zero s = none
  job_run_all (ℕ.suc fuel) (active_list, s) =
      let (rest, next) = job_get_next_active active_list in
      elim next [
        | none ↦ some (rest, s)
        | some job ↦ job_run_all fuel (handler job (rest, maintain s))
      ]
