-- ===== src/Mpool/Job/Laws.antt =====
-- mpool/src/v7_mpool_job.c: a job is in the list at most once, last in, and only with a handler.
use bplib.Common.{
  ℕ, suc, ◌+◌, ◌≤◌, ◌≡◌, refl, sym, inl, inr, true, false, Option, none, some, List, [], ◌∷◌, ◌++◌,
  arith, Bool-cases,
}
use Prim.Native.Nat.{pred}
use bplib.Mpool.Job.{
  JobKind, JobId, same_job, job_cancel_internal, job_mark_active_internal, statechange, ingress,
  egress, same_kind,
}

-- How often a job is in the list.
abbrev pub occurrences : JobId → List JobId → ℕ
occurrences job [] = 0
occurrences job (j ∷ rest) =
    let more = occurrences job rest in elim (same_job j job) [ true ↦ suc more | false ↦ more ]

-- No job is in the list twice.
abbrev pub Once : List JobId → Type 0
Once l = (job : JobId) → occurrences job l ≤ 1

occurrences-append :
    (job : JobId) (l m : List JobId)
    → occurrences job (l ++ m) ≡ occurrences job l + occurrences job m
occurrences-append job [] m = omega arith
occurrences-append job (j ∷ l) m = ground (arith, occurrences-append job l m)

same_kind_self : (k : JobKind) → same_kind k k ≡ true
same_kind_self statechange = refl
same_kind_self ingress = refl
same_kind_self egress = refl

same_job_self : (j : JobId) → same_job j j ≡ true
unfolding same_job
same_job_self j = ground (arith, same_kind_self j.kind)

same_job-eq : (a b : JobId) → same_job a b ≡ true → a ≡ b
unfolding same_job
same_job-eq a b h = ground arith

-- Cancelling a job takes away one occurrence of it, if there is one, and none of another job.
occurrences-cancel :
    (job j : JobId) (l : List JobId)
    → (same_job j job ≡ true → occurrences job (job_cancel_internal j l) ≡ pred (occurrences job l))
      × (same_job j job ≡ false → occurrences job (job_cancel_internal j l) ≡ occurrences job l)
unfolding job_cancel_internal
occurrences-cancel job j [] = (λ e. refl, λ e. refl)
occurrences-cancel job j (i ∷ l) = elim (Bool-cases (same_job i j)) [
  | inl same ↦
      let e : i ≡ j = same_job-eq i j same in
      rw e (λ h. ground (arith, same_job_self j), λ h. ground (arith, same_job_self j))
  | inr other ↦
      let ih = occurrences-cancel job j l in
      (
        λ h. rw (other, job_cancel_internal) (apart (distinct other h) _ (ih.0 h)),
        λ h. ground (arith, ih.1 h),
      )
]
  where
    true_not_false : false ≡ true → ⊥
    true_not_false e = cc

    distinct : same_job i j ≡ false → same_job j job ≡ true → same_job i job ≡ false
    distinct o h = elim (Bool-cases (same_job i job)) [
      | inl t ↦
          let ei : i ≡ job = same_job-eq i job t in
          let ej : j ≡ job = same_job-eq j job h in
          absurd (true_not_false (sym (rw (ei, ej, same_job_self job) at o)))
      | inr f ↦ f
    ]

    apart :
        same_job i job ≡ false
        → (c : List JobId) → occurrences job c ≡ pred (occurrences job l)
        → occurrences job (i ∷ c) ≡ pred (occurrences job (i ∷ l))
    apart d c e = ground (arith, d)

pub job_cancel_internal-Once :
    (job : JobId) (l : List JobId) → Once l → Once (job_cancel_internal job l)
job_cancel_internal-Once job l once other = elim (Bool-cases (same_job job other)) [
  | inl same ↦ rw ((occurrences-cancel other job l).0 same) (omega (arith, once other))
  | inr differs ↦ rw ((occurrences-cancel other job l).1 differs) (once other)
]

pub gone : (job : JobId) (l : List JobId) → Once l → occurrences job (job_cancel_internal job l) ≡ 0
gone job l once = omega (arith, (occurrences-cancel job job l).0 (same_job_self job), once job)

-- Marking a job as active keeps a list without repetitions so. Afterwards the job is in it exactly
-- if it has a handler, and every other job is in it as before.
pub job_mark_active-Once :
    (l : List JobId) (job : JobId) (handler : Option ℕ)
    → Once l
    → Once (job_mark_active_internal l job handler)
      × (occurrences job (job_mark_active_internal l job handler)
          ≡ (elim handler [ none ↦ 0 | some _ ↦ 1 ]))
      × ((other : JobId)
          → same_job job other ≡ false
          → occurrences other (job_mark_active_internal l job handler) ≡ occurrences other l)
unfolding job_mark_active_internal
job_mark_active-Once l job none once = (
  job_cancel_internal-Once job l once,
  gone job l once,
  λ other differs. (occurrences-cancel other job l).1 differs,
)
job_mark_active-Once l job (some handler) once = (
  λ other. elim (Bool-cases (same_job job other)) [
    | inl same ↦
        rw (occurrences-append other (job_cancel_internal job l) (job ∷ []))
          (ground (arith, same, (occurrences-cancel other job l).0 same, once other))
    | inr differs ↦
        rw (occurrences-append other (job_cancel_internal job l) (job ∷ []))
          (ground (arith, differs, job_cancel_internal-Once job l once other))
  ],
  rw (occurrences-append job (job_cancel_internal job l) (job ∷ []))
      (ground (arith, same_job_self job, gone job l once)),
  λ other differs.
      rw (occurrences-append other (job_cancel_internal job l) (job ∷ []))
        (ground (arith, differs, (occurrences-cancel other job l).1 differs)),
)
