-- ===== src/Mpool/Tests.antt =====
-- Concrete queues, jobs and flows, and the theorems of the pool at them.
use bplib.Common.{
  ℕ, ◌+◌, ◌≤◌, ◌<◌, ◌≡◌, refl, ◌↔◌, true, false, none, some, List, [], ◌∷◌, ◌++◌, length, arith,
  if◌then◌else◌, ◌==◌, bit_and,
}
use bplib.Mpool.Subq.{Subq, WorkItem, get_depth, push_single, pull_single}
use bplib.Mpool.Subq.Depth.{IsCounted}
use bplib.Mpool.Subq.Fifo.{Op, push, pull, run, run_fifo, run-fifo}
use bplib.Mpool.Job.{JobId, ingress, egress, job_mark_active_internal, same_job}
use bplib.Mpool.Job.Laws.{Once, occurrences, job_mark_active-Once}
use bplib.Mpool.Wait.{Wakes, wait_for_space, wait_for_fill}
use bplib.Mpool.Flow.{
  Flow, Queue, try_push, try_pull, flow_disable, flow_enable, try_move_all, flow_is_up, flow_init,
  flow_event_handler, poll, up,
}
use bplib.Mpool.Flow.Push.{Ready, Pushed, try_push_lem, blocks}
use bplib.Mpool.Flow.Pull.{try_pull_lem, flow_disable_lem, Pulled}
use bplib.Mpool.Flow.Move.{Apart, Moved, try_move_all-total, try_move_all-now}
use bplib.Mpool.Flow.Event.{settled, Reported, flow_event_handler_lem}
use bplib.Mpool.Pool.{Pool, content, block_from_external_id, get_external_id}
use bplib.Mpool.Pool.Handle.{block_from_external_id-get}

-- Counters just before their wrap.
abbrev late : Subq ℕ
late = record { block_list = 7 ∷ []; push_count = 0xffff_ffff; pull_count = 0xffff_fffe }

late-IsCounted : IsCounted late
late-IsCounted = omega arith

abbrev ops : List (Op ℕ)
ops = push 8 ∷ pull ∷ push 9 ∷ pull ∷ pull ∷ pull ∷ []

late_results : (run late ops).1 ≡ some 7 ∷ some 8 ∷ some 9 ∷ none ∷ []
unfolding run push_single pull_single
late_results = refl

run-fifo_example :
    ((run late ops).0.block_list ≡ (run_fifo late.block_list ops).0)
    × ((run late ops).1 ≡ (run_fifo late.block_list ops).1)
    × (get_depth (run late ops).0 ≡ length (run_fifo late.block_list ops).0)
run-fifo_example = run-fifo ops late late-IsCounted (omega arith)

abbrev job : JobId
job = record { serial = 3; kind = ingress }

abbrev other_job : JobId
other_job = record { serial = 3; kind = egress }

abbrev active : List JobId
active = job ∷ other_job ∷ []

active-Once : Once active
unfolding same_job
active-Once j = ground arith

job_mark_active-Once_example :
    Once (job_mark_active_internal active job (some 1))
    × (occurrences job (job_mark_active_internal active job (some 1)) ≡ 1)
    × ((other : JobId)
        → same_job job other ≡ false
        → occurrences other (job_mark_active_internal active job (some 1))
          ≡ occurrences other active)
job_mark_active-Once_example = job_mark_active-Once active job (some 1) active-Once

-- Everything under the lock of a pool with two queues.
record Store : Type 0 where
  first : WorkItem ℕ
  second : WorkItem ℕ
  active_jobs : List JobId

abbrev first_queue : Queue ℕ Store
first_queue = record {
  job = job;
  subq = λ s. s.first;
  set_subq = λ w s. record s { first = w };
  active_list = λ s. s.active_jobs;
  set_active_list = λ l s. record s { active_jobs = l };
  subq-set = λ w s. refl;
  subq-set_active = λ l s. refl;
  active-set = λ l s. refl;
  active-set_subq = λ w s. refl;
}

abbrev second_queue : Queue ℕ Store
second_queue = record {
  job = other_job;
  subq = λ s. s.second;
  set_subq = λ w s. record s { second = w };
  active_list = λ s. s.active_jobs;
  set_active_list = λ l s. record s { active_jobs = l };
  subq-set = λ w s. refl;
  subq-set_active = λ l s. refl;
  active-set = λ l s. refl;
  active-set_subq = λ w s. refl;
}

first_second-Apart : Apart first_queue second_queue
first_second-Apart = record {
  src-set_dst = λ w s. refl;
  dst-set_src = λ w s. refl;
  src-set_active = λ l s. refl;
}

-- The first queue is full, and its job has a handler.
abbrev full_store : Store
full_store = record {
  first = record { handler = some 1; base_subq = late; current_depth_limit = 1 };
  second = record { handler = none; base_subq = late; current_depth_limit = 9 };
  active_jobs = active;
}

-- Another task has pulled its block.
abbrev freed_store : Store
freed_store = record full_store {
  first = record full_store.first {
    base_subq = record { block_list = []; push_count = 0xffff_ffff; pull_count = 0xffff_ffff };
  };
}

full-Ready : Ready first_queue full_store
full-Ready = (late-IsCounted, omega arith)

freed-Ready : Ready first_queue freed_store
freed-Ready = (omega arith, omega arith)

abbrev wakes : Wakes Store
wakes = (freed_store, true) ∷ []

pushed_run : (try_push first_queue wakes full_store 5 100).1 ≡ true
unfolding try_push wait_for_space push_single get_depth
pushed_run = refl

try_push_lem_example :
    let w = (wait_for_space first_queue.subq wakes full_store 1 100).state in
    let r = try_push first_queue wakes full_store 5 100 in
    (r.1 ≡ true → Pushed first_queue w 5 r.0)
    × (r.1 ≡ false
        → (r.0 ≡ w)
          × ((first_queue.subq w).current_depth_limit < length (blocks first_queue w) + 1))
try_push_lem_example =
    try_push_lem first_queue wakes full_store 5 100 (full-Ready, active-Once)
      ((freed-Ready, active-Once), tt)

try_pull_lem_example :
    let w = (wait_for_fill second_queue.subq wakes full_store 1 100).state in
    let r = try_pull second_queue wakes full_store 100 in Pulled second_queue w r.1 r.0
try_pull_lem_example =
    try_pull_lem second_queue wakes full_store 100 late-IsCounted (late-IsCounted, tt)

flow_disable_lem_example :
    let (s', recycle', dropped) = flow_disable first_queue full_store late in
    (blocks first_queue s' ≡ [])
    × (recycle'.block_list ≡ late.block_list ++ blocks first_queue full_store)
    × (dropped ≡ length (blocks first_queue full_store))
    × (occurrences job (first_queue.active_list s') ≡ 0)
    × ((first_queue.subq s').current_depth_limit ≡ 0)
    × ((first_queue.subq full_store).current_depth_limit ≡ (first_queue.subq s').current_depth_limit
        → (try_push first_queue [] full_store 5 0).1 ≡ false)
    × ((limit : ℕ)
        → 0 < limit
        → (try_push first_queue [] (flow_enable first_queue s' limit) 5 0).1 ≡ true)
flow_disable_lem_example =
    flow_disable_lem first_queue full_store full_store late 5 late-IsCounted late-IsCounted
      (omega arith) active-Once full-Ready

try_move_all-total_example :
    (r : Store × ℕ) × (try_move_all first_queue second_queue 2 wakes full_store 100 ≡ some r)
try_move_all-total_example =
    try_move_all-total first_queue second_queue 2 wakes full_store 100 (omega arith)

try_move_all-now_example :
    (r : Store × ℕ) × (try_move_all second_queue first_queue 1 [] full_store 0 ≡ some r)
    × (length late.block_list + length late.block_list ≤ 9
        → Moved second_queue first_queue full_store r.0 × (r.1 ≡ length late.block_list))
    × (9 < length late.block_list + length late.block_list → r ≡ (full_store, 0))
try_move_all-now_example =
    try_move_all-now second_queue first_queue second_first-Apart 0 full_store late-IsCounted
      late-IsCounted (omega arith)
  where
    second_first-Apart : Apart second_queue first_queue
    second_first-Apart = record {
      src-set_dst = λ w s. refl;
      dst-set_src = λ w s. refl;
      src-set_active = λ l s. refl;
    }

abbrev polled : Flow ℕ
polled = record flow_init { current_state_flags = 1; pending_state_flags = 0x13 }

polled_run : (flow_event_handler 8 polled).1 ≡ up 8 ∷ poll ∷ []
unfolding flow_event_handler flow_is_up
polled_run = refl

flow_event_handler_lem_example :
    ((flow_event_handler 8 polled).0 ≡ settled polled)
    × Reported 8 1 0x13
        (if bit_and 0x13 0x10 == bit_and 1 0x10 then [] else poll ∷ [])
        (flow_event_handler 8 polled).1
flow_event_handler_lem_example = flow_event_handler_lem 8 polled (omega arith) (omega arith)

-- A pool of eight blocks.
abbrev eight : Pool ℕ
eight = record { num_bufs_total = 8; block = λ serial. content }

block_from_external_id-get_example :
    ((7 < 8) ↔ (block_from_external_id eight (get_external_id 7) ≡ some 7))
    × (block_from_external_id eight (get_external_id 8) ≡ none)
block_from_external_id-get_example = block_from_external_id-get eight 7 (omega arith) (omega arith)
