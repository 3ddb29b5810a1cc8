-- ===== src/Mpool/Wait.antt =====
-- mpool/src/v7_mpool_flows.c: waiting on the pool lock until a queue has space, or is filled.
-- `bplib_mpool_lock_wait` lets the other tasks run. What they do is a list of wake-ups: the state
-- `S` that each finds, and whether the deadline has not passed yet. After the last wake-up of the
-- list the deadline passes with nothing changed.
use bplib.Common.{
  ℕ, ◌+◌, ◌≡◌, refl, Bool-cases, inl, inr, Bool, false, ◌&&◌, not, List, [], ◌∷◌, ◌==◌, ltb, u32,
  if◌then◌else◌,
}
use bplib.Mpool.Subq.{WorkItem, get_depth}

abbrev pub Wakes : Type 0 → Type 0
Wakes S = List (S × Bool)

-- The wake-ups that are left, the state after the wait, and the result.
pub record Waited (S : Type 0) : Type 0 where
  pub wakes : Wakes S
  pub state : S
  pub ok : Bool

-- The loop: it goes on while `blocked` and within the timeout.
unfoldable pub wait_loop : {S : Type 0} → (S → Bool) → Wakes S → S → Bool → Waited S
wait_loop blocked [] s within_timeout = record { wakes = []; state = s; ok = not (blocked s) }
wait_loop blocked ((s', within') ∷ wakes) s within_timeout =
    let rest = wait_loop blocked wakes s' within' in
    if blocked s && within_timeout
    then rest
    else record { wakes = (s', within') ∷ wakes; state = s; ok = not (blocked s) }

module _ {A S : Type 0} (subq : S → WorkItem A) where
  -- `next_depth > current_depth_limit`, where `next_depth` is a `uint32_t`.
  unfoldable pub overfull : ℕ → S → Bool
  overfull quantity s =
      ltb (subq s).current_depth_limit (u32 (get_depth (subq s).base_subq + quantity))

  unfoldable pub wait_for_space : Wakes S → S → ℕ → ℕ → Waited S
  unfolding wait_loop overfull
  wait_for_space wakes s quantity abs_timeout =
      wait_loop (overfull quantity) wakes s (not (abs_timeout == 0))

  unfoldable pub underfull : ℕ → S → Bool
  underfull quantity s = ltb (get_depth (subq s).base_subq) quantity

  unfoldable pub wait_for_fill : Wakes S → S → ℕ → ℕ → Waited S
  unfolding wait_loop underfull
  wait_for_fill wakes s quantity abs_timeout =
      wait_loop (underfull quantity) wakes s (not (abs_timeout == 0))

-- The result says whether the loop's condition is gone in the state that is left.
pub wait_loop-ok :
    {S : Type 0} (blocked : S → Bool) (wakes : Wakes S) (s : S) (within : Bool)
    → (wait_loop blocked wakes s within).ok ≡ not (blocked (wait_loop blocked wakes s within).state)
unfolding wait_loop
wait_loop-ok blocked [] s within = refl
wait_loop-ok blocked ((s', within') ∷ wakes) s within = elim (Bool-cases (blocked s && within)) [
  | inl again ↦ rw again (wait_loop-ok blocked wakes s' within')
  | inr done ↦ rw done
]

-- With no timeout the state is not given up to the other tasks.
pub wait_loop-now :
    {S : Type 0} (blocked : S → Bool) (wakes : Wakes S) (s : S)
    → wait_loop blocked wakes s false ≡ record { wakes = wakes; state = s; ok = not (blocked s) }
unfolding wait_loop
wait_loop-now blocked [] s = refl
wait_loop-now blocked ((s', within') ∷ wakes) s = elim (Bool-cases (blocked s)) [
  | inl waits ↦ rw waits
  | inr goes ↦ rw goes
]
