-- ===== src/Scheduler/Slots.antt =====
-- `model_slot` of eventide/scheduler.py as steps of the event loop: between two awaits nothing
-- else runs. `permits` is the value of the bounded semaphore; a task that waits in `acquire` goes
-- on only when the value is positive, or leaves when it is cancelled.
use eventide.Prelude.{ℕ, suc, ◌+◌, ◌-◌, ◌≤◌, ◌<◌, ◌≡◌, arith}

pub record Slots : Type 0 where
  pub permits : ℕ
  pub active_models : ℕ
  pub waiting_models : ℕ

-- `RuntimeScheduler.__init__`
unfoldable pub new_slots : ℕ → Slots
new_slots model_requests = record {
  permits = model_requests;
  active_models = 0;
  waiting_models = 0;
}

unfoldable pub wait_slot : Slots → Slots
wait_slot m = record m { waiting_models = suc m.waiting_models }

-- `acquire` returns, the `finally` clause runs, and the body starts.
unfoldable pub take_slot : Slots → Slots
take_slot m = record {
  permits = m.permits - 1;
  active_models = suc m.active_models;
  waiting_models = m.waiting_models - 1;
}

-- `acquire` raises, and the `finally` clause runs.
unfoldable pub cancel_slot : Slots → Slots
cancel_slot m = record m { waiting_models = m.waiting_models - 1 }

-- The body ends, whether it raises or not.
unfoldable pub free_slot : Slots → Slots
free_slot m = record m { permits = suc m.permits; active_models = m.active_models - 1 }

pub data ModelStep : Slots → Slots → Type 0 where
  waits : {m : Slots} → ModelStep m (wait_slot m)
  acquires : {m : Slots} → 0 < m.permits → 0 < m.waiting_models → ModelStep m (take_slot m)
  is_cancelled : {m : Slots} → 0 < m.waiting_models → ModelStep m (cancel_slot m)
  releases : {m : Slots} → 0 < m.active_models → ModelStep m (free_slot m)

pub data Reaches (model_requests : ℕ) : Slots → Type 0 where
  starts : Reaches model_requests (new_slots model_requests)
  steps : {m m' : Slots} → Reaches model_requests m → ModelStep m m' → Reaches model_requests m'

step-permits :
    {m m' : Slots} (n : ℕ)
    → ModelStep m m'
    → m.permits + m.active_models ≡ n
    → m'.permits + m'.active_models ≡ n
unfolding wait_slot take_slot cancel_slot free_slot
step-permits n waits h = h
step-permits n (acquires p w) h = omega arith
step-permits n (is_cancelled w) h = h
step-permits n (releases a) h = omega arith

permits_total : {n : ℕ} {m : Slots} → Reaches n m → m.permits + m.active_models ≡ n
unfolding new_slots
permits_total {n} starts = omega arith
permits_total {n} (steps r s) = step-permits n s (permits_total r)

-- However the tasks interleave, cancelled ones included: no more model requests are active than the
-- limit allows, and what is left of it are the permits of the semaphore.
pub active_models-le :
    {n : ℕ} {m : Slots} → Reaches n m → (m.active_models ≤ n) × (m.permits + m.active_models ≡ n)
active_models-le r = (omega (arith, permits_total r), permits_total r)
