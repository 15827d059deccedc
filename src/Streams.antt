-- ===== src/Streams.antt =====
-- crates/client/src/transfer_state.rs: the sender's queue and the receiver's account of one file.
pub mod Schedule
pub mod Places
pub mod Speed
mod Examples
use file_send.Prelude.{
  ltb, ◌==◌, if◌then◌else◌, ◌>>=◌, length, retain, contains, others, Text, nat_key, text_key, ℕ,
  true, false, not, Option, none, some, List, [], ◌∷◌, ◌++◌,
}
use file_send.HashMap.{HashMap, get, remove}
use file_send.Float.{F64}
use file_send.Protocol.{FileStart}

-- std's HashSet of ids: a list without repetitions.
unfoldable pub set_insert : List ℕ → ℕ → List ℕ
set_insert s id = if contains s id then s else id ∷ s

unfoldable pub set_remove : List ℕ → ℕ → List ℕ
set_remove s id = retain (others id) s

-- The payload `P` is the browser's `File`.
pub record Outgoing (P : Type 0) : Type 0 where
  pub offered : HashMap ℕ P
  pub queue : List (ℕ × P)
  pub active : List ℕ
  pub cancelled : List ℕ

-- A chunk is the list of its bytes.
pub record Incoming (F : Type 0) : Type 0 where
  pub meta : Option (FileStart F)
  pub chunks : List (List ℕ)
  pub received : F
  pub speed : F
  pub win_start : F
  pub win_bytes : F

module _ {P : Type 0} where
  abbrev pub no_outgoing : Outgoing P
  no_outgoing = record { offered = []; queue = []; active = []; cancelled = [] }

  unfoldable pub enqueue_accepted : Outgoing P → ℕ → Outgoing P
  enqueue_accepted out id = elim (get out.offered id) [
    | none ↦ out
    | some file ↦ record out {
      offered = remove out.offered id;
      queue = out.queue ++ (id, file) ∷ [];
    }
  ]

  -- The loop of `schedule`: what is active, what waits, and what was started.
  unfoldable pub schedule_loop : List ℕ → List (ℕ × P) → ℕ → List ℕ × List (ℕ × P) × List (ℕ × P)
  schedule_loop active [] max = (active, [], [])
  schedule_loop active ((id, file) ∷ queue) max = elim (ltb (length active) max) [
    | true ↦
        (let (after, waiting, started) = schedule_loop (set_insert active id) queue max in
          (after, waiting, (id, file) ∷ started))
    | false ↦ (active, (id, file) ∷ queue, [])
  ]

  unfoldable pub schedule : Outgoing P → ℕ → Outgoing P × List (ℕ × P)
  schedule out max =
      let (after, waiting, started) = schedule_loop out.active out.queue max in
      (record out { active = after; queue = waiting }, started)

  unfoldable pub cancel_outgoing : Outgoing P → ℕ → Outgoing P
  cancel_outgoing out id = record out {
    offered = remove out.offered id;
    queue = retain (λ entry. not (entry.0 == id)) out.queue;
    cancelled = set_insert out.cancelled id;
  }

abbrev pub window_ms : ℕ
window_ms = 250

-- What a progress report says: id, name, size, received, speed.
abbrev pub Progress : Type 0 → Type 0
Progress F = ℕ × Text × F × F × F

module _ {F : Type 0} ⦃f64 : F64 F⦄ where
  unfoldable pub new_incoming : Incoming F
  new_incoming = record {
    meta = none;
    chunks = [];
    received = f64.of_nat 0;
    speed = f64.of_nat 0;
    win_start = f64.of_nat 0;
    win_bytes = f64.of_nat 0;
  }

  unfoldable pub update_speed : Incoming F → F → F → Incoming F
  update_speed inc len now =
      let total = f64.add inc.win_bytes len in
      let dt = f64.sub now inc.win_start in
      if f64.eq inc.win_start (f64.of_nat 0)
      then record inc { win_bytes = total; win_start = now }
      else (if f64.le (f64.of_nat window_ms) dt
          then record inc {
            speed = f64.div total (f64.div dt (f64.of_nat 1000));
            win_start = now;
            win_bytes = f64.of_nat 0;
          }
          else record inc { win_bytes = total })

  unfoldable pub account_chunk : Incoming F → F → F → Incoming F × Option (Progress F)
  account_chunk inc len now =
      let after = update_speed (record inc { received = f64.add inc.received len }) len now in
      (after, (do m ← after.meta; some (m.id, m.name, m.size, after.received, after.speed)))

  unfoldable pub finalize_decision : Incoming F → Incoming F × Option (FileStart F)
  finalize_decision inc = (record inc { meta = none }, inc.meta)

  -- `_end_id` is not read.
  unfoldable pub finalize_decision_checked : Incoming F → ℕ → Incoming F × Option (FileStart F)
  finalize_decision_checked inc end_id = (record inc { meta = none }, inc.meta)
