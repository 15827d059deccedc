-- ===== src/Limiter.antt =====
-- crates/server/src/limiter.rs: the limit on failed joins per source address. `-` on ℕ is the
-- source's `saturating_sub`; the clock is the caller's.
pub mod Recorded
pub mod Window
mod Examples
use file_send.HashMap.{HashMap, get, insert, remove}
use file_send.Prelude.{
  ltb, if◌then◌else◌, length, is_empty, retain, Key, nat_key, text_key, ℕ, ◌-◌, Bool, none, some,
  List, [], ◌∷◌, ◌++◌, ℕ_discrete,
}

-- std::net::IpAddr, an address as its bits.
pub data IpAddr : Type 0 where
  v4 : ℕ → IpAddr
  v6 : ℕ → IpAddr

unfoldable pub IpAddr-discrete : Discrete IpAddr
IpAddr-discrete = hlevel ℕ_discrete

instance abbrev pub ip_key : Key IpAddr
ip_key = record { same = IpAddr-discrete }

pub record JoinLimiter : Type 0 where
  pub window_ms : ℕ
  pub max_failures : ℕ
  pub failures : HashMap IpAddr (List ℕ)

unfoldable pub new : ℕ → ℕ → JoinLimiter
new window_ms max_failures = record {
  window_ms = window_ms;
  max_failures = max_failures;
  failures = [];
}

-- The test by which `prune` keeps a timestamp.
abbrev pub recent : ℕ → ℕ → ℕ → Bool
recent window_ms now_ms t = ltb (now_ms - t) window_ms

-- What `prune` does to an entry that is there.
unfoldable pub prune_entry : JoinLimiter → IpAddr → List ℕ → HashMap IpAddr (List ℕ)
prune_entry l ip v = if is_empty v then remove l.failures ip else insert l.failures ip v

unfoldable pub prune : JoinLimiter → IpAddr → ℕ → JoinLimiter
prune l ip now_ms = elim (get l.failures ip) [
  | none ↦ l
  | some v ↦ record l { failures = prune_entry l ip (retain (recent l.window_ms now_ms) v) }
]

unfoldable pub allowed : JoinLimiter → IpAddr → ℕ → JoinLimiter × Bool
allowed l ip now_ms =
    let pruned = prune l ip now_ms in
    (
      pruned,
      ltb (elim (get pruned.failures ip) [ none ↦ 0 | some v ↦ length v ]) pruned.max_failures,
    )

unfoldable pub record_failure : JoinLimiter → IpAddr → ℕ → JoinLimiter
record_failure l ip now_ms =
    let pruned = prune l ip now_ms in
    record pruned {
      failures =
          insert pruned.failures ip
            (elim (get pruned.failures ip) [ none ↦ now_ms ∷ [] | some v ↦ v ++ now_ms ∷ [] ]);
    }
