-- ===== src/Exchange/Nonce.antt =====
-- The nonce tracker of pkg/exchange/execution.go. The clock is an argument of each call.
pub mod Replay
use project_starfly_fabrics.Prelude.{
  ℕ, ◌+◌, ◌-◌, ◌*◌, ◌%◌, ◌^◌, String, Bool, ◌||◌, Option, none, some, List, [], ◌∷◌, if◌then◌else◌,
  leb, nat_beq, length, Result, ok, err,
}
use project_starfly_fabrics.Dict.{Dict, lookup, insert, keep}

pub data NonceError : Type 0 where
  nonce_replay : NonceError

abbrev pub second : ℕ
second = 1_000_000_000

abbrev pub execution_scope_ttl : ℕ
execution_scope_ttl = 30 * second

abbrev nonce_high_water_mark : ℕ
nonce_high_water_mark = 10_000

abbrev cleanup_interval : ℕ
cleanup_interval = 100

pub record NonceTracker : Type 0 where
  pub seen : Dict ℕ
  pub max_age : ℕ
  pub ops : ℕ

unfoldable pub new_nonce_tracker : NonceTracker
new_nonce_tracker = record { seen = []; max_age = execution_scope_ttl * 2; ops = 0 }

-- An age before the clock counts as 0, and never exceeds the limit.
unfoldable pub cleanup_locked : ℕ → NonceTracker → NonceTracker
cleanup_locked now n = record n { seen = keep (λ ts. leb (now - ts) n.max_age) n.seen }

-- The counter is a uint64.
unfoldable pub count_op : NonceTracker → NonceTracker
count_op n = record n { ops = (n.ops + 1) % 2 ^ 64 }

unfoldable pub cleanup_due : NonceTracker → Bool
cleanup_due n = leb nonce_high_water_mark (length n.seen) || nat_beq (n.ops % cleanup_interval) 0

unfoldable pub tidy : ℕ → NonceTracker → NonceTracker
tidy now n = let n' = count_op n in if cleanup_due n' then cleanup_locked now n' else n'

unfoldable pub record_nonce :
    Option ℕ → ℕ → String → NonceTracker → Result NonceError (Unit {0}) × NonceTracker
record_nonce (some ts) now nonce n = (err nonce_replay, n)
record_nonce none now nonce n = (ok tt, record n { seen = insert nonce now n.seen })

unfoldable pub check : ℕ → String → NonceTracker → Result NonceError (Unit {0}) × NonceTracker
check now nonce n = let n' = tidy now n in record_nonce (lookup nonce n'.seen) now nonce n'

-- A sequence of calls, each with its time.
unfoldable pub run : List (ℕ × String) → NonceTracker → NonceTracker
run [] n = n
run ((now, nonce) ∷ cs) n = run cs (check now nonce n).1
