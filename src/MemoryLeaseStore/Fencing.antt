-- ===== src/MemoryLeaseStore/Fencing.antt =====
-- memory_lease_store.go: a worker that lost its lease stays shut out.
use agent_harness_runtime.Base.{
  ℕ, ◌^◌, ◌<◌, ◌≤◌, ◌≡◌, ◌≢◌, String, Bool, Option, none, some, arith, eq_iff,
}
use agent_harness_runtime.Errors.{ok}
use agent_harness_runtime.Checkpoint.{Checkpoint}
use agent_harness_runtime.MemoryLeaseStore.{
  MemoryLeaseStore, MemoryExecutionLease, Ctx, or_zero, acquire_execution_lease, release_lease,
  renew_execution_lease, plain_write, write_fenced,
}
use agent_harness_runtime.MemoryLeaseStore.Steps.{
  Step, acquires, releases, renews, writes_plain, writes, Steps, done, next,
}

-- The lease, if there is one, has a newer token.
abbrev pub Above : ℕ → Option MemoryExecutionLease → Type 0
Above token none = Unit
Above token (some lease) = token < lease.token

-- The token has been issued, and the counter of tokens has not wrapped around.
abbrev pub Issued : String → ℕ → MemoryLeaseStore → Type 0
Issued id token s = (token ≤ or_zero (s.last_token id)) × (or_zero (s.last_token id) < 2 ^ 64)

-- A newer token has been issued, and no lease has this one.
abbrev pub Superseded : String → ℕ → MemoryLeaseStore → Type 0
Superseded id token s = Issued id token s × Above token (s.leases id)

acquire-Issued :
    (s : MemoryLeaseStore) (ctx : Ctx) (other id : String) (now token : ℕ)
    → Issued id token s
    → Issued id token (acquire_execution_lease s ctx other now).1
unfolding acquire_execution_lease
acquire-Issued s ctx other id now token h = ground (arith, eq_iff id other)

acquire-Superseded :
    (s : MemoryLeaseStore) (ctx : Ctx) (other id : String) (now token : ℕ)
    → Superseded id token s
    → Superseded id token (acquire_execution_lease s ctx other now).1
unfolding acquire_execution_lease
acquire-Superseded s ctx other id now token h = ground (arith, eq_iff id other)

release-Superseded :
    (s : MemoryLeaseStore) (other id : String) (t token : ℕ)
    → Superseded id token s
    → Superseded id token (release_lease s other t)
unfolding release_lease
release-Superseded s other id t token h = ground (arith, eq_iff id other)

renew-Superseded :
    (s : MemoryLeaseStore) (ctx : Ctx) (other id : String) (t now token : ℕ)
    → Superseded id token s
    → Superseded id token (renew_execution_lease s ctx other t now).1
unfolding renew_execution_lease
renew-Superseded s ctx other id t now token h = ground (arith, eq_iff id other)

-- The counters of a store, which only an acquisition changes.
release-last_token :
    (s : MemoryLeaseStore) (id : String) (t : ℕ) → (release_lease s id t).last_token ≡ s.last_token
unfolding release_lease
release-last_token s id t = ground arith

renew-last_token :
    (s : MemoryLeaseStore) (ctx : Ctx) (id : String) (t now : ℕ)
    → (renew_execution_lease s ctx id t now).1.last_token ≡ s.last_token
unfolding renew_execution_lease
renew-last_token s ctx id t now = ground arith

plain_write-unchanged :
    (s : MemoryLeaseStore) (ctx : Ctx) (cp : Checkpoint) → (plain_write s ctx cp).1 ≡ s
unfolding plain_write
plain_write-unchanged s ctx cp = ground arith

write_fenced-leases :
    (utf8_valid : String → Bool) (s : MemoryLeaseStore) (ctx : Ctx) (cp : Checkpoint) (t : ℕ)
    (create : Bool) (now : ℕ)
    → let s' = (write_fenced utf8_valid s ctx cp t create now).1 in
      (s'.leases ≡ s.leases) × (s'.last_token ≡ s.last_token)
unfolding write_fenced
write_fenced-leases utf8_valid s ctx cp t create now = ground arith

step-Issued :
    (utf8_valid : String → Bool) (s s' : MemoryLeaseStore) (id : String) (token : ℕ)
    → Step utf8_valid s s'
    → Issued id token s
    → Issued id token s'
step-Issued utf8_valid s s' id token (acquires ctx other now e) h =
    rw e (acquire-Issued s ctx other id now token h)
step-Issued utf8_valid s s' id token (releases other t e) h = rw (e, release-last_token s other t) h
step-Issued utf8_valid s s' id token (renews ctx other t now e) h =
    rw (e, renew-last_token s ctx other t now) h
step-Issued utf8_valid s s' id token (writes_plain ctx cp e) h =
    rw (e, plain_write-unchanged s ctx cp) h
step-Issued utf8_valid s s' id token (writes ctx cp t create now e) h =
    rw (e, (write_fenced-leases utf8_valid s ctx cp t create now).1) h

step-Superseded :
    (utf8_valid : String → Bool) (s s' : MemoryLeaseStore) (id : String) (token : ℕ)
    → Step utf8_valid s s'
    → Superseded id token s
    → Superseded id token s'
step-Superseded utf8_valid s s' id token (acquires ctx other now e) h =
    rw e (acquire-Superseded s ctx other id now token h)
step-Superseded utf8_valid s s' id token (releases other t e) h =
    rw e (release-Superseded s other id t token h)
step-Superseded utf8_valid s s' id token (renews ctx other t now e) h =
    rw e (renew-Superseded s ctx other id t now token h)
step-Superseded utf8_valid s s' id token (writes_plain ctx cp e) h =
    rw (e, plain_write-unchanged s ctx cp) h
step-Superseded utf8_valid s s' id token (writes ctx cp t create now e) h =
    let kept = write_fenced-leases utf8_valid s ctx cp t create now in rw (e, kept.0, kept.1) h

Steps-Issued :
    (utf8_valid : String → Bool) (s s' : MemoryLeaseStore) (id : String) (token : ℕ)
    → Steps utf8_valid s s'
    → Issued id token s
    → Issued id token s'
Steps-Issued utf8_valid s s' id token (done _) h = h
Steps-Issued utf8_valid s s' id token (next _ b _ step rest) h =
    Steps-Issued utf8_valid b s' id token rest (step-Issued utf8_valid s b id token step h)

Steps-Superseded :
    (utf8_valid : String → Bool) (s s' : MemoryLeaseStore) (id : String) (token : ℕ)
    → Steps utf8_valid s s'
    → Superseded id token s
    → Superseded id token s'
Steps-Superseded utf8_valid s s' id token (done _) h = h
Steps-Superseded utf8_valid s s' id token (next _ b _ step rest) h =
    Steps-Superseded utf8_valid b s' id token rest (step-Superseded utf8_valid s b id token step h)

-- An acquisition issues its token.
acquired-Issued :
    (s : MemoryLeaseStore) (ctx : Ctx) (id : String) (now token : ℕ)
    → (acquire_execution_lease s ctx id now).0 ≡ ok token
    → Issued id token (acquire_execution_lease s ctx id now).1
unfolding acquire_execution_lease
acquired-Issued s ctx id now token h = ground (arith, eq_iff id id)

-- It supersedes all tokens issued before.
acquired-Superseded :
    (s : MemoryLeaseStore) (ctx : Ctx) (id : String) (now token old : ℕ)
    → (acquire_execution_lease s ctx id now).0 ≡ ok token
    → Issued id old s
    → (old < token) × Superseded id old (acquire_execution_lease s ctx id now).1
unfolding acquire_execution_lease
acquired-Superseded s ctx id now token old h issued = ground (arith, eq_iff id id)

Superseded-write :
    (utf8_valid : String → Bool) (s : MemoryLeaseStore) (ctx : Ctx) (cp : Checkpoint) (token : ℕ)
    (create : Bool) (now : ℕ)
    → Superseded cp.execution_id token s
    → ((write_fenced utf8_valid s ctx cp token create now).1 ≡ s)
      × ((write_fenced utf8_valid s ctx cp token create now).0 ≢ none)
unfolding write_fenced
Superseded-write utf8_valid s ctx cp token create now h = ground arith

Superseded-renew :
    (s : MemoryLeaseStore) (ctx : Ctx) (id : String) (token now : ℕ)
    → Superseded id token s
    → ((renew_execution_lease s ctx id token now).1 ≡ s)
      × ((renew_execution_lease s ctx id token now).0 ≢ none)
unfolding renew_execution_lease
Superseded-renew s ctx id token now h = ground arith

-- Once a second worker has acquired the lease of an execution, whatever all workers have done before
-- and since, the token of the first acquisition is smaller, it can neither write the execution's
-- checkpoint nor renew its lease, and the attempts leave the store as it is.
pub stale_worker-refused :
    (utf8_valid : String → Bool) (s s' s'' : MemoryLeaseStore) (ctx ctx' ctx'' : Ctx)
    (cp : Checkpoint) (create : Bool) (now now' now'' token token' : ℕ)
    → (acquire_execution_lease s ctx cp.execution_id now).0 ≡ ok token
    → Steps utf8_valid (acquire_execution_lease s ctx cp.execution_id now).1 s'
    → (acquire_execution_lease s' ctx' cp.execution_id now').0 ≡ ok token'
    → Steps utf8_valid (acquire_execution_lease s' ctx' cp.execution_id now').1 s''
    → (token < token')
      × ((write_fenced utf8_valid s'' ctx'' cp token create now'').1 ≡ s'')
      × ((write_fenced utf8_valid s'' ctx'' cp token create now'').0 ≢ none)
      × ((renew_execution_lease s'' ctx'' cp.execution_id token now'').1 ≡ s'')
      × ((renew_execution_lease s'' ctx'' cp.execution_id token now'').0 ≢ none)
stale_worker-refused utf8_valid s s' s'' ctx ctx' ctx'' cp create now now' now'' token token' first
      before second since =
    let issued = acquired-Issued s ctx cp.execution_id now token first in
    let kept = Steps-Issued utf8_valid _ s' cp.execution_id token before issued in
    let (older, over) = acquired-Superseded s' ctx' cp.execution_id now' token' token second kept in
    let out = Steps-Superseded utf8_valid _ s'' cp.execution_id token since over in
    let (a, b) = Superseded-write utf8_valid s'' ctx'' cp token create now'' out in
    let (c, d) = Superseded-renew s'' ctx'' cp.execution_id token now'' out in (older, a, b, c, d)
