-- ===== src/MemoryLeaseStore/Writes.antt =====
-- memory_lease_store.go: what is stored.
use agent_harness_runtime.Base.{
  ℕ, ◌+◌, ◌<◌, ◌≡◌, ◌⊎◌, inl, inr, refl, String, Bool, false, Option, none, some, arith, eq_iff,
  str_eq,
}
use agent_harness_runtime.Errors.{sentinel, execution_busy, ok, err}
use agent_harness_runtime.Checkpoint.{Checkpoint, validate_checkpoint}
use agent_harness_runtime.MemoryLeaseStore.{
  MemoryLeaseStore, Ctx, acquire_execution_lease, release_lease, record_error, load,
  renew_execution_lease, plain_write, write_fenced,
}
use agent_harness_runtime.MemoryLeaseStore.Steps.{
  Step, acquires, releases, renews, writes_plain, writes, Steps, done, next,
}

pub nonempty :
    (utf8_valid : String → Bool) (cp : Checkpoint)
    → validate_checkpoint utf8_valid cp ≡ none
    → str_eq cp.execution_id "" ≡ false
unfolding validate_checkpoint
nonempty utf8_valid cp h = ground arith

-- What is stored is valid and stands under its own ID.
abbrev pub StoredValid : (String → Bool) → String → Option Checkpoint → Type 0
StoredValid utf8_valid id none = Unit
StoredValid utf8_valid id (some cp) =
    (validate_checkpoint utf8_valid cp ≡ none) × (cp.execution_id ≡ id)

-- A stored checkpoint with a revision stays, or one of a higher revision has replaced it.
abbrev pub Advances : Option Checkpoint → Option Checkpoint → Type 0
Advances none o = Unit
Advances (some cp) none = ⊥
Advances (some cp) (some cp') = (cp.revision ≡ 0) ⊎ ((cp' ≡ cp) ⊎ (cp.revision < cp'.revision))

Advances-refl : (o : Option Checkpoint) → Advances o o
Advances-refl none = tt
Advances-refl (some cp) = inr (inl refl)

Advances-trans : (a b c : Option Checkpoint) → Advances a b → Advances b c → Advances a c
Advances-trans none b c h g = tt
Advances-trans (some x) none c h g = absurd h
Advances-trans (some x) (some y) none h g = absurd g
Advances-trans (some x) (some y) (some z) (inl h) g = inl h
Advances-trans (some x) (some y) (some z) (inr (inl h)) g = rw⁻¹ h g
Advances-trans (some x) (some y) (some z) (inr (inr h)) (inl g) = absurd (omega arith)
Advances-trans (some x) (some y) (some z) (inr (inr h)) (inr (inl g)) = rw g (inr (inr h))
Advances-trans (some x) (some y) (some z) (inr (inr h)) (inr (inr g)) = inr (inr (omega arith))

acquire-records :
    (s : MemoryLeaseStore) (ctx : Ctx) (id : String) (now : ℕ)
    → (acquire_execution_lease s ctx id now).1.records ≡ s.records
unfolding acquire_execution_lease
acquire-records s ctx id now = ground arith

release-records :
    (s : MemoryLeaseStore) (id : String) (t : ℕ) → (release_lease s id t).records ≡ s.records
unfolding release_lease
release-records s id t = ground arith

renew-records :
    (s : MemoryLeaseStore) (ctx : Ctx) (id : String) (t now : ℕ)
    → (renew_execution_lease s ctx id t now).1.records ≡ s.records
unfolding renew_execution_lease
renew-records s ctx id t now = ground arith

plain_write-records :
    (s : MemoryLeaseStore) (ctx : Ctx) (cp : Checkpoint)
    → (plain_write s ctx cp).1.records ≡ s.records
unfolding plain_write
plain_write-records s ctx cp = ground arith

write_fenced-Advances :
    (utf8_valid : String → Bool) (s : MemoryLeaseStore) (ctx : Ctx) (cp : Checkpoint) (t : ℕ)
    (create : Bool) (now : ℕ) (id : String)
    → StoredValid utf8_valid id (s.records id)
    → let s' = (write_fenced utf8_valid s ctx cp t create now).1 in
      StoredValid utf8_valid id (s'.records id) × Advances (s.records id) (s'.records id)
unfolding write_fenced
write_fenced-Advances utf8_valid s ctx cp t create now id h =
    ground (arith, eq_iff id cp.execution_id, Advances-refl (s.records id))

step-Advances :
    (utf8_valid : String → Bool) (s s' : MemoryLeaseStore) (id : String)
    → Step utf8_valid s s'
    → StoredValid utf8_valid id (s.records id)
    → StoredValid utf8_valid id (s'.records id) × Advances (s.records id) (s'.records id)
step-Advances utf8_valid s s' id (acquires ctx other now e) h =
    rw (e, acquire-records s ctx other now) (h, Advances-refl _)
step-Advances utf8_valid s s' id (releases other t e) h =
    rw (e, release-records s other t) (h, Advances-refl _)
step-Advances utf8_valid s s' id (renews ctx other t now e) h =
    rw (e, renew-records s ctx other t now) (h, Advances-refl _)
step-Advances utf8_valid s s' id (writes_plain ctx cp e) h =
    rw (e, plain_write-records s ctx cp) (h, Advances-refl _)
step-Advances utf8_valid s s' id (writes ctx cp t create now e) h =
    rw e (write_fenced-Advances utf8_valid s ctx cp t create now id h)

-- Whatever the workers do, in any order: if what is stored for an execution is valid and under its
-- own ID at first, it stays so, and a stored checkpoint with a nonzero revision is only ever
-- replaced by one of a higher revision.
pub Steps-Advances :
    (utf8_valid : String → Bool) (s s' : MemoryLeaseStore) (id : String)
    → Steps utf8_valid s s'
    → StoredValid utf8_valid id (s.records id)
    → StoredValid utf8_valid id (s'.records id) × Advances (s.records id) (s'.records id)
Steps-Advances utf8_valid s s' id (done _) h = (h, Advances-refl _)
Steps-Advances utf8_valid s s' id (next _ b _ step rest) h =
    let (kept, on) = step-Advances utf8_valid s b id step h in
    let (kept', on') = Steps-Advances utf8_valid b s' id rest kept in
    (kept', Advances-trans _ _ _ on on')

-- A checkpoint whose write is accepted is what the next load of its execution returns.
pub write_fenced-load :
    (utf8_valid : String → Bool) (s : MemoryLeaseStore) (ctx : Ctx) (cp : Checkpoint) (t : ℕ)
    (create : Bool) (now : ℕ)
    → (write_fenced utf8_valid s ctx cp t create now).0 ≡ none
    → load (write_fenced utf8_valid s ctx cp t create now).1 (some none) cp.execution_id ≡ ok cp
unfolding write_fenced load
write_fenced-load utf8_valid s ctx cp t create now h =
    ground (arith, eq_iff cp.execution_id cp.execution_id, nonempty utf8_valid cp)

-- Until its lease expires, the worker that has just acquired it may write a valid checkpoint that the
-- stored one allows, and no other worker can acquire the execution.
pub acquired-exclusive :
    (utf8_valid : String → Bool) (s : MemoryLeaseStore) (ctx : Ctx) (cp : Checkpoint)
    (create : Bool) (now now' token : ℕ)
    → (acquire_execution_lease s ctx cp.execution_id now).0 ≡ ok token
    → now' < now + s.lease_duration
    → validate_checkpoint utf8_valid cp ≡ none
    → record_error create (s.records cp.execution_id) cp ≡ none
    → let s' = (acquire_execution_lease s ctx cp.execution_id now).1 in
      ((write_fenced utf8_valid s' (some none) cp token create now').0 ≡ none)
      × (acquire_execution_lease s' (some none) cp.execution_id now'
          ≡ (err (sentinel execution_busy), s'))
unfolding acquire_execution_lease write_fenced
acquired-exclusive utf8_valid s ctx cp create now now' token h before good allowed =
    ground (arith, eq_iff cp.execution_id cp.execution_id, nonempty utf8_valid cp good)
