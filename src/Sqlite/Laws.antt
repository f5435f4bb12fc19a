-- ===== src/Sqlite/Laws.antt =====
-- sqlite_store.go: the table is a store in memory, and what that gives.
use agent_harness_runtime.Base.{
  ℕ, ◌<◌, ◌≡◌, ◌≢◌, ◌⊎◌, refl, inl, inr, String, Bool, Option, none, arith,
}
use agent_harness_runtime.Errors.{Reply, ok}
use agent_harness_runtime.Checkpoint.{Checkpoint}
use agent_harness_runtime.MemoryLeaseStore.{
  MemoryLeaseStore, Ctx, acquire_execution_lease as memory_acquire,
}
use agent_harness_runtime.MemoryLeaseStore.Steps.{
  Steps, done, next, acquires, releases, renews, writes,
}
use agent_harness_runtime.MemoryLeaseStore.Fencing.{stale_worker-refused}
use agent_harness_runtime.MemoryLeaseStore.Writes.{StoredValid, Advances, Steps-Advances}
use agent_harness_runtime.Sqlite.{Row, SqliteCheckpointStore, Fault}
use agent_harness_runtime.Sqlite.Operations.{
  acquire_execution_lease, renew_execution_lease, plain_write, write_fenced,
}
use agent_harness_runtime.Sqlite.Operations.Refines.{
  acquire-Refines, release-Refines, renew-Refines, write-Refines,
}
use agent_harness_runtime.Sqlite.Views.{Views}
use agent_harness_runtime.Sqlite.Steps.{
  SqliteStep, leasing, freeing, renewing, writing_plain, writing, SqliteSteps, ended, followed,
}

plain_write-unchanged :
    {B : Type 0} (s : SqliteCheckpointStore B) (ctx : Ctx) (cp : Checkpoint)
    → (plain_write s ctx cp).1 ≡ s
unfolding plain_write
plain_write-unchanged s ctx cp = ground arith

module _ {B : Type 0} (utf8_valid : String → Bool) (marshal : Checkpoint → Reply B)
    (unmarshal : B → Reply Checkpoint)
    (decodes : (cp : Checkpoint) (blob : B) → marshal cp ≡ ok blob → unmarshal blob ≡ ok cp) where
  -- The store in memory can follow to a state that the table shows.
  abbrev Follows : MemoryLeaseStore → SqliteCheckpointStore B → Type 0
  Follows m s' = (m' : MemoryLeaseStore) × Steps utf8_valid m m' × Views unmarshal s' m'

  rests :
      (s s' : SqliteCheckpointStore B) (m : MemoryLeaseStore)
      → Views unmarshal s m
      → s' ≡ s
      → Follows m s'
  rests s s' m h e = (m, done m, rw e h)

  step-Refines :
      (s s' : SqliteCheckpointStore B) (m : MemoryLeaseStore)
      → SqliteStep utf8_valid marshal unmarshal s s'
      → Views unmarshal s m
      → Follows m s'
  step-Refines s s' m (leasing ctx id now fault seen e) h =
      elim (acquire-Refines unmarshal s m ctx id now fault seen h) [
        | inl kept ↦ rests s s' m h (rw e (kept.0))
        | inr (token, q, v, x) ↦ (_, next m _ _ (acquires ctx id now refl) (done _), rw e v)
      ]
  step-Refines s s' m (freeing id token fault e) h =
      elim (release-Refines unmarshal s m id token fault h) [
        | inl kept ↦ rests s s' m h (rw e kept)
        | inr v ↦ (_, next m _ _ (releases id token refl) (done _), rw e v)
      ]
  step-Refines s s' m (renewing ctx id token now fault e) h =
      elim (renew-Refines unmarshal s m ctx id token now fault h) [
        | inl kept ↦ rests s s' m h (rw e (kept.0))
        | inr (q, v) ↦ (_, next m _ _ (renews ctx id token now refl) (done _), rw e v)
      ]
  step-Refines s s' m (writing_plain ctx cp e) h =
      rests s s' m h (rw e (plain_write-unchanged s ctx cp))
  step-Refines s s' m (writing ctx cp token create now fault seen e) h =
      elim (write-Refines unmarshal utf8_valid marshal decodes s m ctx cp token create now fault
        seen h) [
          | inl kept ↦ rests s s' m h (rw e (kept.0))
          | inr (q, v) ↦ (_, next m _ _ (writes ctx cp token create now refl) (done _), rw e v)
        ]

  joins :
      (m m' m'' : MemoryLeaseStore)
      → Steps utf8_valid m m'
      → Steps utf8_valid m' m''
      → Steps utf8_valid m m''
  joins m m' m'' (done _) rest = rest
  joins m m' m'' (next _ b _ step steps) rest = next m b m'' step (joins b m' m'' steps rest)

  pub SqliteSteps-Refines :
      (s s' : SqliteCheckpointStore B) (m : MemoryLeaseStore)
      → SqliteSteps utf8_valid marshal unmarshal s s'
      → Views unmarshal s m
      → (m' : MemoryLeaseStore) × Steps utf8_valid m m' × Views unmarshal s' m'
  SqliteSteps-Refines s s' m (ended _) h = (m, done m, h)
  SqliteSteps-Refines s s' m (followed _ b _ step rest) h =
      let (m1, one, v) = step-Refines s b m step h in
      let (m2, more, w) = SqliteSteps-Refines b s' m1 rest v in (m2, joins m m1 m2 one more, w)

  -- If encoded checkpoints decode to themselves, and the table shows a store in memory with a valid
  -- checkpoint of `id` or none, then after any operations of any processes, however they end, it
  -- shows one in which the checkpoint of `id` is valid, and has replaced the earlier one, if that
  -- had a revision, only by one of a higher revision.
  pub SqliteSteps-Advances :
      (s s' : SqliteCheckpointStore B) (m : MemoryLeaseStore) (id : String)
      → SqliteSteps utf8_valid marshal unmarshal s s'
      → Views unmarshal s m
      → StoredValid utf8_valid id (m.records id)
      → (m' : MemoryLeaseStore) × Views unmarshal s' m'
        × StoredValid utf8_valid id (m'.records id)
        × Advances (m.records id) (m'.records id)
  SqliteSteps-Advances s s' m id steps h good =
      let (m', follow, v) = SqliteSteps-Refines s s' m steps h in
      let (kept, on) = Steps-Advances utf8_valid m m' id follow good in (m', v, kept, on)

  granted :
      (s : SqliteCheckpointStore B) (m : MemoryLeaseStore) (ctx : Ctx) (id : String) (now token : ℕ)
      (fault : Fault) (seen : Reply (Option (Row B)))
      → Views unmarshal s m
      → (acquire_execution_lease s ctx id now fault seen).0 ≡ ok token
      → ((memory_acquire m ctx id now).0 ≡ ok token)
        × Views unmarshal
            (acquire_execution_lease s ctx id now fault seen).1
            (memory_acquire m ctx id now).1
  granted s m ctx id now token fault seen h q =
      elim (acquire-Refines unmarshal s m ctx id now fault seen h) [
        | inl kept ↦ absurd (kept.1 token q)
        | inr (t, a, v, inl b) ↦ (cc, v)
        | inr (t, a, v, inr (e, b)) ↦ cc
      ]

  -- If encoded checkpoints decode to themselves and the table shows a store in memory at first:
  -- once a second process has acquired an execution, whatever all processes have done before and
  -- since and however their operations ended, the token of the first acquisition is smaller, it can
  -- neither write the execution's checkpoint nor renew its lease, and the attempts leave the table
  -- as it is.
  pub stale_process-refused :
      (s s' s'' : SqliteCheckpointStore B) (m : MemoryLeaseStore) (ctx ctx' ctx'' : Ctx)
      (cp : Checkpoint) (create : Bool) (now now' now'' token token' : ℕ)
      (fault fault' fault'' : Fault) (seen seen' seen'' : Reply (Option (Row B)))
      → Views unmarshal s m
      → (acquire_execution_lease s ctx cp.execution_id now fault seen).0 ≡ ok token
      → SqliteSteps utf8_valid marshal unmarshal
          (acquire_execution_lease s ctx cp.execution_id now fault seen).1
          s'
      → (acquire_execution_lease s' ctx' cp.execution_id now' fault' seen').0 ≡ ok token'
      → SqliteSteps utf8_valid marshal unmarshal
          (acquire_execution_lease s' ctx' cp.execution_id now' fault' seen').1
          s''
      → let write =
          write_fenced utf8_valid marshal unmarshal s'' ctx'' cp token create now'' fault''
            seen'' in
        let renew = renew_execution_lease s'' ctx'' cp.execution_id token now'' fault'' in
        (token < token') × (write.1 ≡ s'') × (write.0 ≢ none) × (renew.1 ≡ s'') × (renew.0 ≢ none)
  stale_process-refused s s' s'' m ctx ctx' ctx'' cp create now now' now'' token token' fault fault'
        fault'' seen seen' seen'' h first before second since =
      let id = cp.execution_id in
      let (g, v) = granted s m ctx id now token fault seen h first in
      let (m1, run1, v1) = SqliteSteps-Refines _ s' (memory_acquire m ctx id now).1 before v in
      let (g2, v2) = granted s' m1 ctx' id now' token' fault' seen' v1 second in
      let (m2, run2, v3) = SqliteSteps-Refines _ s'' (memory_acquire m1 ctx' id now').1 since v2 in
      let out =
        stale_worker-refused utf8_valid m m1 m2 ctx ctx' ctx'' cp create now now' now'' token token'
          g run1 g2 run2 in
      let w =
        write-Refines unmarshal utf8_valid marshal decodes s'' m2 ctx'' cp token create now''
          fault'' seen'' v3 in
      let r = renew-Refines unmarshal s'' m2 ctx'' id token now'' fault'' v3 in
      let w' = kept_or w (λ q. out.2 q) in
      let r' = kept_or r (λ q. out.4 q) in (out.0, w'.0, w'.1, r'.0, r'.1)
    where
      kept_or : {A C D : Type 0} → A ⊎ (C × D) → (C → ⊥) → A
      kept_or (inl a) never = a
      kept_or (inr (c, d)) never = absurd (never c)
