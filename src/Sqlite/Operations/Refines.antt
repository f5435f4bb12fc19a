-- ===== src/Sqlite/Operations/Refines.antt =====
-- sqlite_store.go: every operation, however its statement ends and whatever a later query sees, leaves
-- the table as it was or does what the operation of memory_lease_store.go does.
use agent_harness_runtime.Base.{
  ℕ, ◌+◌, ◌≡◌, ◌≢◌, ◌⊎◌, refl, inl, inr, String, Bool, true, false, Option, none, some,
  Option-cases, Bool-cases, ◌∙◌,
}
use agent_harness_runtime.Errors.{Error, Reply, ok, err}
use agent_harness_runtime.Checkpoint.{Checkpoint}
use agent_harness_runtime.MemoryLeaseStore.{
  MemoryLeaseStore, MemoryExecutionLease, Ctx, acquire_execution_lease as memory_acquire,
  release_lease as memory_release, owns, renew_execution_lease as memory_renew,
  write_fenced as memory_write,
}
use agent_harness_runtime.Sqlite.{Row, SqliteCheckpointStore, Fault, released_row, put, exec}
use agent_harness_runtime.Sqlite.Operations.{
  acquire_execution_lease, release_lease, renew_execution_lease, write_fenced,
}
use agent_harness_runtime.Sqlite.Memory.{
  acquire-Elsewhere, release-Elsewhere, renew-Elsewhere, write-Elsewhere, memory_acquire-granted,
  memory_release-freed, memory_renew-renewed, memory_write-written,
}
use agent_harness_runtime.Sqlite.Operations.Cases.{acquire-Leased, renew-Renewed, write-Wrote}
use agent_harness_runtime.Sqlite.Views.{
  Views, put-Views, leased_row-Views, released_row-Views, renewed_row-Views, written_row-Views,
  released_row-owned,
}

module _ {B : Type 0} (unmarshal : B → Reply Checkpoint) where
  pub acquire-Refines :
      (s : SqliteCheckpointStore B) (m : MemoryLeaseStore) (ctx : Ctx) (id : String) (now : ℕ)
      (fault : Fault) (seen : Reply (Option (Row B)))
      → Views unmarshal s m
      → let r = acquire_execution_lease s ctx id now fault seen in
        let q = memory_acquire m ctx id now in
        ((r.1 ≡ s) × ((token : ℕ) → r.0 ≢ ok token))
        ⊎ ((token : ℕ) × (q.0 ≡ ok token)
            × Views unmarshal r.1 q.1
            × ((r.0 ≡ ok token) ⊎ ((e : Error) × (r.0 ≡ err e))))
  acquire-Refines s m ctx id now fault seen h = elim (acquire-Leased s ctx id now fault seen) [
    | inl kept ↦ inl kept
    | inr (row, c, i, l, a, b) ↦
        let new : MemoryExecutionLease = record {
          token = row.fencing_token;
          expires_at = now + m.lease_duration;
        } in
        let v =
          leased_row-Views unmarshal (s.table id) (m.last_token id) (m.leases id) (m.records id)
            (now + s.lease_duration) now row new (h.1 id) l refl (rw (h.0) refl) in
        let g = memory_acquire-granted m ctx id now row.fencing_token c i v.0 v.1 v.2 in
        inr (
          row.fencing_token,
          g.0,
          rw a (
              put-Views unmarshal s m _ id row h (acquire-Elsewhere m ctx id now)
                (rw (g.1, g.2, g.3) v.3)),
          b,
        )
  ]

  released :
      (s : SqliteCheckpointStore B) (m : MemoryLeaseStore) (id : String) (token : ℕ) (row : Row B)
      → Views unmarshal s m
      → released_row (s.table id) token ≡ some row
      → Views unmarshal (put s id (some row)) (memory_release m id token)
  released s m id token row h q =
      let g = memory_release-freed m id token in
      let v =
        released_row-Views unmarshal (s.table id) (m.last_token id) (m.leases id) (m.records id)
          token row (h.1 id) q in
      let freed : (memory_release m id token).leases id ≡ none =
        elim (Bool-cases (owns (m.leases id) token)) [
          | inl e ↦ g.2 e
          | inr e ↦
              g.3 e
              ∙ released_row-owned unmarshal (s.table id) (m.last_token id) (m.leases id)
                  (m.records id) token row (h.1 id) q e
        ] in
      put-Views unmarshal s m _ id row h (release-Elsewhere m id token) (rw (g.0, g.1, freed) v)

  pub release-Refines :
      (s : SqliteCheckpointStore B) (m : MemoryLeaseStore) (id : String) (token : ℕ) (fault : Fault)
      → Views unmarshal s m
      → (release_lease s id token fault ≡ s)
        ⊎ Views unmarshal (release_lease s id token fault) (memory_release m id token)
  unfolding release_lease
  release-Refines s m id token fault h = elim (Option-cases (released_row (s.table id) token)) [
    | inl q ↦ inl (stays fault (released_row (s.table id) token) q)
    | inr (row, q) ↦ elim (changes fault (released_row (s.table id) token) row q) [
      | inl e ↦ inl e
      | inr e ↦ inr (rw e (released s m id token row h q))
    ]
  ]
    where
      stays : (fault : Fault) (o : Option (Row B)) → o ≡ none → (exec s id o fault).1 ≡ s
      stays none o q = rw q refl
      stays (some (e, true)) o q = rw q refl
      stays (some (e, false)) o q = refl

      changes :
          (fault : Fault) (o : Option (Row B)) (row : Row B)
          → o ≡ some row
          → ((exec s id o fault).1 ≡ s) ⊎ ((exec s id o fault).1 ≡ put s id (some row))
      changes none o row q = rw q (inr refl)
      changes (some (e, true)) o row q = rw q (inr refl)
      changes (some (e, false)) o row q = inl refl

  pub renew-Refines :
      (s : SqliteCheckpointStore B) (m : MemoryLeaseStore) (ctx : Ctx) (id : String) (token now : ℕ)
      (fault : Fault)
      → Views unmarshal s m
      → let r = renew_execution_lease s ctx id token now fault in
        let q = memory_renew m ctx id token now in
        ((r.1 ≡ s) × (r.0 ≢ none)) ⊎ ((q.0 ≡ none) × Views unmarshal r.1 q.1)
  renew-Refines s m ctx id token now fault h = elim (renew-Renewed s ctx id token now fault) [
    | inl kept ↦ inl kept
    | inr (row, c, i, l, a) ↦
        let new : MemoryExecutionLease = record {
          token = token;
          expires_at = now + m.lease_duration;
        } in
        let v =
          renewed_row-Views unmarshal (s.table id) (m.last_token id) (m.leases id) (m.records id)
            token (now + s.lease_duration) now row new (h.1 id) l refl (rw (h.0) refl) in
        let g = memory_renew-renewed m ctx id token now c i v.0 in
        inr (
          g.0,
          rw a (
              put-Views unmarshal s m _ id row h (renew-Elsewhere m ctx id token now)
                (rw (g.1, g.2, g.3) v.1)),
        )
  ]

  pub write-Refines :
      (utf8_valid : String → Bool) (marshal : Checkpoint → Reply B)
      → ((cp : Checkpoint) (blob : B) → marshal cp ≡ ok blob → unmarshal blob ≡ ok cp)
      → (s : SqliteCheckpointStore B) (m : MemoryLeaseStore) (ctx : Ctx) (cp : Checkpoint)
        (token : ℕ) (create : Bool) (now : ℕ) (fault : Fault) (seen : Reply (Option (Row B)))
      → Views unmarshal s m
      → let r = write_fenced utf8_valid marshal unmarshal s ctx cp token create now fault seen in
        let q = memory_write utf8_valid m ctx cp token create now in
        ((r.1 ≡ s) × (r.0 ≢ none)) ⊎ ((q.0 ≡ none) × Views unmarshal r.1 q.1)
  write-Refines utf8_valid marshal decodes s m ctx cp token create now fault seen h =
      elim (write-Wrote utf8_valid marshal unmarshal s ctx cp token create now fault seen) [
        | inl kept ↦ inl kept
        | inr (blob, row, j, c, v, z, l, a) ↦
            let id = cp.execution_id in
            let w =
              written_row-Views unmarshal create (s.table id) (m.last_token id) (m.leases id)
                (m.records id) blob cp token now row (h.1 id) (decodes cp blob j) l in
            let g = memory_write-written utf8_valid m ctx cp token create now c v z w.0 w.1 in
            inr (
              g.0,
              rw a (
                  put-Views unmarshal s m _ id row h
                    (write-Elsewhere utf8_valid m ctx cp token create now)
                    (rw (g.1, g.2, g.3) w.2)),
            )
      ]
