-- ===== src/Sqlite/Views.antt =====
-- sqlite_store.go and memory_lease_store.go: what a table shows of a store in memory.
use agent_harness_runtime.Base.{
  ℕ, ◌+◌, ◌≤◌, ◌≡◌, sym, subst, inl, inr, String, Bool, true, false, Option, none, some, str_eq,
  eq_iff, arith, Bool-cases, if◌then◌else◌,
}
use agent_harness_runtime.Errors.{Reply, ok}
use agent_harness_runtime.Checkpoint.{Checkpoint}
use agent_harness_runtime.MemoryLeaseStore.{
  MemoryLeaseStore, MemoryExecutionLease, or_zero, is_active, holds, owns, record_error,
}
use agent_harness_runtime.Sqlite.{
  Row, SqliteCheckpointStore, max_int64, leased_row, released_row, renewed_row, written_row, put,
}

module _ {B : Type 0} (unmarshal : B → Reply Checkpoint) where
  -- The stored blob decodes to the checkpoint, whose revision stands beside it.
  abbrev pub RecordViews : Option B → ℕ → Option Checkpoint → Type 0
  RecordViews none revision none = Unit
  RecordViews none revision (some cp) = ⊥
  RecordViews (some blob) revision none = ⊥
  RecordViews (some blob) revision (some cp) = (unmarshal blob ≡ ok cp) × (revision ≡ cp.revision)

  -- The lease has the row's token and deadline; a row without lease has the deadline 0.
  abbrev pub LeaseViews : ℕ → ℕ → Option MemoryExecutionLease → Type 0
  LeaseViews token expires none = expires ≡ 0
  LeaseViews token expires (some lease) = (lease.token ≡ token) × (lease.expires_at ≡ expires)

  -- A row, and what the store in memory has for the same execution.
  abbrev pub RowViews :
      Option (Row B) → Option ℕ → Option MemoryExecutionLease → Option Checkpoint → Type 0
  RowViews none last lease stored = (or_zero last ≡ 0) × (lease ≡ none) × (stored ≡ none)
  RowViews (some row) last lease stored =
      (or_zero last ≡ row.fencing_token)
      × (row.fencing_token ≤ max_int64)
      × LeaseViews row.fencing_token row.lease_expires lease
      × RecordViews row.checkpoint_json row.revision stored

  abbrev pub ViewsAt : SqliteCheckpointStore B → MemoryLeaseStore → String → Type 0
  ViewsAt s m id = RowViews (s.table id) (m.last_token id) (m.leases id) (m.records id)

  -- The two stores have the same lease duration and agree on every execution.
  abbrev pub Views : SqliteCheckpointStore B → MemoryLeaseStore → Type 0
  Views s m = (s.lease_duration ≡ m.lease_duration) × ((id : String) → ViewsAt s m id)

-- Nothing but the entries of one execution has changed.
abbrev pub Elsewhere : String → MemoryLeaseStore → MemoryLeaseStore → Type 0
Elsewhere id m m' =
    (m'.lease_duration ≡ m.lease_duration)
    × ((other : String)
        → str_eq other id ≡ false
        → (m'.last_token other ≡ m.last_token other)
          × (m'.leases other ≡ m.leases other)
          × (m'.records other ≡ m.records other))

module _ {B : Type 0} (unmarshal : B → Reply Checkpoint) where
  -- A statement that leaves `row` for an execution matches an operation on the same execution.
  pub put-Views :
      (s : SqliteCheckpointStore B) (m m' : MemoryLeaseStore) (id : String) (row : Row B)
      → Views unmarshal s m
      → Elsewhere id m m'
      → RowViews unmarshal (some row) (m'.last_token id) (m'.leases id) (m'.records id)
      → Views unmarshal (put s id (some row)) m'
  put-Views s m m' id row h off at = (ground (arith, h.0, off.0), go)
    where
      at_other : (other : String) → Bool → Type 0
      at_other other b =
          RowViews unmarshal (if b then some row else s.table other) (m'.last_token other)
            (m'.leases other) (m'.records other)

      go : (other : String) → ViewsAt unmarshal (put s id (some row)) m' other
      go other = elim (Bool-cases (str_eq other id)) [
        | inl e ↦
            let family = λ (x : String).
              RowViews unmarshal (some row) (m'.last_token x) (m'.leases x) (m'.records x) in
            subst (at_other other) (sym e) (subst family (sym ((eq_iff other id).0 e)) at)
        | inr e ↦
            let o = off.1 other e in subst (at_other other) (sym e) (rw (o.0, o.1, o.2) (h.1 other))
      ]

  pub leased_row-Views :
      (o : Option (Row B)) (last : Option ℕ) (lease : Option MemoryExecutionLease)
      (stored : Option Checkpoint) (expires now : ℕ) (row : Row B) (new : MemoryExecutionLease)
      → RowViews unmarshal o last lease stored
      → leased_row o expires now ≡ some row
      → new.token ≡ row.fencing_token
      → new.expires_at ≡ expires
      → (is_active lease now ≡ false)
        × (row.fencing_token ≡ or_zero last + 1)
        × (row.fencing_token ≤ max_int64)
        × RowViews unmarshal (some row) (some row.fencing_token) (some new) stored
  leased_row-Views o last lease stored expires now row new h q t e = ground arith

  pub released_row-Views :
      (o : Option (Row B)) (last : Option ℕ) (lease : Option MemoryExecutionLease)
      (stored : Option Checkpoint) (token : ℕ) (row : Row B)
      → RowViews unmarshal o last lease stored
      → released_row o token ≡ some row
      → RowViews unmarshal (some row) last none stored
  released_row-Views o last lease stored token row h q = ground arith

  pub renewed_row-Views :
      (o : Option (Row B)) (last : Option ℕ) (lease : Option MemoryExecutionLease)
      (stored : Option Checkpoint) (token expires now : ℕ) (row : Row B)
      (new : MemoryExecutionLease)
      → RowViews unmarshal o last lease stored
      → renewed_row o token expires now ≡ some row
      → new.token ≡ token
      → new.expires_at ≡ expires
      → (holds lease token now ≡ true) × RowViews unmarshal (some row) last (some new) stored
  renewed_row-Views o last lease stored token expires now row new h q t e = ground arith

  pub written_row-Views :
      (create : Bool) (o : Option (Row B)) (last : Option ℕ) (lease : Option MemoryExecutionLease)
      (stored : Option Checkpoint) (blob : B) (cp : Checkpoint) (token now : ℕ) (row : Row B)
      → RowViews unmarshal o last lease stored
      → unmarshal blob ≡ ok cp
      → written_row create o blob cp.revision token now ≡ some row
      → (holds lease token now ≡ true)
        × (record_error create stored cp ≡ none)
        × RowViews unmarshal (some row) last lease (some cp)
  written_row-Views create o last lease stored blob cp token now row h e q = ground arith

  -- A row that the release matches has its own lease, or none.
  pub released_row-owned :
      (o : Option (Row B)) (last : Option ℕ) (lease : Option MemoryExecutionLease)
      (stored : Option Checkpoint) (token : ℕ) (row : Row B)
      → RowViews unmarshal o last lease stored
      → released_row o token ≡ some row
      → owns lease token ≡ false
      → lease ≡ none
  released_row-owned o last lease stored token row h q e = ground arith
