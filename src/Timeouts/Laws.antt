-- ===== src/Timeouts/Laws.antt =====
-- callback_timeout.go: to what a failure under a deadline is put down.
use agent_harness_runtime.Base.{Bool, true, false, Option, none, some, ◌≡◌, ◌↔◌}
use agent_harness_runtime.Errors.{Sentinel, Error, is, Reply, ok, err}
use agent_harness_runtime.Checkpoint.{Checkpoint}
use agent_harness_runtime.Timeouts.{deadline_exceeded}

-- A reply fails with an error of the kind.
abbrev pub fails_with {ℓ} : {A : Type ℓ} → Sentinel → Reply A → Bool
fails_with kind (ok a) = false
fails_with kind (err e) = is e kind

-- An error of a context, or none, is not of the kind.
abbrev pub NotOfKind : Sentinel → Option Error → Type 0
NotOfKind kind none = Unit
NotOfKind kind (some e) = is e kind ≡ false

-- What is accepted, and what is put down to the deadline, where the callback has given `reply` and
-- the caller's context the error `parent`.
abbrev Attributed {ℓ} :
    {A : Type ℓ} → Sentinel → Reply A → Option Error → Option Error → Reply A → Type ℓ
Attributed {A = A} kind reply parent own result =
    ((a : A)
      → (result ≡ ok a) ↔ ((reply ≡ ok a) × (parent ≡ none) × (deadline_exceeded own ≡ false)))
    × ((fails_with kind result ≡ true) ↔ ((parent ≡ none) × (deadline_exceeded own ≡ true)))
