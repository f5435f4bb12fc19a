-- ===== src/Writing/Cases.antt =====
-- The outcomes of `writeCheckpoint`.
use agent_harness_runtime.Base.{
  ℕ, Bool, true, false, ◌≡◌, refl, Option, none, some, List, ◌∷◌, ◌==◌, Bool-cases, inl, inr,
}
use agent_harness_runtime.Errors.{Error, sentinel, both, is, checkpoint_store, execution_lease_lost}
use agent_harness_runtime.Checkpoint.{Checkpoint, checkpoint_revision}
use agent_harness_runtime.Ports.{
  Context, Store, FencedStore, Platform, Machine, Effect, polled, wrote,
}
use agent_harness_runtime.Writing.{
  write_checkpoint, store_write, fenced_write, plain_write, is_lease_lost, write_unless_lost,
  store_error,
}

abbrev pub revised : Checkpoint → Checkpoint
revised cp = record cp { revision = checkpoint_revision cp }

-- A machine in a new state of the outside, with a log.
abbrev pub logged : {W : Type 0} → W → List Effect → Machine W
logged w log = record { world = w; log = log }

-- A write is saved, or fails in the store, or fails before it reaches the store. The context's cause
-- is read first in any case.
pub data Written {W : Type 0} (cp : Checkpoint) (m : Machine W) (r : Option Error × Machine W)
    : Type 0 where
  saved :
      (w : W) (cause : Option Error)
      → r ≡ (none, logged w (wrote (revised cp) none ∷ polled cause ∷ m.log))
      → Written cp m r
  failed_write :
      (w : W) (cause : Option Error) (e e' : Error)
      → r ≡ (some e, logged w (wrote (revised cp) (some e') ∷ polled cause ∷ m.log))
      → Written cp m r
  refused :
      (w : W) (cause : Option Error) (e : Error)
      → r ≡ (some e, logged w (polled cause ∷ m.log))
      → Written cp m r

module _ {W : Type 0} where
  -- The result of a store call, before it is wrapped.
  data Stored (cp : Checkpoint) (m : Machine W) (r : Option Error × Machine W) : Type 0 where
    called : (w : W) (o : Option Error) → r ≡ (o, logged w (wrote cp o ∷ m.log)) → Stored cp m r
    not_called : (e : Error) → r ≡ (some e, m) → Stored cp m r

  fenced_write-Stored :
      (o : Option (FencedStore W)) (ctx : Context W) (cp : Checkpoint) (create : Bool) (token : ℕ)
      (m : Machine W)
      → Stored cp m (fenced_write o ctx cp create token m)
  unfolding fenced_write
  fenced_write-Stored none ctx cp create token m = not_called _ refl
  fenced_write-Stored (some f) ctx cp true token m = called _ _ refl
  fenced_write-Stored (some f) ctx cp false token m = called _ _ refl

  plain_write-Stored :
      (store : Store W) (ctx : Context W) (cp : Checkpoint) (create : Bool) (m : Machine W)
      → Stored cp m (plain_write store ctx cp create m)
  unfolding plain_write
  plain_write-Stored store ctx cp true m = called _ _ refl
  plain_write-Stored store ctx cp false m = called _ _ refl

  store_write-Stored :
      (store : Store W) (ctx : Context W) (cp : Checkpoint) (create : Bool) (token : ℕ)
      (m : Machine W)
      → Stored cp m (store_write store ctx cp create token m)
  unfolding store_write
  store_write-Stored store ctx cp create token m = elim (Bool-cases (token == 0)) [
    | inl e ↦ rw e (plain_write-Stored store ctx cp create m)
    | inr e ↦ rw e (fenced_write-Stored store.fenced ctx cp create token m)
  ]

  wrapped-Written :
      (cp : Checkpoint) (m : Machine W) (w : W) (cause : Option Error)
      (r : Option Error × Machine W)
      → Stored (revised cp) (logged w (polled cause ∷ m.log)) r
      → Written cp m (store_error r.0, r.1)
  wrapped-Written cp m w cause r (called w' none e) = saved w' cause (rw e)
  wrapped-Written cp m w cause r (called w' (some x) e) =
      failed_write w' cause (both (sentinel checkpoint_store) x) x (rw e)
  wrapped-Written cp m w cause r (not_called x e) =
      refused w cause (both (sentinel checkpoint_store) x) (rw e)

  write_unless_lost-Written :
      (cp : Checkpoint) (m : Machine W) (w : W) (cause : Option Error)
      (r : Option Error × Machine W)
      → Stored (revised cp) (logged w (polled cause ∷ m.log)) r
      → Written cp m (write_unless_lost cause r (logged w (polled cause ∷ m.log)))
  unfolding is_lease_lost
  write_unless_lost-Written cp m w none r s = wrapped-Written cp m w none r s
  write_unless_lost-Written cp m w (some c) r s = elim (Bool-cases (is c execution_lease_lost)) [
    | inl e ↦ rw e (refused w (some c) _ refl)
    | inr e ↦ rw e (wrapped-Written cp m w (some c) r s)
  ]

  pub write_checkpoint-Written :
      (p : Platform W) (ctx : Context W) (store : Store W) (cp : Checkpoint) (create : Bool)
      (m : Machine W)
      → Written cp m (write_checkpoint p ctx store cp create m)
  unfolding write_checkpoint
  write_checkpoint-Written p ctx store cp create m =
      write_unless_lost-Written cp m (ctx.cause m.world).1 (ctx.cause m.world).0 _
        (store_write-Stored store _ (revised cp) create _ _)
