-- ===== src/FileStore/Lock.antt =====
-- file_store_lock_linux.go: the lock of an execution.
use agent_harness_runtime.Base.{String, Option, none, some, str_eq, if◌then◌else◌}
use agent_harness_runtime.Errors.{
  Error, sentinel, detail, is, Reply, ok, err, invalid_request, execution_busy, would_block,
}
use agent_harness_runtime.Ports.{Context}
use agent_harness_runtime.FileStore.{
  FileSystem, FileStore, and_reply, check_store_context, context_err,
}
use Prim.Native.String.{◌++◌ as str_append}

module _ {W : Type 0} {B : Type 0} (fs : FileSystem W B)
    (file_path : FileStore → String → String) where
  -- The release function: its errors are dropped.
  abbrev pub release_lock : String → W → W
  release_lock path w = (fs.close path (fs.unlock path w)).1

  -- The context is read once more when the lock is held.
  abbrev held : String → Option Error × W → Reply String × W
  held path (some e, w) = (err e, release_lock path w)
  held path (none, w) = (ok path, w)

  locking : Option (Context W) → String → Option Error × W → Reply String × W
  locking ctx path (none, w) = held path (context_err ctx w)
  locking ctx path (some e, w) = (
    err (if is e would_block then detail (sentinel execution_busy) "execution ID" else e),
    (fs.close path w).1,
  )

  -- `LockExecution`: the path of the locked file, which `release_lock` frees.
  unfoldable pub lock_execution : FileStore → Option (Context W) → String → W → Reply String × W
  unfolding locking check_store_context
  lock_execution s ctx id w = and_reply (check_store_context ctx w) (λ w1.
      if str_eq id ""
      then (err (detail (sentinel invalid_request) "execution ID is required"), w1)
      else let path = str_append (file_path s id) ".lock" in
        and_reply (fs.open_file path w1) (λ w2. locking ctx path (fs.flock path w2)))
