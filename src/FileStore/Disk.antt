-- ===== src/FileStore/Disk.antt =====
-- What the store relies on of the file system: atomic link and rename, and nothing written elsewhere.
use agent_harness_runtime.Base.{String, Option, none, some, ◌≡◌, ◌≢◌}
use agent_harness_runtime.Errors.{Error, ok, err}
use agent_harness_runtime.FileStore.{FileSystem}

-- `file w name` is the content of the file of that name in `w`, `none` if there is none.
pub record Lawful {W : Type 0} {B : Type 0} (fs : FileSystem W B) (file : W → String → Option B)
    : Type 0 where
  pub read_same : (name : String) (w : W) (n : String) → file (fs.read_file name w).1 n ≡ file w n
  pub read_ok :
      (name : String) (w : W) (b : B) → (fs.read_file name w).0 ≡ ok b → file w name ≡ some b
  -- A temporary file is new.
  pub temp_same :
      (dir : String) (w : W) (n : String) (t : String)
      → (fs.create_temp dir w).0 ≡ ok t
      → n ≢ t
      → file (fs.create_temp dir w).1 n ≡ file w n
  pub temp_err :
      (dir : String) (w : W) (n : String) (e : Error)
      → (fs.create_temp dir w).0 ≡ err e
      → file (fs.create_temp dir w).1 n ≡ file w n
  pub open_same : (name : String) (w : W) (n : String) → file (fs.open_file name w).1 n ≡ file w n
  pub sync_same : (name : String) (w : W) (n : String) → file (fs.sync name w).1 n ≡ file w n
  pub close_same : (name : String) (w : W) (n : String) → file (fs.close name w).1 n ≡ file w n
  pub write_same :
      (name : String) (b : B) (w : W) (n : String)
      → n ≢ name
      → file (fs.write name b w).1 n ≡ file w n
  pub write_ok :
      (name : String) (b : B) (w : W)
      → (fs.write name b w).0 ≡ none
      → file (fs.write name b w).1 name ≡ some b
  -- A link fails and changes nothing, or gives a name that was free to the file.
  pub link_err :
      (a b : String) (w : W) (e : Error) (n : String)
      → (fs.link a b w).0 ≡ some e
      → file (fs.link a b w).1 n ≡ file w n
  pub link_ok :
      (a b : String) (w : W)
      → (fs.link a b w).0 ≡ none
      → (file w b ≡ none)
        × (file (fs.link a b w).1 b ≡ file w a)
        × ((n : String) → n ≢ b → file (fs.link a b w).1 n ≡ file w n)
  -- A renaming fails and changes nothing, or replaces the file at once.
  pub rename_err :
      (a b : String) (w : W) (e : Error) (n : String)
      → (fs.rename a b w).0 ≡ some e
      → file (fs.rename a b w).1 n ≡ file w n
  pub rename_ok :
      (a b : String) (w : W)
      → (fs.rename a b w).0 ≡ none
      → (file (fs.rename a b w).1 b ≡ file w a)
        × ((n : String) → n ≢ a → n ≢ b → file (fs.rename a b w).1 n ≡ file w n)
  pub remove_same :
      (name : String) (w : W) (n : String) → n ≢ name → file (fs.remove name w) n ≡ file w n
