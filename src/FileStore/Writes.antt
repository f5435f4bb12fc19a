-- ===== src/FileStore/Writes.antt =====
-- file_store.go: what `write` does to the files, whatever call of the file system fails.
use agent_harness_runtime.Base.{
  String, Bool, true, false, Option, none, some, ◌≡◌, ◌≢◌, ◌⊎◌, inl, inr, refl, sym, ◌∙◌,
  Option-cases, false≢true,
}
use agent_harness_runtime.Errors.{Error, Reply, err}
use agent_harness_runtime.Ports.{Context}
use agent_harness_runtime.FileStore.{
  FileSystem, FileStore, and_then, and_reply, check_store_context, context_err, sync_directory,
  write_temp, publish, linked, write_body,
}
use agent_harness_runtime.FileStore.Disk.{Lawful}

-- What holds of both ways out of a sequence holds of it.
pub and_then-elim {ℓ} :
    {W : Type 0} (P : Option Error × W → Type ℓ) (p : Option Error × W)
    (next : W → Option Error × W)
    → ((e : Error) → p.0 ≡ some e → P (some e, p.1))
    → (p.0 ≡ none → P (next p.1))
    → P (and_then p next)
and_then-elim P (some e, w) next f g = f e refl
and_then-elim P (none, w) next f g = g refl

pub and_reply-elim {ℓ} :
    {W A : Type 0} (P : Reply A × W → Type ℓ) (p : Option Error × W) (next : W → Reply A × W)
    → ((e : Error) → p.0 ≡ some e → P (err e, p.1))
    → (p.0 ≡ none → P (next p.1))
    → P (and_reply p next)
and_reply-elim P (some e, w) next f g = f e refl
and_reply-elim P (none, w) next f g = g refl

linked-kept :
    {W : Type 0} {B : Type 0} (fs : FileSystem W B) (p : Option Error × W)
    → ((linked fs p).1 ≡ p.1)
      × (p.0 ≡ none → (linked fs p).0 ≡ none)
      × ((linked fs p).0 ≡ none → p.0 ≡ none)
linked-kept fs (none, w) = (refl, λ x. x, λ x. x)
linked-kept fs (some e, w) = (refl, λ x. (cc), λ x. (cc))

module _ {W : Type 0} {B : Type 0} (fs : FileSystem W B) (file : W → String → Option B)
    (laws : Lawful fs file) (ctx : Option (Context W))
    (quiet : (w : W) (n : String) → file (context_err ctx w).1 n ≡ file w n) where
  -- Only `temp` may have changed, and without an error it is the complete file.
  abbrev Prepared : String → B → W → Option Error × W → Type 0
  Prepared temp blob w r =
      ((n : String) → n ≢ temp → file r.1 n ≡ file w n) × (r.0 ≡ none → file r.1 temp ≡ some blob)

  write_temp-Prepared :
      (temp : String) (blob : B) (w : W) → Prepared temp blob w (write_temp fs temp blob w)
  unfolding write_temp
  write_temp-Prepared temp blob w =
      let w1 = (fs.write temp blob w).1 in
      let w2 = (fs.sync temp w1).1 in
      let off = λ (n : String) (d : n ≢ temp). laws.write_same temp blob w n d in
      and_then-elim (Prepared temp blob w) (fs.write temp blob w) _ (λ e q. (off, λ x. (cc)))
        (λ q.
          and_then-elim (Prepared temp blob w) (fs.sync temp w1) _
            (λ e r. (λ n d. laws.sync_same temp w1 n ∙ off n d, λ x. (cc)))
            (λ r. (
              λ n d. laws.close_same temp w2 n ∙ laws.sync_same temp w1 n ∙ off n d,
              λ x.
                  laws.close_same temp w2 temp
                  ∙ laws.sync_same temp w1 temp
                  ∙ laws.write_ok temp blob w q,
            )))

  -- All files but `temp` and `target` are as they were; `target` is as it was and there is an error, or
  -- it is the complete new file, which a creation puts only where there was none.
  abbrev pub Published : String → String → Bool → B → W → Option Error × W → Type 0
  Published temp target create blob w r =
      ((n : String) → n ≢ temp → n ≢ target → file r.1 n ≡ file w n)
      × (((file r.1 target ≡ file w target) × (r.0 ≢ none))
          ⊎ ((file r.1 target ≡ some blob) × (create ≡ true → file w target ≡ none)))

  -- The files are as they were but for `temp`, and there is an error.
  stopped :
      (temp target : String) (create : Bool) (blob : B) (w : W) (e : Error) (w' : W)
      → temp ≢ target
      → ((n : String) → n ≢ temp → file w' n ≡ file w n)
      → Published temp target create blob w (some e, w')
  stopped temp target create blob w e w' apart off =
      (λ n a b. off n a, inl (off target (λ q. apart (sym q)), λ x. (cc)))

  failed : {o : Option Error} {e : Error} → o ≡ none → o ≡ some e → ⊥
  failed a b = cc

  publish-Published :
      (temp target : String) (create : Bool) (blob : B) (w : W)
      → temp ≢ target
      → file w temp ≡ some blob
      → let r = publish fs create temp target w in
        Published temp target create blob w r × (r.0 ≡ none → file r.1 target ≡ some blob)
  unfolding publish
  publish-Published temp target true blob w apart complete =
      let kept = linked-kept fs (fs.link temp target w) in
      elim (Option-cases (fs.link temp target w).0) [
        | inl q ↦
            let done = laws.link_ok temp target w q in
            rw (kept.0)
              ((λ n a b. done.2 n b, inr (done.1 ∙ complete, λ x. done.0)), λ x. done.1 ∙ complete)
        | inr (e, q) ↦ rw (kept.0) (
          (
            λ n a b. laws.link_err temp target w e n q,
            inl (laws.link_err temp target w e target q, λ x. failed (kept.2 x) q),
          ),
          λ x. absurd (failed (kept.2 x) q),
        )
      ]
  publish-Published temp target false blob w apart complete =
      elim (Option-cases (fs.rename temp target w).0) [
        | inl q ↦
            let done = laws.rename_ok temp target w q in
            (
              (λ n a b. done.1 n a b, inr (done.0 ∙ complete, λ x. absurd (false≢true x))),
              λ x. done.0 ∙ complete,
            )
        | inr (e, q) ↦ (
          (
            λ n a b. laws.rename_err temp target w e n q,
            inl (laws.rename_err temp target w e target q, λ x. (cc)),
          ),
          λ x. (cc),
        )
      ]

  sync_directory-same :
      (path : String) (w : W) (n : String) → file (sync_directory fs path w).1 n ≡ file w n
  unfolding sync_directory
  sync_directory-same path w n =
      let w1 = (fs.open_file path w).1 in
      let opened = laws.open_same path w n in
      and_then-elim (λ r. file r.1 n ≡ file w n) (fs.open_file path w) _ (λ e q. opened)
        (λ q. laws.close_same path (fs.sync path w1).1 n ∙ laws.sync_same path w1 n ∙ opened)

  -- What is left to do does not change the files.
  later :
      (temp target : String) (create : Bool) (blob : B) (w w1 : W) (r : Option Error × W)
      → ((n : String) → n ≢ temp → file w1 n ≡ file w n)
      → temp ≢ target
      → Published temp target create blob w1 r
      → Published temp target create blob w r
  later temp target create blob w w1 r off apart (others, inl (same, fails)) =
      (λ n a b. others n a b ∙ off n a, inl (same ∙ off target (λ q. apart (sym q)), fails))
  later temp target create blob w w1 r off apart (others, inr (new, free)) = (
    λ n a b. others n a b ∙ off n a,
    inr (new, λ x. sym (off target (λ q. apart (sym q))) ∙ free x),
  )

  failing :
      (temp target : String) (create : Bool) (blob : B) (w : W) (p : Option Error × W) (e : Error)
      → Published temp target create blob w p
      → Published temp target create blob w (some e, p.1)
  failing temp target create blob w p e (others, inl (same, fails)) =
      (others, inl (same, λ x. (cc)))
  failing temp target create blob w p e (others, inr new) = (others, inr new)

  -- After a success, and then calls that keep the files, the file is there.
  onward :
      (temp target : String) (create : Bool) (blob : B) (w : W) (p r : Option Error × W)
      → Published temp target create blob w p
      → p.0 ≡ none
      → ((n : String) → file r.1 n ≡ file p.1 n)
      → Published temp target create blob w r
  onward temp target create blob w p r (others, inl (same, fails)) q keeps = absurd (fails q)
  onward temp target create blob w p r (others, inr (new, free)) q keeps =
      (λ n a b. keeps n ∙ others n a b, inr (keeps target ∙ new, free))

  pub write_body-Published :
      (s : FileStore) (temp target : String) (create : Bool) (blob : B) (w : W)
      → temp ≢ target
      → Published temp target create blob w (write_body fs s ctx target create blob temp w)
  unfolding write_body
  write_body-Published s temp target create blob w apart =
      let prepared = write_temp-Prepared temp blob w in
      let w1 = (write_temp fs temp blob w).1 in
      let w2 = (context_err ctx w1).1 in
      let P = Published temp target create blob w in
      let off = λ (n : String) (d : n ≢ temp). quiet w1 n ∙ prepared.0 n d in
      and_then-elim P (write_temp fs temp blob w) _
        (λ e q. stopped temp target create blob w e w1 apart prepared.0)
        (λ q.
          and_then-elim P (context_err ctx w1) _
            (λ e r. stopped temp target create blob w e w2 apart off)
            (λ r.
              let published =
                publish-Published temp target create blob w2 apart (quiet w1 temp ∙ prepared.1 q) in
              let w3 = (publish fs create temp target w2).1 in
              and_then-elim P (publish fs create temp target w2) _
                (λ e x.
                  later temp target create blob w w2 (some e, w3) off apart
                    (failing temp target create blob w2 (publish fs create temp target w2) e
                      published.0))
                (λ x.
                  later temp target create blob w w2 (sync_directory fs s.directory w3) off apart (
                    onward temp target create blob w2 (publish fs create temp target w2)
                      (sync_directory fs s.directory w3) published.0 x
                      (sync_directory-same s.directory w3)))))

  pub check-same : (w : W) (n : String) → file (check_store_context ctx w).1 n ≡ file w n
  unfolding check_store_context
  check-same w n = by_context ctx (quiet w n)
    where
      by_context :
          (c : Option (Context W))
          → file (context_err c w).1 n ≡ file w n
          → file (check_store_context c w).1 n ≡ file w n
      by_context none q = refl
      by_context (some c) q = q
