-- ===== src/OpenaiModel/Configured.antt =====
-- openai_model.go: what a configuration that is accepted ensures of the requests.
use agent_harness_runtime.Base.{
  String, Bool, true, false, Option, none, some, [], ◌∷◌, All, str_eq, eq_iff, if◌then◌else◌, ◌≡◌,
  inl, inr, refl, sym, ◌∙◌, arith, Bool-cases, false≢true, subst, ap,
}
use agent_harness_runtime.Errors.{Error, Reply, ok, err, Reply-cases}
use agent_harness_runtime.OpenaiModel.{
  Fields, OpenaiConfig, OpenaiModel, Texts, Url, then_reply, reserved, check_key, check_extra,
  check_tools, chat_completions_endpoint, new_openai_model,
}
use agent_harness_runtime.OpenaiModel.Next.{set_field, set_fields}

-- The value of a field.
abbrev pub get_field : Fields → String → Option String
get_field [] key = none
get_field ((k, v) ∷ rest) key =
    let below = get_field rest key in if str_eq k key then some v else below

set_field-other :
    (fields : Fields) (k v key : String)
    → str_eq k key ≡ false
    → get_field (set_field fields k v) key ≡ get_field fields key
set_field-other [] k v key h = ground (arith, h)
set_field-other ((k', v') ∷ rest) k v key h =
    ground (arith, h, set_field-other rest k v key h, eq_iff k' k, eq_iff k' key, eq_iff k key)

abbrev Unreserved : String × String → Type 0
Unreserved field = reserved field.0 ≡ false

set_fields-reserved :
    (extra fields : Fields) (key : String)
    → All Unreserved extra
    → reserved key ≡ true
    → get_field (set_fields fields extra) key ≡ get_field fields key
set_fields-reserved [] fields key h r = refl
set_fields-reserved ((k, v) ∷ rest) fields key h r =
    set_fields-reserved rest (set_field fields k v) key h.1 r
    ∙ set_field-other fields k v key (other (str_eq k key) refl)
  where
    other : (b : Bool) → str_eq k key ≡ b → str_eq k key ≡ false
    other false q = q
    other true q = absurd (false≢true (sym h.0 ∙ (ap reserved ((eq_iff k key).0 q) ∙ r)))

then_reply-ok {ℓ κ} :
    {A : Type ℓ} {C : Type κ} (r : Reply A) (next : A → Reply C) (c : C)
    → then_reply r next ≡ ok c
    → (a : A) × (r ≡ ok a) × (next a ≡ ok c)
then_reply-ok (err e) next c h = cc
then_reply-ok (ok a) next c h = (a, refl, h)

module _ (t : Texts) where
  check_extra-Unreserved :
      (fields out : Fields) → check_extra t fields ≡ ok out → All Unreserved out
  unfolding check_extra
  check_extra-Unreserved [] out h = subst (All Unreserved) (nothing h) tt
    where
      nothing : ◌≡◌ {A = Reply Fields} (ok []) (ok out) → [] ≡ out
      nothing q = cc
  check_extra-Unreserved ((key, value) ∷ rest) out h =
      elim (Bool-cases (str_eq (t.trim_space key) "")) [
        | inl a ↦ absurd (refused (rw a at h))
        | inr a ↦ elim (Bool-cases (reserved key)) [
          | inl b ↦ absurd (refused (rw (a, b) at h))
          | inr b ↦ elim (Bool-cases (t.json_valid value)) [
            | inr c ↦ absurd (refused (rw (a, b, c) at h))
            | inl c ↦
                let (fields, q, e) =
                  then_reply-ok (check_extra t rest) (λ fields. ok ((key, value) ∷ fields)) out
                    (rw (a, b, c) at h) in
                subst (All Unreserved) (added fields e) (b, check_extra-Unreserved rest fields q)
          ]
        ]
      ]
    where
      refused : {e : Error} → ◌≡◌ {A = Reply Fields} (err e) (ok out) → ⊥
      refused q = cc

      added :
          (fields : Fields)
          → ◌≡◌ {A = Reply Fields} (ok ((key, value) ∷ fields)) (ok out)
          → (key, value) ∷ fields ≡ out
      added fields q = cc

  check_key-https :
      (api_key endpoint secure : String)
      → check_key t api_key endpoint ≡ ok secure
      → (secure ≡ endpoint)
        × (str_eq api_key "" ≡ false
            → (url : Url) × (t.parse_url endpoint ≡ ok url) × (str_eq url.scheme "https" ≡ true))
  unfolding check_key
  check_key-https api_key endpoint secure h = elim (Reply-cases (t.parse_url endpoint)) [
    | inl (url, q) ↦ (ground (arith, h, q), λ k. (url, q, ground (arith, h, q, k)))
    | inr (e, q) ↦ (ground (arith, h, q), λ k. absurd (ground (arith, h, q, k)))
  ]

  -- A model whose configuration is accepted: the extra fields of its requests leave the adapter's
  -- own fields, model, messages, tools and stream, as they are; and if it has a key, its endpoint
  -- has the scheme https and its client does not follow redirects.
  pub new_openai_model-safe :
      (config : OpenaiConfig) (m : OpenaiModel)
      → new_openai_model t config ≡ ok m
      → ((fields : Fields) (key : String)
          → reserved key ≡ true
          → get_field (set_fields fields m.extra_body) key ≡ get_field fields key)
        × (str_eq m.api_key "" ≡ false
            → (m.follows_redirects ≡ false)
              × ((url : Url) × (t.parse_url m.endpoint ≡ ok url)
                  × (str_eq url.scheme "https" ≡ true)))
  unfolding new_openai_model
  new_openai_model-safe config m h =
      let (endpoint, q, h1) = then_reply-ok (chat_completions_endpoint t config.base_url) _ m h in
      elim (Bool-cases (str_eq (t.trim_space config.model) "")) [
        | inl b ↦ absurd (refused (rw b at h1))
        | inr b ↦
            let (secure, k, h2) =
              then_reply-ok (check_key t config.api_key endpoint) _ m (rw b at h1) in
            let (extra, x, h3) = then_reply-ok (check_extra t config.extra_body) _ m h2 in
            let (tools, y, h4) = then_reply-ok (check_tools t [] config.tools) _ m h3 in
            let safe = check_key-https config.api_key endpoint secure k in
            let fields = check_extra-Unreserved config.extra_body extra x in
            subst Safe (made _ h4) (
              λ fs key r. set_fields-reserved extra fs key fields r,
              λ keyed. (rw keyed refl, rw (safe.0) (safe.1 keyed)),
            )
      ]
    where
      Safe : OpenaiModel → Type 0
      Safe m =
          ((fields : Fields) (key : String)
            → reserved key ≡ true
            → get_field (set_fields fields m.extra_body) key ≡ get_field fields key)
          × (str_eq m.api_key "" ≡ false
              → (m.follows_redirects ≡ false)
                × ((url : Url) × (t.parse_url m.endpoint ≡ ok url)
                    × (str_eq url.scheme "https" ≡ true)))

      refused : {e : Error} → ◌≡◌ {A = Reply OpenaiModel} (err e) (ok m) → ⊥
      refused q = cc

      made : (n : OpenaiModel) → ◌≡◌ {A = Reply OpenaiModel} (ok n) (ok m) → n ≡ m
      made n q = cc
