-- ===== src/Catalog/Laws.antt =====
-- Registration and look-up of resources and prompts.
use gear_mcp_server.Base.{
  ◌≡◌, refl, sym, false, Option, some, List, [], ◌∷◌, arith, if◌then◌else◌, if_again, if_swap,
  Bool-cases, inl, inr, Bytes, str_eq, str_eq_iff, str_eq_refl, All,
}
use gear_mcp_server.Catalog.{
  ResourceInfo, PromptInfo, PromptEntry, register_resource, register_prompt, find_exact,
  find_resource, find_prompt,
}

module _ {R : Type 0} where
  -- After a registration, that URI finds the resource registered, and no other exact look-up
  -- changes.
  find_exact-register_resource :
      (uri : Bytes) (p : ResourceInfo R) (rs : List (ResourceInfo R))
      → find_exact uri (register_resource p rs)
        ≡ (if str_eq p.uri uri then some p else find_exact uri rs)
  unfolding find_exact register_resource
  find_exact-register_resource uri p [] = refl
  find_exact-register_resource uri p (r ∷ rs) = elim (Bool-cases (str_eq r.uri p.uri)) [
    | inl same ↦
        rw (same, (str_eq_iff r.uri p.uri).0 same)
          (sym (if_again (str_eq p.uri uri) (some p) _ (find_exact uri rs)))
    | inr other ↦
        rw (other, find_exact-register_resource uri p rs)
          (if_swap (str_eq r.uri uri) (str_eq p.uri uri) (some r) (some p) (find_exact uri rs)
            (λ h k.
              ground
                (arith, other, str_eq_iff r.uri uri, str_eq_iff p.uri uri, str_eq_iff r.uri p.uri)))
  ]

  -- No two resources have the same URI.
  abbrev pub HasDistinctUris : List (ResourceInfo R) → Type 0
  HasDistinctUris [] = Unit
  HasDistinctUris (r ∷ rs) = All (λ s. str_eq r.uri s.uri ≡ false) rs × HasDistinctUris rs

  register_resource-fresh :
      (u : Bytes) (p : ResourceInfo R) (rs : List (ResourceInfo R))
      → str_eq u p.uri ≡ false
      → All (λ s. str_eq u s.uri ≡ false) rs
      → All (λ s. str_eq u s.uri ≡ false) (register_resource p rs)
  unfolding register_resource
  register_resource-fresh u p [] h a = (h, tt)
  register_resource-fresh u p (r ∷ rs) h a = elim (Bool-cases (str_eq r.uri p.uri)) [
    | inl same ↦ rw same (h, a.1)
    | inr other ↦ rw other (a.0, register_resource-fresh u p rs h a.1)
  ]

  -- Registration keeps the URIs distinct.
  pub register_resource-HasDistinctUris :
      (p : ResourceInfo R) (rs : List (ResourceInfo R))
      → HasDistinctUris rs
      → HasDistinctUris (register_resource p rs)
  unfolding register_resource
  register_resource-HasDistinctUris p [] d = (tt, tt)
  register_resource-HasDistinctUris p (r ∷ rs) d = elim (Bool-cases (str_eq r.uri p.uri)) [
    | inl same ↦ rw (same, ← (str_eq_iff r.uri p.uri).0 same) d
    | inr other ↦
        rw other
          (register_resource-fresh r.uri p rs other d.0, register_resource-HasDistinctUris p rs d.1)
  ]

module _ {R : Type 0} where
  -- A resource that has just been registered is what its URI finds, and the URIs stay distinct.
  pub find_resource-register_resource :
      (p : ResourceInfo R) (rs : List (ResourceInfo R))
      → HasDistinctUris rs
      → (find_resource p.uri (register_resource p rs) ≡ some p)
        × HasDistinctUris (register_resource p rs)
  unfolding find_resource
  find_resource-register_resource p rs d = (
    rw (find_exact-register_resource p.uri p rs, find_resource, str_eq_refl p.uri),
    register_resource-HasDistinctUris p rs d,
  )

module _ {P : Type 0} where
  -- After a registration, that name finds the prompt registered, and every other name finds what
  -- it found before.
  pub find_prompt-register_prompt :
      (name : Bytes) (p : PromptInfo) (h : Option P) (es : List (PromptEntry P))
      → find_prompt name (register_prompt p h es) ≡ (
          if str_eq p.name name
          then some (record { info = p; handler = h })
          else find_prompt name es)
  unfolding find_prompt register_prompt
  find_prompt-register_prompt name p h [] = refl
  find_prompt-register_prompt name p h (e ∷ es) = elim (Bool-cases (str_eq e.info.name p.name)) [
    | inl same ↦
        rw (same, (str_eq_iff e.info.name p.name).0 same)
          (sym (if_again (str_eq p.name name) _ _ (find_prompt name es)))
    | inr other ↦
        rw (other, find_prompt-register_prompt name p h es)
          (if_swap (str_eq e.info.name name) (str_eq p.name name) _ _ (find_prompt name es) (λ k l.
            ground (
              arith,
              other,
              str_eq_iff e.info.name name,
              str_eq_iff p.name name,
              str_eq_iff e.info.name p.name,
            )))
  ]
