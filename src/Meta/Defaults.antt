-- ===== src/Meta/Defaults.antt =====
-- The defaults and the table of routes.
use miri_tool_v.Base.{◌≡◌, refl, ap, subst, Bool, List, [], ◌∷◌, some, Bool-cases, inl, inr}
use miri_tool_v.FwTypes.{Route, fw_routes, strncmp_equal, lookup_in, registry_lookup}
use miri_tool_v.Meta.{FwMeta, fw_meta_defaults, init_from, meta_init_defaults}

-- Metadata that are as a route wants them, but for what the route does not say.
pub record Follows (r : Route) (m : FwMeta) : Type 0 where
  pub same_format : m.format ≡ r.format
  pub same_exec : m.exec ≡ r.exec
  pub same_exec_format : m.exec_format ≡ r.exec_format
  pub same_type : m.file_type ≡ r.file_type

-- Two tables with the same types in the same order, entry for entry.
abbrev pub AllFollow : List Route → List FwMeta → Type 0
AllFollow [] [] = Unit
AllFollow (r ∷ rs) (m ∷ ms) = Follows r m × AllFollow rs ms
AllFollow _ _ = ⊥

module _ (encrypting : Bool) where
  init_from-Follows :
      (rs : List Route) (ms : List FwMeta) (meta : FwMeta) (r : Route)
      → AllFollow rs ms
      → lookup_in rs meta.file_type ≡ some r
      → Follows r (init_from encrypting ms meta)
  unfolding lookup_in init_from
  init_from-Follows [] ms meta r all found = cc
  init_from-Follows (q ∷ rs) [] meta r all found = absurd all
  init_from-Follows (q ∷ rs) (m ∷ ms) meta r all found =
      let same = ap (strncmp_equal 3 meta.file_type) all.0.same_type in
      elim (Bool-cases (strncmp_equal 3 meta.file_type q.file_type)) [
        | inl hit ↦
            let e : some q ≡ some r = rw hit at found in
            let s : q ≡ r = cc in
            rw (same, hit)
              (subst (λ (p : Route). Follows p (record m { file_name = meta.file_name })) s
                (record {
                  same_format = all.0.same_format;
                  same_exec = all.0.same_exec;
                  same_exec_format = all.0.same_exec_format;
                  same_type = all.0.same_type;
                }))
        | inr miss ↦ rw (same, miss) (init_from-Follows rs ms meta r all.1 (rw miss at found))
      ]

  defaults-AllFollow : AllFollow fw_routes (fw_meta_defaults encrypting)
  unfolding fw_routes fw_meta_defaults
  defaults-AllFollow = search (refl)

  -- The defaults that metadata get are those of the route that the registry has for their type, if
  -- it has one; the name of the file is kept.
  pub meta_init_defaults-registry_lookup :
      (meta : FwMeta) (r : Route)
      → registry_lookup (some meta.file_type) ≡ some r
      → Follows r (meta_init_defaults encrypting meta)
  unfolding registry_lookup meta_init_defaults
  meta_init_defaults-registry_lookup meta r found =
      init_from-Follows fw_routes (fw_meta_defaults encrypting) meta r defaults-AllFollow found
