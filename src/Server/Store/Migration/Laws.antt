-- ===== src/Server/Store/Migration/Laws.antt =====
-- A migration: what it keeps where a statement fails, what it guarantees, and migrating again.
use longhaul.Base.{
  ◌≡◌, refl, sym, ap, ◌∙◌, ◌⊎◌, inl, inr, true, some, List, [], ◌∷◌, ◌++◌, Bool-cases, ok,
  Result-cases,
}
use mathlib.Core.Path.{subst}
use longhaul.Base.Int.{ℤ, pos, leb_ℤ}
use longhaul.Server.Store.Migration.{
  with_version_table, upgrade, Layout, Holds, Connection, create_schema, or_empty, migrate,
  current_version, schema_version, unwrap_or,
}

-- A file that this program has written to, or an empty one: a version is recorded only beside the
-- table of tasks.
abbrev pub IsSound : Layout → Type 0
IsSound l = (v : ℤ) → Holds v (or_empty l.versions) → l.has_tasks ≡ true

-- The file is ready for the store: the table is there, and a version is recorded.
abbrev pub IsReady : Layout → Type 0
IsReady l = (l.has_tasks ≡ true) × ((v : ℤ) × Holds v (or_empty l.versions))

-- The rows of the tasks are as before, and the file is sound.
abbrev pub Keeps : Layout → Layout → Type 0
Keeps l l' = (l'.rows ≡ l.rows) × IsSound l'

Holds-append : (v : ℤ) (vs : List ℤ) → Holds v (vs ++ (v ∷ []))
Holds-append v [] = inl refl
Holds-append v (x ∷ vs) = inr (Holds-append v vs)

module _ (c : Connection) where
  open c use {Db, view}

  create_schema_lem :
      (d : Db)
      → IsSound (view d)
      → Keeps (view d) (view (create_schema c d).1)
        × ((create_schema c d).0 ≡ ok tt → IsReady (view (create_schema c d).1))
  unfolding create_schema
  create_schema_lem d sound = elim (c.tasks_acts d) [
    | inr ((x, q), v) ↦ rw (q, v) ((refl, sound), λ h. cc)
    | inl (q, v) ↦
        let d₁ : Db = (c.create_tasks d).1 in
        rw q (elim (c.delete_acts d₁) [
          | inr ((x, q'), v') ↦ rw (q', v', v) ((refl, λ u h. refl), λ h. cc)
          | inl (q', v') ↦
              let d₂ : Db = (c.delete_versions d₁).1 in
              rw q' (elim (c.insert_acts d₂) [
                | inr ((x, q''), v'') ↦ rw (q'', v'', v', v) ((refl, λ u h. refl), λ h. cc)
                | inl (q'', v'') ↦
                    rw (q'', v'', v', v) ((refl, λ u h. refl), λ h. (refl, (pos 1, inl refl)))
              ])
        ])
  ]

  -- The version that was read: recorded in the file, or 0 for a failure or an empty table.
  migrate_from :
      (d : Db) (l : Layout)
      → view d ≡ l
      → IsSound l
      → let (r, d') = c.select_version d in
        let m = upgrade c (unwrap_or r (pos 0)) d' in
        Keeps l (view m.1) × (m.0 ≡ ok tt → IsReady (view m.1))
  unfolding upgrade
  migrate_from d l e sound =
      let (same, held) = c.select_acts d in
      let d' : Db = (c.select_version d).1 in
      let here : view d' ≡ l = same ∙ e in
      elim (Bool-cases (leb_ℤ schema_version (unwrap_or (c.select_version d).0 (pos 0)))) [
        | inr old ↦ rw old (
            subst
              (λ x.
                Keeps x (view (create_schema c d').1)
                × ((create_schema c d').0 ≡ ok tt → IsReady (view (create_schema c d').1)))
              here (create_schema_lem d' (rw here sound)))
        | inl new ↦ elim (Result-cases (c.select_version d).0) [
          | inl (v, q) ↦
              let h : Holds v (or_empty l.versions) =
                subst (λ x. Holds v (or_empty x.versions)) e (held v q) in
              rw (new, here) ((refl, sound), λ _. (sound v h, (v, h)))
          | inr (x, q) ↦ cc (rw q at new)
        ]
      ]

  -- Whatever statement fails, a migration of a sound file keeps the rows of the tasks and leaves the
  -- file sound; if it succeeds, the table of tasks is there and a version is recorded.
  pub migrate_lem :
      (d : Db)
      → IsSound (view d)
      → Keeps (view d) (view (migrate c d).1)
        × ((migrate c d).0 ≡ ok tt → IsReady (view (migrate c d).1))
  unfolding migrate current_version
  migrate_lem d sound = elim (c.version_table_acts d) [
    | inr ((x, q), v) ↦ rw (q, v) ((refl, sound), λ h. cc)
    | inl (q, v) ↦ rw q (migrate_from (c.create_version_table d).1 _ v sound)
  ]

  -- the layout that a complete migration makes
  abbrev pub current_layout : Layout → Layout
  current_layout l = record l { versions = some (pos 1 ∷ []); has_tasks = true }

  -- A file on which only this version of the program has run: no version is recorded yet, or 1 is.
  abbrev pub IsOurs : Layout → Type 0
  IsOurs l = (or_empty l.versions ≡ []) ⊎ (l ≡ current_layout l)

  create_schema_ok :
      (d : Db)
      → (create_schema c d).0 ≡ ok tt
      → view (create_schema c d).1 ≡ current_layout (view d)
  unfolding create_schema
  create_schema_ok d h = elim (c.tasks_acts d) [
    | inr ((x, q), v) ↦ cc (rw q at h)
    | inl (q, v) ↦
        let d₁ : Db = (c.create_tasks d).1 in
        let h₁ = (rw q at h) in
        rw q (elim (c.delete_acts d₁) [
          | inr ((x, q'), v') ↦ cc (rw q' at h₁)
          | inl (q', v') ↦
              let d₂ : Db = (c.delete_versions d₁).1 in
              let h₂ = (rw q' at h₁) in
              rw q' (elim (c.insert_acts d₂) [
                | inr ((x, q''), v'') ↦ cc (rw q'' at h₂)
                | inl (q'', v'') ↦ rw (v'', v', v) refl
              ])
        ])
  ]

  upgrade_ok :
      (d : Db) (l : Layout)
      → view d ≡ l
      → IsOurs l
      → let (r, d') = c.select_version d in
        let m = upgrade c (unwrap_or r (pos 0)) d' in m.0 ≡ ok tt → view m.1 ≡ current_layout l
  unfolding upgrade
  upgrade_ok d l e ours =
      let (same, held) = c.select_acts d in
      let d' : Db = (c.select_version d).1 in
      let here : view d' ≡ l = same ∙ e in
      elim (Bool-cases (leb_ℤ schema_version (unwrap_or (c.select_version d).0 (pos 0)))) [
        | inr old ↦ rw old (λ h. create_schema_ok d' h ∙ ap current_layout here)
        | inl new ↦ rw new (λ _. elim (Result-cases (c.select_version d).0) [
          | inr (x, q) ↦ cc (rw q at new)
          | inl (v, q) ↦
              let h : Holds v (or_empty l.versions) =
                subst (λ x. Holds v (or_empty x.versions)) e (held v q) in
              elim ours [
                | inl empty ↦ absurd (subst (λ vs. Holds v vs) empty h)
                | inr done ↦ here ∙ done
              ]
        ])
      ]

  migrate_ok :
      (d : Db)
      → IsOurs (view d)
      → (migrate c d).0 ≡ ok tt
      → view (migrate c d).1 ≡ current_layout (view d)
  unfolding migrate current_version
  migrate_ok d ours h = elim (c.version_table_acts d) [
    | inr ((x, q), v) ↦ cc (rw q at h)
    | inl (q, v) ↦ rw q (
        upgrade_ok (c.create_version_table d).1 _ v
          (elim ours [ inl e ↦ inl e | inr e ↦ inr (ap with_version_table e) ]) (rw q at h))
  ]

  -- Migrations can be repeated: on a file of this version, two that succeed leave what the first one
  -- has left, the table, the one version and the rows that were there, also where the first had to
  -- finish what a broken one had begun.
  pub migrate_twice :
      (d : Db)
      → IsOurs (view d)
      → (migrate c d).0 ≡ ok tt
      → (migrate c (migrate c d).1).0 ≡ ok tt
      → (view (migrate c d).1 ≡ current_layout (view d))
        × (view (migrate c (migrate c d).1).1 ≡ view (migrate c d).1)
  migrate_twice d ours h h' =
      let first = migrate_ok d ours h in
      let again = migrate_ok (migrate c d).1 (inr (first ∙ ap current_layout (sym first))) h' in
      (first, again ∙ ap current_layout first ∙ sym first)
