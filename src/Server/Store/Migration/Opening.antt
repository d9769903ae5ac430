-- ===== src/Server/Store/Migration/Opening.antt =====
-- Opening a database file, migration included.
use longhaul.Base.{
  String, ◌≡◌, refl, ap, ◌∙◌, ◌⊎◌, inl, inr, false, ok, err, Result-cases, ok_injective,
}
use mathlib.Core.Path.{subst}
use longhaul.Base.Exec.{Exec}
use longhaul.Server.Store.{SqliteError}
use longhaul.Server.Store.Sqlite.{SqliteStore}
use longhaul.Server.Store.Migration.{Acts, open_store, Layout, Connection, migrate}
use longhaul.Server.Store.Migration.Laws.{IsSound, IsReady, Keeps, migrate_lem}

module _ (c : Connection) where
  open c use {Db, view}

  opened :
      (d : Db) (l : Layout) (m : Exec Db SqliteError (Unit {0}))
      → Acts view m (λ x. x)
      → view d ≡ l
      → ((m d).0 ≡ ok tt) × (view (m d).1 ≡ l)
        ⊎ ((x : SqliteError) × ((m d).0 ≡ err x)) × (view (m d).1 ≡ l)
  opened d l m acts e = elim (acts d) [ inl (q, v) ↦ inl (q, v ∙ e) | inr (q, v) ↦ inr (q, v ∙ e) ]

  -- Opening a sound file keeps the rows of the tasks and leaves the file sound, whatever fails; if
  -- it succeeds, the store is on a file that is ready, and its lock is not poisoned.
  pub open_store_lem :
      (path : String) (d : Db)
      → IsSound (view d)
      → Keeps (view d) (view (open_store c path d).1)
        × ((s : SqliteStore Db)
            → (open_store c path d).0 ≡ ok s
            → IsReady (view s.db) × (s.poisoned ≡ false))
  unfolding open_store
  open_store_lem path d sound = elim (opened d _ (c.open_file path) (c.open_acts path) refl) [
    | inr ((x, q), v) ↦ rw (q, v) ((refl, sound), λ s h. cc)
    | inl (q₁, v₁) ↦ rw q₁ (elim (opened _ _ c.set_wal c.wal_acts v₁) [
      | inr ((x, q), v) ↦ rw (q, v) ((refl, sound), λ s h. cc)
      | inl (q₂, v₂) ↦ rw q₂ (elim (opened _ _ c.set_synchronous c.synchronous_acts v₂) [
        | inr ((x, q), v) ↦ rw (q, v) ((refl, sound), λ s h. cc)
        | inl (q₃, v₃) ↦ rw q₃ (
            let d₃ : Db = (c.set_synchronous (c.set_wal (c.open_file path d).1).1).1 in
            let (kept, ready) = migrate_lem c d₃ (rw v₃ sound) in
            let keeps : Keeps (view d) (view (migrate c d₃).1) =
              (kept.0 ∙ ap (λ (l : Layout). l.rows) v₃, kept.1) in
            elim (Result-cases (migrate c d₃).0) [
              | inl (done, q) ↦ rw q (
                keeps,
                λ s h.
                    subst (λ (x : SqliteStore Db). IsReady (view x.db) × (x.poisoned ≡ false))
                      (ok_injective h) (ready q, refl),
              )
              | inr (x, q) ↦ rw q (keeps, λ s h. cc)
            ])
      ])
    ])
  ]
