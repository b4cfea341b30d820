-- ===== src/Infra/Db/Fresh.antt =====
-- internal/infra/db.go: what `InitDB` leaves of the rows that were there.
use live_stream_danmaku.Base.{
  ◌≡◌, refl, ◌∙◌, sym, true, ◌≢◌, false, List, [], ◌∷◌, ◌++◌, some, Bool-cases, inl, inr, some_inj,
}
use live_stream_danmaku.Json.{bind-some}
use live_stream_danmaku.Infra.Db.{
  Table, danmaku_messages, rooms, users, same_table, Gorm, dsn, Opened, drop_one, migrate_one,
  drop_all, init_db, migrate_all,
}

module _ {Database : Type 0} {Row : Type 0} (gorm : Gorm Database Row) where
  -- If the list of failed drops is empty after a drop, it was empty before it, and the drop succeeded.
  drop_one-succeeds :
      (u : Table) (o : Opened Database)
      → (drop_one gorm u o).kept ≡ []
      → ((gorm.drop_table u o.db).1 ≡ true) × (o.kept ≡ [])
  unfolding drop_one
  drop_one-succeeds u o e = elim (Bool-cases (gorm.drop_table u o.db).1) [
    | inl ok ↦ (ok, rw ok at e)
    | inr ko ↦ absurd (not_nil o.kept u (rw ko at e))
  ]
    where
      not_nil : (ts : List Table) (t : Table) → ts ++ t ∷ [] ≢ []
      not_nil [] t h = cc
      not_nil (x ∷ ts) t h = cc

  drop_one-gone :
      (u : Table) (o : Opened Database)
      → (gorm.drop_table u o.db).1 ≡ true
      → gorm.rows (drop_one gorm u o).db u ≡ []
  unfolding drop_one
  drop_one-gone u o ok = gorm.rows-drop_table u o.db ok

  drop_one-other :
      (u t : Table) (o : Opened Database)
      → same_table u t ≡ false
      → gorm.rows (drop_one gorm u o).db t ≡ gorm.rows o.db t
  unfolding drop_one
  drop_one-other u t o e = gorm.rows-other_table u t o.db e

  drop_all-gone :
      (db : Database) (t : Table)
      → (drop_all gorm db).kept ≡ []
      → gorm.rows (drop_all gorm db).db t ≡ []
  unfolding drop_all
  drop_all-gone db t e =
      let o : Opened Database = record { db = db; kept = [] } in
      let o' = drop_one gorm danmaku_messages o in
      let o'' = drop_one gorm rooms o' in
      let (ok'', e'') = drop_one-succeeds users o'' e in
      let (ok', e') = drop_one-succeeds rooms o' e'' in
      let (ok, _) = drop_one-succeeds danmaku_messages o e' in
      let gone' = drop_one-gone rooms o' ok' in
      let gone = drop_one-gone danmaku_messages o ok in
      three (gorm.rows (drop_all gorm db).db) t
        (drop_one-other users danmaku_messages o'' refl
          ∙ drop_one-other rooms danmaku_messages o' refl
          ∙ gone)
        (drop_one-other users rooms o'' refl ∙ gone') (drop_one-gone users o'' ok'')
    where
      three :
          (f : Table → List Row) (t : Table)
          → f danmaku_messages ≡ []
          → f rooms ≡ []
          → f users ≡ []
          → f t ≡ []
      three f danmaku_messages a b c = a
      three f rooms a b c = b
      three f users a b c = c

  migrate_one-rows :
      (u t : Table) (o o' : Opened Database)
      → migrate_one gorm u o ≡ some o'
      → (gorm.rows o'.db t ≡ gorm.rows o.db t) × (o'.kept ≡ o.kept)
  unfolding migrate_one
  migrate_one-rows u t o o' e = elim (Bool-cases (gorm.auto_migrate u o.db).1) [
    | inl ok ↦ let e' = some_inj (rw ok at e) in rw (← e') (gorm.rows-auto_migrate u t o.db, refl)
    | inr ko ↦ let e' = rw ko at e in cc
  ]

  migrate_all-rows :
      (t : Table) (o o' : Opened Database)
      → migrate_all gorm o ≡ some o'
      → (gorm.rows o'.db t ≡ gorm.rows o.db t) × (o'.kept ≡ o.kept)
  unfolding migrate_all
  migrate_all-rows t o o' e =
      let (a, ea, e) = bind-some (migrate_one gorm danmaku_messages o) e in
      let (b, eb, ec) = bind-some (migrate_one gorm rooms a) e in
      let (rows_a, kept_a) = migrate_one-rows danmaku_messages t o a ea in
      let (rows_b, kept_b) = migrate_one-rows rooms t a b eb in
      let (rows_c, kept_c) = migrate_one-rows users t b o' ec in
      (rows_c ∙ rows_b ∙ rows_a, kept_c ∙ kept_b ∙ kept_a)

  -- When no drop was logged as failed, no table has rows: the migrations bring nothing back.
  pub init_db-gone :
      (db : Database) (o : Opened Database) (t : Table)
      → gorm.connect dsn ≡ some db
      → init_db gorm ≡ some o
      → o.kept ≡ []
      → gorm.rows o.db t ≡ []
  unfolding init_db
  init_db-gone db o t c e k =
      let (rows_eq, kept_eq) = migrate_all-rows t (drop_all gorm db) o (rw (c, init_db) at e) in
      rows_eq ∙ drop_all-gone db t (sym kept_eq ∙ k)
