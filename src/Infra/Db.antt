-- ===== src/Infra/Db.antt =====
-- internal/infra/db.go. GORM and MySQL are not part of the program: a database and its operations are
-- a parameter, with what their documentation says of the tables' rows as fields.
pub mod Fresh
use live_stream_danmaku.Base.{
  ◌≡◌, Bool, true, false, List, [], ◌∷◌, ◌++◌, Option, none, some, if◌then◌else◌,
}
use live_stream_danmaku.Text.{Text, codes}
use live_stream_danmaku.Json.{◌>>=◌}

-- The tables of the three models of internal/model.
pub data Table : Type 0 where
  danmaku_messages : Table
  rooms : Table
  users : Table

abbrev pub same_table : Table → Table → Bool
same_table danmaku_messages danmaku_messages = true
same_table rooms rooms = true
same_table users users = true
same_table _ _ = false

-- `connect` is `gorm.Open`, which fails with `none`; `DropTable` and `AutoMigrate` give the database after the call and
-- `err == nil`. A table that does not exist has no rows. After a drop that succeeds there is none; of
-- the table of a failed one nothing is said. A drop is of one table only, and a migration creates the
-- table if it does not exist and deletes no data.
pub record Gorm (Database : Type 0) (Row : Type 0) : Type 0 where
  pub connect : Text → Option Database
  pub rows : Database → Table → List Row
  pub drop_table : Table → Database → Database × Bool
  pub auto_migrate : Table → Database → Database × Bool
  pub rows-drop_table :
      (t : Table) (db : Database) → (drop_table t db).1 ≡ true → rows (drop_table t db).0 t ≡ []
  pub rows-other_table :
      (t u : Table) (db : Database)
      → same_table t u ≡ false
      → rows (drop_table t db).0 u ≡ rows db u
  pub rows-auto_migrate : (t u : Table) (db : Database) → rows (auto_migrate t db).0 u ≡ rows db u

abbrev pub dsn : Text
dsn = codes "root:root@tcp(127.0.0.1:3306)/danmaku_db?charset=utf8mb4&parseTime=True&loc=Local"

-- The database, and the tables whose drop has been logged as failed.
pub record Opened (Database : Type 0) : Type 0 where
  pub db : Database
  pub kept : List Table

module _ {Database : Type 0} {Row : Type 0} (gorm : Gorm Database Row) where
  -- An error of `DropTable` is logged, and `InitDB` goes on.
  unfoldable pub drop_one : Table → Opened Database → Opened Database
  drop_one t o =
      let (db, ok) = gorm.drop_table t o.db in
      record { db = db; kept = if ok then o.kept else o.kept ++ t ∷ [] }

  -- An error of `AutoMigrate` ends the program: `none`.
  unfoldable pub migrate_one : Table → Opened Database → Option (Opened Database)
  migrate_one t o =
      let (db, ok) = gorm.auto_migrate t o.db in if ok then some (record o { db = db }) else none

  unfoldable pub drop_all : Database → Opened Database
  drop_all db =
      drop_one users (drop_one rooms (drop_one danmaku_messages (record { db = db; kept = [] })))

  migrate_all : Opened Database → Option (Opened Database)
  migrate_all o = do
    a ← migrate_one danmaku_messages o
    b ← migrate_one rooms a
    migrate_one users b

  -- `InitDB`
  unfoldable pub init_db : Option (Opened Database)
  unfolding drop_all migrate_all
  init_db = elim (gorm.connect dsn) [ none ↦ none | some db ↦ migrate_all (drop_all db) ]
