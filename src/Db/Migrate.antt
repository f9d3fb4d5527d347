-- ===== src/Db/Migrate.antt =====
-- `Migrate` of backend/internal/db/migrate.go: the SQL files that the server executes when it starts.
use text.Mathlib.Text.{◌==◌ as str_eq}
use Prim.Native.Nat.{Ordering}
use Prim.Native.String.{compare}
use maelstromhub.Prelude.{
  ◌≡◌, refl, Bool, true, false, not, ◌&&◌, ◌||◌, Bool-cases, Option, none, some, List, [], ◌∷◌,
  ◌++◌, String, ◌⊎◌, inl, inr, if◌then◌else◌,
}
use maelstromhub.Prelude.Sort.{sort_by}
use maelstromhub.Config.Text.{is}
use maelstromhub.Query.Rows.{rows_where}

-- the order of `sort.Strings`, byte by byte
abbrev pub text_le : String → String → Bool
text_le s t = elim (compare s t) [ Ordering.gt ↦ false | _ ↦ true ]

-- `strings.HasPrefix`
unfoldable pub has_prefix : String → String → Bool
has_prefix s String.[] = true
has_prefix String.[] (String.◌∷◌ d part) = false
has_prefix (String.◌∷◌ c s) (String.◌∷◌ d part) = let rest = has_prefix s part in is c d && rest

-- `strings.Contains`
unfoldable pub contains : String → String → Bool
contains String.[] part = has_prefix "" part
contains (String.◌∷◌ c s) part =
    let rest = contains s part in has_prefix (String.◌∷◌ c s) part || rest

-- What `Migrate` calls: `filepath.Join`, `filepath.Base`, `filepath.Glob`, `os.ReadFile` and `pool.Exec`.
pub record System {ℓ} (DB : Type ℓ) : Type ℓ where
  pub join : String → String → String
  pub base : String → String
  pub glob : String → String ⊎ List String
  pub read_file : String → String ⊎ String
  pub exec : String → DB → DB × Option String

module _ {ℓ} {DB : Type ℓ} (sys : System DB) where
  -- The file is left out.
  abbrev pub is_down : String → Bool
  is_down file = contains (sys.base file) "down"

  -- the files that are not
  abbrev pub up_files : List String → List String
  up_files files = rows_where (λ file. not (is_down file)) files

  -- the loop of `Migrate`
  unfoldable pub migrate_loop : List String → DB → DB × Option String
  migrate_loop [] db = (db, none)
  migrate_loop (file ∷ files) db = elim (is_down file) [
    | true ↦ migrate_loop files db
    | false ↦ elim (sys.read_file file) [
      | inl e ↦ (db, some e)
      | inr sql ↦
          (let (db', err) = sys.exec sql db in
            elim err [ none ↦ migrate_loop files db' | some e ↦ (db', some e) ])
    ]
  ]

  abbrev pub directory : String → String
  directory dir = if str_eq dir "" then "migrations" else dir

  -- what the directory holds
  abbrev pub listing : String → String ⊎ List String
  listing dir = sys.glob (sys.join (directory dir) "*.sql")

  -- the files that are executed, in their order
  abbrev pub migrations : List String → List String
  migrations files = up_files (sort_by text_le files)

  -- `Migrate`
  unfoldable pub migrate : String → DB → DB × Option String
  migrate dir db = elim (listing dir) [
    | inl e ↦ (db, some e)
    | inr files ↦ migrate_loop (sort_by text_le files) db
  ]

  -- Each file is read and its statements executed, one file after the other.
  pub data Applied : List String → DB → DB → Type ℓ where
    no_file : (db : DB) → Applied [] db db
    one_file :
        {db mid db' : DB} {files : List String} (file sql : String)
        → sys.read_file file ≡ inr sql
        → sys.exec sql db ≡ (mid, none)
        → Applied files mid db'
        → Applied (file ∷ files) db db'

  -- A file cannot be read, or its statements fail.
  pub data Fails : String → DB → DB → String → Type ℓ where
    not_read : (file e : String) (db : DB) → sys.read_file file ≡ inl e → Fails file db db e
    not_executed :
        (file sql e : String) (db db' : DB)
        → sys.read_file file ≡ inr sql
        → sys.exec sql db ≡ (db', some e)
        → Fails file db db' e

  -- All files are applied, or those in front of one that fails.
  pub data Migrated : List String → DB → DB × Option String → Type ℓ where
    all_applied :
        {files : List String} {db db' : DB} → Applied files db db' → Migrated files db (db', none)
    stopped :
        {db mid db' : DB} (front : List String) (file : String) (back : List String) (e : String)
        → Applied front db mid
        → Fails file mid db' e
        → Migrated (front ++ (file ∷ back)) db (db', some e)

  pub Migrated-none :
      {files : List String} {db db' : DB} → Migrated files db (db', none) → Applied files db db'
  Migrated-none (all_applied applied) = applied

  one_more :
      {db mid : DB} {files : List String} {result : DB × Option String} (file sql : String)
      → sys.read_file file ≡ inr sql
      → sys.exec sql db ≡ (mid, none)
      → Migrated files mid result
      → Migrated (file ∷ files) db result
  one_more file sql read done (all_applied applied) =
      all_applied (one_file file sql read done applied)
  one_more file sql read done (stopped front failing back e applied fails) =
      stopped (file ∷ front) failing back e (one_file file sql read done applied) fails

  -- what is left of the loop after a file is executed, and after it is read
  abbrev then_files : List String → DB × Option String → DB × Option String
  then_files files (mid, none) = migrate_loop files mid
  then_files files (mid, some e) = (mid, some e)

  abbrev file_result : List String → DB → String ⊎ String → DB × Option String
  file_result files db (inl e) = (db, some e)
  file_result files db (inr sql) = then_files files (sys.exec sql db)

  executed-Migrated :
      (file sql : String) (files : List String) (db : DB) (done : DB × Option String)
      → sys.read_file file ≡ inr sql
      → sys.exec sql db ≡ done
      → ((mid : DB) → Migrated (up_files files) mid (migrate_loop files mid))
      → Migrated (file ∷ up_files files) db (then_files files done)
  executed-Migrated file sql files db (mid, none) read done rest =
      one_more file sql read done (rest mid)
  executed-Migrated file sql files db (db', some e) read done rest =
      stopped [] file (up_files files) e (no_file db) (not_executed file sql e db db' read done)

  file-Migrated :
      (file : String) (files : List String) (db : DB) (content : String ⊎ String)
      → sys.read_file file ≡ content
      → ((mid : DB) → Migrated (up_files files) mid (migrate_loop files mid))
      → Migrated (file ∷ up_files files) db (file_result files db content)
  file-Migrated file files db (inl e) read rest =
      stopped [] file (up_files files) e (no_file db) (not_read file e db read)
  file-Migrated file files db (inr sql) read rest =
      executed-Migrated file sql files db (sys.exec sql db) read refl rest

  migrate_loop-Migrated :
      (files : List String) (db : DB) → Migrated (up_files files) db (migrate_loop files db)
  unfolding migrate_loop rows_where
  migrate_loop-Migrated [] db = all_applied (no_file db)
  migrate_loop-Migrated (file ∷ files) db = elim (Bool-cases (is_down file)) [
    | inl down ↦ rw (migrate_loop, down) (migrate_loop-Migrated files db)
    | inr up ↦
        rw (migrate_loop, up)
          (file-Migrated file files db (sys.read_file file) refl (migrate_loop-Migrated files))
  ]

  -- Where its directory can be listed, `Migrate` executes the files without "down" in their name, in the order of
  -- their names: all of them, each read and executed on what those before it left; or those in front of the
  -- first that cannot be read or executed, whose error it returns.
  pub migrate-Migrated :
      (dir : String) (files : List String) (db : DB)
      → listing dir ≡ inr files
      → Migrated (migrations files) db (migrate dir db)
  unfolding migrate
  migrate-Migrated dir files db listed =
      rw (migrate, listed) (migrate_loop-Migrated (sort_by text_le files) db)
