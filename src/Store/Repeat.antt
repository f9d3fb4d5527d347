-- ===== src/Store/Repeat.antt =====
-- Writes of backend/internal/store/store.go that are repeated.
use mathlib.Core.List.{foldl, append-nil, append_assoc}
use maelstromhub.Prelude.{
  ℕ, ◌≡◌, ◌↔◌, refl, Bool, true, ◌++◌, Option, none, some, List, [], ◌∷◌, String, map, ◌∙◌, ap, sym,
}
use maelstromhub.Models.{Candle, Flag}
use maelstromhub.Store.{
  Database, same_bar, candle_key, stored_flag, put_flag, stored_candle, upsert_candles,
  insert_flags,
}
use maelstromhub.Store.Batch.{commit, exec_loop, send_batch}
use maelstromhub.Store.Rows.{upsert, select, last_or, select-all, last_or_twice}
use maelstromhub.Store.Keys.{same_bar_iff}

module _ {ℓ κ μ} {R : Type ℓ} {K : Type κ} {A : Type μ} (key : R → K) (same : K → K → Bool)
    (same_iff : (j k : K) → (same j k ≡ true) ↔ (j ≡ k)) (stored : A → R) where
  abbrev put : List R → A → List R
  put table a = upsert key same table (stored a)

  commit_twice :
      (k : K) (err err' : Option String) (new : List A) (rows : List R)
      → err ≡ none
      → let first = commit err (foldl put rows new) rows in
        select key same k (commit err' (foldl put first new) first) ≡ select key same k first
  commit_twice k none none new rows h =
      select-all key same same_iff stored k new (foldl put rows new)
      ∙ ap (λ o. last_or key same k o (map stored new))
          (select-all key same same_iff stored k new rows)
      ∙ last_or_twice key same k (select key same k rows) (map stored new)
      ∙ sym (select-all key same same_iff stored k new rows)
  commit_twice k none (some e) new rows h = refl
  commit_twice k (some e) err' new rows h = cc

flags-all : (new table : List Flag) → foldl put_flag table new ≡ table ++ map stored_flag new
flags-all [] table = sym (append-nil table)
flags-all (g ∷ new) table =
    flags-all new (put_flag table g) ∙ append_assoc table (stored_flag g ∷ []) (map stored_flag new)

module _ {ℓ} {F : Type ℓ} where
  -- Candles that are written again change nothing: once a batch is written, a second write of the same batch,
  -- whether it succeeds or not, leaves each coin, interval and time with the same candle.
  pub upsert_candles_twice :
      (answers answers' : ℕ → Option String) (rows : List (Candle F)) (db : Database F)
      (coin interval : String) (time : ℕ)
      → (upsert_candles answers rows db).1.1 ≡ none
      → let first = (upsert_candles answers rows db).0 in
        let second = (upsert_candles answers' rows first).0 in
        select candle_key same_bar (coin, interval, time) second.candles
        ≡ select candle_key same_bar (coin, interval, time) first.candles
  unfolding upsert_candles send_batch
  upsert_candles_twice answers answers' rows db coin interval time ok =
      commit_twice candle_key same_bar same_bar_iff stored_candle (coin, interval, time)
        (exec_loop answers rows 0).1 (exec_loop answers' rows 0).1 rows db.candles ok

  -- Flags that are written again are there twice: they have no key, so a second write of a batch adds each of
  -- its flags again.
  pub insert_flags_twice :
      (answers answers' : ℕ → Option String) (rows : List Flag) (db : Database F)
      → (insert_flags answers rows db).1.1 ≡ none
      → (insert_flags answers' rows (insert_flags answers rows db).0).1.1 ≡ none
      → (insert_flags answers' rows (insert_flags answers rows db).0).0.flags
        ≡ db.flags ++ (map stored_flag rows ++ map stored_flag rows)
  unfolding insert_flags send_batch
  insert_flags_twice answers answers' rows db ok ok' =
      rw (ok', ok, flags-all rows db.flags, flags-all rows (db.flags ++ map stored_flag rows))
        (append_assoc db.flags (map stored_flag rows) (map stored_flag rows))
