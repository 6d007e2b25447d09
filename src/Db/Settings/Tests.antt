-- ===== src/Db/Settings/Tests.antt =====
-- Settings at a concrete RocksDB.
use grocksdb.Base.{ℕ, ◌+◌, [], ◌∷◌}
use grocksdb.Fixtures.{a_db, a_handle, small, small-IsValid, letter_a, letters_bc, failure}
use grocksdb.Db.Settings.{
  SettingsApi, Settings, Leaks, keys_of, values_of, names_read, values_read, set_options,
  set_options_cf, set_options-Leaks,
}

abbrev settings_api : SettingsApi ℕ
settings_api = record {
  rocksdb_set_options = λ a b c s. (failure s, s + 1);
  rocksdb_set_options_cf = λ a b c d s. (failure s, s + 2);
}

abbrev two_settings : Settings
two_settings = (letter_a, letters_bc) ∷ (letters_bc, []) ∷ []

set_options-Leaks_example :
    Leaks small two_settings
      (set_options settings_api a_db (keys_of two_settings) (values_of two_settings))
      (settings_api.rocksdb_set_options 5 (names_read two_settings) (values_read two_settings))
    × Leaks small two_settings
        (set_options_cf settings_api a_db a_handle (keys_of two_settings) (values_of two_settings))
        (settings_api.rocksdb_set_options_cf 5 6
          (names_read two_settings)
          (values_read two_settings))
set_options-Leaks_example =
    set_options-Leaks settings_api a_db a_handle (letter_a, letters_bc) ((letters_bc, []) ∷ [])
      small small-IsValid
