-- ===== src/Settings.antt =====
-- src/settings.c, the table of settings. Each setting is a pointer to a text, which is kept here as
-- the text; `settings_new_from_xdg` and `settings_init`, which fill the table from the environment,
-- are not modelled.
use gtk4_kee.Prelude.{◌≡◌, refl, ◌≢◌, ℕ, []}
use gtk4_kee.Prelude.Bytes.{Bytes}
use gtk4_kee.Prelude.Result.{Result, ok, err}

-- `ERR_FAIL`
abbrev err_fail : ℕ
err_fail = 1

-- `struct kee_settings`
pub record Settings : Type 0 where
  pub data_dir : Bytes
  pub db : Bytes
  pub resource : Bytes
  pub run : Bytes
  pub key : Bytes
  pub locktime : Bytes
  pub video_device : Bytes

-- `enum SettingsType`; `other` stands for a number that is none of them.
pub data SettingsType : Type 0 where
  settings_data settings_run settings_key settings_db settings_resource : SettingsType
  settings_locktime settings_video other : SettingsType

-- `settings_get`
unfoldable pub settings_get : Settings → SettingsType → Bytes
settings_get z settings_data = z.data_dir
settings_get z settings_run = z.run
settings_get z settings_key = z.key
settings_get z settings_locktime = z.locktime
settings_get z settings_video = z.video_device
settings_get z settings_db = []
settings_get z settings_resource = []
settings_get z other = []

-- `settings_set`
unfoldable pub settings_set : Settings → SettingsType → Bytes → Result Settings
settings_set z settings_data v = ok (record z { data_dir = v })
settings_set z settings_run v = ok (record z { run = v })
settings_set z settings_resource v = ok (record z { resource = v })
settings_set z settings_locktime v = ok (record z { locktime = v })
settings_set z settings_video v = ok (record z { video_device = v })
settings_set z settings_key v = err err_fail
settings_set z settings_db v = err err_fail
settings_set z other v = err err_fail

-- Whether a setting is read back after it was written: the resource directory can be set, and
-- `settings_get` has no case for it.
pub reads_back : SettingsType → Bytes → Bytes
reads_back settings_resource v = []
reads_back _ v = v

-- A setting that `settings_set` accepts is what `settings_get` returns then, but for the resource
-- directory, for which it returns the empty text; and `settings_get` of any other setting is
-- unchanged.
pub settings_get-set :
    (z z' : Settings) (t : SettingsType) (v : Bytes)
    → settings_set z t v ≡ ok z'
    → (settings_get z' t ≡ reads_back t v)
      × ((t' : SettingsType) → t' ≢ t → settings_get z' t' ≡ settings_get z t')
unfolding settings_get settings_set reads_back
settings_get-set z z' t v h = (reads z z' t v h, unchanged z z' t v h)
  where
    reads :
        (z z' : Settings) (t : SettingsType) (v : Bytes)
        → settings_set z t v ≡ ok z'
        → settings_get z' t ≡ reads_back t v
    reads z z' settings_data v h = cc
    reads z z' settings_run v h = cc
    reads z z' settings_key v h = cc
    reads z z' settings_db v h = cc
    reads z z' settings_resource v h = cc
    reads z z' settings_locktime v h = cc
    reads z z' settings_video v h = cc
    reads z z' other v h = cc

    unchanged :
        (z z' : Settings) (t : SettingsType) (v : Bytes)
        → settings_set z t v ≡ ok z'
        → (t' : SettingsType) → t' ≢ t
        → settings_get z' t' ≡ settings_get z t'
    unchanged z z' settings_data v h t' ne =
        elim t' as (λ k. k ≢ settings_data → settings_get z' k ≡ settings_get z k) [
          | settings_data ↦ λ ne. absurd (ne refl)
          | _ ↦ λ _. cc
        ]
          ne
    unchanged z z' settings_run v h t' ne =
        elim t' as (λ k. k ≢ settings_run → settings_get z' k ≡ settings_get z k) [
          | settings_run ↦ λ ne. absurd (ne refl)
          | _ ↦ λ _. cc
        ]
          ne
    unchanged z z' settings_key v h t' ne =
        elim t' as (λ k. k ≢ settings_key → settings_get z' k ≡ settings_get z k) [
          | settings_key ↦ λ ne. absurd (ne refl)
          | _ ↦ λ _. cc
        ]
          ne
    unchanged z z' settings_db v h t' ne =
        elim t' as (λ k. k ≢ settings_db → settings_get z' k ≡ settings_get z k) [
          | settings_db ↦ λ ne. absurd (ne refl)
          | _ ↦ λ _. cc
        ]
          ne
    unchanged z z' settings_resource v h t' ne =
        elim t' as (λ k. k ≢ settings_resource → settings_get z' k ≡ settings_get z k) [
          | settings_resource ↦ λ ne. absurd (ne refl)
          | _ ↦ λ _. cc
        ]
          ne
    unchanged z z' settings_locktime v h t' ne =
        elim t' as (λ k. k ≢ settings_locktime → settings_get z' k ≡ settings_get z k) [
          | settings_locktime ↦ λ ne. absurd (ne refl)
          | _ ↦ λ _. cc
        ]
          ne
    unchanged z z' settings_video v h t' ne =
        elim t' as (λ k. k ≢ settings_video → settings_get z' k ≡ settings_get z k) [
          | settings_video ↦ λ ne. absurd (ne refl)
          | _ ↦ λ _. cc
        ]
          ne
    unchanged z z' other v h t' ne =
        elim t' as (λ k. k ≢ other → settings_get z' k ≡ settings_get z k) [
          | other ↦ λ ne. absurd (ne refl)
          | _ ↦ λ _. cc
        ]
          ne
