-- ===== src/Config/Registry.antt =====
-- src/AutoConfig.cpp: the texts of the settings in the registry, under the key that
-- `Config::GetRegistryPath` names in two hives. The calls of the registry are parameters; an
-- exception is an outcome. The critical section and the log output are left out.
pub mod Laws
pub mod Refinement
pub mod Deletion
use libappupdater.CLib.{c_string}
use libappupdater.Config.Store.{longest_value}
use libappupdater.Prelude.{
  ℕ, ◌+◌, Bytes, Bool, true, false, ◌||◌, List, [], ◌∷◌, ◌++◌, Option, none, some, ◌==◌,
  if◌then◌else◌,
}

pub data Hive : Type 0 where
  current_user : Hive
  local_machine : Hive

-- The results of the calls that the code tells apart.
pub data Status : Type 0 where
  success : Status
  file_not_found : Status
  failed : Status

abbrev pub reg_sz : ℕ
reg_sz = 1

-- The calls. A key is its hive and its path; an open key is not closed again in the model.
pub record RegistryApi : Type 1 where
  pub State : Type 0
  -- `RegCreateKeyExA` in `HKEY_CURRENT_USER`.
  pub create_key : State → Bytes → Status × State
  -- `RegOpenKeyExA`
  pub open_key : State → Hive → Bytes → Status
  -- `RegSetValueExA` of a `REG_SZ`: the name, and the bytes.
  pub set_value : State → Hive → Bytes → Bytes → Bytes → Status × State
  -- `RegQueryValueExA` of a name into a buffer of some size: the type, and the bytes.
  pub query_value : State → Hive → Bytes → Bytes → ℕ → Status × ℕ × Bytes
  -- `RegDeleteKeyExA` of a subkey.
  pub delete_subkey : State → Hive → Bytes → Bytes → Status × State

-- What a call that may throw a `SysException` leaves behind.
pub record Outcome {ℓ} (S : Type ℓ) : Type ℓ where
  pub after : S
  pub result : Option Bool

-- What `RegistryRead` of one hive finds.
pub data Reading : Type 0 where
  value : Bytes → Reading
  absent : Reading
  refused : Reading

module _ (api : RegistryApi) (path : Bytes) where
  open api use {State, create_key, open_key, set_value, query_value, delete_subkey}

  -- `RegistryWrite`: it returns true, or throws.
  unfoldable pub registry_write : State → Bytes → Bytes → Outcome State
  registry_write s name text =
      let (created, s') = create_key s path in
      let (stored, s'') = set_value s' current_user path name (c_string text ++ (0 ∷ [])) in
      elim created [
        | success ↦ elim stored [
          | success ↦ record { after = s''; result = some true }
          | _ ↦ record { after = s''; result = none }
        ]
        | _ ↦ record { after = s'; result = none }
      ]

  -- `RegistryRead` of one hive.
  unfoldable pub query : State → Hive → Bytes → Reading
  query s hive name =
      let (status, type, data_read) = query_value s hive path name (longest_value + 1) in
      elim status [
        | success ↦ if type == reg_sz then value data_read else absent
        | file_not_found ↦ absent
        | failed ↦ refused
      ]

  unfoldable pub registry_read_hive : State → Hive → Bytes → Reading
  unfolding query
  registry_read_hive s hive name = elim (open_key s hive path) [
    | success ↦ query s hive name
    | file_not_found ↦ absent
    | failed ↦ refused
  ]

  -- `RegistryRead` of both hives.
  unfoldable pub registry_read : State → Bytes → Reading
  unfolding registry_read_hive
  registry_read s name = elim (registry_read_hive s current_user name) [
    | absent ↦ registry_read_hive s local_machine name
    | found ↦ found
  ]

  -- `ReadConfigValueImpl`: none if it throws.
  unfoldable pub read_config_value : State → Bytes → Option Bytes
  unfolding registry_read
  read_config_value s name = elim (registry_read s name) [
    | value text ↦ some (c_string text)
    | absent ↦ some []
    | refused ↦ none
  ]

  -- `XRegDeleteKeyExA`, where `RegDeleteKeyExA` is available or is emulated.
  abbrev pub delete_key : Bool → State → Hive → Bytes → Status × State
  delete_key true s hive name = delete_subkey s hive path name
  delete_key false s hive name = set_value s hive path name (0 ∷ [])

  -- `RegistryDelete` of one hive.
  unfoldable pub registry_delete_hive : Bool → State → Hive → Bytes → Outcome State
  registry_delete_hive available s hive name =
      let (deleted, s') = delete_key available s hive name in
      elim (open_key s hive path) [
        | success ↦ elim deleted [
          | failed ↦ record { after = s'; result = none }
          | _ ↦ record { after = s'; result = some true }
        ]
        | file_not_found ↦ record { after = s; result = some false }
        | failed ↦ record { after = s; result = none }
      ]

  -- `RegistryDelete` of both hives.
  unfoldable pub registry_delete : Bool → State → Bytes → Outcome State
  unfolding registry_delete_hive
  registry_delete available s name =
      let user = registry_delete_hive available s current_user name in
      let machine = registry_delete_hive available user.after local_machine name in
      elim user.result [
        | none ↦ user
        | some first ↦ elim machine.result [
          | none ↦ machine
          | some second ↦ record { after = machine.after; result = some (first || second) }
        ]
      ]
