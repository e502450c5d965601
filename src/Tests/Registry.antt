-- ===== src/Tests/Registry.antt =====
-- The registry: src/AutoConfig.cpp.
use libappupdater.CLib.{stricmp_eq}
use libappupdater.Config.Registry.{
  Hive, success, reg_sz, RegistryApi, Outcome, registry_write, read_config_value, registry_delete,
}
use libappupdater.Config.Registry.Deletion.{read_config_value-registry_delete}
use libappupdater.Config.Registry.Laws.{Works, same_hive, answer}
use libappupdater.Config.Registry.Refinement.{read_config_value-registry_write}
use libappupdater.Prelude.{
  Bool, ℕ, Bytes, true, false, ◌&&◌, [], Option, none, some, if◌then◌else◌, ◌≡◌, refl, codes, arith,
  inl,
}

-- One key in each hive, with its values as a function of their names.
abbrev Values : Type 0
Values = Hive → Bytes → Option (ℕ × Bytes)

abbrev put : Values → Hive → Bytes → Bytes → Values
put s h name text k other =
    if same_hive h k && stricmp_eq name other then some (reg_sz, text) else s k other

abbrev values_api : RegistryApi
values_api = record {
  State = Values;
  create_key = λ s path. (success, s);
  open_key = λ s h path. success;
  set_value = λ s h path name text. (success, put s h name text);
  query_value = λ s h path name room. answer (s h name) room;
  delete_subkey = λ s h path name. (success, s);
}

abbrev values_work : Works values_api (codes "Software")
values_work = record {
  values = λ s h name. s h name;
  opened = λ s h. inl refl;
  queried = λ s h name room. refl;
  created = λ s. refl;
  values-created = λ s h name. refl;
  stored = λ s h name text. refl;
  values-stored = λ s h k name other text. refl;
  deleted = λ s h name. inl refl;
  values-deleted = λ s h k name other. refl;
}

abbrev one_value : Values
one_value h name = if stricmp_eq (codes "Interval") name then some (reg_sz, codes "7") else none

abbrev reads : Values → Bytes → Option Bytes
reads s name = read_config_value values_api (codes "Software") s name

read_config_value-registry_write_example :
    (Outcome.result
        (registry_write values_api (codes "Software") one_value (codes "Auto") (codes "1"))
      ≡ some true)
    × (reads
          (Outcome.after
            (registry_write values_api (codes "Software") one_value (codes "Auto") (codes "1")))
          (codes "auto")
        ≡ some (codes "1"))
unfolding stricmp_eq
read_config_value-registry_write_example =
    read_config_value-registry_write values_api (codes "Software") values_work one_value
      (codes "Auto") (codes "auto") (codes "1") (omega arith, refl)

abbrev deleted_from : Bool → Values
deleted_from available =
    Outcome.after
      (registry_delete values_api (codes "Software") available one_value (codes "interval"))

read_config_value-registry_delete_example :
    reads (deleted_from true) (codes "Interval") ≡ reads one_value (codes "Interval")
read_config_value-registry_delete_example =
    read_config_value-registry_delete values_api (codes "Software") values_work true one_value
      (codes "interval") (codes "Interval")

emulated_deletion : reads (deleted_from false) (codes "Interval") ≡ some []
unfolding read_config_value registry_delete stricmp_eq
emulated_deletion = refl
