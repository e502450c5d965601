-- ===== src/Config/Registry/Laws.antt =====
-- src/AutoConfig.cpp: what the settings in the registry read as, where the calls of the registry
-- work.
use libappupdater.CLib.{c_string, stricmp_eq}
use libappupdater.Config.Registry.{
  Hive, current_user, local_machine, Status, success, file_not_found, failed, reg_sz, RegistryApi,
  Reading, value, absent, refused, query, registry_read_hive, registry_read, read_config_value,
}
use libappupdater.Config.Store.{longest_value}
use libappupdater.Prelude.{
  ℕ, ◌+◌, Bytes, Bool, true, false, ◌&&◌, [], Option, none, some, ◌==◌, if◌then◌else◌, ◌≡◌, refl,
  ap, ap₂, ◌∙◌, arith, leb, length, ◌⊎◌, inl, inr,
}

abbrev pub same_hive : Hive → Hive → Bool
same_hive current_user current_user = true
same_hive local_machine local_machine = true
same_hive _ _ = false

-- What a query answers for a value of a type, or none.
abbrev pub answer : Option (ℕ × Bytes) → ℕ → Status × ℕ × Bytes
answer none room = (file_not_found, 0, [])
answer (some (type, stored)) room =
    if leb (length stored) room then (success, type, stored) else (failed, type, [])

-- A registry that refuses nothing: the values under the key `path` are kept, by names that differ
-- in more than case, and deleting a subkey leaves the values of the key as they are.
module _ (api : RegistryApi) (path : Bytes) where
  open api use {State, create_key, open_key, set_value, query_value, delete_subkey}

  pub record Works : Type 0 where
    pub values : State → Hive → Bytes → Option (ℕ × Bytes)
    pub opened :
        (s : State) (h : Hive)
        → (open_key s h path ≡ success)
          ⊎ ((open_key s h path ≡ file_not_found) × ((name : Bytes) → values s h name ≡ none))
    pub queried :
        (s : State) (h : Hive) (name : Bytes) (room : ℕ)
        → query_value s h path name room ≡ answer (values s h name) room
    pub created : (s : State) → (create_key s path).0 ≡ success
    pub values-created :
        (s : State) (h : Hive) (name : Bytes)
        → values (create_key s path).1 h name ≡ values s h name
    pub stored :
        (s : State) (h : Hive) (name text : Bytes) → (set_value s h path name text).0 ≡ success
    pub values-stored :
        (s : State) (h k : Hive) (name other text : Bytes)
        → values (set_value s h path name text).1 k other ≡ (
            if same_hive h k && stricmp_eq name other
            then some (reg_sz, text)
            else values s k other)
    pub deleted :
        (s : State) (h : Hive) (name : Bytes)
        → ((delete_subkey s h path name).0 ≡ success)
          ⊎ ((delete_subkey s h path name).0 ≡ file_not_found)
    pub values-deleted :
        (s : State) (h k : Hive) (name other : Bytes)
        → values (delete_subkey s h path name).1 k other ≡ values s k other

-- What a value reads as.
abbrev pub reading : Option (ℕ × Bytes) → Reading
reading none = absent
reading (some (type, stored)) =
    if leb (length stored) (longest_value + 1)
    then if type == reg_sz then value stored else absent
    else refused

abbrev pub reading_both : Reading → Reading → Reading
reading_both absent r = r
reading_both r _ = r

abbrev pub text_of : Reading → Option Bytes
text_of (value text) = some (c_string text)
text_of absent = some []
text_of refused = none

module _ (api : RegistryApi) (path : Bytes) (w : Works api path) where
  open api use {State}
  open w use {values}

  query-reading :
      (s : State) (h : Hive) (name : Bytes) → query api path s h name ≡ reading (values s h name)
  unfolding query
  query-reading s h name =
      ap
        (λ (r : Status × ℕ × Bytes). elim r.0 [
          | success ↦ if r.1 == reg_sz then value r.2 else absent
          | file_not_found ↦ absent
          | failed ↦ refused
        ])
        (w.queried s h name (longest_value + 1))
      ∙ go (values s h name)
    where
      go :
          (o : Option (ℕ × Bytes))
          → ◌≡◌ {A = Reading}
              (elim (answer o (longest_value + 1)).0 [
                | success ↦
                    if (answer o (longest_value + 1)).1 == reg_sz
                    then value (answer o (longest_value + 1)).2
                    else absent
                | file_not_found ↦ absent
                | failed ↦ refused
              ])
              (reading o)
      go none = refl
      go (some (type, stored)) = ground arith

  read_hive-reading :
      (s : State) (h : Hive) (name : Bytes)
      → registry_read_hive api path s h name ≡ reading (values s h name)
  unfolding registry_read_hive
  read_hive-reading s h name = elim (w.opened s h) [
    | inl e ↦ rw (registry_read_hive, e, query-reading s h name)
    | inr (e, missing) ↦ rw (registry_read_hive, e, missing name)
  ]

  pub read_config_value-text_of :
      (s : State) (name : Bytes)
      → read_config_value api path s name
        ≡ text_of (
            reading_both
              (reading (values s current_user name))
              (reading (values s local_machine name)))
  unfolding read_config_value registry_read
  read_config_value-text_of s name =
      ap₂ (λ (r t : Reading). text_of_read (elim r [ absent ↦ t | found ↦ found ]))
        (read_hive-reading s current_user name) (read_hive-reading s local_machine name)
      ∙ go (reading (values s current_user name)) (reading (values s local_machine name))
    where
      text_of_read : Reading → Option Bytes
      text_of_read = text_of

      go :
          (r t : Reading)
          → text_of (elim r [ absent ↦ t | found ↦ found ]) ≡ text_of (reading_both r t)
      go (value v) t = refl
      go absent t = refl
      go refused t = refl
