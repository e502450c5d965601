-- ===== src/Config/Registry/Deletion.antt =====
-- src/AutoConfig.cpp: what `DeleteConfigValue` leaves of the settings.
use libappupdater.CLib.{stricmp_eq}
use libappupdater.Config.Registry.{
  Hive, current_user, local_machine, success, file_not_found, reg_sz, RegistryApi, Outcome,
  read_config_value, delete_key, registry_delete_hive, registry_delete,
}
use libappupdater.Config.Registry.Laws.{
  Works, same_hive, reading, reading_both, text_of, read_config_value-text_of,
}
use libappupdater.Prelude.{
  not, ℕ, Bytes, Bool, true, false, ◌&&◌, [], ◌∷◌, Option, none, some, if◌then◌else◌, ◌≡◌, refl,
  sym, ap, ap₂, ◌∙◌, ◌⊎◌, inl, inr, subst, arith,
}

-- A value that reads as the empty text.
abbrev IsBlank : Option (ℕ × Bytes) → Type 0
IsBlank o = (o ≡ none) ⊎ (o ≡ some (reg_sz, 0 ∷ []))

module _ (api : RegistryApi) (path : Bytes) (w : Works api path) where
  open api use {State, open_key}
  open w use {values}

  delete_key-works :
      (available : Bool) (s : State) (h : Hive) (name : Bytes)
      → ((delete_key api path available s h name).0 ≡ success)
        ⊎ ((delete_key api path available s h name).0 ≡ file_not_found)
  delete_key-works true s h name = w.deleted s h name
  delete_key-works false s h name = inl (w.stored s h name (0 ∷ []))

  -- What deleting in one hive does: nothing where the key is missing.
  record Deleted (available : Bool) (s : State) (h : Hive) (name : Bytes) (o : Outcome State)
      : Type 0 where
    found : Bool
    result_found : Outcome.result o ≡ some found
    after_found :
        Outcome.after o ≡ (if found then (delete_key api path available s h name).1 else s)
    missing : found ≡ false → (other : Bytes) → values s h other ≡ none

  registry_delete_hive-Deleted :
      (available : Bool) (s : State) (h : Hive) (name : Bytes)
      → Deleted available s h name (registry_delete_hive api path available s h name)
  unfolding registry_delete_hive
  registry_delete_hive-Deleted available s h name = elim (w.opened s h) [
    | inl e ↦ elim (delete_key-works available s h name) [
      | inl d ↦ record {
        found = true;
        result_found = rw (registry_delete_hive, e, d);
        after_found = rw (registry_delete_hive, e, d);
        missing = λ n other. ground (arith, n);
      }
      | inr d ↦ record {
        found = true;
        result_found = rw (registry_delete_hive, e, d);
        after_found = rw (registry_delete_hive, e, d);
        missing = λ n other. ground (arith, n);
      }
    ]
    | inr (e, none_there) ↦ record {
      found = false;
      result_found = rw (registry_delete_hive, e);
      after_found = rw (registry_delete_hive, e);
      missing = λ n. none_there;
    }
  ]

  module _ (available : Bool) (s : State) (name : Bytes) where
    -- The state between the hives, and at the end.
    user_deleted : State
    user_deleted = Outcome.after (registry_delete_hive api path available s current_user name)

    machine_deleted : State
    unfolding user_deleted
    machine_deleted =
        Outcome.after (registry_delete_hive api path available user_deleted local_machine name)

    registry_delete_after :
        Outcome.after (registry_delete api path available s name) ≡ machine_deleted
    unfolding registry_delete machine_deleted user_deleted
    registry_delete_after =
        let u = registry_delete_hive-Deleted available s current_user name in
        let m = registry_delete_hive-Deleted available user_deleted local_machine name in
        rw (registry_delete, u.result_found, m.result_found) refl

  -- With `RegDeleteKeyExA`, no value changes.
  values-delete_hive :
      (s : State) (h k : Hive) (name other : Bytes)
      → values (Outcome.after (registry_delete_hive api path true s h name)) k other
        ≡ values s k other
  values-delete_hive s h k name other =
      let d = registry_delete_hive-Deleted true s h name in
      ap (λ t. values t k other) d.after_found ∙ go d.found
    where
      go :
          (b : Bool)
          → values (if b then (delete_key api path true s h name).1 else s) k other
            ≡ values s k other
      go true = w.values-deleted s h k name other
      go false = refl

  values-machine_deleted :
      (s : State) (k : Hive) (name other : Bytes)
      → values (machine_deleted true s name) k other ≡ values s k other
  unfolding machine_deleted user_deleted
  values-machine_deleted s k name other =
      values-delete_hive (user_deleted true s name) local_machine k name other
      ∙ values-delete_hive s current_user k name other

  left_alone :
      (s : State) (name other : Bytes)
      → read_config_value api path (Outcome.after (registry_delete api path true s name)) other
        ≡ read_config_value api path s other
  left_alone s name other =
      ap (λ t. read_config_value api path t other) (registry_delete_after true s name)
      ∙ read_config_value-text_of api path w (machine_deleted true s name) other
      ∙ ap₂ (λ o p. text_of (reading_both (reading o) (reading p)))
          (values-machine_deleted s current_user name other)
          (values-machine_deleted s local_machine name other)
      ∙ sym (read_config_value-text_of api path w s other)

  -- With the emulation, the name is cleared in the hive, and the other values stay.
  cleared-other :
      (s : State) (h k : Hive) (name other : Bytes)
      → (same_hive h k && stricmp_eq name other) ≡ false
      → values (Outcome.after (registry_delete_hive api path false s h name)) k other
        ≡ values s k other
  cleared-other s h k name other differ =
      let d = registry_delete_hive-Deleted false s h name in
      ap (λ t. values t k other) d.after_found ∙ go d.found
    where
      go :
          (b : Bool)
          → values (if b then (delete_key api path false s h name).1 else s) k other
            ≡ values s k other
      go true =
          w.values-stored s h k name other (0 ∷ [])
          ∙ ap (λ b. if b then some (reg_sz, 0 ∷ []) else values s k other) differ
      go false = refl

  cleared-IsBlank :
      (s : State) (h : Hive) (name other : Bytes)
      → (same_hive h h && stricmp_eq name other) ≡ true
      → IsBlank (values (Outcome.after (registry_delete_hive api path false s h name)) h other)
  cleared-IsBlank s h name other same =
      let d = registry_delete_hive-Deleted false s h name in
      subst (λ t. IsBlank (values t h other)) (sym d.after_found) (go d.found d.missing)
    where
      go :
          (b : Bool)
          → (b ≡ false → (m : Bytes) → values s h m ≡ none)
          → IsBlank (values (if b then (delete_key api path false s h name).1 else s) h other)
      go true missing = inr (
          w.values-stored s h h name other (0 ∷ [])
          ∙ ap (λ b. if b then some (reg_sz, 0 ∷ []) else values s h other) same)
      go false missing = inl (missing refl other)

  blank_text :
      (o p : Option (ℕ × Bytes))
      → IsBlank o
      → IsBlank p
      → text_of (reading_both (reading o) (reading p)) ≡ some []
  blank_text o p h k = elim h [
    | inl e ↦ elim k [ inl f ↦ rw (e, f) refl | inr f ↦ rw (e, f) refl ]
    | inr e ↦ rw e refl
  ]

  read_emulated :
      (s : State) (name other : Bytes)
      → read_config_value api path (Outcome.after (registry_delete api path false s name)) other
        ≡ (if stricmp_eq name other then some [] else read_config_value api path s other)
  unfolding machine_deleted user_deleted
  read_emulated s name other =
      ap (λ t. read_config_value api path t other) (registry_delete_after false s name)
      ∙ read_config_value-text_of api path w (machine_deleted false s name) other
      ∙ go (stricmp_eq name other) refl
    where
      u : State
      u = user_deleted false s name

      go :
          (b : Bool)
          → stricmp_eq name other ≡ b
          → text_of (
              reading_both
                (reading (values (machine_deleted false s name) current_user other))
                (reading (values (machine_deleted false s name) local_machine other)))
            ≡ (if b then some [] else read_config_value api path s other)
      go true e =
          blank_text (values (machine_deleted false s name) current_user other)
            (values (machine_deleted false s name) local_machine other)
            (subst IsBlank (sym (cleared-other u local_machine current_user name other refl))
              (cleared-IsBlank s current_user name other e))
            (cleared-IsBlank u local_machine name other e)
      go false e =
          ap₂ (λ o p. text_of (reading_both (reading o) (reading p)))
            (cleared-other u local_machine current_user name other refl
              ∙ cleared-other s current_user current_user name other e)
            (cleared-other u local_machine local_machine name other e
              ∙ cleared-other s current_user local_machine name other refl)
          ∙ sym (read_config_value-text_of api path w s other)

  -- Where `RegDeleteKeyExA` is emulated, `DeleteConfigValue` has the setting read as the empty
  -- text, and the others as before; where it is available, it changes no setting: each reads as it
  -- did.
  pub read_config_value-registry_delete :
      (available : Bool) (s : State) (name other : Bytes)
      → read_config_value api path (Outcome.after (registry_delete api path available s name)) other
        ≡ (if not available && stricmp_eq name other
            then some []
            else read_config_value api path s other)
  read_config_value-registry_delete true s name other = left_alone s name other
  read_config_value-registry_delete false s name other = read_emulated s name other
