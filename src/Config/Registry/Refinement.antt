-- ===== src/Config/Registry/Refinement.antt =====
-- src/AutoConfig.cpp: the registry implements the interface of the stored settings.
use libappupdater.CLib.{c_string, stricmp_eq}
use libappupdater.Config.Registry.{
  current_user, local_machine, reg_sz, RegistryApi, Outcome, Reading, registry_write,
  read_config_value, registry_delete,
}
use libappupdater.Config.Registry.Laws.{
  Works, reading, reading_both, text_of, read_config_value-text_of,
}
use libappupdater.Config.Store.{ConfigStore, Storable, longest_value}
use libappupdater.Prelude.{
  ◌+◌, Bytes, Bool, true, false, [], ◌∷◌, ◌++◌, Option, none, some, if◌then◌else◌, ◌≡◌, refl, sym,
  ap, ap₂, ◌∙◌, arith, leb, length, length-append,
}

c_string-append_nul : (s : Bytes) → c_string (s ++ (0 ∷ [])) ≡ c_string s
c_string-append_nul [] = refl
c_string-append_nul (c ∷ s) = ground (arith, c_string-append_nul s)

module _ (api : RegistryApi) (path : Bytes) (w : Works api path) where
  open api use {State, create_key, set_value}
  open w use {values}

  registry_write_done :
      (s : State) (name text : Bytes)
      → registry_write api path s name text ≡ record {
        after =
            (set_value (create_key s path).1 current_user path name (c_string text ++ (0 ∷ []))).1;
        result = some true;
      }
  unfolding registry_write
  registry_write_done s name text = rw (
    registry_write,
    w.created s,
    w.stored (create_key s path).1 current_user name (c_string text ++ (0 ∷ [])),
  )

  reading_written :
      (text : Bytes) (r : Reading)
      → Storable text
      → text_of (reading_both (reading (some (reg_sz, c_string text ++ (0 ∷ [])))) r) ≡ some text
  reading_written text r (short, plain) =
      let fits : leb (length (c_string text ++ (0 ∷ []))) (longest_value + 1) ≡ true =
        ground (arith, short, ap length plain, length-append (c_string text) (0 ∷ [])) in
      rw fits (ap (λ t. some t) (c_string-append_nul (c_string text) ∙ ap c_string plain ∙ plain))

  -- What is written is read back, and each other setting reads as before; the write does not throw.
  pub read_config_value-registry_write :
      (s : State) (name other text : Bytes)
      → Storable text
      → (Outcome.result (registry_write api path s name text) ≡ some true)
        × (read_config_value api path (Outcome.after (registry_write api path s name text)) other
            ≡ (if stricmp_eq name other then some text else read_config_value api path s other))
  read_config_value-registry_write s name other text h = (
    ap Outcome.result (registry_write_done s name text),
    ap (λ o. read_config_value api path (Outcome.after o) other) (registry_write_done s name text)
        ∙ read_config_value-text_of api path w s'' other
        ∙ ap₂ (λ o p. text_of (reading_both (reading o) (reading p)))
            (w.values-stored s' current_user current_user name other t
              ∙ ap (λ v. if stricmp_eq name other then some (reg_sz, t) else v)
                  (w.values-created s current_user other))
            (w.values-stored s' current_user local_machine name other t
              ∙ w.values-created s local_machine other)
        ∙ go (stricmp_eq name other),
  )
    where
      t : Bytes
      t = c_string text ++ (0 ∷ [])

      s' : State
      s' = (create_key s path).1

      s'' : State
      s'' = (set_value s' current_user path name t).1

      go :
          (b : Bool)
          → text_of (
              reading_both
                (reading (
                  if b
                  then some (reg_sz, c_string text ++ (0 ∷ []))
                  else values s current_user other))
                (reading (values s local_machine other)))
            ≡ (if b then some text else read_config_value api path s other)
      go true = reading_written text (reading (values s local_machine other)) h
      go false = sym (read_config_value-text_of api path w s other)

  abbrev text_or_empty : Option Bytes → Bytes
  text_or_empty none = []
  text_or_empty (some text) = text

  pub text_or_empty_join :
      (b : Bool) (text : Bytes) (o : Option Bytes)
      → text_or_empty (if b then some text else o) ≡ (if b then text else text_or_empty o)
  text_or_empty_join true text o = refl
  text_or_empty_join false text o = refl

  -- The stored settings, kept in the registry.
  abbrev pub registry_store : ConfigStore
  registry_store = record {
    State = State;
    read = λ s name. text_or_empty (read_config_value api path s name);
    write = λ s name text. Outcome.after (registry_write api path s name text);
    delete_value = λ s name. Outcome.after (registry_delete api path true s name);
    read_write = λ s name other text h.
        ap text_or_empty ((read_config_value-registry_write s name other text h).1)
        ∙ text_or_empty_join (stricmp_eq name other) text (read_config_value api path s other);
  }
