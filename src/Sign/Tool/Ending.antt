-- ===== src/Sign/Tool/Ending.antt =====
-- sign/signtoolshim.cpp: how the signing tool ends, and what it signs.
use libappupdater.CLib.{stricmp_eq}
use libappupdater.Prelude.{
  ℕ, zero, suc, ◌-◌, ◌≤◌, ◌<◌, Bytes, Bool, true, false, not, ◌&&◌, ◌||◌, List, [], ◌∷◌, ◌++◌,
  Option, none, some, ◌≡◌, ◌≢◌, ◌⊎◌, inl, inr, refl, sym, ap, arith, codes, take, drop, length, ltb,
  ◌==◌, is_empty, Bool-cases, str_eq_iff, if◌then◌else◌,
}
use libappupdater.Sign.{SignKeyPair, Signer, Clock, sign_manifest, sign_manifest_ed}
use libappupdater.Sign.Tool.{
  SignToolArgs, ToolSystem, Settings, Exit, usage, failure, signed, apply_options, is_installer,
  derive_version, text_of, excluded, named_twice, start, letters, defaults, generate, with_input,
  with_operands, sign_tool,
}
use libappupdater.Updater.Verify.{Crypto}
use libappupdater.Util.Getopt.{Item}
use libappupdater.Util.Getopt.CommandLine.{Reads, left_of}
use libappupdater.Util.Getopt.Reading.{getopt_loop-Reads}

take-drop : (n : ℕ) (s : Bytes) → take n s ++ drop n s ≡ s
take-drop zero s = refl
take-drop (suc n) [] = refl
take-drop (suc n) (c ∷ s) = ap (λ t. c ∷ t) (take-drop n s)

length-take : (n : ℕ) (s : Bytes) → n ≤ length s → length (take n s) ≡ n
length-take zero s h = refl
length-take (suc n) [] h = absurd (omega arith)
length-take (suc n) (c ∷ s) h = ap suc (length-take n s (omega arith))

-- The name of an installer.
pub record IsInstaller (input : Bytes) : Type 0 where
  pub stem : Bytes
  pub extension : Bytes
  pub parts : stem ++ extension ≡ input
  pub named : 0 < length stem
  pub known :
      (stricmp_eq extension (codes ".exe") ≡ true) ⊎ (stricmp_eq extension (codes ".msi") ≡ true)

is_installer-IsInstaller : (input : Bytes) → is_installer input ≡ true → IsInstaller input
unfolding is_installer
is_installer-IsInstaller input h =
    let n = length input - 4 in
    let (long, known) =
      tests (ltb (length input) 5) (stricmp_eq (drop n input) (codes ".exe"))
        (stricmp_eq (drop n input) (codes ".msi")) h in
    record {
      stem = take n input;
      extension = drop n input;
      parts = take-drop n input;
      named = rw (length-take n input (omega arith)) (ground (arith, long));
      known = known;
    }
  where
    tests : (a b d : Bool) → (not a && (b || d)) ≡ true → (a ≡ false) × ((b ≡ true) ⊎ (d ≡ true))
    tests a b d e = ground (arith, e)

-- The pair of keys and the version that the options name.
abbrev pub IsKeyed : ToolSystem → Option Bytes → ℕ → Option SignKeyPair → ℕ → Type 0
IsKeyed sys none key_version keypair version = (keypair ≡ none) × (version ≡ 0)
IsKeyed sys (some pem) key_version keypair version =
    (keypair ≡ sys.load_pem pem) × (keypair ≢ none) × (version ≡ key_version) × (version ≢ 0)

module _ (c : Crypto) (signer : Signer c) (clock : Clock) (sys : ToolSystem) where
  -- The signing that the settings ask for.
  pub record Signs (url : Bytes) (pem : Option Bytes) (key_version : ℕ) (input version : Bytes)
      (e : Exit) : Type 0 where
    pub keypair : Option SignKeyPair
    pub keyversion : ℕ
    pub signs :
        e
        ≡ signed
            (sign_manifest_ed c signer clock sys.open_file input version url keypair keyversion)
    pub keyed : IsKeyed sys pem key_version keypair keyversion

  -- What the command line says.
  pub record IsRun (args : SignToolArgs) (argv : List Bytes) (e : Exit) : Type 0 where
    pub items : List Item
    pub settings : Settings
    pub input : Bytes
    pub outputs : List Bytes
    pub reads : Reads (letters args) [] (drop 1 argv) items (input ∷ outputs)
    pub set : apply_options args items (defaults args) ≡ some settings
    pub installer : IsInstaller input
    pub others : (outputs ≡ []) ⊎ ((output : Bytes) × (outputs ≡ output ∷ []) × (output ≢ input))
    pub address : text_of settings.hosturl ≢ []
    pub version : derive_version sys settings input ≢ []
    pub signs :
        Signs
          (text_of settings.hosturl)
          settings.private_pem
          settings.key_version
          input
          (derive_version sys settings input)
          e

  keyless : Option Bytes → ℕ → Bool
  keyless p n = elim p [ none ↦ false | some pem ↦ n == 0 ]

  generate-Signs :
      (o : Settings) (input version : Bytes)
      → keyless o.private_pem o.key_version ≡ false
      → (generate c signer clock sys o input version ≡ failure)
        ⊎ Signs
            (text_of o.hosturl)
            o.private_pem
            o.key_version
            input
            version
            (generate c signer clock sys o input version)
  unfolding generate keyless sign_manifest
  generate-Signs o input version h = go o.private_pem h
    where
      url : Bytes
      url = text_of o.hosturl

      with_key : Option SignKeyPair → Exit
      with_key k = elim k [
        | none ↦ failure
        | some pair ↦ signed (
            sign_manifest_ed c signer clock sys.open_file input version url (some pair)
              o.key_version)
      ]

      with_pem : Option Bytes → Exit
      with_pem p = elim p [
        | none ↦ signed (sign_manifest c signer clock sys.open_file input version url)
        | some pem ↦ if not (sys.access pem) then failure else with_key (sys.load_pem pem)
      ]

      read :
          (pem : Bytes) (k : Option SignKeyPair)
          → sys.load_pem pem ≡ k
          → o.key_version ≢ 0
          → (with_key k ≡ failure) ⊎ Signs url (some pem) o.key_version input version (with_key k)
      read pem none e n = inl refl
      read pem (some k) e n = inr record {
        keypair = some k;
        keyversion = o.key_version;
        signs = refl;
        keyed = (sym e, λ q. ground (arith, q), refl, n);
      }

      go :
          (p : Option Bytes)
          → keyless p o.key_version ≡ false
          → (with_pem p ≡ failure) ⊎ Signs url p o.key_version input version (with_pem p)
      go none e = inr record { keypair = none; keyversion = 0; signs = refl; keyed = (refl, refl) }
      go (some pem) e = elim (Bool-cases (sys.access pem)) [
        | inl there ↦ rw there (read pem (sys.load_pem pem) refl (λ z. ground (arith, e, z)))
        | inr missing ↦ inl (rw missing)
      ]

  -- What is known of an input that is signed.
  record Chosen (o : Settings) (input : Bytes) (outputs : List Bytes) (e : Exit) : Type 0 where
    installer : IsInstaller input
    others : (outputs ≡ []) ⊎ ((output : Bytes) × (outputs ≡ output ∷ []) × (output ≢ input))
    address : text_of o.hosturl ≢ []
    version : derive_version sys o input ≢ []
    signs :
        Signs (text_of o.hosturl) o.private_pem o.key_version input (derive_version sys o input) e

  or_false : (a b : Bool) → (a || b) ≡ false → (a ≡ false) × (b ≡ false)
  or_false a b h = ground (arith, h)

  nonempty : (s : Bytes) → is_empty s ≡ false → s ≢ []
  nonempty s h e = ground (arith, h, e)

  one_other :
      (input : Bytes) (outputs : List Bytes)
      → ltb 1 (length outputs) ≡ false
      → named_twice input outputs ≡ false
      → (outputs ≡ []) ⊎ ((output : Bytes) × (outputs ≡ output ∷ []) × (output ≢ input))
  one_other input [] few other = inl refl
  one_other input (output ∷ []) few other =
      inr (output, refl, λ e. ground (arith, other, (str_eq_iff input output).1 (sym e)))
  one_other input (a ∷ b ∷ rest) few other = absurd (ground (arith, few))

  abbrev Ends : Settings → Bytes → List Bytes → Exit → Type 0
  Ends o input outputs e = (e ≡ usage) ⊎ (e ≡ failure) ⊎ Chosen o input outputs e

  with_input-Ends :
      (o : Settings) (input : Bytes) (outputs : List Bytes)
      → Ends o input outputs (with_input c signer clock sys o input outputs)
  unfolding with_input keyless
  with_input-Ends o input outputs =
      go (ltb 1 (length outputs) || excluded o)
        (not (is_installer input) || named_twice input outputs)
        (is_empty (derive_version sys o input) || keyless o.private_pem o.key_version) refl refl
        refl
    where
      generated : Exit
      generated = generate c signer clock sys o input (derive_version sys o input)

      go :
          (a b d : Bool)
          → (ltb 1 (length outputs) || excluded o) ≡ a
          → (not (is_installer input) || named_twice input outputs) ≡ b
          → (is_empty (derive_version sys o input) || keyless o.private_pem o.key_version) ≡ d
          → Ends o input outputs
              (if a then usage else if b then usage else if d then usage else generated)
      go true b d p q r = inl refl
      go false true d p q r = inl refl
      go false false true p q r = inl refl
      go false false false p q r =
          let (few, kept) = or_false (ltb 1 (length outputs)) (excluded o) p in
          let (right, other) = or_false (not (is_installer input)) (named_twice input outputs) q in
          let (versioned, keyed) =
            or_false (is_empty (derive_version sys o input)) (keyless o.private_pem o.key_version)
              r in
          elim (generate-Signs o input (derive_version sys o input) keyed) [
            | inl e ↦ inr (inl e)
            | inr s ↦ inr (
                inr record {
                  installer = is_installer-IsInstaller input (ground (arith, right));
                  others = one_other input outputs few other;
                  address =
                      nonempty (text_of o.hosturl)
                        (or_false _ (is_empty (text_of o.hosturl)) kept).1;
                  version = nonempty (derive_version sys o input) versioned;
                  signs = s;
                })
          ]

  -- The signing tool ends: after the usage is shown, after a key cannot be read, or with a signing.
  -- That is of the file that the operands of the command line begin with, which has the name of an
  -- installer, under an address and a version that are not empty, and with the pair of keys and the
  -- version of the option, not 0, where a key is given. There is at most one further operand,
  -- another name.
  pub sign_tool-IsRun :
      (args : SignToolArgs) (argv : List Bytes)
      → (sign_tool c signer clock sys args argv ≡ usage)
        ⊎ (sign_tool c signer clock sys args argv ≡ failure)
        ⊎ IsRun args argv (sign_tool c signer clock sys args argv)
  unfolding sign_tool
  sign_tool-IsRun args argv =
      let (r, e, reads) =
        getopt_loop-Reads (suc (left_of argv start)) argv (letters args) start (omega arith) in
      rw (e, sign_tool)
        (options r.0 (drop r.1.optind argv) reads (apply_options args r.0 (defaults args)) refl)
    where
      with_settings : List Bytes → Option Settings → Exit
      with_settings ops o = elim o [
        | none ↦ usage
        | some s ↦ with_operands c signer clock sys s ops
      ]

      operands :
          (items : List Item) (ops : List Bytes) (s : Settings)
          → Reads (letters args) [] (drop 1 argv) items ops
          → apply_options args items (defaults args) ≡ some s
          → (with_settings ops (some s) ≡ usage)
            ⊎ (with_settings ops (some s) ≡ failure)
            ⊎ IsRun args argv (with_settings ops (some s))
      operands items [] s reads set = inl refl
      operands items (input ∷ outputs) s reads set = elim (with_input-Ends s input outputs) [
        | inl e ↦ inl e
        | inr (inl e) ↦ inr (inl e)
        | inr (inr k) ↦ inr (
            inr record {
              items = items;
              settings = s;
              input = input;
              outputs = outputs;
              reads = reads;
              set = set;
              installer = k.installer;
              others = k.others;
              address = k.address;
              version = k.version;
              signs = k.signs;
            })
      ]

      options :
          (items : List Item) (ops : List Bytes)
          → Reads (letters args) [] (drop 1 argv) items ops
          → (o : Option Settings) → apply_options args items (defaults args) ≡ o
          → (with_settings ops o ≡ usage)
            ⊎ (with_settings ops o ≡ failure)
            ⊎ IsRun args argv (with_settings ops o)
      options items ops reads none set = inl refl
      options items ops reads (some s) set = operands items ops s reads set
