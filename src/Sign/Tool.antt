-- ===== src/Sign/Tool.antt =====
-- sign/signtoolshim.cpp: `SignToolShim` and `ExeVersion`. The arguments are those of the program's
-- `main`, with its name; what the system tells of files and keys is a parameter, and the messages
-- are left out.
pub mod Ending
use libappupdater.CLib.{print_unsigned, stricmp_eq, strtoul_auto}
use libappupdater.Prelude.{
  ℕ, suc, ◌-◌, ◌/◌, ◌%◌, ◌^◌, Bytes, Bool, true, false, not, ◌&&◌, ◌||◌, List, [], ◌∷◌, ◌++◌,
  Option, none, some, codes, drop, length, ltb, ◌==◌, is_empty, str_eq, if◌then◌else◌,
}
use libappupdater.Sign.{
  SignKeyPair, Signer, Source, Clock, Outcome, sign_manifest, sign_manifest_ed,
}
use libappupdater.Updater.Verify.{Crypto}
use libappupdater.Util.Getopt.{Scanner, Item, option, getopt_loop}
use libappupdater.Util.Getopt.CommandLine.{left_of}

-- `SignToolArgs`, but for the texts of messages.
pub record SignToolArgs : Type 0 where
  pub default_version : Option Bytes
  pub default_hosturl : Option Bytes
  pub hosturlalt : Option Bytes

-- The system: `dwProductVersionMS` and `dwProductVersionLS` of a file, the files of keys, and
-- others.
pub record ToolSystem : Type 0 where
  pub product_version : Bytes → Option (ℕ × ℕ)
  pub access : Bytes → Bool
  pub load_pem : Bytes → Option SignKeyPair
  pub open_file : Bytes → Option Source

-- `ExeVersion`
unfoldable pub exe_version : ToolSystem → Bytes → Option Bytes
unfolding print_unsigned
exe_version sys executable = elim (sys.product_version executable) [
  | none ↦ none
  | some (ms, ls) ↦
      if ms == 0 || ls == 0
      then none
      else some (
          print_unsigned (ms / 2 ^ 16 % 256)
          ++ codes "."
          ++ print_unsigned (ms % 256)
          ++ codes "."
          ++ print_unsigned (ls / 2 ^ 16 % 256)
          ++ codes "."
          ++ print_unsigned (ls % 256))
]

-- What the options set.
pub record Settings : Type 0 where
  pub version : Option Bytes
  pub hosturl : Option Bytes
  pub private_pem : Option Bytes
  pub exename : Option Bytes
  pub key_version : ℕ

-- The text of a pointer that may be NULL.
abbrev pub text_of : Option Bytes → Bytes
text_of none = []
text_of (some s) = s

-- The cases of the switch; none is `Usage`, which ends the program.
abbrev pub apply_option : SignToolArgs → Item → Settings → Option Settings
apply_option args (option c, arg) o =
    if c == b'H'
    then some (record o { hosturl = arg })
    else if c == b'A'
    then some (record o { hosturl = args.hosturlalt })
    else if c == b'K'
    then some (record o { private_pem = arg })
    else if c == b'x'
    then some (record o { key_version = strtoul_auto (text_of arg) })
    else if c == b'V'
    then some (record o { version = arg })
    else if c == b'E'
    then some (record o { exename = arg })
    else none
apply_option args _ o = none

unfoldable pub apply_options : SignToolArgs → List Item → Settings → Option Settings
unfolding strtoul_auto
apply_options args [] o = some o
apply_options args (i ∷ is) o = elim (apply_option args i o) [
  | none ↦ none
  | some o' ↦ apply_options args is o'
]

-- A file name of five characters or more with one of the two extensions.
unfoldable pub is_installer : Bytes → Bool
unfolding stricmp_eq
is_installer s =
    let extension = drop (length s - 4) s in
    not (ltb (length s) 5)
    && (stricmp_eq extension (codes ".exe") || stricmp_eq extension (codes ".msi"))

-- The version: of the executable that is named, or as it was, and else of the installer.
unfoldable pub derive_version : ToolSystem → Settings → Bytes → Bytes
unfolding exe_version
derive_version sys o input =
    let named : Bytes = elim o.exename [
      | none ↦ text_of o.version
      | some exe ↦ elim (exe_version sys exe) [ none ↦ text_of o.version | some v ↦ v ]
    ] in
    if is_empty named then text_of (exe_version sys input) else named

-- The end of the program: 3 after `Usage`, 1 after a key that cannot be read, or what the signing
-- did. The loop over the options ends, which the last case is for.
pub data Exit : Type 0 where
  usage failure endless : Exit
  signed : Outcome → Exit

-- `version && exename`, and no address.
abbrev pub excluded : Settings → Bool
excluded o =
    elim o.exename [ none ↦ false | some e ↦ elim o.version [ none ↦ false | some v ↦ true ] ]
    || is_empty (text_of o.hosturl)

abbrev pub named_twice : Bytes → List Bytes → Bool
named_twice input [] = false
named_twice input (output ∷ _) = str_eq input output

abbrev pub start : Scanner
start = record { optind = 1; place = []; optarg = none; optopt = 0 }

-- `options`
abbrev pub letters : SignToolArgs → Bytes
letters args = elim args.hosturlalt [ none ↦ codes "H:K:x:V:E:h" | some alt ↦ codes "H:AK:x:V:E:h" ]

abbrev pub defaults : SignToolArgs → Settings
defaults args = record {
  version = args.default_version;
  hosturl = args.default_hosturl;
  private_pem = none;
  exename = none;
  key_version = 1;
}

-- What the tool does on an input, with the output names behind it.
module _ (c : Crypto) (signer : Signer c) (clock : Clock) (sys : ToolSystem) where
  unfoldable pub generate : Settings → Bytes → Bytes → Exit
  unfolding sign_manifest sign_manifest_ed
  generate o input version = elim o.private_pem [
    | none ↦ signed (sign_manifest c signer clock sys.open_file input version (text_of o.hosturl))
    | some pem ↦ if not (sys.access pem) then failure else elim (sys.load_pem pem) [
      | none ↦ failure
      | some k ↦ signed (
          sign_manifest_ed c signer clock sys.open_file input version (text_of o.hosturl) (some k)
            o.key_version)
    ]
  ]

  unfoldable pub with_input : Settings → Bytes → List Bytes → Exit
  unfolding generate is_installer derive_version str_eq
  with_input o input outputs =
      let version = derive_version sys o input in
      let keyless : Bool = elim o.private_pem [ none ↦ false | some pem ↦ o.key_version == 0 ] in
      if ltb 1 (length outputs) || excluded o
      then usage
      else if not (is_installer input) || named_twice input outputs
      then usage
      else if is_empty version || keyless
      then usage
      else generate o input version

  abbrev pub with_operands : Settings → List Bytes → Exit
  with_operands o [] = usage
  with_operands o (input ∷ outputs) = with_input o input outputs

  -- `SignToolShim`
  unfoldable pub sign_tool : SignToolArgs → List Bytes → Exit
  unfolding with_input apply_options getopt_loop
  sign_tool args argv = elim (getopt_loop (suc (left_of argv start)) argv (letters args) start) [
    | none ↦ endless
    | some (items, s) ↦ elim (apply_options args items (defaults args)) [
      | none ↦ usage
      | some o ↦ with_operands o (drop s.optind argv)
    ]
  ]
