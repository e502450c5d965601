-- ===== src/Config/Session/Keyed.antt =====
-- `HasEdDSAPub` in src/AutoConfig.cpp: a program with a key in its resources is never without keys.
use libappupdater.CLib.{strtoul_auto, c_string}
use libappupdater.Config.Keys.{
  Ed25519Key, KeyTable, KeyResult, ok, throws, error_decoding, set_ed25519_key, set_public_key,
  find_slot, public_length,
}
use libappupdater.Config.Keys.Table.{IsKeyTable, KeyStored, set_ed25519_key-KeyStored, used}
use libappupdater.Config.Session.{
  Resources, Config, get_private_value, has_keys, take_key, has_eddsa_pub,
}
use libappupdater.Prelude.{
  ℕ, ◌<◌, Bytes, Bool, true, false, not, ◌&&◌, List, [], ◌∷◌, Option, none, some, ◌≡◌, ◌≢◌, refl,
  sym, subst, inl, inr, Bool-cases, arith, codes, ◌==◌, is_empty, length, if◌then◌else◌,
}
use libappupdater.Util.Base64.{decode_to_string}

used_found :
    (v : ℕ) (key : Bytes) (ks : List Ed25519Key) → v ≢ 0 → find_slot v ks ≡ some key → 0 < used ks
unfolding find_slot
used_found v key [] hv h = ground (arith, h)
used_found v key (k ∷ ks) hv h = elim (Bool-cases (k.version == 0)) [
  | inl free ↦ ground (arith, used_found v key ks hv)
  | inr in_use ↦ ground arith
]

-- A table with a key.
abbrev Keyed : KeyResult KeyTable → Type 0
Keyed (ok u) = IsKeyTable u × (0 < u.public_keys)
Keyed (throws e) = Unit {0}

KeyStored-Keyed :
    (key : Bytes) (v : ℕ) (t : KeyTable) (r : KeyResult KeyTable)
    → v ≢ 0
    → KeyStored key v t r
    → Keyed r
KeyStored-Keyed key v t (throws e) hv h = tt
KeyStored-Keyed key v t (ok u) hv (h, found) =
    let stored : find_slot v u.ed25519_keys ≡ some key = ground (arith, found v hv) in
    (h, omega (arith, h.counted, used_found v key u.ed25519_keys hv stored))

set_ed25519_key-Keyed :
    (key : Bytes) (v : ℕ) (t : KeyTable) → IsKeyTable t → Keyed (set_ed25519_key key v t)
set_ed25519_key-Keyed key v t h = elim (Bool-cases (v == 0)) [
  | inl zero_version ↦ unfold set_ed25519_key in rw zero_version tt
  | inr version ↦ elim (Bool-cases (length key == public_length)) [
    | inr short ↦ unfold set_ed25519_key in rw (version, short) tt
    | inl right ↦
        let hv : v ≢ 0 = λ e. ground arith in
        KeyStored-Keyed key v t (set_ed25519_key key v t) hv
          (set_ed25519_key-KeyStored key v t h hv (ground arith))
  ]
]

unless-Keyed :
    (b : Bool) (r : KeyResult KeyTable) → Keyed r → Keyed (if b then throws error_decoding else r)
unless-Keyed true r h = tt
unless-Keyed false r h = h

set_public_key-Keyed :
    (text : Bytes) (v : ℕ) (t : KeyTable) → IsKeyTable t → Keyed (set_public_key text v t)
unfolding set_public_key
set_public_key-Keyed text v t h =
    unless-Keyed (not (length (decode_to_string text) == public_length))
      (set_ed25519_key (decode_to_string text) v t)
      (set_ed25519_key-Keyed (decode_to_string text) v t h)

-- The key of the resources, or an empty text.
abbrev pub key_resource : Resources → Option Bytes
key_resource res = get_private_value res (codes "EdDSAPubKey") false

-- Where the bit is set and there are no keys, the resources have none either.
pub record IsSession (res : Resources) (c : Config) : Type 0 where
  pub table : IsKeyTable c.keys
  pub asked : c.keys_queried ≡ true → c.keys.public_keys ≡ 0 → key_resource res ≡ some []

-- What `HasEdDSAPub` promises of its answer and of the state it leaves.
abbrev pub IsAnswered : Resources → Config → Option Bool × Config → Type 0
IsAnswered res c (some b, c') =
    IsSession res c'
    × (0 < c.keys.public_keys → c' ≡ c)
    × (b ≡ not (c'.keys.public_keys == 0))
    × (b ≡ false → key_resource res ≡ some [])
    × (has_eddsa_pub res c' ≡ (some b, c'))
IsAnswered res c (none, c') = (c' ≡ c) × (c.keys.public_keys ≡ 0) × (key_resource res ≢ some [])

-- The answer of a state whose keys are there, or were asked for.
has_keys-IsAnswered :
    (res : Resources) (c c' : Config)
    → IsSession res c'
    → (0 < c.keys.public_keys → c' ≡ c)
    → (c'.keys.public_keys == 0 && not c'.keys_queried) ≡ false
    → IsAnswered res c (has_keys c')
unfolding has_eddsa_pub
has_keys-IsAnswered res c c' h same e =
    (h, same, refl, empty (c'.keys.public_keys == 0) c'.keys_queried refl refl e, rw e refl)
  where
    empty :
        (none_set queried : Bool)
        → (c'.keys.public_keys == 0) ≡ none_set
        → c'.keys_queried ≡ queried
        → (none_set && not queried) ≡ false
        → not none_set ≡ false
        → key_resource res ≡ some []
    empty true true z q _ _ = h.asked q (ground (arith, z))
    empty true false z q g _ = ground (arith, g)
    empty false b z q _ g = ground (arith, g)

take_key-IsAnswered :
    (res : Resources) (c : Config) (key : Bytes)
    → IsSession res c
    → c.keys.public_keys ≡ 0
    → key_resource res ≢ some []
    → IsAnswered res c (take_key res key c)
unfolding take_key
take_key-IsAnswered res c key h fresh given =
    elim (get_private_value res (codes "EdDSAKeyVer") true)
      as (λ o. IsAnswered res c (elim o [
        | none ↦ (none, c)
        | some version ↦ elim (set_public_key (c_string key) (strtoul_auto version) c.keys) [
          | throws e ↦ (none, c)
          | ok t ↦ has_keys (record c { keys = t; keys_queried = true })
        ]
      ])) [
        | none ↦ (refl, fresh, given)
        | some version ↦
            go (set_public_key (c_string key) (strtoul_auto version) c.keys)
              (set_public_key-Keyed (c_string key) (strtoul_auto version) c.keys h.table)
      ]
  where
    go :
        (r : KeyResult KeyTable)
        → Keyed r
        → IsAnswered res c (elim r [
          | throws e ↦ (none, c)
          | ok t ↦ has_keys (record c { keys = t; keys_queried = true })
        ])
    go (throws e) _ = (refl, fresh, given)
    go (ok t) (table, keyed) =
        has_keys-IsAnswered res c (record c { keys = t; keys_queried = true })
          (record { table = table; asked = λ _ z. absurd (omega (arith, z, keyed)) })
          (λ lt. absurd (omega (arith, lt, fresh))) (ground (arith, keyed))

has_eddsa_pub_unknown :
    (res : Resources) (c : Config)
    → (c.keys.public_keys == 0 && not c.keys_queried) ≡ true
    → has_eddsa_pub res c ≡ elim (key_resource res) [
      | none ↦ (none, c)
      | some key ↦
          if is_empty key then has_keys (record c { keys_queried = true }) else take_key res key c
    ]
unfolding has_eddsa_pub
has_eddsa_pub_unknown res c e = rw e refl

has_eddsa_pub_known :
    (res : Resources) (c : Config)
    → (c.keys.public_keys == 0 && not c.keys_queried) ≡ false
    → has_eddsa_pub res c ≡ has_keys c
unfolding has_eddsa_pub
has_eddsa_pub_known res c e = rw e refl

-- From a state whose key table is well formed, and whose resources have no key if they were asked and
-- no key is set: `HasEdDSAPub` answers whether keys are set, keeps this invariant, leaves a state with
-- keys alone, says no only if the resources have no key, and asked again gives the same answer and
-- state. Or it fails: then no key is set, the resources have one, and the state is as before.
pub has_eddsa_pub-IsAnswered :
    (res : Resources) (c : Config) → IsSession res c → IsAnswered res c (has_eddsa_pub res c)
has_eddsa_pub-IsAnswered res c h =
    elim (Bool-cases (c.keys.public_keys == 0 && not c.keys_queried)) [
      | inr known ↦
          subst (IsAnswered res c) (sym (has_eddsa_pub_known res c known))
            (has_keys-IsAnswered res c c h (λ _. refl) known)
      | inl unknown ↦
          let fresh : c.keys.public_keys ≡ 0 = ground (arith, unknown) in
          subst (IsAnswered res c) (sym (has_eddsa_pub_unknown res c unknown))
            (read fresh (key_resource res) refl)
    ]
  where
    read :
        c.keys.public_keys ≡ 0
        → (o : Option Bytes) → key_resource res ≡ o
        → IsAnswered res c (elim o [
          | none ↦ (none, c)
          | some key ↦
              if is_empty key
              then has_keys (record c { keys_queried = true })
              else take_key res key c
        ])
    read fresh none e = (refl, fresh, λ r. ground (arith, e, r))
    read fresh (some []) e =
        has_keys-IsAnswered res c (record c { keys_queried = true })
          (record { table = h.table; asked = λ _ _. e }) (λ lt. absurd (omega (arith, lt, fresh)))
          (ground arith)
    read fresh (some (k ∷ key)) e =
        take_key-IsAnswered res c (k ∷ key) h fresh (λ r. ground (arith, e, r))
