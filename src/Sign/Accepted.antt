-- ===== src/Sign/Accepted.antt =====
-- sign/signmanifest.cpp with src/AutoManifest.cpp and src/AutoUpdater.cpp: what the tool prints,
-- read by the handlers and checked by `Verify`.
use libappupdater.CLib.{strtol_auto, to_unsigned, print_unsigned}
use libappupdater.CLib.Scanned.{strtol_auto-print_unsigned}
use libappupdater.Config.Keys.{KeyTable}
use libappupdater.Manifest.{AutoManifest}
use libappupdater.Manifest.Parser.{ParserContext, no_levels}
use libappupdater.Manifest.Parser.Handlers.{run}
use libappupdater.Manifest.Parser.Handlers.Text.{in_item_of}
use libappupdater.Prelude.{
  ℕ, ◌≤◌, ◌<◌, Bytes, Bool, true, false, List, [], ◌∷◌, ◌++◌, Option, some, map, ◌≡◌, refl, sym, ap,
  subst, ◌∙◌, arith, All, codes, length, joined, is_empty, Bool-cases, inl, inr,
}
use libappupdater.Prelude.Int.{ℤ}
use libappupdater.Sign.{
  SignKeyPair, Signer, Source, Clock, Outcome, loaded, printed, int_max, load, hash, replace_string,
  Enclosure, enclosure_of, item_text, signature, sign_loaded, sign_manifest_ed,
}
use libappupdater.Sign.Plain.{
  all_plain, all_plain-IsPlain, IsPlain, IsPlain-print_unsigned, IsPlain-replace_string,
}
use libappupdater.Sign.Signed.{
  load-bounds, hash-IsHashed, hash-IsPlain, signature-IsPlain, KnowsKey, key_check-IsSigned,
}
use libappupdater.Sign.Markup.{
  Node, markups, all_calls, IsWellFormed, item_nodes, item_nodes-IsWellFormed, markups-item_nodes,
}
use libappupdater.Sign.Reading.{with_enclosure, run-item_nodes}
use libappupdater.Updater.Verify.{Crypto, verified, verify}
use libappupdater.Updater.Verify.Accepted.{IsRead, verify-Passes}
use libappupdater.Util.Basename.{basename}
use libappupdater.Util.Tables.{IsByte}

module _ (c : Crypto) (signer : Signer c) (clock : Clock) where
  open signer use {IsPair}

  -- An enclosure for a file with those contents.
  record IsFor (filename version url s : Bytes) (keypair : Option SignKeyPair) (keyversion : ℕ)
      (e : Enclosure) : Type 0 where
    replaced : replace_string url (codes "%%") (basename filename) 1024 ≡ some e.url
    same_name : e.name ≡ basename filename
    same_version : e.version ≡ version
    same_size : e.size ≡ length s
    md5_hash : hash c false s ≡ some e.md5
    sha_hash : hash c true s ≡ some e.sha
    signed : e.dsa ≡ signature c signer keypair s
    same_key : e.keyversion ≡ keyversion

  -- The tool prints the item with such an enclosure, if the file can be hashed and the address
  -- fits.
  sign_loaded-printed :
      (filename version url s : Bytes) (keypair : Option SignKeyPair) (keyversion : ℕ)
      (sha md5 t_url : Bytes)
      → hash c true s ≡ some sha
      → hash c false s ≡ some md5
      → replace_string url (codes "%%") (basename filename) 1024 ≡ some t_url
      → (e : Enclosure) × IsFor filename version url s keypair keyversion e
        × (sign_loaded c signer clock filename version url keypair keyversion (loaded s)
            ≡ printed (item_text clock.now clock.pub_date (enclosure_of e)))
  unfolding sign_loaded
  sign_loaded-printed filename version url s keypair keyversion sha md5 t_url p q r = (
    record {
      url = t_url;
      name = basename filename;
      version = version;
      size = length s;
      md5 = md5;
      sha = sha;
      dsa = signature c signer keypair s;
      keyversion = keyversion;
    },
    record {
      replaced = r;
      same_name = refl;
      same_version = refl;
      same_size = refl;
      md5_hash = q;
      sha_hash = p;
      signed = refl;
      same_key = refl;
    },
    rw (p, q, r, sign_loaded),
  )

  module _ (filename version url : Bytes) (keypair : Option SignKeyPair) (keyversion : ℕ)
      (e : Enclosure) where
    verify-IsFor :
        (t : KeyTable) (m : AutoManifest) (image : List Bytes)
        → IsFor filename version url (joined image) keypair keyversion e
        → All (IsRead c) image
        → 0 < length (joined image)
        → length (joined image) < int_max
        → KnowsKey IsPair t keypair keyversion
        → verify c t
            (with_enclosure e m)
            (some (record { size = length (joined image); reads = map some image }))
          ≡ verified
    verify-IsFor t m image p reads some_data fits known =
        let item = with_enclosure e m in
        let small : length (joined image) ≤ 2147483647 = omega arith in
        let printed_size = ap (λ n. to_unsigned (strtol_auto (print_unsigned n))) p.same_size in
        let printed_key = ap (λ n. codes "1." ++ print_unsigned n) p.same_key in
        (verify-Passes c t item (length (joined image)) image reads).1 (record {
          nonempty = some_data;
          same_size = sym (
              printed_size
              ∙ ap to_unsigned (strtol_auto-print_unsigned (length (joined image)) some_data small)
              ∙ omega arith);
          hashed = elim (Bool-cases (is_empty e.sha)) [
            | inl none_there ↦
                rw none_there
                  (hash-IsHashed c false (joined image) e.md5 item p.md5_hash (rw none_there))
            | inr there ↦
                rw there (hash-IsHashed c true (joined image) e.sha item p.sha_hash (rw there))
          ];
          signed =
              key_check-IsSigned c signer t item (joined image) keypair keyversion known printed_key
                p.signed;
        })

    -- Every attribute is plain text.
    enclosure-IsPlain :
        (s : Bytes)
        → IsFor filename version url s keypair keyversion e
        → ((h : c.Hash) → All IsByte (c.hash_value h))
        → IsPlain url
        → IsPlain (basename filename)
        → IsPlain version
        → All (λ (a : Bytes × Bytes). IsPlain a.1) (enclosure_of e)
    unfolding all_plain
    enclosure-IsPlain s p bytes u b v =
        let key : IsPlain (codes "1." ++ print_unsigned e.keyversion) =
          (refl, (refl, IsPlain-print_unsigned e.keyversion)) in
        let dsa = subst IsPlain (sym p.signed) (signature-IsPlain c signer keypair s) in
        let sha = hash-IsPlain c true s e.sha bytes p.sha_hash in
        let md5 = hash-IsPlain c false s e.md5 bytes p.md5_hash in
        let mime = all_plain-IsPlain (codes "application/octet-stream") refl in
        (
          IsPlain-replace_string url (codes "%%") (basename filename) 1024 p.replaced u b,
          (
            all_plain-IsPlain (codes "windows") refl,
            (
              subst IsPlain (sym p.same_name) b,
              (
                subst IsPlain (sym p.same_version) v,
                (IsPlain-print_unsigned e.size, (md5, (sha, (dsa, (key, (mime, tt)))))),
              ),
            ),
          ),
        )

  module _ (pub_date_of : ℤ → Bytes) (beyond : ℕ → Bool) (pieces : Bytes → List Bytes) where
    -- The tool prints the XML of an item, whose marks stand in no text. In whatever pieces the
    -- parser delivers its texts, the handlers put it into the item that is open, and `Verify`
    -- accepts the file.
    pub record IsAccepted (outcome : Outcome) (version : Bytes) (t : KeyTable) (image : List Bytes)
        (ctx : ParserContext) (ms : List AutoManifest) (m : AutoManifest) : Type 0 where
      pub nodes : List Node
      pub is_printed : outcome ≡ printed (markups nodes)
      pub well_formed : All IsWellFormed nodes
      pub item : AutoManifest
      pub is_read :
          run pub_date_of beyond (all_calls pieces nodes) (in_item_of ctx no_levels (m ∷ ms))
          ≡ in_item_of ctx no_levels (item ∷ ms)
      pub is_version : item.attribute_version ≡ version
      pub is_verified :
          verify c t item (some (record { size = length (joined image); reads = map some image }))
          ≡ verified

    -- For a file that is loaded and hashed, where the address has room for the file's name, and
    -- these, the version and the date are plain text and a hash is bytes, the signing tool prints
    -- the XML of an item of that version. In whatever pieces its texts are delivered, the handlers
    -- put it into an open item that has no label of an operating system; and `Verify`, which reads
    -- the file in any pieces without error, accepts it for that item, if the application has no
    -- public keys and the tool no pair of keys, or `SetEd25519Key` has stored the public key of the
    -- pair under its version, a number of 32 bits that is not 0.
    pub sign_manifest_ed-IsAccepted :
        (open_file : Bytes → Option Source) (filename version url : Bytes)
        (keypair : Option SignKeyPair) (keyversion : ℕ) (sha md5 t_url : Bytes) (t : KeyTable)
        (image : List Bytes) (ctx : ParserContext) (ms : List AutoManifest) (m : AutoManifest)
        → load (open_file filename) ≡ loaded (joined image)
        → hash c true (joined image) ≡ some sha
        → hash c false (joined image) ≡ some md5
        → replace_string url (codes "%%") (basename filename) 1024 ≡ some t_url
        → ((h : c.Hash) → All IsByte (c.hash_value h))
        → IsPlain url
        → IsPlain (basename filename)
        → IsPlain version
        → IsPlain clock.pub_date
        → All (IsRead c) image
        → KnowsKey IsPair t keypair keyversion
        → m.os_label ≡ []
        → IsAccepted
            (sign_manifest_ed c signer clock open_file filename version url keypair keyversion)
            version
            t
            image
            ctx
            ms
            m
    unfolding sign_manifest_ed
    sign_manifest_ed-IsAccepted open_file filename version url keypair keyversion sha md5 t_url t
          image ctx ms m read p q r bytes u b v d reads known fresh =
        let (e, is_for, prints) =
          sign_loaded-printed filename version url (joined image) keypair keyversion sha md5 t_url p
            q r in
        let (some_data, fits) = load-bounds (open_file filename) (joined image) read in
        let attributes =
          enclosure-IsPlain filename version url keypair keyversion e (joined image) is_for bytes u
            b v in
        let (m', is_read) =
          run-item_nodes pub_date_of beyond ctx ms pieces clock.now clock.pub_date e m fresh in
        record {
          nodes = item_nodes clock.now clock.pub_date (enclosure_of e);
          is_printed =
              ap (sign_loaded c signer clock filename version url keypair keyversion) read
              ∙ prints
              ∙ ap printed (sym (markups-item_nodes clock.now clock.pub_date (enclosure_of e)));
          well_formed =
              item_nodes-IsWellFormed clock.now clock.pub_date (enclosure_of e) d attributes;
          item = with_enclosure e m';
          is_read = is_read;
          is_version = is_for.same_version;
          is_verified =
              verify-IsFor filename version url keypair keyversion e t m' image is_for reads
                some_data fits known;
        }
