-- ===== src/Provider/Trust/RoundTrip.antt =====
-- A release that a publisher signs (`SignRuntimeRelease`), read back (`ParseRuntimeTrust`).
use providah_community.Prelude.{
  ℕ, ◌≡◌, ◌≤◌, ◌<◌, arith, Bool, true, false, not, ◌||◌, ◌==◌, String, len, none, some, List, [],
  ◌∷◌, ok, length, is_empty, refl, ltb, eqb, fail_if, fail_if-none, or_err, or_err-eq-ok, >>-eq-ok,
  >>=-eq-ok,
}
use providah_community.Provider.Trust.{
  RuntimeRelease, SignedRuntimeRelease, TrustedRelease, document, Formats, signed_text,
  validate_release, find_key, parse_signed, parse_releases, parse_keys, parse_runtime_trust,
  decode_trust,
}
use providah_community.Provider.Trust.Signing.{Signer, sign_runtime_release}

-- What the standard library documents of encoding and signing: each decoder reads back what its
-- encoder wrote of the release, and a signature verifies under the public key of its private key.
pub record Inverse {Key Private : Type 0} (formats : Formats Key) (signer : Signer Private)
    (public : Private → Key) (release : RuntimeRelease) : Type 0 where
  pub base64 : (s : String) → Formats.base64 formats (signer.encode s) ≡ some s
  pub verify :
      (key : Private) (text : String)
      → signer.right_size key ≡ true
      → Formats.verify formats (public key) text (signer.sign key text) ≡ true
  pub json :
      (text : String)
      → signer.marshal release ≡ some text
      → Formats.decode_release formats text ≡ document release

right_key : (sized a b : Bool) → (not sized || a || b) ≡ false → sized ≡ true
right_key sized a b h = ground arith

signing_parts :
    {Private : Type 0} (signer : Signer Private) (key : Private) (id : String)
    (release : RuntimeRelease) (now : ℕ) (signed : SignedRuntimeRelease)
    → sign_runtime_release signer key id release now ≡ ok signed
    → (signer.right_size key ≡ true)
      × (payload : String) × (signer.marshal release ≡ some payload)
      × (signed.key_id ≡ id)
      × (signed.payload ≡ signer.encode payload)
      × (signed.signature ≡ signer.encode (signer.sign key (signed_text payload)))
unfolding sign_runtime_release
signing_parts signer key id release now signed h =
    let (sized, h1) =
      >>-eq-ok (fail_if (not (signer.right_size key) || id == "" || ltb 80 (len id)) _) _ h in
    let (_, h2) = >>-eq-ok (validate_release now release) _ h1 in
    let (payload, wrote, h3) =
      >>=-eq-ok (or_err (signer.marshal release) "unsupported JSON value") _ h2 in
    (right_key _ _ _ (fail_if-none _ _ sized), payload, or_err-eq-ok _ _ wrote, cc, cc, cc)

-- One signed release, against the keys of the document.
sign-parse_signed :
    {Key Private : Type 0} (formats : Formats Key) (signer : Signer Private)
    (public : Private → Key) (keys : List (String × Key)) (key : Private) (id : String)
    (release : RuntimeRelease) (signing now : ℕ) (signed : SignedRuntimeRelease)
    → Inverse formats signer public release
    → ((text : String) → signer.marshal release ≡ some text → (0 < len text) × (len text ≤ 4096))
    → find_key formats id keys ≡ some (public key)
    → validate_release now release ≡ none
    → sign_runtime_release signer key id release signing ≡ ok signed
    → parse_signed formats keys now signed ≡ ok (record { release = release; key_id = id })
unfolding parse_signed decode_trust
sign-parse_signed formats signer public keys key id release signing now signed inverse fits listed
      valid h =
    let (sized, payload, wrote, is_id, is_payload, is_signature) =
      signing_parts signer key id release signing signed h in
    let (some_text, small) = fits payload wrote in
    let empty : eqb (len payload) 0 ≡ false = ground arith in
    let short : ltb 4096 (len payload) ≡ false = ground arith in
    let within : ltb 65536 (len payload) ≡ false = ground arith in
    rw (
      is_id,
      is_payload,
      is_signature,
      listed,
      inverse.base64 payload,
      short,
      inverse.base64 (signer.sign key (signed_text payload)),
      inverse.verify key (signed_text payload) sized,
      empty,
      within,
      inverse.json payload wrote,
      valid,
    )

-- The entries of a document and the releases that publishers signed into them: each with a key whose
-- public key is listed under the publisher, on a release that is valid and not expired when it is
-- parsed, and whose text has 1 to 4096 bytes.
pub data AllSigned {Key Private : Type 0} (formats : Formats Key) (signer : Signer Private)
    (public : Private → Key) (keys : List (String × Key)) (now : ℕ)
    : List SignedRuntimeRelease → List TrustedRelease → Type 0 where
  no_entries : AllSigned formats signer public keys now [] []
  with_entry :
      {entries : List SignedRuntimeRelease} {trusted : List TrustedRelease}
      → (key : Private) (id : String) (release : RuntimeRelease) (signing : ℕ)
        (signed : SignedRuntimeRelease)
      → Inverse formats signer public release
      → ((text : String) → signer.marshal release ≡ some text → (0 < len text) × (len text ≤ 4096))
      → find_key formats id keys ≡ some (public key)
      → validate_release now release ≡ none
      → sign_runtime_release signer key id release signing ≡ ok signed
      → AllSigned formats signer public keys now entries trusted
      → AllSigned formats signer public keys now
          (signed ∷ entries)
          (record { release = release; key_id = id } ∷ trusted)

parse_all :
    {Key Private : Type 0} (formats : Formats Key) (signer : Signer Private)
    (public : Private → Key) (keys : List (String × Key)) (now : ℕ)
    {entries : List SignedRuntimeRelease} {trusted : List TrustedRelease}
    → AllSigned formats signer public keys now entries trusted
    → parse_releases formats keys now entries ≡ ok trusted
unfolding parse_releases
parse_all formats signer public keys now no_entries = refl
parse_all formats signer public keys now
      (with_entry key id release signing signed inverse fits listed valid h rest) =
    rw (
      sign-parse_signed formats signer public keys key id release signing now signed inverse fits
          listed valid h,
      parse_all formats signer public keys now rest,
    )

-- A trust whose releases were all signed by listed publishers parses to these releases as they were
-- signed, each under its publisher: where the two documents decode to 1 to 16 keys that all parse
-- and to 1 to 32 entries, each release is valid and not expired at the parsing, and its text has 1
-- to 4096 bytes.
pub sign-parse_runtime_trust :
    {Key Private : Type 0} (formats : Formats Key) (signer : Signer Private)
    (public : Private → Key) (keys_json releases_json : String) (now : ℕ)
    (encoded : List (String × String)) (keys : List (String × Key))
    (entries : List SignedRuntimeRelease) (trusted : List TrustedRelease)
    → decode_trust formats.decode_keys keys_json ≡ ok encoded
    → decode_trust formats.decode_releases releases_json ≡ ok entries
    → is_empty encoded ≡ false
    → length encoded ≤ 16
    → is_empty entries ≡ false
    → length entries ≤ 32
    → parse_keys formats encoded ≡ ok keys
    → AllSigned formats signer public keys now entries trusted
    → parse_runtime_trust formats keys_json releases_json now ≡ ok (record { releases = trusted })
unfolding parse_runtime_trust
sign-parse_runtime_trust formats signer public keys_json releases_json now encoded keys entries
      trusted keys_read entries_read some_key few_keys some_entry few_entries parsed signed =
    let counted : (is_empty encoded
          || ltb 16 (length encoded)
          || is_empty entries
          || ltb 32 (length entries))
        ≡ false =
      ground arith in
    rw (keys_read, entries_read, counted, parsed, parse_all formats signer public keys now signed)
