-- ===== src/Tests/Approval.antt =====
-- A runtime trust on concrete inputs: a release signed, parsed and asked.
use providah_community.Provider.Patterns.{image_id}
use providah_community.Regex.{matches}
use providah_community.Prelude.{
  ℕ, ◌≡◌, refl, ◌==◌, ◌≤◌, ◌<◌, arith, true, String, none, some, List, [], ◌∷◌, pos, ok, All, In,
  is_blank,
}
use providah_community.Provider.Trust.{
  RuntimeRelease, SignedRuntimeRelease, TrustedRelease, RuntimeTrust, document, Formats,
  decode_trust, parse_runtime_trust, allows, approval, validate_release,
}
use providah_community.Provider.Trust.Signed.{IsSigned, parse_runtime_trust-IsSigned}
use providah_community.Provider.Trust.Approved.{allows-approval}
use providah_community.Prelude.{len, subst, sym}
use providah_community.Provider.Trust.{parse_keys, find_key}
use providah_community.Provider.Trust.Signing.{Signer, sign_runtime_release}
use providah_community.Provider.Trust.RoundTrip.{
  Inverse, with_entry, no_entries, sign-parse_runtime_trust,
}

abbrev release : RuntimeRelease
release = record {
  version = pos 1;
  image = "sha256:dddddddddddddddddddddddddddddddddddddddddddddddddddddddddddddddd";
  providers = "hetzner" ∷ [];
  expires_at = 5000;
}

abbrev signed_release : SignedRuntimeRelease
signed_release = record { key_id = "publisher-1"; payload = "release"; signature = "signed" }

-- A key is its text; a signature is good if it is "signed".
abbrev formats : Formats String
formats = record {
  decode_keys = λ s. document (("publisher-1", "pem") ∷ []);
  decode_releases = λ s. document (signed_release ∷ []);
  decode_release = λ s. document release;
  pem_decode = λ s. some (record { kind = "PUBLIC KEY"; bytes = s; rest = "" });
  parse_pkix = λ s. some (some s);
  base64 = λ s. some s;
  verify = λ key text signature. signature == "signed";
}

abbrev trust : RuntimeTrust
trust = record { releases = record { release = release; key_id = "publisher-1" } ∷ [] }

trust_parsed : parse_runtime_trust formats "keys" "releases" 1000 ≡ ok trust
unfolding parse_runtime_trust ◌==◌ decode_trust is_blank validate_release matches image_id
trust_parsed = refl

parse_runtime_trust-IsSigned_example :
    (encoded : List (String × String)) × (decode_trust (Formats.decode_keys formats) "keys"
      ≡ ok encoded)
    × All (IsSigned formats encoded 1000) trust.releases
parse_runtime_trust-IsSigned_example =
    parse_runtime_trust-IsSigned formats "keys" "releases" 1000 trust trust_parsed

-- The expiry is reported as one fixed text.
abbrev some_time : ℕ → String
some_time t = "2030-01-01T00:00:00Z"

image_allowed : allows (some trust) release.image "hetzner" 2000 ≡ true
unfolding allows ◌==◌
image_allowed = refl

allows-approval_example :
    (allows (some trust) release.image "hetzner" 1500 ≡ true)
    × ((r : TrustedRelease) × In r trust.releases
        × (r.release.image ≡ release.image)
        × (2000 < r.release.expires_at)
        × In "hetzner" r.release.providers
        × (approval some_time (some trust) release.image "hetzner" 2000
            ≡ (r.key_id, some_time r.release.expires_at)))
allows-approval_example =
    allows-approval some_time trust release.image "hetzner" 1500 2000 (omega arith) image_allowed

-- Encoding changes nothing, and every signature is the same text.
abbrev signer : Signer String
signer = record {
  right_size = λ key. true;
  marshal = λ r. some "release";
  encode = λ s. s;
  sign = λ key text. "signed";
}

inverse : Inverse formats signer (λ key. key) release
unfolding ◌==◌
inverse = record { base64 = λ s. refl; verify = λ key text sized. refl; json = λ text wrote. refl }

fits : (text : String) → signer.marshal release ≡ some text → (0 < len text) × (len text ≤ 4096)
fits text wrote = sizes text cc
  where
    sizes : (t : String) → t ≡ "release" → (0 < len t) × (len t ≤ 4096)
    sizes t same = subst (λ x. (0 < len x) × (len x ≤ 4096)) (sym same) (omega arith, omega arith)

listed : find_key formats "publisher-1" (("publisher-1", "pem") ∷ []) ≡ some "pem"
unfolding find_key ◌==◌
listed = refl

still_valid : validate_release 2000 release ≡ none
unfolding validate_release ◌==◌ matches image_id
still_valid = refl

signed_now : sign_runtime_release signer "pem" "publisher-1" release 1000 ≡ ok signed_release
unfolding sign_runtime_release ◌==◌ validate_release matches image_id
signed_now = refl

keys_read : decode_trust formats.decode_keys "keys" ≡ ok (("publisher-1", "pem") ∷ [])
unfolding decode_trust
keys_read = refl

entries_read : decode_trust formats.decode_releases "releases" ≡ ok (signed_release ∷ [])
unfolding decode_trust
entries_read = refl

keys_parsed : parse_keys formats (("publisher-1", "pem") ∷ []) ≡ ok (("publisher-1", "pem") ∷ [])
unfolding parse_keys ◌==◌ is_blank
keys_parsed = refl

sign-parse_runtime_trust_example :
    parse_runtime_trust formats "keys" "releases" 2000
    ≡ ok (record { releases = record { release = release; key_id = "publisher-1" } ∷ [] })
sign-parse_runtime_trust_example =
    sign-parse_runtime_trust formats signer (λ key. key) "keys" "releases" 2000
      (("publisher-1", "pem") ∷ []) (("publisher-1", "pem") ∷ []) (signed_release ∷ [])
      (record { release = release; key_id = "publisher-1" } ∷ []) keys_read entries_read refl
      (omega arith) refl (omega arith) keys_parsed
      (with_entry "pem" "publisher-1" release 1000 signed_release inverse fits listed still_valid
        signed_now no_entries)
