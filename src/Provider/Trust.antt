-- ===== src/Provider/Trust.antt =====
-- sdk/provider/trust.go: runtime images approved by signed releases. Instants are nanoseconds.
-- JSON decoding, PEM, PKIX, base64 and Ed25519 are the fields of `Formats`.
pub mod Signing
pub mod RoundTrip
pub mod Signed
pub mod Approved
use providah_community.Prelude.{
  ℕ, ◌==◌, Bool, true, false, not, ◌&&◌, ◌||◌, String, len, Option, none, some, List, [], ◌∷◌,
  Error, fail_if, ◌>>>◌, if◌then◌else◌, ltb, eqb, contains, length, is_empty, is_blank, ℤ, pos,
  eqb_ℤ, Result, ok, err, or_err, ◌>>=◌, ◌>>◌,
}
use providah_community.Regex.{matches}
use providah_community.Provider.Patterns.{image_id}
use providah_community.Provider.Runtime.{clouds}

pub record RuntimeRelease : Type 0 where
  pub version : ℤ
  pub image : String
  pub providers : List String
  pub expires_at : ℕ

pub record SignedRuntimeRelease : Type 0 where
  pub key_id : String
  pub payload : String
  pub signature : String

pub record TrustedRelease : Type 0 where
  pub release : RuntimeRelease
  pub key_id : String

pub record RuntimeTrust : Type 0 where
  pub releases : List TrustedRelease

-- What `json.Decoder` makes of a text: a document, or one with more text after it, or none.
pub data Decoded (A : Type 0) : Type 0 where
  document : A → Decoded A
  malformed trailing : Decoded A

-- A PEM block: its type, its bytes, and the text after it.
pub record Block : Type 0 where
  pub kind : String
  pub bytes : String
  pub rest : String

-- The code of the standard library that the parser calls. `parse_pkix` is `none` on an error and
-- `some none` on a key that is not an Ed25519 key.
pub record Formats (Key : Type 0) : Type 0 where
  pub decode_keys : String → Decoded (List (String × String))
  pub decode_releases : String → Decoded (List SignedRuntimeRelease)
  pub decode_release : String → Decoded RuntimeRelease
  pub pem_decode : String → Option Block
  pub parse_pkix : String → Option (Option Key)
  pub base64 : String → Option String
  pub verify : Key → String → String → Bool

abbrev pub runtime_approval_domain : String
runtime_approval_domain = "providah-runtime-approval-v1\n"

abbrev pub signed_text : String → String
signed_text payload = Prim.Native.String.◌++◌ runtime_approval_domain payload

unfoldable pub decode_trust : {A : Type 0} → (String → Decoded A) → String → Result A
decode_trust decode raw =
    fail_if (eqb (len raw) 0 || ltb 65536 (len raw)) "invalid runtime trust document size"
    >> elim (decode raw) [
      | document a ↦ ok a
      | malformed ↦ err "invalid runtime trust document"
      | trailing ↦ err "invalid trailing runtime trust data"
    ]

-- The loop over the providers of a release, with those seen.
unfoldable pub check_providers : List String → List String → Error
check_providers [] seen = none
check_providers (p ∷ providers) seen =
    fail_if (not (contains clouds p) || contains seen p) "invalid runtime release provider"
    >>> check_providers providers (p ∷ seen)

unfoldable pub validate_release : ℕ → RuntimeRelease → Error
unfolding check_providers
validate_release now r =
    fail_if
      (not (eqb_ℤ r.version (pos 1))
        || not (matches image_id r.image)
        || is_empty r.providers
        || ltb 3 (length r.providers)
        || not (ltb now r.expires_at))
      "invalid or expired runtime release"
    >>> check_providers r.providers []

module _ {Key : Type 0} (formats : Formats Key) where
  open formats use {
    decode_keys, decode_releases, decode_release, pem_decode, parse_pkix, base64, verify,
  }

  unfoldable pub parse_bytes : String → Result Key
  parse_bytes bytes = elim (parse_pkix bytes) [
    | none ↦ err "invalid runtime publisher key"
    | some none ↦ err "runtime publisher key must be Ed25519"
    | some (some key) ↦ ok key
  ]

  -- One publisher key of the document.
  unfoldable pub parse_key : String → String → Result Key
  unfolding parse_bytes
  parse_key id value = do
    block ← or_err (pem_decode value) "invalid runtime publisher key"
    fail_if
        (id == ""
          || ltb 80 (len id)
          || not (block.kind == "PUBLIC KEY")
          || not (is_blank block.rest))
        "invalid runtime publisher key"
    parse_bytes block.bytes

  unfoldable pub parse_keys : List (String × String) → Result (List (String × Key))
  unfolding parse_key
  parse_keys [] = ok []
  parse_keys ((id, value) ∷ encoded) = do
    key ← parse_key id value
    keys ← parse_keys encoded
    ok ((id, key) ∷ keys)

  unfoldable pub find_key : String → List (String × Key) → Option Key
  find_key id [] = none
  find_key id ((j, key) ∷ keys) = if j == id then some key else find_key id keys

  -- One signed release, checked against the keys.
  unfoldable pub parse_signed :
      List (String × Key) → ℕ → SignedRuntimeRelease → Result TrustedRelease
  unfolding find_key
  parse_signed keys now signed = do
    key ← or_err (find_key signed.key_id keys) "untrusted runtime publisher"
    payload ← or_err (base64 signed.payload) "invalid signed runtime payload"
    fail_if (ltb 4096 (len payload)) "invalid signed runtime payload"
    signature ← or_err (base64 signed.signature) "invalid runtime publisher signature"
    fail_if (not (verify key (signed_text payload) signature)) "invalid runtime publisher signature"
    release ← decode_trust decode_release payload
    validate_release now release
    ok (record { release = release; key_id = signed.key_id })

  unfoldable pub parse_releases :
      List (String × Key) → ℕ → List SignedRuntimeRelease → Result (List TrustedRelease)
  unfolding parse_signed
  parse_releases keys now [] = ok []
  parse_releases keys now (signed ∷ rest) = do
    release ← parse_signed keys now signed
    releases ← parse_releases keys now rest
    ok (release ∷ releases)

  unfoldable pub parse_runtime_trust : String → String → ℕ → Result RuntimeTrust
  unfolding parse_keys parse_releases
  parse_runtime_trust keys_json releases_json now = do
    encoded ← decode_trust decode_keys keys_json
    releases ← decode_trust decode_releases releases_json
    fail_if
        (is_empty encoded
          || ltb 16 (length encoded)
          || is_empty releases
          || ltb 32 (length releases))
        "runtime trust requires 1–16 keys and 1–32 approvals"
    keys ← parse_keys encoded
    trusted ← parse_releases keys now releases
    ok (record { releases = trusted })

-- Whether a release approves an image for a cloud at an instant.
unfoldable pub approves : TrustedRelease → String → String → ℕ → Bool
approves r image cloud now =
    r.release.image == image && ltb now r.release.expires_at && contains r.release.providers cloud

unfoldable pub any_approves : List TrustedRelease → String → String → ℕ → Bool
unfolding approves
any_approves [] image cloud now = false
any_approves (r ∷ releases) image cloud now =
    approves r image cloud now || any_approves releases image cloud now

-- A nil trust is the development mode that the deployment approves.
unfoldable pub allows : Option RuntimeTrust → String → String → ℕ → Bool
unfolding any_approves
allows none image cloud now = true
allows (some t) image cloud now = any_approves t.releases image cloud now

module _ (format_time : ℕ → String) where
  unfoldable pub first_approval : List TrustedRelease → String → String → ℕ → String × String
  unfolding approves
  first_approval [] image cloud admitted_at = ("", "")
  first_approval (r ∷ releases) image cloud admitted_at =
      if approves r image cloud admitted_at
      then (r.key_id, format_time r.release.expires_at)
      else first_approval releases image cloud admitted_at

  unfoldable pub approval : Option RuntimeTrust → String → String → ℕ → String × String
  unfolding first_approval
  approval none image cloud admitted_at = ("", "")
  approval (some t) image cloud admitted_at = first_approval t.releases image cloud admitted_at
