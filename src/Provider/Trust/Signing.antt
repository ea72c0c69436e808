-- ===== src/Provider/Trust/Signing.antt =====
-- sdk/provider/trust.go, `SignRuntimeRelease`: a publisher approves a runtime image.
-- JSON encoding, base64 and Ed25519 signatures are the fields of `Signer`.
use providah_community.Prelude.{
  ℕ, ◌==◌, Bool, not, ◌||◌, String, len, Option, fail_if, ltb, Result, ok, or_err, ◌>>=◌, ◌>>◌,
}
use providah_community.Provider.Trust.{
  RuntimeRelease, SignedRuntimeRelease, signed_text, validate_release,
}

-- The code of the standard library that signing calls; `right_size` is the test of the key's
-- length.
pub record Signer (Private : Type 0) : Type 0 where
  pub right_size : Private → Bool
  pub marshal : RuntimeRelease → Option String
  pub encode : String → String
  pub sign : Private → String → String

unfoldable pub sign_runtime_release :
    {Private : Type 0}
    → Signer Private
    → Private
    → String
    → RuntimeRelease
    → ℕ
    → Result SignedRuntimeRelease
sign_runtime_release signer key id release now = do
  fail_if (not (signer.right_size key) || id == "" || ltb 80 (len id)) "invalid runtime signing key"
  validate_release now release
  payload ← or_err (signer.marshal release) "unsupported JSON value"
  ok (record {
    key_id = id;
    payload = signer.encode payload;
    signature = signer.encode (signer.sign key (signed_text payload));
  })
