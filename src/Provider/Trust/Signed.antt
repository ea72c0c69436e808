-- ===== src/Provider/Trust/Signed.antt =====
-- Where the releases of a parsed runtime trust come from.
use providah_community.Prelude.{
  ℕ, ◌≡◌, ◌==◌, ==_iff, arith, true, String, List, [], ◌∷◌, none, some, In, here, there, All, ok,
  >>=-eq-ok, >>-eq-ok, or_err, or_err-eq-ok, fail_if, ltb, len, not, Bool-cases, inl, inr, ap,
  subst, sym, is_empty, length, ◌||◌,
}
use providah_community.Provider.Trust.{
  SignedRuntimeRelease, TrustedRelease, RuntimeTrust, Formats, decode_trust, validate_release,
  find_key, parse_key, parse_keys, parse_signed, parse_releases, parse_runtime_trust, signed_text,
}

module _ {Key : Type 0} (formats : Formats Key) where
  open formats use {decode_keys, decode_release, base64, verify}

  -- A key that the keys' document lists under the release's publisher has signed the release, and
  -- the release had not expired at `now`.
  pub record IsSigned (encoded : List (String × String)) (now : ℕ) (r : TrustedRelease)
      : Type 0 where
    pub value : String
    pub listed : In (r.key_id, value) encoded
    pub key : Key
    pub parsed : parse_key formats r.key_id value ≡ ok key
    pub payload : String
    pub signature : String
    pub signed : verify key (signed_text payload) signature ≡ true
    pub decoded : decode_trust decode_release payload ≡ ok r.release
    pub valid : validate_release now r.release ≡ none

  -- The entry of the document that a key comes from.
  abbrev KeyFrom : List (String × String) → String → Key → Type 0
  KeyFrom encoded id key =
      (value : String) × In (id, value) encoded × (parse_key formats id value ≡ ok key)

  find_key-from :
      (encoded : List (String × String)) (keys : List (String × Key)) (id : String) (key : Key)
      → parse_keys formats encoded ≡ ok keys
      → find_key formats id keys ≡ some key
      → KeyFrom encoded id key
  unfolding parse_keys find_key
  find_key-from [] keys id key parsed found =
      let same : ◌≡◌ {A = List (String × Key)} [] keys = cc in ground (arith, rw (← same) at found)
  find_key-from ((j, value) ∷ encoded) keys id key parsed found =
      let (k, first, rest) = >>=-eq-ok (parse_key formats j value) _ parsed in
      let (ks, later, whole) = >>=-eq-ok (parse_keys formats encoded) _ rest in
      let same : (j, k) ∷ ks ≡ keys = cc in
      let found' : find_key formats id ((j, k) ∷ ks) ≡ some key =
        subst (λ l. find_key formats id l ≡ some key) (sym same) found in
      elim (Bool-cases (j == id)) [
        | inl e ↦
            let names : j ≡ id = (==_iff j id).0 e in
            let keys_same : k ≡ key = ground arith in
            (value, here (ap (λ t. (t, value)) names), rw (← names, ← keys_same) first)
        | inr e ↦
            let (v, m, p) = find_key-from encoded ks id key later (ground arith) in (v, there m, p)
      ]

  parse_signed-IsSigned :
      (encoded : List (String × String)) (keys : List (String × Key)) (now : ℕ)
      (s : SignedRuntimeRelease) (r : TrustedRelease)
      → parse_keys formats encoded ≡ ok keys
      → parse_signed formats keys now s ≡ ok r
      → IsSigned encoded now r
  unfolding parse_signed
  parse_signed-IsSigned encoded keys now s r k h =
      let (key, h1, t1) = >>=-eq-ok (or_err (find_key formats s.key_id keys) _) _ h in
      let (payload, h2, t2) = >>=-eq-ok (or_err (base64 s.payload) _) _ t1 in
      let (h3, t3) = >>-eq-ok (fail_if (ltb 4096 (len payload)) _) _ t2 in
      let (signature, h4, t4) = >>=-eq-ok (or_err (base64 s.signature) _) _ t3 in
      let (h5, t5) = >>-eq-ok (fail_if (not (verify key (signed_text payload) signature)) _) _ t4 in
      let (release, h6, t6) = >>=-eq-ok (decode_trust decode_release payload) _ t5 in
      let (h7, t7) = >>-eq-ok (validate_release now release) _ t6 in
      let same : record { release = release; key_id = s.key_id } ≡ r = cc in
      let (value, listed, parsed) =
        find_key-from encoded keys s.key_id key k (or_err-eq-ok _ _ h1) in
      subst (IsSigned encoded now) same (record {
        value = value;
        listed = listed;
        key = key;
        parsed = parsed;
        payload = payload;
        signature = signature;
        signed = ground (arith, h5);
        decoded = h6;
        valid = h7;
      })

  parse_releases-All :
      (encoded : List (String × String)) (keys : List (String × Key)) (now : ℕ)
      (signed : List SignedRuntimeRelease) (releases : List TrustedRelease)
      → parse_keys formats encoded ≡ ok keys
      → parse_releases formats keys now signed ≡ ok releases
      → All (IsSigned encoded now) releases
  unfolding parse_releases
  parse_releases-All encoded keys now [] releases k h =
      let same : ◌≡◌ {A = List TrustedRelease} [] releases = cc in rw (← same) tt
  parse_releases-All encoded keys now (s ∷ signed) releases k h =
      let (r, first, t1) = >>=-eq-ok (parse_signed formats keys now s) _ h in
      let (rs, later, t2) = >>=-eq-ok (parse_releases formats keys now signed) _ t1 in
      let same : r ∷ rs ≡ releases = cc in
      subst (All (IsSigned encoded now)) same (
        parse_signed-IsSigned encoded keys now s r k first,
        parse_releases-All encoded keys now signed rs k later,
      )

-- Every release of a parsed trust is signed by a key that the deployment's keys document lists
-- under the release's publisher, is well formed, and had not expired when it was parsed.
pub parse_runtime_trust-IsSigned :
    {Key : Type 0} (formats : Formats Key) (keys_json releases_json : String) (now : ℕ)
    (trust : RuntimeTrust)
    → parse_runtime_trust formats keys_json releases_json now ≡ ok trust
    → (encoded : List (String × String)) × (decode_trust (Formats.decode_keys formats) keys_json
        ≡ ok encoded)
      × All (IsSigned formats encoded now) trust.releases
unfolding parse_runtime_trust
parse_runtime_trust-IsSigned formats keys_json releases_json now trust h =
    let (encoded, h1, t1) = >>=-eq-ok (decode_trust formats.decode_keys keys_json) _ h in
    let (signed, h2, t2) = >>=-eq-ok (decode_trust formats.decode_releases releases_json) _ t1 in
    let (h3, t3) =
      >>-eq-ok
        (fail_if
          (is_empty encoded || ltb 16 (length encoded) || is_empty signed || ltb 32 (length signed))
          "runtime trust requires 1–16 keys and 1–32 approvals")
        _ t2 in
    let (keys, h4, t4) = >>=-eq-ok (parse_keys formats encoded) _ t3 in
    let (releases, h5, t5) = >>=-eq-ok (parse_releases formats keys now signed) _ t4 in
    let same : record { releases = releases } ≡ trust = cc in
    (
      encoded,
      h1,
      subst (λ t. All (IsSigned formats encoded now) (RuntimeTrust.releases t)) same
          (parse_releases-All formats encoded keys now signed releases h4 h5),
    )
