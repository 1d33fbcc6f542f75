-- ===== src/Crypto/Laws.antt =====
-- internal/crypto: the event hash and the signatures, over the laws of the digest and of Ed25519.
use logryph.Base.{
  ◌*◌, length, ◌≡◌, sym, ap, ◌∙◌, subst, true, String, is_set, not, ◌||◌, nat_eq, count_char, ◌==◌,
  arith,
}
use Prim.Native.String as Str
use logryph.Base.Result.{ok, bind-eq-ok, ok_injective}
use logryph.Assert.{check}
use logryph.Json.{Value}
use logryph.Externals.{Externals, CryptoLaws}
use logryph.Crypto.Hex.{hex_encode, hex_decode-hex_encode, is_set-hex_encode, count-hex_encode}
use logryph.Crypto.{
  Signer, calculate_event_hash, canonical_json, is_present, genesis_prev_hash, sign_hash,
  verify_signature,
}

module _ (x : Externals) where
  -- A hash that is returned is the hex digest of the previous hash and the canonical content.
  pub hash_shape :
      (prev : String) (v : Value) {h : String}
      → calculate_event_hash x prev v ≡ ok h
      → (c : String) × (canonical_json x v ≡ ok c) × (h ≡ hex_encode (x.sha256 (Str.◌++◌ prev c)))
  unfolding calculate_event_hash
  hash_shape prev v e =
      let (u, p1, q1) = bind-eq-ok (check x.strict (is_set prev) _) _ e in
      let (w, p2, q2) =
        bind-eq-ok
          (check x.strict (not (nat_eq (count_char b'0' prev) 64) || (prev == genesis_prev_hash))
            "invalid prev_hash format")
          _ q1 in
      let (z, p3, q3) = bind-eq-ok (check x.strict (is_present v) _) _ q2 in
      let (c, p4, q4) = bind-eq-ok (canonical_json x v) _ q3 in (c, p4, sym (ok_injective q4))

  module _ (laws : CryptoLaws x) where
    -- A hash is 64 characters.
    pub hash-count :
        (prev : String) (v : _) {h : String}
        → calculate_event_hash x prev v ≡ ok h
        → Str.count h ≡ 64
    hash-count prev v {h} e =
        let (c, _, shape) = hash_shape prev v e in
        let two : Str.count h ≡ 2 * length (x.sha256 (Str.◌++◌ prev c)) =
          ap Str.count shape ∙ count-hex_encode (x.sha256 (Str.◌++◌ prev c)) in
        omega (arith, laws.digest_length (Str.◌++◌ prev c))

    pub is_set-hash :
        (prev : String) (v : Value) {h : String}
        → calculate_event_hash x prev v ≡ ok h
        → is_set h ≡ true
    is_set-hash prev v e =
        let (c, _, shape) = hash_shape prev v e in
        ap is_set shape
        ∙ is_set-hex_encode (x.sha256 (Str.◌++◌ prev c))
            (omega (arith, laws.digest_length (Str.◌++◌ prev c)))

    -- Where the library's signatures verify under the matching public key and are 64 bytes, the
    -- signature that a signer with matching keys gives a hash is one that it verifies, and is
    -- not empty.
    pub verify_signature-sign_hash :
        (s : Signer) (h : String) {sig : String}
        → s.public_key ≡ x.public_of s.private_key
        → sign_hash x s h ≡ ok sig
        → (verify_signature x s h sig ≡ true) × (is_set sig ≡ true)
    unfolding sign_hash verify_signature
    verify_signature-sign_hash s h keys e =
        subst (λ t. (verify_signature x s h t ≡ true) × (is_set t ≡ true)) (ok_injective e)
          (
            rw
                (
                  hex_decode-hex_encode (x.ed25519_sign s.private_key h) (laws.signature_bytes _ h),
                  keys,
                )
                (laws.signed s.private_key h),
            is_set-hex_encode (x.ed25519_sign s.private_key h)
                (omega (arith, laws.signature_length s.private_key h)),
          )
