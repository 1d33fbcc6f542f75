-- ===== src/Processor/Accepted.antt =====
-- internal/ledger/processor.go: the previous hash that is chosen on a sound run is accepted, and the
-- event is hashed and signed.
use Prim.Native.String as Str
use mathlib.Core.Option.{some-injective}
use logryph.Base.{
  ℕ, suc, ◌+◌, ◌<◌, ◌^◌, ◌≡◌, refl, ap, subst, true, false, not, ◌||◌, Option, none, some, List, [],
  ◌∷◌, String, ◌==◌, is_set, nat_eq, count_char, length, last?, arith,
}
use logryph.Base.Result.{ok}
use logryph.Json.{Value}
use logryph.Event.{Event}
use logryph.Externals.{Externals, CryptoLaws}
use logryph.Crypto.{
  Signer, genesis_prev_hash, calculate_event_hash, canonical_json, is_present, sign_hash,
}
use logryph.Crypto.Hex.{hex_encode}
use logryph.Crypto.Laws.{hash-count, is_set-hash, verify_signature-sign_hash}
use logryph.Crypto.Zeros.{guard_passes}
use logryph.Pool.{add_uint64}
use logryph.Repository.{EventRepository}
use logryph.Repository.Laws.{IsSequential, IsLast}
use logryph.Audit.Chain.{IsAuthentic, IsChain}
use logryph.Store.Rows.{last?-in}
use logryph.Processor.{payload, prev_hash_for, signed_by}

last_index :
    (n : ℕ) (es : List Event) {l : Event}
    → IsSequential n es
    → last? es ≡ some l
    → n + length es ≡ suc l.seq_index
last_index n [] h e = cc
last_index n (f ∷ []) {l} h e =
    let same : f.seq_index ≡ l.seq_index = ap (λ g. g.seq_index) (some-injective f l e) in
    let first : f.seq_index ≡ n = h.0 in omega arith
last_index n (f ∷ g ∷ es) {l} h e =
    let rest : suc n + length (g ∷ es) ≡ suc l.seq_index = last_index (suc n) (g ∷ es) h.1 e in
    omega arith

module _ (x : Externals) where
  last-IsAuthentic :
      (signer : Signer) (prev : Option Event) (es : List Event) {l : Event}
      → IsChain x signer prev es
      → last? es ≡ some l
      → IsAuthentic x signer l
  last-IsAuthentic signer prev [] c e = cc
  last-IsAuthentic signer prev (f ∷ []) c e =
      subst (IsAuthentic x signer) (some-injective _ _ e) c.1
  last-IsAuthentic signer prev (f ∷ g ∷ es) c e = last-IsAuthentic signer (some f) (g ∷ es) c.2 e

  -- A previous hash that the event hash accepts.
  pub record IsAccepted (prev : String) : Type 0 where
    pub set : is_set prev ≡ true
    pub well_formed : (not (nat_eq (count_char b'0' prev) 64) || (prev == genesis_prev_hash)) ≡ true

  module _ (crypto : CryptoLaws x) {S : Type 0} (repo : EventRepository S) (signer : Signer) where
    after_last :
        (n : ℕ) (l : Event) (r : ℕ × String)
        → IsAuthentic x signer l
        → n ≡ suc l.seq_index
        → n < 2 ^ 64
        → r ≡ (l.seq_index, l.current_hash)
        → (prev_hash_for x repo n r.0 r.1 ≡ ok l.current_hash) × IsAccepted l.current_hash
    unfolding prev_hash_for
    after_last n l r a k small e =
        let nonzero : nat_eq n 0 ≡ false = ground arith in
        let next : nat_eq n (add_uint64 l.seq_index 1) ≡ true = ground arith in
        (
          rw (e, nonzero, a.hash_set, next) refl,
          record {
            set = a.hash_set;
            well_formed = guard_passes l.current_hash (hash-count x crypto _ _ a.hashed);
          },
        )

    pub chosen :
        (es : List Event) (r : ℕ × String)
        → IsChain x signer none es
        → IsSequential 0 es
        → length es < 2 ^ 64
        → IsLast (last? es) r
        → (prev : String) × (prev_hash_for x repo (length es) r.0 r.1 ≡ ok prev) × IsAccepted prev
    unfolding prev_hash_for count_char
    chosen [] r c s small l =
        (genesis_prev_hash, rw l refl, record { set = refl; well_formed = refl })
    chosen (e ∷ es) r c s small l =
        let (f, found) = last?-in e es in
        let (accepted, good) =
          after_last (length (e ∷ es)) f r (last-IsAuthentic signer none (e ∷ es) c found)
            (omega (arith, last_index 0 (e ∷ es) s found)) small (rw found at l) in
        (f.current_hash, accepted, good)

    -- An accepted previous hash and a content with a canonical form give a hash.
    hashed :
        (prev : String) (v : Value) (c : String)
        → IsAccepted prev
        → is_present v ≡ true
        → canonical_json x v ≡ ok c
        → (h : String) × (calculate_event_hash x prev v ≡ ok h)
    unfolding calculate_event_hash
    hashed prev v c a p e =
        (hex_encode (x.sha256 (Str.◌++◌ prev c)), rw (a.set, a.well_formed, p, e) refl)

    pub signed :
        (f : Event) (c : String)
        → signer.public_key ≡ x.public_of signer.private_key
        → IsAccepted f.prev_hash
        → canonical_json x (payload x f) ≡ ok c
        → (h sig : String) × (signed_by x repo f signer
            ≡ ok (record f { current_hash = h; signature = sig }))
          × (is_set h ≡ true)
          × (is_set sig ≡ true)
    unfolding signed_by sign_hash payload is_present
    signed f c keys a e =
        let (h, eh) = hashed f.prev_hash (payload x f) c a refl e in
        let sig = hex_encode (x.ed25519_sign signer.private_key h) in
        (
          h,
          sig,
          rw (a.set, eh) refl,
          is_set-hash x crypto f.prev_hash (payload x f) eh,
          (verify_signature-sign_hash x crypto signer h keys refl).1,
        )
