-- ===== src/Audit/Binding.antt =====
-- internal/ledger/audit/verify.go, internal/crypto/engine.go: what the last hash of a chain says of
-- its events.
use Prim.Native.String as Str
use text.Mathlib.TextLemmas as Text
use logryph.Base.{
  ◌≡◌, ◌≢◌, ◌⊎◌, inl, inr, sym, ap, ◌∙◌, false, none, some, List, [], ◌∷◌, String, ◌==◌, eq_iff,
  length, arith, Bool-cases,
}
use logryph.Base.Result.{ok}
use logryph.Event.{Event}
use logryph.Externals.{Externals, CryptoLaws, IsBytes, Bytes}
use logryph.Crypto.{Signer, canonical_json, calculate_event_hash}
use logryph.Crypto.Hex.{hex_encode, hex_decode, hex_decode-hex_encode}
use logryph.Crypto.Laws.{hash_shape, hash-count}
use logryph.Audit.{payload}
use logryph.Audit.Chain.{IsChain}
use mathlib.Core.Option.{some-injective}

pub hex_encode-inj :
    (bs cs : Bytes) → IsBytes bs → IsBytes cs → hex_encode bs ≡ hex_encode cs → bs ≡ cs
hex_encode-inj bs cs hb hc e =
    some-injective _ _
      (sym (hex_decode-hex_encode bs hb) ∙ ap hex_decode e ∙ hex_decode-hex_encode cs hc)

-- The hash of the last event of `e ∷ es`.
abbrev pub last_hash : Event → List Event → String
last_hash e [] = e.current_hash
last_hash e (f ∷ es) = last_hash f es

module _ (x : Externals) where
  -- The canonical content that is hashed is the same.
  abbrev pub SameContent : Event → Event → Type 0
  SameContent e f = canonical_json x (payload x e) ≡ canonical_json x (payload x f)

  abbrev pub AllSame : List Event → List Event → Type 0
  AllSame [] [] = Unit
  AllSame [] (f ∷ fs) = ⊥
  AllSame (e ∷ es) [] = ⊥
  AllSame (e ∷ es) (f ∷ fs) = SameContent e f × AllSame es fs

  -- The texts that are hashed for two events, the previous hash and the canonical content, are
  -- different and have one digest.
  pub record Collides (e f : Event) : Type 0 where
    pub left : String
    pub right : String
    pub left_content : canonical_json x (payload x e) ≡ ok left
    pub right_content : canonical_json x (payload x f) ≡ ok right
    pub different : Str.◌++◌ e.prev_hash left ≢ Str.◌++◌ f.prev_hash right
    pub same_digest : x.sha256 (Str.◌++◌ e.prev_hash left) ≡ x.sha256 (Str.◌++◌ f.prev_hash right)

  -- Two events at one place of the two lists collide.
  abbrev pub SomeCollide : List Event → List Event → Type 0
  SomeCollide [] fs = ⊥
  SomeCollide (e ∷ es) [] = ⊥
  SomeCollide (e ∷ es) (f ∷ fs) = Collides e f ⊎ SomeCollide es fs

  module _ (laws : CryptoLaws x) where
    same_text : (s t : String) → (s ≢ t) ⊎ (s ≡ t)
    same_text s t = elim (Bool-cases (s == t)) [
      | inl e ↦ inr ((eq_iff s t).0 e)
      | inr e ↦ inl (λ k. differ k e)
    ]
      where
        differ : s ≡ t → (s == t) ≡ false → ⊥
        differ k e = cc ((eq_iff s t).1 k)

    -- Equal hashes of two events, behind texts of one length, have equal parts, or collide.
    same_parts :
        (e f : Event)
        → calculate_event_hash x e.prev_hash (payload x e) ≡ ok e.current_hash
        → calculate_event_hash x f.prev_hash (payload x f) ≡ ok f.current_hash
        → Str.count e.prev_hash ≡ Str.count f.prev_hash
        → e.current_hash ≡ f.current_hash
        → Collides e f ⊎ ((e.prev_hash ≡ f.prev_hash) × SameContent e f)
    same_parts e f he hf long same =
        let (c, ce, se) = hash_shape x e.prev_hash (payload x e) he in
        let (d, cf, sf) = hash_shape x f.prev_hash (payload x f) hf in
        let digest : x.sha256 (Str.◌++◌ e.prev_hash c) ≡ x.sha256 (Str.◌++◌ f.prev_hash d) =
          hex_encode-inj _ _ (laws.digest_bytes _) (laws.digest_bytes _) (sym se ∙ same ∙ sf) in
        split c d ce cf digest (same_text (Str.◌++◌ e.prev_hash c) (Str.◌++◌ f.prev_hash d))
      where
        split :
            (c d : String)
            → canonical_json x (payload x e) ≡ ok c
            → canonical_json x (payload x f) ≡ ok d
            → x.sha256 (Str.◌++◌ e.prev_hash c) ≡ x.sha256 (Str.◌++◌ f.prev_hash d)
            → (Str.◌++◌ e.prev_hash c ≢ Str.◌++◌ f.prev_hash d)
              ⊎ (Str.◌++◌ e.prev_hash c ≡ Str.◌++◌ f.prev_hash d)
            → Collides e f ⊎ ((e.prev_hash ≡ f.prev_hash) × SameContent e f)
        split c d ce cf digest (inl k) = inl (record {
          left = c;
          right = d;
          left_content = ce;
          right_content = cf;
          different = k;
          same_digest = digest;
        })
        split c d ce cf digest (inr k) =
            let (p, q) = Text.append_inj k long in inr (p, ce ∙ ap ok q ∙ sym cf)

    module _ (s t : Signer) where
      rest_same :
          (e f : Event) (es fs : List Event)
          → Str.count e.current_hash ≡ 64
          → Str.count f.current_hash ≡ 64
          → IsChain x s (some e) es
          → IsChain x t (some f) fs
          → length es ≡ length fs
          → last_hash e es ≡ last_hash f fs
          → SomeCollide es fs ⊎ ((e.current_hash ≡ f.current_hash) × AllSame es fs)
      rest_same e f [] [] le lf c d n h = inr (h, tt)
      rest_same e f [] (f' ∷ fs) le lf c d n h = absurd (omega arith)
      rest_same e f (e' ∷ es) [] le lf c d n h = absurd (omega arith)
      rest_same e f (e' ∷ es) (f' ∷ fs) le lf (ce, ae, re) (cf, af, rf) n h = join (
          rest_same e' f' es fs (hash-count x laws e'.prev_hash (payload x e') ae.hashed)
            (hash-count x laws f'.prev_hash (payload x f') af.hashed) re rf (omega arith) h)
        where
          long : Str.count e'.prev_hash ≡ Str.count f'.prev_hash
          long = ap Str.count ce ∙ le ∙ sym (ap Str.count cf ∙ lf)

          linked :
              AllSame es fs
              → Collides e' f' ⊎ ((e'.prev_hash ≡ f'.prev_hash) × SameContent e' f')
              → SomeCollide (e' ∷ es) (f' ∷ fs)
                ⊎ ((e.current_hash ≡ f.current_hash) × AllSame (e' ∷ es) (f' ∷ fs))
          linked all (inl k) = inl (inl k)
          linked all (inr (p, c)) = inr (sym ce ∙ p ∙ cf, (c, all))

          join :
              SomeCollide es fs ⊎ ((e'.current_hash ≡ f'.current_hash) × AllSame es fs)
              → SomeCollide (e' ∷ es) (f' ∷ fs)
                ⊎ ((e.current_hash ≡ f.current_hash) × AllSame (e' ∷ es) (f' ∷ fs))
          join (inl k) = inl (inr k)
          join (inr (same, all)) = linked all (same_parts e' f' ae.hashed af.hashed long same)

      -- Two chains of the same number of events, verified under any two signers, whose last
      -- hashes are the same and whose first previous hashes have the same number of characters,
      -- have the same canonical content at every place, or at some place the two texts that
      -- were hashed for their events, the previous hash and the canonical content, are
      -- different and have one digest. A digest is 32 bytes.
      pub last_hash-AllSame :
          (e f : Event) (es fs : List Event)
          → IsChain x s none (e ∷ es)
          → IsChain x t none (f ∷ fs)
          → Str.count e.prev_hash ≡ Str.count f.prev_hash
          → length es ≡ length fs
          → last_hash e es ≡ last_hash f fs
          → SomeCollide (e ∷ es) (f ∷ fs) ⊎ AllSame (e ∷ es) (f ∷ fs)
      last_hash-AllSame e f es fs (_, ae, re) (_, af, rf) long n h = join (
          rest_same e f es fs (hash-count x laws e.prev_hash (payload x e) ae.hashed)
            (hash-count x laws f.prev_hash (payload x f) af.hashed) re rf n h)
        where
          first :
              AllSame es fs
              → Collides e f ⊎ ((e.prev_hash ≡ f.prev_hash) × SameContent e f)
              → SomeCollide (e ∷ es) (f ∷ fs) ⊎ AllSame (e ∷ es) (f ∷ fs)
          first all (inl k) = inl (inl k)
          first all (inr (p, c)) = inr (c, all)

          join :
              SomeCollide es fs ⊎ ((e.current_hash ≡ f.current_hash) × AllSame es fs)
              → SomeCollide (e ∷ es) (f ∷ fs) ⊎ AllSame (e ∷ es) (f ∷ fs)
          join (inl k) = inl (inr k)
          join (inr (same, all)) = first all (same_parts e f ae.hashed af.hashed long same)
