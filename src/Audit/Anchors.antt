-- ===== src/Audit/Anchors.antt =====
-- internal/ledger/audit/verify.go: the anchors that the events of a run claim, against the live ones.
use logryph.Base.{
  ℕ, suc, ◌≡◌, ◌↔◌, ◌⊎◌, refl, subst, Bool, true, false, ◌||◌, Option, none, some, List, [], ◌∷◌,
  String, ◌==◌, if◌then◌else◌, leb, length, eq_iff, eq_refl, Bool-cases, inl, inr,
}
use logryph.Base.Result.{Error, message}
use logryph.Base.Exec.{Exec, pure, lift, with_context_in, ◌>>=◌, ◌>>◌}
use logryph.Assert.{check}
use logryph.Json.{Value, text, float64, get}
use logryph.Event.{Event, Map}
use logryph.Genesis.{Anchor}

pub record AnchorVerificationResult : Type 0 where
  pub valid : Bool
  pub anchors_checked : ℕ
  pub error_message : Option Error

-- `m[k]` of a map that may be nil
pub get_in : String → Map → Option Value
get_in k none = none
get_in k (some m) = get k m

-- `live` is FetchBitcoinAnchorAtHeight, and `to_uint64` the conversion of a float64.
module _ (live : ℕ → Option Anchor) (to_uint64 : ℕ → ℕ) where
  claim : Option Value → Option Value → Option (String × ℕ)
  claim (some (text hash)) (some (float64 height)) = some (hash, to_uint64 height)
  claim _ _ = none

  -- The hash and the height that a genesis or anchor event carries, if both have their types.
  unfoldable pub claim_of : Event → Option (String × ℕ)
  unfolding claim get_in
  claim_of e =
      if (e.event_type == "genesis") || (e.event_type == "anchor")
      then claim (get_in "anchor_hash" e.params) (get_in "anchor_height" e.params)
      else none

  refused : ℕ → Error → AnchorVerificationResult
  refused n e = record { valid = false; anchors_checked = n; error_message = some e }

  compare_live : ℕ → String → Option Anchor → AnchorVerificationResult → AnchorVerificationResult
  unfolding refused
  compare_live n hash none rest = refused n (message "failed to verify anchor")
  compare_live n hash (some a) rest =
      if a.block_hash == hash then rest else refused n (message "anchor mismatch")

  check_claim : ℕ → Option (String × ℕ) → (ℕ → AnchorVerificationResult) → AnchorVerificationResult
  unfolding compare_live
  check_claim n none rest = rest n
  check_claim n (some c) rest = compare_live (suc n) (c.0) (live (c.1)) (rest (suc n))

  -- The loop, after `n` anchors
  unfoldable pub check_anchors : List Event → ℕ → AnchorVerificationResult
  unfolding check_claim
  check_anchors [] n = record { valid = true; anchors_checked = n; error_message = none }
  check_anchors (e ∷ es) n = check_claim n (claim_of e) (check_anchors es)

  -- `VerifyAnchors`
  unfoldable pub verify_anchors {ℓ} :
      {S : Type ℓ}
      → Bool
      → (String → Exec S (List Event))
      → String
      → Exec S AnchorVerificationResult
  verify_anchors strict get_all_events run_id = do
    events ← with_context_in "failed to get events for anchor verification" (get_all_events run_id)
    lift (check strict (leb (length events) 100000) "anchor events exceed max")
    pure (check_anchors events 0)

  -- A live anchor of the claimed height has the claimed hash.
  abbrev pub IsLive : Option (String × ℕ) → Type 0
  IsLive none = Unit
  IsLive (some c) = (a : Anchor) × (live (c.1) ≡ some a) × (a.block_hash ≡ c.0)

  abbrev pub AllClaimsLive : List Event → Type 0
  AllClaimsLive [] = Unit
  AllClaimsLive (e ∷ es) = IsLive (claim_of e) × AllClaimsLive es

  -- If the event is a genesis or an anchor event with a hash and a height, the live anchor of
  -- that height is there and has that hash.
  abbrev pub IsConfirmed : Event → Type 0
  IsConfirmed e =
      (e.event_type ≡ "genesis") ⊎ (e.event_type ≡ "anchor")
      → (hash : String) (height : ℕ) → get_in "anchor_hash" e.params ≡ some (text hash)
      → get_in "anchor_height" e.params ≡ some (float64 height)
      → (a : Anchor) × (live (to_uint64 height) ≡ some a) × (a.block_hash ≡ hash)

  abbrev pub AllLive : List Event → Type 0
  AllLive [] = Unit
  AllLive (e ∷ es) = IsConfirmed e × AllLive es

  compare_live-valid :
      (n : ℕ) (hash : String) (o : Option Anchor) (rest : AnchorVerificationResult)
      → (compare_live n hash o rest).valid ≡ true
      → ((a : Anchor) × (o ≡ some a) × (a.block_hash ≡ hash)) × (rest.valid ≡ true)
  unfolding compare_live refused
  compare_live-valid n hash none rest h = cc
  compare_live-valid n hash (some a) rest h = elim (Bool-cases (a.block_hash == hash)) [
    | inl e ↦ (
      (a, refl, (eq_iff a.block_hash hash).0 e),
      subst (λ b. (if b then rest else refused n (message "anchor mismatch")).valid ≡ true) e h,
    )
    | inr e ↦ absurd (
        no (
          subst (λ b. (if b then rest else refused n (message "anchor mismatch")).valid ≡ true) e
            h))
  ]
    where
      no : false ≡ true → ⊥
      no k = cc

  check_claim-valid :
      (n : ℕ) (c : Option (String × ℕ)) (rest : ℕ → AnchorVerificationResult)
      → (check_claim n c rest).valid ≡ true
      → IsLive c × ((m : ℕ) × ((rest m).valid ≡ true))
  unfolding check_claim
  check_claim-valid n none rest h = (tt, (n, h))
  check_claim-valid n (some c) rest h =
      let (l, k) = compare_live-valid (suc n) (c.0) (live (c.1)) (rest (suc n)) h in (l, (suc n, k))

  check_claim-live :
      (n : ℕ) (c : Option (String × ℕ)) (rest : ℕ → AnchorVerificationResult)
      → IsLive c
      → ((m : ℕ) → (rest m).valid ≡ true)
      → (check_claim n c rest).valid ≡ true
  unfolding check_claim compare_live
  check_claim-live n none rest h k = k n
  check_claim-live n (some c) rest (a, l, e) k = rw (l, e, eq_refl (c.0)) (k (suc n))

  sound : (es : List Event) (n : ℕ) → (check_anchors es n).valid ≡ true → AllClaimsLive es
  unfolding check_anchors
  sound [] n h = tt
  sound (e ∷ es) n h =
      let (l, (m, k)) = check_claim-valid n (claim_of e) (check_anchors es) h in (l, sound es m k)

  complete : (es : List Event) (n : ℕ) → AllClaimsLive es → (check_anchors es n).valid ≡ true
  unfolding check_anchors
  complete [] n h = refl
  complete (e ∷ es) n h =
      check_claim-live n (claim_of e) (check_anchors es) h.0 (λ m. complete es m h.1)

  is_anchored :
      (s : String) → (s ≡ "genesis") ⊎ (s ≡ "anchor") → ((s == "genesis") || (s == "anchor")) ≡ true
  is_anchored s (inl e) = rw e refl
  is_anchored s (inr e) = rw e refl

  pub IsLive-Confirmed : (e : Event) → IsLive (claim_of e) → IsConfirmed e
  unfolding claim_of claim
  IsLive-Confirmed e h kind hash height p q = rw (is_anchored e.event_type kind, p, q) at h

  claims_live :
      (o u : Option Value)
      → ((hash : String) (height : ℕ)
          → o ≡ some (text hash)
          → u ≡ some (float64 height)
          → (a : Anchor) × (live (to_uint64 height) ≡ some a) × (a.block_hash ≡ hash))
      → IsLive (claim o u)
  unfolding claim
  claims_live (some (text hash)) (some (float64 height)) h = h hash height refl refl
  claims_live _ _ h = tt

  Confirmed-IsLive : (e : Event) → IsConfirmed e → IsLive (claim_of e)
  unfolding claim_of
  Confirmed-IsLive e h = elim (Bool-cases (e.event_type == "genesis")) [
    | inl k ↦ rw k (claims_live _ _ (h (inl ((eq_iff e.event_type "genesis").0 k))))
    | inr k ↦ elim (Bool-cases (e.event_type == "anchor")) [
      | inl l ↦ rw (k, l) (claims_live _ _ (h (inr ((eq_iff e.event_type "anchor").0 l))))
      | inr l ↦ rw (k, l) tt
    ]
  ]

  AllClaimsLive-AllLive : (es : List Event) → AllClaimsLive es → AllLive es
  AllClaimsLive-AllLive [] h = tt
  AllClaimsLive-AllLive (e ∷ es) h = (IsLive-Confirmed e h.0, AllClaimsLive-AllLive es h.1)

  AllLive-AllClaimsLive : (es : List Event) → AllLive es → AllClaimsLive es
  AllLive-AllClaimsLive [] h = tt
  AllLive-AllClaimsLive (e ∷ es) h = (Confirmed-IsLive e h.0, AllLive-AllClaimsLive es h.1)

  -- The loop of `VerifyAnchors` says that the events are valid exactly if, for each genesis or
  -- anchor event that carries a hash and a height of the right types, the live anchor of that
  -- height is there and has that hash.
  pub check_anchors_iff : (es : List Event) → ((check_anchors es 0).valid ≡ true) ↔ AllLive es
  check_anchors_iff es = (
    λ h. AllClaimsLive-AllLive es (sound es 0 h),
    λ h. complete es 0 (AllLive-AllClaimsLive es h),
  )
