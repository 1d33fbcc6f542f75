-- ===== src/Api/Rekey.antt =====
-- internal/api/handlers.go: who may rotate the key, and what an answer says of it.
use logryph.Base.{
  ℕ, ◌≡◌, ◌≢◌, ◌⊎◌, inl, inr, refl, sym, subst, Bool, true, false, not, ◌&&◌, Bool-cases, Option,
  arith, String, ◌==◌, eq_iff, is_set,
}
use logryph.Base.Result.{Error, Result, ok, err, panic}
use logryph.Base.Post.{Post}
use logryph.Externals.{Externals, Bytes}
use logryph.Crypto.{Signer, get_public_key}
use logryph.Crypto.Keys.{Disk, new_signer, rotate_key, KeyLaws}
use logryph.Crypto.Saved.{rotate_key-new_signer}
use logryph.Api.{Response, AdminRequest, handle_rekey, rekey, rekey_response}

-- A POST request with the token, if there is one.
abbrev pub IsAllowed : String → AdminRequest → Type 0
IsAllowed expected r =
    (r.method ≡ "POST") × ((is_set expected ≡ false) ⊎ (r.admin_token ≡ expected))

module _ (x : Externals) (generate : ℕ → Option (Bytes × Bytes)) (show_error : Error → String)
    (laws : KeyLaws x generate) (expected : String) (r : AdminRequest) (s : Signer) (d : Disk) where
  -- The key was rotated, and the next start loads the new one.
  abbrev pub IsRotated : Response × (Signer × Disk) → Type 0
  IsRotated (a, (t, e)) =
      (a.status ≡ 200) × IsAllowed expected r × (new_signer x generate ".logryph_key" e ≡ (ok t, e))

  -- The signer is as before; so are the files, if the request is not allowed.
  abbrev pub IsKept : Response × (Signer × Disk) → Type 0
  IsKept (a, (t, e)) = (a.status ≢ 200) × (t ≡ s) × (¬ IsAllowed expected r → e ≡ d)

  rekeyed :
      IsAllowed expected r
      → (o : Result (String × String) × (Signer × Disk))
      → Post
          (λ keys t.
            (keys ≡ (get_public_key s, get_public_key t.0))
            × (new_signer x generate ".logryph_key" t.1 ≡ (ok (t.0), t.1)))
          (λ t. t.0 ≡ s)
          o
      → IsRotated (rekey_response x generate show_error o.0, o.1)
        ⊎ IsKept (rekey_response x generate show_error o.0, o.1)
  unfolding rekey_response
  rekeyed a (ok keys, t) h = inl (refl, a, h.1)
  rekeyed a (err e, t) h = inr (λ k. omega arith, h, λ no. absurd (no a))
  rekeyed a (panic e, t) h = inr (λ k. omega arith, h, λ no. absurd (no a))

  abbrev Answers : Response × (Signer × Disk) → Type 0
  Answers o = IsRotated o ⊎ IsKept o

  refuses :
      (status : ℕ) (body : String)
      → status ≢ 200
      → Answers (record { status = status; body = body }, (s, d))
  refuses status body n = inr (n, refl, λ no. refl)

  by_token :
      (r.method == "POST") ≡ true
      → (b : Bool) → (is_set expected && not (r.admin_token == expected)) ≡ b
      → Answers (handle_rekey x generate show_error expected r (s, d))
  unfolding handle_rekey rekey
  by_token m true e =
      let refused : handle_rekey x generate show_error expected r (s, d)
          ≡ (record { status = 401; body = "Unauthorized" }, (s, d)) =
        rw (m, e) refl in
      subst Answers (sym refused) (refuses 401 "Unauthorized" (λ k. omega arith))
  by_token m false e =
      let rotates : handle_rekey x generate show_error expected r (s, d)
          ≡ rekey x generate show_error (s, d) =
        rw (m, e) refl in
      subst Answers (sym rotates) (
        rekeyed ((eq_iff r.method "POST").0 m, token (is_set expected) refl e)
          (rotate_key x generate ".logryph_key" (s, d))
          (rotate_key-new_signer x generate laws ".logryph_key" s d))
    where
      token :
          (b : Bool)
          → is_set expected ≡ b
          → (is_set expected && not (r.admin_token == expected)) ≡ false
          → (is_set expected ≡ false) ⊎ (r.admin_token ≡ expected)
      token false u k = inl u
      token true u k =
          inr ((eq_iff r.admin_token expected).0 (same (r.admin_token == expected) (rw u at k)))
        where
          same : (b : Bool) → not b ≡ false → b ≡ true
          same true h = refl
          same false h = cc

  -- `HandleRekey` answers 200 only to a POST request with the admin token, if one is set, and
  -- then the next start loads the rotated signer; with any other answer the signer keeps its
  -- keys, and the files are as before where the request is not allowed. Generated keys are 64
  -- bytes, with their public key.
  pub handle_rekey-IsRotated :
      IsRotated (handle_rekey x generate show_error expected r (s, d))
      ⊎ IsKept (handle_rekey x generate show_error expected r (s, d))
  unfolding handle_rekey
  handle_rekey-IsRotated = elim (Bool-cases (r.method == "POST")) [
    | inl m ↦ by_token m _ refl
    | inr m ↦
        let refused : handle_rekey x generate show_error expected r (s, d)
            ≡ (record { status = 405; body = "Method not allowed" }, (s, d)) =
          rw m refl in
        subst Answers (sym refused) (refuses 405 "Method not allowed" (λ k. omega arith))
  ]
