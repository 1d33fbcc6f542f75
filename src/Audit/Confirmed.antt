-- ===== src/Audit/Confirmed.antt =====
-- internal/ledger/audit: an anchor that was fetched and recorded, against the live one.
use logryph.Base.{
  ℕ, ◌≡◌, refl, sym, ap, ◌∙◌, subst, true, false, ◌||◌, Option, none, some, List, [], ◌∷◌, String,
  ◌==◌, ◌⊎◌, inl, inr, nat_eq,
}
use logryph.Base.Result.{
  Error, message, wrapped, Result, ok, err, panic, bind-eq-ok, with_context-eq-ok, with_context,
  ok_injective,
}
use logryph.Json.{text, float64, uint64, opaque, Fields, get}
use logryph.Json.Put.{get-put_self, get-put_other}
use logryph.Event.{Event}
use logryph.Genesis.{Anchor, with_anchor}
use logryph.Audit.Anchors.{
  claim_of, check_anchors, check_anchors_iff, AllLive, IsLive, IsLive-Confirmed,
}
use logryph.Audit.Fetch.{
  Response, Web, check_status, fail_closing, read_height, read_hash, anchor_of, tip_url,
  fetch_bitcoin_anchor, fetch_bitcoin_anchor_at_height,
}

abbrev pub fetched? : Result Anchor → Option Anchor
fetched? (ok a) = some a
fetched? (err e) = none
fetched? (panic e) = none

-- The maps of an event and of what is read back of it from its JSON text.
pub record Decodes (of_uint64 : ℕ → ℕ) (m read : Fields) : Type 0 where
  pub text_kept : (k s : String) → get k m ≡ some (text s) → get k read ≡ some (text s)
  pub number_kept :
      (k : String) (n : ℕ) → get k m ≡ some (uint64 n) → get k read ≡ some (float64 (of_uint64 n))

with_anchor-hash :
    (a : Anchor) (m : Fields)
    → get "anchor_hash" (with_anchor (some a) m) ≡ some (text a.block_hash)
unfolding with_anchor
with_anchor-hash a m =
    get-put_other "anchor_time" "anchor_hash" (opaque a.timestamp) _ refl
    ∙ get-put_self "anchor_hash" (text a.block_hash) _

with_anchor-height :
    (a : Anchor) (m : Fields)
    → get "anchor_height" (with_anchor (some a) m) ≡ some (uint64 a.block_height)
unfolding with_anchor
with_anchor-height a m =
    get-put_other "anchor_time" "anchor_height" (opaque a.timestamp) _ refl
    ∙ get-put_other "anchor_hash" "anchor_height" (text a.block_hash) _ refl
    ∙ get-put_self "anchor_height" (uint64 a.block_height) _

fail_closing-err :
    (context : String) (o : Option Error) (why : Error)
    → (e : Error) × (fail_closing {A = Unit {0}} context o why ≡ err e)
unfolding fail_closing
fail_closing-err context none why = (why, refl)
fail_closing-err context (some c) why = (wrapped context (wrapped "closing response" c), refl)

check_status-err :
    (r : Response) → nat_eq r.status_code 200 ≡ false → (e : Error) × (check_status r ≡ err e)
unfolding check_status
check_status-err r status =
    let (e, closes) =
      fail_closing-err "blockstream api error" r.close_error (message "blockstream api error") in
    (e, rw status closes)

module _ (web : Web) where
  open web use {block_url}

  -- The hash of an anchor that was fetched is the one on the page of its height.
  fetch-page :
      (get : String → Result Response) (now : ℕ) {a : Anchor}
      → fetch_bitcoin_anchor web get now ≡ ok a
      → (r : Response) × (get (block_url a.block_height) ≡ ok r)
        × (read_hash web r ≡ ok a.block_hash)
  unfolding fetch_bitcoin_anchor
  fetch-page get now {a} h =
      let (r1, p1, q1) = bind-eq-ok (with_context "fetching tip height" (get tip_url)) _ h in
      let (u, p2, q2) = bind-eq-ok (check_status r1) _ q1 in
      let (height, p3, q3) = bind-eq-ok (read_height web r1) _ q2 in
      let (r2, p4, q4) =
        bind-eq-ok (with_context "fetching block hash" (get (block_url height))) _ q3 in
      let (hash, p5, q5) = bind-eq-ok (read_hash web r2) _ q4 in
      let same : anchor_of web get now height hash ≡ a = ok_injective q5 in
      (
        r2,
        subst (λ n. get (block_url n) ≡ ok r2) (ap (λ b. b.block_height) same)
            (with_context-eq-ok "fetching block hash" (get (block_url height)) p4),
        subst (λ s. read_hash web r2 ≡ ok s) (ap (λ b. b.block_hash) same) p5,
      )

  -- That page, with the status 200, is the live anchor.
  page-live :
      (get : String → Result Response) (now height : ℕ) (hash : String) (r : Response)
      → get (block_url height) ≡ ok r
      → r.status_code ≡ 200
      → read_hash web r ≡ ok hash
      → fetch_bitcoin_anchor_at_height web get now height ≡ ok (anchor_of web get now height hash)
  unfolding fetch_bitcoin_anchor_at_height check_status
  page-live get now height hash r page status read = rw (page, status, read) refl

  -- A page of another status is no live anchor, though its first word may have been recorded as
  -- the hash of an anchor that was fetched.
  pub page-not_live :
      (get : String → Result Response) (now height : ℕ) (r : Response)
      → get (block_url height) ≡ ok r
      → nat_eq r.status_code 200 ≡ false
      → fetched? (fetch_bitcoin_anchor_at_height web get now height) ≡ none
  unfolding fetch_bitcoin_anchor_at_height
  page-not_live get now height r page status =
      let (e, refuses) = check_status-err r status in rw (page, refuses) refl

  module _ (of_uint64 to_uint64 : ℕ → ℕ) (get : String → Result Response) (now : ℕ) where
    abbrev pub live : ℕ → Option Anchor
    live height = fetched? (fetch_bitcoin_anchor_at_height web get now height)

    -- A genesis or anchor event, as it is read back, of an anchor that was fetched before, and
    -- whose page is still the same and has the status 200.
    pub record IsRecorded (e : Event) : Type 0 where
      pub anchor : Anchor
      pub before : String → Result Response
      pub time : ℕ
      pub params : Fields
      pub read : Fields
      pub fetched : fetch_bitcoin_anchor web before time ≡ ok anchor
      pub same_page : get (block_url anchor.block_height) ≡ before (block_url anchor.block_height)
      pub found :
          (r : Response) → before (block_url anchor.block_height) ≡ ok r → r.status_code ≡ 200
      pub exact : to_uint64 (of_uint64 anchor.block_height) ≡ anchor.block_height
      pub decodes : Decodes of_uint64 (with_anchor (some anchor) params) read
      pub own_params : e.params ≡ some read
      pub own_type : (e.event_type == "genesis") || (e.event_type == "anchor") ≡ true

    -- An event of another type, or one that carries no anchor's hash.
    abbrev pub ClaimsNothing : Event → Type 0
    ClaimsNothing e = claim_of live to_uint64 e ≡ none

    abbrev pub AllRecorded : List Event → Type 0
    AllRecorded [] = Unit
    AllRecorded (e ∷ es) = (IsRecorded e ⊎ ClaimsNothing e) × AllRecorded es

    recorded-claim :
        (e : Event) (h : IsRecorded e)
        → claim_of live to_uint64 e ≡ some (h.anchor.block_hash, h.anchor.block_height)
    unfolding claim_of
    recorded-claim e h =
        let hash = h.decodes.text_kept "anchor_hash" _ (with_anchor-hash h.anchor h.params) in
        let height =
          h.decodes.number_kept "anchor_height" _ (with_anchor-height h.anchor h.params) in
        rw (h.own_type, h.own_params, hash, height, h.exact) refl

    recorded-live : (e : Event) → IsRecorded e → IsLive live to_uint64 (claim_of live to_uint64 e)
    recorded-live e h =
        let (r, page, read) = fetch-page h.before h.time h.fetched in
        subst (IsLive live to_uint64) (sym (recorded-claim e h)) (
          anchor_of web get now h.anchor.block_height h.anchor.block_hash,
          ap fetched? (page-live get now _ _ r (h.same_page ∙ page) (h.found r page) read),
          refl,
        )

    all-live : (es : List Event) → AllRecorded es → AllLive live to_uint64 es
    all-live [] h = tt
    all-live (e ∷ es) (inl r, rest) =
        (IsLive-Confirmed live to_uint64 e (recorded-live e r), all-live es rest)
    all-live (e ∷ es) (inr n, rest) = (
      IsLive-Confirmed live to_uint64 e (subst (IsLive live to_uint64) (sym n) tt),
      all-live es rest,
    )

    -- Where every event of a run that carries an anchor's hash and height was made of an anchor
    -- that `FetchBitcoinAnchor` returned, with a page of its height that had the status 200 and
    -- is still the same, and is read back from its JSON text with a height that a float64 holds
    -- exactly, the loop of `VerifyAnchors`, whose live anchors are those of
    -- `FetchBitcoinAnchorAtHeight`, says that the anchors are valid.
    pub check_anchors-AllRecorded :
        (es : List Event) → AllRecorded es → (check_anchors live to_uint64 es 0).valid ≡ true
    check_anchors-AllRecorded es h = (check_anchors_iff live to_uint64 es).1 (all-live es h)
