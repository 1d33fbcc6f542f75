-- ===== src/Audit/Fetch.antt =====
-- internal/ledger/audit/anchor.go and verify.go: the requests for the latest Bitcoin block and for
-- the block of a height. A call asks each address at most once, so what the network answers during
-- a call is a function of the address.
use logryph.Base.{ℕ, Option, none, some, String, nat_eq, if◌then◌else◌}
use logryph.Base.Result.{Error, message, wrapped, Result, ok, err, panic, with_context, ◌>>=◌, ◌>>◌}
use logryph.Genesis.{Anchor}

-- `close_error` is what closing the body returns.
pub record Response : Type 0 where
  pub status_code : ℕ
  pub body : String
  pub close_error : Option Error

-- What the libraries read and write.
pub record Web : Type 0 where
  -- `fmt.Sprintf("https://blockstream.info/api/block-height/%d", height)`
  pub block_url : ℕ → String
  -- `json.NewDecoder(body).Decode(&height)` and `fmt.Fscan(body, &hash)`
  pub decode_height : String → Result ℕ
  pub scan_hash : String → Result String

abbrev pub tip_url : String
tip_url = "https://blockstream.info/api/blocks/tip/height"

-- `closeBody`
unfoldable pub close_body : Option Error → Result (Unit {0})
close_body none = ok tt
close_body (some e) = err (wrapped "closing response" e)

-- An error of the call; where closing the body fails too, that error is the one that is wrapped.
unfoldable pub fail_closing {ℓ} : {A : Type ℓ} → String → Option Error → Error → Result A
fail_closing context none e = err e
fail_closing context (some c) e = err (wrapped context (wrapped "closing response" c))

unfoldable pub check_status : Response → Result (Unit {0})
unfolding fail_closing
check_status r =
    if nat_eq r.status_code 200
    then ok tt
    else fail_closing "blockstream api error" r.close_error (message "blockstream api error")

-- What was read of a body, which is closed.
unfoldable pub then_close {ℓ} :
    {A : Type ℓ} → String → (Error → Error) → Response → Result A → Result A
unfolding fail_closing close_body
then_close context named r (ok a) = close_body r.close_error >> ok a
then_close context named r (err e) = fail_closing context r.close_error (named e)
then_close context named r (panic e) = panic e

module _ (web : Web) where
  open web use {decode_height, scan_hash}

  unfoldable pub read_height : Response → Result ℕ
  unfolding then_close
  read_height r =
      then_close "decoding height" (λ e. wrapped "decoding height" e) r (decode_height r.body)

  unfoldable pub read_hash : Response → Result String
  unfolding then_close
  read_hash r = then_close "reading block hash" (λ e. e) r (scan_hash r.body)

-- `http.Client.Get` and `time.Now`
module _ (web : Web) (get : String → Result Response) (now : ℕ) where
  open web use {block_url}

  abbrev pub anchor_of : ℕ → String → Anchor
  anchor_of height hash = record {
    source = "bitcoin-mainnet";
    block_height = height;
    block_hash = hash;
    timestamp = now;
  }

  -- `FetchBitcoinAnchor`; the status of its second response is not looked at.
  unfoldable pub fetch_bitcoin_anchor : Result Anchor
  unfolding check_status read_height read_hash
  fetch_bitcoin_anchor = do
    resp ← with_context "fetching tip height" (get tip_url)
    check_status resp
    height ← read_height web resp
    resp2 ← with_context "fetching block hash" (get (block_url height))
    hash ← read_hash web resp2
    ok (anchor_of height hash)

  -- `FetchBitcoinAnchorAtHeight`
  unfoldable pub fetch_bitcoin_anchor_at_height : ℕ → Result Anchor
  unfolding check_status read_hash
  fetch_bitcoin_anchor_at_height height = do
    resp ← with_context "fetching block hash" (get (block_url height))
    check_status resp
    hash ← read_hash web resp
    ok (anchor_of height hash)
