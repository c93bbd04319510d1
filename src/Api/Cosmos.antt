-- ===== src/Api/Cosmos.antt =====
-- react-app/src/api/cosmosAPI.ts, and `translateAddress` of react-app/src/utils/address.ts.
use likedao.Common.{
  ℕ, ◌+◌, ◌*◌, ◌/◌, not, Option, List, String, Result, ok, ◌>>=◌, ◌>>◌, throw_if, ◌==◌, or_else,
}
use likedao.Message.{EncodeObject}
use likedao.Chain.{
  Bytes, DeliverTxResponse, SignDataMessageResponse, Session, Bech32, connected_address,
}

-- `Math.round(usedGas * 1.3)`, exact: the rounding of the binary 1.3 does not show below 2^50
abbrev pub gas_limit : ℕ → ℕ
gas_limit used_gas = (used_gas * 13 + 5) / 10

module _ (s : Session) where
  unfoldable pub sign_tx : List EncodeObject → Option String → Result Bytes
  unfolding connected_address
  sign_tx messages memo = do
    address ← connected_address s.wallet
    used_gas ← s.signer.simulate address messages memo
    let fee = s.signer.calculate_fee (gas_limit used_gas) s.chain.gas_price
    tx ← s.signer.sign address messages fee (or_else memo "")
    ok (s.signer.encode_tx tx)

  unfoldable pub broadcast_tx : Bytes → Result DeliverTxResponse
  unfolding connected_address
  broadcast_tx tx = do
    connected_address s.wallet
    res ← s.signer.broadcast_tx tx
    throw_if (not (res.code == 0)) res.raw_log
    ok res

  unfoldable pub sign_arbitrary : String → Result SignDataMessageResponse
  unfolding connected_address
  sign_arbitrary text = do
    address ← connected_address s.wallet
    s.signer.sign_arbitrary address text

-- the same key under another prefix
unfoldable pub translate_address : Bech32 → String → String → Result String
translate_address codec address prefix = do
  normalized ← codec.normalize address
  decoded ← codec.from_bech32 normalized
  ok (codec.to_bech32 prefix decoded)
