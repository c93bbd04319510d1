-- ===== src/Api/Bank.antt =====
-- react-app/src/api/bankAPI.ts
use likedao.Common.{
  Option, none, some, List, [], ◌∷◌, String, str_eq, find, Result, ok, ◌>>=◌, ◌>>◌, throw_if,
}
use likedao.Message.{Coin, new_send_message}
use likedao.Amount.{BigNumberCoin, convert_minimal_token_to_token, convert_token_to_minimal_token}
use likedao.Chain.{Bytes, Session, connected_address}
use likedao.Api.Cosmos.{sign_tx}

module _ (s : Session) where
  open s.numbers use {BigNumber, of_string, big_zero, is_less_than, to_fixed}

  -- the conversions at the configured number of decimals
  abbrev pub to_token : BigNumber → BigNumber
  to_token = convert_minimal_token_to_token s.numbers s.chain.currency.coin_decimals

  abbrev pub to_minimal : BigNumber → BigNumber
  to_minimal = convert_token_to_minimal_token s.numbers s.chain.currency.coin_decimals

  -- `new BigNumber(coin?.amount ?? 0)`
  abbrev pub amount_or_zero : Option Coin → BigNumber
  amount_or_zero none = big_zero
  amount_or_zero (some coin) = of_string coin.amount

  -- `coins.find((c) => c.denom === CoinMinimalDenom)`
  abbrev pub find_minimal : List Coin → Option Coin
  find_minimal = find (λ c. str_eq c.denom s.chain.currency.coin_minimal_denom)

  -- an amount of tokens, as a coin of a message
  abbrev pub minimal_coin : BigNumber → Coin
  minimal_coin amount = record {
    denom = s.chain.currency.coin_minimal_denom;
    amount = to_fixed (to_minimal amount);
  }

  unfoldable pub get_address_balance : String → Result (BigNumberCoin BigNumber)
  get_address_balance address = do
    balance ← s.query.bank_balance address s.chain.currency.coin_minimal_denom
    ok (record {
      denom = s.chain.currency.coin_denom;
      amount = to_token (of_string balance.amount);
    })

  unfoldable pub get_total_supply : Result (BigNumberCoin BigNumber)
  get_total_supply = do
    supply_all_denom ← s.query.bank_total_supply
    ok (record {
      denom = s.chain.currency.coin_minimal_denom;
      amount = amount_or_zero (find_minimal supply_all_denom);
    })

  unfoldable pub get_balance : Result (BigNumberCoin BigNumber)
  unfolding connected_address get_address_balance
  get_balance = do address ← connected_address s.wallet; get_address_balance address

  unfoldable pub sign_send_token_tx : String → String → Option String → Result Bytes
  unfolding connected_address get_balance new_send_message
  sign_send_token_tx recipent amount memo = do
    address ← connected_address s.wallet
    let coin_amount = to_minimal (of_string amount)
    balance ← get_balance
    let coin_balance = to_minimal balance.amount
    throw_if (is_less_than coin_balance coin_amount) "Insufficient funds"
    let coin : Coin = record {
      denom = s.chain.currency.coin_minimal_denom;
      amount = to_fixed coin_amount;
    }
    sign_tx s (new_send_message address recipent (coin ∷ []) ∷ []) memo
