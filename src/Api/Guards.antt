-- ===== src/Api/Guards.antt =====
-- When the signing functions of the bank, staking and governance APIs reach the wallet.
use likedao.Common.{
  ℕ, ◌≡◌, true, false, Option, List, [], ◌∷◌, String, Result, ok, err, error, ◌>>=◌, throw_if,
  throw_if->>=, if◌then◌else◌,
}
use likedao.Message.{
  Coin, EncodeObject, ProposalType, ProposalContentBody, new_send_message, new_delegate_message,
  make_deposit_message, make_submit_proposal_message,
}
use likedao.Amount.{convert_round_trip, is_less_than-convert}
use likedao.Chain.{Bytes, Session, connected, connected_address}
use likedao.Api.Cosmos.{sign_tx}
use likedao.Api.Bank.{to_token, to_minimal, minimal_coin, get_balance, sign_send_token_tx}
use likedao.Api.Staking.{sign_delegate_token_tx}
use likedao.Api.Gov.{sign_deposit_proposal_tx, sign_submit_proposal_tx}

-- What spending is meant to do, in the chain's own units: an amount that the chain's balance does
-- not cover is refused, and any other goes to the wallet as the given message.
abbrev pub spend :
    (s : Session) → Coin → s.numbers.BigNumber → EncodeObject → Option String → Result Bytes
spend s raw amount message memo =
    elim (s.numbers.is_less_than (s.numbers.of_string raw.amount) (to_minimal s amount)) [
      | true ↦ err (error "Insufficient funds")
      | false ↦ sign_tx s (message ∷ []) memo
    ]

module _ (s : Session) (address : String) (raw : Coin) (memo : Option String)
    (is_connected : s.wallet ≡ connected address)
    (answered : s.query.bank_balance address s.chain.currency.coin_minimal_denom ≡ ok raw) where
  reached : connected_address s.wallet ≡ ok address
  unfolding connected_address
  reached = rw is_connected

  -- the balance that the bank API gives is the raw one, in tokens
  get_balance-answered :
      get_balance s
      ≡ ok (record {
        denom = s.chain.currency.coin_denom;
        amount = to_token s (s.numbers.of_string raw.amount);
      })
  unfolding get_balance
  get_balance-answered = simp (reached, answered)

  guarded :
      (amount : s.numbers.BigNumber) (message : EncodeObject)
      → (throw_if
            (s.numbers.is_less_than (s.numbers.of_string raw.amount) (to_minimal s amount))
            "Insufficient funds"
          >>= λ _. sign_tx s (message ∷ []) memo)
        ≡ spend s raw amount message memo
  guarded amount message =
      throw_if->>= (s.numbers.is_less_than (s.numbers.of_string raw.amount) (to_minimal s amount))
        "Insufficient funds" (sign_tx s (message ∷ []) memo)

  sign_send_token_tx-eq-spend :
      (recipent amount : String)
      → sign_send_token_tx s recipent amount memo
        ≡ spend s raw
            (s.numbers.of_string amount)
            (new_send_message address recipent (minimal_coin s (s.numbers.of_string amount) ∷ []))
            memo
  unfolding sign_send_token_tx
  sign_send_token_tx-eq-spend recipent amount =
      simp
        (
          reached,
          answered,
          (convert_round_trip s.numbers s.chain.currency.coin_decimals
              (s.numbers.of_string raw.amount)).1,
        )
        (guarded (s.numbers.of_string amount) _)

  sign_delegate_token_tx-eq-spend :
      (validator amount : String)
      → sign_delegate_token_tx s validator amount memo
        ≡ spend s raw
            (s.numbers.of_string amount)
            (new_delegate_message address validator (minimal_coin s (s.numbers.of_string amount)))
            memo
  unfolding sign_delegate_token_tx
  sign_delegate_token_tx-eq-spend validator amount =
      simp
        (
          reached,
          get_balance-answered,
          is_less_than-convert s.numbers s.chain.currency.coin_decimals
              (s.numbers.of_string raw.amount) (s.numbers.of_string amount),
        )
        (guarded (s.numbers.of_string amount) _)

  sign_deposit_proposal_tx-eq-spend :
      (proposal_id : ℕ) (amount : s.numbers.BigNumber)
      → sign_deposit_proposal_tx s proposal_id amount memo
        ≡ spend s raw amount
            (make_deposit_message proposal_id address (minimal_coin s amount ∷ []))
            memo
  unfolding sign_deposit_proposal_tx
  sign_deposit_proposal_tx-eq-spend proposal_id amount =
      simp
        (
          reached,
          get_balance-answered,
          is_less_than-convert s.numbers s.chain.currency.coin_decimals
              (s.numbers.of_string raw.amount) amount,
        )
        (guarded amount _)

  -- the deposit that comes with a proposal: no coin at all for the amount 0
  abbrev initial_coins : s.numbers.BigNumber → List Coin
  initial_coins amount = if s.numbers.is_zero amount then [] else minimal_coin s amount ∷ []

  sign_submit_proposal_tx-eq-spend :
      {P : Type 0} (encode : ProposalType → P → List ℕ) (body : ProposalContentBody P)
      (amount : s.numbers.BigNumber)
      → sign_submit_proposal_tx s encode body amount memo
        ≡ spend s raw amount
            (make_submit_proposal_message encode body (initial_coins amount) address)
            memo
  unfolding sign_submit_proposal_tx
  sign_submit_proposal_tx-eq-spend encode body amount =
      simp
        (
          reached,
          get_balance-answered,
          is_less_than-convert s.numbers s.chain.currency.coin_decimals
              (s.numbers.of_string raw.amount) amount,
        )
        (guarded amount _)

  -- For a connected wallet whose balance on chain is `raw`: sending and delegating an amount of
  -- tokens are refused with "Insufficient funds" when `raw` is below the amount in minimal units, and
  -- are otherwise signed as one message that carries the amount in minimal units.
  pub sign_tokens-eq-spend :
      (party amount : String)
      → let parsed = s.numbers.of_string amount in
        (sign_send_token_tx s party amount memo
          ≡ spend s raw parsed (new_send_message address party (minimal_coin s parsed ∷ [])) memo)
        × (sign_delegate_token_tx s party amount memo
            ≡ spend s raw parsed (new_delegate_message address party (minimal_coin s parsed)) memo)
  sign_tokens-eq-spend party amount =
      (sign_send_token_tx-eq-spend party amount, sign_delegate_token_tx-eq-spend party amount)

  -- For a connected wallet whose balance on chain is `raw`: a deposit on a proposal and a new
  -- proposal with its initial deposit are refused with "Insufficient funds" when `raw` is below
  -- the deposit in minimal units, and are otherwise signed as one message with that deposit; a new
  -- proposal carries no coin when the deposit is 0.
  pub sign_deposits-eq-spend :
      {P : Type 0} (encode : ProposalType → P → List ℕ) (body : ProposalContentBody P)
      (proposal_id : ℕ) (amount : s.numbers.BigNumber)
      → (sign_deposit_proposal_tx s proposal_id amount memo
          ≡ spend s raw amount
              (make_deposit_message proposal_id address (minimal_coin s amount ∷ []))
              memo)
        × (sign_submit_proposal_tx s encode body amount memo
            ≡ spend s raw amount
                (make_submit_proposal_message encode body
                  (if s.numbers.is_zero amount then [] else minimal_coin s amount ∷ [])
                  address)
                memo)
  sign_deposits-eq-spend encode body proposal_id amount = (
    sign_deposit_proposal_tx-eq-spend proposal_id amount,
    sign_submit_proposal_tx-eq-spend encode body amount,
  )
