-- ===== src/Transaction/Openers.antt =====
-- The modals of the screens that submit transactions: openStakeTokenModal and
-- openUnstakeTokenModal of react-app/src/components/ValidatorDetailScreen/ValidatorDetailScreen.tsx,
-- and the state of components/CreateProposalScreen/CreateProposalScreen.tsx. Each handler also says
-- whether it asks to connect a wallet.
use likedao.Common.{Bool, true, false, Option, none, some, Result, ok, err, ◌≡◌, refl, String}
use likedao.Amount.{BigNumberCoin}
use likedao.Chain.{Wallet, connecting, idle, connected}
use likedao.Transaction.Modals.{user_balance}

pub data ValidatorDetailModal : Type 0 where
  stake_modal unstake_modal : ValidatorDetailModal

-- `openConnectWalletModal?.()` does nothing where the wallet is connecting, which has none
abbrev pub asks_wallet : Wallet → Bool
asks_wallet connecting = false
asks_wallet idle = true
asks_wallet (connected address) = false

unfoldable pub open_token_modal :
    Wallet → ValidatorDetailModal → Option ValidatorDetailModal → Option ValidatorDetailModal × Bool
open_token_modal connecting modal active = (active, asks_wallet connecting)
open_token_modal idle modal active = (active, asks_wallet idle)
open_token_modal (connected address) modal active = (some modal, asks_wallet (connected address))

-- `V` are the values of the form for a new proposal
pub record CreateProposalState (V B : Type 0) : Type 0 where
  pub is_submission_modal_active : Bool
  pub create_proposal_form_values : Option V
  pub minimum_deposit : B

module _ {V B : Type 0} where
  unfoldable pub on_close_modal : CreateProposalState V B → CreateProposalState V B
  on_close_modal s = record s { is_submission_modal_active = false }

  unfoldable pub on_submit_create_proposal :
      Wallet → V → CreateProposalState V B → CreateProposalState V B × Bool
  on_submit_create_proposal connecting values s = (s, asks_wallet connecting)
  on_submit_create_proposal idle values s = (s, asks_wallet idle)
  on_submit_create_proposal (connected address) values s = (
    record s { create_proposal_form_values = some values; is_submission_modal_active = true },
    asks_wallet (connected address),
  )

  -- what follows the answer of `getMinDepositParams`
  unfoldable pub on_min_deposit :
      Result (BigNumberCoin B) → CreateProposalState V B → CreateProposalState V B
  on_min_deposit (ok deposit) s = record s { minimum_deposit = deposit.amount }
  on_min_deposit (err e) s = s

  -- the modal for the deposit: its available tokens, the required deposit and the values
  unfoldable pub shown_submission : B → B → Wallet → CreateProposalState V B → Option (B × B × V)
  unfolding user_balance
  shown_submission zero balance wallet s = elim s.is_submission_modal_active [
    | false ↦ none
    | true ↦ elim s.create_proposal_form_values [
      | none ↦ none
      | some values ↦ some (user_balance zero balance wallet, s.minimum_deposit, values)
    ]
  ]

-- A submission of the form shows the modal with its values for a connected wallet, whose balance is available.
submitted_shown :
    {V B : Type 0} (zero balance : B) (address : String) (values : V) (s : CreateProposalState V B)
    → shown_submission zero balance
        (connected address)
        (on_submit_create_proposal (connected address) values s).0
      ≡ some (balance, s.minimum_deposit, values)
unfolding shown_submission on_submit_create_proposal user_balance
submitted_shown zero balance address values s = refl
