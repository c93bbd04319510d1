-- ===== src/Clients.antt =====
-- react-app/src/clients/walletConnectClient.ts and keplrClient.ts: the connection to a wallet, and
-- the signing of a text. The packages @walletconnect/client and bech32, the JSON functions and the
-- browser extension are parameters.
pub mod Stored
pub mod Reconnect
use likedao.Common.{
  ℕ, zero, suc, Bool, true, false, not, ◌||◌, Option, none, some, List, [], ◌∷◌, String, str_eq,
  str_append, if◌then◌else◌, error, Result, ok, err, ◌>>=◌, ◌>>◌, throw_if,
}
use likedao.Message.{SignDoc, new_sign_data_message}
use likedao.Chain.{Bytes, SignDataMessageResponse}

-- what the wallet answers; a missing field is the empty text
pub record HexAccount : Type 0 where
  pub address : String
  pub algo : String
  pub pub_key : String

-- `connector.connected` with its `peerId`, and the local storage
pub record Connector : Type 0 where
  pub session : Option String
  pub storage : List (String × String)

-- the answers to the n-th attempt of a connection, and the functions that the code calls;
-- `get_accounts` is the first of the answered accounts
pub record WalletConnectLib : Type 0 where
  pub open_session : ℕ → Result String
  pub get_accounts : ℕ → Result (Option HexAccount)
  pub kill_session : ℕ → Result (Unit {0})
  pub stringify : Option HexAccount → String
  pub parse : String → Result (Option HexAccount)
  pub encode : String → String → Result String
  pub hex_bytes : String → Bytes
  pub connect_with_signer : ℕ → Result (Unit {0})

pub record AccountData : Type 0 where
  pub address : String
  pub algo : String
  pub pubkey : Bytes

abbrev pub get_wallet_connect_peer_store_key : String → String
get_wallet_connect_peer_store_key peer_id =
    str_append "LS/WalletConnectPeerId" (str_append "-" peer_id)

-- `localStorage.getItem` and `setItem`
abbrev pub get_item : String → List (String × String) → Option String
get_item key [] = none
get_item key ((k, value) ∷ items) = if str_eq k key then some value else get_item key items

abbrev pub set_item : String → String → List (String × String) → List (String × String)
set_item key value items = (key, value) ∷ items

-- what follows the answer about an account: the wallet, a rejection, or another attempt
unfoldable pub finish :
    {W : Type 0}
    → (HexAccount → Result W)
    → Result (Option HexAccount)
    → Connector
    → Result (Unit {0})
    → Option (Result W × Connector)
    → Option (Result W × Connector)
finish wallet_of (err e) c killed retried = some (err e, c)
finish wallet_of (ok (some account)) c killed retried = some (wallet_of account, c)
finish wallet_of (ok none) c (err e) retried = some (err e, c)
finish wallet_of (ok none) c (ok _) retried = retried

module _ (lib : WalletConnectLib) (prefix : String) where
  -- a new session, whose account is stored, also where there is none
  unfoldable pub asked_account : ℕ → Connector → Result (Option HexAccount) × Connector
  asked_account attempt c = elim (lib.open_session attempt) [
    | err e ↦ (err e, c)
    | ok peer_id ↦ elim (lib.get_accounts attempt) [
      | err e ↦ (err e, record c { session = some peer_id })
      | ok account ↦ (
        ok account,
        record {
          session = some peer_id;
          storage =
              set_item (get_wallet_connect_peer_store_key peer_id) (lib.stringify account)
                c.storage;
        },
      )
    ]
  ]

  -- the account that is stored for a session
  unfoldable pub stored_account : String → Connector → Result (Option HexAccount)
  stored_account peer_id c = elim (get_item (get_wallet_connect_peer_store_key peer_id) c.storage) [
    | none ↦ ok none
    | some text ↦ if str_eq text "" then ok none else lib.parse text
  ]

  unfoldable pub account_of : ℕ → Connector → Result (Option HexAccount) × Connector
  unfolding asked_account stored_account
  account_of attempt c = elim c.session [
    | none ↦ asked_account attempt c
    | some peer_id ↦ (stored_account peer_id c, c)
  ]

  -- the wallet of the n-th attempt's account
  unfoldable pub wallet_of : ℕ → HexAccount → Result AccountData
  wallet_of attempt a = do
    throw_if (str_eq a.address "" || str_eq a.algo "" || str_eq a.pub_key "")
        "Failed to connect to WalletConnect"
    address ← lib.encode prefix a.address
    lib.connect_with_signer attempt
    ok (record { address = address; algo = a.algo; pubkey = lib.hex_bytes a.pub_key })

  -- `fuel` bounds the attempts
  unfoldable pub connect : ℕ → ℕ → Connector → Option (Result AccountData × Connector)
  unfolding account_of wallet_of finish
  connect zero attempt c = none
  connect (suc fuel) attempt c =
      let asked = account_of attempt c in
      finish (wallet_of attempt) asked.0 asked.1 (lib.kill_session attempt)
        (connect fuel (suc attempt) (record asked.1 { session = none }))

-- `signArbitrary` of the two clients: `base64` encodes a text, `request` is what the wallet answers
module _ (base64 : String → String) where
  unfoldable pub sign_with_wallet_connect :
      String
      → (String → SignDoc → Result SignDataMessageResponse)
      → String
      → String
      → Result SignDataMessageResponse
  sign_with_wallet_connect address request signer text = do
    throw_if (not (str_eq signer address))
        (str_append "Signer " (str_append signer " doesn't match public key address"))
    request signer (new_sign_data_message signer (base64 text))

  unfoldable pub sign_with_keplr :
      String
      → (String → String → String → Result String)
      → String
      → String
      → Result SignDataMessageResponse
  sign_with_keplr chain_id request signer text = do
    signature ← request chain_id signer text
    ok (record { signed = new_sign_data_message signer (base64 text); signature = signature })

-- what the code asks of the browser extension, and of the chain's endpoint
pub record KeplrLib : Type 0 where
  pub suggest_chain : Result (Unit {0})
  pub enable : String → Result (Unit {0})
  pub connect_with_signer : Result (Unit {0})

unfoldable pub connect_keplr : KeplrLib → String → Result (Unit {0})
connect_keplr lib chain_id = do lib.suggest_chain; lib.enable chain_id; lib.connect_with_signer
