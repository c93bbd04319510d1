-- ===== src/Auth.antt =====
-- react-app/src/api/authAPI.ts and the sign-in of providers/AuthProvider.tsx.
pub mod SignIn
use likedao.Common.{ℕ, Option, none, some, String, str_append, Result, ok, err, error, ◌>>=◌, ◌>>◌}
use likedao.Message.{SignDoc}
use likedao.Chain.{Session, Wallet, connecting, idle, connected, SignDataMessageResponse}
use likedao.Api.Cosmos.{sign_arbitrary}

-- the JSON body of a request
pub data Body : Type 0 where
  no_body : Body
  signed_body : SignDoc → String → Body
  address_body : String → Body

-- a call of `fetch`; every one sends the credentials
pub record HttpRequest : Type 0 where
  pub url : String
  pub is_post : Option String
  pub body : Body

pub record HttpResponse : Type 0 where
  pub status : ℕ
  pub text : String

-- `send` is the browser's `fetch`: it is rejected when no response comes, and not for a status
module _ (endpoint : String) (send : HttpRequest → Result HttpResponse) where
  unfoldable pub get_nonce : Result String
  get_nonce = do
    res ← send (record { url = str_append endpoint "/nonce"; is_post = none; body = no_body })
    ok res.text

  unfoldable pub verify : SignDoc → String → Result (Unit {0})
  verify sign_doc signature = do
    send (record {
      url = str_append endpoint "/verify";
      is_post = some "POST";
      body = signed_body sign_doc signature;
    })
    ok tt

  unfoldable pub validate : String → Result (Unit {0})
  validate address = do
    send (record {
      url = str_append endpoint "/validate";
      is_post = some "POST";
      body = address_body address;
    })
    ok tt

  unfoldable pub logout : Result (Unit {0})
  logout = do
    send (record { url = str_append endpoint "/logout"; is_post = some "POST"; body = no_body })
    ok tt

-- the page's location and the time of the sign-in
pub record SignInPage : Type 0 where
  pub host : String
  pub origin : String
  pub now : String

unfoldable pub make_sign_in_with_cosmos_message : String → SignInPage → String → String → String
make_sign_in_with_cosmos_message chain_id page address nonce = str_append page.host (
    str_append " wants you to sign in with your LikeCoin account:\n" (
      str_append address (
        str_append "\n\n\n\nURI: " (
          str_append page.origin (
            str_append "\nVersion: 1\nChain ID: " (
              str_append chain_id (
                str_append "\nNonce: "
                  (str_append nonce (str_append "\nIssued At: " page.now)))))))))

module _ (s : Session) (endpoint : String) (send : HttpRequest → Result HttpResponse)
    (page : SignInPage) where
  -- the rest for an account
  unfoldable pub sign_in_as : String → Result (Unit {0})
  unfolding get_nonce verify make_sign_in_with_cosmos_message
  sign_in_as address = do
    nonce ← get_nonce endpoint send
    answer ← sign_arbitrary s (make_sign_in_with_cosmos_message s.chain.chain_id page address nonce)
    verify endpoint send answer.signed answer.signature

  pub sign_in : Wallet → Result (Unit {0})
  sign_in connecting = err (error "Wallet is not connected")
  sign_in idle = err (error "Wallet is not connected")
  sign_in (connected address) = sign_in_as address

  unfoldable pub sign_in_with_cosmos : Result (Unit {0})
  unfolding sign_in
  sign_in_with_cosmos = sign_in s.wallet
