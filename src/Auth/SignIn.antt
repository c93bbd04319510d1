-- ===== src/Auth/SignIn.antt =====
-- What comes of a sign-in.
use mathlib.Core.Path.{subst}
use text.Mathlib.TextLemmas.{append_assoc, nil-append}
use likedao.Common.{
  ◌≡◌, refl, sym, ap, ◌∙◌, ◌↔◌, inl, inr, none, some, List, [], ◌∷◌, String, str_append, Thrown,
  Result, ok, err, Result-cases,
}
use likedao.Chain.{Session, connected, connected_address, SignDataMessageResponse}
use likedao.Api.Cosmos.{sign_arbitrary}
use likedao.Auth.{
  no_body, signed_body, HttpRequest, HttpResponse, get_nonce, verify, SignInPage,
  make_sign_in_with_cosmos_message, sign_in, sign_in_as, sign_in_with_cosmos,
}

-- the lines of a text
abbrev pub join_lines : List String → String
join_lines [] = ""
join_lines (line ∷ []) = line
join_lines (line ∷ next ∷ lines) = str_append line (str_append "\n" (join_lines (next ∷ lines)))

-- the message of a sign-in, line by line
abbrev pub message_lines : String → SignInPage → String → String → List String
message_lines chain_id page address nonce =
    str_append page.host " wants you to sign in with your LikeCoin account:"
    ∷ address
    ∷ ""
    ∷ ""
    ∷ ""
    ∷ str_append "URI: " page.origin
    ∷ "Version: 1"
    ∷ str_append "Chain ID: " chain_id
    ∷ str_append "Nonce: " nonce
    ∷ str_append "Issued At: " page.now
    ∷ []

-- the ends of lines that stand within the parts of the message
end_of_line :
    (part rest text : String)
    → str_append (str_append part (str_append "\n" rest)) text
      ≡ str_append part (str_append "\n" (str_append rest text))
end_of_line part rest text =
    append_assoc part (str_append "\n" rest) text
    ∙ ap (str_append part) (append_assoc "\n" rest text)

make_message-lines :
    (chain_id : String) (page : SignInPage) (address nonce : String)
    → make_sign_in_with_cosmos_message chain_id page address nonce
      ≡ join_lines (message_lines chain_id page address nonce)
unfolding make_sign_in_with_cosmos_message
make_message-lines chain_id page address nonce =
    let greeting : (text : String)
        → str_append " wants you to sign in with your LikeCoin account:\n" text
          ≡ str_append " wants you to sign in with your LikeCoin account:" (str_append "\n" text) =
      append_assoc " wants you to sign in with your LikeCoin account:" "\n" in
    let uri : (text : String)
        → str_append "\n\n\n\nURI: " text
          ≡ str_append "\n"
              (str_append "\n" (str_append "\n" (str_append "\n" (str_append "URI: " text)))) =
      λ text.
        end_of_line "\n" "\n\nURI: " text
        ∙ ap (λ t. str_append "\n" (str_append "\n" t)) (end_of_line "\n" "URI: " text) in
    let version : (text : String)
        → str_append "\nVersion: 1\nChain ID: " text
          ≡ str_append "\n"
              (str_append "Version: 1" (str_append "\n" (str_append "Chain ID: " text))) =
      λ text.
        append_assoc "\n" "Version: 1\nChain ID: " text
        ∙ ap (str_append "\n") (end_of_line "Version: 1" "Chain ID: " text) in
    let given : (text : String)
        → str_append "\nNonce: " text ≡ str_append "\n" (str_append "Nonce: " text) =
      append_assoc "\n" "Nonce: " in
    let issued : (text : String)
        → str_append "\nIssued At: " text ≡ str_append "\n" (str_append "Issued At: " text) =
      append_assoc "\n" "Issued At: " in
    simp (greeting, uri, version, given, issued, append_assoc, nil-append) refl

module _ (s : Session) (endpoint : String) (send : HttpRequest → Result HttpResponse)
    (page : SignInPage) where
  abbrev nonce_request : HttpRequest
  nonce_request = record { url = str_append endpoint "/nonce"; is_post = none; body = no_body }

  abbrev verify_request : SignDataMessageResponse → HttpRequest
  verify_request answer = record {
    url = str_append endpoint "/verify";
    is_post = some "POST";
    body = signed_body answer.signed answer.signature;
  }

  -- what the wallet answers to the message with a nonce
  abbrev signature_of : String → String → Result SignDataMessageResponse
  signature_of address nonce =
      s.signer.sign_arbitrary address
        (join_lines (message_lines s.chain.chain_id page address nonce))

  -- what comes of a sign-in of `address`, by the answers that it gets
  pub data SignInOutcome (address : String) : Result (Unit {0}) → Type 0 where
    no_nonce : {e : Thrown} → send nonce_request ≡ err e → SignInOutcome address (err e)
    not_signed :
        {e : Thrown} (nonce : HttpResponse)
        → send nonce_request ≡ ok nonce
        → signature_of address nonce.text ≡ err e
        → SignInOutcome address (err e)
    not_verified :
        {e : Thrown} (nonce : HttpResponse) (answer : SignDataMessageResponse)
        → send nonce_request ≡ ok nonce
        → signature_of address nonce.text ≡ ok answer
        → send (verify_request answer) ≡ err e
        → SignInOutcome address (err e)
    signed_in :
        (nonce : HttpResponse) (answer : SignDataMessageResponse) (verified : HttpResponse)
        → send nonce_request ≡ ok nonce
        → signature_of address nonce.text ≡ ok answer
        → send (verify_request answer) ≡ ok verified
        → SignInOutcome address (ok tt)

  module _ (address : String) (is_connected : s.wallet ≡ connected address) where
    reached : connected_address s.wallet ≡ ok address
    unfolding connected_address
    reached = rw is_connected

    sign_arbitrary-connected :
        (nonce : String)
        → sign_arbitrary s (make_sign_in_with_cosmos_message s.chain.chain_id page address nonce)
          ≡ signature_of address nonce
    unfolding sign_arbitrary
    sign_arbitrary-connected nonce = simp reached (
        ap (s.signer.sign_arbitrary address)
          (make_message-lines s.chain.chain_id page address nonce))

    sign_in_with_cosmos-connected :
        sign_in_with_cosmos s endpoint send page ≡ sign_in_as s endpoint send page address
    unfolding sign_in_with_cosmos sign_in
    sign_in_with_cosmos-connected = ap (sign_in s endpoint send page) is_connected

    outcome_reached :
        {r : Result (Unit {0})}
        → SignInOutcome address r
        → sign_in_as s endpoint send page address ≡ r
    unfolding sign_in_as get_nonce verify
    outcome_reached (no_nonce failed) = simp failed
    outcome_reached (not_signed nonce asked failed) =
        simp (asked, sign_arbitrary-connected nonce.text, failed)
    outcome_reached (not_verified nonce answer asked signed failed) =
        simp (asked, sign_arbitrary-connected nonce.text, signed, failed)
    outcome_reached (signed_in nonce answer verified asked signed sent) =
        simp (asked, sign_arbitrary-connected nonce.text, signed, sent)

    -- the cases are all there are
    outcome : (r : Result (Unit {0})) × SignInOutcome address r
    outcome = elim (Result-cases (send nonce_request)) [
      | inr (e, failed) ↦ (err e, no_nonce failed)
      | inl (nonce, asked) ↦ elim (Result-cases (signature_of address nonce.text)) [
        | inr (e, failed) ↦ (err e, not_signed nonce asked failed)
        | inl (answer, signed) ↦ elim (Result-cases (send (verify_request answer))) [
          | inr (e, failed) ↦ (err e, not_verified nonce answer asked signed failed)
          | inl (verified, sent) ↦ (ok tt, signed_in nonce answer verified asked signed sent)
        ]
      ]
    ]

    -- For a connected wallet, a sign-in comes to a result exactly in these cases: the error of the
    -- request for a nonce; the error of the wallet that signs the message, which has ten lines, with
    -- the text of the answer as its nonce and the time of the page; the error of the verification of
    -- what was signed; or success, where all three are answered, whatever the status of the answers.
    pub sign_in_with_cosmos_iff :
        (r : Result (Unit {0}))
        → (sign_in_with_cosmos s endpoint send page ≡ r) ↔ SignInOutcome address r
    sign_in_with_cosmos_iff r = (
      λ e.
          subst (SignInOutcome address)
            (sym (outcome_reached outcome.1) ∙ (sym sign_in_with_cosmos-connected ∙ e)) outcome.1,
      λ o. sign_in_with_cosmos-connected ∙ outcome_reached o,
    )
