-- ===== src/Wallet/Steps.antt =====
-- The runs of the wallet provider.
use likedao.Common.{
  ◌≡◌, refl, ◌≢◌, ◌∙◌, sym, Bool, true, false, Option, none, some, List, [], ◌∷◌, ◌++◌, String, any,
  arith,
}
use likedao.Wallet.{
  idle, connecting, AutoConnectWalletType, keplr, wallet_connect, WalletState, context_connected,
  context_connecting, Connection, open_connect_wallet_modal, close_connect_wallet_modal,
  start_connect, connect_succeeded, connect_failed, disconnect_settled, refresh_account,
  can_refresh, auto_connect, context_value,
}

-- a call that has not settled
pub data Task : Type 0 where
  connecting_to validating_for : AutoConnectWalletType → Task
  disconnecting refreshing : Task

abbrev pub is_connection : Task → Bool
is_connection (connecting_to type) = true
is_connection (validating_for type) = false
is_connection disconnecting = false
is_connection refreshing = false

-- a call that settles without a connection leaves the connections
any-settled :
    (before rest : List Task) (t : Task)
    → is_connection t ≡ false
    → any is_connection (before ++ t ∷ rest) ≡ any is_connection (before ++ rest)
any-settled [] rest t h = ground arith
any-settled (b ∷ before) rest t h = ground (arith, any-settled before rest t h)

module _ (Wallet Account Balance : Type 0) where
  pub record App : Type 0 where
    pub state : WalletState Wallet Account Balance
    pub tasks : List Task

  abbrev pub with_task : App → Task → WalletState Wallet Account Balance → App
  with_task a t s = record { state = s; tasks = t ∷ a.tasks }

  -- One step: a handler or an effect runs up to its first `await`, or a call settles.
  pub data Step : App → App → Type 0 where
    opens : {a : App} → Step a (record a { state = open_connect_wallet_modal a.state })
    closes : {a : App} → Step a (record a { state = close_connect_wallet_modal a.state })
    -- a button of the modal, or the effect
    connects :
        {a : App} (type : AutoConnectWalletType)
        → Step a (with_task a (connecting_to type) (start_connect a.state))
    auto_connects :
        {a : App} {type : AutoConnectWalletType}
        → auto_connect a.state ≡ some type
        → Step a (with_task a (connecting_to type) (start_connect a.state))
    -- these two test the state of the render whose closure is called, which may be an earlier one
    disconnects :
        {a : App} (rendered : WalletState Wallet Account Balance)
        → rendered.active_wallet ≢ none
        → Step a (with_task a disconnecting a.state)
    refreshes :
        {a : App} (rendered : WalletState Wallet Account Balance)
        → can_refresh rendered ≡ true
        → Step a (with_task a refreshing a.state)
    connection_comes :
        {s : WalletState Wallet Account Balance} (before rest : List Task)
        (type : AutoConnectWalletType) (c : Connection Wallet Account Balance)
        → Step
            (record { state = s; tasks = before ++ connecting_to type ∷ rest })
            (record {
              state = connect_succeeded type c s;
              tasks = before ++ validating_for type ∷ rest;
            })
    connection_fails :
        {s : WalletState Wallet Account Balance} (before rest : List Task)
        (type : AutoConnectWalletType)
        → Step
            (record { state = s; tasks = before ++ connecting_to type ∷ rest })
            (record { state = connect_failed type s; tasks = before ++ rest })
    validation_comes :
        {s : WalletState Wallet Account Balance} (before rest : List Task)
        (type : AutoConnectWalletType)
        → Step
            (record { state = s; tasks = before ++ validating_for type ∷ rest })
            (record { state = s; tasks = before ++ rest })
    validation_fails :
        {s : WalletState Wallet Account Balance} (before rest : List Task)
        (type : AutoConnectWalletType)
        → Step
            (record { state = s; tasks = before ++ validating_for type ∷ rest })
            (record { state = connect_failed type s; tasks = before ++ rest })
    disconnection_settles :
        {s : WalletState Wallet Account Balance} (before rest : List Task)
        → Step
            (record { state = s; tasks = before ++ disconnecting ∷ rest })
            (record { state = disconnect_settled s; tasks = before ++ rest })
    refresh_comes :
        {s : WalletState Wallet Account Balance} (before rest : List Task) (account : Account)
        (balance : Balance)
        → Step
            (record { state = s; tasks = before ++ refreshing ∷ rest })
            (record { state = refresh_account account balance s; tasks = before ++ rest })
    refresh_fails :
        {s : WalletState Wallet Account Balance} (before rest : List Task)
        → Step
            (record { state = s; tasks = before ++ refreshing ∷ rest })
            (record { state = s; tasks = before ++ rest })

  -- the app as it opens, with what the local storage holds
  abbrev pub start : Option String → App
  start stored = record {
    state = record {
      auto_connect_wallet_type = stored;
      is_connect_wallet_modal_active = false;
      active_wallet = none;
      wallet_status = idle;
      account = none;
      account_balance = none;
    };
    tasks = [];
  }

  pub data Reachable (stored : Option String) : App → Type 0 where
    opened : Reachable stored (start stored)
    step : {a b : App} → Reachable stored a → Step a b → Reachable stored b

  -- what the provider relies on
  pub record IsWellFormed (a : App) : Type 0 where
    -- the two `!` of the context's value
    pub has_account : a.state.active_wallet ≢ none → a.state.account ≢ none
    pub has_balance : a.state.active_wallet ≢ none → a.state.account_balance ≢ none
    -- a connection that is shown as under way is
    pub is_under_way : a.state.wallet_status ≡ connecting → any is_connection a.tasks ≡ true

  preserved : {a b : App} → Step a b → IsWellFormed a → IsWellFormed b
  unfolding open_connect_wallet_modal close_connect_wallet_modal start_connect connect_succeeded
      connect_failed disconnect_settled refresh_account
  preserved opens h = record {
    has_account = h.has_account;
    has_balance = h.has_balance;
    is_under_way = h.is_under_way;
  }
  preserved closes h = record {
    has_account = h.has_account;
    has_balance = h.has_balance;
    is_under_way = h.is_under_way;
  }
  preserved (connects type) h = record {
    has_account = h.has_account;
    has_balance = h.has_balance;
    is_under_way = λ e. refl;
  }
  preserved (auto_connects g) h = record {
    has_account = h.has_account;
    has_balance = h.has_balance;
    is_under_way = λ e. refl;
  }
  preserved (disconnects rendered g) h = record {
    has_account = h.has_account;
    has_balance = h.has_balance;
    is_under_way = h.is_under_way;
  }
  preserved (refreshes rendered g) h = record {
    has_account = h.has_account;
    has_balance = h.has_balance;
    is_under_way = h.is_under_way;
  }
  preserved (connection_comes before rest type c) h = record {
    has_account = λ n e. cc;
    has_balance = λ n e. cc;
    is_under_way = λ e. absurd cc;
  }
  preserved (connection_fails before rest keplr) h = record {
    has_account = h.has_account;
    has_balance = h.has_balance;
    is_under_way = λ e. absurd cc;
  }
  preserved (connection_fails before rest wallet_connect) h = record {
    has_account = h.has_account;
    has_balance = h.has_balance;
    is_under_way = λ e. absurd cc;
  }
  preserved (validation_fails before rest keplr) h = record {
    has_account = h.has_account;
    has_balance = h.has_balance;
    is_under_way = λ e. absurd cc;
  }
  preserved (validation_fails before rest wallet_connect) h = record {
    has_account = h.has_account;
    has_balance = h.has_balance;
    is_under_way = λ e. absurd cc;
  }
  preserved (validation_comes before rest type) h = record {
    has_account = h.has_account;
    has_balance = h.has_balance;
    is_under_way = λ e. sym (any-settled before rest (validating_for type) refl) ∙ h.is_under_way e;
  }
  preserved (disconnection_settles before rest) h = record {
    has_account = λ n. absurd (n refl);
    has_balance = λ n. absurd (n refl);
    is_under_way = λ e. sym (any-settled before rest disconnecting refl) ∙ h.is_under_way e;
  }
  preserved (refresh_comes before rest account balance) h = record {
    has_account = λ n e. cc;
    has_balance = λ n e. cc;
    is_under_way = λ e. sym (any-settled before rest refreshing refl) ∙ h.is_under_way e;
  }
  preserved (refresh_fails before rest) h = record {
    has_account = h.has_account;
    has_balance = h.has_balance;
    is_under_way = λ e. sym (any-settled before rest refreshing refl) ∙ h.is_under_way e;
  }

  Reachable-IsWellFormed : {stored : Option String} {a : App} → Reachable stored a → IsWellFormed a
  Reachable-IsWellFormed opened = record {
    has_account = λ n. absurd (n refl);
    has_balance = λ n. absurd (n refl);
    is_under_way = λ e. absurd cc;
  }
  Reachable-IsWellFormed (step r s) = preserved s (Reachable-IsWellFormed r)

  connected_has :
      (s : WalletState Wallet Account Balance) (w : Wallet) (account : Option Account)
      (balance : Option Balance)
      → context_value s ≡ context_connected w account balance
      → (s.active_wallet ≢ none) × (s.account ≡ account) × (s.account_balance ≡ balance)
  unfolding context_value
  connected_has s w account balance h = ground arith

  shown_connecting :
      (s : WalletState Wallet Account Balance)
      → context_value s ≡ context_connecting
      → s.wallet_status ≡ connecting
  unfolding context_value
  shown_connecting s h = ground arith

  -- In every state that a run reaches, whatever the wallets answer and in whatever order the calls
  -- settle: a context that is connected has an account and a balance, as its two `!` say; and one
  -- that is connecting has a connection under way, so that it cannot stay so for good.
  pub context_value_lem :
      {stored : Option String} {a : App}
      → Reachable stored a
      → ((w : Wallet) (account : Option Account) (balance : Option Balance)
          → context_value a.state ≡ context_connected w account balance
          → (account ≢ none) × (balance ≢ none))
        × (context_value a.state ≡ context_connecting → any is_connection a.tasks ≡ true)
  context_value_lem {stored} {a} r =
      let h = Reachable-IsWellFormed r in
      (
        λ w account balance e.
            let (active, has_account, has_balance) = connected_has a.state w account balance e in
            (
              λ no. h.has_account active (has_account ∙ no),
              λ no. h.has_balance active (has_balance ∙ no),
            ),
        λ e. h.is_under_way (shown_connecting a.state e),
      )
