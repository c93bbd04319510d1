-- ===== src/Config.antt =====
-- react-app/src/config/Config.ts: the settings that the modelled code reads, their defaults, and
-- the shallow merge with `window.appConfig`.
use likedao.Common.{ℕ, Option, String, or_else}

pub record Bech32Config : Type 0 where
  pub prefix_acc_addr : String
  pub prefix_acc_pub : String
  pub prefix_val_addr : String
  pub prefix_val_pub : String
  pub prefix_cons_addr : String
  pub prefix_cons_pub : String

pub record Currency : Type 0 where
  pub coin_denom : String
  pub coin_minimal_denom : String
  pub coin_decimals : ℕ

pub record ChainInfo : Type 0 where
  pub bech32_config : Bech32Config
  pub gas_price : String
  pub chain_id : String
  pub chain_rpc : String
  pub currency : Currency

pub record Config : Type 0 where
  pub chain_info : ChainInfo
  pub graphql_endpoint : String
  pub auth_endpoint : String

abbrev pub default_config : Config
default_config = record {
  chain_info = record {
    bech32_config = record {
      prefix_acc_addr = "like";
      prefix_acc_pub = "likepub";
      prefix_val_addr = "likevaloper";
      prefix_val_pub = "likevaloperpub";
      prefix_cons_addr = "likevalcons";
      prefix_cons_pub = "likevalconspub";
    };
    gas_price = "200000nanolike";
    chain_id = "";
    chain_rpc = "";
    currency = record { coin_denom = "LIKE"; coin_minimal_denom = "nanolike"; coin_decimals = 9 };
  };
  graphql_endpoint = "http://localhost:8080/graphql";
  auth_endpoint = "http://localhost:8080/auth";
}

-- the top-level keys that `window.appConfig` may give
pub record AppConfig : Type 0 where
  pub chain_info : Option ChainInfo
  pub graphql_endpoint : Option String
  pub auth_endpoint : Option String

pub merge_config : Config → AppConfig → Config
merge_config base given = record {
  chain_info = or_else given.chain_info base.chain_info;
  graphql_endpoint = or_else given.graphql_endpoint base.graphql_endpoint;
  auth_endpoint = or_else given.auth_endpoint base.auth_endpoint;
}
