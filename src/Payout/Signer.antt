-- ===== src/Payout/Signer.antt =====
-- server/src/services/payout/resolve-payout-signer.js: who signs a payout. Keys, addresses and mnemonics
-- are made by ethers, tronweb and the process's ciphers, so they are a parameter.
use crypto_gateway_rp.Common.{
  ℕ, Bool, true, false, ◌&&◌, Option, none, some, ◌==◌, ◌++◌, if◌then◌else◌, is_empty, take, filter,
  find,
}
use crypto_gateway_rp.Text.{Text, codes, eq_text, starts_with, trim, to_lower_case, print_number}
use crypto_gateway_rp.Store.{Chain, eq_chain, Wallet, Store, is_active}

-- `none` is an exception of the library.
pub record Keys : Type 0 where
  pub tron_to_hex : Text → Option Text
  pub get_address : Text → Option Text
  -- `re.payoutHotPrivateKeyTron || env.payoutHotPrivateKeyTron || ""`, and the same for ETH.
  pub hot_private_key_tron : Text
  pub hot_private_key_eth : Text
  -- The private key and the address of a key text.
  pub tron_account : Text → Option (Text × Text)
  pub ethers_wallet : Text → Option (Text × Text)
  pub merchant_wallet_mnemonic : ℕ → Option Text
  pub derive_tron_private_key_hex : ℕ → Text → Option Text
  pub hd_node_wallet : Text → Text → Option (Text × Text)
  -- `String(e)` of the exception that the mnemonic or a derivation threw.
  pub exception_text : Text

pub data SignerSource : Type 0 where
  platform_hot merchant_wallet : SignerSource

pub record Signer : Type 0 where
  pub private_key_hex : Text
  pub from_address : Text
  pub source : SignerSource
  pub merchant_id_for_trx_topup : Option ℕ
  pub allow_platform_trx_funder : Bool

-- An error and its message.
pub data SignerResult : Type 0 where
  signed_by : Signer → SignerResult
  unsigned : Text → Text → SignerResult

pub data HotSigner : Type 0 where
  hot : (Text × Text) → HotSigner
  no_hot : Text → HotSigner

hot_account : Option (Text × Text) → HotSigner
hot_account none = no_hot (codes "payout_hot_wallet_key_invalid")
hot_account (some account) = hot account

-- `pk.startsWith("0x") ? pk : `0x${pk}``
abbrev with_0x : Text → Text
with_0x pk = if starts_with (codes "0x") pk then pk else codes "0x" ++ pk

unfoldable pub platform_payout_hot_signer : Keys → Chain → HotSigner
unfolding hot_account trim
platform_payout_hot_signer keys Chain.tron =
    if is_empty (trim keys.hot_private_key_tron)
    then no_hot (codes "payout_hot_wallet_not_configured")
    else hot_account (keys.tron_account keys.hot_private_key_tron)
platform_payout_hot_signer keys Chain.eth =
    if is_empty (trim keys.hot_private_key_eth)
    then no_hot (codes "payout_hot_wallet_not_configured")
    else hot_account (keys.ethers_wallet (with_0x (trim keys.hot_private_key_eth)))
platform_payout_hot_signer keys _ = no_hot (codes "unsupported_payout_chain")

abbrev same_hex : Option Text → Option Text → Bool
same_hex (some a) (some b) = eq_text a b
same_hex _ _ = false

tron_addr_eq : Keys → Text → Text → Bool
tron_addr_eq keys a b = same_hex (keys.tron_to_hex a) (keys.tron_to_hex b)

hot_signer : (Text × Text) → Bool → SignerResult
hot_signer account allow_platform_trx_funder = signed_by (record {
  private_key_hex = account.0;
  from_address = account.1;
  source = platform_hot;
  merchant_id_for_trx_topup = none;
  allow_platform_trx_funder = allow_platform_trx_funder;
})

-- The message, which ends in the failure reason of the withdrawal.
without_treasury : HotSigner → SignerResult
unfolding hot_signer
without_treasury (hot account) = hot_signer account true
without_treasury (no_hot e) = unsigned e (
    codes
      "No payout treasury address set and platform hot wallet private key is missing. Set Payout treasury in merchant settings, or configure PAYOUT_HOT_PRIVATE_KEY_TRON / PAYOUT_HOT_PRIVATE_KEY_ETH.")

-- The platform's own wallet, where the treasury is its address.
hot_or : HotSigner → (Text → Bool) → Bool → SignerResult → SignerResult
unfolding hot_signer
hot_or (hot account) p funder rest = if p account.1 then hot_signer account funder else rest
hot_or (no_hot e) p funder rest = rest

is_payout_wallet : ℕ → Chain → Text → Wallet → Bool
is_payout_wallet merchant_id chain network w =
    w.merchant_id == merchant_id
    && eq_chain w.chain chain
    && eq_text w.currency (codes "USDT")
    && eq_text w.network network
    && is_active w.deleted_at

abbrev no_mnemonic : Keys → SignerResult
no_mnemonic keys = unsigned (codes "merchant_mnemonic_unavailable") (take 300 keys.exception_text)

abbrev not_signable : SignerResult
not_signable = unsigned (codes "payout_treasury_not_signable") (
    codes
      "Payout treasury must be the platform hot wallet address or one of this merchant’s gateway USDT deposit wallets (so the gateway can sign).")

from_wallet : Wallet → Text → Option ℕ → SignerResult
from_wallet w key topup = signed_by (record {
  private_key_hex = key;
  from_address = w.address;
  source = merchant_wallet;
  merchant_id_for_trx_topup = topup;
  allow_platform_trx_funder = false;
})

tron_key_of : Keys → Wallet → Option Text → SignerResult
unfolding from_wallet
tron_key_of keys w none = no_mnemonic keys
tron_key_of keys w (some mnemonic) =
    elim (keys.derive_tron_private_key_hex w.derivation_index mnemonic) [
      | none ↦ no_mnemonic keys
      | some key ↦ from_wallet w key (some w.merchant_id)
    ]

eth_key_of : Keys → Wallet → Option Text → SignerResult
unfolding from_wallet to_lower_case print_number
eth_key_of keys w none = no_mnemonic keys
eth_key_of keys w (some mnemonic) =
    elim (keys.hd_node_wallet mnemonic
      (codes "m/44'/60'/0'/0/" ++ print_number w.derivation_index)) [
        | none ↦ no_mnemonic keys
        | some derived ↦
            if eq_text (to_lower_case derived.1) (to_lower_case w.address)
            then from_wallet w derived.0 none
            else unsigned (codes "derived_address_mismatch")
                (codes "Merchant wallet key derivation did not match the treasury address.")
      ]

tron_wallet_signer : Keys → Option Wallet → SignerResult
unfolding tron_key_of
tron_wallet_signer keys none = not_signable
tron_wallet_signer keys (some w) = tron_key_of keys w (keys.merchant_wallet_mnemonic w.merchant_id)

eth_wallet_signer : Keys → Option Wallet → SignerResult
unfolding eth_key_of
eth_wallet_signer keys none = not_signable
eth_wallet_signer keys (some w) = eth_key_of keys w (keys.merchant_wallet_mnemonic w.merchant_id)

tron_treasury : Keys → Store → ℕ → Text → Option Text → SignerResult
unfolding hot_or tron_addr_eq tron_wallet_signer is_payout_wallet platform_payout_hot_signer
tron_treasury keys store merchant_id treasury none =
    unsigned (codes "invalid_payout_treasury")
      (codes "Payout treasury address is not a valid TRON address.")
tron_treasury keys store merchant_id treasury (some hex) =
    hot_or (platform_payout_hot_signer keys Chain.tron) (λ a. tron_addr_eq keys a treasury) true
      (tron_wallet_signer keys (
        find (λ (w : Wallet). tron_addr_eq keys w.address treasury)
          (filter (is_payout_wallet merchant_id Chain.tron (codes "TRC20")) store.wallets)))

eth_treasury : Keys → Store → ℕ → Option Text → SignerResult
unfolding hot_or eth_wallet_signer is_payout_wallet platform_payout_hot_signer to_lower_case
eth_treasury keys store merchant_id none =
    unsigned (codes "invalid_payout_treasury")
      (codes "Payout treasury address is not a valid Ethereum address.")
eth_treasury keys store merchant_id (some treasury) =
    hot_or (platform_payout_hot_signer keys Chain.eth)
      (λ a. eq_text (to_lower_case a) (to_lower_case treasury)) false
      (eth_wallet_signer keys (
        find (λ (w : Wallet). eq_text (to_lower_case w.address) (to_lower_case treasury))
          (filter (is_payout_wallet merchant_id Chain.eth (codes "ERC20")) store.wallets)))

treasury_signer : Keys → Store → ℕ → Chain → Text → SignerResult
unfolding tron_treasury eth_treasury
treasury_signer keys store merchant_id Chain.tron treasury =
    tron_treasury keys store merchant_id treasury (keys.tron_to_hex treasury)
treasury_signer keys store merchant_id Chain.eth treasury =
    eth_treasury keys store merchant_id (keys.get_address treasury)
treasury_signer keys store merchant_id _ treasury =
    unsigned (codes "unsupported_payout_chain") (codes "Unsupported payout chain.")

unfoldable pub resolve_payout_signer : Keys → Store → ℕ → Chain → Text → SignerResult
unfolding trim without_treasury treasury_signer platform_payout_hot_signer
resolve_payout_signer keys store merchant_id chain treasury_address =
    let treasury = trim treasury_address in
    if is_empty treasury
    then without_treasury (platform_payout_hot_signer keys chain)
    else treasury_signer keys store merchant_id chain treasury
