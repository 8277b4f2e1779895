-- ===== src/Tests/Addresses.antt =====
-- Addresses that the rules take, and some that they refuse.
use cryptoswap_wallet.Common.{Str, ◌↔◌, ◌∷◌, ◌++◌, [], none, some, ◌≡◌, refl, text}
use cryptoswap_wallet.Addresses.Laws.{IsEthAddress, validate_destination_address-eth}
use cryptoswap_wallet.Addresses.{empty_address, implausible, validate_destination_address}

btc_segwit :
    validate_destination_address (text "BTC") (text "bc1qw508d6qejxtdg4y5r3zarvary0c5xw7kv8f3t4")
    ≡ none
unfolding validate_destination_address cryptoswap_wallet.Common.str_eq
    cryptoswap_wallet.Addresses.run cryptoswap_wallet.Addresses.is_bech32
btc_segwit = refl

ltc_legacy :
    validate_destination_address (text "LTC") (text "LdP8Qox1VAhCzLJNqrr74YovaWYyNBUWvL") ≡ none
unfolding validate_destination_address cryptoswap_wallet.Common.str_eq
    cryptoswap_wallet.Common.is_in cryptoswap_wallet.Addresses.run
    cryptoswap_wallet.Addresses.is_base58
ltc_legacy = refl

bch_prefixed :
    validate_destination_address
      (text "BCH")
      (text "bitcoincash:qpm2qsznhks23z7629mms6s4cwef74vcwvy22gdx6a")
    ≡ none
unfolding validate_destination_address cryptoswap_wallet.Common.str_eq
    cryptoswap_wallet.Common.is_in cryptoswap_wallet.Addresses.run
    cryptoswap_wallet.Addresses.is_bech32
bch_prefixed = refl

bch_plain :
    validate_destination_address (text "BCH") (text "qpm2qsznhks23z7629mms6s4cwef74vcwvy22gdx6a")
    ≡ none
unfolding validate_destination_address cryptoswap_wallet.Common.str_eq
    cryptoswap_wallet.Common.is_in cryptoswap_wallet.Addresses.run
    cryptoswap_wallet.Addresses.is_bech32
bch_plain = refl

eth_checksummed :
    validate_destination_address (text "ETH") (text "0x9858EfFD232B4033E47d90003D41EC34EcaEda94")
    ≡ none
unfolding validate_destination_address cryptoswap_wallet.Common.str_eq
    cryptoswap_wallet.Addresses.run cryptoswap_wallet.Addresses.is_hex
eth_checksummed = refl

-- A line feed at the end is taken.
tron_line :
    validate_destination_address
      (text "TRON")
      (text "TUEZSdKsoDHQMeZwihtdoBiN46zxhGWYdH" ++ (10 ∷ []))
    ≡ none
unfolding validate_destination_address cryptoswap_wallet.Common.str_eq
    cryptoswap_wallet.Addresses.run cryptoswap_wallet.Addresses.is_base58
tron_line = refl

eth_on_btc :
    validate_destination_address (text "BTC") (text "0x9858EfFD232B4033E47d90003D41EC34EcaEda94")
    ≡ some (implausible (text "BTC") (text "0x9858EfFD232B4033E47d90003D41EC34EcaEda94"))
unfolding validate_destination_address cryptoswap_wallet.Common.str_eq
    cryptoswap_wallet.Common.is_in
eth_on_btc = refl

eth_short :
    validate_destination_address (text "ETH") (text "0xdead")
    ≡ some (implausible (text "ETH") (text "0xdead"))
unfolding validate_destination_address cryptoswap_wallet.Common.str_eq
    cryptoswap_wallet.Addresses.run cryptoswap_wallet.Addresses.is_hex
eth_short = refl

no_address : validate_destination_address (text "XRP") [] ≡ some empty_address
unfolding validate_destination_address
no_address = refl

unknown_chain : validate_destination_address (text "XRP") (text "rno_rule_yet") ≡ none
unfolding validate_destination_address cryptoswap_wallet.Common.str_eq
unknown_chain = refl

abbrev eth_account : Str
eth_account = text "0x9858EfFD232B4033E47d90003D41EC34EcaEda94"

validate_destination_address-eth_example :
    (validate_destination_address (text "ETH") eth_account ≡ none) ↔ IsEthAddress eth_account
validate_destination_address-eth_example = validate_destination_address-eth eth_account
