-- ===== src/Thorchain/Parse/Laws.antt =====
-- What the parsers return.
use cryptoswap_wallet.Common.{
  ◌∙◌, ℤ, Str, Bool, true, false, List, [], ◌∷◌, Option, none, some, ◌≡◌, refl, text, str_eq,
  str_eq_iff, if◌then◌else◌, arith,
}
use cryptoswap_wallet.Result.{Result, ok, err, >>=-eq-ok, ok_inj}
use cryptoswap_wallet.Thorchain.Json.{
  Json, null, num, str, dict, Fields, end, field, to_int, to_text?,
}
use cryptoswap_wallet.Thorchain.Json.Laws.{show_int, to_int-show_int}
use cryptoswap_wallet.Thorchain.Types.{ChainStatus, SwapFees, Quote}
use cryptoswap_wallet.Thorchain.Parse.{
  Chains, lookup, insert, read_status, parse_entries, parse_inbound_addresses, parse_quote,
}

lookup-insert :
    (j k : Str) (s : ChainStatus) (chains : Chains)
    → lookup j (insert k s chains) ≡ (if str_eq k j then some s else lookup j chains)
unfolding insert
lookup-insert j k s [] = refl
lookup-insert j k s ((i, t) ∷ chains) =
    ground (arith, str_eq_iff k j, str_eq_iff i k, str_eq_iff i j, lookup-insert j k s chains)

-- A text that may be missing.
optional : Option Str → Json
optional none = null
optional (some s) = str s

-- An amount, which a node sends as a decimal text.
amount : ℤ → Json
amount n = str (show_int n)

-- The fees of a quote as a node sends them.
fees_payload : SwapFees → Fields
unfolding amount
fees_payload f = field (text "affiliate") (amount f.affiliate) (
    field (text "asset") (str f.asset) (
      field (text "liquidity") (amount f.liquidity) (
        field (text "outbound") (amount f.outbound) (
          field (text "slippage_bps") (num f.slippage_bps) (
            field (text "total") (amount f.total)
              (field (text "total_bps") (num f.total_bps) end))))))

-- A quote as a node sends it: amounts and rates are decimal texts, and counts, times and basis points
-- are numbers.
pub quote_payload : Quote → Fields
unfolding optional fees_payload amount
quote_payload q = field (text "dust_threshold") (amount q.dust_threshold) (
    field (text "expected_amount_out") (amount q.expected_amount_out) (
      field (text "expiry") (num q.expiry) (
        field (text "fees") (dict (fees_payload q.fees)) (
          field (text "gas_rate_units") (str q.gas_rate_units) (
            field (text "inbound_address") (str q.inbound_address) (
              field (text "max_streaming_quantity") (num q.max_streaming_quantity) (
                field (text "memo") (optional q.memo) (
                  field (text "recommended_gas_rate") (amount q.recommended_gas_rate) (
                    field (text "recommended_min_amount_in") (amount q.recommended_min_amount_in) (
                      field (text "router") (optional q.router) (
                        field (text "streaming_swap_blocks") (num q.streaming_swap_blocks) (
                          field (text "total_swap_seconds") (num q.total_swap_seconds)
                            end))))))))))))

to_int-num : (n : ℤ) → to_int (num n) ≡ ok n
unfolding to_int
to_int-num n = refl

to_text?-optional : (o : Option Str) → to_text? (some (optional o)) ≡ ok o
unfolding optional
to_text?-optional none = refl
to_text?-optional (some s) = refl

-- A quote that a node sends with all its fields, its amounts as decimal texts, is read back as that
-- quote.
pub parse_quote-payload :
    (q : Quote) → parse_quote (quote_payload q) ≡ ok (record q { raw = quote_payload q })
unfolding parse_quote quote_payload fees_payload amount str_eq
parse_quote-payload q =
    rw
      (
        to_int-show_int q.dust_threshold,
        to_int-show_int q.expected_amount_out,
        to_int-num q.expiry,
        to_int-show_int q.fees.affiliate,
        to_int-show_int q.fees.liquidity,
        to_int-show_int q.fees.outbound,
        to_int-num q.fees.slippage_bps,
        to_int-show_int q.fees.total,
        to_int-num q.fees.total_bps,
        to_int-num q.max_streaming_quantity,
        to_int-show_int q.recommended_gas_rate,
        to_int-show_int q.recommended_min_amount_in,
        to_int-num q.streaming_swap_blocks,
        to_int-num q.total_swap_seconds,
        to_text?-optional q.memo,
        to_text?-optional q.router,
      )
      refl

abbrev or_else : Option ChainStatus → Option ChainStatus → Option ChainStatus
or_else (some s) d = some s
or_else none d = d

or_else-none : (o : Option ChainStatus) → or_else o none ≡ o
or_else-none none = refl
or_else-none (some s) = refl

-- The status that was read, if it is for the chain.
abbrev own_status : Str → Result ChainStatus → Option ChainStatus
own_status c (ok s) = if str_eq s.chain c then some s else none
own_status c (err e) = none

-- The status of the last entry for a chain.
abbrev pub last_status : Str → List Fields → Option ChainStatus
last_status c [] = none
last_status c (entry ∷ payload) = or_else (last_status c payload) (own_status c (read_status entry))

or_else_assoc :
    (later : Option ChainStatus) (same : Bool) (s : ChainStatus) (old : Option ChainStatus)
    → or_else later (if same then some s else old)
      ≡ or_else (or_else later (if same then some s else none)) old
or_else_assoc none true s old = refl
or_else_assoc none false s old = refl
or_else_assoc (some t) same s old = refl

parse_entries-lookup :
    (c : Str) (chains : Chains) (payload : List Fields) (chains' : Chains)
    → parse_entries chains payload ≡ ok chains'
    → lookup c chains' ≡ or_else (last_status c payload) (lookup c chains)
unfolding parse_entries
parse_entries-lookup c chains [] chains' h = rw (ok_inj h) refl
parse_entries-lookup c chains (entry ∷ payload) chains' h =
    let read = >>=-eq-ok (read_status entry) _ h in
    let status = read.0 in
    parse_entries-lookup c (insert status.chain status chains) payload chains' read.2
    ∙ rw (lookup-insert c status.chain status chains, read.1)
        (or_else_assoc (last_status c payload) (str_eq status.chain c) status (lookup c chains))

-- The table of chains has, for each name, the last entry of the response with that name, and none
-- for a name that no entry has.
pub parse_inbound_addresses-lookup :
    (payload : List Fields) (chains : Chains) (c : Str)
    → parse_inbound_addresses payload ≡ ok chains
    → lookup c chains ≡ last_status c payload
unfolding parse_inbound_addresses
parse_inbound_addresses-lookup payload chains c h =
    parse_entries-lookup c [] payload chains h ∙ or_else-none (last_status c payload)
