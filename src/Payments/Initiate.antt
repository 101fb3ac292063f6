-- ===== src/Payments/Initiate.antt =====
-- The start of a payment (`initiateWalletDeposit` and `initiate` of
-- src/modules/payments/payments.service.ts). The deposit card and the crypto wallet are those of
-- Cards and CryptoWallets; `gateway` is the one registered under the default code, if there is one,
-- and answers with a transaction id and a link, or throws.
use vpn_saas.Base.{ℕ, ◌+◌, ◌*◌, Bool, true, false, not, Option, none, some, List, String, str_eq}
use vpn_saas.Base.Int.{ℤ, pos}
use vpn_saas.Base.Table.{update, create}
use vpn_saas.Money.{digits_only, value_of, from_minor}
use vpn_saas.Store.{
  Action, Result, ok, err, pure, throw, gets, or_throw, throw_if, modify, ◌>>=◌, ◌>>◌, Failure,
  business, ErrorCode, fresh_id, get_or, is_none,
}
use vpn_saas.Store.Rows.{Payment, PaymentStatus, PaymentMethod, Order}
use vpn_saas.Store.Rows.Cards.{BankCard, CryptoWallet, CryptoCurrency, usdt_trc20}
use vpn_saas.Cards.Deposit.{get_deposit_card}
use vpn_saas.CryptoWallets.{get_default}
use vpn_saas.Orders
use vpn_saas.Orders.{OrderDto, get_owned_order}
use vpn_saas.Payments
use vpn_saas.Payments.{is_text}

pub record PaymentDto : Type 0 where
  pub id : ℕ
  pub public_id : String
  pub order_id : Option ℕ
  pub method : PaymentMethod
  pub status : PaymentStatus
  pub amount : ℤ
  pub currency : String
  pub gateway : Option String
  pub redirect_url : Option String
  pub crypto_address : Option (List ℕ)
  pub crypto_network : Option String
  pub confirmed_at : Option ℕ

abbrev pub to_dto : Payment → Option String → PaymentDto
to_dto p redirect_url = record {
  id = p.id;
  public_id = p.public_id;
  order_id = p.order_id;
  method = p.method;
  status = p.status;
  amount = p.amount;
  currency = p.currency;
  gateway = p.gateway;
  redirect_url = redirect_url;
  crypto_address = none;
  crypto_network = none;
  confirmed_at = p.confirmed_at;
}

-- `BigInt(text.replace(/[^0-9]/g, '')) || 0n`
abbrev pub amount_of : List ℕ → ℤ
amount_of text = pos (value_of (digits_only text))

abbrev pub row : String → ℕ → Option ℕ → PaymentMethod → ℤ → String → List Payment → Payment
row uuid user order method amount currency ps = record {
  id = fresh_id (λ (p : Payment). p.id) ps;
  public_id = uuid;
  order_id = order;
  user_id = user;
  method = method;
  status = PaymentStatus.pending;
  amount = amount;
  currency = currency;
  gateway = none;
  gateway_ref = none;
  gateway_status = none;
  gateway_verify_code = none;
  gateway_ref_id = none;
  confirmed_at = none;
}

abbrev pub add_payment : Payment → Action (Unit {0})
add_payment p = modify (λ db. record db { payments = create p db.payments })

abbrev deposit_method : Bool → PaymentMethod
deposit_method true = PaymentMethod.crypto
deposit_method false = PaymentMethod.card_to_card

unfoldable pub initiate_wallet_deposit : String → ℕ → List ℕ → Option String → Action PaymentDto
initiate_wallet_deposit uuid user amount crypto = do
  p ← gets (λ db.
      row uuid user none (deposit_method (is_text crypto)) (amount_of amount) (get_or crypto "IRR")
        db.payments)
  add_payment p
  pure (to_dto p none)

pub record InitiateResult : Type 0 where
  pub gateway_transaction_id : String
  pub redirect_url : Option String

pub record OnlineGateway : Type 0 where
  pub code : String
  pub is_enabled : Bool
  pub initiate : ℕ → ℤ → String → Result InitiateResult

pub record InitiateInput : Type 0 where
  pub user_id : ℕ
  pub order_public_id : String
  pub method : PaymentMethod
  pub crypto_currency : Option CryptoCurrency

abbrev conflict : String → Failure
conflict message = business ErrorCode.conflict message

abbrev answer : {A : Type 0} → Result A → Action A
answer (ok a) = pure a
answer (err e) = throw e

abbrev requested : OnlineGateway → InitiateResult → Payment → Payment
requested g r p = record p {
  gateway = some g.code;
  gateway_ref = some r.gateway_transaction_id;
  gateway_status = some "REQUESTED";
}

module _ (uuid : String) (now : ℕ) (input : InitiateInput) (o : Order) where
  -- The order's total, as the order's DTO prints it.
  abbrev pub payment_for : String → List Payment → Payment
  payment_for currency ps =
      row uuid input.user_id (some o.id) input.method (amount_of (from_minor o.total_amount))
        currency ps

  -- The payment is there before the gateway is asked.
  unfoldable pub request_online : Option OnlineGateway → Action PaymentDto
  request_online gateway = do
    throw_if (not (str_eq o.currency "IRT")) (conflict "Online payments require IRT toman orders")
    g ← or_throw gateway (conflict "Gateway 'zarinpal' not configured")
    throw_if (not g.is_enabled) (conflict "Online gateway is disabled")
    p ← gets (λ db. payment_for "IRT" db.payments)
    add_payment p
    r ← answer (g.initiate p.id p.amount o.public_id)
    modify
        (λ db. record db { payments = update (Payments.has_id p.id) (requested g r) db.payments })
    pure (to_dto (requested g r p) r.redirect_url)

  unfoldable pub request_crypto : CryptoCurrency → Option CryptoWallet → Action PaymentDto
  request_crypto currency none = throw (conflict "Crypto payment is not configured")
  request_crypto currency (some w) = do
    p ← gets (λ db. payment_for o.currency db.payments)
    add_payment p
    modify (λ db. record db {
      crypto_payments =
          create
            (record {
              payment_id = p.id;
              currency = currency;
              address = w.address;
              expected_amount = p.amount;
              expires_at = now + 24 * 60 * 60 * 1000;
            })
            db.crypto_payments;
    })
    pure (record (to_dto p none) { crypto_address = some w.address; crypto_network = w.network })

  unfoldable pub request_plain : Action PaymentDto
  request_plain = do
    p ← gets (λ db. payment_for o.currency db.payments)
    add_payment p
    pure (to_dto p none)

  unfoldable pub request_card : Option BankCard → Action PaymentDto
  request_card card = do
    throw_if (is_none card) (conflict "Card-to-card payment is not configured")
    request_plain

  abbrev pub request_by : Option OnlineGateway → PaymentMethod → Action PaymentDto
  request_by gateway PaymentMethod.online = request_online gateway
  request_by gateway PaymentMethod.card_to_card = do card ← get_deposit_card; request_card card
  request_by gateway PaymentMethod.crypto = do
    let currency = get_or input.crypto_currency usdt_trc20
    wallet ← get_default currency
    request_crypto currency wallet
  request_by gateway _ = request_plain

unfoldable pub initiate : Option OnlineGateway → String → ℕ → InitiateInput → Action PaymentDto
initiate gateway uuid now input = do
  o ← get_owned_order input.order_public_id input.user_id
  throw_if (not (Orders.is_pending o.status)) (conflict "Order is not payable")
  request_by uuid now input o gateway input.method
