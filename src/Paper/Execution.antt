-- ===== src/Paper/Execution.antt =====
-- An order executes only on a sound book, at its far side, and never past its limit.
use tx_trader.Common.{
  ℕ, ◌+◌, ◌≤◌, ◌≡◌, ◌↔◌, ap, sym, refl, pos_part, neg_part, Bool, true, false, ◌||◌, not, Option,
  none, some, arith, ◌==◌, same, is_none, if◌then◌else◌, ℤ, is_long, ok, raise_if, >>-eq_ok, differ,
}
use mathlib.Core.Path.{subst}
use tx_trader.Paper.Contracts.{
  OrderSide, OrderType, OrderIntent, PaperFault, check_limit, check_order_intent,
}
use tx_trader.Paper.Matching.{
  Quote, InstrumentMetadataSnapshot, QuoteTop, Inspection, is_at_most, inspect_book,
  inspect_quantity, inspect_quote_top, is_invalid_book, may_be_simulated, far_price, is_crossed,
  execution_price_at, execution_price,
}

-- The inspection finds no top, or one that satisfies `P`.
abbrev pub IfUsable : (QuoteTop → Type 0) → Inspection → Type 0
IfUsable P (Inspection.usable top) = P top
IfUsable P (Inspection.skipped reasons) = Unit {0}

IfUsable-if :
    (P : QuoteTop → Type 0) (b : Bool) (x y : Inspection)
    → (b ≡ true → IfUsable P x)
    → (b ≡ false → IfUsable P y)
    → IfUsable P (if b then x else y)
IfUsable-if P true x y h h' = h refl
IfUsable-if P false x y h h' = h' refl

-- The quote's own prices, on a book that is not crossed and not simulated, with the scale known.
pub record IsSound (q : Quote) (top : QuoteTop) : Type 0 where
  pub own_bid : q.bid_normalized ≡ some top.bid
  pub own_ask : q.ask_normalized ≡ some top.ask
  pub bid_positive : is_long top.bid ≡ true
  pub ask_positive : is_long top.ask ≡ true
  pub ordered : is_at_most top.bid top.ask ≡ true
  pub real : q.is_simulated ≡ some false

valid_book :
    (bid ask : ℤ)
    → is_invalid_book bid ask ≡ false
    → (is_long bid ≡ true) × (is_long ask ≡ true) × (is_at_most bid ask ≡ true)
valid_book bid ask h = ground arith

inspect_book-IsSound :
    (q : Quote) (m : InstrumentMetadataSnapshot) (scale : ℕ) (bid ask : Option ℤ)
    → q.bid_normalized ≡ bid
    → q.ask_normalized ≡ ask
    → q.is_simulated ≡ some false
    → IfUsable (IsSound q) (inspect_book q m scale bid ask)
unfolding inspect_book
inspect_book-IsSound q m scale none ask b a real = tt
inspect_book-IsSound q m scale (some bid) none b a real = tt
inspect_book-IsSound q m scale (some bid) (some ask) b a real =
    IfUsable-if (IsSound q) (is_invalid_book bid ask) _ _ (λ _. tt)
      λ sound.
        let (bid_positive, ask_positive, ordered) = valid_book bid ask sound in
        record {
          own_bid = b;
          own_ask = a;
          bid_positive = bid_positive;
          ask_positive = ask_positive;
          ordered = ordered;
          real = real;
        }

not_simulated : (s : Option Bool) → may_be_simulated s ≡ false → s ≡ some false
not_simulated none h = cc
not_simulated (some true) h = cc
not_simulated (some false) h = refl

inspect_quantity-IsSound :
    (q : Quote) (m : InstrumentMetadataSnapshot) (scale : Option ℕ)
    → IfUsable (IsSound q) (inspect_quantity q m scale)
unfolding inspect_quantity
inspect_quantity-IsSound q m none = tt
inspect_quantity-IsSound q m (some scale) =
    IfUsable-if (IsSound q) (may_be_simulated q.is_simulated) _ _ (λ _. tt)
      λ real.
        inspect_book-IsSound q m scale q.bid_normalized q.ask_normalized refl refl
          (not_simulated q.is_simulated real)

-- A top that the inspection finds usable is sound: it has the quote's own prices, both positive and
-- not crossed, and the quote is known not to be simulated.
pub inspect_quote_top-IsSound :
    (q : Quote) (m : Option InstrumentMetadataSnapshot)
    → IfUsable (IsSound q) (inspect_quote_top q m)
unfolding inspect_quote_top
inspect_quote_top-IsSound q none = tt
inspect_quote_top-IsSound q (some m) =
    IfUsable-if (IsSound q) (not (q.instrument_id == m.instrument_id)) _ _ (λ _. tt)
      λ _.
        IfUsable-if (IsSound q) (is_none m.price_scale || is_none q.price_scale) _ _ (λ _. tt)
          λ _.
            IfUsable-if (IsSound q) (not (same q.price_scale m.price_scale)) _ _ (λ _. tt)
              (λ _. inspect_quantity-IsSound q m m.quantity_scale)

-- The price is not past the limit, if there is one.
abbrev pub allows : OrderSide → Option ℕ → ℤ → Bool
allows side none price = true
allows side (some limit) price = is_crossed side price limit

check_limit-fits :
    (i : OrderIntent)
    → check_order_intent i ≡ ok tt
    → check_limit i.order_type i.limit_price ≡ ok tt
unfolding check_order_intent
check_limit-fits i h =
    let (quantity, h1) = >>-eq_ok (raise_if (i.quantity == 0) PaperFault.not_positive) _ h in
    (>>-eq_ok
      (raise_if (differ (is_none i.source_session_id) (is_none i.source_ingest_sequence))
        PaperFault.source_incomplete)
      _ h1).1

execution_price_at-allows :
    (side : OrderSide) (ty : OrderType) (limit : Option ℕ) (price : ℤ)
    → check_limit ty limit ≡ ok tt
    → execution_price_at side ty limit price
      ≡ (if allows side limit price then some price else none)
unfolding execution_price_at check_limit
execution_price_at-allows side OrderType.market none price h = refl
execution_price_at-allows side OrderType.market (some limit) price h = cc
execution_price_at-allows side OrderType.limit none price h = cc
execution_price_at-allows side OrderType.limit (some limit) price h = refl

execution_price-eq_allows :
    (i : OrderIntent) (top : QuoteTop)
    → check_order_intent i ≡ ok tt
    → execution_price i top ≡ (
        if allows i.side i.limit_price (far_price i.side top)
        then some (far_price i.side top)
        else none)
unfolding execution_price
execution_price-eq_allows i top h =
    execution_price_at-allows i.side i.order_type i.limit_price (far_price i.side top)
      (check_limit-fits i h)

-- The far side of the book: the ask for a purchase, the bid for a sale.
abbrev pub AtFarSide : OrderSide → QuoteTop → ℤ → Type 0
AtFarSide OrderSide.buy top price = price ≡ top.ask
AtFarSide OrderSide.sell top price = price ≡ top.bid

-- The price is at most the limit of a purchase, at least the limit of a sale.
abbrev pub IsWithin : OrderSide → Option ℕ → ℤ → Type 0
IsWithin side none price = Unit {0}
IsWithin OrderSide.buy (some limit) price = pos_part price ≤ limit + neg_part price
IsWithin OrderSide.sell (some limit) price = limit + neg_part price ≤ pos_part price

chosen_iff :
    (b : Bool) (x p : ℤ) (Q : ℤ → Type 0)
    → (b ≡ true) ↔ Q x
    → ((if b then some x else none) ≡ some p) ↔ ((p ≡ x) × Q p)
chosen_iff true x p Q e = (
  λ h. let same_price : p ≡ x = cc in (same_price, subst Q (sym same_price) (e.0 refl)),
  λ h. ap some (sym h.0),
)
chosen_iff false x p Q e = (λ h. cc, λ h. let contrary : false ≡ true = e.1 (subst Q h.0 h.1) in cc)

-- What the code's tests say.
allows_iff :
    (side : OrderSide) (limit : Option ℕ) (top : QuoteTop) (price : ℤ)
    → ((if allows side limit (far_price side top) then some (far_price side top) else none)
        ≡ some price)
      ↔ (AtFarSide side top price × IsWithin side limit price)
allows_iff OrderSide.buy none top price = (λ h. (cc, tt), λ h. ap some (sym h.0))
allows_iff OrderSide.sell none top price = (λ h. (cc, tt), λ h. ap some (sym h.0))
allows_iff OrderSide.buy (some limit) top price =
    chosen_iff (is_crossed OrderSide.buy top.ask limit) top.ask price
      (IsWithin OrderSide.buy (some limit)) (λ h. ground (arith, h), λ h. ground (arith, h))
allows_iff OrderSide.sell (some limit) top price =
    chosen_iff (is_crossed OrderSide.sell top.bid limit) top.bid price
      (IsWithin OrderSide.sell (some limit)) (λ h. ground (arith, h), λ h. ground (arith, h))

-- An order whose intent passes its checks executes at a price just when this price is the far side
-- of the book, the ask for a purchase and the bid for a sale, and is not past the order's limit:
-- not above that of a purchase, not below that of a sale.
pub execution_price-allows :
    (i : OrderIntent) (top : QuoteTop) (price : ℤ)
    → check_order_intent i ≡ ok tt
    → (execution_price i top ≡ some price)
      ↔ (AtFarSide i.side top price × IsWithin i.side i.limit_price price)
execution_price-allows i top price h =
    rw (execution_price-eq_allows i top h) (allows_iff i.side i.limit_price top price)
