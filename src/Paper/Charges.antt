-- ===== src/Paper/Charges.antt =====
-- What a fee has charged between two quantities, and that fees in a row can be charged at once.
use tx_trader.Common.{
  ℕ, sym, ◌∙◌, ◌+◌, ◌-◌, ◌*◌, ◌≤◌, ◌≡◌, refl, false, not, Option, none, some, ok, raise_if,
  >>-eq_ok, >>=-eq_ok, Bool, true, raise_if-eq_ok, arith, ltb, leb, ◌==◌, if◌then◌else◌,
}
use mathlib.Core.Path.{subst}
use tx_trader.Decimals.{Grid}
use tx_trader.Paper.Policies.{
  PolicyFault, PaperFeeRule, PaperFeeSchedule, FeeAssessment, ExactContext, cumulative_fee,
  fee_of_change, fee_units, find_rule, fee_between, fee_by_rule, assess_fee,
}

-- What a fee between two quantities has checked.
pub record Charged (g : Grid) (lot : ℕ) (e : ExactContext) (r : PaperFeeRule) (x y t : ℕ)
    : Type 0 where
  exact_before : e.is_exact_product r x ≡ true
  exact_after : e.is_exact_product r y ≡ true
  ordered : fee_units g lot r x * r.quantum_digits ≤ fee_units g lot r y * r.quantum_digits
  fee : t ≡ fee_units g lot r y * r.quantum_digits - fee_units g lot r x * r.quantum_digits

cumulative_fee-eq_ok :
    (g : Grid) (lot : ℕ) (e : ExactContext) (r : PaperFeeRule) (x : ℕ) {fee : ℕ}
    → cumulative_fee g lot e r x ≡ ok fee
    → (e.is_exact_product r x ≡ true) × (fee ≡ fee_units g lot r x * r.quantum_digits)
unfolding cumulative_fee
cumulative_fee-eq_ok g lot e r x h =
    let (exact, h1) =
      >>-eq_ok (raise_if (not (e.is_exact_product r x)) PolicyFault.arithmetic_failure) _ h in
    (was_true (raise_if-eq_ok _ _ exact), cc)
  where
    was_true : {b : Bool} → not b ≡ false → b ≡ true
    was_true {b = b} h = ground arith

fee_of_change-eq_ok :
    (e : ExactContext) (r : PaperFeeRule) (x y from to : ℕ) {a : FeeAssessment}
    → fee_of_change e r x y from to ≡ ok a
    → (from ≤ to) × (a.fee ≡ to - from)
unfolding fee_of_change
fee_of_change-eq_ok e r x y from to h =
    let (exact, h1) =
      >>-eq_ok (raise_if (not (e.is_exact_difference r x y)) PolicyFault.arithmetic_failure) _ h in
    let (order, h2) = >>-eq_ok (raise_if (ltb to from) PolicyFault.arithmetic_failure) _ h1 in
    (ground (arith, raise_if-eq_ok _ _ order), cc)

fee_between-Charged :
    (g : Grid) (lot : ℕ) (e : ExactContext) (r : PaperFeeRule) (x y : ℕ) {a : FeeAssessment}
    → fee_between g lot e r x y ≡ ok a
    → Charged g lot e r x y a.fee
unfolding fee_between
fee_between-Charged g lot e r x y {a = a} h =
    let (from, before, h1) = >>=-eq_ok (cumulative_fee g lot e r x) _ h in
    let (to, after, h2) = >>=-eq_ok (cumulative_fee g lot e r y) _ h1 in
    let (exact_before, from_is) = cumulative_fee-eq_ok g lot e r x before in
    let (exact_after, to_is) = cumulative_fee-eq_ok g lot e r y after in
    let (ordered, fee) = fee_of_change-eq_ok e r x y from to h2 in
    record {
      exact_before = exact_before;
      exact_after = exact_after;
      ordered = omega (arith, from_is, to_is, ordered);
      fee = omega (arith, from_is, to_is, fee);
    }

Charged-joined :
    (g : Grid) (lot : ℕ) (e : ExactContext) (r : PaperFeeRule) (x y z t u : ℕ)
    → Charged g lot e r x y t
    → Charged g lot e r y z u
    → Charged g lot e r x z (t + u)
Charged-joined g lot e r x y z t u c d = record {
  exact_before = c.exact_before;
  exact_after = d.exact_after;
  ordered = omega (arith, c.ordered, d.ordered);
  fee = omega (arith, c.fee, d.fee, c.ordered, d.ordered);
}

not_less : (a b : ℕ) → a ≤ b → ltb b a ≡ false
not_less a b h = ground arith

-- What has been charged in parts can be charged at once.
Charged-whole :
    (g : Grid) (lot : ℕ) (e : ExactContext) (r : PaperFeeRule) (x y t : ℕ)
    → e.is_exact_difference r x y ≡ true
    → Charged g lot e r x y t
    → (w : FeeAssessment) × (fee_between g lot e r x y ≡ ok w) × (w.fee ≡ t)
unfolding fee_between cumulative_fee fee_of_change
Charged-whole g lot e r x y t exact c =
    let from = fee_units g lot r x * r.quantum_digits in
    let to = fee_units g lot r y * r.quantum_digits in
    let ordered : ltb to from ≡ false = not_less from to c.ordered in
    (
      record { fee = to - from; currency = if (to - from) == 0 then none else some r.currency },
      rw (c.exact_before, c.exact_after, exact, ordered) refl,
      sym c.fee,
    )

module _ (g : Grid) (lot : ℕ) (e : ExactContext) (currency : Option ℕ) where
  -- The rule is there, its currency is the given one, and it has charged this fee.
  pub record Ruled (rule : Option PaperFeeRule) (x y t : ℕ) : Type 0 where
    r : PaperFeeRule
    c : ℕ
    found : rule ≡ some r
    known : currency ≡ some c
    agrees : raise_if (not (c == r.currency)) PolicyFault.fee_currency_mismatch ≡ ok tt
    charged : Charged g lot e r x y t

  fee_by_rule-Ruled :
      (rule : Option PaperFeeRule) (given : Option ℕ) (x y : ℕ) {a : FeeAssessment}
      → given ≡ currency
      → fee_by_rule g lot e rule given x y ≡ ok a
      → Ruled rule x y a.fee
  unfolding fee_by_rule
  fee_by_rule-Ruled none given x y same h = cc
  fee_by_rule-Ruled (some r) none x y same h = cc
  fee_by_rule-Ruled (some r) (some c) x y same h =
      let (agrees, h1) =
        >>-eq_ok (raise_if (not (c == r.currency)) PolicyFault.fee_currency_mismatch) _ h in
      record {
        r = r;
        c = c;
        found = refl;
        known = sym same;
        agrees = agrees;
        charged = fee_between-Charged g lot e r x y h1;
      }

  some_injective : {A : Type 0} {a b : A} → some a ≡ some b → a ≡ b
  some_injective h = cc

  Ruled-joined :
      (rule : Option PaperFeeRule) (x y z t u : ℕ)
      → Ruled rule x y t
      → Ruled rule y z u
      → Ruled rule x z (t + u)
  Ruled-joined rule x y z t u m n =
      let same_rule : n.r ≡ m.r = some_injective (sym n.found ∙ m.found) in
      record {
        r = m.r;
        c = m.c;
        found = m.found;
        known = m.known;
        agrees = m.agrees;
        charged =
            Charged-joined g lot e m.r x y z t u m.charged
              (subst (λ r. Charged g lot e r y z u) same_rule n.charged);
      }

  Ruled-whole :
      (rule : Option PaperFeeRule) (x y t : ℕ)
      → ((r : PaperFeeRule) → e.is_exact_difference r x y ≡ true)
      → Ruled rule x y t
      → (w : FeeAssessment) × (fee_by_rule g lot e rule currency x y ≡ ok w) × (w.fee ≡ t)
  unfolding fee_by_rule
  Ruled-whole rule x y t exact m =
      let found = m.found in
      let known = m.known in
      let agrees = m.agrees in
      let (w, whole, fee) = Charged-whole g lot e m.r x y t (exact m.r) m.charged in
      (w, rw (found, known, agrees) whole, fee)

  -- The fee that the schedule charges.
  abbrev pub ChargedBy : PaperFeeSchedule → (instrument x y t : ℕ) → Type 0
  ChargedBy PaperFeeSchedule.zero_fees instrument x y t = t ≡ 0
  ChargedBy (PaperFeeSchedule.per_unit rules) instrument x y t =
      Ruled (find_rule rules instrument) x y t

  pub assess_fee-ChargedBy :
      (s : PaperFeeSchedule) (instrument x y : ℕ) {a : FeeAssessment}
      → assess_fee g lot e s instrument currency x y ≡ ok a
      → (leb y x ≡ false) × ChargedBy s instrument x y a.fee
  unfolding assess_fee
  assess_fee-ChargedBy PaperFeeSchedule.zero_fees instrument x y h =
      let (up, h1) = >>-eq_ok (raise_if (leb y x) PolicyFault.invalid_input) _ h in
      (raise_if-eq_ok _ _ up, cc)
  assess_fee-ChargedBy (PaperFeeSchedule.per_unit rules) instrument x y h =
      let (up, h1) = >>-eq_ok (raise_if (leb y x) PolicyFault.invalid_input) _ h in
      (raise_if-eq_ok _ _ up, fee_by_rule-Ruled (find_rule rules instrument) currency x y refl h1)

  pub ChargedBy-joined :
      (s : PaperFeeSchedule) (instrument x y z t u : ℕ)
      → ChargedBy s instrument x y t
      → ChargedBy s instrument y z u
      → ChargedBy s instrument x z (t + u)
  ChargedBy-joined PaperFeeSchedule.zero_fees instrument x y z t u c d = omega (arith, c, d)
  ChargedBy-joined (PaperFeeSchedule.per_unit rules) instrument x y z t u c d =
      Ruled-joined (find_rule rules instrument) x y z t u c d

  pub ChargedBy-whole :
      (s : PaperFeeSchedule) (instrument x y t : ℕ)
      → ((r : PaperFeeRule) → e.is_exact_difference r x y ≡ true)
      → leb y x ≡ false
      → ChargedBy s instrument x y t
      → (w : FeeAssessment) × (assess_fee g lot e s instrument currency x y ≡ ok w) × (w.fee ≡ t)
  unfolding assess_fee
  ChargedBy-whole PaperFeeSchedule.zero_fees instrument x y t exact up c =
      (record { fee = 0; currency = none }, rw up refl, sym c)
  ChargedBy-whole (PaperFeeSchedule.per_unit rules) instrument x y t exact up c =
      rw up (Ruled-whole (find_rule rules instrument) x y t exact c)
