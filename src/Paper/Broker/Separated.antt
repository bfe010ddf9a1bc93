-- ===== src/Paper/Broker/Separated.antt =====
-- When different submissions have different order ids.
use tx_trader.Common.{
  ℕ, ◌≡◌, refl, sym, ap, ◌∙◌, Bool, true, false, ◌&&◌, not, List, [], ◌∷◌, ◌++◌, ◌==◌, Dict, eq_nat,
  eq_pair, if◌then◌else◌, arith,
}
use tx_trader.Paper.Broker.State.{Broker, OutcomeRecord}
use tx_trader.Paper.Broker.Names.{separator, order_name, order_id}
use tx_trader.Paper.Broker.Owned.{Has}

-- The text has no separator.
unfoldable pub is_free : List ℕ → Bool
is_free [] = true
is_free (c ∷ s) = let rest = is_free s in not (c == separator) && rest

-- What stands before the first separator, and what stands after it.
unfoldable before : List ℕ → List ℕ
before [] = []
before (c ∷ s) = let rest = before s in if c == separator then [] else c ∷ rest

unfoldable after : List ℕ → List ℕ
after [] = []
after (c ∷ s) = let rest = after s in if c == separator then s else rest

free_parts :
    (c : ℕ) (s : List ℕ) → is_free (c ∷ s) ≡ true → ((c == separator) ≡ false) × (is_free s ≡ true)
unfolding is_free
free_parts c s h = ground arith

before-joined : (s t : List ℕ) → is_free s ≡ true → before (s ++ (separator ∷ t)) ≡ s
unfolding before
before-joined [] t h = refl
before-joined (c ∷ s) t h =
    let (other, free) = free_parts c s h in rw other (ap (λ x. c ∷ x) (before-joined s t free))

after-joined : (s t : List ℕ) → is_free s ≡ true → after (s ++ (separator ∷ t)) ≡ t
unfolding after
after-joined [] t h = refl
after-joined (c ∷ s) t h = let (other, free) = free_parts c s h in rw other (after-joined s t free)

-- The recorded submissions can be told apart: different ids have different texts, no strategy id
-- has a separator, and uuid5 gives their names different ids.
pub record IsSeparated (b : Broker) (outcomes : Dict (ℕ × ℕ) OutcomeRecord) : Type 0 where
  pub spelled : (m n : ℕ) → b.text m ≡ b.text n → m ≡ n
  pub free : (key : ℕ × ℕ) → Has outcomes key → is_free (b.text key.0) ≡ true
  pub apart :
      (key key' : ℕ × ℕ)
      → Has outcomes key
      → Has outcomes key'
      → b.uuid5 (order_name b key) ≡ b.uuid5 (order_name b key')
      → order_name b key ≡ order_name b key'

-- A name whose strategy id has no separator leads back to the two ids.
order_name-parts :
    (b : Broker) (key : ℕ × ℕ)
    → is_free (b.text key.0) ≡ true
    → (before (after (order_name b key)) ≡ b.text key.0)
      × (after (after (order_name b key)) ≡ b.text key.1)
unfolding order_name after
order_name-parts b key h =
    (before-joined (b.text key.0) (b.text key.1) h, after-joined (b.text key.0) (b.text key.1) h)

pub order_id-distinct :
    (b : Broker) (outcomes : Dict (ℕ × ℕ) OutcomeRecord) (key key' : ℕ × ℕ)
    → IsSeparated b outcomes
    → Has outcomes key
    → Has outcomes key'
    → order_id b key.0 key.1 ≡ order_id b key'.0 key'.1
    → key ≡ key'
order_id-distinct b outcomes key key' s h h' e =
    let same_name = s.apart key key' h h' e in
    let (strategy, client) = order_name-parts b key (s.free key h) in
    let (strategy', client') = order_name-parts b key' (s.free key' h') in
    let first : key.0 ≡ key'.0 =
      s.spelled _ _ (sym strategy ∙ ap (λ x. before (after x)) same_name ∙ strategy') in
    let second : key.1 ≡ key'.1 =
      s.spelled _ _ (sym client ∙ ap (λ x. after (after x)) same_name ∙ client') in
    cc
