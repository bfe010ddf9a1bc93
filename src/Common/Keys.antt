-- ===== src/Common/Keys.antt =====
-- Equality as an interface, and Python dicts in insertion order over any type of keys that has it.
use Prim.Native.Nat.{ℕ, suc, ◌≤◌}
use mathlib.Core.Path.{◌≡◌, refl}
use mathlib.Core.Logic.{◌↔◌, inl, inr}
use mathlib.Core.Bool.{Bool, true, false, ◌&&◌}
use mathlib.Core.Option.{Option, none, some}
use mathlib.Core.List.{List, [], ◌∷◌}
use native.Mathlib.Omega.{arith}
use tx_trader.Common.Tests.{◌==◌, ==_iff, if◌then◌else◌, length, Bool-cases}

pub record Eq (A : Type 0) : Type 0 where
  pub beq : A → A → Bool
  pub beq_iff : (a b : A) → (beq a b ≡ true) ↔ (a ≡ b)

instance abbrev pub eq_nat : Eq ℕ
eq_nat = record { beq = ◌==◌; beq_iff = ==_iff }

and_true : (a b : Bool) → (a && b) ≡ true → (a ≡ true) × (b ≡ true)
and_true true b h = (refl, h)
and_true false b h = cc

both_true : (a b : Bool) → a ≡ true → b ≡ true → (a && b) ≡ true
both_true a b p q = rw p q

pub pair_iff :
    {A B : Type 0} (e : Eq A) (f : Eq B) (a b : A × B)
    → ((e.beq a.0 b.0 && f.beq a.1 b.1) ≡ true) ↔ (a ≡ b)
pair_iff e f a b = (
  λ h.
      let (p, q) = and_true (e.beq a.0 b.0) (f.beq a.1 b.1) h in
      let first : a.0 ≡ b.0 = (e.beq_iff a.0 b.0).0 p in
      let second : a.1 ≡ b.1 = (f.beq_iff a.1 b.1).0 q in cc,
  λ h. both_true _ _ ((e.beq_iff a.0 b.0).1 (rw h refl)) ((f.beq_iff a.1 b.1).1 (rw h refl)),
)

instance abbrev pub eq_pair : {A B : Type 0} ⦃e : Eq A⦄ ⦃f : Eq B⦄ → Eq (A × B)
eq_pair ⦃e⦄ ⦃f⦄ = record { beq = λ a b. e.beq a.0 b.0 && f.beq a.1 b.1; beq_iff = pair_iff e f }

-- A key of three parts.
pub triple_iff :
    {A B C : Type 0} (e : Eq A) (f : Eq B) (g : Eq C) (a b : A × B × C)
    → ((e.beq a.0 b.0 && f.beq a.1 b.1 && g.beq a.2 b.2) ≡ true) ↔ (a ≡ b)
triple_iff e f g a b = (
  λ h.
      let (pq, r) = and_true (e.beq a.0 b.0 && f.beq a.1 b.1) (g.beq a.2 b.2) h in
      let (p, q) = and_true (e.beq a.0 b.0) (f.beq a.1 b.1) pq in
      let first : a.0 ≡ b.0 = (e.beq_iff a.0 b.0).0 p in
      let second : a.1 ≡ b.1 = (f.beq_iff a.1 b.1).0 q in
      let third : a.2 ≡ b.2 = (g.beq_iff a.2 b.2).0 r in cc,
  λ h.
      both_true _ _
        (both_true _ _ ((e.beq_iff a.0 b.0).1 (rw h refl)) ((f.beq_iff a.1 b.1).1 (rw h refl)))
        ((g.beq_iff a.2 b.2).1 (rw h refl)),
)

instance abbrev pub eq_triple : {A B C : Type 0} ⦃e : Eq A⦄ ⦃f : Eq B⦄ ⦃g : Eq C⦄ → Eq (A × B × C)
eq_triple ⦃e⦄ ⦃f⦄ ⦃g⦄ = record {
  beq = λ a b. e.beq a.0 b.0 && f.beq a.1 b.1 && g.beq a.2 b.2;
  beq_iff = triple_iff e f g;
}

pub beq_self : {K : Type 0} ⦃e : Eq K⦄ (k : K) → e.beq k k ≡ true
beq_self ⦃e⦄ k = (e.beq_iff k k).1 refl

abbrev pub Dict : Type 0 → Type 0 → Type 0
Dict K V = List (K × V)

module _ {K V : Type 0} ⦃e : Eq K⦄ where
  -- `d.get(k)`
  unfoldable pub get : Dict K V → K → Option V
  get [] k = none
  get ((j, v) ∷ d) k = if e.beq j k then some v else get d k

  -- `d[k] = v`
  unfoldable pub put : Dict K V → K → V → Dict K V
  put [] k v = (k, v) ∷ []
  put ((j, u) ∷ d) k v = let rest = put d k v in if e.beq j k then (k, v) ∷ d else (j, u) ∷ rest

  pub get-put_self : (d : Dict K V) (k : K) (v : V) → get (put d k v) k ≡ some v
  unfolding get put
  get-put_self [] k v = rw (beq_self k)
  get-put_self ((j, u) ∷ d) k v = elim (Bool-cases (e.beq j k)) [
    | inl hit ↦ rw hit (rw (beq_self k) refl)
    | inr miss ↦ rw miss (rw miss (get-put_self d k v))
  ]

  pub get-put_other :
      (d : Dict K V) (k k' : K) (v : V) → e.beq k k' ≡ false → get (put d k v) k' ≡ get d k'
  unfolding get put
  get-put_other [] k k' v h = rw h
  get-put_other ((j, u) ∷ d) k k' v h = elim (Bool-cases (e.beq j k)) [
    | inl hit ↦
        let same_key : j ≡ k = (e.beq_iff j k).0 hit in rw same_key (rw (beq_self k) (rw h refl))
    | inr miss ↦ rw miss elim (Bool-cases (e.beq j k')) [
      | inl here ↦ rw here refl
      | inr there ↦ rw there (get-put_other d k k' v h)
    ]
  ]

  pub length-put : (d : Dict K V) (k : K) (v : V) → length (put d k v) ≤ suc (length d)
  unfolding put
  length-put [] k v = omega arith
  length-put ((j, u) ∷ d) k v = elim (Bool-cases (e.beq j k)) [
    | inl hit ↦ rw hit (omega arith)
    | inr miss ↦ rw miss (omega (arith, length-put d k v))
  ]
