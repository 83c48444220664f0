-- ===== src/Server/Run.antt =====
-- The result of code of the server, or of a session, that may panic, or may not return.

-- `out_of_fuel` is for a loop or a recursion that used up the rounds it was given.
pub data Run {ℓ} (A : Type ℓ) : Type ℓ where
  done : A → Run A
  panicked : Run A
  out_of_fuel : Run A

infixl 5 ◌>>=◌
abbrev pub ◌>>=◌ {ℓ κ} : {A : Type ℓ} {B : Type κ} → Run A → (A → Run B) → Run B
done a >>= f = f a
panicked >>= f = panicked
out_of_fuel >>= f = out_of_fuel

-- The run ends within its fuel, and what it returns, where it does not panic, satisfies P.
abbrev pub Returns {ℓ} : {A : Type ℓ} → (A → Type 0) → Run A → Type 0
Returns P (done a) = P a
Returns P panicked = Unit {0}
Returns P out_of_fuel = ⊥

pub Returns-bind {ℓ κ} :
    {A : Type ℓ} {B : Type κ} (Q : A → Type 0) (P : B → Type 0) (m : Run A) (f : A → Run B)
    → Returns Q m
    → ((a : A) → Q a → Returns P (f a))
    → Returns P (m >>= f)
Returns-bind Q P (done a) f q h = h a q
Returns-bind Q P panicked f q h = tt
Returns-bind Q P out_of_fuel f q h = elim q [ ]

pub Returns-map {ℓ} :
    {A : Type ℓ} {Q P : A → Type 0}
    → ((a : A) → Q a → P a)
    → (m : Run A) → Returns Q m
    → Returns P m
Returns-map h (done a) q = h a q
Returns-map h panicked q = tt
Returns-map h out_of_fuel q = elim q [ ]
