-- ===== src/Common.antt =====
-- The names that the other modules share: the libraries', passed on, and those of the children.
-- A Go string or byte slice is its list of bytes.
mod Tests
mod Lists
mod Int
mod Dict
use Prim.Native.Char.{code}
use Prim.Native.String.{String}
pub use Tests.*
pub use Lists.*
unfoldable pub use Int.*
unfoldable pub use Dict.*
pub use Prim.Native.Nat.{ℕ, zero, suc, ◌+◌, ◌-◌, ◌*◌, ◌/◌, ◌%◌, ◌^◌, ◌≤◌, ◌<◌, min}
pub use mathlib.Core.Path.{◌≡◌, refl, sym, ap, ◌∙◌}
pub use mathlib.Core.Logic.{◌≢◌, ◌↔◌, ◌⊎◌, inl, inr, ite, if_pos, if_neg}
pub use mathlib.Core.Bool.{Bool, true, false, not, ◌&&◌, ◌||◌}
pub use mathlib.Core.Option.{Option, none, some}
pub use mathlib.Core.List.{List, [], ◌∷◌, ◌++◌, map, append_assoc, append-nil}
pub use native.Mathlib.Omega.{arith}
unfoldable pub use native.Mathlib.Decide.{dec_lt, dec_le, ℕ_discrete}

abbrev pub Bytes : Type 0
Bytes = List ℕ

-- The code points of a literal, which are its bytes: every literal of the model is ASCII.
abbrev pub codes : String → Bytes
codes String.[] = []
codes (String.◌∷◌ c s) = code c ∷ codes s

unfoldable pub Bytes-discrete : Discrete Bytes
Bytes-discrete = hlevel ℕ_discrete

infixl 5 ◌>>=◌
abbrev pub ◌>>=◌ {ℓ κ} : {A : Type ℓ} {B : Type κ} → Option A → (A → Option B) → Option B
none >>= f = none
some a >>= f = f a

-- Total correctness: the code returns, without a panic and with fuel left, and `P` holds of the
-- result.
pub data Returns {ℓ κ} {A : Type ℓ} (P : A → Type κ) : Option A → Type (ℓ ⊔ κ) where
  returns : {a : A} → P a → Returns P (some a)

module _ {ℓ κ} {A : Type ℓ} {P : A → Type κ} where
  pub Returns-if :
      (b : Bool) {x y : Option A}
      → (b ≡ true → Returns P x)
      → (b ≡ false → Returns P y)
      → Returns P (if b then x else y)
  Returns-if true h k = h refl
  Returns-if false h k = k refl

  pub Returns-bind {μ ν} :
      {B : Type μ} {Q : B → Type ν} {m : Option B} {f : B → Option A}
      → Returns Q m
      → ((x : B) → Q x → Returns P (f x))
      → Returns P (m >>= f)
  Returns-bind (returns {a = x} q) h = h x q

  pub Returns-value : {m : Option A} → Returns P m → (a : A) × (m ≡ some a) × P a
  Returns-value (returns {a = x} p) = (x, refl, p)

  pub Returns-of : {m : Option A} {a : A} → m ≡ some a → P a → Returns P m
  Returns-of e p = rw e (returns p)

pub Returns-map {ℓ κ μ} :
    {A : Type ℓ} {P : A → Type κ} {Q : A → Type μ} {m : Option A}
    → ((a : A) → P a → Q a)
    → Returns P m
    → Returns Q m
Returns-map h (returns {a = x} p) = returns (h x p)
