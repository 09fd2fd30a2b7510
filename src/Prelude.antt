-- ===== src/Prelude.antt =====
-- The names that the other modules share: the libraries', passed on, and those of the children.
mod Tests
mod Lists
mod Int
mod Bits
pub use Tests.*
pub use Lists.*
pub use Int.*
pub use Bits.*
pub use Prim.Native.Nat.{ℕ, zero, suc, ◌+◌, ◌-◌, ◌*◌, ◌/◌, ◌%◌, ◌^◌, ◌≤◌, ◌<◌, bit_and, bit_or, min}
pub use mathlib.Core.Path.{◌≡◌, refl, sym, subst, ap, ap₂, ◌∙◌}
pub use mathlib.Core.Logic.{◌≢◌, ◌↔◌, ◌⊎◌, inl, inr}
pub use mathlib.Core.Bool.{Bool, true, false, not, ◌&&◌, ◌||◌}
pub use mathlib.Core.Option.{Option, none, some}
pub use mathlib.Core.List.{List, [], ◌∷◌, ◌++◌, append_assoc, append-nil}
pub use native.Mathlib.Omega.{arith}

-- uint32_t arithmetic keeps the low 32 bits.
abbrev pub u32 : ℕ → ℕ
u32 n = n % 2 ^ 32

-- A test on each of the `left` numbers from `i` on, for tables that are checked by evaluation.
unfoldable pub passes : ℕ → ℕ → (ℕ → Bool) → Bool
passes zero i test = true
passes (suc left) i test = elim (test i) [ true ↦ passes left (i + 1) test | false ↦ false ]

passes-true :
    (left i : ℕ) (test : ℕ → Bool) (x : ℕ)
    → passes left i test ≡ true
    → i ≤ x
    → x < i + left
    → test x ≡ true
unfolding passes
passes-true zero i test x all lo hi = absurd (omega arith)
passes-true (suc left) i test x all lo hi = elim (eq_or_ne i x) [
  | inl e ↦ ap test (sym e) ∙ ground arith
  | inr ne ↦ passes-true left (i + 1) test x (ground arith) (omega arith) (omega arith)
]

-- What a table of the first `n` numbers says of each of them.
pub table_entry : (n : ℕ) (test : ℕ → Bool) (x : ℕ) → passes n 0 test ≡ true → x < n → test x ≡ true
table_entry n test x all h = passes-true n 0 test x all (omega arith) (omega arith)
