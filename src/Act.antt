-- ===== src/Act.antt =====
-- Stateful code: an action takes the state and gives a value and the new state. Errors are values.
use bob.Prelude.{}

abbrev pub Act : Type 0 → Type 0 → Type 0
Act S A = S → A × S

abbrev pub pure : {S A : Type 0} → A → Act S A
pure a s = (a, s)

infixl 5 ◌>>=◌ ◌>>◌
abbrev pub ◌>>=◌ : {S A B : Type 0} → Act S A → (A → Act S B) → Act S B
◌>>=◌ m f s = let (a, t) = m s in f a t

abbrev pub ◌>>◌ : {S A B : Type 0} → Act S A → Act S B → Act S B
m >> n = m >>= λ _. n
