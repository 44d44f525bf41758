-- ===== src/Resolver/ModelString.antt =====
-- `parse_model_string` takes a text apart as it is put together.
use agentforge_py.Prelude.{ℕ, true, not, some, List, [], ◌∷◌, ◌++◌, ◌≡◌, refl, arith, eqb, all, ok}
use agentforge_py.Resolver.{at_colon, parse_model_string}

at_colon-join :
    (p m : List ℕ) → all (λ c. not (eqb c 0x3a)) p ≡ true → at_colon (p ++ 0x3a ∷ m) ≡ some (p, m)
at_colon-join [] m h = refl
at_colon-join (c ∷ p) m h = ground (arith, h, at_colon-join p m)

-- A provider without a colon and a model, neither empty, joined by a colon, are parsed back, also when
-- the model has colons of its own.
pub parse_model_string-join :
    (p : ℕ) (ps : List ℕ) (m : ℕ) (ms : List ℕ)
    → all (λ c. not (eqb c 0x3a)) (p ∷ ps) ≡ true
    → parse_model_string ((p ∷ ps) ++ 0x3a ∷ m ∷ ms) ≡ ok (p ∷ ps, m ∷ ms)
unfolding parse_model_string
parse_model_string-join p ps m ms h =
    rw (at_colon-join (p ∷ ps) (m ∷ ms) h, parse_model_string) refl
