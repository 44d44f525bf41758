-- ===== src/Config/Interp/References.antt =====
-- What a reference to the environment stands for.
use agentforge_py.Prelude.{
  ℕ, zero, suc, ◌+◌, Bool, true, not, some, [], ◌∷◌, ◌++◌, ◌≡◌, refl, subst, ap, eqb, length,
  length-append, all, Option, none, Result, ok, err, module_error, ◌>>=◌,
}
use mathlib.Core.List.{append_assoc}
use agentforge_py.Config.Tree.{Text}
use agentforge_py.Config.Interp.{
  Environ, dollar, starts_name, in_name, Fallback, no_fallback, message, default, interp_from,
  interp,
}

-- The value of a variable, or what stands for it when it is not set.
abbrev pub variable_or : Option Text → Result Text → Result Text
variable_or none r = r
variable_or (some v) r = ok v

abbrev unset : Fallback → Result Text
unset no_fallback = err module_error
unset (message m) = err module_error
unset (default d) = ok d

abbrev pub not_brace : ℕ → Bool
not_brace c = not (eqb c 0x7d)

module _ (environ : Environ) where
  interp_from-skip :
      (passed rest : Text)
      → interp_from environ (length passed) (passed ++ rest) ≡ interp_from environ zero rest
  unfolding interp_from
  interp_from-skip [] rest = refl
  interp_from-skip (c ∷ passed) rest = interp_from-skip passed rest

  module _ (n : ℕ) (ns : Text) (first : starts_name n ≡ true) (name : all in_name ns ≡ true) where
    -- What the text with the reference `${` name, `d`, `more` becomes, before `rest`.
    abbrev pub Stands : Result Text → ℕ → Text → Text → Type 0
    Stands value d more rest =
        interp environ (dollar ∷ 0x7b ∷ (n ∷ ns) ++ (d ∷ more ++ rest))
        ≡ (value >>= λ t. interp environ rest >>= λ after. ok (t ++ after))

    skipped :
        (d : ℕ) (more rest : Text)
        → interp_from environ
            (suc (length (n ∷ ns) + length (d ∷ more)))
            (0x7b ∷ (n ∷ ns) ++ (d ∷ more ++ rest))
          ≡ interp_from environ zero rest
    skipped d more rest =
        subst
          (λ (k : ℕ).
            interp_from environ k (0x7b ∷ (n ∷ ns) ++ (d ∷ more ++ rest))
            ≡ interp_from environ zero rest)
          (ap suc (length-append (n ∷ ns) (d ∷ more)))
          (subst
            (λ (t : Text).
              interp_from environ (suc (length ((n ∷ ns) ++ d ∷ more))) (0x7b ∷ t)
              ≡ interp_from environ zero rest)
            (append_assoc (n ∷ ns) (d ∷ more) rest)
            (interp_from-skip (0x7b ∷ (n ∷ ns) ++ d ∷ more) rest))
