-- ===== src/Config/Interp.antt =====
-- `_interp` and `_walk` of packages/agentforge-core/src/agentforge_core/config/loader.py: references
-- `${NAME}`, `${NAME:default}` and `${NAME:?message}` to the environment, and `$$` for a dollar.
pub mod RoundTrip
pub mod References
use agentforge_py.Prelude.{
  ℕ, zero, suc, ◌+◌, Bool, true, false, ◌&&◌, ◌||◌, Option, none, some, List, [], ◌∷◌, ◌++◌, eqb,
  leb, if◌then◌else◌, length, take, drop, Result, ok, err, ◌>>=◌, module_error,
}
use agentforge_py.Config.Tree.{
  Text, Tree, text, null, scalar, sequence, mapping, Trees, no_trees, tree, Fields, no_fields,
  field,
}

-- `os.environ.get`
abbrev pub Environ : Type 0
Environ = Text → Option Text

abbrev pub dollar : ℕ
dollar = 0x24

-- `[A-Z_]` and `[A-Z0-9_]`
abbrev pub starts_name : ℕ → Bool
starts_name c = leb 0x41 c && leb c 0x5a || eqb c 0x5f

abbrev pub in_name : ℕ → Bool
in_name c = starts_name c || leb 0x30 c && leb c 0x39

-- The longest run of name characters, and the rest.
abbrev pub name_run : Text → Text × Text
name_run [] = ([], [])
name_run (c ∷ cs) =
    let (name, rest) = name_run cs in if in_name c then (c ∷ name, rest) else ([], c ∷ cs)

-- `[^}]*` up to the next brace; `none` when there is none.
abbrev pub up_to_brace : Text → Option Text
up_to_brace [] = none
up_to_brace (c ∷ cs) =
    let rest = up_to_brace cs in
    if eqb c 0x7d then some [] else (elim rest [ none ↦ none | some t ↦ some (c ∷ t) ])

-- What follows the name in a reference: nothing, a message or a default.
pub data Fallback : Type 0 where
  no_fallback : Fallback
  message : Text → Fallback
  default : Text → Fallback

abbrev pub with_body : (Text → Fallback) → ℕ → Option Text → Option (Fallback × ℕ)
with_body make extra none = none
with_body make extra (some body) = some (make body, extra + length body)

abbrev pub after_colon : Text → Option (Fallback × ℕ)
after_colon [] = none
after_colon (d ∷ ds) =
    if eqb d 0x3f
    then with_body message 3 (up_to_brace ds)
    else with_body default 2 (up_to_brace (d ∷ ds))

-- The end of a reference after its name: the fallback, and the number of characters to the brace.
abbrev pub tail_of : Text → Option (Fallback × ℕ)
tail_of [] = none
tail_of (c ∷ cs) =
    if eqb c 0x7d then some (no_fallback, 1) else (if eqb c 0x3a then after_colon cs else none)

-- The value of a reference.
unfoldable pub resolved : Environ → Text → Fallback → Result Text
resolved environ name f = elim (environ name) [
  | some v ↦ ok v
  | none ↦ elim f [
    | message m ↦ err module_error
    | default d ↦ ok d
    | no_fallback ↦ err module_error
  ]
]

-- The reference with a name, from the rest of its match.
abbrev pub with_tail : Environ → Text → Option (Fallback × ℕ) → Option (Result Text × ℕ)
with_tail environ name none = none
with_tail environ name (some (f, n)) = some (resolved environ name f, suc (length name + n))

abbrev pub named : Environ → Text × Text → Option (Result Text × ℕ)
named environ ([], rest) = none
named environ (n ∷ ns, rest) =
    if starts_name n then with_tail environ (n ∷ ns) (tail_of rest) else none

-- A match of the pattern at a dollar, from what follows it: the text in its place, and how many
-- characters after the dollar it takes up.
unfoldable pub reference_at : Environ → Text → Option (Result Text × ℕ)
reference_at environ [] = none
reference_at environ (c ∷ cs) =
    if eqb c dollar
    then some (ok (dollar ∷ []), 1)
    else (if eqb c 0x7b then named environ (name_run cs) else none)

-- `re.sub` from left to right; `skip` is how many characters of the last match are still to be passed.
unfoldable pub interp_from : Environ → ℕ → Text → Result Text
interp_from environ skip [] = ok []
interp_from environ (suc skip) (c ∷ cs) = interp_from environ skip cs
interp_from environ zero (c ∷ cs) = elim (if eqb c dollar then reference_at environ cs else none) [
  | none ↦ (do rest ← interp_from environ zero cs; ok (c ∷ rest))
  | some (r, n) ↦ (do t ← r; rest ← interp_from environ n cs; ok (t ++ rest))
]

unfoldable pub interp : Environ → Text → Result Text
interp environ value = interp_from environ zero value

unfoldable mutual
  pub interp_tree : Environ → Tree → Result Tree
  interp_tree environ (text t) = do u ← interp environ t; ok (text u)
  interp_tree environ null = ok null
  interp_tree environ (scalar b s) = ok (scalar b s)
  interp_tree environ (sequence ts) = do us ← interp_trees environ ts; ok (sequence us)
  interp_tree environ (mapping d) = do e ← interp_fields environ d; ok (mapping e)

  pub interp_trees : Environ → Trees → Result Trees
  interp_trees environ no_trees = ok no_trees
  interp_trees environ (tree t ts) = do
    u ← interp_tree environ t
    us ← interp_trees environ ts
    ok (tree u us)

  pub interp_fields : Environ → Fields → Result Fields
  interp_fields environ no_fields = ok no_fields
  interp_fields environ (field k v d) = do
    w ← interp_tree environ v
    e ← interp_fields environ d
    ok (field k w e)
