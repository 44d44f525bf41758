-- ===== src/Resolver/Discovery.antt =====
-- What the discovery of entry points registers.
use agentforge_py.Prelude.{
  ℕ, Bool, true, false, ◌&&◌, ◌≡◌, refl, sym, ◌∙◌, ap, arith, Option, none, some, List, [], ◌∷◌,
  ◌++◌, String, ◌==◌, if◌then◌else◌, Result, ok, err, module_error, Bool-cases, All, eq_refl,
  eq_iff, inl, inr,
}
use agentforge_py.Resolver.{
  Registered, Resolver, find_class, registered, register, class_or_error, EntryPoint, Loaded,
  a_class, no_class, failed, category_of, entered, enter_class, add_entry, entry_loop,
  discover_entry_points, ensure_discovered, resolve, clear,
}

-- `a`, or else `b`.
abbrev pub or_else : Option String → Option String → Option String
or_else none b = b
or_else (some a) b = some a

-- What an entry point offers for a key.
abbrev pub offer : String → String → String → Option (String × String) → Option String
offer c n name none = none
offer c n name (some (c', cls)) = if (c' == c) && (name == n) then some cls else none

find_class-append :
    (c n : String) (rs ss : List Registered)
    → find_class c n (rs ++ ss) ≡ or_else (find_class c n rs) (find_class c n ss)
unfolding find_class
find_class-append c n [] ss = refl
find_class-append c n (r ∷ rs) ss = ground (arith, find_class-append c n rs ss)

or_else-none : (a : Option String) → or_else a none ≡ a
or_else-none none = refl
or_else-none (some a) = refl

-- The registry after a registration that may be refused.
abbrev kept : List Registered → Result (List Registered) → List Registered
kept rs (err e) = rs
kept rs (ok ss) = ss

entered_registry :
    (c : String) (ep : EntryPoint) (res : Result (List Registered)) (acc : ℕ × Resolver)
    → (entered c ep res acc).1.registry ≡ kept acc.1.registry res
entered_registry c ep (err e) (n, r) = refl
entered_registry c ep (ok rs) (n, r) = refl

same_key :
    (c n c' m : String) (rs : List Registered)
    → (c' == c) && (m == n) ≡ true
    → find_class c' m rs ≡ find_class c n rs
same_key c n c' m rs both =
    let names : (c' ≡ c) × (m ≡ n) = keys_of both in
    ap (λ d. find_class d m rs) names.0 ∙ ap (λ k. find_class c k rs) names.1
  where
    keys_of : (c' == c) && (m == n) ≡ true → (c' ≡ c) × (m ≡ n)
    keys_of h = ground (arith, h, eq_iff c' c, eq_iff m n)

-- A class that is registered is found, unless the key had one before; other keys keep theirs.
kept_registered :
    (c n c' m cls : String) (rs : List Registered) (o : Option String)
    → find_class c' m rs ≡ o
    → find_class c n (kept rs (registered c' m cls rs o))
      ≡ or_else (find_class c n rs) (offer c n m (some (c', cls)))
unfolding find_class
kept_registered c n c' m cls rs none h =
    find_class-append c n rs (record { category = c'; name = m; cls = cls } ∷ [])
kept_registered c n c' m cls rs (some old) h = unchanged_or (old == cls) ∙ settled
  where
    unchanged_or :
        (b : Bool)
        → find_class c n (kept rs (if b then ok rs else err module_error)) ≡ find_class c n rs
    unchanged_or true = refl
    unchanged_or false = refl

    settled : find_class c n rs ≡ or_else (find_class c n rs) (offer c n m (some (c', cls)))
    settled = elim (Bool-cases ((c' == c) && (m == n))) [
      | inl both ↦ rw (sym (same_key c n c' m rs both) ∙ h) refl
      | inr other ↦ rw other (sym (or_else-none (find_class c n rs)))
    ]

-- Loading an entry point keeps the class of every key that has one: the decorators of the modules that
-- it imports register what is new, and raise at a conflict.
abbrev pub KeepsClasses : EntryPoint → Type 0
KeepsClasses ep =
    (c n cls : String) (rs : List Registered)
    → find_class c n rs ≡ some cls
    → find_class c n (ep.load rs).1 ≡ some cls

enter_class-keeps :
    (c' : String) (ep : EntryPoint) (l : Loaded) (c n cls : String) (acc : ℕ × Resolver)
    → find_class c n acc.1.registry ≡ some cls
    → find_class c n (enter_class c' ep l acc).1.registry ≡ some cls
unfolding register
enter_class-keeps c' ep no_class c n cls acc h = h
enter_class-keeps c' ep failed c n cls acc h = h
enter_class-keeps c' ep (a_class new) c n cls acc h =
    ap (find_class c n) (entered_registry c' ep (register c' ep.name new acc.1.registry) acc)
    ∙ kept_registered c n c' ep.name new acc.1.registry (find_class c' ep.name acc.1.registry) refl
    ∙ rw h refl

add_entry-keeps :
    (ep : EntryPoint) (category : Option String) (c n cls : String) (acc : ℕ × Resolver)
    → KeepsClasses ep
    → find_class c n acc.1.registry ≡ some cls
    → find_class c n (add_entry ep category acc).1.registry ≡ some cls
add_entry-keeps ep none c n cls acc keeps h = h
add_entry-keeps ep (some c') c n cls acc keeps h =
    enter_class-keeps c' ep (ep.load acc.1.registry).0 c n cls _ (keeps c n cls acc.1.registry h)

entry_loop-keeps :
    (eps : List EntryPoint) (c n cls : String) (acc : ℕ × Resolver)
    → All KeepsClasses eps
    → find_class c n acc.1.registry ≡ some cls
    → find_class c n (entry_loop eps acc).1.registry ≡ some cls
unfolding entry_loop
entry_loop-keeps [] c n cls acc keeps h = h
entry_loop-keeps (ep ∷ eps) c n cls acc keeps h =
    entry_loop-keeps eps c n cls (add_entry ep (category_of ep) acc) keeps.1
      (add_entry-keeps ep (category_of ep) c n cls acc keeps.0 h)

entry_loop-append :
    (xs ys : List EntryPoint) (acc : ℕ × Resolver)
    → entry_loop (xs ++ ys) acc ≡ entry_loop ys (entry_loop xs acc)
unfolding entry_loop
entry_loop-append [] ys acc = refl
entry_loop-append (x ∷ xs) ys acc = entry_loop-append xs ys (add_entry x (category_of x) acc)

-- The class of a key, or else `cls`.
abbrev pub class_or : String → Option String → String
class_or cls none = cls
class_or cls (some old) = old

or_else-class_or : (o : Option String) (cls : String) → or_else o (some cls) ≡ some (class_or cls o)
or_else-class_or none cls = refl
or_else-class_or (some old) cls = refl

own_offer : (c n cls : String) → offer c n n (some (c, cls)) ≡ some cls
own_offer c n cls = rw (eq_refl c, eq_refl n) refl

-- An entry point that loads to a class leaves its key with the class that the key has after the import,
-- or else with its own.
add_entry-class :
    (ep : EntryPoint) (c cls : String) (acc : ℕ × Resolver)
    → category_of ep ≡ some c
    → (ep.load acc.1.registry).0 ≡ a_class cls
    → find_class c ep.name (add_entry ep (category_of ep) acc).1.registry
      ≡ some (class_or cls (find_class c ep.name (ep.load acc.1.registry).1))
unfolding register
add_entry-class ep c cls acc category loaded =
    let rs = (ep.load acc.1.registry).1 in
    let acc' : ℕ × Resolver = (acc.0, record acc.1 { registry = rs }) in
    ap (λ o. find_class c ep.name (add_entry ep o acc).1.registry) category
    ∙ ap (λ l. find_class c ep.name (enter_class c ep l acc').1.registry) loaded
    ∙ ap (find_class c ep.name) (entered_registry c ep (register c ep.name cls rs) acc')
    ∙ kept_registered c ep.name c ep.name cls rs (find_class c ep.name rs) refl
    ∙ ap (or_else (find_class c ep.name rs)) (own_offer c ep.name cls)
    ∙ or_else-class_or (find_class c ep.name rs) cls

ensured :
    (eps : List EntryPoint) (r : Resolver)
    → r.discovered ≡ false
    → ensure_discovered eps r ≡ record (entry_loop eps (0, r)).1 { discovered = true }
unfolding ensure_discovered discover_entry_points
ensured eps r fresh = simp (fresh) refl

-- A class that the key had before stays.
settled :
    (o : Option String) (cls result : String)
    → ((old : String) → o ≡ some old → result ≡ old)
    → result ≡ class_or result o
settled none cls result h = refl
settled (some old) cls result h = h old refl

-- The first resolution discovers. When loading keeps the class of every key that has one, the key of
-- any entry point that loads to a class resolves to the class registered for it before the discovery;
-- or else to the one it has when that entry point was just loaded, from an earlier entry point or an
-- imported module; or else to that entry point's class. From then on the entry points are not looked at
-- again: after the registry was cleared every key fails, although they are still installed.
pub resolve-first :
    (before after : List EntryPoint) (ep : EntryPoint) (c cls d m : String) (r : Resolver)
    → r.discovered ≡ false
    → All KeepsClasses (before ++ ep ∷ after)
    → category_of ep ≡ some c
    → (ep.load (entry_loop before (0, r)).1.registry).0 ≡ a_class cls
    → let eps = before ++ ep ∷ after in
      let loaded = find_class c ep.name (ep.load (entry_loop before (0, r)).1.registry).1 in
      ((resolve eps c ep.name r).0
        ≡ ok (class_or (class_or cls loaded) (find_class c ep.name r.registry)))
      × ((resolve eps d m (clear (resolve eps c ep.name r).1)).0 ≡ err module_error)
unfolding resolve ensure_discovered discover_entry_points clear find_class entry_loop
resolve-first before after ep c cls d m r fresh keeps category loads =
    let eps = before ++ ep ∷ after in
    let found = ensured eps r fresh in
    let acc = entry_loop before (0, r) in
    let loaded = find_class c ep.name (ep.load acc.1.registry).1 in
    let reached : find_class c ep.name (entry_loop eps (0, r)).1.registry
        ≡ some (class_or cls loaded) =
      ap (λ (a : ℕ × Resolver). find_class c ep.name a.1.registry)
        (entry_loop-append before (ep ∷ after) (0, r))
      ∙ entry_loop-keeps after c ep.name (class_or cls loaded) (add_entry ep (category_of ep) acc)
          (after_part before keeps) (add_entry-class ep c cls acc category loads) in
    (
      ap (λ t. class_or_error (find_class c ep.name t.registry)) found
          ∙ ap class_or_error reached
          ∙ ap ok (
              settled (find_class c ep.name r.registry) cls (class_or cls loaded) (λ old h.
                some_same (sym reached ∙ entry_loop-keeps eps c ep.name old (0, r) keeps h))),
      ap (λ t. class_or_error (find_class d m (ensure_discovered eps (clear t)).registry)) found,
    )
  where
    after_part :
        (xs : List EntryPoint) → All KeepsClasses (xs ++ ep ∷ after) → All KeepsClasses after
    after_part [] h = h.1
    after_part (x ∷ xs) h = after_part xs h.1

    some_same : {a b : String} → some a ≡ some b → a ≡ b
    some_same h = cc h
