-- ===== src/Graph/Paths.antt =====
-- Paths and cycles of the dependency graph, and the cycle that `visitGraph` cuts out of its stack.
use process_deck.Base.{◌≡◌, refl, inl, inr, true, List, [], ◌∷◌, ◌++◌, some, Bool-cases, arith}
use process_deck.Base.Text.{Text, same, same_iff, member}
use process_deck.Graph.{Deps, deps_of, cycle_from}

module _ (deps : Deps) where
  -- Each process depends on the one behind it.
  abbrev pub IsPath : List Text → Type 0
  IsPath [] = Unit
  IsPath (name ∷ []) = Unit
  IsPath (name ∷ next ∷ names) = (member next (deps_of deps name) ≡ true) × IsPath (next ∷ names)

  -- The last process of the list depends on `dep`.
  abbrev pub LinksTo : List Text → Text → Type 0
  LinksTo [] dep = ⊥
  LinksTo (name ∷ []) dep = member dep (deps_of deps name) ≡ true
  LinksTo (name ∷ next ∷ names) dep = LinksTo (next ∷ names) dep

  abbrev pub EndsIn : List Text → Text → Type 0
  EndsIn [] end = ⊥
  EndsIn (name ∷ []) end = name ≡ end
  EndsIn (name ∷ next ∷ names) end = EndsIn (next ∷ names) end

  -- A path of at least one step back to where it began.
  abbrev pub IsCycle : List Text → Type 0
  IsCycle [] = ⊥
  IsCycle (name ∷ names) = IsPath (name ∷ names) × EndsIn names name

  pub IsPath-snoc :
      (names : List Text) (dep : Text)
      → IsPath names
      → LinksTo names dep
      → IsPath (names ++ (dep ∷ []))
  IsPath-snoc [] dep p l = tt
  IsPath-snoc (name ∷ []) dep p l = (l, tt)
  IsPath-snoc (name ∷ next ∷ names) dep p l = (p.0, IsPath-snoc (next ∷ names) dep p.1 l)

  pub LinksTo-snoc :
      (names : List Text) (name dep : Text)
      → member dep (deps_of deps name) ≡ true
      → LinksTo (names ++ (name ∷ [])) dep
  LinksTo-snoc [] name dep h = h
  LinksTo-snoc (x ∷ []) name dep h = h
  LinksTo-snoc (x ∷ y ∷ names) name dep h = LinksTo-snoc (y ∷ names) name dep h

  EndsIn-snoc : (names : List Text) (dep : Text) → EndsIn (names ++ (dep ∷ [])) dep
  EndsIn-snoc [] dep = refl
  EndsIn-snoc (x ∷ []) dep = refl
  EndsIn-snoc (x ∷ y ∷ names) dep = EndsIn-snoc (y ∷ names) dep

  IsPath-tail : (name : Text) (names : List Text) → IsPath (name ∷ names) → IsPath names
  IsPath-tail name [] p = tt
  IsPath-tail name (next ∷ names) p = p.1

  LinksTo-tail :
      (name dep : Text) (names : List Text)
      → member dep names ≡ true
      → LinksTo (name ∷ names) dep
      → LinksTo names dep
  unfolding member
  LinksTo-tail name dep [] m l = cc
  LinksTo-tail name dep (next ∷ names) m l = l

  -- A dependency on the stack closes a cycle, which is found.
  pub cycle_from-IsCycle :
      (dep : Text) (stack : List Text)
      → IsPath stack
      → LinksTo stack dep
      → member dep stack ≡ true
      → (name : Text) × (names : List Text) × (cycle_from dep stack ≡ some (name ∷ names))
        × IsCycle (name ∷ names)
  unfolding cycle_from member
  cycle_from-IsCycle dep [] p l m = cc
  cycle_from-IsCycle dep (x ∷ stack) p l m = elim (Bool-cases (same x dep)) [
    | inl here ↦ (
      x,
      stack ++ (dep ∷ []),
      rw here,
      (IsPath-snoc (x ∷ stack) dep p l, rw ((same_iff x dep).0 here) (EndsIn-snoc stack dep)),
    )
    | inr other ↦
        let deeper : member dep stack ≡ true = ground (arith, same_iff x dep, same_iff dep x) in
        let (name, names, found, cycle) =
          cycle_from-IsCycle dep stack (IsPath-tail x stack p) (LinksTo-tail x dep stack deeper l)
            deeper in
        (name, names, rw other found, cycle)
  ]
