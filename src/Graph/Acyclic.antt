-- ===== src/Graph/Acyclic.antt =====
-- Cycles as dependencies followed back to a process.
use process_deck.Base.{◌≡◌, sym, subst, inl, inr, true, List, [], ◌∷◌, Bool-cases, arith}
use process_deck.Base.Text.{Text, same, same_iff, member}
use process_deck.Graph.{Deps, deps_of, keys, unseen, active, finished, Marks, mark_of}
use process_deck.Graph.Paths.{IsPath, EndsIn}
use process_deck.Graph.Marking.{IsOrdered}

-- Dependencies followed one or more times.
pub data Follows (deps : Deps) : Text → Text → Type 0 where
  step : {a b : Text} → member b (deps_of deps a) ≡ true → Follows deps a b
  later : {a b c : Text} → member b (deps_of deps a) ≡ true → Follows deps b c → Follows deps a c

module _ (deps : Deps) where
  Follows-snoc :
      {a b c : Text} → Follows deps a b → member c (deps_of deps b) ≡ true → Follows deps a c
  Follows-snoc (step h) k = later h (step k)
  Follows-snoc (later h f) k = later h (Follows-snoc f k)

  pub IsPath-Follows :
      (name end : Text) (names : List Text)
      → IsPath deps (name ∷ names)
      → EndsIn deps names end
      → Follows deps name end
  IsPath-Follows name end [] p e = absurd e
  IsPath-Follows name end (next ∷ []) p e = step (rw (← e) p.0)
  IsPath-Follows name end (next ∷ other ∷ names) p e =
      later p.0 (IsPath-Follows next end (other ∷ names) p.1 e)

  -- No process that was finished follows itself.
  pub finished-not_Follows :
      (marks : Marks) (name : Text)
      → IsOrdered deps marks
      → mark_of marks name ≡ finished
      → ¬ Follows deps name name
  unfolding mark_of
  finished-not_Follows [] name ordered f loop = cc
  finished-not_Follows ((other, unseen) ∷ marks) name ordered f loop = ordered
  finished-not_Follows ((other, active) ∷ marks) name ordered f loop =
      finished-not_Follows marks name ordered (ground arith) loop
  finished-not_Follows ((other, finished) ∷ marks) name (before, ordered) f loop =
      elim (Bool-cases (same other name)) [
        | inr e ↦ finished-not_Follows marks name ordered (ground arith) loop
        | inl e ↦
            by_loop ((same_iff other name).0 e) (λ b fin. finished-not_Follows marks b ordered fin)
              loop
      ]
    where
      by_loop :
          (other ≡ name)
          → ((b : Text) → mark_of marks b ≡ finished → ¬ Follows deps b b)
          → Follows deps name name
          → ⊥
      by_loop e next (step h) =
          next name (before name (subst (λ n. member name (deps_of deps n) ≡ true) (sym e) h))
            (step h)
      by_loop e next (later {b} h f') =
          next b (before b (subst (λ n. member b (deps_of deps n) ≡ true) (sym e) h))
            (Follows-snoc f' h)

  key_of_dep :
      (rest : Deps) (name dep : Text)
      → member dep (deps_of rest name) ≡ true
      → member name (keys rest) ≡ true
  unfolding deps_of keys member
  key_of_dep [] name dep h = h
  key_of_dep ((key, values) ∷ rest) name dep h =
      ground (arith, same_iff key name, same_iff name key, key_of_dep rest name dep)

  -- Only a process of the map depends on anything.
  pub Follows-key : {a b : Text} → Follows deps a b → member a (keys deps) ≡ true
  Follows-key {a} {b} (step h) = key_of_dep deps a b h
  Follows-key {a} (later {b} h f) = key_of_dep deps a b h
